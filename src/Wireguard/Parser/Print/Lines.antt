-- ===== src/Wireguard/Parser/Print/Lines.antt =====
-- The loop of ParseConfig on the lines of a file: those that it takes, and one `Key = value`.
use gopher_cni.Go.Text.Trim.{
  IsSolid, are_solid, cut-append, trim_space-after, trim_space-before, trim_space-between,
}
use gopher_cni.Go.Text.{Text, contains_code, cut, is_empty, is_space, starts_with_code, trim_space}
use gopher_cni.Prelude.{
  Bool, List, [], and-true, ap, append_assoc, arith, false, leb, not, ok, refl, some, true, ℕ, ◌&&◌,
  ◌++◌, ◌+◌, ◌==◌, ◌||◌, ◌∙◌, ◌∷◌, ◌≡◌, sym,
}
use gopher_cni.Wireguard.Parser.Print.{pair}
use gopher_cni.Wireguard.Parser.{
  Decoders, State, is_header, is_skipped, parse_line, parse_lines, parse_pair, split_pair,
}

unfoldable pub is_letter : ℕ → Bool
is_letter c = (leb b'A' c && leb c b'Z') || (leb b'a' c && leb c b'z')

unfoldable pub is_word : Text → Bool
is_word [] = true
is_word (c ∷ s) = is_letter c && is_word s

is_letter-solid : (c : ℕ) → is_letter c ≡ true → not (is_space c) ≡ true
unfolding is_letter is_space
is_letter-solid c h = ground (arith, h)

is_word-solid : (s : Text) → is_word s ≡ true → are_solid s ≡ true
unfolding is_word are_solid
is_word-solid [] h = refl
is_word-solid (c ∷ s) h =
    let p = and-true (is_letter c) (is_word s) h in
    rw (is_letter-solid c p.0, is_word-solid s p.1) refl

is_word-free : (s : Text) → is_word s ≡ true → contains_code b'=' s ≡ false
unfolding is_word contains_code is_letter
is_word-free [] h = refl
is_word-free (c ∷ s) h =
    let p = and-true (is_letter c) (is_word s) h in rw (is_word-free s p.1) (ground (arith, p.0))

space-free : (s : Text) → contains_code b'=' s ≡ false → contains_code b'=' (s ++ b' ' ∷ []) ≡ false
unfolding contains_code
space-free [] h = refl
space-free (c ∷ s) h = ground (arith, space-free s, h)

module _ (d : Decoders) where
  line_of_pair :
      (c : ℕ) (s value : Text)
      → is_word (c ∷ s) ≡ true
      → IsSolid value
      → trim_space (pair (c ∷ s) value) ≡ pair (c ∷ s) value
  unfolding pair is_word is_letter is_space
  line_of_pair c s value word solid =
      let p = and-true (is_letter c) (is_word s) word in
      trim_space-between c s (b' ' ∷ b'=' ∷ b' ' ∷ []) value (ground (arith, p.0)) solid

  cut-pair :
      (c : ℕ) (s value : Text)
      → is_word (c ∷ s) ≡ true
      → cut b'=' (pair (c ∷ s) value) ≡ (c ∷ s ++ b' ' ∷ [], some (b' ' ∷ value))
  unfolding pair
  cut-pair c s value word =
      ap (cut b'=') (sym (append_assoc (c ∷ s) (b' ' ∷ []) (b'=' ∷ b' ' ∷ value)))
      ∙ cut-append b'=' (c ∷ s ++ b' ' ∷ []) (b' ' ∷ value)
          (space-free (c ∷ s) (is_word-free (c ∷ s) word))

  counted_pair :
      (c : ℕ) (s value : Text)
      → is_word (c ∷ s) ≡ true
      → (is_skipped (pair (c ∷ s) value) ≡ false) × (is_header (pair (c ∷ s) value) ≡ false)
  unfolding is_skipped is_header starts_with_code is_empty pair is_word is_letter
  counted_pair c s value word =
      let p = and-true (is_letter c) (is_word s) word in
      let other : (c == b'[') ≡ false = ground (arith, p.0) in (ground (arith, p.0), rw other refl)

  parse_line-pair_cons :
      (st : State) (c : ℕ) (s value : Text)
      → is_word (c ∷ s) ≡ true
      → IsSolid value
      → parse_line d st (trim_space (pair (c ∷ s) value)) ≡ parse_pair d st (c ∷ s) value
  unfolding parse_line split_pair is_empty
  parse_line-pair_cons st c s value word solid =
      let key = trim_space-after (c ∷ s) (is_word-solid (c ∷ s) word, refl) in
      let counted = counted_pair c s value word in
      rw
        (
          line_of_pair c s value word solid,
          counted.0,
          counted.1,
          cut-pair c s value word,
          key,
          trim_space-before value solid.0,
        )
        refl

  -- A printed line, whose key is a word and whose value has no white space, is the pair of the two.
  pub parse_line-pair :
      (st : State) (key value : Text)
      → is_word key ≡ true
      → is_empty key ≡ false
      → IsSolid value
      → parse_line d st (trim_space (pair key value)) ≡ parse_pair d st key value
  unfolding is_empty
  parse_line-pair st [] value word full solid = cc
  parse_line-pair st (c ∷ s) value word full solid = parse_line-pair_cons st c s value word solid

  -- The loop takes the lines, wherever they stand, and comes from state `s` to `s'`.
  abbrev pub Takes : List Text → State → State → Type 0
  Takes lines s s' =
      (n : ℕ) (rest : List Text)
      → (m : ℕ) × (parse_lines d n s (lines ++ rest) ≡ parse_lines d m s' rest)

  pub Takes-nil : (s : State) → Takes [] s s
  Takes-nil s n rest = (n, refl)

  pub Takes-one :
      (line : Text) (s s' : State)
      → parse_line d s (trim_space line) ≡ ok s'
      → Takes (line ∷ []) s s'
  unfolding parse_lines
  Takes-one line s s' step n rest = (n + 1, rw step refl)

  pub Takes-append :
      (xs ys : List Text) (s s' s'' : State)
      → Takes xs s s'
      → Takes ys s' s''
      → Takes (xs ++ ys) s s''
  Takes-append xs ys s s' s'' first second n rest =
      let (m, e) = first n (ys ++ rest) in
      let (k, f) = second m rest in (k, ap (parse_lines d n s) (append_assoc xs ys rest) ∙ e ∙ f)

  pub Takes-cons :
      (line : Text) (ys : List Text) (s s' s'' : State)
      → parse_line d s (trim_space line) ≡ ok s'
      → Takes ys s' s''
      → Takes (line ∷ ys) s s''
  Takes-cons line ys s s' s'' step later =
      Takes-append (line ∷ []) ys s s' s'' (Takes-one line s s' step) later
