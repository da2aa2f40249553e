-- ===== src/Wireguard/Parser/Lines.antt =====
-- The loop of ParseConfig, line by line: the place of an error, and the lines that do not count.
use gopher_cni.Prelude.{
  none, some, Option, ℕ, ◌+◌, ◌≡◌, refl, ap, inl, inr, true, List, [], ◌∷◌, ◌++◌, arith, length,
  Bool-cases, if◌then◌else◌, Result, ok, err, Result-cases, Bool, ◌==◌, ◌||◌,
}
use gopher_cni.Go.Text.{Text, trim_space, is_empty, starts_with_code}
use gopher_cni.Wireguard.Parser.{
  Decoders, State, LineError, ParseError, at_line, reading_config, parse_line, parse_lines,
  is_skipped,
}

-- `lines` splits where the loop gave up: it took the lines before, from state `s`, and refused the
-- next one, whose number is `n`.
pub record FailsAt (d : Decoders) (first : ℕ) (s : State) (lines : List Text) (n : ℕ)
    (e : LineError) : Type 0 where
  pub read : List Text
  pub bad : Text
  pub unread : List Text
  pub last : State
  pub splits : lines ≡ read ++ bad ∷ unread
  pub reads : parse_lines d first s read ≡ ok last
  pub refuses : parse_line d last (trim_space bad) ≡ err e
  pub number_lem : n ≡ first + length read + 1

pub at_line-injective :
    (a b : ℕ) (e f : LineError)
    → ◌≡◌ {A = Result ParseError State} (err (at_line a e)) (err (at_line b f))
    → (a ≡ b) × (e ≡ f)
at_line-injective a b e f h = (cc, cc)

-- The result of the loop without the numbers of its lines.
abbrev pub unnumbered : Result ParseError State → Result (Option LineError) State
unnumbered (ok s) = ok s
unnumbered (err (at_line n e)) = err (some e)
unnumbered (err reading_config) = err none

-- Of a trimmed line: it is empty, or a comment behind '#' or ';'.
unfoldable pub is_blank : Text → Bool
is_blank [] = true
is_blank (c ∷ s) = c == b'#' || c == b';'

-- The lines that are neither empty nor comments.
pub counted_lines : List Text → List Text
unfolding is_blank
counted_lines [] = []
counted_lines (line ∷ lines) =
    let rest = counted_lines lines in if is_blank (trim_space line) then rest else line ∷ rest

module _ (d : Decoders) where
  FailsAt-cons :
      (first : ℕ) (s s' : State) (line : Text) (lines : List Text) (n : ℕ) (e : LineError)
      → parse_line d s (trim_space line) ≡ ok s'
      → FailsAt d (first + 1) s' lines n e
      → FailsAt d first s (line ∷ lines) n e
  unfolding parse_lines
  FailsAt-cons first s s' line lines n e step f = record {
    read = line ∷ f.read;
    bad = f.bad;
    unread = f.unread;
    last = f.last;
    splits = ap (◌∷◌ line) f.splits;
    reads = rw step f.reads;
    refuses = f.refuses;
    number_lem = omega (arith, f.number_lem);
  }

  -- The loop reports an error at a line only if it is the line's own: all lines before it were
  -- taken, this one is refused with that error in the state they left, and the number is its own.
  pub parse_lines-FailsAt :
      (first : ℕ) (s : State) (lines : List Text) (n : ℕ) (e : LineError)
      → parse_lines d first s lines ≡ err (at_line n e)
      → FailsAt d first s lines n e
  unfolding parse_lines
  parse_lines-FailsAt first s [] n e h = cc
  parse_lines-FailsAt first s (line ∷ lines) n e h =
      elim (Result-cases (parse_line d s (trim_space line))) [
        | inl (s', step) ↦
            FailsAt-cons first s s' line lines n e step
              (parse_lines-FailsAt (first + 1) s' lines n e (rw step at h))
        | inr (e', refused) ↦
            let (a, b) = at_line-injective (first + 1) n e' e (rw refused at h) in
            record {
              read = [];
              bad = line;
              unread = lines;
              last = s;
              splits = refl;
              reads = refl;
              refuses = rw (← b) refused;
              number_lem = omega arith;
            }
      ]

  parse_line-is_blank :
      (s : State) (line : Text) → is_blank line ≡ true → parse_line d s line ≡ ok s
  unfolding parse_line is_skipped is_blank is_empty starts_with_code
  parse_line-is_blank s [] h = refl
  parse_line-is_blank s (c ∷ line) h = rw h

  -- Empty lines and comments change nothing but the numbers of the lines behind them: without them
  -- the loop ends in the same state, or with the same error.
  pub parse_lines-counted_lines :
      (m n : ℕ) (s : State) (lines : List Text)
      → unnumbered (parse_lines d m s lines) ≡ unnumbered (parse_lines d n s (counted_lines lines))
  unfolding parse_lines counted_lines
  parse_lines-counted_lines m n s [] = refl
  parse_lines-counted_lines m n s (line ∷ lines) = elim (Bool-cases (is_blank (trim_space line))) [
    | inl skip ↦
        rw (skip, parse_line-is_blank s (trim_space line) skip)
          (parse_lines-counted_lines (m + 1) n s lines)
    | inr real ↦ elim (Result-cases (parse_line d s (trim_space line))) [
      | inl (s', step) ↦ rw (real, step) (parse_lines-counted_lines (m + 1) (n + 1) s' lines)
      | inr (e, refused) ↦ rw (real, refused)
    ]
  ]
