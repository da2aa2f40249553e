-- ===== src/Go/Text/Trim.antt =====
-- Package strings on texts without white space: what TrimSpace, Cut and Split leave as it is.
use gopher_cni.Go.Text.{
  Text, contains_code, cut, is_empty, is_space, split, trim_left, trim_right, trim_space,
}
use gopher_cni.Prelude.{
  ==_iff, Bool, [], ap, and-true, arith, false, not, or-false, refl, some, true, ℕ, ◌&&◌, ◌++◌,
  ◌==◌, ◌∙◌, ◌∷◌, ◌≡◌,
}

pub cut-append :
    (sep : ℕ) (s t : Text) → contains_code sep s ≡ false → cut sep (s ++ sep ∷ t) ≡ (s, some t)
unfolding cut contains_code
cut-append sep [] t h = rw ((==_iff sep sep).1 refl) refl
cut-append sep (x ∷ s) t h =
    let p = or-false (x == sep) (contains_code sep s) h in rw (p.0, cut-append sep s t p.1) refl

-- A text without the separator is its only field.
pub split-whole : (sep : ℕ) (s : Text) → contains_code sep s ≡ false → split sep s ≡ s ∷ []
unfolding split contains_code
split-whole sep [] h = refl
split-whole sep (x ∷ s) h =
    let p = or-false (x == sep) (contains_code sep s) h in rw (p.0, split-whole sep s p.1) refl

unfoldable pub are_solid : Text → Bool
are_solid [] = true
are_solid (c ∷ s) = not (is_space c) && are_solid s

-- A text that is not empty and has no white space.
abbrev pub IsSolid : Text → Type 0
IsSolid s = (are_solid s ≡ true) × (is_empty s ≡ false)

not-false : (b : Bool) → not b ≡ true → b ≡ false
not-false b h = ground arith

is_empty-append : (s t : Text) → is_empty t ≡ false → is_empty (s ++ t) ≡ false
unfolding is_empty
is_empty-append [] t h = h
is_empty-append (c ∷ s) t h = refl

trim_right-solid : (s : Text) → are_solid s ≡ true → trim_right s ≡ s
unfolding trim_right are_solid
trim_right-solid [] h = refl
trim_right-solid (c ∷ s) h =
    let p = and-true (not (is_space c)) (are_solid s) h in
    rw (not-false (is_space c) p.0, trim_right-solid s p.1) refl

-- Nothing is trimmed from the right where the text ends without white space.
trim_right-append :
    (s t : Text) → trim_right t ≡ t → is_empty t ≡ false → trim_right (s ++ t) ≡ s ++ t
unfolding trim_right
trim_right-append [] t h full = h
trim_right-append (c ∷ s) t h full =
    rw (trim_right-append s t h full, is_empty-append s t full) (ground arith)

trim_right-space : (s : Text) → are_solid s ≡ true → trim_right (s ++ b' ' ∷ []) ≡ s
unfolding trim_right are_solid is_space is_empty
trim_right-space [] h = refl
trim_right-space (c ∷ s) h =
    let p = and-true (not (is_space c)) (are_solid s) h in
    rw (trim_right-space s p.1) (ground (arith, p.0))

trim_left-solid : (c : ℕ) (s : Text) → is_space c ≡ false → trim_left (c ∷ s) ≡ c ∷ s
unfolding trim_left
trim_left-solid c s h = rw h refl

pub trim_space-solid : (s : Text) → are_solid s ≡ true → trim_space s ≡ s
unfolding trim_space are_solid trim_left trim_right
trim_space-solid [] h = refl
trim_space-solid (c ∷ s) h =
    let p = and-true (not (is_space c)) (are_solid s) h in
    ap trim_right (trim_left-solid c s (not-false (is_space c) p.0)) ∙ trim_right-solid (c ∷ s) h

-- One space on either side of such a text is trimmed.
pub trim_space-before : (s : Text) → are_solid s ≡ true → trim_space (b' ' ∷ s) ≡ s
unfolding trim_space trim_left is_space
trim_space-before s h = trim_space-solid s h

pub trim_space-after : (s : Text) → IsSolid s → trim_space (s ++ b' ' ∷ []) ≡ s
unfolding trim_space are_solid is_empty
trim_space-after [] h = cc
trim_space-after (c ∷ s) h =
    let p = and-true (not (is_space c)) (are_solid s) h.0 in
    ap trim_right (trim_left-solid c (s ++ b' ' ∷ []) (not-false (is_space c) p.0))
    ∙ trim_right-space (c ∷ s) h.0

-- What stands between two such texts is not trimmed.
pub trim_space-between :
    (c : ℕ) (s m t : Text)
    → is_space c ≡ false
    → IsSolid t
    → trim_space (c ∷ s ++ (m ++ t)) ≡ c ∷ s ++ (m ++ t)
unfolding trim_space
trim_space-between c s m t first last =
    let tight = trim_right-append m t (trim_right-solid t last.0) last.1 in
    ap trim_right (trim_left-solid c (s ++ (m ++ t)) first)
    ∙ trim_right-append (c ∷ s) (m ++ t) tight (is_empty-append m t last.1)
