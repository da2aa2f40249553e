-- ===== src/Go/Text/Plain.antt =====
-- Texts of digits, dots and slashes, as numbers and IPv4 networks are printed.
use gopher_cni.Go.Text.Trim.{IsSolid, are_solid}
use gopher_cni.Go.Text.{Text, contains_code, is_empty, is_space}
use gopher_cni.Prelude.{
  Bool, [], and-true, arith, false, leb, not, refl, true, ℕ, ◌&&◌, ◌++◌, ◌∷◌, ◌≡◌,
}

-- the code points from '.' to '9', which are '.', '/' and the digits
unfoldable pub is_plain : ℕ → Bool
is_plain c = leb b'.' c && leb c b'9'

unfoldable pub are_plain : Text → Bool
are_plain [] = true
are_plain (c ∷ s) = is_plain c && are_plain s

pub are_plain-append :
    (s t : Text) → are_plain s ≡ true → are_plain t ≡ true → are_plain (s ++ t) ≡ true
unfolding are_plain
are_plain-append [] t h k = k
are_plain-append (c ∷ s) t h k = ground (arith, are_plain-append s t, h, k)

is_plain-solid : (c : ℕ) → is_plain c ≡ true → not (is_space c) ≡ true
unfolding is_plain is_space
is_plain-solid c h = ground (arith, h)

pub are_plain-solid : (s : Text) → are_plain s ≡ true → are_solid s ≡ true
unfolding are_plain are_solid
are_plain-solid [] h = refl
are_plain-solid (c ∷ s) h =
    let p = and-true (is_plain c) (are_plain s) h in
    rw (is_plain-solid c p.0, are_plain-solid s p.1) refl

pub are_plain-IsSolid : (s : Text) → are_plain s ≡ true → is_empty s ≡ false → IsSolid s
are_plain-IsSolid s h full = (are_plain-solid s h, full)

-- Another code point does not occur.
pub are_plain-free :
    (c : ℕ) (s : Text) → is_plain c ≡ false → are_plain s ≡ true → contains_code c s ≡ false
unfolding are_plain contains_code is_plain
are_plain-free c [] other h = refl
are_plain-free c (x ∷ s) other h =
    let p = and-true (is_plain x) (are_plain s) h in
    rw (are_plain-free c s other p.1) (ground (arith, other, p.0))
