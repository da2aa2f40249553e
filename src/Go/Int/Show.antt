-- ===== src/Go/Int/Show.antt =====
-- strconv.Itoa of a number that an int can hold, and strconv.Atoi of what it prints.
use gopher_cni.Go.Text.Trim.{IsSolid, are_solid}
use gopher_cni.Go.Int.{
  atoi, decimal, decimal_from, in_range_pos, is_digit, pos, in_range_neg, negate, negsuc, ℤ,
}
use gopher_cni.Go.Text.Plain.{are_plain, is_plain, are_plain-IsSolid, are_plain-solid}
use gopher_cni.Go.Text.{Text, is_empty, is_space}
use gopher_cni.Prelude.{
  Bool-cases, [], ap, arith, false, if◌then◌else◌, inl, inr, leb, ltb, ltb→lt, refl, some, suc,
  true, zero, ℕ, ◌%◌, ◌&&◌, ◌*◌, ◌+◌, ◌-◌, ◌/◌, ◌<◌, ◌==◌, ◌^◌, ◌∙◌, ◌∷◌, ◌≡◌, sym,
}

-- the last `k` digits of a number at most, in front of `rest`
digits : ℕ → ℕ → Text → Text
digits zero n rest = rest
digits (suc k) n rest =
    let more = digits k (n / 10) ((b'0' + n % 10) ∷ rest) in
    if ltb n 10 then (b'0' + n) ∷ rest else more

-- Nineteen digits are enough for every int.
unfoldable pub show_number : ℕ → Text
unfolding digits
show_number n = digits 19 n []

pub digit_read :
    (acc d : ℕ) (s : Text)
    → d < 10
    → decimal_from acc ((b'0' + d) ∷ s) ≡ decimal_from (acc * 10 + d) s
unfolding decimal_from is_digit
digit_read acc d s lt =
    let e : acc * 10 + (b'0' + d - b'0') ≡ acc * 10 + d = omega arith in
    let digit : (leb b'0' (b'0' + d) && leb (b'0' + d) b'9') ≡ true = ground arith in
    rw (digit, e) refl

tenth_lt : (k n : ℕ) → n < 10 ^ suc k → n / 10 < 10 ^ k
tenth_lt k n lt = omega arith

decimal_from-digits :
    (k n : ℕ) (rest : Text) → n < 10 ^ k → decimal_from 0 (digits k n rest) ≡ decimal_from n rest
unfolding digits
decimal_from-digits zero n rest lt = ap (λ (m : ℕ). decimal_from m rest) (omega arith)
decimal_from-digits (suc k) n rest lt = elim (Bool-cases (ltb n 10)) [
  | inl e ↦
      rw e (digit_read 0 n rest (ltb→lt n 10 e) ∙ ap (λ (m : ℕ). decimal_from m rest) (omega arith))
  | inr e ↦ rw e (
      decimal_from-digits k (n / 10) ((b'0' + n % 10) ∷ rest) (tenth_lt k n lt)
      ∙ digit_read (n / 10) (n % 10) rest (omega arith)
      ∙ ap (λ (m : ℕ). decimal_from m rest) (omega arith))
]

-- They begin with a digit.
digits-first :
    (k n : ℕ) (rest : Text)
    → (c : ℕ) × (s : Text) × (digits (suc k) n rest ≡ c ∷ s) × (is_digit c ≡ true)
unfolding digits is_digit
digits-first zero n rest = elim (Bool-cases (ltb n 10)) [
  | inl e ↦ (b'0' + n, rest, rw e refl, ground (arith, e))
  | inr e ↦ (b'0' + n % 10, rest, rw e refl, ground arith)
]
digits-first (suc k) n rest = elim (Bool-cases (ltb n 10)) [
  | inl e ↦ (b'0' + n, rest, rw e refl, ground (arith, e))
  | inr e ↦
      let (c, s, first, digit) = digits-first k (n / 10) ((b'0' + n % 10) ∷ rest) in
      (c, s, rw e first, digit)
]

digits-plain : (k n : ℕ) (rest : Text) → are_plain rest ≡ true → are_plain (digits k n rest) ≡ true
unfolding digits are_plain is_plain
digits-plain zero n rest h = h
digits-plain (suc k) n rest h = elim (Bool-cases (ltb n 10)) [
  | inl e ↦ rw e (ground (arith, h, e))
  | inr e ↦ rw e (digits-plain k (n / 10) ((b'0' + n % 10) ∷ rest) (ground (arith, h)))
]

pub show_number-plain : (n : ℕ) → are_plain (show_number n) ≡ true
unfolding show_number are_plain
show_number-plain n = digits-plain 19 n [] refl

pub show_number-full : (n : ℕ) → is_empty (show_number n) ≡ false
unfolding show_number is_empty
show_number-full n = let (c, s, first, digit) = digits-first 18 n [] in rw first refl

atoi-digit :
    (c : ℕ) (s : Text) → is_digit c ≡ true → atoi (c ∷ s) ≡ in_range_pos (decimal_from 0 (c ∷ s))
unfolding atoi is_digit decimal is_empty
atoi-digit c s h = ground (arith, h)

-- A number that an int can hold is read back from its print.
pub atoi-show_number : (n : ℕ) → n < 2 ^ 63 → atoi (show_number n) ≡ some (pos n)
unfolding show_number in_range_pos decimal_from
atoi-show_number n lt =
    let (c, s, first, digit) = digits-first 18 n [] in
    let read = decimal_from-digits 19 n [] (omega arith) in
    let in_range : ltb n (2 ^ 63) ≡ true = ground arith in
    ap atoi first
    ∙ atoi-digit c s digit
    ∙ ap (λ (t : Text). in_range_pos (decimal_from 0 t)) (sym first)
    ∙ ap in_range_pos read
    ∙ rw in_range refl

decimal-show_number : (n : ℕ) → n < 10 ^ 19 → decimal (show_number n) ≡ some n
unfolding decimal show_number decimal_from
decimal-show_number n lt = let full = show_number-full n in rw full (decimal_from-digits 19 n [] lt)

-- strconv.Itoa
unfoldable pub show_int : ℤ → Text
show_int (pos n) = show_number n
show_int (negsuc n) = b'-' ∷ show_number (n + 1)

-- the values of an int
abbrev pub IsInt : ℤ → Type 0
IsInt (pos n) = n < 2 ^ 63
IsInt (negsuc n) = n < 2 ^ 63

pub show_int-IsSolid : (z : ℤ) → IsSolid (show_int z)
unfolding show_int are_solid is_space is_empty
show_int-IsSolid (pos n) =
    are_plain-IsSolid (show_number n) (show_number-plain n) (show_number-full n)
show_int-IsSolid (negsuc n) =
    (are_plain-solid (show_number (n + 1)) (show_number-plain (n + 1)), refl)

-- An int is read back from its print.
pub atoi-show_int : (z : ℤ) → IsInt z → atoi (show_int z) ≡ some z
unfolding show_int atoi in_range_neg negate
atoi-show_int (pos n) lt = atoi-show_number n lt
atoi-show_int (negsuc n) lt =
    let read = decimal-show_number (n + 1) (omega arith) in
    let in_range : leb (n + 1) (2 ^ 63) ≡ true = ground arith in
    let positive : (n + 1 == 0) ≡ false = ground arith in
    rw (read, in_range, positive) (ap (λ (m : ℕ). some (negsuc m)) (omega arith))
