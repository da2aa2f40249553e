-- ===== src/Go/Int.antt =====
-- Go's int on a 64-bit machine, and strconv.Atoi.
pub mod Show
use gopher_cni.Prelude.{
  ℕ, ◌+◌, ◌-◌, ◌*◌, ◌%◌, ◌^◌, Bool, ◌&&◌, Option, none, some, [], ◌∷◌, ltb, leb, ◌==◌,
  if◌then◌else◌,
}
use gopher_cni.Go.Text.{Text, is_empty}

-- `negsuc n` is -(n + 1).
pub data ℤ : Type 0 where
  pos : ℕ → ℤ
  negsuc : ℕ → ℤ

abbrev pub int_min_size : ℕ
int_min_size = 2 ^ 63

-- The int that a 64-bit word stands for.
unfoldable pub of_word : ℕ → ℤ
of_word n = let w = n % 2 ^ 64 in if ltb w int_min_size then pos w else negsuc (2 ^ 64 - 1 - w)

-- -n
unfoldable pub negate : ℕ → ℤ
negate n = if n == 0 then pos 0 else negsuc (n - 1)

unfoldable pub is_digit : ℕ → Bool
is_digit c = leb b'0' c && leb c b'9'

-- The number that decimal digits spell, behind those that were read into `n`.
unfoldable pub decimal_from : ℕ → Text → Option ℕ
unfolding is_digit
decimal_from n [] = some n
decimal_from n (c ∷ s) =
    let rest = decimal_from (n * 10 + (c - b'0')) s in if is_digit c then rest else none

unfoldable pub decimal : Text → Option ℕ
unfolding decimal_from is_empty
decimal s = if is_empty s then none else decimal_from 0 s

in_range_pos : Option ℕ → Option ℤ
in_range_pos none = none
in_range_pos (some n) = if ltb n int_min_size then some (pos n) else none

in_range_neg : Option ℕ → Option ℤ
unfolding negate
in_range_neg none = none
in_range_neg (some n) = if leb n int_min_size then some (negate n) else none

-- strconv.Atoi; `none` is its error, of syntax or of range.
unfoldable pub atoi : Text → Option ℤ
unfolding decimal in_range_pos in_range_neg
atoi [] = none
atoi (c ∷ s) =
    if c == b'-'
    then in_range_neg (decimal s)
    else if c == b'+'
    then in_range_pos (decimal s)
    else in_range_pos (decimal (c ∷ s))
