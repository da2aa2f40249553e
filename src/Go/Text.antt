-- ===== src/Go/Text.antt =====
-- Go's package strings, as far as the program uses it. A text is the list of its code points.
pub mod Trim
pub mod Plain
use gopher_cni.Prelude.{
  ℕ, ◌+◌, ◌≡◌, ◌↔◌, Bool, true, false, ◌&&◌, ◌||◌, Option, none, some, List, [], ◌∷◌, String, code,
  arith, leb, ◌==◌, if◌then◌else◌,
}

abbrev pub Text : Type 0
Text = List ℕ

-- A literal of the source. It stays shut, so that a proof does not walk through its letters.
unfoldable pub codes : String → Text
codes String.[] = []
codes (String.◌∷◌ c s) = code c ∷ codes s

-- s == t
unfoldable pub text_eq : Text → Text → Bool
text_eq [] [] = true
text_eq (x ∷ s) (y ∷ t) = x == y && text_eq s t
text_eq _ _ = false

pub text_eq_iff : (s t : Text) → (text_eq s t ≡ true) ↔ (s ≡ t)
unfolding text_eq
text_eq_iff (x ∷ s) (y ∷ t) = ground (arith, text_eq_iff s t)
text_eq_iff _ _ = ground arith

-- s == ""
unfoldable pub is_empty : Text → Bool
is_empty [] = true
is_empty _ = false

-- unicode.IsSpace
unfoldable pub is_space : ℕ → Bool
is_space c =
    (leb 9 c && leb c 13)
    || c == 32
    || c == 0x85
    || c == 0xA0
    || c == 0x1680
    || (leb 0x2000 c && leb c 0x200A)
    || c == 0x2028
    || c == 0x2029
    || c == 0x202F
    || c == 0x205F
    || c == 0x3000

-- strings.TrimLeftFunc(s, unicode.IsSpace)
unfoldable pub trim_left : Text → Text
unfolding is_space
trim_left [] = []
trim_left (c ∷ s) = if is_space c then trim_left s else c ∷ s

-- strings.TrimRightFunc(s, unicode.IsSpace)
unfoldable pub trim_right : Text → Text
unfolding is_space is_empty
trim_right [] = []
trim_right (c ∷ s) = let rest = trim_right s in if is_space c && is_empty rest then [] else c ∷ rest

-- strings.TrimSpace
unfoldable pub trim_space : Text → Text
unfolding trim_left trim_right
trim_space s = trim_right (trim_left s)

-- What stands before the first `sep`, and what stands behind it if there is one.
unfoldable pub cut : ℕ → Text → Text × Option Text
cut sep [] = ([], none)
cut sep (c ∷ s) = let rest = cut sep s in if c == sep then ([], some s) else (c ∷ rest.0, rest.1)

-- the first field of a text that goes on with the fields `fs`
abbrev onto_first : ℕ → List Text → List Text
onto_first c [] = (c ∷ []) ∷ []
onto_first c (f ∷ fs) = (c ∷ f) ∷ fs

-- strings.Split(s, sep) at a separator of one code point
unfoldable pub split : ℕ → Text → List Text
split sep [] = [] ∷ []
split sep (c ∷ s) = let rest = split sep s in if c == sep then [] ∷ rest else onto_first c rest

-- strings.Contains(s, c), strings.ContainsRune
unfoldable pub contains_code : ℕ → Text → Bool
contains_code c [] = false
contains_code c (x ∷ s) = x == c || contains_code c s

-- strings.HasPrefix(s, t) and strings.Contains(s, t), with the text that is looked for first
unfoldable pub has_prefix : Text → Text → Bool
has_prefix [] s = true
has_prefix (c ∷ t) [] = false
has_prefix (c ∷ t) (d ∷ s) = c == d && has_prefix t s

unfoldable pub contains_sub : Text → Text → Bool
unfolding has_prefix
contains_sub t [] = is_empty t
contains_sub t (d ∷ s) = has_prefix t (d ∷ s) || contains_sub t s

-- strings.HasPrefix(s, c) for a text of one code point
unfoldable pub starts_with_code : ℕ → Text → Bool
starts_with_code c [] = false
starts_with_code c (x ∷ s) = x == c

-- strings.HasSuffix(s, c) for a text of one code point
unfoldable pub ends_with_code : ℕ → Text → Bool
ends_with_code c [] = false
ends_with_code c (x ∷ []) = x == c
ends_with_code c (x ∷ y ∷ s) = ends_with_code c (y ∷ s)

-- s[:len(s)-1], on a text that is not empty
unfoldable pub drop_last : Text → Text
drop_last [] = []
drop_last (x ∷ []) = []
drop_last (x ∷ y ∷ s) = x ∷ drop_last (y ∷ s)

-- s[1:], on a text that is not empty
unfoldable pub drop_first : Text → Text
drop_first [] = []
drop_first (x ∷ s) = s

-- strings.TrimSuffix(s, c) for a suffix of one code point
unfoldable pub trim_suffix_code : ℕ → Text → Text
unfolding ends_with_code drop_last
trim_suffix_code c s = if ends_with_code c s then drop_last s else s

-- unicode.ToLower on ASCII, and on the two code points outside it whose lower case is in ASCII.
-- Others are left as they are: the source only compares the result with ASCII words.
unfoldable pub lower_code : ℕ → ℕ
lower_code c =
    if leb b'A' c && leb c b'Z'
    then c + 32
    else if c == 0x130
    then b'i'
    else if c == 0x212A
    then b'k'
    else c

-- strings.ToLower
unfoldable pub to_lower : Text → Text
unfolding lower_code
to_lower [] = []
to_lower (c ∷ s) = lower_code c ∷ to_lower s
