-- ===== src/Utils/Env.antt =====
-- internal/utils/env.go: environment variables with a default. The type parameter of GetEnv is one
-- of the constructors of EnvValue; a value of a type that the code does not know is `other`.
use gopher_cni.Go.Dict.{Dict, get_or_empty}
use gopher_cni.Go.Int.{atoi, ℤ}
use gopher_cni.Go.Text.{Text, codes, is_empty, text_eq}
use gopher_cni.Prelude.{
  [], Bool, Bool-cases, List, Option, false, if◌then◌else◌, inl, inr, none, refl, some, true, ◌||◌,
  ◌∷◌, ◌≡◌,
}

unfoldable pub is_one_of : List Text → Text → Bool
is_one_of [] s = false
is_one_of (x ∷ xs) s = text_eq x s || is_one_of xs s

abbrev true_words : List Text
true_words = codes "1" ∷ codes "t" ∷ codes "T" ∷ codes "true" ∷ codes "TRUE" ∷ codes "True" ∷ []

abbrev false_words : List Text
false_words = codes "0" ∷ codes "f" ∷ codes "F" ∷ codes "false" ∷ codes "FALSE" ∷ codes "False" ∷ []

-- strconv.ParseBool
unfoldable pub parse_bool : Text → Option Bool
unfolding is_one_of
parse_bool s =
    if is_one_of true_words s
    then some true
    else if is_one_of false_words s
    then some false
    else none

pub data EnvValue : Type 0 where
  text : Text → EnvValue
  number : ℤ → EnvValue
  flag : Bool → EnvValue
  other : Text → EnvValue

or_default : EnvValue → Option EnvValue → EnvValue
or_default default_value none = default_value
or_default default_value (some v) = v

read_number : Option ℤ → Option EnvValue
read_number none = none
read_number (some n) = some (number n)

read_flag : Option Bool → Option EnvValue
read_flag none = none
read_flag (some b) = some (flag b)

-- The switch on the type of the default; `none` where the default is returned.
read_as : EnvValue → Text → Option EnvValue
unfolding read_number read_flag
read_as (text d) value = some (text value)
read_as (number d) value = read_number (atoi value)
read_as (flag d) value = read_flag (parse_bool value)
read_as (other d) value = none

-- GetEnv
unfoldable pub get_env : Dict → Text → EnvValue → EnvValue
unfolding or_default read_as
get_env env key default_value =
    let value = get_or_empty key env in
    if is_empty value then default_value else or_default default_value (read_as default_value value)

-- Two values of one type.
abbrev pub SameType : EnvValue → EnvValue → Type 0
SameType (text a) (text b) = Unit
SameType (number a) (number b) = Unit
SameType (flag a) (flag b) = Unit
SameType (other a) (other b) = a ≡ b
SameType _ _ = ⊥

SameType-refl : (v : EnvValue) → SameType v v
SameType-refl (text a) = tt
SameType-refl (number a) = tt
SameType-refl (flag a) = tt
SameType-refl (other a) = refl

SameType-read_as : (d : EnvValue) (value : Text) → SameType d (or_default d (read_as d value))
unfolding or_default read_as read_number read_flag
SameType-read_as (text d) value = tt
SameType-read_as (number d) value =
    elim (atoi value) as (λ o. SameType (number d) (or_default (number d) (read_number o))) [
      | none ↦ tt
      | some n ↦ tt
    ]
SameType-read_as (flag d) value =
    elim (parse_bool value) as (λ o. SameType (flag d) (or_default (flag d) (read_flag o))) [
      | none ↦ tt
      | some b ↦ tt
    ]
SameType-read_as (other d) value = refl

-- GetEnv returns a value of the type of its default, whatever the variable holds, so that its type
-- assertion never fails; where it does not know the type it returns the default.
pub get_env-SameType : (env : Dict) (key : Text) (d : EnvValue) → SameType d (get_env env key d)
unfolding get_env
get_env-SameType env key d = elim (Bool-cases (is_empty (get_or_empty key env))) [
  | inl e ↦ rw e (SameType-refl d)
  | inr e ↦ rw e (SameType-read_as d (get_or_empty key env))
]

-- GetEnv[string]
pub get_env-text :
    (env : Dict) (key d : Text)
    → get_env env key (text d)
      ≡ text (if is_empty (get_or_empty key env) then d else get_or_empty key env)
unfolding get_env or_default read_as
get_env-text env key d = elim (Bool-cases (is_empty (get_or_empty key env))) [
  | inl e ↦ rw e refl
  | inr e ↦ rw e refl
]
