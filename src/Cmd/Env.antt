-- ===== src/Cmd/Env.antt =====
-- The two types at which the executables call utils.GetEnv. The type of its result is that of the
-- default, so the other constructors do not come up.
use gopher_cni.Go.Dict.{Dict, get_or_empty}
use gopher_cni.Go.Int.{pos, ℤ}
use gopher_cni.Go.Text.{Text, is_empty}
use gopher_cni.Prelude.{Bool-cases, [], false, if◌then◌else◌, inl, inr, refl, ◌∷◌, ◌≡◌}
use gopher_cni.Utils.Env.{EnvValue, text, get_env, get_env-text, number}

abbrev pub text_value : EnvValue → Text
text_value (text s) = s
text_value _ = []

abbrev pub number_value : EnvValue → ℤ
number_value (number n) = n
number_value _ = pos 0

unfoldable pub env_text : Dict → Text → Text → Text
env_text env key default_value = text_value (get_env env key (text default_value))

unfoldable pub env_number : Dict → Text → ℤ → ℤ
env_number env key default_value = number_value (get_env env key (number default_value))

-- A variable with a default that is not empty is not empty.
pub env_text_full :
    (env : Dict) (key default_value : Text)
    → is_empty default_value ≡ false
    → is_empty (env_text env key default_value) ≡ false
unfolding env_text
env_text_full env key default_value full =
    rw (get_env-text env key default_value) (not_empty default_value (get_or_empty key env) full)
  where
    not_empty : (d v : Text) → is_empty d ≡ false → is_empty (if is_empty v then d else v) ≡ false
    not_empty d v h = elim (Bool-cases (is_empty v)) [ inl e ↦ rw e h | inr e ↦ rw e e ]

-- A variable without a default is what the environment has.
pub env_text_plain : (env : Dict) (key : Text) → env_text env key [] ≡ get_or_empty key env
unfolding env_text is_empty
env_text_plain env key = rw (get_env-text env key []) (itself (get_or_empty key env))
  where
    itself : (v : Text) → (if is_empty v then [] else v) ≡ v
    itself [] = refl
    itself (c ∷ s) = refl

-- A variable that is not set has its default.
pub env_text_unset :
    (env : Dict) (key d : Text) → get_or_empty key env ≡ [] → env_text env key d ≡ d
unfolding env_text is_empty
env_text_unset env key d e = rw (get_env-text env key d, e) refl
