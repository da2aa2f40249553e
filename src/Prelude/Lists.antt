-- ===== src/Prelude/Lists.antt =====
-- Lists measured by native numbers, and predicates on all or one of their elements.
use Prim.Native.Nat.{ℕ, suc, ◌+◌}
use mathlib.Core.Path.{◌≡◌, refl}
use mathlib.Core.Logic.{◌⊎◌, inl, inr}
use mathlib.Core.List.{List, [], ◌∷◌, ◌++◌}
use native.Mathlib.Omega.{arith}

module _ {ℓ} {A : Type ℓ} where
  abbrev pub length : List A → ℕ
  length [] = 0
  length (x ∷ xs) = suc (length xs)

  pub length-append : (xs ys : List A) → length (xs ++ ys) ≡ length xs + length ys
  length-append [] ys = omega arith
  length-append (x ∷ xs) ys = omega (arith, length-append xs ys)

module _ {ℓ κ} {A : Type ℓ} where
  -- Every element satisfies `P`.
  abbrev pub All : (A → Type κ) → List A → Type κ
  All P [] = Unit
  All P (x ∷ xs) = P x × All P xs

  pub All-append : (P : A → Type κ) (xs ys : List A) → All P xs → All P ys → All P (xs ++ ys)
  All-append P [] ys h k = k
  All-append P (x ∷ xs) ys h k = (h.0, All-append P xs ys h.1 k)

module _ {ℓ} {A : Type ℓ} where
  -- `x` is an element, at a place that the evidence gives.
  pub data In (x : A) : List A → Type ℓ where
    here : {y : A} {xs : List A} → x ≡ y → In x (y ∷ xs)
    there : {y : A} {xs : List A} → In x xs → In x (y ∷ xs)

  pub In-append_left : {x : A} {xs : List A} (ys : List A) → In x xs → In x (xs ++ ys)
  In-append_left ys (here e) = here e
  In-append_left ys (there h) = there (In-append_left ys h)

  pub In-append_right : {x : A} (xs : List A) {ys : List A} → In x ys → In x (xs ++ ys)
  In-append_right [] h = h
  In-append_right (y ∷ xs) h = there (In-append_right xs h)

module _ {ℓ κ} {A : Type ℓ} where
  pub All-imp : (P Q : A → Type κ) (xs : List A) → ((x : A) → P x → Q x) → All P xs → All Q xs
  All-imp P Q [] f h = h
  All-imp P Q (x ∷ xs) f h = (f x h.0, All-imp P Q xs f h.1)

pub All-In {ℓ} : {A : Type ℓ} (xs : List A) → All (λ (x : A). In x xs) xs
All-In [] = tt
All-In (x ∷ xs) =
    (here refl, All-imp (λ y. In y xs) (λ y. In y (x ∷ xs)) xs (λ y h. there h) (All-In xs))

-- To split on a computed list and keep the equation.
pub Nil-cases {ℓ} :
    {A : Type ℓ} (xs : List A) → (xs ≡ []) ⊎ ((y : A) × (ys : List A) × (xs ≡ y ∷ ys))
Nil-cases [] = inl refl
Nil-cases (x ∷ xs) = inr (x, xs, refl)
