-- ===== src/Go/Json.antt =====
-- encoding/json's values in an `any`, and the maps of type map[string]any.
use gopher_cni.Prelude.{
  false, ℕ, ◌≡◌, refl, Bool, Option, none, some, if◌then◌else◌, arith, inl, inr, Bool-cases,
}
use gopher_cni.Go.Text.{Text, text_eq, text_eq_iff}

-- A float64 is the number of its bits.
mutual
  pub data Json : Type 0 where
    null : Json
    boolean : Bool → Json
    float : ℕ → Json
    string : Text → Json
    array : Items → Json
    object : Fields → Json

  pub data Items : Type 0 where
    nil : Items
    cons : Json → Items → Items

  pub data Fields : Type 0 where
    end : Fields
    field : Text → Json → Fields → Fields

-- v, ok := m[k]
unfoldable pub get_field : Text → Fields → Option Json
get_field k end = none
get_field k (field j v m) = let rest = get_field k m in if text_eq j k then some v else rest

-- m[k] = v, in the place of the key if the map has it
unfoldable pub set_field : Text → Json → Fields → Fields
set_field k v end = field k v end
set_field k v (field j w m) =
    let rest = set_field k v m in if text_eq j k then field j v m else field j w rest

-- append(xs, x)
unfoldable pub append_item : Items → Json → Items
append_item nil x = cons x nil
append_item (cons y ys) x = cons y (append_item ys x)

pub get_field-set_field :
    (k : Text) (v : Json) (m : Fields) → get_field k (set_field k v m) ≡ some v
unfolding get_field set_field
get_field-set_field k v end = rw ((text_eq_iff k k).1 refl)
get_field-set_field k v (field j w m) = elim (Bool-cases (text_eq j k)) [
  | inl e ↦ rw (e, e)
  | inr e ↦ rw (e, e) (get_field-set_field k v m)
]

pub set_field-set_field :
    (k : Text) (v w : Json) (m : Fields) → set_field k v (set_field k w m) ≡ set_field k v m
unfolding set_field
set_field-set_field k v w end = rw ((text_eq_iff k k).1 refl)
set_field-set_field k v w (field j u m) = elim (Bool-cases (text_eq j k)) [
  | inl e ↦ rw (e, e)
  | inr e ↦ rw (e, e, set_field-set_field k v w m)
]

pub set_field-get_field :
    (k : Text) (v : Json) (m : Fields) → get_field k m ≡ some v → set_field k v m ≡ m
unfolding get_field set_field
set_field-get_field k v end h = cc
set_field-get_field k v (field j w m) h = elim (Bool-cases (text_eq j k)) [
  | inl e ↦ ground (arith, e, h)
  | inr e ↦ ground (arith, e, h, set_field-get_field k v m)
]

-- A key that is not set keeps its value.
pub get_field-set_field_ne :
    (j k : Text) (v : Json) (m : Fields)
    → text_eq k j ≡ false
    → get_field j (set_field k v m) ≡ get_field j m
unfolding get_field set_field
get_field-set_field_ne j k v end ne = rw ne
get_field-set_field_ne j k v (field i w m) ne = elim (Bool-cases (text_eq i k)) [
  | inl e ↦ ground (arith, e, ne, (text_eq_iff i k).0 e)
  | inr e ↦ rw (e, get_field-set_field_ne j k v m ne)
]
