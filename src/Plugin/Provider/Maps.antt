-- ===== src/Plugin/Provider/Maps.antt =====
-- The plugin walks over a map where the webhook looks a key up.
use gopher_cni.Prelude.{◌≡◌, refl, subst, inl, inr, true, none, [], ◌∷◌, arith, Bool-cases}
use gopher_cni.Go.Text.{Text, codes, text_eq, text_eq_iff, is_empty}
use gopher_cni.Go.Dict.{Dict, get, get_or_empty, HasUniqueKeys}
use gopher_cni.Plugin.Provider.{fetch}

pub is_empty_nil : (v : Text) → is_empty v ≡ true → v ≡ []
unfolding is_empty
is_empty_nil [] h = refl
is_empty_nil (x ∷ v) h = cc

-- On a map, whose keys are unique, the walk finds what the lookup finds, in whatever order the
-- entries come: the value of the key, or the empty text.
pub fetch-eq-get_or_empty : (m : Dict) (k : Text) → HasUniqueKeys m → fetch m k ≡ get_or_empty k m
unfolding fetch get_or_empty get codes
fetch-eq-get_or_empty [] k u = refl
fetch-eq-get_or_empty ((j, v) ∷ m) k (fresh, u) = elim (Bool-cases (text_eq j k)) [
  | inr ne ↦ ground (arith, ne, fetch-eq-get_or_empty m k u)
  | inl same ↦ elim (Bool-cases (is_empty v)) [
    | inr full ↦ ground (arith, same, full)
    | inl nothing ↦
        let absent : get k m ≡ none =
          subst (λ (x : Text). get x m ≡ none) ((text_eq_iff j k).0 same) fresh in
        let ih = fetch-eq-get_or_empty m k u in
        ground (arith, same, nothing, is_empty_nil v nothing, absent, ih)
  ]
]
