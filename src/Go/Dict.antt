-- ===== src/Go/Dict.antt =====
-- A map of texts, as a list of its entries. A key of a Go map stands in it once: `HasUniqueKeys`.
use gopher_cni.Prelude.{◌≡◌, Option, none, some, List, [], ◌∷◌, if◌then◌else◌}
use gopher_cni.Go.Text.{Text, text_eq}

abbrev pub Dict : Type 0
Dict = List (Text × Text)

-- v, ok := m[k]
unfoldable pub get : Text → Dict → Option Text
get k [] = none
get k ((j, v) ∷ m) = if text_eq j k then some v else get k m

-- m[k], which is "" where the key is missing
unfoldable pub get_or_empty : Text → Dict → Text
unfolding get
get_or_empty k m = elim (get k m) [ none ↦ [] | some v ↦ v ]

-- No key stands in the list twice.
abbrev pub HasUniqueKeys : Dict → Type 0
HasUniqueKeys [] = Unit
HasUniqueKeys ((k, v) ∷ m) = (get k m ≡ none) × HasUniqueKeys m
