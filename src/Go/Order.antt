-- ===== src/Go/Order.antt =====
-- The order of texts, and slices.Sort on them. UTF-8 keeps the order of code points.
use gopher_cni.Go.Text.{Text}
use gopher_cni.Prelude.{
  All, All-In, Bool, Bool-cases, In, List, [], arith, false, if◌then◌else◌, inl, inr, ltb, refl,
  subst, true, ◌&&◌, ◌==◌, ◌||◌, ◌∷◌, ◌≡◌,
}

unfoldable pub text_leb : Text → Text → Bool
text_leb [] t = true
text_leb (x ∷ s) [] = false
text_leb (x ∷ s) (y ∷ t) = ltb x y || (x == y && text_leb s t)

unfoldable pub insert_text : Text → List Text → List Text
insert_text s [] = s ∷ []
insert_text s (t ∷ ts) =
    let rest = insert_text s ts in if text_leb s t then s ∷ t ∷ ts else t ∷ rest

-- slices.Sort
unfoldable pub sort : List Text → List Text
unfolding insert_text
sort [] = []
sort (s ∷ ss) = insert_text s (sort ss)

pub text_leb_refl : (s : Text) → text_leb s s ≡ true
unfolding text_leb
text_leb_refl [] = refl
text_leb_refl (x ∷ s) = ground (arith, text_leb_refl s)

pub text_leb_trans :
    (s t u : Text) → text_leb s t ≡ true → text_leb t u ≡ true → text_leb s u ≡ true
unfolding text_leb
text_leb_trans [] t u h k = refl
text_leb_trans (x ∷ s) [] u h k = cc
text_leb_trans (x ∷ s) (y ∷ t) [] h k = cc
text_leb_trans (x ∷ s) (y ∷ t) (z ∷ u) h k = ground (arith, text_leb_trans s t u, h, k)

pub text_leb_total : (s t : Text) → text_leb s t ≡ false → text_leb t s ≡ true
unfolding text_leb
text_leb_total [] t h = cc
text_leb_total (x ∷ s) [] h = refl
text_leb_total (x ∷ s) (y ∷ t) h = ground (arith, text_leb_total s t)

-- What sort keeps, and that its first element is the least.
module _ {ℓ} (P : Text → Type ℓ) where
  All-insert_text : (s : Text) (ts : List Text) → P s → All P ts → All P (insert_text s ts)
  unfolding insert_text
  All-insert_text s [] p h = (p, h)
  All-insert_text s (t ∷ ts) p h = elim (Bool-cases (text_leb s t)) [
    | inl e ↦ rw e (p, h)
    | inr e ↦ rw e (h.0, All-insert_text s ts p h.1)
  ]

  insert_text-All : (s : Text) (ts : List Text) → All P (insert_text s ts) → P s × All P ts
  unfolding insert_text
  insert_text-All s [] h = h
  insert_text-All s (t ∷ ts) h = elim (Bool-cases (text_leb s t)) [
    | inl e ↦ rw e at h
    | inr e ↦
        let k : P t × All P (insert_text s ts) = rw e at h in
        let r = insert_text-All s ts k.1 in (r.0, (k.0, r.1))
  ]

  pub All-sort : (ts : List Text) → All P ts → All P (sort ts)
  unfolding sort
  All-sort [] h = h
  All-sort (t ∷ ts) h = All-insert_text t (sort ts) h.0 (All-sort ts h.1)

  pub sort-All : (ts : List Text) → All P (sort ts) → All P ts
  unfolding sort
  sort-All [] h = h
  sort-All (t ∷ ts) h = let r = insert_text-All t (sort ts) h in (r.0, sort-All ts r.1)

-- The first text of a list is before each of the list, or equal.
abbrev HeadIsLeast : List Text → Type 0
HeadIsLeast [] = Unit
HeadIsLeast (t ∷ ts) = All (λ (u : Text). text_leb t u ≡ true) (t ∷ ts)

All-trans :
    (s t : Text) (ts : List Text)
    → text_leb s t ≡ true
    → All (λ (u : Text). text_leb t u ≡ true) ts
    → All (λ (u : Text). text_leb s u ≡ true) ts
All-trans s t [] e h = h
All-trans s t (u ∷ us) e h = (text_leb_trans s t u e h.0, All-trans s t us e h.1)

insert_text-HeadIsLeast :
    (s : Text) (ts : List Text) → HeadIsLeast ts → HeadIsLeast (insert_text s ts)
unfolding insert_text
insert_text-HeadIsLeast s [] h = (text_leb_refl s, tt)
insert_text-HeadIsLeast s (t ∷ ts) h = elim (Bool-cases (text_leb s t)) [
  | inl e ↦ rw e (text_leb_refl s, All-trans s t (t ∷ ts) e h)
  | inr e ↦
      rw e
        (h.0, All-insert_text (λ (u : Text). text_leb t u ≡ true) s ts (text_leb_total s t e) h.1)
]

sort-HeadIsLeast : (ts : List Text) → HeadIsLeast (sort ts)
unfolding sort
sort-HeadIsLeast [] = tt
sort-HeadIsLeast (t ∷ ts) = insert_text-HeadIsLeast t (sort ts) (sort-HeadIsLeast ts)

pub sort-least :
    (ts : List Text) (t : Text) (rest : List Text)
    → sort ts ≡ t ∷ rest
    → All (λ (u : Text). text_leb t u ≡ true) ts
sort-least ts t rest e =
    let least : HeadIsLeast (t ∷ rest) = subst HeadIsLeast e (sort-HeadIsLeast ts) in
    sort-All (λ (u : Text). text_leb t u ≡ true) ts (rw e least)

pub sort-In : (ts : List Text) (t : Text) (rest : List Text) → sort ts ≡ t ∷ rest → In t ts
sort-In ts t rest e =
    let all : All (λ (u : Text). In u ts) (t ∷ rest) =
      rw e at (All-sort (λ (u : Text). In u ts) ts (All-In ts)) in
    all.0
