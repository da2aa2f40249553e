-- ===== src/Actions.antt =====
-- Code that may fail and changes a state: Go's functions that return an error beside what they do.
use gopher_cni.Prelude.{ap, ◌≡◌, refl, Result, ok, err, wrap, subst, ◌∙◌}

abbrev pub Action : Type 0 → Type 0 → Type 0 → Type 0
Action E S A = S → Result E A × S

module _ {E S A : Type 0} where
  abbrev pub done : A → Action E S A
  done a s = (ok a, s)

  -- A result computed without touching the state.
  abbrev pub from : Result E A → Action E S A
  from r s = (r, s)

-- An action whose error is wrapped.
abbrev pub wrapping : {E F S A : Type 0} → (E → F) → Action E S A → Action F S A
wrapping f m s = let r = m s in (wrap f r.0, r.1)

module _ {E S A B : Type 0} where
  abbrev pub and_then : Result E A → (A → Action E S B) → Action E S B
  and_then (ok a) f s = f a s
  and_then (err e) f s = (err e, s)

  infixl 5 ◌>>=◌ ◌>>◌
  abbrev pub ◌>>=◌ : Action E S A → (A → Action E S B) → Action E S B
  ◌>>=◌ m f s = let r = m s in and_then r.0 f r.1

  abbrev pub ◌>>◌ : Action E S A → Action E S B → Action E S B
  ◌>>◌ m n s = let r = m s in and_then r.0 (λ _. n) r.1

  -- A block returned: its first part did, and the rest did from there.
  pub and_then-eq-ok :
      (r : Result E A × S) (f : A → Action E S B) {b : B} {s' : S}
      → and_then r.0 f r.1 ≡ (ok b, s')
      → (a : A) × (u : S) × (r ≡ (ok a, u)) × (f a u ≡ (ok b, s'))
  and_then-eq-ok (ok a, u) f h = (a, u, refl, h)
  and_then-eq-ok (err e, u) f h = cc

-- A wrapped action returned: the action did.
pub wrapped-eq-ok :
    {E F S A : Type 0} (f : E → F) (r : Result E A × S) {a : A} {s' : S}
    → ◌≡◌ {A = Result F A × S} (wrap f r.0, r.1) (ok a, s')
    → r ≡ (ok a, s')
wrapped-eq-ok f (ok b, u) h = cc (h)
wrapped-eq-ok f (err e, u) h = cc

done_after : {F G S A : Type 0} → (F → G) → A → Action F S (Unit {0}) → Action G S A
done_after g a m = wrapping g m >> done a

done_after-eq-ok :
    {F G S A : Type 0} (g : F → G) (a b : A) (m : Action F S (Unit {0})) (s s' : S)
    → done_after g a m s ≡ (ok b, s')
    → (m s ≡ (ok tt, s')) × (a ≡ b)
unfolding done_after
done_after-eq-ok {F = F} {G = G} {S = S} {A = A} g a b m s s' h =
    let (_, u, first, last) = and_then-eq-ok (wrapping g m s) (λ _. done a) h in
    let first' = wrapped-eq-ok g (m s) first in
    let same : u ≡ s' = ap (λ (x : Result G A × S). x.1) last in
    let value : a ≡ b = cc (last) in (first' ∙ (λ i. (ok tt, same i)), value)

-- A checked value that an action is run on, and that is handed on.
pub checked-eq-ok :
    {E F G S A : Type 0} (f : E → G) (g : F → G) (r : Result E A) (m : A → Action F S (Unit {0}))
    (s s' : S) (a : A)
    → (from (wrap f r) >>= (λ c. wrapping g (m c) >> done c)) s ≡ (ok a, s')
    → (r ≡ ok a) × (m a s ≡ (ok tt, s'))
unfolding done_after
checked-eq-ok f g (err e) m s s' a h = cc (h)
checked-eq-ok f g (ok c) m s s' a h =
    let (ran, same) = done_after-eq-ok g c a (m c) s s' h in
    (ap ok same, subst (λ x. m x s ≡ (ok tt, s')) same ran)
