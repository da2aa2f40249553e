-- ===== src/Plugin/Kernel/Laws.antt =====
-- Inversion of code that makes calls: what its parts did, when it returned.
use gopher_cni.Prelude.{
  List, sym, ◌∙◌, ap, append-nil, append_assoc, ◌≡◌, refl, Option, none, some, [], ◌∷◌, ◌++◌,
  Result, ok, err,
}
use gopher_cni.Plugin.Kernel.{
  Call, Trace, Kernel, NetError, Net, pure, ◌>>=◌, call, continue, answer,
}

module _ {A B : Type 0} where
  continue-eq-ok :
      (r : Result NetError A × Trace) (f : A → Net B) {b : B} {t' : Trace}
      → continue r.0 f r.1 ≡ (ok b, t')
      → (a : A) × (u : Trace) × (r ≡ (ok a, u)) × (f a u ≡ (ok b, t'))
  unfolding continue
  continue-eq-ok (ok a, u) f h = (a, u, refl, h)
  continue-eq-ok (err e, u) f h = cc

  -- A block returned: its first part did, and the rest did from there.
  pub bind-eq-ok :
      (m : Net A) (f : A → Net B) (t : Trace) {b : B} {t' : Trace}
      → (m >>= f) t ≡ (ok b, t')
      → (a : A) × (u : Trace) × (m t ≡ (ok a, u)) × (f a u ≡ (ok b, t'))
  unfolding ◌>>=◌
  bind-eq-ok m f t h = continue-eq-ok (m t) f h

answer-eq-ok :
    (c : Call) (o : Option _) (t t' : Trace) → answer c o t ≡ (ok tt, t') → t' ≡ t ++ c ∷ []
unfolding answer
answer-eq-ok c none t t' h = cc
answer-eq-ok c (some e) t t' h = cc

-- A call that returned is the last of the trace.
pub call-eq-ok :
    (k : Kernel) (c : Call) (t t' : Trace) → call k c t ≡ (ok tt, t') → t' ≡ t ++ c ∷ []
unfolding call
call-eq-ok k c t t' h = answer-eq-ok c (k.failure t c) t t' h

pub pure-eq-ok :
    {A : Type 0} (a : A) (t : Trace) {b : A} {t' : Trace}
    → pure a t ≡ (ok b, t')
    → (a ≡ b) × (t ≡ t')
unfolding pure
pure-eq-ok a t h = (cc, cc)

-- Code that, when it returns, has made just the calls `cs`.
abbrev pub Adds : Net (Unit {0}) → List Call → Type 0
Adds m cs = (t t' : Trace) → m t ≡ (ok tt, t') → t' ≡ t ++ cs

pub call-Adds : (k : Kernel) (c : Call) → Adds (call k c) (c ∷ [])
call-Adds k c t t' h = call-eq-ok k c t t' h

pub pure-Adds : Adds (pure tt) []
pure-Adds t t' h = sym (pure-eq-ok tt t h).1 ∙ sym (append-nil t)

-- One after the other.
pub bind-Adds :
    (m n : Net (Unit {0})) (cs ds : List Call)
    → Adds m cs
    → Adds n ds
    → Adds (m >>= λ _. n) (cs ++ ds)
bind-Adds m n cs ds hm hn t t' h =
    let (a, u, p, q) = bind-eq-ok m (λ _. n) t h in
    hn u t' q ∙ ap (λ (s : Trace). s ++ ds) (hm t u p) ∙ append_assoc t cs ds
