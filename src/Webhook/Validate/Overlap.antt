-- ===== src/Webhook/Validate/Overlap.antt =====
-- The overlap test of validateSplitTunnelOverlap against the addresses that networks hold.
use gopher_cni.Prelude.{
  ℕ, ◌≤◌, ◌≡◌, ◌↔◌, ◌∙◌, ◌⊎◌, inl, inr, refl, sym, true, false, arith, ◌||◌, List, [], ◌∷◌, ◌++◌,
  In, here, there, Bool, ◌<◌,
}
use native.Mathlib.Decide.{dec_le}
use gopher_cni.Go.Ip.{ip4, IpNet, prefix, contains}
use gopher_cni.Go.Ip.Prefix.{IsV4, prefix_coarser, contains-to4, to4-ip4, contains_iff_prefix}
use gopher_cni.Webhook.Validate.{overlap, pair_errors, split_errors, overlap_errors}

-- The network holds the IPv4 address.
abbrev pub Holds : IpNet → ℕ → Type 0
Holds net a = contains net (ip4 a) ≡ true

pub Holds-iff_prefix :
    (net : IpNet) (v : IsV4 net) (a : ℕ)
    → Holds net a ↔ (prefix 32 net.ones v.number ≡ prefix 32 net.ones a)
Holds-iff_prefix net v a = contains_iff_prefix net v (ip4 a) a (to4-ip4 a)

pub Holds-own : (net : IpNet) (v : IsV4 net) → Holds net v.number
Holds-own net v = (Holds-iff_prefix net v v.number).1 refl

module _ (s p : IpNet) (vs : IsV4 s) (vp : IsV4 p) where
  contains-Holds : contains s p.ip ≡ true → Holds s vp.number
  contains-Holds h = rw (contains-to4 s p.ip vp.number vp.number_lem) at h

  -- Networks that hold a common address: the one with the shorter prefix holds the other's.
  common-contains : (a : ℕ) → s.ones ≤ p.ones → Holds s a → Holds p a → contains s p.ip ≡ true
  common-contains a le hs hp = (contains_iff_prefix s vs p.ip vp.number vp.number_lem).1 (
      (Holds-iff_prefix s vs a).0 hs
      ∙ prefix_coarser 32 s.ones p.ones a vp.number le vp.fits
          (sym ((Holds-iff_prefix p vp a).0 hp)))

or_left : (a b : Bool) → a ≡ true → (a || b) ≡ true
or_left a b h = ground arith

or_right : (a b : Bool) → b ≡ true → (a || b) ≡ true
or_right a b h = ground arith

or_cases : (a b : Bool) → (a || b) ≡ true → (a ≡ true) ⊎ (b ≡ true)
or_cases true b h = inl refl
or_cases false b h = inr h

module _ (s p : IpNet) (vs : IsV4 s) (vp : IsV4 p) where
  -- For IPv4 networks the overlap test passes exactly when some IPv4 address lies in both.
  pub overlap_iff_shared : (overlap s p ≡ true) ↔ ((a : ℕ) × Holds s a × Holds p a)
  unfolding overlap
  overlap_iff_shared = (
    λ h. elim (or_cases (contains s p.ip) (contains p s.ip) h) [
      | inl e ↦ (vp.number, contains-Holds s p vs vp e, Holds-own p vp)
      | inr e ↦ (vs.number, Holds-own s vs, contains-Holds p s vp vs e)
    ],
    λ w. elim (dec_le s.ones p.ones) [
      | yes le ↦
          or_left (contains s p.ip) (contains p s.ip) (common-contains s p vs vp w.0 le w.1 w.2)
      | no gt ↦
          or_right (contains s p.ip) (contains p s.ip)
            (common-contains p s vp vs w.0 (omega arith) w.2 w.1)
    ],
  )

-- No error for the pair: the networks are apart, or the split is the less specific one and
-- overlaps are allowed.
pub pair_errors_nil :
    (allowed : Bool) (s p : IpNet)
    → pair_errors allowed s p ≡ []
    → (overlap s p ≡ false) ⊎ ((s.ones < p.ones) × (allowed ≡ true))
unfolding pair_errors
pair_errors_nil allowed s p h = ground arith

pub append-eq-nil : {A : Type 0} (xs ys : List A) → xs ++ ys ≡ [] → (xs ≡ []) × (ys ≡ [])
append-eq-nil [] ys h = (refl, h)
append-eq-nil (x ∷ xs) ys h = cc

split_errors-pair :
    (allowed : Bool) (s p : IpNet) (ps : List IpNet)
    → In p ps
    → split_errors allowed s ps ≡ []
    → pair_errors allowed s p ≡ []
unfolding split_errors
split_errors-pair allowed s p [] i h = elim i [ ]
split_errors-pair allowed s p (q ∷ ps) (here e) h =
    rw e (append-eq-nil (pair_errors allowed s q) _ h).0
split_errors-pair allowed s p (q ∷ ps) (there i) h =
    split_errors-pair allowed s p ps i (append-eq-nil (pair_errors allowed s q) _ h).1

pub overlap_errors-pair :
    (allowed : Bool) (s p : IpNet) (ss ps : List IpNet)
    → In s ss
    → In p ps
    → overlap_errors allowed ss ps ≡ []
    → pair_errors allowed s p ≡ []
unfolding overlap_errors
overlap_errors-pair allowed s p [] ps i j h = elim i [ ]
overlap_errors-pair allowed s p (q ∷ ss) ps (here e) j h =
    split_errors-pair allowed s p ps j (rw e (append-eq-nil (split_errors allowed q ps) _ h).0)
overlap_errors-pair allowed s p (q ∷ ss) ps (there i) j h =
    overlap_errors-pair allowed s p ss ps i j (append-eq-nil (split_errors allowed q ps) _ h).1
