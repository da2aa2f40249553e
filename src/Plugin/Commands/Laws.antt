-- ===== src/Plugin/Commands/Laws.antt =====
-- When the Add command touches the network, and what it answers.
use gopher_cni.Prelude.{
  ◌≡◌, ◌↔◌, ap, ◌⊎◌, inl, inr, true, false, Option, none, some, arith, Bool-cases, Result, ok, err,
  Result-cases,
}
use gopher_cni.Go.Text.{Text, codes, text_eq, text_eq_iff}
use gopher_cni.Cni.{interface_name, label_enabled, mode_pod_origin, mode_host_origin}
use gopher_cni.Wireguard.Parser.{Decoders}
use gopher_cni.Plugin.Kernel.{Kernel, Trace, NetError}
use gopher_cni.Plugin.Provider.{CniProvider, fetch, contains_text, fetch_raw_wireguard_config}
use gopher_cni.Plugin.Commands.{
  CmdArgs, Host, AddError, Plan, Setup, plan, apply_setup, carry_out, add, printed, set_up,
}
use gopher_cni.Plugin.Net.{setup_wg_via_host, setup_wg_via_container}
use gopher_cni.Wireguard.{protected_nets}

-- A pod is left alone exactly when its namespace is excluded or its label is not "true".
pub fetch_raw-none_iff :
    (p : CniProvider)
    → (fetch_raw_wireguard_config p ≡ ok none) ↔ (
        (contains_text p.exclude_namespaces p.pod.namespace ≡ true)
        ⊎ (text_eq (fetch p.pod.labels label_enabled) (codes "true") ≡ false))
unfolding fetch_raw_wireguard_config
fetch_raw-none_iff p = (λ h. left_alone h, λ h. alone h)
  where
    left_alone :
        fetch_raw_wireguard_config p ≡ ok none
        → (contains_text p.exclude_namespaces p.pod.namespace ≡ true)
          ⊎ (text_eq (fetch p.pod.labels label_enabled) (codes "true") ≡ false)
    left_alone h = elim (Bool-cases (contains_text p.exclude_namespaces p.pod.namespace)) [
      | inl e ↦ inl e
      | inr ne ↦ inr (ground (arith, ne, h))
    ]

    alone :
        (contains_text p.exclude_namespaces p.pod.namespace ≡ true)
          ⊎ (text_eq (fetch p.pod.labels label_enabled) (codes "true") ≡ false)
        → fetch_raw_wireguard_config p ≡ ok none
    alone (inl e) = rw e
    alone (inr e) = ground (arith, e)

-- The set-up of the mode that the pod asks for, made to the end.
abbrev pub SetUp : Kernel → Text → Setup → Trace → Trace → Type 0
SetUp k netns s t t' =
    ((s.mode ≡ mode_host_origin)
      × (setup_wg_via_host k netns interface_name s.config.wg s.addrs (protected_nets s.config)
            s.splits t
          ≡ (ok tt, t')))
    ⊎ ((s.mode ≡ mode_pod_origin)
        × (setup_wg_via_container k netns interface_name s.config.wg s.addrs
              (protected_nets s.config) s.splits t
            ≡ (ok tt, t')))

set_up-eq-ok :
    (r : Result NetError (Unit {0}) × Trace) (t' : Trace) → set_up r ≡ (ok tt, t') → r ≡ (ok tt, t')
unfolding set_up
set_up-eq-ok (ok u, t) t' h = cc
set_up-eq-ok (err e, t) t' h = cc

module _ (k : Kernel) where
  apply_setup-SetUp :
      (netns : Text) (s : Setup) (t t' : Trace)
      → apply_setup k netns (some s) t ≡ (ok tt, t')
      → SetUp k netns s t t'
  unfolding apply_setup
  apply_setup-SetUp netns s t t' h = elim (Bool-cases (text_eq s.mode mode_host_origin)) [
    | inl e ↦ inl ((text_eq_iff s.mode _).0 e, set_up-eq-ok _ t' (rw e at h))
    | inr ne ↦ elim (Bool-cases (text_eq s.mode mode_pod_origin)) [
      | inl e ↦ inr ((text_eq_iff s.mode _).0 e, set_up-eq-ok _ t' (rw (ne, e) at h))
      | inr ne' ↦ cc (rw (ne, ne') at h)
    ]
  ]

  -- What became of the pod's network.
  abbrev pub Outcome : Text → Option Setup → Trace → Trace → Type 0
  Outcome netns none t t' = t' ≡ t
  Outcome netns (some s) t t' = SetUp k netns s t t'

  apply_setup-Outcome :
      (netns : Text) (o : Option Setup) (t t' : Trace)
      → apply_setup k netns o t ≡ (ok tt, t')
      → Outcome netns o t t'
  unfolding apply_setup
  apply_setup-Outcome netns none t t' h = cc
  apply_setup-Outcome netns (some s) t t' h = apply_setup-SetUp netns s t t' h

  printed-eq-ok :
      (h : Host) (p : Plan) (r : Result AddError (Unit {0})) (out : Text)
      → printed k h p r ≡ ok out
      → (r ≡ ok tt) × (out ≡ p.prev_result)
  unfolding printed
  printed-eq-ok h p (ok u) out e = ground arith
  printed-eq-ok h p (err f) out e = cc

  -- Add succeeds only with a plan, answers its previous result, and then either the pod is left
  -- alone and no call of the kernel was made, or the set-up of one of the two modes was made to
  -- the end, with the plan's addresses, its split-tunnel networks, and the networks that its
  -- configuration protects.
  pub add-eq-ok :
      (h : Host) (d : Decoders) (args : CmdArgs) (t t' : Trace) (out : Text)
      → add k h d args t ≡ (ok out, t')
      → (p : Plan) × (plan h d args ≡ ok p)
        × (out ≡ p.prev_result)
        × Outcome args.netns p.setup t t'
  unfolding add carry_out
  add-eq-ok h d args t t' out e = elim (Result-cases (plan h d args)) [
    | inr (f, failed) ↦ cc (rw failed at e)
    | inl (p, planned) ↦
        let done = rw planned at e in
        let (r_ok, same) =
          printed-eq-ok h p (apply_setup k args.netns p.setup t).0 out
            (ap (λ (x : Result AddError Text × Trace). x.0) done) in
        let trace_eq = ap (λ (x : Result AddError Text × Trace). x.1) done in
        (p, planned, same, apply_setup-Outcome args.netns p.setup t t' (λ i. (r_ok i, trace_eq i)))
  ]

  -- Where the plan is an error, or says that the pod is left alone, Add makes no call of the kernel.
  pub add_no_calls :
      (h : Host) (d : Decoders) (args : CmdArgs) (t : Trace)
      → ((e : AddError) × (plan h d args ≡ err e))
        ⊎ ((p : Plan) × (plan h d args ≡ ok p) × (p.setup ≡ none))
      → (add k h d args t).1 ≡ t
  unfolding add carry_out apply_setup
  add_no_calls h d args t (inl (e, failed)) = rw failed
  add_no_calls h d args t (inr (p, planned, alone)) = rw (planned, alone)
