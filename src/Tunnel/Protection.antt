-- ===== src/Tunnel/Protection.antt =====
-- The routes of a pod whose split-tunnel networks the webhook accepts: what
-- internal/webhook/validate.go promises of the pod that plugin/cmd/net.go configures.
use gopher_cni.Prelude.{
  subst, ℕ, ◌≤◌, ◌<◌, ◌≡◌, ap, inl, inr, Bool, true, false, none, some, List, [], ◌∷◌, ◌++◌, map,
  arith, All, In, here, there, In-append_left, In-append_right, ok,
}
use gopher_cni.Tunnel.Routing.{main_routes, dst_holds, dst_ones, best, best-Choice}
use gopher_cni.Tunnel.Installed.{
  installed, main_routes-configure_calls, map-In, default, tunnel, split, installed-Origin,
}
use gopher_cni.Go.Text.{Text}
use gopher_cni.Go.Ip.{ip4, IpNet, contains}
use gopher_cni.Go.Ip.Prefix.{IsPlain, holds-IsV4}
use gopher_cni.Wireguard.{WgConfig}
use gopher_cni.Webhook.Validate.{overlap, overlap_errors}
use gopher_cni.Webhook.Validate.Overlap.{
  Holds, overlap_iff_shared, overlap_errors-pair, pair_errors_nil,
}
use gopher_cni.Plugin.Kernel.{Route, Trace, Kernel}
use gopher_cni.Plugin.Net.{via_link, via_gateway, configure_pod}
use gopher_cni.Plugin.Net.Calls.{configure_calls, configure_pod-calls}

All-In : {A : Type 0} (P : A → Type 0) (x : A) (xs : List A) → All P xs → In x xs → P x
All-In P x [] h i = elim i [ ]
All-In P x (y ∷ ys) h (here e) = rw e h.0
All-In P x (y ∷ ys) h (there i) = All-In P x ys h.1 i

-- An accepted split that shares an address with a protected network is the less specific one.
accepted-ones :
    (allowed : Bool) (splits protected : List IpNet) (s p : IpNet) (a : ℕ)
    → All IsPlain splits
    → All IsPlain protected
    → overlap_errors allowed splits protected ≡ []
    → In s splits
    → In p protected
    → Holds s a
    → Holds p a
    → s.ones < p.ones
accepted-ones allowed splits protected s p a vs vp h i j hs hp =
    elim (pair_errors_nil allowed s p (overlap_errors-pair allowed s p splits protected i j h)) [
      | inr (lt, _) ↦ lt
      | inl apart ↦
          let shared : overlap s p ≡ true =
            (overlap_iff_shared s p (holds-IsV4 s a (All-In IsPlain s splits vs i) hs)
                (holds-IsV4 p a (All-In IsPlain p protected vp j) hp)).1
              (a, hs, hp) in
          cc (apart, shared)
    ]

-- The best of the installed routes for a protected address.
pub installed-via_link :
    (index : ℕ) (protected splits : List IpNet) (orig : Route) (allowed : Bool)
    → All IsPlain splits
    → All IsPlain protected
    → overlap_errors allowed splits protected ≡ []
    → (p : IpNet) → In p protected
    → (a : ℕ) → Holds p a
    → (r : Route) × (best a (installed index protected splits orig) ≡ some r)
      × (r.link_index ≡ index)
      × (r.gw ≡ none)
unfolding dst_holds dst_ones
installed-via_link index protected splits orig allowed vs vp accepted p i a held =
    let b =
      best-Choice a (via_link index p) (installed index protected splits orig)
        (there (In-append_left _ (map-In (via_link index) p protected i))) held in
    elim (installed-Origin index protected splits orig b.route b.mem) [
      | default d ↦
          (b.route, b.best_lem, ap (λ (q : Route). q.link_index) d, ap (λ (q : Route). q.gw) d)
      | tunnel q j d ↦
          (b.route, b.best_lem, ap (λ (q : Route). q.link_index) d, ap (λ (q : Route). q.gw) d)
      | split s j d ↦
          let fits : Holds s a = subst (λ (r : Route). dst_holds r.dst a ≡ true) d b.holds in
          let longer : p.ones ≤ s.ones =
            subst (λ (r : Route). p.ones ≤ dst_ones r.dst) d b.longest in
          absurd (
            omega
              (arith, accepted-ones allowed splits protected s p a vs vp accepted j i fits held))
    ]

module _ (k : Kernel) (index : ℕ) (name : Text) (config : WgConfig) (addrs : List Text)
    (protected splits : List IpNet) (orig : Route) (t t' : Trace)
    (done : configure_pod k index name config addrs protected splits orig t ≡ (ok tt, t')) where
  new_routes :
      (cs : Trace) × (t' ≡ t ++ cs) × (main_routes cs ≡ installed index protected splits orig)
  new_routes =
      let (ips, e) =
        configure_pod-calls k index name config addrs protected splits orig t t' done in
      (
        configure_calls index name config addrs protected splits orig ips,
        e,
        main_routes-configure_calls index name config addrs protected splits orig ips,
      )

  -- Where the pod's configuration returned, each network is an IPv4 one with a four-byte mask or has
  -- an address with no IPv4 form, and the webhook's overlap check accepts the split-tunnel networks,
  -- whether overlaps are allowed or not: to each address of a protected network, the best of the
  -- routes that the configuration put into the main table goes out through the WireGuard link, and
  -- through no gateway.
  pub protected-via_link :
      (allowed : Bool)
      → All IsPlain splits
      → All IsPlain protected
      → overlap_errors allowed splits protected ≡ []
      → (p : IpNet) → In p protected
      → (a : ℕ) → Holds p a
      → (cs : Trace) × (r : Route) × (t' ≡ t ++ cs)
        × (best a (main_routes cs) ≡ some r)
        × (r.link_index ≡ index)
        × (r.gw ≡ none)
  protected-via_link allowed vs vp accepted p i a held =
      let (cs, e, routes) = new_routes in
      let (r, found, link, gw) =
        installed-via_link index protected splits orig allowed vs vp accepted p i a held in
      (cs, r, e, rw routes found, link, gw)

  -- Where the pod's configuration returned, an address that a split-tunnel network with a mask
  -- holds, and no protected network does: the best of the routes that the configuration put into
  -- the main table has the link and the gateway of the original default route.
  pub split-via_gateway :
      (s : IpNet)
      → In s splits
      → 0 < s.ones
      → (a : ℕ) → Holds s a
      → ((p : IpNet) → In p protected → contains p (ip4 a) ≡ false)
      → (cs : Trace) × (r : Route) × (t' ≡ t ++ cs)
        × (best a (main_routes cs) ≡ some r)
        × (r.link_index ≡ orig.link_index)
        × (r.gw ≡ orig.gw)
  unfolding dst_holds dst_ones
  split-via_gateway s i pos a held apart =
      let (cs, e, routes) = new_routes in
      let b =
        best-Choice a (via_gateway orig s) (installed index protected splits orig)
          (there (
            In-append_right (map (via_link index) protected)
              (map-In (via_gateway orig) s splits i)))
          held in
      let found : best a (main_routes cs) ≡ some b.route = rw routes b.best_lem in
      elim (installed-Origin index protected splits orig b.route b.mem) [
        | default d ↦
            let longer : s.ones ≤ 0 = subst (λ (r : Route). s.ones ≤ dst_ones r.dst) d b.longest in
            absurd (omega arith)
        | tunnel q j d ↦
            let fits : Holds q a = subst (λ (r : Route). dst_holds r.dst a ≡ true) d b.holds in
            cc (apart q j, fits)
        | split q j d ↦
            (cs, b.route, e, found, ap (λ (q : Route). q.link_index) d, ap (λ (q : Route). q.gw) d)
      ]
