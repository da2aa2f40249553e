-- ===== src/Plugin/Net/Modes.antt =====
-- The two modes, call by call.
use gopher_cni.Prelude.{
  append-nil, ℕ, ◌≡◌, refl, sym, ap, ◌∙◌, subst, Option, none, some, List, [], ◌∷◌, ◌++◌,
  append_assoc, Result, ok,
}
use gopher_cni.Go.Text.{Text}
use gopher_cni.Go.Ip.{Ip, IpNet}
use gopher_cni.Wireguard.{WgConfig, PeerConfig, UdpAddr}
use gopher_cni.Plugin.Kernel.{
  Route, Call, get_ns, enter_ns, leave_ns, link_add, link_set_ns_fd, route_list, route_add, Trace,
  Kernel, NetError, Net, pure, raise, call,
}
use gopher_cni.Plugin.Kernel.Laws.{bind-eq-ok, call-eq-ok, pure-eq-ok}
use gopher_cni.Plugin.Net.{
  via_gateway, find_default, found, default_route, peer_net, add_wg_link, peer_route, parsed_peer,
  add_peer_routes, ns_do, setup_wg_via_host, setup_wg_via_container,
}
use gopher_cni.Plugin.Net.Calls.{configure_calls, configure_pod-calls}

-- A host route for each peer's endpoint through the original gateway; `none` where a peer has no
-- endpoint, or one that does not parse.
abbrev pub endpoint_net : Option UdpAddr → Option IpNet
endpoint_net none = none
endpoint_net (some e) = peer_net e

abbrev pub more_calls : Option IpNet → Route → Option (List Call) → Option (List Call)
more_calls (some n) orig (some cs) = some (route_add (via_gateway orig n) ∷ cs)
more_calls _ orig _ = none

unfoldable pub peer_calls : Route → List PeerConfig → Option (List Call)
peer_calls orig [] = some []
peer_calls orig (p ∷ ps) = more_calls (endpoint_net p.endpoint) orig (peer_calls orig ps)

abbrev pub host_calls : ℕ → Text → Text → List Call
host_calls index ns name = link_add name ∷ get_ns ns ∷ link_set_ns_fd index ns ∷ enter_ns ns ∷ []

abbrev pub container_calls : Text → Text → List Call
container_calls ns name = get_ns ns ∷ enter_ns ns ∷ link_add name ∷ []

-- The trace, put together from its steps.
moved :
    (t t1 t2 t3 : Trace) (c1 c2 c3 c4 : Call)
    → t1 ≡ t ++ c1 ∷ []
    → t2 ≡ t1 ++ c2 ∷ []
    → t3 ≡ t2 ++ c3 ∷ []
    → t3 ++ c4 ∷ [] ≡ t ++ c1 ∷ c2 ∷ c3 ∷ c4 ∷ []
moved t t1 t2 t3 c1 c2 c3 c4 e1 e2 e3 = rw (e3, e2, e1) (simp append_assoc)

entered :
    (t t1 t2 : Trace) (c1 c2 c3 : Call)
    → t1 ≡ t ++ c1 ∷ []
    → t2 ≡ (t1 ++ c2 ∷ []) ++ c3 ∷ []
    → t2 ≡ t ++ c1 ∷ c2 ∷ c3 ∷ []
entered t t1 t2 c1 c2 c3 e1 e2 = rw (e2, e1) (simp append_assoc)

closed :
    (t t1 t2 t3 pre cs ds : Trace) (c d : Call)
    → t1 ≡ (t ++ pre) ++ c ∷ []
    → t2 ≡ t1 ++ (cs ++ ds)
    → t3 ≡ t2 ++ d ∷ []
    → t3 ≡ t ++ (pre ++ (c ∷ (cs ++ (ds ++ d ∷ []))))
closed t t1 t2 t3 pre cs ds c d e1 e2 e3 = rw (e3, e2, e1) (simp append_assoc)

module _ (k : Kernel) where
  add_wg_link-eq-ok :
      (name : Text) (t t' : Trace) (index : ℕ)
      → add_wg_link k name t ≡ (ok index, t')
      → (index ≡ k.link_index t name) × (t' ≡ t ++ link_add name ∷ [])
  unfolding add_wg_link
  add_wg_link-eq-ok name t t' index h =
      let (a, u, p, q) = bind-eq-ok (call k (link_add name)) _ t h in
      let (same, stop) = pure-eq-ok (k.link_index t name) u q in
      (sym same, sym stop ∙ call-eq-ok k (link_add name) t u p)

  found-eq-ok :
      (o : Option Route) (t t' : Trace) (r : Route)
      → found o t ≡ (ok r, t')
      → (o ≡ some r) × (t ≡ t')
  unfolding found raise pure
  found-eq-ok none t t' r h = cc
  found-eq-ok (some q) t t' r h = (cc, cc)

  default_route-eq-ok :
      (t t' : Trace) (r : Route)
      → default_route k t ≡ (ok r, t')
      → (find_default (k.routes t) ≡ some r) × (t' ≡ t ++ route_list ∷ [])
  unfolding default_route
  default_route-eq-ok t t' r h =
      let (a, u, p, q) = bind-eq-ok (call k route_list) _ t h in
      let (same, stop) = found-eq-ok (find_default (k.routes t)) u t' r q in
      (same, sym stop ∙ call-eq-ok k route_list t u p)

  parsed_peer-eq-ok :
      (orig : Route) (o : Option IpNet) (t t' : Trace)
      → parsed_peer k orig o t ≡ (ok tt, t')
      → (n : IpNet) × (o ≡ some n) × (t' ≡ t ++ route_add (via_gateway orig n) ∷ [])
  unfolding parsed_peer raise
  parsed_peer-eq-ok orig none t t' h = cc
  parsed_peer-eq-ok orig (some n) t t' h = (n, refl, call-eq-ok k _ t t' h)

  peer_route-eq-ok :
      (orig : Route) (o : Option UdpAddr) (t t' : Trace)
      → peer_route k orig o t ≡ (ok tt, t')
      → (n : IpNet) × (endpoint_net o ≡ some n) × (t' ≡ t ++ route_add (via_gateway orig n) ∷ [])
  unfolding peer_route raise
  peer_route-eq-ok orig none t t' h = cc
  peer_route-eq-ok orig (some e) t t' h = parsed_peer-eq-ok orig (peer_net e) t t' h

  add_peer_routes-eq-ok :
      (orig : Route) (ps : List PeerConfig) (t t' : Trace)
      → add_peer_routes k orig ps t ≡ (ok tt, t')
      → (cs : List Call) × (peer_calls orig ps ≡ some cs) × (t' ≡ t ++ cs)
  unfolding add_peer_routes peer_calls
  add_peer_routes-eq-ok orig [] t t' h = ([], refl, sym (pure-eq-ok tt t h).1 ∙ sym (append-nil t))
  add_peer_routes-eq-ok orig (p ∷ ps) t t' h =
      let (a, u, first, rest) = bind-eq-ok (peer_route k orig p.endpoint) _ t h in
      let (n, net, e) = peer_route-eq-ok orig p.endpoint t u first in
      let (cs, calls, e') = add_peer_routes-eq-ok orig ps u t' rest in
      (route_add (via_gateway orig n) ∷ cs, rw (net, calls), e' ∙ rw e (append_assoc t _ cs))

  ns_do-eq-ok :
      (ns : Text) (body : Net (Unit {0})) (t t' : Trace)
      → ns_do k ns body t ≡ (ok tt, t')
      → (u : Trace) × (body (t ++ enter_ns ns ∷ []) ≡ (ok tt, u)) × (t' ≡ u ++ leave_ns ∷ [])
  unfolding ns_do
  ns_do-eq-ok ns body t t' h =
      let (a, v, p, q) = bind-eq-ok (call k (enter_ns ns)) _ t h in
      let e = call-eq-ok k (enter_ns ns) t v p in
      let r_ok = ap (λ (x : Result NetError (Unit {0}) × Trace). x.0) q in
      let end = ap (λ (x : Result NetError (Unit {0}) × Trace). x.1) q in
      (
        (body v).1,
        subst (λ (s : Trace). body s ≡ (ok tt, (body v).1)) e (λ i. (r_ok i, (body v).1)),
        sym end,
      )

  -- Where the set-up over the host returned, the pod's original default route was found, and the
  -- calls were these and no other, in this order: the link is made in the host's namespace, moved,
  -- and configured inside the pod's namespace, which is left at the end.
  pub setup_wg_via_host-calls :
      (ns name : Text) (config : WgConfig) (addrs : List Text) (protected splits : List IpNet)
      (t t' : Trace)
      → setup_wg_via_host k ns name config addrs protected splits t ≡ (ok tt, t')
      → (index : ℕ) × (orig : Route) × (ips : List Ip) × (index ≡ k.link_index t name)
        × (find_default (k.routes (t ++ host_calls index ns name)) ≡ some orig)
        × (t'
            ≡ t
              ++ (host_calls index ns name
                  ++ (route_list
                      ∷ (configure_calls index name config addrs protected splits orig ips
                          ++ leave_ns ∷ []))))
  unfolding setup_wg_via_host
  setup_wg_via_host-calls ns name config addrs protected splits t t' h =
      let (index, t1, p1, q1) = bind-eq-ok (add_wg_link k name) _ t h in
      let (_, t2, p2, q2) = bind-eq-ok (call k (get_ns ns)) _ t1 q1 in
      let (_, t3, p3, q3) = bind-eq-ok (call k (link_set_ns_fd index ns)) _ t2 q2 in
      let (t4, inside, left) = ns_do-eq-ok ns _ t3 t' q3 in
      let (orig, t5, p5, q5) = bind-eq-ok (default_route k) _ _ inside in
      let (same_index, e1) = add_wg_link-eq-ok name t t1 index p1 in
      let e2 = call-eq-ok k _ t1 t2 p2 in
      let e3 = call-eq-ok k _ t2 t3 p3 in
      let (found_orig, e5) = default_route-eq-ok _ t5 orig p5 in
      let (ips, e4) =
        configure_pod-calls k index name config addrs protected splits orig t5 t4 q5 in
      let before = moved t t1 t2 t3 _ _ _ _ e1 e2 e3 in
      (
        index,
        orig,
        ips,
        same_index,
        subst (λ (u : Trace). find_default (k.routes u) ≡ some orig) before found_orig,
        closed t t5 t4 t' (host_calls index ns name) [] _ route_list leave_ns
            (e5 ∙ ap (λ (u : Trace). u ++ route_list ∷ []) before) e4 left,
      )

  -- Where the set-up inside the pod's namespace returned, every peer has an endpoint and the
  -- pod's original default route was found, and the calls were these and no other, in this order:
  -- the namespace is entered, the link made, the peers' endpoints routed through the original
  -- gateway, the pod configured, and the namespace left.
  pub setup_wg_via_container-calls :
      (ns name : Text) (config : WgConfig) (addrs : List Text) (protected splits : List IpNet)
      (t t' : Trace)
      → setup_wg_via_container k ns name config addrs protected splits t ≡ (ok tt, t')
      → (index : ℕ) × (orig : Route) × (ips : List Ip) × (cs : List Call) × (index
          ≡ k.link_index (t ++ (get_ns ns ∷ enter_ns ns ∷ [])) name)
        × (find_default (k.routes (t ++ container_calls ns name)) ≡ some orig)
        × (peer_calls orig config.peers ≡ some cs)
        × (t'
            ≡ t
              ++ (container_calls ns name
                  ++ (route_list
                      ∷ (cs
                          ++ (configure_calls index name config addrs protected splits orig ips
                              ++ leave_ns ∷ [])))))
  unfolding setup_wg_via_container
  setup_wg_via_container-calls ns name config addrs protected splits t t' h =
      let (_, t1, p1, q1) = bind-eq-ok (call k (get_ns ns)) _ t h in
      let (t4, inside, left) = ns_do-eq-ok ns _ t1 t' q1 in
      let (index, t2, p2, q2) = bind-eq-ok (add_wg_link k name) _ _ inside in
      let (orig, t3, p3, q3) = bind-eq-ok (default_route k) _ t2 q2 in
      let (_, t5, p5, q5) = bind-eq-ok (add_peer_routes k orig config.peers) _ t3 q3 in
      let e1 = call-eq-ok k _ t t1 p1 in
      let (same_index, e2) = add_wg_link-eq-ok name _ t2 index p2 in
      let (found_orig, e3) = default_route-eq-ok t2 t3 orig p3 in
      let (cs, calls, e5) = add_peer_routes-eq-ok orig config.peers t3 t5 p5 in
      let (ips, e4) =
        configure_pod-calls k index name config addrs protected splits orig t5 t4 q5 in
      let before = entered t t1 t2 _ _ _ e1 e2 in
      (
        index,
        orig,
        ips,
        cs,
        same_index
            ∙ ap (λ (u : Trace). k.link_index u name)
                (rw e1 (append_assoc t (get_ns ns ∷ []) (enter_ns ns ∷ []))),
        subst (λ (u : Trace). find_default (k.routes u) ≡ some orig) before found_orig,
        calls,
        closed t t3 t4 t' (container_calls ns name) cs _ route_list leave_ns
            (e3 ∙ ap (λ (u : Trace). u ++ route_list ∷ []) before)
            (e4
              ∙ ap
                  (λ (u : Trace).
                    u ++ configure_calls index name config addrs protected splits orig ips)
                  e5
              ∙ append_assoc t3 cs
                  (configure_calls index name config addrs protected splits orig ips))
            left,
      )
