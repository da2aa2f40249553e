-- ===== src/Plugin/Net/Calls.antt =====
-- The calls of a set-up that succeeds, in order.
use gopher_cni.Prelude.{ℕ, ◌≡◌, sym, ◌∙◌, none, some, List, [], ◌∷◌, ◌++◌, map, append_assoc, ok}
use gopher_cni.Go.Text.{Text}
use gopher_cni.Go.Ip.{Ip, to4, IpNet}
use gopher_cni.Wireguard.{WgConfig}
use gopher_cni.Plugin.Kernel.{
  Route, Call, route_add, route_replace, addr_add, new_wg_client, configure_device, link_set_mtu,
  link_set_up, link_by_index, addr_list, rule_add, Trace, Kernel, pure, ◌>>=◌, call,
}
use gopher_cni.Plugin.Kernel.Laws.{
  bind-eq-ok, call-eq-ok, pure-eq-ok, Adds, call-Adds, pure-Adds, bind-Adds,
}
use gopher_cni.Plugin.Net.{
  wg_mtu, default_dst, via_link, via_gateway, return_route, return_rule, add_addrs, setup_wg,
  replace_default_route, add_protected_routes, add_split_tunnel_routes, add_rules, add_rule,
  list_addrs, add_eth0_return_route, configure_pod,
}

-- A rule for each IPv4 address.
unfoldable pub rule_calls : List Ip → List Call
rule_calls [] = []
rule_calls (ip ∷ ips) =
    let rest = rule_calls ips in
    elim (to4 ip) [ none ↦ rest | some n ↦ rule_add (return_rule n) ∷ rest ]

abbrev pub addr_calls : ℕ → List Text → List Call
addr_calls index addrs = map (addr_add index) addrs

abbrev pub protected_calls : ℕ → List IpNet → List Call
protected_calls index nets = map (λ n. route_add (via_link index n)) nets

abbrev pub split_calls : Route → List IpNet → List Call
split_calls orig nets = map (λ n. route_add (via_gateway orig n)) nets

-- Addresses, device, MTU, and the link up.
abbrev pub setup_calls : ℕ → Text → WgConfig → List Text → List Call
setup_calls index name config addrs =
    addr_calls index addrs
    ++ (new_wg_client
        ∷ configure_device name config
        ∷ link_set_mtu index wg_mtu
        ∷ link_set_up index
        ∷ [])

-- The return route and the rules for the addresses `ips`.
abbrev pub return_calls : Route → List Ip → List Call
return_calls orig ips =
    link_by_index orig.link_index
    ∷ addr_list orig.link_index
    ∷ route_add (return_route orig)
    ∷ rule_calls ips

abbrev pub configure_calls :
    ℕ → Text → WgConfig → List Text → List IpNet → List IpNet → Route → List Ip → List Call
configure_calls index name config addrs protected splits orig ips =
    setup_calls index name config addrs
    ++ (route_replace (via_link index default_dst)
        ∷ (protected_calls index protected ++ (return_calls orig ips ++ split_calls orig splits)))

module _ (k : Kernel) where
  add_addrs-Adds :
      (index : ℕ) (addrs : List Text) → Adds (add_addrs k index addrs) (addr_calls index addrs)
  unfolding add_addrs
  add_addrs-Adds index [] = pure-Adds
  add_addrs-Adds index (a ∷ as') =
      bind-Adds (call k (addr_add index a)) (add_addrs k index as') _ _ (call-Adds k _)
        (add_addrs-Adds index as')

  add_protected_routes-Adds :
      (index : ℕ) (nets : List IpNet)
      → Adds (add_protected_routes k index nets) (protected_calls index nets)
  unfolding add_protected_routes
  add_protected_routes-Adds index [] = pure-Adds
  add_protected_routes-Adds index (n ∷ ns) =
      bind-Adds (call k (route_add (via_link index n))) (add_protected_routes k index ns) _ _
        (call-Adds k _) (add_protected_routes-Adds index ns)

  add_split_tunnel_routes-Adds :
      (orig : Route) (nets : List IpNet)
      → Adds (add_split_tunnel_routes k orig nets) (split_calls orig nets)
  unfolding add_split_tunnel_routes
  add_split_tunnel_routes-Adds orig [] = pure-Adds
  add_split_tunnel_routes-Adds orig (n ∷ ns) =
      bind-Adds (call k (route_add (via_gateway orig n))) (add_split_tunnel_routes k orig ns) _ _
        (call-Adds k _) (add_split_tunnel_routes-Adds orig ns)

  add_rules-Adds : (ips : List Ip) → Adds (add_rules k ips) (rule_calls ips)
  unfolding add_rules rule_calls
  add_rules-Adds [] = pure-Adds
  add_rules-Adds (ip ∷ ips) =
      elim (to4 ip)
        as (λ o.
          Adds (add_rule k o >>= λ _. add_rules k ips) (elim o [
            | none ↦ rule_calls ips
            | some n ↦ rule_add (return_rule n) ∷ rule_calls ips
          ])) [
            | none ↦ bind-Adds (pure tt) (add_rules k ips) _ _ pure-Adds (add_rules-Adds ips)
            | some n ↦
                bind-Adds (call k (rule_add (return_rule n))) (add_rules k ips) _ _ (call-Adds k _)
                  (add_rules-Adds ips)
          ]

  setup_wg-Adds :
      (index : ℕ) (name : Text) (config : WgConfig) (addrs : List Text)
      → Adds (setup_wg k index name config addrs) (setup_calls index name config addrs)
  unfolding setup_wg
  setup_wg-Adds index name config addrs =
      bind-Adds (add_addrs k index addrs) _ _ _ (add_addrs-Adds index addrs) (
        bind-Adds (call k new_wg_client) _ _ _ (call-Adds k _) (
          bind-Adds (call k (configure_device name config)) _ _ _ (call-Adds k _)
            (bind-Adds (call k (link_set_mtu index wg_mtu)) _ _ _ (call-Adds k _) (call-Adds k _))))

  list_addrs-eq-ok :
      (index : ℕ) (t t' : Trace) (ips : List Ip)
      → list_addrs k index t ≡ (ok ips, t')
      → t' ≡ t ++ addr_list index ∷ []
  unfolding list_addrs
  list_addrs-eq-ok index t t' ips h =
      let (a, u, p, q) = bind-eq-ok (call k (addr_list index)) _ t h in
      sym (pure-eq-ok (k.addresses t index) u q).1 ∙ call-eq-ok k (addr_list index) t u p

  add_eth0_return_route-calls :
      (orig : Route) (t t' : Trace)
      → add_eth0_return_route k orig t ≡ (ok tt, t')
      → (ips : List Ip) × (t' ≡ t ++ return_calls orig ips)
  unfolding add_eth0_return_route
  add_eth0_return_route-calls orig t t' h =
      let (a, u, p, q) = bind-eq-ok (call k (link_by_index orig.link_index)) _ t h in
      let (ips, v, p', q') = bind-eq-ok (list_addrs k orig.link_index) _ u q in
      let rest =
        bind-Adds (call k (route_add (return_route orig))) (add_rules k ips) _ _ (call-Adds k _)
          (add_rules-Adds ips) v t' q' in
      (
        ips,
        rest
            ∙ rw (list_addrs-eq-ok orig.link_index u v ips p', call-eq-ok k _ t u p)
                (simp append_assoc),
      )

  -- A set-up of the pod's namespace that returns has made these calls and no other, for the
  -- addresses `ips` that the kernel gave for the original link.
  pub configure_pod-calls :
      (index : ℕ) (name : Text) (config : WgConfig) (addrs : List Text)
      (protected splits : List IpNet) (orig : Route) (t t' : Trace)
      → configure_pod k index name config addrs protected splits orig t ≡ (ok tt, t')
      → (ips : List Ip) × (t'
          ≡ t ++ configure_calls index name config addrs protected splits orig ips)
  unfolding configure_pod replace_default_route
  configure_pod-calls index name config addrs protected splits orig t t' h =
      let (_, t1, p1, q1) = bind-eq-ok (setup_wg k index name config addrs) _ t h in
      let (_, t2, p2, q2) =
        bind-eq-ok (call k (route_replace (via_link index default_dst))) _ t1 q1 in
      let (_, t3, p3, q3) = bind-eq-ok (add_protected_routes k index protected) _ t2 q2 in
      let (_, t4, p4, q4) = bind-eq-ok (add_eth0_return_route k orig) _ t3 q3 in
      let (ips, e4) = add_eth0_return_route-calls orig t3 t4 p4 in
      (
        ips,
        add_split_tunnel_routes-Adds orig splits t4 t' q4
            ∙ rw
                (
                  e4,
                  add_protected_routes-Adds index protected t2 t3 p3,
                  call-eq-ok k _ t1 t2 p2,
                  setup_wg-Adds index name config addrs t t1 p1,
                )
                (simp append_assoc),
      )
