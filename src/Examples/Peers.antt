-- ===== src/Examples/Peers.antt =====
-- The plugin in the pod-origin mode, on the kernel in which every call succeeds.
use gopher_cni.Examples.Parsing.{parsed}
use gopher_cni.Wireguard.{protected_nets, dns_nets, PeerConfig}
use gopher_cni.Cni.{interface_name}
use gopher_cni.Tunnel.Container.{accepted_pod-via_container_link}
use gopher_cni.Tunnel.Endpoint.{endpoint-via_gateway}
use gopher_cni.Examples.Fixtures.{
  protected, orig, kernel, peer, split_net, wg_config, endpoint, decoders, webhook_config, client,
  container_spec, provider,
}
use gopher_cni.Go.Ip.{Ip, IpNet, contains, contains4, ip4, masked_net, network, prefix, to4}
use gopher_cni.Go.Ip.Prefix.{to4-ip4}
use gopher_cni.Go.ParseIp.{parse_addr, parse_cidr}
use gopher_cni.Go.ShowIp.{show_ip}
use gopher_cni.Go.Text.{codes, cut}
use gopher_cni.Plugin.Kernel.{◌>>=◌, Call, Route, Trace, call, leave_ns, route_add, route_list}
use gopher_cni.Plugin.Net.{
  add_eth0_return_route, add_peer_routes, add_protected_routes, add_split_tunnel_routes,
  configure_pod, default_route, find_default, ns_do, peer_net, replace_default_route, setup_wg,
  setup_wg_via_container, via_gateway,
}
use gopher_cni.Plugin.Net.Calls.{configure_calls, rule_calls}
use gopher_cni.Plugin.Net.Modes.{
  container_calls, peer_calls, setup_wg_via_container-calls, endpoint_net,
}
use gopher_cni.Prelude.{
  there, here, [], In, List, arith, false, none, ok, refl, some, ℕ, ◌++◌, ◌∷◌, ◌≡◌, ◌<◌, sym, ap,
  ◌∙◌, subst, some-injective,
}
use gopher_cni.Tunnel.Routing.{best, main_routes}
use gopher_cni.Webhook.Validate.Overlap.{Holds}
use gopher_cni.Examples.Configuring.{calls}
use gopher_cni.Examples.Admitting.{
  unique, fetched, no_errors, parsed_splits, splits-IsPlain, nets-IsPlain, protected-mem, host_held,
}

abbrev after_container : Trace
after_container =
    container_calls (codes "/ns") (codes "gcni0")
    ++ (route_list
        ∷ (route_add (via_gateway orig (record { ip = ip4 16909060; ones = 32; bits = 32 }))
            ∷ (calls ++ leave_ns ∷ [])))

via_container :
    setup_wg_via_container kernel
      (codes "/ns")
      (codes "gcni0")
      wg_config
      []
      (protected ∷ [])
      (split_net ∷ [])
      []
    ≡ (ok tt, after_container)
unfolding setup_wg_via_container add_peer_routes peer_net show_ip ns_do default_route find_default
    configure_pod setup_wg replace_default_route add_protected_routes add_eth0_return_route
    add_split_tunnel_routes ◌>>=◌ call rule_calls to4 codes parse_cidr parse_addr cut masked_net
via_container = refl

setup_wg_via_container-calls_example :
    (index : ℕ) × (o : Route) × (ips : List Ip) × (cs : List Call) × (index ≡ 7)
    × (find_default (kernel.routes (container_calls (codes "/ns") (codes "gcni0"))) ≡ some o)
    × (peer_calls o (peer ∷ []) ≡ some cs)
    × (after_container
        ≡ container_calls (codes "/ns") (codes "gcni0")
          ++ (route_list
              ∷ (cs
                  ++ (configure_calls index
                        (codes "gcni0")
                        wg_config
                        []
                        (protected ∷ [])
                        (split_net ∷ [])
                        o
                        ips
                      ++ leave_ns ∷ []))))
setup_wg_via_container-calls_example =
    setup_wg_via_container-calls kernel (codes "/ns") (codes "gcni0") wg_config [] (protected ∷ [])
      (split_net ∷ []) [] after_container via_container

not_alone : (q : IpNet) → In q (protected ∷ []) → Holds q 16909060 → q.ones < 32
not_alone q (here e) h = rw e (omega arith)
not_alone q (there i) h = elim i [ ]

endpoint-via_gateway_example :
    (o : Route) × (cs : Trace) × (r : Route) × (after_container ≡ cs)
    × (find_default (kernel.routes (container_calls (codes "/ns") (codes "gcni0"))) ≡ some o)
    × (best 16909060 (main_routes cs) ≡ some r)
    × (r.link_index ≡ o.link_index)
    × (r.gw ≡ o.gw)
endpoint-via_gateway_example =
    endpoint-via_gateway kernel (codes "/ns") (codes "gcni0") wg_config [] (protected ∷ [])
      (split_net ∷ []) [] after_container via_container peer (here refl) endpoint refl
      (ip4 16909060) refl 16909060 (to4-ip4 16909060) (omega arith) not_alone

abbrev container_done_calls : Trace
container_done_calls =
    container_calls (codes "/ns") interface_name
    ++ (route_list
        ∷ (route_add (via_gateway orig (record { ip = ip4 16909060; ones = 32; bits = 32 }))
            ∷ (configure_calls 7 interface_name parsed.wg [] (protected_nets parsed)
                  (split_net ∷ []) orig (ip4 167772170 ∷ [])
                ++ leave_ns ∷ [])))

container_done :
    setup_wg_via_container kernel
      (codes "/ns")
      interface_name
      parsed.wg
      []
      (protected_nets parsed)
      (split_net ∷ [])
      []
    ≡ (ok tt, container_done_calls)
unfolding protected_nets dns_nets setup_wg_via_container add_peer_routes peer_net show_ip ns_do
    default_route find_default configure_pod setup_wg replace_default_route add_protected_routes
    add_eth0_return_route add_split_tunnel_routes ◌>>=◌ call rule_calls to4 codes parse_cidr
    parse_addr cut masked_net
container_done = refl

pub peers_apart :
    (x : PeerConfig)
    → In x parsed.wg.peers
    → (n : IpNet) → endpoint_net x.endpoint ≡ some n
    → contains n (ip4 168296453) ≡ false
unfolding contains network contains4 to4 prefix peer_net show_ip parse_cidr parse_addr cut
    masked_net codes
peers_apart x (here e) n net =
    let same : record { ip = ip4 16909060; ones = 32; bits = 32 } ≡ n =
      some-injective _ _ (sym (ap (λ (p : PeerConfig). endpoint_net p.endpoint) e) ∙ net) in
    subst (λ (m : IpNet). contains m (ip4 168296453) ≡ false) same refl
peers_apart x (there i) n net = elim i [ ]

accepted_pod-via_container_link_example :
    (cs : Trace) × (r : Route) × (container_done_calls ≡ cs)
    × (best 168296453 (main_routes cs) ≡ some r)
    × (r.link_index ≡ 7)
    × (r.gw ≡ none)
accepted_pod-via_container_link_example =
    accepted_pod-via_container_link decoders webhook_config client container_spec provider parsed
      (split_net ∷ []) kernel (codes "/ns") [] [] container_done_calls unique refl fetched no_errors
      parsed_splits splits-IsPlain nets-IsPlain container_done protected protected-mem 168296453
      host_held peers_apart
