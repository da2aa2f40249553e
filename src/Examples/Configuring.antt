-- ===== src/Examples/Configuring.antt =====
-- The plugin of plugin/cmd on the kernel in which every call succeeds.
use gopher_cni.Examples.Fixtures.{protected, orig, kernel, split_net, wg_config}
use gopher_cni.Go.Ip.{Ip, IpNet, contains, contains4, ip4, network, prefix, to4}
use gopher_cni.Go.Ip.Prefix.{IsPlain, four, to4-ip4}
use gopher_cni.Go.Text.{codes}
use gopher_cni.Plugin.Kernel.{◌>>=◌, Route, Trace, call, leave_ns, route_list}
use gopher_cni.Plugin.Net.{
  add_eth0_return_route, add_protected_routes, add_split_tunnel_routes, configure_pod,
  default_route, find_default, ns_do, replace_default_route, setup_wg, setup_wg_via_host,
}
use gopher_cni.Plugin.Net.Calls.{configure_calls, rule_calls}
use gopher_cni.Plugin.Net.Modes.{host_calls, setup_wg_via_host-calls}
use gopher_cni.Prelude.{
  there, here, [], All, In, List, arith, false, none, ok, refl, some, true, ℕ, ◌++◌, ◌∷◌, ◌≡◌,
}
use gopher_cni.Tunnel.Protection.{protected-via_link, split-via_gateway}
use gopher_cni.Tunnel.Routing.{best, main_routes}
use gopher_cni.Webhook.Validate.{overlap, overlap_errors, pair_errors}
use gopher_cni.Webhook.Validate.Overlap.{Holds}

abbrev pub calls : Trace
calls =
    configure_calls 7 (codes "gcni0") wg_config [] (protected ∷ []) (split_net ∷ []) orig
      (ip4 167772170 ∷ [])

configured :
    configure_pod kernel 7 (codes "gcni0") wg_config [] (protected ∷ []) (split_net ∷ []) orig []
    ≡ (ok tt, calls)
unfolding configure_pod setup_wg replace_default_route add_protected_routes add_eth0_return_route
    add_split_tunnel_routes ◌>>=◌ call rule_calls to4 codes
configured = refl

split-IsPlain : All IsPlain (split_net ∷ [])
split-IsPlain = (
  four (record {
    number = 167772160;
    number_lem = to4-ip4 167772160;
    bits_lem = refl;
    fits = omega arith;
  }),
  tt,
)

protected-IsPlain : All IsPlain (protected ∷ [])
protected-IsPlain = (
  four (record {
    number = 168296448;
    number_lem = to4-ip4 168296448;
    bits_lem = refl;
    fits = omega arith;
  }),
  tt,
)

accepted : overlap_errors true (split_net ∷ []) (protected ∷ []) ≡ []
unfolding overlap_errors pair_errors overlap contains network contains4 to4 prefix
accepted = refl

held : Holds protected 168296453
unfolding contains network contains4 to4 prefix
held = refl

protected-via_link_example :
    (cs : Trace) × (r : Route) × (calls ≡ cs)
    × (best 168296453 (main_routes cs) ≡ some r)
    × (r.link_index ≡ 7)
    × (r.gw ≡ none)
protected-via_link_example =
    protected-via_link kernel 7 (codes "gcni0") wg_config [] (protected ∷ []) (split_net ∷ []) orig
      [] calls configured true split-IsPlain protected-IsPlain accepted protected (here refl)
      168296453 held

outside : Holds split_net 167772999
unfolding contains network contains4 to4 prefix
outside = refl

apart : (p : IpNet) → In p (protected ∷ []) → contains p (ip4 167772999) ≡ false
unfolding contains network contains4 to4 prefix
apart p (here e) = rw e refl
apart p (there i) = elim i [ ]

split-via_gateway_example :
    (cs : Trace) × (r : Route) × (calls ≡ cs)
    × (best 167772999 (main_routes cs) ≡ some r)
    × (r.link_index ≡ 2)
    × (r.gw ≡ some (ip4 167772161))
split-via_gateway_example =
    split-via_gateway kernel 7 (codes "gcni0") wg_config [] (protected ∷ []) (split_net ∷ []) orig
      [] calls configured split_net (here refl) (omega arith) 167772999 outside apart

abbrev after_host : Trace
after_host = host_calls 7 (codes "/ns") (codes "gcni0") ++ (route_list ∷ (calls ++ leave_ns ∷ []))

via_host :
    setup_wg_via_host kernel
      (codes "/ns")
      (codes "gcni0")
      wg_config
      []
      (protected ∷ [])
      (split_net ∷ [])
      []
    ≡ (ok tt, after_host)
unfolding setup_wg_via_host ns_do default_route find_default configure_pod setup_wg
    replace_default_route add_protected_routes add_eth0_return_route add_split_tunnel_routes ◌>>=◌
    call rule_calls to4 codes
via_host = refl

setup_wg_via_host-calls_example :
    (index : ℕ) × (o : Route) × (ips : List Ip) × (index ≡ 7)
    × (find_default (kernel.routes (host_calls index (codes "/ns") (codes "gcni0"))) ≡ some o)
    × (after_host
        ≡ host_calls index (codes "/ns") (codes "gcni0")
          ++ (route_list
              ∷ (configure_calls index
                    (codes "gcni0")
                    wg_config
                    []
                    (protected ∷ [])
                    (split_net ∷ [])
                    o
                    ips
                  ++ leave_ns ∷ [])))
setup_wg_via_host-calls_example =
    setup_wg_via_host-calls kernel (codes "/ns") (codes "gcni0") wg_config [] (protected ∷ [])
      (split_net ∷ []) [] after_host via_host
