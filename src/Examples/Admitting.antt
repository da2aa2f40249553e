-- ===== src/Examples/Admitting.antt =====
-- The webhook of internal/webhook and the Add command of plugin/cmd, on one pod.
use gopher_cni.Cni.{annotation_wg_conf_secret, interface_name, mode_host_origin, mode_pod_origin}
use gopher_cni.Examples.Fixtures.{
  client, container_spec, decoders, kernel, notes, orig, protected, provider, split_net,
  webhook_config,
}
use gopher_cni.Examples.Parsing.{parse_config-wg_conf, parsed}
use gopher_cni.Go.Dict.{HasUniqueKeys, get, get_or_empty}
use gopher_cni.Go.Ip.{IpNet, contains, contains4, ip4, network, prefix, to4}
use gopher_cni.Go.Ip.Prefix.{IsPlain, four, to4-ip4}
use gopher_cni.Go.Lines.{scan}
use gopher_cni.Go.ParseIp.{parse_cidr, parse_ip}
use gopher_cni.Go.Text.{
  codes, contains_code, cut, drop_first, ends_with_code, is_empty, split, starts_with_code, text_eq,
  to_lower, trim_space,
}
use gopher_cni.Kubernetes.{fetch_secret_key}
use gopher_cni.Plugin.Kernel.{◌>>=◌, Route, Trace, call, leave_ns, route_list}
use gopher_cni.Plugin.Net.{
  add_eth0_return_route, add_protected_routes, add_split_tunnel_routes, configure_pod,
  default_route, find_default, ns_do, replace_default_route, setup_wg, setup_wg_via_host,
}
use gopher_cni.Plugin.Net.Calls.{configure_calls, rule_calls}
use gopher_cni.Plugin.Net.Modes.{host_calls}
use gopher_cni.Plugin.Provider.{cni_mode, fetch, split_tunnel_cidrs}
use gopher_cni.Prelude.{
  [], here, All, In, List, ap, arith, none, ok, refl, some, true, wrap, ℕ, ◌++◌, ◌↔◌, ◌∷◌, ◌≡◌, ◌⊎◌,
}
use gopher_cni.Tunnel.Agreement.{accepted_pod}
use gopher_cni.Tunnel.Routing.{best, main_routes}
use gopher_cni.Tunnel.Whole.{accepted_pod-via_link}
use gopher_cni.Utils.{parse_ip_or_cidr_list, parse_token}
use gopher_cni.Webhook.Types.{config_failed, fetch_wg_config}
use gopher_cni.Webhook.Validate.{
  host_network_errors, mode_errors, overlap, overlap_allowed, overlap_errors, overlap_value_errors,
  pair_errors, parse_splits, secret_errors, split_tunnel_errors, validate_pod_spec,
  validate_split_tunnel_overlap,
}
use gopher_cni.Webhook.Validate.Overlap.{Holds, overlap_iff_shared}
use gopher_cni.Wireguard.{dns_nets, protected_nets}
use gopher_cni.Wireguard.Parser.{
  enter_section, is_header, is_skipped, net_ips, parse_config, parse_interface_key, parse_line,
  parse_lines, parse_pair, parse_peer_key, peer_line, save_peer, section_name, split_pair, v4_nets,
}

overlap_iff_shared_example :
    (overlap split_net protected ≡ true) ↔ ((a : ℕ) × Holds split_net a × Holds protected a)
overlap_iff_shared_example =
    overlap_iff_shared split_net protected
      (record {
        number = 167772160;
        number_lem = to4-ip4 167772160;
        bits_lem = refl;
        fits = omega arith;
      })
      (record {
        number = 168296448;
        number_lem = to4-ip4 168296448;
        bits_lem = refl;
        fits = omega arith;
      })

pub unique : HasUniqueKeys notes
unfolding get text_eq codes
unique = (refl, (refl, (refl, tt)))

pub fetched :
    fetch_wg_config decoders webhook_config
      (codes "default")
      (get_or_empty annotation_wg_conf_secret notes)
    ≡ ok parsed
unfolding fetch_wg_config fetch_secret_key get get_or_empty text_eq codes
fetched = ap (wrap config_failed) parse_config-wg_conf

pub no_errors :
    validate_pod_spec decoders webhook_config (codes "default") container_spec notes ≡ []
unfolding validate_pod_spec secret_errors mode_errors overlap_value_errors split_tunnel_errors
    host_network_errors validate_split_tunnel_overlap parse_splits overlap_errors overlap_allowed
    pair_errors overlap contains network contains4 prefix to4 fetch_wg_config fetch_secret_key get
    get_or_empty protected_nets dns_nets split text_eq trim_space codes parse_cidr cut is_empty
    parse_config parse_lines parse_line split_pair parse_pair parse_interface_key peer_line
    parse_peer_key enter_section save_peer section_name v4_nets net_ips parse_ip_or_cidr_list scan
    is_skipped is_header starts_with_code ends_with_code to_lower drop_first parse_token
    contains_code parse_ip
no_errors = refl

accepted_pod_example :
    ((cni_mode provider ≡ mode_pod_origin) ⊎ (cni_mode provider ≡ mode_host_origin))
    × (splits : List IpNet) × (split_tunnel_cidrs provider ≡ ok splits)
    × (overlap_errors (overlap_allowed notes) splits (protected_nets parsed) ≡ [])
accepted_pod_example =
    accepted_pod decoders webhook_config client container_spec provider parsed unique refl fetched
      no_errors

pub parsed_splits : split_tunnel_cidrs provider ≡ ok (split_net ∷ [])
unfolding split_tunnel_cidrs fetch prefix to4 get split text_eq trim_space codes parse_cidr cut
    is_empty parse_config parse_lines parse_line split_pair parse_pair parse_interface_key peer_line
    parse_peer_key enter_section save_peer section_name v4_nets net_ips parse_ip_or_cidr_list scan
    is_skipped is_header starts_with_code ends_with_code to_lower drop_first parse_token
    contains_code parse_ip
parsed_splits = refl

pub splits-IsPlain : All IsPlain (split_net ∷ [])
splits-IsPlain = (
  four (record {
    number = 167772160;
    number_lem = to4-ip4 167772160;
    bits_lem = refl;
    fits = omega arith;
  }),
  tt,
)

pub nets-IsPlain : All IsPlain (protected_nets parsed)
unfolding protected_nets dns_nets to4
nets-IsPlain = (
  four (record { number = 168296448; number_lem = refl; bits_lem = refl; fits = omega arith }),
  (
    four (record { number = 168296449; number_lem = refl; bits_lem = refl; fits = omega arith }),
    tt,
  ),
)

abbrev done_calls : Trace
done_calls =
    host_calls 7 (codes "/ns") interface_name
    ++ (route_list
        ∷ (configure_calls 7 interface_name parsed.wg [] (protected_nets parsed) (split_net ∷ [])
              orig (ip4 167772170 ∷ [])
            ++ leave_ns ∷ []))

host_done :
    setup_wg_via_host kernel
      (codes "/ns")
      interface_name
      parsed.wg
      []
      (protected_nets parsed)
      (split_net ∷ [])
      []
    ≡ (ok tt, done_calls)
unfolding protected_nets dns_nets setup_wg_via_host ns_do default_route find_default configure_pod
    setup_wg replace_default_route add_protected_routes add_eth0_return_route
    add_split_tunnel_routes ◌>>=◌ call rule_calls to4 codes
host_done = refl

pub protected-mem : In protected (protected_nets parsed)
unfolding protected_nets
protected-mem = here refl

pub host_held : Holds protected 168296453
unfolding contains network contains4 to4 prefix
host_held = refl

accepted_pod-via_link_example :
    (cs : Trace) × (r : Route) × (done_calls ≡ cs)
    × (best 168296453 (main_routes cs) ≡ some r)
    × (r.link_index ≡ 7)
    × (r.gw ≡ none)
accepted_pod-via_link_example =
    accepted_pod-via_link decoders webhook_config client container_spec provider parsed
      (split_net ∷ []) kernel (codes "/ns") [] [] done_calls unique refl fetched no_errors
      parsed_splits splits-IsPlain nets-IsPlain host_done protected protected-mem 168296453
      host_held
