-- ===== src/Examples/Commanding.antt =====
-- The Add command of plugin/cmd/cmdAdd.go, for a pod that is set up and for one that is left alone.
use gopher_cni.Examples.Fixtures.{client, decoders, kernel, orig, split_net}
use gopher_cni.Examples.Parsing.{parsed}
use gopher_cni.Go.Dict.{get}
use gopher_cni.Go.Ip.{ip4, masked_net, prefix, to4}
use gopher_cni.Go.Lines.{scan}
use gopher_cni.Go.ParseIp.{parse_addr, parse_cidr, parse_ip}
use gopher_cni.Go.ShowIp.{show_ip, show_net}
use gopher_cni.Go.Text.{
  split, Text, codes, contains_code, cut, drop_first, ends_with_code, is_empty, starts_with_code,
  text_eq, to_lower, trim_space,
}
use gopher_cni.Kubernetes.{fetch_secret_key, kube_get_pod}
use gopher_cni.Plugin.Commands.{
  CmdArgs, Host, Plan, add, apply_setup, load_net_conf, parse_addrs, plan,
}
use gopher_cni.Plugin.Kernel.{◌>>=◌, Trace, call, leave_ns, route_add, route_list}
use gopher_cni.Plugin.Net.{
  add_eth0_return_route, add_peer_routes, add_protected_routes, add_split_tunnel_routes,
  configure_pod, default_route, find_default, ns_do, peer_net, replace_default_route, setup_wg,
  setup_wg_via_container, via_gateway,
}
use gopher_cni.Plugin.Net.Calls.{configure_calls, rule_calls}
use gopher_cni.Plugin.Net.Modes.{container_calls}
use gopher_cni.Plugin.Provider.{
  cni_mode, contains_text, fetch, fetch_raw_wireguard_config, new_kube_provider_from_cni,
  split_tunnel_cidrs,
}
use gopher_cni.Prelude.{[], List, none, ok, refl, some, true, ◌++◌, ◌∷◌, ◌≡◌}
use gopher_cni.Utils.{parse_ip_or_cidr_list, parse_token}
use gopher_cni.Wireguard.{dns_nets, protected_nets}
use gopher_cni.Wireguard.Parser.{
  enter_section, is_header, is_skipped, net_ips, parse_config, parse_interface_key, parse_line,
  parse_lines, parse_pair, parse_peer_key, peer_line, save_peer, section_name, split_pair, v4_nets,
}

abbrev pub host_excluding : List Text → Host
host_excluding namespaces = record {
  decode_conf = λ s. some (record {
    cni_version = codes "1.0.0";
    raw_prev_result = some s;
    prev_result = none;
    kubernetes = some (record { kubeconfig = codes "k"; exclude_namespaces = namespaces });
  });
  new_result = λ version raw. some raw;
  convert_result = λ r. some r;
  new_kube_client = λ path. some client;
  load_args = λ s. some (record { pod_name = codes "p"; pod_namespace = codes "default" });
  parse_addr_text = λ s. some s;
  print_result = λ r version. true;
}

abbrev pub args : CmdArgs
args = record { netns = codes "/ns"; args = codes ""; stdin_data = codes "{}" }

abbrev pub added : Trace
added =
    container_calls (codes "/ns") (codes "gcni0")
    ++ (route_list
        ∷ (route_add (via_gateway orig (record { ip = ip4 16909060; ones = 32; bits = 32 }))
            ∷ (configure_calls 7 (codes "gcni0") parsed.wg (codes "10.8.0.0/24" ∷ [])
                  (protected_nets parsed) (split_net ∷ []) orig (ip4 167772170 ∷ [])
                ++ leave_ns ∷ [])))

pub add-added : add kernel (host_excluding []) decoders args [] ≡ (ok (codes "{}"), added)
unfolding add plan fetch prefix to4 fetch_secret_key get protected_nets dns_nets split text_eq
    trim_space codes parse_cidr cut is_empty parse_config parse_lines parse_line split_pair
    parse_pair parse_interface_key peer_line parse_peer_key enter_section save_peer section_name
    v4_nets net_ips parse_ip_or_cidr_list scan is_skipped is_header starts_with_code ends_with_code
    to_lower drop_first parse_token contains_code parse_ip setup_wg_via_container add_peer_routes
    peer_net show_ip ns_do default_route find_default configure_pod setup_wg replace_default_route
    add_protected_routes add_eth0_return_route add_split_tunnel_routes ◌>>=◌ call rule_calls
    parse_addr masked_net load_net_conf new_kube_provider_from_cni fetch_raw_wireguard_config
    contains_text kube_get_pod apply_setup parse_addrs show_net cni_mode split_tunnel_cidrs
add-added = refl

abbrev left_alone : Plan
left_alone = record { prev_result = codes "{}"; cni_version = codes "1.0.0"; setup = none }

plan-left_alone : plan (host_excluding (codes "default" ∷ [])) decoders args ≡ ok left_alone
unfolding plan load_net_conf new_kube_provider_from_cni fetch_raw_wireguard_config contains_text
    text_eq codes is_empty kube_get_pod
plan-left_alone = refl
