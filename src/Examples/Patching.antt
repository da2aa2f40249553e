-- ===== src/Examples/Patching.antt =====
-- The mutating webhook of internal/webhook/mutate.go and split_dns.go, for a pod without split DNS
-- zones and for one with them.
use gopher_cni.Cni.{annotation_split_tunnel_dns_zones, annotation_wg_conf_secret}
use gopher_cni.Examples.Fixtures.{container_spec, decoders, notes, pod_with, webhook_config}
use gopher_cni.Go.Dict.{Dict, get, get_or_empty}
use gopher_cni.Go.Ip.{contains4, to4}
use gopher_cni.Go.Lines.{scan}
use gopher_cni.Go.ParseIp.{parse_cidr, parse_ip}
use gopher_cni.Go.ShowIp.{show_ip}
use gopher_cni.Go.Text.{
  Text, codes, contains_code, cut, drop_first, ends_with_code, is_empty, starts_with_code, text_eq,
  to_lower, trim_space,
}
use gopher_cni.Kubernetes.{fetch_secret_key, get_service_cluster_ip}
use gopher_cni.Prelude.{[], List, false, ok, refl, some, true, ◌∷◌, ◌≡◌, ◌≢◌}
use gopher_cni.Utils.{parse_ip_or_cidr_list, parse_token}
use gopher_cni.Webhook.Mutate.{create_patches}
use gopher_cni.Webhook.Mutate.Outcome.{
  mutate-split_dns, mutate-tunnel_dns, split_zones, tunnel_servers, validated_spec, with_servers,
  with_sidecar,
}
use gopher_cni.Webhook.Mutate.Patching.{apply_patches}
use gopher_cni.Webhook.SplitDns.{
  cluster_ip, first_or_empty, generate_corefile, get_tunnel_dns_servers, parse_dns_zones,
  v4_servers,
}
use gopher_cni.Webhook.Types.{
  PatchOperation, core_dns_container_name, fetch_wg_config, has_container, init_container_name,
}
use gopher_cni.Wireguard.Parser.{
  enter_section, is_header, is_skipped, net_ips, parse_config, parse_interface_key, parse_line,
  parse_lines, parse_pair, parse_peer_key, peer_line, save_peer, section_name, split_pair, v4_nets,
}

abbrev servers : List Text
servers = codes "10.8.0.1" ∷ []

servers_read : tunnel_servers decoders webhook_config (pod_with notes) ≡ ok servers
unfolding get_tunnel_dns_servers v4_servers show_ip fetch_wg_config fetch_secret_key parse_config
    parse_lines parse_line split_pair parse_pair parse_interface_key peer_line parse_peer_key
    enter_section save_peer section_name v4_nets net_ips parse_ip_or_cidr_list scan codes trim_space
    cut is_skipped is_header starts_with_code ends_with_code contains4 to4 text_eq to_lower
    drop_first parse_token contains_code parse_cidr parse_ip get_or_empty get is_empty
servers_read = refl

none_split : is_empty (split_zones (pod_with notes)) ≡ true
unfolding is_empty get_or_empty get text_eq codes
none_split = refl

policy_given : is_empty container_spec.dns_policy ≡ false
unfolding is_empty codes
policy_given = refl

mutate-tunnel_dns_example :
    (ps : List PatchOperation) × (create_patches decoders webhook_config (pod_with notes) ≡ ok ps)
    × (apply_patches container_spec ps
        ≡ some (with_servers (validated_spec webhook_config (pod_with notes)) servers))
    × (has_container
          (validated_spec webhook_config (pod_with notes)).init_containers
          init_container_name
        ≡ true)
mutate-tunnel_dns_example =
    mutate-tunnel_dns decoders webhook_config (pod_with notes) servers servers_read none_split
      policy_given

abbrev zoned : Dict
zoned =
    (annotation_wg_conf_secret, codes "wg")
    ∷ (annotation_split_tunnel_dns_zones, codes "cluster.local.")
    ∷ []

zoned-servers : tunnel_servers decoders webhook_config (pod_with zoned) ≡ ok servers
unfolding get_tunnel_dns_servers v4_servers show_ip fetch_wg_config fetch_secret_key parse_config
    parse_lines parse_line split_pair parse_pair parse_interface_key peer_line parse_peer_key
    enter_section save_peer section_name v4_nets net_ips parse_ip_or_cidr_list scan codes trim_space
    cut is_skipped is_header starts_with_code ends_with_code contains4 to4 text_eq to_lower
    drop_first parse_token contains_code parse_cidr parse_ip get_or_empty get is_empty
zoned-servers = refl

has_split : is_empty (split_zones (pod_with zoned)) ≡ false
unfolding is_empty get_or_empty get text_eq codes
has_split = refl

cluster : cluster_ip webhook_config.kube_client ≡ ok (codes "10.96.0.10")
unfolding cluster_ip get_service_cluster_ip is_empty text_eq codes
cluster = refl

fresh : has_container container_spec.containers core_dns_container_name ≡ false
unfolding has_container text_eq codes
fresh = refl

has_containers : container_spec.containers ≢ []
has_containers e = cc

mutate-split_dns_example :
    (ps : List PatchOperation) × (create_patches decoders webhook_config (pod_with zoned) ≡ ok ps)
    × (apply_patches container_spec ps
        ≡ some (
            with_sidecar webhook_config
              (generate_corefile
                (parse_dns_zones (split_zones (pod_with zoned)))
                (codes "10.96.0.10")
                (first_or_empty servers))
              (validated_spec webhook_config (pod_with zoned))))
    × (has_container
          (validated_spec webhook_config (pod_with zoned)).init_containers
          init_container_name
        ≡ true)
mutate-split_dns_example =
    mutate-split_dns decoders webhook_config (pod_with zoned) servers (codes "10.96.0.10")
      zoned-servers has_split cluster fresh has_containers policy_given
