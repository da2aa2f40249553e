-- ===== src/Webhook/SplitDns.antt =====
-- internal/webhook/split_dns.go: the DNS configuration of a pod.
use gopher_cni.Prelude.{
  Option, none, some, List, [], ◌∷◌, ◌++◌, if◌then◌else◌, Result, ok, err, ◌>>=◌, wrap,
}
use gopher_cni.Go.Text.{Text, codes, is_empty, split, trim_space, trim_suffix_code}
use gopher_cni.Go.Dict.{get_or_empty}
use gopher_cni.Go.Ip.{Ip, to4}
use gopher_cni.Go.ShowIp.{show_ip}
use gopher_cni.Cni.{annotation_wg_conf_secret, annotation_split_tunnel_dns_zones}
use gopher_cni.Kubernetes.{
  Pod, Volume, empty_dir, Clientset, KubeError, get_service_cluster_ip, DnsConfig,
}
use gopher_cni.Wireguard.Parser.{Decoders}
use gopher_cni.Webhook.Types.{
  PatchOperation, add, replace, volumes, volumes_end, init_containers_end, containers_end,
  dns_policy, dns_config, volume_list, volume, container, policy, pod_dns_config, WebhookConfig,
  FetchError, fetch_wg_config, has_container, create_core_dns_config_init_container,
  create_core_dns_sidecar_container, core_dns_container_name, core_dns_volume_name,
}

-- The errors of createDNSPatches. `nil_client` is a call through a nil client, which panics.
pub data DnsError : Type 0 where
  dns_fetch_failed : FetchError → DnsError
  cluster_dns_failed : KubeError → DnsError
  container_exists : DnsError
  nil_client : DnsError

-- the IPv4 servers, in dotted form
unfoldable pub v4_servers : List Ip → List Text
v4_servers [] = []
v4_servers (ip ∷ ips) =
    let rest = v4_servers ips in elim (to4 ip) [ none ↦ rest | some _ ↦ show_ip ip ∷ rest ]

-- the loop of parseDNSZones
unfoldable pub zones_of : List Text → List Text
zones_of [] = []
zones_of (raw ∷ rest) =
    let z = trim_suffix_code b'.' (trim_space raw) in
    let later = zones_of rest in if is_empty z then later else z ∷ later

-- parseDNSZones
unfoldable pub parse_dns_zones : Text → List Text
unfolding zones_of
parse_dns_zones raw = zones_of (split b',' raw)

-- the block of one zone, with what ends it
unfoldable pub zone_block : Text → Text → Text → Text
zone_block zone server end =
    zone ++ (codes " {\n    forward . " ++ (server ++ (codes "\n    log\n}\n" ++ end)))

zone_blocks : List Text → Text → Text
unfolding zone_block
zone_blocks [] cluster_dns_ip = []
zone_blocks (zone ∷ zones) cluster_dns_ip =
    zone_block zone cluster_dns_ip (codes "\n") ++ zone_blocks zones cluster_dns_ip

-- generateCorefile
unfoldable pub generate_corefile : List Text → Text → Text → Text
unfolding zone_blocks
generate_corefile zones cluster_dns_ip tunnel_dns_ip =
    zone_blocks zones cluster_dns_ip
    ++ (if is_empty tunnel_dns_ip then [] else zone_block (codes ".") tunnel_dns_ip (codes ""))

abbrev pub first_or_empty : List Text → Text
first_or_empty [] = codes ""
first_or_empty (s ∷ ss) = s

abbrev pub core_dns_volume : Volume
core_dns_volume = record { name = core_dns_volume_name; source = empty_dir }

unfoldable pub volume_patch : List Volume → PatchOperation
volume_patch [] = record { op = add; path = volumes; value = volume_list (core_dns_volume ∷ []) }
volume_patch (v ∷ vs) = record { op = add; path = volumes_end; value = volume core_dns_volume }

-- corev1.PodDNSConfig{Nameservers: servers}
abbrev pub only_nameservers : List Text → DnsConfig
only_nameservers servers = record { nameservers = servers; searches = []; options = [] }

-- Point the pod at these nameservers.
unfoldable pub nameserver_patches : List Text → List PatchOperation
nameserver_patches servers =
    (record { op = replace; path = dns_policy; value = policy (codes "None") })
    ∷ (record { op = add; path = dns_config; value = pod_dns_config (only_nameservers servers) })
    ∷ []

unfoldable pub cluster_ip : Option Clientset → Result DnsError Text
cluster_ip none = err nil_client
cluster_ip (some client) =
    wrap cluster_dns_failed (get_service_cluster_ip client (codes "kube-system") (codes "kube-dns"))

-- Standard tunnel DNS.
unfoldable pub tunnel_dns_patches : List Text → List PatchOperation
unfolding nameserver_patches
tunnel_dns_patches [] = []
tunnel_dns_patches (s ∷ ss) = nameserver_patches (s ∷ ss)

module _ (c : WebhookConfig) where
  -- The patches of the sidecar, in order.
  unfoldable pub sidecar_patches : Pod → Text → List PatchOperation
  unfolding volume_patch
  sidecar_patches pod corefile =
      volume_patch pod.spec.volumes
      ∷ (record {
        op = add;
        path = init_containers_end;
        value = container (create_core_dns_config_init_container c corefile);
      })
      ∷ (record {
        op = add;
        path = containers_end;
        value = container (create_core_dns_sidecar_container c);
      })
      ∷ nameserver_patches (codes "127.0.0.1" ∷ [])

module _ (d : Decoders) (c : WebhookConfig) where
  -- getTunnelDNSServers
  unfoldable pub get_tunnel_dns_servers : Text → Text → Result FetchError (List Text)
  get_tunnel_dns_servers namespace secret_name = do
    wg_config ← fetch_wg_config d c namespace secret_name
    ok (v4_servers wg_config.dns)

  -- createSplitDNSPatches
  unfoldable pub create_split_dns_patches :
      Pod → Text → List Text → Result DnsError (List PatchOperation)
  unfolding cluster_ip
  create_split_dns_patches pod split_zones_raw tunnel_dns_servers = do
    cluster_dns_ip ← cluster_ip c.kube_client
    if has_container pod.spec.containers core_dns_container_name
        then err container_exists
        else ok (
            sidecar_patches c pod (
              generate_corefile (parse_dns_zones split_zones_raw) cluster_dns_ip
                (first_or_empty tunnel_dns_servers)))

  -- createDNSPatches
  unfoldable pub create_dns_patches : Pod → Result DnsError (List PatchOperation)
  create_dns_patches pod = do
    servers ← wrap dns_fetch_failed (
        get_tunnel_dns_servers pod.namespace
          (get_or_empty annotation_wg_conf_secret pod.annotations))
    let zones = get_or_empty annotation_split_tunnel_dns_zones pod.annotations
    if is_empty zones
        then ok (tunnel_dns_patches servers)
        else create_split_dns_patches pod zones servers
