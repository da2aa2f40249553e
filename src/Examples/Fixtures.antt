-- ===== src/Examples/Fixtures.antt =====
-- The values that the tests share: a kernel in which every call succeeds, decoders that take
-- every key, two networks, and a cluster with one secret.
use gopher_cni.Go.Int.{pos}
use gopher_cni.Cni.{
  annotation_split_tunnel_cidrs, annotation_split_tunnel_overlap, annotation_wg_conf_secret,
  label_enabled, secret_key_wg_conf,
}
use gopher_cni.Go.Dict.{Dict}
use gopher_cni.Go.Ip.{IpNet, ip4}
use gopher_cni.Go.Text.{Text, codes}
use gopher_cni.Kubernetes.{Clientset, Pod, PodSpec}
use gopher_cni.Plugin.Kernel.{Kernel, Route, universe}
use gopher_cni.Plugin.Provider.{CniProvider}
use gopher_cni.Prelude.{[], false, none, ok, some, ◌∷◌}
use gopher_cni.Webhook.Types.{WebhookConfig}
use gopher_cni.Wireguard.{PeerConfig, UdpAddr, WgConfig}
use gopher_cni.Wireguard.Parser.{Decoders}

abbrev pub orig : Route
orig = record { link_index = 2; dst = none; gw = some (ip4 167772161); scope = universe; table = 0 }

abbrev pub kernel : Kernel
kernel = record {
  failure = λ t c. none;
  link_index = λ t name. 7;
  routes = λ t. orig ∷ [];
  addresses = λ t index. ip4 167772170 ∷ [];
}

abbrev pub protected : IpNet
protected = record { ip = ip4 168296448; ones = 24; bits = 32 }

abbrev pub split_net : IpNet
split_net = record { ip = ip4 167772160; ones = 8; bits = 32 }

abbrev pub endpoint : UdpAddr
endpoint = record { ip = some (ip4 16909060); port = 51820 }

abbrev pub peer : PeerConfig
peer = record {
  public_key = [];
  preshared_key = none;
  endpoint = some endpoint;
  keepalive = none;
  allowed_ips = [];
}

abbrev pub wg_config : WgConfig
wg_config = record {
  private_key = none;
  listen_port = none;
  firewall_mark = none;
  peers = peer ∷ [];
}

abbrev pub decoders : Decoders
decoders = record { parse_key = λ s. some s; resolve_udp_addr = λ s. some endpoint }

abbrev pub container_spec : PodSpec
container_spec = record {
  init_containers = [];
  containers =
      (record {
        name = codes "app";
        image = codes "app:1";
        args = [];
        env = [];
        ports = [];
        volume_mounts = [];
      })
      ∷ [];
  volumes = [];
  host_network = false;
  dns_policy = codes "ClusterFirst";
  dns_config = none;
}

abbrev pub notes : Dict
notes =
    (annotation_wg_conf_secret, codes "wg")
    ∷ (annotation_split_tunnel_cidrs, codes "10.0.0.0/8")
    ∷ (annotation_split_tunnel_overlap, codes "allow")
    ∷ []

abbrev pub pod_with : Dict → Pod
pod_with annotations = record {
  namespace = codes "default";
  name = codes "p";
  labels = (label_enabled, codes "true") ∷ [];
  annotations = annotations;
  spec = container_spec;
}

abbrev pub wg_conf : Text
wg_conf =
    codes
      "[Interface]\nAddress = 10.8.0.0/24\nDNS = 10.8.0.1\n# the gateway\n[Peer]\nEndpoint = h:1\n"

abbrev pub client : Clientset
client = record {
  get_pod = λ namespace name. ok (pod_with notes);
  get_secret = λ namespace name. ok ((secret_key_wg_conf, wg_conf) ∷ []);
  get_service = λ namespace name. ok (codes "10.96.0.10");
}

abbrev pub webhook_config : WebhookConfig
webhook_config = record {
  image = codes "gopher-cni:1";
  core_dns_image = codes "coredns:1";
  tls_cert_path = codes "/tls.crt";
  tls_key_path = codes "/tls.key";
  port = pos 8443;
  kube_client = some client;
}

abbrev pub provider : CniProvider
provider = record { client = client; pod = pod_with notes; exclude_namespaces = [] }
