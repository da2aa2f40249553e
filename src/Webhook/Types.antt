-- ===== src/Webhook/Types.antt =====
-- internal/webhook/types.go: the values that the admission handlers share.
use gopher_cni.Go.Int.{ℤ, pos}
use gopher_cni.Prelude.{
  Bool, true, false, ◌||◌, Option, none, some, List, [], ◌∷◌, Result, err, ◌>>=◌, wrap,
}
use gopher_cni.Go.Text.{Text, codes, text_eq}
use gopher_cni.Go.Dict.{get_or_empty}
use gopher_cni.Go.Ip.{IpNet}
use gopher_cni.Cni.{label_enabled, secret_key_wg_conf}
use gopher_cni.Kubernetes.{
  Pod, Container, Volume, Clientset, KubeError, fetch_secret_key, DnsConfig,
}
use gopher_cni.Wireguard.{Config}
use gopher_cni.Wireguard.Parser.{Decoders, ParseError, parse_config}

abbrev pub init_container_name : Text
init_container_name = codes "gopher-cni-validator"

abbrev pub core_dns_config_container_name : Text
core_dns_config_container_name = codes "gopher-cni-coredns-config"

abbrev pub core_dns_container_name : Text
core_dns_container_name = codes "gopher-cni-coredns"

abbrev pub core_dns_volume_name : Text
core_dns_volume_name = codes "gopher-cni-coredns"

-- The operations of a JSON patch that the program uses.
pub data Op : Type 0 where
  add replace : Op

-- The paths that it patches, in this order: /spec/initContainers, /spec/initContainers/-,
-- /spec/volumes, /spec/volumes/-, /spec/containers/-, /spec/dnsPolicy, /spec/dnsConfig.
pub data PatchPath : Type 0 where
  init_containers init_containers_end volumes volumes_end : PatchPath
  containers_end dns_policy dns_config : PatchPath

pub data PatchValue : Type 0 where
  container_list : List Container → PatchValue
  container : Container → PatchValue
  volume_list : List Volume → PatchValue
  volume : Volume → PatchValue
  policy : Text → PatchValue
  pod_dns_config : DnsConfig → PatchValue

pub record PatchOperation : Type 0 where
  pub op : Op
  pub path : PatchPath
  pub value : PatchValue

-- A nil client is `none`.
pub record WebhookConfig : Type 0 where
  pub image : Text
  pub core_dns_image : Text
  pub tls_cert_path : Text
  pub tls_key_path : Text
  pub port : ℤ
  pub kube_client : Option Clientset

-- DefaultWebhookConfig
abbrev pub default_webhook_config : WebhookConfig
default_webhook_config = record {
  image = codes "gopher-cni:latest";
  core_dns_image = codes "";
  tls_cert_path = codes "/etc/webhook/certs/tls.crt";
  tls_key_path = codes "/etc/webhook/certs/tls.key";
  port = pos 8443;
  kube_client = none;
}

module _ (c : WebhookConfig) where
  -- createInitContainer
  unfoldable pub create_init_container : Container
  create_init_container = record {
    name = init_container_name;
    image = c.image;
    args = codes "init-validation" ∷ [];
    env = [];
    ports = [];
    volume_mounts = [];
  }

  -- createCoreDNSConfigInitContainer
  unfoldable pub create_core_dns_config_init_container : Text → Container
  create_core_dns_config_init_container corefile = record {
    name = core_dns_config_container_name;
    image = c.image;
    args = codes "write-coredns-config" ∷ [];
    env = (record { name = codes "COREFILE"; value = corefile }) ∷ [];
    ports = [];
    volume_mounts =
        (record {
          name = core_dns_volume_name;
          mount_path = codes "/etc/coredns";
          read_only = false;
        })
        ∷ [];
  }

  -- createCoreDNSSidecarContainer
  unfoldable pub create_core_dns_sidecar_container : Container
  create_core_dns_sidecar_container = record {
    name = core_dns_container_name;
    image = c.core_dns_image;
    args = codes "-conf" ∷ codes "/etc/coredns/Corefile" ∷ [];
    env = [];
    ports = (record { container_port = 53; protocol = codes "UDP" }) ∷ [];
    volume_mounts =
        (record {
          name = core_dns_volume_name;
          mount_path = codes "/etc/coredns";
          read_only = true;
        })
        ∷ [];
  }

-- The errors of fetchWGConfig.
pub data FetchError : Type 0 where
  no_client : FetchError
  secret_failed : KubeError → FetchError
  config_failed : ParseError → FetchError

unfoldable pub fetch_with : Decoders → Option Clientset → Text → Text → Result FetchError Config
fetch_with d none namespace secret_name = err no_client
fetch_with d (some client) namespace secret_name = do
  content ← wrap secret_failed (fetch_secret_key client namespace secret_name secret_key_wg_conf)
  wrap config_failed (parse_config d content)

-- fetchWGConfig
unfoldable pub fetch_wg_config : Decoders → WebhookConfig → Text → Text → Result FetchError Config
unfolding fetch_with
fetch_wg_config d c namespace secret_name = fetch_with d c.kube_client namespace secret_name

-- hasContainer
unfoldable pub has_container : List Container → Text → Bool
has_container [] name = false
has_container (c ∷ cs) name = text_eq c.name name || has_container cs name

-- shouldInject
unfoldable pub should_inject : Pod → Bool
should_inject pod = text_eq (get_or_empty label_enabled pod.labels) (codes "true")

-- The messages of the validation errors, with what each is formatted from.
pub data Message : Type 0 where
  missing_secret host_network_used : Message
  invalid_mode invalid_overlap invalid_split_cidr : Text → Message
  bypasses : IpNet → IpNet → Message
  overlaps : IpNet → IpNet → Message

pub record ValidationError : Type 0 where
  pub field : Text
  pub message : Message
