-- ===== src/Installer/Config.antt =====
-- internal/installer/config.go and pluginconfig.go, and the defaults of NewInstaller in install.go.
-- The permissions are those of os.FileMode.
use gopher_cni.Cni.{plugin_type}
use gopher_cni.Go.Dict.{Dict, get_or_empty}
use gopher_cni.Go.Path.{join}
use gopher_cni.Go.Text.{Text, codes, is_empty}
use gopher_cni.Prelude.{[], Bool, List, if◌then◌else◌, ℕ, ◌==◌, ◌∷◌}

pub record Config : Type 0 where
  pub mounted_host_dir : Text
  pub cni_net_dir : Text
  pub log_level : Text
  pub k8s_service_host : Text
  pub k8s_service_port : Text
  pub k8s_service_protocol : Text
  pub k8s_ca_file : Text
  pub k8s_skip_tls_verify : Bool
  pub kubeconfig_filename : Text
  pub kubeconfig_mode : ℕ
  pub kube_exclude_namespaces : List Text
  pub skip_route_cidrs : List Text
  pub cni_bin_source_dir : Text
  pub cni_bin_target_dir : Text
  pub uds_socket_address : Text

abbrev or_else_text : Text → Text → Text
or_else_text default_value s = if is_empty s then default_value else s

-- NewInstaller, in an environment: the configuration with its defaults
unfoldable pub new_installer : Dict → Config → Config
new_installer env cfg =
    let mounted = or_else_text (codes "/host") cfg.mounted_host_dir in
    record cfg {
      k8s_service_host =
          or_else_text (get_or_empty (codes "KUBERNETES_SERVICE_HOST") env) cfg.k8s_service_host;
      k8s_service_port =
          or_else_text (get_or_empty (codes "KUBERNETES_SERVICE_PORT") env) cfg.k8s_service_port;
      k8s_service_protocol = or_else_text (codes "https") cfg.k8s_service_protocol;
      kubeconfig_filename =
          or_else_text (codes "ZZZ-gopher-cni-kubeconfig") cfg.kubeconfig_filename;
      kubeconfig_mode = if cfg.kubeconfig_mode == 0 then 384 else cfg.kubeconfig_mode;
      mounted_host_dir = mounted;
      cni_net_dir = or_else_text (join (mounted ∷ codes "/etc/cni/net.d" ∷ [])) cfg.cni_net_dir;
      log_level = or_else_text (codes "info") cfg.log_level;
    }

-- cni.PluginConfig with the fields that getPluginConfig sets
pub record PluginEntry : Type 0 where
  pub type_name : Text
  pub log_level : Text
  pub log_uds_address : Text
  pub skip_route_cidrs : List Text
  pub kubeconfig : Text
  pub exclude_namespaces : List Text

-- getPluginConfig; a list without elements stays nil.
unfoldable pub get_plugin_config : Config → Text → PluginEntry
get_plugin_config cfg kubeconfig_filepath = record {
  type_name = plugin_type;
  log_level = cfg.log_level;
  log_uds_address = cfg.uds_socket_address;
  skip_route_cidrs = cfg.skip_route_cidrs;
  kubeconfig = kubeconfig_filepath;
  exclude_namespaces = cfg.kube_exclude_namespaces;
}
