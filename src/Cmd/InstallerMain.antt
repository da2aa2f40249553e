-- ===== src/Cmd/InstallerMain.antt =====
-- cmd/installer/main.go: the settings of the installer, and what it is made with.
pub mod Startup
pub mod Servers
use gopher_cni.Cmd.Env.{env_text, env_text_full}
use gopher_cni.Go.Dict.{Dict}
use gopher_cni.Go.Path.{join}
use gopher_cni.Go.Text.{Text, codes, is_empty}
use gopher_cni.Installer.Config.{Config, get_plugin_config, new_installer}
use gopher_cni.Logging.{ConfigureError, Handler, configure, configure-level, level_name, new_logger}
use gopher_cni.Prelude.{
  Result, [], arith, err, false, if◌then◌else◌, inl, inr, ok, refl, some, ◌∷◌, ◌≡◌, ◌⊎◌,
}

pub record Settings : Type 0 where
  pub mounted_host_dir : Text
  pub cni_net_dir : Text
  pub cni_bin_source_dir : Text
  pub cni_bin_target_dir : Text
  pub uds_socket_address : Text
  pub log_level : Text
  pub log_format : Text

pub data SettingsError : Type 0 where
  no_source_dir no_target_dir no_socket_address : SettingsError

unfoldable pub settings_of : Dict → Settings
settings_of env = record {
  mounted_host_dir = env_text env (codes "MOUNTED_HOST_DIR") (codes "/host");
  cni_net_dir = env_text env (codes "CNI_NET_DIR") (codes "/etc/cni/net.d");
  cni_bin_source_dir = env_text env (codes "CNI_BIN_SOURCE_DIR") (codes "/cni");
  cni_bin_target_dir = env_text env (codes "CNI_BIN_TARGET_DIR") (codes "/opt/cni/bin");
  uds_socket_address =
      env_text env (codes "UDS_SOCKET_ADDRESS") (codes "/var/run/gopher-cni/log.sock");
  log_level = env_text env (codes "LOG_LEVEL") (codes "info");
  log_format = env_text env (codes "LOG_FORMAT") (codes "text");
}

unfoldable pub check_settings : Settings → Result SettingsError Settings
check_settings c =
    if is_empty c.cni_bin_source_dir
    then err no_source_dir
    else if is_empty c.cni_bin_target_dir
    then err no_target_dir
    else if is_empty c.uds_socket_address
    then err no_socket_address
    else ok c

-- loadConfig
unfoldable pub load_config : Dict → Result SettingsError Settings
load_config env = check_settings (settings_of env)

-- what NewInstaller is given, under a default handler
unfoldable pub install_config : Settings → Handler → Config
install_config c h = record {
  mounted_host_dir = c.mounted_host_dir;
  cni_net_dir = c.cni_net_dir;
  log_level = level_name h;
  k8s_service_host = [];
  k8s_service_port = [];
  k8s_service_protocol = [];
  k8s_ca_file = [];
  k8s_skip_tls_verify = false;
  kubeconfig_filename = [];
  kubeconfig_mode = 0;
  kube_exclude_namespaces = [];
  skip_route_cidrs = [];
  cni_bin_source_dir = c.cni_bin_source_dir;
  cni_bin_target_dir = c.cni_bin_target_dir;
  uds_socket_address = c.uds_socket_address;
}

-- where the server for the plugin's logs listens
unfoldable pub log_socket : Settings → Text
log_socket c = join (c.mounted_host_dir ∷ c.uds_socket_address ∷ [])

source_default : is_empty (codes "/cni") ≡ false
unfolding codes is_empty
source_default = refl

target_default : is_empty (codes "/opt/cni/bin") ≡ false
unfolding codes is_empty
target_default = refl

socket_default : is_empty (codes "/var/run/gopher-cni/log.sock") ≡ false
unfolding codes is_empty
socket_default = refl

pub socket_address_full : (env : Dict) → is_empty (settings_of env).uds_socket_address ≡ false
unfolding settings_of
socket_address_full env =
    env_text_full env (codes "UDS_SOCKET_ADDRESS") (codes "/var/run/gopher-cni/log.sock")
      socket_default

-- The checks never fail: each variable that they read has a default.
pub load_config-settings_of : (env : Dict) → load_config env ≡ ok (settings_of env)
unfolding load_config settings_of check_settings
load_config-settings_of env =
    rw
      (
        env_text_full env (codes "CNI_BIN_SOURCE_DIR") (codes "/cni") source_default,
        env_text_full env (codes "CNI_BIN_TARGET_DIR") (codes "/opt/cni/bin") target_default,
        env_text_full env (codes "UDS_SOCKET_ADDRESS") (codes "/var/run/gopher-cni/log.sock")
            socket_default,
      )
      refl

pub level_name_full : (h : Handler) → is_empty (level_name h) ≡ false
unfolding level_name is_empty codes
level_name_full h = ground arith

-- In every environment the installer gets its settings. Where the logger can be configured with
-- them, the plugin that it installs logs to the socket of the settings, at the level of the
-- installer's own log; where not, the default handler stays.
pub load_config-plugin_level :
    (env : Dict) (h : Handler) (kubeconfig : Text)
    → (c : Settings) × (load_config env ≡ ok c)
      × (((h' : Handler) × (configure c.log_level c.log_format h ≡ (ok tt, h'))
            × (let entry = get_plugin_config (new_installer env (install_config c h')) kubeconfig in
                new_logger entry.log_level entry.log_uds_address
                ≡ record { address = some c.uds_socket_address; level = h'.level }))
          ⊎ ((e : ConfigureError) × (configure c.log_level c.log_format h ≡ (err e, h))))
unfolding get_plugin_config new_installer install_config
load_config-plugin_level env h kubeconfig =
    let c = settings_of env in
    (
      c,
      load_config-settings_of env,
      elim (configure-level c.log_level c.log_format c.uds_socket_address h
          (socket_address_full env)) [
            | inl (h', configured, named, logger) ↦
                inl (h', configured, rw (level_name_full h') logger)
            | inr failed ↦ inr failed
          ],
    )
