-- ===== src/Installer/CniFile.antt =====
-- internal/installer/cniconfig.go: the file of the CNI configuration list on the node, and the wait
-- for it.
pub mod Network
use gopher_cni.Actions.{Action, done, from, ◌>>=◌, ◌>>◌}
use gopher_cni.Go.Json.{Fields}
use gopher_cni.Go.Order.{sort}
use gopher_cni.Go.Path.{join, trim_prefix}
use gopher_cni.Go.Text.{Text, codes, is_empty, text_eq}
use gopher_cni.Installer.CniConfig.{insert_cni_plugin_config, remove_cni_plugin_config}
use gopher_cni.Installer.Config.{Config, PluginEntry, get_plugin_config}
use gopher_cni.Installer.Kubeconfig.{
  InstallError, calling, config_error, config_removed, invalid_config_list, no_default_network,
  no_networks, not_json, not_marshalled, still_waiting,
}
use gopher_cni.Installer.Os.{Files, Os, file_exists, read, write}
use gopher_cni.Prelude.{
  Bool, List, Option, Result, [], err, if◌then◌else◌, none, ok, some, suc, wrap, zero, ℕ, ◌++◌,
  ◌==◌, ◌||◌, ◌∷◌,
}

-- encoding/json on map[string]any, and on the plugin's entry and back into a map.
pub record JsonCodec : Type 0 where
  pub decode : Text → Option Fields
  pub encode : Fields → Option Text
  pub entry_fields : PluginEntry → Option Fields

-- The CNI library: the files of a directory with one of the three extensions, and the number of
-- plugins of a configuration list that it can load.
pub record Libcni : Type 0 where
  pub conf_files : Files → Text → Option (List Text)
  pub conf_list_plugins : Files → Text → Option ℕ

abbrev pub conflist_suffix : Text
conflist_suffix = codes ".conflist"

-- strings.HasSuffix(s, suffix)
unfoldable pub ends_with : Text → Text → Bool
ends_with suffix [] = text_eq suffix []
ends_with suffix (c ∷ s) = text_eq suffix (c ∷ s) || ends_with suffix s

-- What becomes of one look: to wait on, or to stop with a file or an error.
pub data Look : Type 0 where
  wait_on : Look
  stop : Result InstallError Text → Look

unfoldable pub look_at : Result InstallError Text → Look
look_at (err e) = stop (err e)
look_at (ok name) = if is_empty name then wait_on else stop (ok name)

module _ (lib : Libcni) where
  unfoldable pub checked_list : Text → Option ℕ → Result InstallError Text
  checked_list file none = err invalid_config_list
  checked_list file (some n) = if n == 0 then err no_networks else ok file

  first_file : Files → List Text → Result InstallError Text
  unfolding checked_list
  first_file files [] = ok (codes "")
  first_file files (file ∷ rest) =
      if ends_with conflist_suffix file
      then checked_list file (lib.conf_list_plugins files file)
      else ok (codes "")

  default_of : Files → Option (List Text) → Result InstallError Text
  unfolding first_file
  default_of files none = err no_default_network
  default_of files (some names) = first_file files (sort names)

  -- getDefaultCNINetwork; "" where there is none
  unfoldable pub get_default_cni_network : Text → Files → Result InstallError Text
  unfolding default_of
  get_default_cni_network conf_dir files = default_of files (lib.conf_files files conf_dir)

  -- The loop of getCNIConfig: `sleep i` is what others do to the files during its i-th sleep.
  unfoldable pub await_network : (ℕ → Files → Files) → Text → ℕ → ℕ → Action InstallError Files Text
  await_network sleep dir i zero files = (err still_waiting, files)
  await_network sleep dir i (suc fuel) files = elim (look_at (get_default_cni_network dir files)) [
    | stop r ↦ (r, files)
    | wait_on ↦ await_network sleep dir (suc i) fuel (sleep i files)
  ]

module _ (os : Os) (codec : JsonCodec) where
  abbrev pub or_fail : {A : Type 0} → InstallError → Option A → Result InstallError A
  or_fail e none = err e
  or_fail e (some a) = ok a

  -- what getCNIConfig does with the file that it found
  unfoldable pub read_config : Text → Action InstallError Files Fields
  read_config path files =
      if file_exists os path files
      then (do content ← calling (read os path); from (or_fail not_json (codec.decode content)))
          files
      else (err (config_removed path), files)

  -- writeCNIConfigMap
  unfoldable pub write_cni_config_map : Text → Fields → Action InstallError Files (Unit {0})
  write_cni_config_map path cfg = do
    content ← from (or_fail not_marshalled (codec.encode cfg))
    calling (write os path (content ++ codes "\n") 420)

  -- getPluginConfigMap
  abbrev get_plugin_config_map : Config → Text → Result InstallError Fields
  get_plugin_config_map cfg kubeconfig_filepath =
      or_fail not_marshalled (codec.entry_fields (get_plugin_config cfg kubeconfig_filepath))

  -- uninstallCNIConfig
  unfoldable pub uninstall_cni_config : Text → Action InstallError Files (Unit {0})
  uninstall_cni_config path = do
    content ← calling (read os path)
    existing ← from (or_fail not_json (codec.decode content))
    config ← from (wrap config_error (remove_cni_plugin_config existing))
    write_cni_config_map path config

  -- installCNIConfig behind the wait
  unfoldable pub update_config : Fields → Text → Action InstallError Files Text
  update_config plugin path = do
    existing ← read_config path
    config ← from (wrap config_error (insert_cni_plugin_config plugin existing))
    write_cni_config_map path config
    done path

  module _ (lib : Libcni) (sleep : ℕ → Files → Files) (fuel : ℕ) where
    -- installCNIConfig
    unfoldable pub install_cni_config : Fields → Text → Action InstallError Files Text
    install_cni_config plugin dir = do
      path ← await_network lib sleep dir 0 fuel
      update_config plugin path

    -- createCNIConfigFile
    unfoldable pub create_cni_config_file : Config → Text → Action InstallError Files Text
    create_cni_config_file cfg kubeconfig_filepath = do
      plugin ←
          from (get_plugin_config_map cfg (trim_prefix kubeconfig_filepath cfg.mounted_host_dir))
      install_cni_config plugin (join (cfg.mounted_host_dir ∷ cfg.cni_net_dir ∷ []))
