-- ===== src/Installer/Install.antt =====
-- internal/installer/install.go: Install and Uninstall.
pub mod Cleanup
pub mod Removal
pub mod Restore
pub mod Idempotence
pub mod Whole
use gopher_cni.Cni.{plugin_binary_name}
use gopher_cni.Go.Path.{join}
use gopher_cni.Go.Text.{Text, codes, is_empty}
use gopher_cni.Installer.Binaries.{copy_plugin_binary}
use gopher_cni.Installer.CniFile.{JsonCodec, Libcni, create_cni_config_file, uninstall_cni_config}
use gopher_cni.Installer.Config.{Config}
use gopher_cni.Installer.Kubeconfig.{
  InstallError, calling, create_kubeconfig_file, read_service_account_token,
}
use gopher_cni.Installer.Os.{Files, Os, file_exists, remove}
use gopher_cni.Prelude.{[], Option, Result, err, if◌then◌else◌, none, not, ok, some, ℕ, ◌&&◌, ◌∷◌}

-- The installer's two paths, and the error that Install met.
pub record Progress : Type 0 where
  pub kubeconfig_filepath : Text
  pub cni_config_filepath : Text
  pub failed : Option InstallError

abbrev pub stopped : Text → InstallError → Progress
stopped kube e = record {
  kubeconfig_filepath = kube;
  cni_config_filepath = codes "";
  failed = some e;
}

module _ (cfg : Config) where
  -- the plugin's binary on the node
  abbrev pub binary_path : Text
  binary_path = join (cfg.mounted_host_dir ∷ cfg.cni_bin_target_dir ∷ plugin_binary_name ∷ [])

  -- the binary in the container, and its directory on the node
  abbrev pub source_path : Text
  source_path = join (cfg.cni_bin_source_dir ∷ plugin_binary_name ∷ [])

  abbrev pub target_dir : Text
  target_dir = join (cfg.mounted_host_dir ∷ cfg.cni_bin_target_dir ∷ [])

-- Each of the three parts of Uninstall only logs its error.
module _ (os : Os) where
  unfoldable pub clean_file : Text → Files → Files
  clean_file path files = if file_exists os path files then (remove os path files).1 else files

  unfoldable pub clean_kubeconfig : Text → Files → Files
  unfolding clean_file
  clean_kubeconfig path files = if is_empty path then files else clean_file path files

module _ (os : Os) (codec : JsonCodec) where
  unfoldable pub clean_config : Text → Files → Files
  clean_config path files =
      if not (is_empty path) && file_exists os path files
      then (uninstall_cni_config os codec path files).1
      else files

module _ (os : Os) (codec : JsonCodec) (cfg : Config) where
  module _ (lib : Libcni) (sleep : ℕ → Files → Files) (fuel : ℕ) where
    after_config : Text → Result InstallError Text × Files → Progress × Files
    after_config kube (err e, files) = (stopped kube e, files)
    after_config kube (ok path, files) =
        (record { kubeconfig_filepath = kube; cni_config_filepath = path; failed = none }, files)

    after_kubeconfig : Result InstallError Text × Files → Progress × Files
    unfolding after_config
    after_kubeconfig (err e, files) = (stopped (codes "") e, files)
    after_kubeconfig (ok kube, files) =
        after_config kube (create_cni_config_file os codec lib sleep fuel cfg kube files)

    after_token : Result InstallError Text × Files → Progress × Files
    unfolding after_kubeconfig
    after_token (err e, files) = (stopped (codes "") e, files)
    after_token (ok token, files) = after_kubeconfig (create_kubeconfig_file os cfg token files)

    after_copy : Result InstallError (Unit {0}) × Files → Progress × Files
    unfolding after_token
    after_copy (err e, files) = (stopped (codes "") e, files)
    after_copy (ok u, files) = after_token (read_service_account_token os files)

    -- Install up to its wait
    unfoldable pub set_up_node : Files → Progress × Files
    unfolding after_copy
    set_up_node files =
        after_copy (calling (copy_plugin_binary os (source_path cfg) (target_dir cfg)) files)

  -- Uninstall
  unfoldable pub uninstall : Progress → Files → Files
  uninstall p files = clean_file os (binary_path cfg) (
      clean_kubeconfig os p.kubeconfig_filepath (clean_config os codec p.cni_config_filepath files))

  module _ (lib : Libcni) (sleep : ℕ → Files → Files) (fuel : ℕ) where
    -- what the others do to the files until the context is cancelled, if Install waits for that
    abbrev pub waited : (Files → Files) → Progress → Files → Files
    waited wait p files = elim p.failed [ none ↦ wait files | some e ↦ files ]

    -- Install, whose deferred Uninstall runs whatever it returns
    unfoldable pub install : (Files → Files) → Files → Option InstallError × Files
    install wait files =
        let r = set_up_node lib sleep fuel files in
        (r.0.failed, uninstall r.0 (waited wait r.0 r.1))
