-- ===== src/Cmd/InstallerMain/Servers.antt =====
-- cmd/installer/main.go: the two goroutines of the group, the log server and the installer.
use gopher_cni.Actions.{Action, checked-eq-ok}
use gopher_cni.Cmd.Env.{env_text_full}
use gopher_cni.Cmd.InstallerMain.{
  Settings, install_config, load_config, load_config-settings_of, log_socket, settings_of,
}
use gopher_cni.Cmd.InstallerMain.Startup.{bad_logger, bad_settings, start}
use gopher_cni.Cni.{plugin_binary_name}
use gopher_cni.Go.Dict.{Dict}
use gopher_cni.Go.Path.{join}
use gopher_cni.Go.Text.{Text, codes, is_empty, text_eq_iff}
use gopher_cni.Installer.CniFile.{JsonCodec, Libcni}
use gopher_cni.Installer.Config.{new_installer}
use gopher_cni.Installer.Install.{binary_path, install}
use gopher_cni.Installer.Install.Removal.{install-leaves}
use gopher_cni.Installer.Kubeconfig.{InstallError}
use gopher_cni.Installer.Os.{Files, Os}
use gopher_cni.Installer.Os.Reliable.{IsReliable}
use gopher_cni.Logging.{Handler, configure}
use gopher_cni.Prelude.{
  Option, [], arith, false, none, ok, ok-injective, refl, subst, sym, ℕ, ◌∷◌, ◌∙◌, ◌≡◌,
}
use gopher_cni.Udslog.Socket.{ListenError, ServerEvent, start_uds_log_server}

-- the log server, with what its select is given
unfoldable pub run_log_server :
    (os : Os) → Settings → ServerEvent os → Action ListenError Files (Unit {0})
run_log_server os c event = start_uds_log_server os (log_socket c) event

module _ (os : Os) (codec : JsonCodec) (lib : Libcni) (sleep : ℕ → Files → Files) (fuel : ℕ) where
  -- the installer, under the default handler
  unfoldable pub run_installer :
      Dict → Settings → Handler → (Files → Files) → Files → Option InstallError × Files
  run_installer env c h wait files =
      install os codec (new_installer env (install_config c h)) lib sleep fuel wait files

-- where the binary of the plugin is on the node
abbrev pub node_binary : Settings → Text
node_binary c = join (c.mounted_host_dir ∷ c.cni_bin_target_dir ∷ plugin_binary_name ∷ [])

mounted_default : is_empty (codes "/host") ≡ false
unfolding is_empty codes
mounted_default = refl

binary_path-node_binary :
    (env : Dict) (c : Settings) (h : Handler)
    → is_empty c.mounted_host_dir ≡ false
    → binary_path (new_installer env (install_config c h)) ≡ node_binary c
unfolding new_installer install_config
binary_path-node_binary env c h full = rw full refl

-- On a system that refuses no call: an installer that came past its start has no binary of the
-- plugin under its settings' path on the node once its goroutine has returned, whatever it
-- returned and whatever the others did to the files meanwhile.
pub run_installer-leaves :
    (os : Os) (codec : JsonCodec) (lib : Libcni) (sleep : ℕ → Files → Files) (fuel : ℕ) (env : Dict)
    (h h' : Handler) (c : Settings) (wait : Files → Files) (files : Files)
    → IsReliable os
    → start env h ≡ (ok c, h')
    → (run_installer os codec lib sleep fuel env c h' wait files).1 (node_binary c) ≡ none
unfolding run_installer start settings_of
run_installer-leaves os codec lib sleep fuel env h h' c wait files reliable started =
    let (loaded, _) =
      checked-eq-ok bad_settings bad_logger (load_config env)
        (λ (c : Settings). configure c.log_level c.log_format) h h' c started in
    let same : settings_of env ≡ c =
      ok-injective _ _ (sym (load_config-settings_of env) ∙ loaded) in
    let full : is_empty c.mounted_host_dir ≡ false =
      subst (λ (c : Settings). is_empty c.mounted_host_dir ≡ false) same
        (env_text_full env (codes "MOUNTED_HOST_DIR") (codes "/host") mounted_default) in
    let path = binary_path-node_binary env c h' full in
    install-leaves os reliable codec (new_installer env (install_config c h')) lib sleep fuel wait
      files (node_binary c) (ground (arith, (text_eq_iff _ _).1 path))
