-- ===== src/Cmd/InstallerMain/Startup.antt =====
-- cmd/installer/main.go: the start of main, and the logs of the plugin that it installs.
use gopher_cni.Actions.{Action, checked-eq-ok, done, from, wrapping, ◌>>=◌, ◌>>◌}
use gopher_cni.Cmd.InstallerMain.{
  Settings, SettingsError, install_config, level_name_full, load_config, load_config-settings_of,
  settings_of, socket_address_full,
}
use gopher_cni.Go.Dict.{Dict}
use gopher_cni.Go.Json.{Fields}
use gopher_cni.Go.Text.{Text, is_empty}
use gopher_cni.Installer.Config.{get_plugin_config, new_installer}
use gopher_cni.Logging.{
  ConfigureError, Handler, configure, configure-eq-ok, level_leb, new_logger, PluginLogger,
}
use gopher_cni.Plugin.Logging.{
  CallArgs, Post, Severity, append_fields, json_line, log_call, logger_attrs, severity_level,
}
use gopher_cni.Plugin.Logging.Delivery.{IsServed, log_call-delivered}
use gopher_cni.Prelude.{
  List, [], if◌then◌else◌, ok, some, subst, sym, wrap, ◌++◌, ◌∷◌, ◌≡◌, ◌∙◌, ok-injective, false,
}
use gopher_cni.Udslog.Records.{LogCodec, LogRecord, expected_attr, find_attr}

pub data StartError : Type 0 where
  bad_settings : SettingsError → StartError
  bad_logger : ConfigureError → StartError

-- The two calls of logging.Fatal in front of the servers are the two errors.
unfoldable pub start : Dict → Action StartError Handler Settings
start env = do
  c ← from (wrap bad_settings (load_config env))
  wrapping bad_logger (configure c.log_level c.log_format)
  done c

-- The plugin's logger, with the entry that the installer writes to the CNI configuration.
abbrev pub installed_logger : Dict → Settings → Handler → Text → PluginLogger
installed_logger env c h kubeconfig =
    let entry = get_plugin_config (new_installer env (install_config c h)) kubeconfig in
    new_logger entry.log_level entry.log_uds_address

installed_logger-level :
    (env : Dict) (h h' : Handler) (c : Settings) (kubeconfig : Text)
    → start env h ≡ (ok c, h')
    → installed_logger env c h' kubeconfig
      ≡ record { address = some c.uds_socket_address; level = h'.level }
unfolding start get_plugin_config new_installer install_config
installed_logger-level env h h' c kubeconfig started =
    let (loaded, configured) =
      checked-eq-ok bad_settings bad_logger (load_config env)
        (λ (c : Settings). configure c.log_level c.log_format) h h' c started in
    let same : settings_of env ≡ c =
      ok-injective _ _ (sym (load_config-settings_of env) ∙ loaded) in
    let full : is_empty c.uds_socket_address ≡ false =
      subst (λ (c : Settings). is_empty c.uds_socket_address ≡ false) same
        (socket_address_full env) in
    rw (level_name_full h')
      (configure-eq-ok c.log_level c.log_format c.uds_socket_address h h' full configured).1

-- Where the installer came past its start, posts through the socket of its settings reach its log
-- server, and the server decodes the line of the call as the object that the plugin encodes: of the
-- calls of the logger that the installed plugin makes, those at the level of the installer's own
-- log or above add one record to the server's log, with the level, the message and the attributes
-- of the call, and the others add none.
pub installed_log-delivered :
    (env : Dict) (h h' : Handler) (c : Settings) (kubeconfig : Text) (codec : LogCodec)
    (post : Post (List LogRecord)) (encode : Fields → Text) (event_id func_name time msg : Text)
    (args : CallArgs) (v : Severity) (more : Fields) (log : List LogRecord)
    → start env h ≡ (ok c, h')
    → IsServed codec post c.uds_socket_address
    → codec.decode
        (encode (json_line time v msg (append_fields (logger_attrs event_id args func_name) more)))
      ≡ some (json_line time v msg (append_fields (logger_attrs event_id args func_name) more))
    → (r : LogRecord) × (log_call post encode
          (installed_logger env c h' kubeconfig)
          (append_fields (logger_attrs event_id args func_name) more)
          time
          v
          msg
          log
        ≡ (if level_leb h'.level (severity_level v) then log ++ r ∷ [] else log))
      × (r.level ≡ severity_level v)
      × (r.msg ≡ msg)
      × ((k : Text)
          → find_attr k r.attrs
            ≡ expected_attr k (append_fields (logger_attrs event_id args func_name) more))
installed_log-delivered env h h' c kubeconfig codec post encode event_id func_name time msg args v
      more log started served decoded =
    rw (installed_logger-level env h h' c kubeconfig started) (
      log_call-delivered codec post encode c.uds_socket_address h'.level
        (append_fields (logger_attrs event_id args func_name) more) time v msg log served decoded)
