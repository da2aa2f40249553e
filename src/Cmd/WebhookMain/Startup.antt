-- ===== src/Cmd/WebhookMain/Startup.antt =====
-- cmd/webhook/main.go: the start of main, up to the server that it runs.
use gopher_cni.Cmd.Env.{env_text_plain}
use gopher_cni.Actions.{Action, done, from, wrapping, ◌>>=◌, ◌>>◌, checked-eq-ok}
use gopher_cni.Cmd.WebhookMain.{
  IsPort, Settings, SettingsError, load_config, load_config-iff_usable, settings_of, bad_port,
  no_cert_path, no_key_path, no_sidecar_image, no_core_dns_image, is_bad_port, check_settings,
}
use gopher_cni.Go.Dict.{Dict, get_or_empty}
use gopher_cni.Go.Text.{Text, codes, is_empty}
use gopher_cni.Kubernetes.{ClientError, ClientGo, Clientset, new_in_cluster_client}
use gopher_cni.Logging.{ConfigureError, Handler, configure, level_name, configure-eq-ok}
use gopher_cni.Prelude.{
  Result, err, false, ok, some, wrap, ◌≡◌, Bool, true, if◌then◌else◌, ap, sym, ◌∙◌, subst, refl,
}
use gopher_cni.Webhook.Server.{KeyPairs, RunError, ServerEnd, run, new_server}
use gopher_cni.Webhook.Types.{
  WebhookConfig, create_core_dns_config_init_container, create_core_dns_sidecar_container,
  create_init_container,
}

pub data StartError : Type 0 where
  bad_settings : SettingsError → StartError
  bad_logger : ConfigureError → StartError

-- The two calls of logging.Fatal in front of the servers are the two errors.
unfoldable pub start : Dict → Action StartError Handler Settings
start env = do
  c ← from (wrap bad_settings (load_config env))
  wrapping bad_logger (configure c.log_level c.log_format)
  done c

-- what NewServer is given
unfoldable pub server_config : Settings → Clientset → WebhookConfig
server_config c client = record {
  image = c.sidecar_image;
  core_dns_image = c.core_dns_image;
  tls_cert_path = c.tls_cert_path;
  tls_key_path = c.tls_key_path;
  port = c.port;
  kube_client = some client;
}

pub data GroupError : Type 0 where
  no_client : ClientError → GroupError
  run_failed : RunError → GroupError

serve_with :
    KeyPairs → Settings → ServerEnd → Result ClientError Clientset → Result GroupError (Unit {0})
unfolding server_config
serve_with load c event (err e) = err (no_client e)
serve_with load c event (ok client) =
    wrap run_failed (run load event (new_server (server_config c client))).0

-- The goroutine of the server, with what client-go and tls.LoadX509KeyPair do.
unfoldable pub run_server :
    {RestConfig : Type 0}
    → ClientGo RestConfig
    → KeyPairs
    → Settings
    → ServerEnd
    → Result GroupError (Unit {0})
unfolding serve_with
run_server go load c event = serve_with load c event (new_in_cluster_client go)

-- The settings that pass the five tests are those that were tested.
same_settings :
    (port cert key image dns : Bool) {c c' : Settings}
    → (if port
        then err bad_port
        else if cert
        then err no_cert_path
        else if key
        then err no_key_path
        else if image
        then err no_sidecar_image
        else if dns
        then err no_core_dns_image
        else ok c)
      ≡ ok c'
    → c ≡ c'
same_settings true cert key image dns h = cc
same_settings false true key image dns h = cc
same_settings false false true image dns h = cc
same_settings false false false true dns h = cc
same_settings false false false false true h = cc
same_settings false false false false false h = cc

load_config-settings_of : (env : Dict) (c : Settings) → load_config env ≡ ok c → settings_of env ≡ c
unfolding load_config check_settings
load_config-settings_of env c h =
    let s = settings_of env in
    same_settings (is_bad_port s.port) (is_empty s.tls_cert_path) (is_empty s.tls_key_path)
      (is_empty s.sidecar_image) (is_empty s.core_dns_image) h

-- A webhook that came past its start listens on a TCP port, logs at the level that its settings
-- name, and gives the containers that it adds to pods the two images of its environment, both
-- of them named.
pub start-images :
    (env : Dict) (h h' : Handler) (c : Settings) (client : Clientset) (corefile : Text)
    → start env h ≡ (ok c, h')
    → IsPort c.port
      × (level_name h' ≡ c.log_level)
      × ((create_init_container (server_config c client)).image
          ≡ get_or_empty (codes "WEBHOOK_SIDECAR_IMAGE") env)
      × ((create_core_dns_config_init_container (server_config c client) corefile).image
          ≡ get_or_empty (codes "WEBHOOK_SIDECAR_IMAGE") env)
      × ((create_core_dns_sidecar_container (server_config c client)).image
          ≡ get_or_empty (codes "WEBHOOK_COREDNS_IMAGE") env)
      × (is_empty (get_or_empty (codes "WEBHOOK_SIDECAR_IMAGE") env) ≡ false)
      × (is_empty (get_or_empty (codes "WEBHOOK_COREDNS_IMAGE") env) ≡ false)
unfolding start server_config create_init_container create_core_dns_config_init_container
    create_core_dns_sidecar_container settings_of is_empty codes
start-images env h h' c client corefile started =
    let (loaded, configured) =
      checked-eq-ok bad_settings bad_logger (load_config env)
        (λ (c : Settings). configure c.log_level c.log_format) h h' c started in
    let same = load_config-settings_of env c loaded in
    let usable = (load_config-iff_usable env).0 (loaded ∙ ap ok (sym same)) in
    let sidecar = env_text_plain env (codes "WEBHOOK_SIDECAR_IMAGE") in
    let core_dns = env_text_plain env (codes "WEBHOOK_COREDNS_IMAGE") in
    let image : c.sidecar_image ≡ get_or_empty (codes "WEBHOOK_SIDECAR_IMAGE") env =
      ap (λ (c : Settings). c.sidecar_image) (sym same) ∙ sidecar in
    (
      subst (λ (c : Settings). IsPort c.port) same usable.0,
      (configure-eq-ok c.log_level c.log_format (codes "a") h h' refl configured).0,
      image,
      image,
      ap (λ (c : Settings). c.core_dns_image) (sym same) ∙ core_dns,
      usable.1,
      usable.2,
    )
