-- ===== src/Cmd/WebhookMain.antt =====
-- cmd/webhook/main.go: the settings of the webhook.
pub mod Startup
use gopher_cni.Cmd.Env.{env_number, env_text, env_text_full, env_text_plain}
use gopher_cni.Go.Dict.{Dict, get_or_empty}
use gopher_cni.Go.Int.{negsuc, pos, ℤ}
use gopher_cni.Go.Text.{Text, codes, is_empty}
use gopher_cni.Prelude.{
  Bool, Result, [], ap, arith, err, false, if◌then◌else◌, leb, ltb, ok, refl, sym, true, ◌<◌, ◌||◌,
  ◌↔◌, ◌∙◌, ◌≡◌, ◌≤◌,
}

pub record Settings : Type 0 where
  pub sidecar_image : Text
  pub core_dns_image : Text
  pub port : ℤ
  pub tls_cert_path : Text
  pub tls_key_path : Text
  pub log_level : Text
  pub log_format : Text

pub data SettingsError : Type 0 where
  bad_port no_cert_path no_key_path no_sidecar_image no_core_dns_image : SettingsError

unfoldable pub settings_of : Dict → Settings
settings_of env = record {
  sidecar_image = env_text env (codes "WEBHOOK_SIDECAR_IMAGE") [];
  core_dns_image = env_text env (codes "WEBHOOK_COREDNS_IMAGE") [];
  port = env_number env (codes "WEBHOOK_PORT") (pos 8443);
  tls_cert_path = env_text env (codes "WEBHOOK_TLS_CERT_PATH") (codes "/etc/webhook/certs/tls.crt");
  tls_key_path = env_text env (codes "WEBHOOK_TLS_KEY_PATH") (codes "/etc/webhook/certs/tls.key");
  log_level = env_text env (codes "LOG_LEVEL") (codes "info");
  log_format = env_text env (codes "LOG_FORMAT") (codes "text");
}

unfoldable pub is_bad_port : ℤ → Bool
is_bad_port (pos n) = leb n 0 || ltb 65535 n
is_bad_port (negsuc n) = true

unfoldable pub check_settings : Settings → Result SettingsError Settings
unfolding is_bad_port
check_settings c =
    if is_bad_port c.port
    then err bad_port
    else if is_empty c.tls_cert_path
    then err no_cert_path
    else if is_empty c.tls_key_path
    then err no_key_path
    else if is_empty c.sidecar_image
    then err no_sidecar_image
    else if is_empty c.core_dns_image
    then err no_core_dns_image
    else ok c

-- loadConfig
unfoldable pub load_config : Dict → Result SettingsError Settings
load_config env = check_settings (settings_of env)

-- A TCP port.
abbrev pub IsPort : ℤ → Type 0
IsPort (pos n) = (0 < n) × (n ≤ 65535)
IsPort (negsuc n) = ⊥

IsPort-iff_test : (z : ℤ) → (is_bad_port z ≡ false) ↔ IsPort z
unfolding is_bad_port
IsPort-iff_test (pos n) =
    (λ h. (ground (arith, h), ground (arith, h)), λ p. ground (arith, p.0, p.1))
IsPort-iff_test (negsuc n) = (λ h. cc, λ p. elim p [ ])

cert_default : is_empty (codes "/etc/webhook/certs/tls.crt") ≡ false
unfolding codes is_empty
cert_default = refl

key_default : is_empty (codes "/etc/webhook/certs/tls.key") ≡ false
unfolding codes is_empty
key_default = refl

-- The five tests in their order.
accepted :
    (port cert key image dns : Bool) {c : Settings}
    → (if port
        then err bad_port
        else if cert
        then err no_cert_path
        else if key
        then err no_key_path
        else if image
        then err no_sidecar_image
        else if dns
        then err no_core_dns_image
        else ok c)
      ≡ ok c
    → (port ≡ false) × (image ≡ false) × (dns ≡ false)
accepted true cert key image dns h = cc
accepted false true key image dns h = cc
accepted false false true image dns h = cc
accepted false false false true dns h = cc
accepted false false false false true h = cc
accepted false false false false false h = (refl, refl, refl)

-- The webhook's settings are taken, and are those of the environment, exactly where the port is a
-- TCP port and the two images are named.
pub load_config-iff_usable :
    (env : Dict)
    → (load_config env ≡ ok (settings_of env)) ↔ (
        IsPort (env_number env (codes "WEBHOOK_PORT") (pos 8443))
        × (is_empty (get_or_empty (codes "WEBHOOK_SIDECAR_IMAGE") env) ≡ false)
        × (is_empty (get_or_empty (codes "WEBHOOK_COREDNS_IMAGE") env) ≡ false))
unfolding load_config settings_of check_settings
load_config-iff_usable env =
    let sidecar = env_text_plain env (codes "WEBHOOK_SIDECAR_IMAGE") in
    let core_dns = env_text_plain env (codes "WEBHOOK_COREDNS_IMAGE") in
    let port = IsPort-iff_test (env_number env (codes "WEBHOOK_PORT") (pos 8443)) in
    (
      λ h.
          let c = settings_of env in
          let (p, image, dns) =
            accepted (is_bad_port c.port) (is_empty c.tls_cert_path) (is_empty c.tls_key_path)
              (is_empty c.sidecar_image) (is_empty c.core_dns_image) h in
          (port.0 p, ap is_empty (sym sidecar) ∙ image, ap is_empty (sym core_dns) ∙ dns),
      λ w.
          rw
            (
              port.1 w.0,
              env_text_full env (codes "WEBHOOK_TLS_CERT_PATH") (codes "/etc/webhook/certs/tls.crt")
                  cert_default,
              env_text_full env (codes "WEBHOOK_TLS_KEY_PATH") (codes "/etc/webhook/certs/tls.key")
                  key_default,
              sidecar,
              core_dns,
              w.1,
              w.2,
            )
            refl,
    )
