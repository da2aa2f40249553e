-- ===== src/Examples/Mains.antt =====
-- The executables from their start to their end, and the plugin's log on its way to the server.
use gopher_cni.Go.Int.{atoi}
use gopher_cni.Utils.Env.{get_env}
use gopher_cni.Cmd.Env.{env_text, env_number}
use gopher_cni.Cmd.InstallerMain
use gopher_cni.Cmd.WebhookMain
use gopher_cni.Cmd.InstallerMain.Startup.{installed_log-delivered, installed_logger}
use gopher_cni.Cmd.WebhookMain.{IsPort}
use gopher_cni.Cmd.WebhookMain.Startup.{server_config, start-images}
use gopher_cni.Cmd.Shutdown.{Main, started}
use gopher_cni.Examples.Fixtures.{client}
use gopher_cni.Examples.Starting.{debug_env, quiet, webhook_env}
use gopher_cni.Go.Dict.{get_or_empty}
use gopher_cni.Go.Json.{Fields, end}
use gopher_cni.Go.Text.{Text, codes, is_empty, text_eq}
use gopher_cni.Logging.{
  parse_format, parse_level, configure, Handler, level_debug, level_info, level_name, level_leb,
  text_format,
}
use gopher_cni.Plugin.Logging.{
  CallArgs, Post, append_fields, info, json_line, log_call, logger_attrs, severity_level,
}
use gopher_cni.Plugin.Logging.Delivery.{IsServed}
use gopher_cni.Prelude.{List, [], false, ok, refl, some, none, true, ◌∷◌, ◌≡◌, ℕ, zero, suc}
use gopher_cni.Udslog.Records.{LogCodec, LogRecord, expected_attr, find_attr, serve_post}
use gopher_cni.Webhook.Types.{
  create_core_dns_config_init_container, create_core_dns_sidecar_container, create_init_container,
}

webhook_started :
    WebhookMain.Startup.start webhook_env quiet ≡ (ok (WebhookMain.settings_of webhook_env), quiet)
unfolding WebhookMain.Startup.start WebhookMain.load_config WebhookMain.check_settings
    WebhookMain.settings_of env_number get_env is_empty get_or_empty text_eq codes atoi env_text
    configure parse_level parse_format
webhook_started = refl

start-images_example :
    IsPort (WebhookMain.settings_of webhook_env).port
    × (level_name quiet ≡ (WebhookMain.settings_of webhook_env).log_level)
    × ((create_init_container (server_config (WebhookMain.settings_of webhook_env) client)).image
        ≡ get_or_empty (codes "WEBHOOK_SIDECAR_IMAGE") webhook_env)
    × ((create_core_dns_config_init_container
          (server_config (WebhookMain.settings_of webhook_env) client)
          (codes ". {}")).image
        ≡ get_or_empty (codes "WEBHOOK_SIDECAR_IMAGE") webhook_env)
    × ((create_core_dns_sidecar_container
          (server_config (WebhookMain.settings_of webhook_env) client)).image
        ≡ get_or_empty (codes "WEBHOOK_COREDNS_IMAGE") webhook_env)
    × (is_empty (get_or_empty (codes "WEBHOOK_SIDECAR_IMAGE") webhook_env) ≡ false)
    × (is_empty (get_or_empty (codes "WEBHOOK_COREDNS_IMAGE") webhook_env) ≡ false)
start-images_example =
    start-images webhook_env quiet quiet (WebhookMain.settings_of webhook_env) client (codes ". {}")
      webhook_started

-- One of two servers has returned an error.
abbrev failed_once : Main
failed_once = record (started 2) { running = 1; failed = true; cancelled = true }

abbrev debug_handler : Handler
debug_handler = record { level = level_debug; format = text_format }

abbrev installer_settings : InstallerMain.Settings
installer_settings = InstallerMain.settings_of debug_env

installer_started :
    InstallerMain.Startup.start debug_env quiet ≡ (ok installer_settings, debug_handler)
unfolding InstallerMain.Startup.start InstallerMain.load_config InstallerMain.check_settings
    is_empty InstallerMain.settings_of env_text get_env get_or_empty text_eq codes configure
    parse_level parse_format
installer_started = refl

abbrev call_args : CallArgs
call_args = record {
  container_id = codes "c";
  netns = codes "/ns";
  if_name = codes "eth0";
  args = codes "";
  path = codes "/opt/cni/bin";
}

abbrev sent_line : Fields
sent_line =
    json_line (codes "now") info (codes "added")
      (append_fields (logger_attrs (codes "id") call_args (codes "add")) end)

-- A codec that knows one line.
abbrev line_codec : LogCodec
line_codec = record { decode = λ body. some sent_line; parse_time = λ t. none; now = 7 }

skip_host : ℕ → Text → Text
skip_host zero s = s
skip_host (suc n) [] = []
skip_host (suc n) (c ∷ s) = skip_host n s

abbrev line_post : Post (List LogRecord)
line_post socket url content_type body log =
    let r = serve_post line_codec (skip_host 11 url) (some (some body)) log in (ok r.0, r.1)

line-IsServed : IsServed line_codec line_post installer_settings.uds_socket_address
unfolding skip_host codes
line-IsServed = record { posted = λ path content_type body log. refl }

installed_log-delivered_example :
    (r : LogRecord) × (log_call line_post
        (λ m. codes "line")
        (installed_logger debug_env installer_settings debug_handler (codes "/k"))
        (append_fields (logger_attrs (codes "id") call_args (codes "add")) end)
        (codes "now")
        info
        (codes "added")
        []
      ≡ r ∷ [])
    × (r.level ≡ level_info)
    × (r.msg ≡ codes "added")
    × ((k : Text)
        → find_attr k r.attrs
          ≡ expected_attr k (append_fields (logger_attrs (codes "id") call_args (codes "add")) end))
unfolding level_leb severity_level
installed_log-delivered_example =
    installed_log-delivered debug_env quiet debug_handler installer_settings (codes "/k") line_codec
      line_post (λ m. codes "line") (codes "id") (codes "add") (codes "now") (codes "added")
      call_args info end [] installer_started line-IsServed refl
