-- ===== src/Cmd/SidecarMain.antt =====
-- cmd/sidecar/main.go: the choice of what an init container runs.
use gopher_cni.Cmd.Env.{env_text, env_text_unset}
use gopher_cni.Cni.{interface_name}
use gopher_cni.Go.Dict.{Dict, get_or_empty}
use gopher_cni.Go.Text.{Text, codes, text_eq}
use gopher_cni.Logging.{
  ConfigureError, Handler, configure, level_info, parse_format, parse_level, text_format,
}
use gopher_cni.Prelude.{List, Result, [], ap, err, if◌then◌else◌, ok, refl, sym, ◌↔◌, ◌∙◌, ◌∷◌, ◌≡◌}
use gopher_cni.Sidecar.{
  Exit, FileSystem, IsReady, NetlinkClient, failure, run_init_validation,
  run_init_validation-iff_IsReady, run_write_core_dns_config, success,
}
use gopher_cni.Webhook.Types.{
  WebhookConfig, create_core_dns_config_init_container, create_init_container,
}

configure_defaults :
    (h : Handler)
    → configure (codes "info") (codes "text") h
      ≡ (ok tt, record { level = level_info; format = text_format })
unfolding configure parse_level parse_format text_eq codes
configure_defaults h = refl

module _ {S : Type 0} (nl : NetlinkClient) (fs : FileSystem S) where
  -- the switch on the mode
  unfoldable pub run_mode : Dict → Text → S → Exit × S
  run_mode env mode s =
      if text_eq mode (codes "init-validation")
      then (run_init_validation nl, s)
      else if text_eq mode (codes "write-coredns-config")
      then run_write_core_dns_config fs env s
      else (failure, s)

  configured_then : Dict → Text → S → Result ConfigureError (Unit {0}) × Handler → Exit × S
  unfolding run_mode
  configured_then env mode s (err e, h) = (failure, s)
  configured_then env mode s (ok u, h) = run_mode env mode s

  -- main, with the program's name and arguments
  unfoldable pub main : Dict → List Text → Handler → S → Exit × S
  unfolding configured_then
  main env (name ∷ mode ∷ []) h s = configured_then env mode s (
      configure (env_text env (codes "LOG_LEVEL") (codes "info"))
        (env_text env (codes "LOG_FORMAT") (codes "text")) h)
  main env _ h s = (failure, s)

  main_mode :
      (env : Dict) (name mode : Text) (h : Handler) (s : S)
      → get_or_empty (codes "LOG_LEVEL") env ≡ []
      → get_or_empty (codes "LOG_FORMAT") env ≡ []
      → main env (name ∷ mode ∷ []) h s ≡ run_mode env mode s
  unfolding main configured_then
  main_mode env name mode h s no_level no_format =
      rw
        (
          env_text_unset env (codes "LOG_LEVEL") (codes "info") no_level,
          env_text_unset env (codes "LOG_FORMAT") (codes "text") no_format,
          configure_defaults h,
        )
        refl

  run_mode_validation :
      (env : Dict) (s : S) → run_mode env (codes "init-validation") s ≡ (run_init_validation nl, s)
  unfolding run_mode text_eq codes
  run_mode_validation env s = refl

  run_mode_corefile :
      (env : Dict) (s : S)
      → run_mode env (codes "write-coredns-config") s ≡ run_write_core_dns_config fs env s
  unfolding run_mode text_eq codes
  run_mode_corefile env s = refl

  -- The two init containers that the webhook injects, each run with its arguments in an environment
  -- that sets neither the log's level nor its format: the validator ends with success exactly when
  -- the interface is ready, and changes no file; the other one writes the Corefile as
  -- RunWriteCoreDNSConfig does.
  pub main-injected :
      (c : WebhookConfig) (corefile name : Text) (env : Dict) (h : Handler) (s : S)
      → get_or_empty (codes "LOG_LEVEL") env ≡ []
      → get_or_empty (codes "LOG_FORMAT") env ≡ []
      → ((main env (name ∷ (create_init_container c).args) h s ≡ (success, s))
          ↔ IsReady nl interface_name)
        × (main env (name ∷ (create_core_dns_config_init_container c corefile).args) h s
            ≡ run_write_core_dns_config fs env s)
  unfolding create_init_container create_core_dns_config_init_container
  main-injected c corefile name env h s no_level no_format =
      let ready = run_init_validation-iff_IsReady nl in
      let validator =
        main_mode env name (codes "init-validation") h s no_level no_format
        ∙ run_mode_validation env s in
      (
        (
          λ e. ready.0 (ap (λ (r : Exit × S). r.0) (sym validator ∙ e)),
          λ w. validator ∙ ap (λ (x : Exit). (x, s)) (ready.1 w),
        ),
        main_mode env name (codes "write-coredns-config") h s no_level no_format
            ∙ run_mode_corefile env s,
      )
