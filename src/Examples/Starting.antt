-- ===== src/Examples/Starting.antt =====
-- The executables and the log server on small environments.
use gopher_cni.Cmd.Shutdown.{
  Main, MainReach, MainReach-success, group_done, initiate, main_next, main_start, server_done,
  shut_down, signal, started,
}
use gopher_cni.Cmd.SidecarMain.{main, main-injected}
use gopher_cni.Cni.{interface_name}
use gopher_cni.Examples.Fixtures.{webhook_config}
use gopher_cni.Examples.Installing.{calm, calm-IsReliable}
use gopher_cni.Go.Dict.{Dict, get_or_empty}
use gopher_cni.Go.Int.{of_word, atoi, pos}
use gopher_cni.Go.Ip.{ip4}
use gopher_cni.Go.Json.{field, string, end, Fields, get_field}
use gopher_cni.Go.Text.{Text, codes, is_empty, text_eq}
use gopher_cni.Installer.Os.{Files, put}
use gopher_cni.Logging.{Handler, level_debug, level_info, text_format}
use gopher_cni.Prelude.{
  [], false, if◌then◌else◌, none, ok, refl, some, true, ◌++◌, ◌↔◌, ◌∷◌, ◌≡◌, ◌⊎◌,
}
use gopher_cni.Sidecar.{
  FileSystem, IsReady, Link, NetlinkClient, run_write_core_dns_config, success,
}
use gopher_cni.Udslog.Records.{
  LogCodec, LogRecord, as_string, expected_attr, find_attr, process_log, process_log-kept,
  unmarshal_level,
}
use gopher_cni.Udslog.Socket.{new_listener, new_listener-replaced}
use gopher_cni.Webhook.Types.{create_core_dns_config_init_container, create_init_container}

abbrev pub webhook_env : Dict
webhook_env =
    (codes "WEBHOOK_SIDECAR_IMAGE", codes "gopher:1")
    ∷ (codes "WEBHOOK_COREDNS_IMAGE", codes "coredns:1")
    ∷ (codes "WEBHOOK_PORT", codes "9443")
    ∷ []

abbrev pub quiet : Handler
quiet = record { level = level_info; format = text_format }

abbrev pub debug_env : Dict
debug_env = (codes "LOG_LEVEL", codes "debug") ∷ []

abbrev up_link : Link
up_link = record { index = 3; is_up = true }

abbrev small_netlink : NetlinkClient
small_netlink = record {
  link_by_name = λ name. ok (some up_link);
  addr_list = λ link. ok (ip4 168296449 ∷ []);
}

abbrev unit_files : FileSystem (Unit {0})
unit_files = record { mkdir_all = λ s path. some s; write_file = λ s path text. some s }

no_level : get_or_empty (codes "LOG_LEVEL") [] ≡ []
unfolding get_or_empty
no_level = refl

no_format : get_or_empty (codes "LOG_FORMAT") [] ≡ []
unfolding get_or_empty
no_format = refl

main-injected_example :
    ((main small_netlink unit_files []
          (codes "sidecar" ∷ (create_init_container webhook_config).args)
          quiet
          tt
        ≡ (success, tt))
      ↔ IsReady small_netlink interface_name)
    × (main small_netlink unit_files []
          (codes "sidecar"
            ∷ (create_core_dns_config_init_container webhook_config (codes "c")).args)
          quiet
          tt
        ≡ run_write_core_dns_config unit_files [] tt)
main-injected_example =
    main-injected small_netlink unit_files webhook_config (codes "c") (codes "sidecar") [] quiet tt
      no_level no_format

-- One server, which ends after a signal.
abbrev ended : Main
ended = record {
  running = 0;
  failed = false;
  signalled = true;
  cancelled = true;
  initiated = true;
  complete = true;
  exited = some success;
}

ended-MainReach : MainReach (started 1) ended
ended-MainReach =
    main_next
      (main_next
        (main_next (main_next (main_next main_start (signal refl)) (initiate refl refl))
          (server_done 0 refl refl refl))
        (group_done refl refl refl refl))
      (shut_down refl refl refl)

MainReach-success_example : (ended.signalled ≡ true) × (ended.running ≡ 0) × (ended.failed ≡ false)
MainReach-success_example = MainReach-success 1 ended ended-MainReach refl

abbrev stale_socket : Files
stale_socket = put (codes "/log.sock") (record { content = []; mode = 493 }) (λ path. none)

new_listener-replaced_example :
    (files' : Files) × (new_listener calm (codes "/log.sock") stale_socket ≡ (ok tt, files'))
    × ((q : Text)
        → files' q ≡ (
            if text_eq (codes "/log.sock") q
            then some (record { content = codes ""; mode = 438 })
            else stale_socket q))
new_listener-replaced_example =
    new_listener-replaced calm calm-IsReliable (codes "/log.sock") stale_socket

abbrev small_log_codec : LogCodec
small_log_codec = record {
  decode = λ body.
      some (
        field (codes "msg") (string (codes "hello"))
          (field (codes "pod") (string (codes "p")) end));
  parse_time = λ t. none;
  now = 7;
}

process_log-kept_example :
    ((small_log_codec.decode (codes "{}") ≡ none)
      × (process_log small_log_codec (codes "{}") [] ≡ []))
    ⊎ ((m : Fields) × (r : LogRecord) × (small_log_codec.decode (codes "{}") ≡ some m)
        × (process_log small_log_codec (codes "{}") [] ≡ [] ++ r ∷ [])
        × (r.msg ≡ as_string (get_field (codes "msg") m))
        × ((k : Text) → find_attr k r.attrs ≡ expected_attr k m))
process_log-kept_example = process_log-kept small_log_codec (codes "{}") []

-- A level with an offset.
unmarshal_level_plus : unmarshal_level (codes "warn+2") ≡ some (pos 6)
unfolding unmarshal_level text_eq codes is_empty atoi of_word
unmarshal_level_plus = refl

unmarshal_level_minus : unmarshal_level (codes "INFO-4") ≡ some level_debug
unfolding unmarshal_level text_eq codes is_empty atoi
unmarshal_level_minus = refl
