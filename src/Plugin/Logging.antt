-- ===== src/Plugin/Logging.antt =====
-- plugin/cmd/logging.go: the logger of the plugin, whose records are posted to the log server of
-- internal/udslog. HTTP and the encoding of JSON are parameters.
pub mod Delivery
use gopher_cni.Actions.{Action, from, wrapping, ◌>>=◌}
use gopher_cni.Go.Int.{ℤ}
use gopher_cni.Go.Json.{Fields, end, field, string}
use gopher_cni.Go.Text.{Text, codes}
use gopher_cni.Logging.{PluginLogger, level_debug, level_error, level_info, level_leb, level_warn}
use gopher_cni.Prelude.{
  Result, ok, err, none, some, length, not, ℕ, ◌&&◌, ◌++◌, ◌==◌, if◌then◌else◌,
}
use gopher_cni.Udslog.Records.{uds_log_path}

-- The four methods of slog.Logger that the plugin calls.
pub data Severity : Type 0 where
  debug info warn error : Severity

unfoldable pub severity_level : Severity → ℤ
severity_level debug = level_debug
severity_level info = level_info
severity_level warn = level_warn
severity_level error = level_error

-- slog.Level.String
unfoldable pub severity_name : Severity → Text
severity_name debug = codes "DEBUG"
severity_name info = codes "INFO"
severity_name warn = codes "WARN"
severity_name error = codes "ERROR"

-- The fields of skel.CmdArgs that newLogger takes.
pub record CallArgs : Type 0 where
  pub container_id : Text
  pub netns : Text
  pub if_name : Text
  pub args : Text
  pub path : Text

-- base.With, under a new UUID
unfoldable pub logger_attrs : Text → CallArgs → Text → Fields
logger_attrs event_id args func_name = field (codes "eventID") (string event_id) (
    field (codes "containerID") (string args.container_id) (
      field (codes "netNSName") (string args.netns) (
        field (codes "interface") (string args.if_name) (
          field (codes "args") (string args.args) (
            field (codes "path") (string args.path)
              (field (codes "cmd") (string func_name) end))))))

unfoldable pub append_fields : Fields → Fields → Fields
append_fields end n = n
append_fields (field k v m) n = field k v (append_fields m n)

-- What slog's JSON handler writes for a record.
unfoldable pub json_line : Text → Severity → Text → Fields → Fields
unfolding severity_name
json_line time severity msg attrs = field (codes "time") (string time) (
    field (codes "level") (string (severity_name severity))
      (field (codes "msg") (string msg) attrs))

-- UDSLogWriter: the socket that its client dials, and its endpoint.
abbrev pub unix_host : Text
unix_host = codes "http://unix"

pub record UdsLogWriter : Type 0 where
  pub socket_path : Text
  pub endpoint : Text

-- NewUDSLogWriter
unfoldable pub new_uds_log_writer : Text → UdsLogWriter
new_uds_log_writer socket_path = record {
  socket_path = socket_path;
  endpoint = unix_host ++ uds_log_path;
}

pub data WriteError : Type 0 where
  send_failed : Text → WriteError
  bad_status : ℕ → WriteError

-- client.Post through a socket: a URL, a content type and a body, and the status of the response.
abbrev pub Post : Type 0 → Type 0
Post S = Text → Text → Text → Text → Action Text S ℕ

check_status : ℕ → ℕ → Result WriteError ℕ
check_status status len =
    if not (status == 200) && not (status == 201) then err (bad_status status) else ok len

module _ {S : Type 0} (post : Post S) where
  -- (*UDSLogWriter).Write
  unfoldable pub write : UdsLogWriter → Text → Action WriteError S ℕ
  unfolding check_status
  write w p = do
    status ← wrapping send_failed (post w.socket_path w.endpoint (codes "application/json") p)
    from (check_status status (length p))

  -- A call of the logger: the handler drops what is below its level, and the error of a write. The
  -- handler without an address writes nowhere.
  unfoldable pub log_call : (Fields → Text) → PluginLogger → Fields → Text → Severity → Text → S → S
  log_call encode logger attrs time severity msg s = elim logger.address [
    | none ↦ s
    | some address ↦
        if level_leb logger.level (severity_level severity)
        then (write (new_uds_log_writer address) (encode (json_line time severity msg attrs)) s).1
        else s
  ]
