-- ===== src/Logging/Logger.antt =====
-- internal/logging: the Logger of logging.go and the Error of error.go, over slog, whose loggers have
-- attributes and whose handler has a level. The state is what the handler has written.
pub mod Printed
use gopher_cni.Go.Int.{ℤ}
use gopher_cni.Go.Text.{Text, codes}
use gopher_cni.Logging.{Handler, level_debug, level_error, level_info, level_leb, level_warn}
use gopher_cni.Prelude.{List, Option, [], if◌then◌else◌, none, some, ℕ, ◌++◌, ◌∷◌}
use gopher_cni.Sidecar.{Exit, failure}

-- An argument of a call: a string, another value that is known by a number, or a *slog.Logger, which
-- is its attributes.
mutual
  pub data Arg : Type 0 where
    text : Text → Arg
    value : ℕ → Arg
    slog_logger : Attrs → Arg

  pub data Attrs : Type 0 where
    no_attrs : Attrs
    attr : Text → Arg → Attrs → Attrs

unfoldable pub append_attrs : Attrs → Attrs → Attrs
append_attrs no_attrs bs = bs
append_attrs (attr k v as') bs = attr k v (append_attrs as' bs)

abbrev bad_key : Text
bad_key = codes "!BADKEY"

-- How slog reads its arguments: a string and the value behind it, or a value without a key.
unfoldable pub args_to_attrs : List Arg → Attrs
args_to_attrs [] = no_attrs
args_to_attrs (text k ∷ []) = attr bad_key (text k) no_attrs
args_to_attrs (text k ∷ v ∷ args) = attr k v (args_to_attrs args)
args_to_attrs (value n ∷ args) = attr bad_key (value n) (args_to_attrs args)
args_to_attrs (slog_logger l ∷ args) = attr bad_key (slog_logger l) (args_to_attrs args)

-- (*slog.Logger).With
unfoldable pub slog_with : Attrs → List Arg → Attrs
slog_with l args = append_attrs l (args_to_attrs args)

pub record Entry : Type 0 where
  pub level : ℤ
  pub msg : Text
  pub attrs : Attrs

abbrev pub Log : Type 0
Log = List Entry

-- (*slog.Logger).Log, under a handler
unfoldable pub slog_log : Handler → ℤ → Attrs → Text → List Arg → Log → Log
unfolding slog_with
slog_log h level l msg args log =
    if level_leb h.level level
    then log ++ (record { level = level; msg = msg; attrs = slog_with l args }) ∷ []
    else log

-- The Logger is its slog.Logger.
pub record Logger : Type 0 where
  pub log : Attrs

-- New, where the default logger has the attributes `base`
unfoldable pub new : Attrs → List Arg → Logger
new base args = record { log = slog_with base args }

module _ (h : Handler) where
  unfoldable pub debug : Logger → Text → List Arg → Log → Log
  debug l msg args = slog_log h level_debug l.log msg args

  unfoldable pub info : Logger → Text → List Arg → Log → Log
  info l msg args = slog_log h level_info l.log msg args

  unfoldable pub warn : Logger → Text → List Arg → Log → Log
  warn l msg args = slog_log h level_warn l.log msg args

  unfoldable pub error : Logger → Text → List Arg → Log → Log
  error l msg args = slog_log h level_error l.log msg args

-- (*Logger).With
unfoldable pub logger_with : Attrs → Logger → List Arg → Logger
logger_with base l args = new base (slog_logger (slog_with l.log args) ∷ [])

pub record Error : Type 0 where
  pub log : Attrs
  pub msg : Text
  pub args : List Arg

-- (*Logger).StructuredError
unfoldable pub structured_error : Logger → Text → List Arg → Error
structured_error l msg args = record { log = l.log; msg = msg; args = args }

-- (*Error).Print
unfoldable pub print : Handler → Error → Log → Log
print h e = slog_log h level_error e.log e.msg e.args

-- (*Error).Error, with fmt.Errorf
unfoldable pub error_text : (Text → List Arg → Text) → Error → Text
error_text errorf e = errorf e.msg e.args

-- Fatal: whether the process ends, and the log.
unfoldable pub fatal : Attrs → Handler → Option Arg → List Arg → Log → Option Exit × Log
fatal base h none args log = (none, log)
fatal base h (some e) args log = (
  some failure,
  slog_log h level_error base (codes "fatal error") (args ++ text (codes "error") ∷ e ∷ []) log,
)
