-- ===== src/Plugin/Errors.antt =====
-- plugin/cmd/errors.go: how a command reports an error.
use gopher_cni.Go.Text.{Text, codes}
use gopher_cni.Logging.{Handler, level_error}
use gopher_cni.Logging.Logger.{Arg, Attrs, Log, slog_log, text, value}
use gopher_cni.Prelude.{List, Option, [], none, some, ◌++◌, ◌∷◌}

-- An error is known to the log by its text; a nil error is another value of it.
abbrev error_arg : Option Text → Arg
error_arg none = value 0
error_arg (some err) = text err

-- fmt.Errorf(msg+": %w", err) of a message without verbs
unfoldable pub wrapped_text : Text → Option Text → Text
wrapped_text msg none = msg ++ codes ": %!w(<nil>)"
wrapped_text msg (some err) = msg ++ codes ": " ++ err

-- e: the text of the error that it returns, and the log
unfoldable pub e : Handler → Attrs → Text → Option Text → List Arg → Log → Text × Log
unfolding wrapped_text
e h log msg err args entries =
    let args' = args ++ text (codes "error") ∷ error_arg err ∷ [] in
    (wrapped_text msg err, slog_log h level_error log msg args' entries)
