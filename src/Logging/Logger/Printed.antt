-- ===== src/Logging/Logger/Printed.antt =====
-- What the Logger of internal/logging writes of pairs of keys and values.
use gopher_cni.Go.Int.{ℤ}
use gopher_cni.Go.Text.{Text, codes}
use gopher_cni.Logging.{
  ConfigureError, Handler, configure, level_error, level_leb, parse_format, parse_level,
}
use gopher_cni.Prelude.{
  List, Result, Result-cases, [], ap, arith, err, inl, inr, ok, refl, true, ◌++◌, ◌∷◌, ◌≡◌, ◌∙◌,
  sym,
}
use gopher_cni.Logging.Logger.{
  Arg, Attrs, Log, append_attrs, args_to_attrs, attr, no_attrs, new, print, slog_log, slog_logger,
  slog_with, structured_error, text, logger_with,
}

-- Pairs of keys and values, as the code writes them.
unfoldable pub pairs_of : Attrs → List Arg
pairs_of no_attrs = []
pairs_of (attr k v as') = text k ∷ v ∷ pairs_of as'

args_to_attrs-pairs_of : (as' : Attrs) → args_to_attrs (pairs_of as') ≡ as'
unfolding args_to_attrs pairs_of
args_to_attrs-pairs_of no_attrs = refl
args_to_attrs-pairs_of (attr k v as') = ap (attr k v) (args_to_attrs-pairs_of as')

parse_level-level_leb :
    (level : Text) (l : ℤ) → parse_level level ≡ ok l → level_leb l level_error ≡ true
unfolding parse_level level_leb
parse_level-level_leb level l h = ground (arith, h)

configure-level_leb :
    (level format : Text) (h h' : Handler)
    → configure level format h ≡ (ok tt, h')
    → level_leb h'.level level_error ≡ true
unfolding configure
configure-level_leb level format h h' done = elim (Result-cases (parse_level level)) [
  | inr (e, failed) ↦
      let bad : ◌≡◌ {A = Result ConfigureError (Unit {0}) × Handler} (err e, h) (ok tt, h') =
        rw (failed) at done in
      cc (bad)
  | inl (l, named) ↦ elim (Result-cases (parse_format format)) [
    | inr (e, failed) ↦
        let bad : ◌≡◌ {A = Result ConfigureError (Unit {0}) × Handler} (err e, h) (ok tt, h') =
          rw (named, failed) at done in
        cc (bad)
    | inl (f, known) ↦
        let same =
          ap (λ (x : Result ConfigureError (Unit {0}) × Handler). x.1.level)
            (rw (named, known) at done) in
        ap (λ (z : ℤ). level_leb z level_error) (sym same) ∙ parse_level-level_leb level l named
  ]
]

-- Whatever level Configure took, an error that a logger made with pairs of keys and values reports
-- with more of them adds one entry to the log when it is printed: at the level of errors, with its
-- message, the attributes of the default logger, those of the logger, and its own.
pub print-logged :
    (level format msg : Text) (h h' : Handler) (base ps qs : Attrs) (log : Log)
    → configure level format h ≡ (ok tt, h')
    → print h' (structured_error (new base (pairs_of ps)) msg (pairs_of qs)) log
      ≡ log
        ++ (record {
          level = level_error;
          msg = msg;
          attrs = append_attrs (append_attrs base ps) qs;
        })
          ∷ []
unfolding print structured_error new slog_log slog_with
print-logged level format msg h h' base ps qs log done =
    rw
      (
        configure-level_leb level format h h' done,
        args_to_attrs-pairs_of ps,
        args_to_attrs-pairs_of qs,
      )
      refl

-- With, given pairs of keys and values, makes a logger that has none of them: its attributes are
-- those of the default logger, and one under the key "!BADKEY".
pub logger_with-bad_key :
    (base l as' : Attrs)
    → logger_with base (record { log = l }) (pairs_of as') ≡ record {
      log = append_attrs base (attr (codes "!BADKEY") (slog_logger (append_attrs l as')) no_attrs);
    }
unfolding logger_with new slog_with args_to_attrs
logger_with-bad_key base l as' = rw (args_to_attrs-pairs_of as') refl
