-- ===== src/Logging.antt =====
-- internal/logging/logging.go, and the level and the writer of plugin/cmd/logging.go. A logger is
-- known by its handler.
pub mod Logger
use gopher_cni.Actions.{Action, from, ◌>>=◌}
use gopher_cni.Go.Int.{negsuc, pos, ℤ}
use gopher_cni.Go.Text.{Text, codes, is_empty, text_eq, text_eq_iff}
use gopher_cni.Prelude.{
  Bool, Bool-cases, Option, Result, Result-cases, err, false, if◌then◌else◌, inl, inr, leb, none,
  ok, refl, some, subst, sym, true, ◌≡◌, ◌⊎◌, ap, ◌∙◌,
}

-- slog.Level, with its four names
abbrev pub level_debug : ℤ
level_debug = negsuc 3

abbrev pub level_info : ℤ
level_info = pos 0

abbrev pub level_warn : ℤ
level_warn = pos 4

abbrev pub level_error : ℤ
level_error = pos 8

unfoldable pub level_leb : ℤ → ℤ → Bool
level_leb (pos m) (pos n) = leb m n
level_leb (pos m) (negsuc n) = false
level_leb (negsuc m) (pos n) = true
level_leb (negsuc m) (negsuc n) = leb n m

pub data Format : Type 0 where
  json_format text_format : Format

-- the default handler of slog
pub record Handler : Type 0 where
  pub level : ℤ
  pub format : Format

pub data ConfigureError : Type 0 where
  unknown_level unknown_format : Text → ConfigureError

-- the switch on the level
unfoldable pub parse_level : Text → Result ConfigureError ℤ
parse_level level =
    if text_eq level (codes "debug")
    then ok level_debug
    else if text_eq level (codes "info")
    then ok level_info
    else if text_eq level (codes "warn")
    then ok level_warn
    else if text_eq level (codes "error")
    then ok level_error
    else err (unknown_level level)

unfoldable pub parse_format : Text → Result ConfigureError Format
parse_format format =
    if text_eq format (codes "json")
    then ok json_format
    else if text_eq format (codes "text")
    then ok text_format
    else err (unknown_format format)

-- slog.SetDefault
abbrev set_default : Handler → Action ConfigureError Handler (Unit {0})
set_default h old = (ok tt, h)

-- Configure
unfoldable pub configure : Text → Text → Action ConfigureError Handler (Unit {0})
configure level format = do
  l ← from (parse_level level)
  f ← from (parse_format format)
  set_default (record { level = l; format = f })

-- (*Logger).Level
unfoldable pub level_name : Handler → Text
level_name h =
    if level_leb h.level level_debug
    then codes "debug"
    else if level_leb h.level level_info
    then codes "info"
    else if level_leb h.level level_warn
    then codes "warn"
    else codes "error"

-- newLogger: where the plugin's log goes, and its level
pub record PluginLogger : Type 0 where
  pub address : Option Text
  pub level : ℤ

unfoldable pub plugin_level : Text → ℤ
plugin_level level =
    if text_eq level (codes "debug")
    then level_debug
    else if text_eq level (codes "warn")
    then level_warn
    else if text_eq level (codes "error")
    then level_error
    else level_info

unfoldable pub new_logger : Text → Text → PluginLogger
unfolding plugin_level
new_logger log_level uds_address =
    if is_empty uds_address
    then record { address = none; level = level_info }
    else record { address = some uds_address; level = plugin_level log_level }

-- A name of a level, taken back and forth.
abbrev IsNameOf : Text → ℤ → Type 0
IsNameOf level l =
    ((f : Format) → level_name (record { level = l; format = f }) ≡ level)
    × (plugin_level level ≡ l)

IsNameOf-debug : IsNameOf (codes "debug") level_debug
unfolding level_name plugin_level level_leb text_eq codes
IsNameOf-debug = (λ f. refl, refl)

IsNameOf-info : IsNameOf (codes "info") level_info
unfolding level_name plugin_level level_leb text_eq codes
IsNameOf-info = (λ f. refl, refl)

IsNameOf-warn : IsNameOf (codes "warn") level_warn
unfolding level_name plugin_level level_leb text_eq codes
IsNameOf-warn = (λ f. refl, refl)

IsNameOf-error : IsNameOf (codes "error") level_error
unfolding level_name plugin_level level_leb text_eq codes
IsNameOf-error = (λ f. refl, refl)

moved :
    (name level : Text) (k l : ℤ)
    → text_eq level name ≡ true
    → ◌≡◌ {A = Result ConfigureError ℤ} (ok k) (ok l)
    → IsNameOf name k
    → IsNameOf level l
moved name level k l e h named =
    subst (λ (t : Text). IsNameOf t l) (sym ((text_eq_iff level name).0 e))
      (subst (λ (z : ℤ). IsNameOf name z) (cc) named)

parse_level-IsNameOf : (level : Text) (l : ℤ) → parse_level level ≡ ok l → IsNameOf level l
unfolding parse_level
parse_level-IsNameOf level l h = elim (Bool-cases (text_eq level (codes "debug"))) [
  | inl e ↦ moved (codes "debug") level level_debug l e (rw e at h) IsNameOf-debug
  | inr n1 ↦ elim (Bool-cases (text_eq level (codes "info"))) [
    | inl e ↦ moved (codes "info") level level_info l e (rw (n1, e) at h) IsNameOf-info
    | inr n2 ↦ elim (Bool-cases (text_eq level (codes "warn"))) [
      | inl e ↦ moved (codes "warn") level level_warn l e (rw (n1, n2, e) at h) IsNameOf-warn
      | inr n3 ↦ elim (Bool-cases (text_eq level (codes "error"))) [
        | inl e ↦
            moved (codes "error") level level_error l e (rw (n1, n2, n3, e) at h) IsNameOf-error
        | inr n4 ↦
            let k : ◌≡◌ {A = Result ConfigureError ℤ} (err (unknown_level level)) (ok l) =
              rw (n1, n2, n3, n4) at h in
            cc
      ]
    ]
  ]
]

-- Where Configure returns, the default handler has the level that its argument names, and both
-- Level and a plugin that logs to an address take the name for that level; where it fails, the
-- handler is the one before.
pub configure-level :
    (level format address : Text) (h : Handler)
    → is_empty address ≡ false
    → ((h' : Handler) × (configure level format h ≡ (ok tt, h'))
        × (level_name h' ≡ level)
        × (new_logger (level_name h') address
            ≡ record { address = some address; level = h'.level }))
      ⊎ ((e : ConfigureError) × (configure level format h ≡ (err e, h)))
unfolding configure new_logger
configure-level level format address h named = elim (Result-cases (parse_level level)) [
  | inr (x, p) ↦ inr (x, rw p refl)
  | inl (l, p) ↦ elim (Result-cases (parse_format format)) [
    | inr (x, q) ↦ inr (x, rw (p, q) refl)
    | inl (f, q) ↦
        let known = parse_level-IsNameOf level l p in
        inl (
          record { level = l; format = f },
          rw (p, q) refl,
          known.0 f,
          rw (known.0 f, named, known.1) refl,
        )
  ]
]

-- The handler that Configure set has the level that Level gives its name back for, and so has a
-- plugin that logs to an address.
pub configure-eq-ok :
    (level format address : Text) (h h' : Handler)
    → is_empty address ≡ false
    → configure level format h ≡ (ok tt, h')
    → (level_name h' ≡ level)
      × (new_logger (level_name h') address ≡ record { address = some address; level = h'.level })
configure-eq-ok level format address h h' named configured =
    elim (configure-level level format address h named) [
      | inl (k, e, name, logger) ↦
          let same : k ≡ h' =
            ap (λ (x : Result ConfigureError (Unit {0}) × Handler). x.1) (sym e ∙ configured) in
          subst
            (λ (q : Handler).
              (level_name q ≡ level)
              × (new_logger (level_name q) address
                  ≡ record { address = some address; level = q.level }))
            same (name, logger)
      | inr (x, e) ↦ cc (e, configured)
    ]
