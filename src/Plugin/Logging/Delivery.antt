-- ===== src/Plugin/Logging/Delivery.antt =====
-- From a call of the plugin's logger to the record in the log of internal/udslog.
use gopher_cni.Logging.{level_leb, level_info}
use gopher_cni.Go.Int.{of_word, ℤ}
use gopher_cni.Go.Json.{Fields, string, get_field, Json}
use gopher_cni.Go.Text.{Text, codes, text_eq, text_eq_iff, is_empty}
use gopher_cni.Plugin.Logging.{
  Post, write, new_uds_log_writer, unix_host, Severity, debug, info, warn, error, severity_level,
  severity_name, json_line, log_call,
}
use gopher_cni.Prelude.{
  List, Option, ok, some, length, ◌++◌, if◌then◌else◌, ◌≡◌, refl, or-false, Bool-cases, inl, inr,
  sym, ap, ◌∙◌, ◌∷◌, false, [],
}
use gopher_cni.Udslog.Records.{
  LogCodec, LogRecord, serve_post, unmarshal_level, kept_field, process_log, handle_log, record_of,
  as_string, is_standard, find_attr, expected_attr, logged, or_else, read_then,
  remaining_attrs-kept, uds_log_path,
}

-- What a post to the server of the socket does.
pub record IsServed (codec : LogCodec) (post : Post (List LogRecord)) (socket : Text) : Type 0 where
  pub posted :
      (path content_type body : Text) (log : List LogRecord)
      → post socket (unix_host ++ path) content_type body log ≡ (
        ok (serve_post codec path (some (some body)) log).0,
        (serve_post codec path (some (some body)) log).1,
      )

-- A level is read back from its name.
unmarshal_level-severity_name :
    (v : Severity) → unmarshal_level (severity_name v) ≡ some (severity_level v)
unfolding unmarshal_level severity_name severity_level text_eq codes is_empty of_word
unmarshal_level-severity_name debug = refl
unmarshal_level-severity_name info = refl
unmarshal_level-severity_name warn = refl
unmarshal_level-severity_name error = refl

text_eq-swapped : (s t : Text) → text_eq s t ≡ false → text_eq t s ≡ false
text_eq-swapped s t apart = elim (Bool-cases (text_eq t s)) [
  | inl e ↦ cc (apart, (text_eq_iff s t).1 (sym ((text_eq_iff t s).0 e)))
  | inr e ↦ e
]

kept_field-json_line :
    (k time : Text) (v : Severity) (msg : Text) (attrs : Fields)
    → kept_field k (json_line time v msg attrs) ≡ kept_field k attrs
unfolding json_line get_field
kept_field-json_line k time v msg attrs = elim (Bool-cases (is_standard k)) [
  | inl standard ↦ rw standard refl
  | inr other ↦
      let (rest, not_time) = or-false _ _ other in
      let (not_msg, not_level) = or-false _ _ rest in
      rw
        (
          other,
          text_eq-swapped k (codes "time") not_time,
          text_eq-swapped k (codes "level") not_level,
          text_eq-swapped k (codes "msg") not_msg,
        )
        refl
]

write-served :
    (codec : LogCodec) (post : Post (List LogRecord)) (socket : Text)
    → IsServed codec post socket
    → (p : Text) (log : List LogRecord)
    → write post (new_uds_log_writer socket) p log ≡ (ok (length p), process_log codec p log)
unfolding write new_uds_log_writer serve_post handle_log read_then text_eq codes
write-served codec post socket served p log =
    let answer = served.posted uds_log_path (codes "application/json") p log in rw (answer) refl

-- The record that the server makes of a line.
record_of-json_line :
    (codec : LogCodec) (time : Text) (v : Severity) (msg : Text) (attrs : Fields)
    → ((record_of codec (json_line time v msg attrs)).level ≡ severity_level v)
      × ((record_of codec (json_line time v msg attrs)).msg ≡ msg)
unfolding record_of json_line as_string get_field or_else text_eq codes
record_of-json_line codec time v msg attrs =
    (ap (or_else level_info) (unmarshal_level-severity_name v), refl)

-- Where posts through a socket reach the log server, and it decodes the line of the call as the
-- object that the plugin's handler encodes: a call of a logger for the socket, at the logger's level
-- or above, adds one record to the server's log, with the level and the message of the call, the
-- component, and as its other attributes those of the logger that are not the message, the level
-- or the time. A call below the level adds none.
pub log_call-delivered :
    (codec : LogCodec) (post : Post (List LogRecord)) (encode : Fields → Text) (socket : Text)
    (level : ℤ) (attrs : Fields) (time : Text) (v : Severity) (msg : Text) (log : List LogRecord)
    → IsServed codec post socket
    → codec.decode (encode (json_line time v msg attrs)) ≡ some (json_line time v msg attrs)
    → (r : LogRecord) × (log_call post encode
          (record { address = some socket; level = level })
          attrs
          time
          v
          msg
          log
        ≡ (if level_leb level (severity_level v) then log ++ r ∷ [] else log))
      × (r.level ≡ severity_level v)
      × (r.msg ≡ msg)
      × ((k : Text) → find_attr k r.attrs ≡ expected_attr k attrs)
unfolding log_call process_log logged record_of find_attr
log_call-delivered codec post encode socket level attrs time v msg log served decoded =
    let line = json_line time v msg attrs in
    let written = write-served codec post socket served (encode line) log in
    let (same_level, same_msg) = record_of-json_line codec time v msg attrs in
    (
      record_of codec line,
      rw (written, decoded) refl,
      same_level,
      same_msg,
      λ k.
          ap
            (λ (o : Option Json).
              if text_eq (codes "component") k then some (string (codes "cni-plugin")) else o)
            (remaining_attrs-kept k line ∙ kept_field-json_line k time v msg attrs),
    )
