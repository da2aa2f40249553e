-- ===== src/Udslog/Records.antt =====
-- processLog: the plugin's line of JSON, made a record of the server's own log. The decoding of JSON
-- and of times is a parameter, and so is the time of the call.
use gopher_cni.Go.Int.{atoi, negsuc, of_word, pos, ℤ}
use gopher_cni.Go.Json.{string, field, end, Fields, Json, get_field}
use gopher_cni.Go.Text.{Text, codes, is_empty, text_eq, text_eq_iff}
use gopher_cni.Logging.{level_debug, level_error, level_info, level_warn}
use gopher_cni.Prelude.{
  Bool, Bool-cases, List, Option, Option-cases, [], ap, if◌then◌else◌, inl, inr, leb, ltb, none,
  refl, some, suc, ℕ, ◌%◌, ◌&&◌, ◌++◌, ◌+◌, ◌-◌, ◌==◌, ◌^◌, ◌||◌, ◌∙◌, ◌∷◌, ◌≡◌, ◌⊎◌,
}

pub record LogCodec : Type 0 where
  pub decode : Text → Option Fields
  pub parse_time : Text → Option ℕ
  pub now : ℕ

-- slog.Record
pub record LogRecord : Type 0 where
  pub time : ℕ
  pub level : ℤ
  pub msg : Text
  pub attrs : List (Text × Json)

-- s, _ := v.(string)
unfoldable pub as_string : Option Json → Text
as_string (some (string s)) = s
as_string _ = []

-- strings.ToUpper, up to the letters that are not used in the names of levels
unfoldable pub upper_code : ℕ → ℕ
upper_code c =
    if leb b'a' c && leb c b'z'
    then c - 32
    else if c == 0x131
    then b'I'
    else if c == 0x17F
    then b'S'
    else c

unfoldable pub to_upper : Text → Text
unfolding upper_code
to_upper [] = []
to_upper (c ∷ s) = upper_code c ∷ to_upper s

-- the name before the first sign, and the rest from the sign on
unfoldable pub cut_sign : Text → Text × Text
cut_sign [] = ([], [])
cut_sign (c ∷ s) =
    let later = cut_sign s in if c == b'+' || c == b'-' then ([], c ∷ s) else (c ∷ later.0, later.1)

unfoldable pub named_level : Text → Option ℤ
named_level name =
    if text_eq name (codes "DEBUG")
    then some level_debug
    else if text_eq name (codes "INFO")
    then some level_info
    else if text_eq name (codes "WARN")
    then some level_warn
    else if text_eq name (codes "ERROR")
    then some level_error
    else none

-- the 64-bit sum
unfoldable pub add_offset : ℤ → ℤ → ℤ
add_offset (pos m) (pos n) = of_word ((m + n) % 2 ^ 64)
add_offset (pos m) (negsuc n) = if ltb n m then pos (m - suc n) else negsuc (n - m)
add_offset (negsuc m) (pos n) = if ltb m n then pos (n - suc m) else negsuc (m - n)
add_offset (negsuc m) (negsuc n) = of_word ((2 ^ 64 + 2 ^ 64 - suc m - suc n) % 2 ^ 64)

with_offset : Option ℤ → Option ℤ → Option ℤ
unfolding add_offset
with_offset (some l) (some n) = some (add_offset l n)
with_offset _ _ = none

-- (*slog.Level).UnmarshalText
unfoldable pub unmarshal_level : Text → Option ℤ
unfolding named_level to_upper cut_sign with_offset
unmarshal_level s =
    let parts = cut_sign s in
    with_offset (named_level (to_upper parts.0))
      (if is_empty parts.1 then some (pos 0) else atoi parts.1)

unfoldable pub or_else : {A : Type 0} → A → Option A → A
or_else a none = a
or_else a (some b) = b

abbrev pub is_standard : Text → Bool
is_standard k = text_eq k (codes "msg") || text_eq k (codes "level") || text_eq k (codes "time")

-- the loop over the map; the map's order is any
unfoldable pub remaining_attrs : Fields → List (Text × Json)
remaining_attrs end = []
remaining_attrs (field k v m) =
    let rest = remaining_attrs m in if is_standard k then rest else (k, v) ∷ rest

module _ (codec : LogCodec) where
  unfoldable pub record_of : Fields → LogRecord
  unfolding or_else
  record_of m = record {
    time = or_else codec.now (codec.parse_time (as_string (get_field (codes "time") m)));
    level = or_else level_info (unmarshal_level (as_string (get_field (codes "level") m)));
    msg = as_string (get_field (codes "msg") m);
    attrs = (codes "component", string (codes "cni-plugin")) ∷ remaining_attrs m;
  }

  unfoldable pub logged : List LogRecord → Option Fields → List LogRecord
  unfolding record_of
  logged log none = log
  logged log (some m) = log ++ record_of m ∷ []

  -- processLog, on the log that the handler has written
  unfoldable pub process_log : Text → List LogRecord → List LogRecord
  unfolding logged
  process_log body log = logged log (codec.decode body)

module _ (codec : LogCodec) where
  unfoldable pub read_then : Option Text → List LogRecord → List LogRecord
  read_then none log = log
  read_then (some body) log = process_log codec body log

  -- handleLog, with the body of the request, if it has one, and if it can be read
  unfoldable pub handle_log : Option (Option Text) → List LogRecord → List LogRecord
  unfolding read_then
  handle_log none log = log
  handle_log (some body) log = read_then body log

-- UDSLogPath
abbrev pub uds_log_path : Text
uds_log_path = codes "/log"

module _ (codec : LogCodec) where
  -- the server of NewUDSLogger: its status, and the log that it leaves
  unfoldable pub serve_post : Text → Option (Option Text) → List LogRecord → ℕ × List LogRecord
  serve_post path body log =
      if text_eq path uds_log_path then (200, handle_log codec body log) else (404, log)

-- the attribute of a key
unfoldable pub find_attr : Text → List (Text × Json) → Option Json
find_attr k [] = none
find_attr k ((j, v) ∷ rest) = let later = find_attr k rest in if text_eq j k then some v else later

-- A field is an attribute, but for those that the record has otherwise.
abbrev pub kept_field : Text → Fields → Option Json
kept_field k m = if is_standard k then none else get_field k m

pub remaining_attrs-kept :
    (k : Text) (m : Fields) → find_attr k (remaining_attrs m) ≡ kept_field k m
unfolding remaining_attrs find_attr get_field
remaining_attrs-kept k end = elim (Bool-cases (is_standard k)) [
  | inl e ↦ rw e refl
  | inr e ↦ rw e refl
]
remaining_attrs-kept k (field j v m) = elim (Bool-cases (text_eq j k)) [
  | inl e ↦
      let same = ap (λ (t : Text). is_standard t) ((text_eq_iff j k).0 e) in
      elim (Bool-cases (is_standard k)) [
        | inl s ↦ rw (same, s) (remaining_attrs-kept k m ∙ rw s refl)
        | inr s ↦ rw (same, s, e) refl
      ]
  | inr e ↦ elim (Bool-cases (is_standard j)) [
    | inl s ↦ rw (e, s) (remaining_attrs-kept k m)
    | inr s ↦ rw (e, s, e) (remaining_attrs-kept k m)
  ]
]

-- the attributes that a record of the object has
abbrev pub expected_attr : Text → Fields → Option Json
expected_attr k m =
    if text_eq (codes "component") k then some (string (codes "cni-plugin")) else kept_field k m

-- A line that is a JSON object adds one record to the log, behind those that are there, with the
-- object's message; besides the component, its attributes are the object's fields but the message,
-- the level and the time, with the object's values. A line that is none changes nothing.
pub process_log-kept :
    (codec : LogCodec) (body : Text) (log : List LogRecord)
    → ((codec.decode body ≡ none) × (process_log codec body log ≡ log))
      ⊎ ((m : Fields) × (r : LogRecord) × (codec.decode body ≡ some m)
          × (process_log codec body log ≡ log ++ r ∷ [])
          × (r.msg ≡ as_string (get_field (codes "msg") m))
          × ((k : Text) → find_attr k r.attrs ≡ expected_attr k m))
unfolding process_log logged record_of find_attr
process_log-kept codec body log = elim (Option-cases (codec.decode body)) [
  | inl e ↦ inl (e, rw e refl)
  | inr (m, e) ↦ inr (
    m,
    record_of codec m,
    e,
    rw e refl,
    refl,
    λ k.
        ap
          (λ (o : Option Json).
            if text_eq (codes "component") k then some (string (codes "cni-plugin")) else o)
          (remaining_attrs-kept k m),
  )
]
