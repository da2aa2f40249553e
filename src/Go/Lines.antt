-- ===== src/Go/Lines.antt =====
-- bufio.Scanner with its defaults: lines, and the limit on the size of a token.
pub mod File
use gopher_cni.Prelude.{ℕ, ◌+◌, Bool, true, false, List, [], ◌∷◌, ltb, leb, if◌then◌else◌}
use gopher_cni.Go.Text.{Text, split, is_empty, ends_with_code, drop_last}

-- The bytes of a code point in UTF-8.
unfoldable pub utf8_size : ℕ → ℕ
utf8_size c = if ltb c 0x80 then 1 else if ltb c 0x800 then 2 else if ltb c 0x10000 then 3 else 4

unfoldable pub byte_length : Text → ℕ
unfolding utf8_size
byte_length [] = 0
byte_length (c ∷ s) = utf8_size c + byte_length s

-- bufio.MaxScanTokenSize: the scanner gives up on a line that fills its buffer.
abbrev pub max_token_size : ℕ
max_token_size = 0x10000

-- the carriage return that bufio.ScanLines drops
unfoldable pub drop_cr : Text → Text
unfolding ends_with_code drop_last
drop_cr s = if ends_with_code b'\r' s then drop_last s else s

-- What the scanner hands out, line by line, and whether it then stopped at too long a line.
pub record Scan : Type 0 where
  pub lines : List Text
  pub too_long : Bool

abbrev add_line : Text → Scan → Scan
add_line s r = record r { lines = s ∷ r.lines }

-- the raw pieces between the newlines; an empty last piece is no line
unfoldable pub scan_pieces : List Text → Scan
unfolding byte_length drop_cr is_empty
scan_pieces [] = record { lines = []; too_long = false }
scan_pieces (p ∷ []) =
    if leb max_token_size (byte_length p)
    then record { lines = []; too_long = true }
    else if is_empty p
    then record { lines = []; too_long = false }
    else record { lines = drop_cr p ∷ []; too_long = false }
scan_pieces (p ∷ q ∷ ps) =
    let rest = scan_pieces (q ∷ ps) in
    if leb max_token_size (byte_length p)
    then record { lines = []; too_long = true }
    else add_line (drop_cr p) rest

unfoldable pub scan : Text → Scan
unfolding split scan_pieces
scan s = scan_pieces (split b'\n' s)
