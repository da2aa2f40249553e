-- ===== src/Go/Lines/File.antt =====
-- bufio.Scanner on a file of lines, each ended by a newline.
use gopher_cni.Go.Lines.{byte_length, drop_cr, max_token_size, scan, scan_pieces, Scan}
use gopher_cni.Go.Text.{Text, contains_code, ends_with_code, is_empty, split}
use gopher_cni.Prelude.{
  ==_iff, All, Bool-cases, List, [], false, inl, inr, leb, or-false, refl, ℕ, ◌++◌, ◌==◌, ◌∷◌, ◌≡◌,
  ap, sym, ◌∙◌,
}

unfoldable pub file_of : List Text → Text
file_of [] = []
file_of (line ∷ lines) = line ++ b'\n' ∷ file_of lines

split-cons : (sep : ℕ) (s : Text) → (q : Text) × (ps : List Text) × (split sep s ≡ q ∷ ps)
unfolding split
split-cons sep [] = ([], [], refl)
split-cons sep (c ∷ s) = elim (Bool-cases (c == sep)) [
  | inl e ↦ ([], split sep s, rw e refl)
  | inr e ↦ let (q, ps, h) = split-cons sep s in (c ∷ q, ps, rw (e, h) refl)
]

-- What stands before the first separator is the first field.
split-append :
    (sep : ℕ) (s t : Text)
    → contains_code sep s ≡ false
    → split sep (s ++ sep ∷ t) ≡ s ∷ split sep t
unfolding split contains_code
split-append sep [] t h = rw ((==_iff sep sep).1 refl) refl
split-append sep (c ∷ s) t h =
    let p = or-false (c == sep) (contains_code sep s) h in rw (p.0, split-append sep s t p.1) refl

-- A text without newlines and without a carriage return at its end.
abbrev pub IsClean : Text → Type 0
IsClean s = (contains_code b'\n' s ≡ false) × (ends_with_code b'\r' s ≡ false)

-- A line that the scanner's buffer holds.
abbrev pub IsShort : Text → Type 0
IsShort s = leb max_token_size (byte_length s) ≡ false

drop_cr-clean : (s : Text) → IsClean s → drop_cr s ≡ s
unfolding drop_cr
drop_cr-clean s clean = rw clean.1 refl

-- The scanner hands out the lines that the file was made of.
pub scan-file_of :
    (lines : List Text)
    → All IsClean lines
    → All IsShort lines
    → scan (file_of lines) ≡ record { lines = lines; too_long = false }
unfolding scan file_of split scan_pieces byte_length is_empty
scan-file_of [] clean short = refl
scan-file_of (line ∷ lines) clean short =
    let rest = scan-file_of lines clean.1 short.1 in
    let (q, ps, pieces) = split-cons b'\n' (file_of lines) in
    rw
      (
        split-append b'\n' line (file_of lines) clean.0.0,
        pieces,
        short.0,
        drop_cr-clean line clean.0,
      )
      (ap (λ (r : Scan). record r { lines = line ∷ r.lines }) (sym (ap scan_pieces pieces) ∙ rest))
