-- ===== src/Go/Base64.antt =====
-- encoding/base64's StdEncoding, and the escaping of html/template in the text of a document.
use gopher_cni.Go.Text.{codes, Text}
use gopher_cni.Prelude.{[], if◌then◌else◌, ltb, ℕ, ◌%◌, ◌*◌, ◌++◌, ◌+◌, ◌-◌, ◌/◌, ◌==◌, ◌∷◌}

unfoldable pub sextet : ℕ → ℕ
sextet n =
    if ltb n 26
    then n + b'A'
    else if ltb n 52
    then (n - 26) + b'a'
    else if ltb n 62
    then (n - 52) + b'0'
    else if n == 62
    then b'+'
    else b'/'

abbrev pad : ℕ
pad = b'='

-- StdEncoding.EncodeToString, on bytes
unfoldable pub encode_base64 : Text → Text
encode_base64 [] = []
encode_base64 (a ∷ []) = sextet (a / 4) ∷ sextet (a % 4 * 16) ∷ pad ∷ pad ∷ []
encode_base64 (a ∷ b ∷ []) =
    sextet (a / 4) ∷ sextet (a % 4 * 16 + b / 16) ∷ sextet (b % 16 * 4) ∷ pad ∷ []
encode_base64 (a ∷ b ∷ c ∷ s) =
    sextet (a / 4)
    ∷ sextet (a % 4 * 16 + b / 16)
    ∷ sextet (b % 16 * 4 + c / 64)
    ∷ sextet (c % 64)
    ∷ encode_base64 s

-- the replacement of one code point
unfoldable pub escape_code : ℕ → Text
escape_code c =
    if c == 0
    then 0xFFFD ∷ []
    else if c == b'"'
    then codes "&#34;"
    else if c == b'&'
    then codes "&amp;"
    else if c == b'\''
    then codes "&#39;"
    else if c == b'+'
    then codes "&#43;"
    else if c == b'<'
    then codes "&lt;"
    else if c == b'>'
    then codes "&gt;"
    else c ∷ []

-- what html/template puts in the place of {{.Field}}
unfoldable pub escape : Text → Text
unfolding escape_code
escape [] = []
escape (c ∷ s) = escape_code c ++ escape s
