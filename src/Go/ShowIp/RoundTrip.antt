-- ===== src/Go/ShowIp/RoundTrip.antt =====
-- An IPv4 address printed by IP.String and read by net.ParseCIDR.
use gopher_cni.Go.Int.{decimal_from, is_digit}
use gopher_cni.Go.Ip.{bit_len, ip4, masked, masked_net, prefix, v4}
use gopher_cni.Go.ParseIp.{
  cidr, cidr_parts, first_mark, parse_addr, parse_cidr, parse_v4, prefix_length, v4_fields,
}
use gopher_cni.Go.ShowIp.{digit, show_byte, show_v4}
use gopher_cni.Go.Text.Trim.{cut-append}
use gopher_cni.Go.Text.{Text, codes, contains_code, is_empty}
use gopher_cni.Prelude.{
  Bool, Bool-cases, [], ap, append-nil, arith, false, inl, inr, leb, ltb, ltb→lt, refl, some, sym,
  true, ℕ, ◌%◌, ◌&&◌, ◌*◌, ◌++◌, ◌+◌, ◌-◌, ◌/◌, ◌<◌, ◌==◌, ◌^◌, ◌||◌, ◌∙◌, ◌∷◌, ◌≡◌, ◌≤◌,
}

digit_step :
    (d : ℕ) (s : Text) (fresh : Bool) (val len field acc : ℕ)
    → d < 10
    → (len == 1 && val == 0) ≡ false
    → val * 10 + d ≤ 255
    → v4_fields (digit d ∷ s) fresh val len field acc
      ≡ v4_fields s false (val * 10 + d) (len + 1) field acc
unfolding v4_fields digit is_digit
digit_step d s fresh val len field acc small lead le =
    let e : val * 10 + (b'0' + d - b'0') ≡ val * 10 + d = omega arith in
    let digit_lem : (leb b'0' (b'0' + d) && leb (b'0' + d) b'9') ≡ true = ground arith in
    let in_range : ltb 255 (val * 10 + d) ≡ false = ground arith in
    rw (digit_lem, e, lead, in_range) refl

dot_step :
    (c : ℕ) (s : Text) (val len field acc : ℕ)
    → field < 3
    → v4_fields (b'.' ∷ c ∷ s) false val len field acc
      ≡ v4_fields (c ∷ s) true 0 0 (field + 1) (acc * 256 + val)
unfolding v4_fields is_digit is_empty
dot_step c s val len field acc lt = let more : (field == 3) ≡ false = ground arith in rw more refl

-- The fields behind a printed byte.
abbrev AfterByte : Text → ℕ → ℕ → ℕ → Text → Type 0
AfterByte shown x field acc s =
    (len : ℕ) × (v4_fields (shown ++ s) true 0 0 field acc ≡ v4_fields s false x len field acc)

show_byte-AfterByte : (x field acc : ℕ) (s : Text) → x < 256 → AfterByte (show_byte x) x field acc s
unfolding show_byte
show_byte-AfterByte x field acc s lt = elim (Bool-cases (ltb x 10)) [
  | inl e ↦ rw e (
    1,
    digit_step x s true 0 0 field acc (ltb→lt x 10 e) refl (omega arith)
        ∙ ap (λ (v : ℕ). v4_fields s false v 1 field acc) (omega arith),
  )
  | inr e ↦ elim (Bool-cases (ltb x 100)) [
    | inl e' ↦
        let ge : 10 ≤ x = ground (arith, e) in
        let lt' = ltb→lt x 100 e' in
        rw (e, e')
          (
            2,
            digit_step (x / 10) (digit (x % 10) ∷ s) true 0 0 field acc (omega arith) refl
                  (omega arith)
                ∙ digit_step (x % 10) s false (0 * 10 + x / 10) 1 field acc (omega arith)
                    (ground (arith, ge)) (omega arith)
                ∙ ap (λ (v : ℕ). v4_fields s false v 2 field acc) (omega arith),
          )
    | inr e' ↦
        let ge : 100 ≤ x = ground (arith, e') in
        rw (e, e')
          (
            3,
            digit_step (x / 100) (digit (x / 10 % 10) ∷ digit (x % 10) ∷ s) true 0 0 field acc
                  (omega arith) refl (omega arith)
                ∙ digit_step (x / 10 % 10) (digit (x % 10) ∷ s) false (0 * 10 + x / 100) 1 field acc
                    (omega arith) (ground (arith, ge)) (omega arith)
                ∙ digit_step (x % 10) s false ((0 * 10 + x / 100) * 10 + x / 10 % 10) 2 field acc
                    (omega arith) refl (omega arith)
                ∙ ap (λ (v : ℕ). v4_fields s false v 3 field acc) (omega arith),
          )
  ]
]

-- A printed byte begins with a digit, so a dot may stand before it.
show_byte-cons : (x : ℕ) → (c : ℕ) × (s : Text) × (show_byte x ≡ c ∷ s)
unfolding show_byte
show_byte-cons x = elim (Bool-cases (ltb x 10)) [
  | inl e ↦ (digit x, [], rw e refl)
  | inr e ↦ elim (Bool-cases (ltb x 100)) [
    | inl e' ↦ (digit (x / 10), digit (x % 10) ∷ [], rw (e, e') refl)
    | inr e' ↦ (digit (x / 100), digit (x / 10 % 10) ∷ digit (x % 10) ∷ [], rw (e, e') refl)
  ]
]

dot_before :
    (t s : Text) (c x len field acc : ℕ)
    → t ≡ c ∷ s
    → field < 3
    → v4_fields (b'.' ∷ t) false x len field acc ≡ v4_fields t true 0 0 (field + 1) (acc * 256 + x)
dot_before t s c x len field acc e more = rw e (dot_step c s x len field acc more)

-- One byte, and the dot behind it.
byte_read :
    (x field acc c : ℕ) (t s : Text)
    → x < 256
    → field < 3
    → t ≡ c ∷ s
    → v4_fields (show_byte x ++ (b'.' ∷ t)) true 0 0 field acc
      ≡ v4_fields t true 0 0 (field + 1) (acc * 256 + x)
byte_read x field acc c t s lt more e =
    let (len, read) = show_byte-AfterByte x field acc (b'.' ∷ t) lt in
    read ∙ dot_before t s c x len field acc e more

last_read : (x acc : ℕ) → x < 256 → v4_fields (show_byte x) true 0 0 3 acc ≡ some (acc * 256 + x)
unfolding v4_fields
last_read x acc lt =
    let (len, read) = show_byte-AfterByte x 3 acc [] lt in
    ap (λ (s : Text). v4_fields s true 0 0 3 acc) (sym (append-nil (show_byte x))) ∙ read

pub parse_v4-show_v4 : (n : ℕ) → n < 2 ^ 32 → parse_v4 (show_v4 n) ≡ some n
unfolding parse_v4 show_v4
parse_v4-show_v4 n lt =
    let a = n / 2 ^ 24 in
    let b = n / 2 ^ 16 % 256 in
    let c = n / 2 ^ 8 % 256 in
    let d = n % 256 in
    let (d0, ds, de) = show_byte-cons d in
    let (c0, cs, ce) = show_byte-cons c in
    let (b0, bs, be) = show_byte-cons b in
    let last = b'.' ∷ show_byte d in
    let third = b'.' ∷ (show_byte c ++ last) in
    byte_read a 0 0 b0 (show_byte b ++ third) (bs ++ third) (omega arith) (omega arith)
      (ap (λ (s : Text). s ++ third) be)
    ∙ byte_read b 1 (0 * 256 + a) c0 (show_byte c ++ last) (cs ++ last) (omega arith) (omega arith)
        (ap (λ (s : Text). s ++ last) ce)
    ∙ byte_read c 2 ((0 * 256 + a) * 256 + b) d0 (show_byte d) ds (omega arith) (omega arith) de
    ∙ last_read d (((0 * 256 + a) * 256 + b) * 256 + c) (omega arith)
    ∙ ap some (omega arith)

-- A dotted address has no slash and no percent sign.
show_byte-free :
    (x c : ℕ) → x < 256 → (c == b'/' || c == b'%') ≡ true → contains_code c (show_byte x) ≡ false
unfolding show_byte digit contains_code
show_byte-free x c lt odd = ground (arith, odd, lt)

contains_code-append :
    (c : ℕ) (s t : Text)
    → contains_code c s ≡ false
    → contains_code c t ≡ false
    → contains_code c (s ++ t) ≡ false
unfolding contains_code
contains_code-append c [] t h k = k
contains_code-append c (x ∷ s) t h k = ground (arith, contains_code-append c s t, h, k)

dot-free :
    (c : ℕ) (t : Text)
    → (c == b'/' || c == b'%') ≡ true
    → contains_code c t ≡ false
    → contains_code c (b'.' ∷ t) ≡ false
unfolding contains_code
dot-free c t odd h = ground (arith, odd, h)

pub show_v4-free :
    (n c : ℕ) → n < 2 ^ 32 → (c == b'/' || c == b'%') ≡ true → contains_code c (show_v4 n) ≡ false
unfolding show_v4
show_v4-free n c lt odd =
    let byte = λ (x : ℕ) (small : x < 256). show_byte-free x c small odd in
    contains_code-append c (show_byte (n / 2 ^ 24)) _ (byte (n / 2 ^ 24) (omega arith)) (
      dot-free c _ odd (
        contains_code-append c (show_byte (n / 2 ^ 16 % 256)) _
          (byte (n / 2 ^ 16 % 256) (omega arith))
          (dot-free c _ odd (
            contains_code-append c (show_byte (n / 2 ^ 8 % 256)) _
              (byte (n / 2 ^ 8 % 256) (omega arith))
              (dot-free c _ odd (byte (n % 256) (omega arith)))))))

first_mark-digit : (d : ℕ) (s : Text) → d < 10 → first_mark (digit d ∷ s) ≡ first_mark s
unfolding first_mark digit
first_mark-digit d s lt = ground (arith, lt)

show_byte-first_mark : (x : ℕ) (s : Text) → x < 256 → first_mark (show_byte x ++ s) ≡ first_mark s
unfolding show_byte
show_byte-first_mark x s lt = elim (Bool-cases (ltb x 10)) [
  | inl e ↦ rw e (first_mark-digit x s (ltb→lt x 10 e))
  | inr e ↦ elim (Bool-cases (ltb x 100)) [
    | inl e' ↦
        let lt' = ltb→lt x 100 e' in
        rw (e, e')
          (first_mark-digit (x / 10) (digit (x % 10) ∷ s) (omega arith)
            ∙ first_mark-digit (x % 10) s (omega arith))
    | inr e' ↦
        rw (e, e')
          (first_mark-digit (x / 100) (digit (x / 10 % 10) ∷ digit (x % 10) ∷ s) (omega arith)
            ∙ first_mark-digit (x / 10 % 10) (digit (x % 10) ∷ s) (omega arith)
            ∙ first_mark-digit (x % 10) s (omega arith))
  ]
]

show_v4-first_mark : (n : ℕ) → n < 2 ^ 32 → first_mark (show_v4 n) ≡ some b'.'
unfolding show_v4 first_mark
show_v4-first_mark n lt = show_byte-first_mark (n / 2 ^ 24) _ (omega arith)

pub parse_addr-show_v4 : (n : ℕ) → n < 2 ^ 32 → parse_addr (show_v4 n) ≡ some (v4 n)
unfolding parse_addr
parse_addr-show_v4 n lt =
    rw (show_v4-free n b'%' lt refl, show_v4-first_mark n lt, parse_v4-show_v4 n lt) refl

-- A number under the mask of all bits.
all_bits : (n : ℕ) → masked 32 32 n ≡ n
unfolding masked prefix
all_bits n = omega arith

-- The address of a host, printed with "/32" behind it and read back, is the network of that host
-- alone.
pub parse_cidr-host :
    (n : ℕ)
    → n < 2 ^ 32
    → parse_cidr (show_v4 n ++ codes "/32") ≡ some (record { ip = ip4 n; ones = 32; bits = 32 })
unfolding parse_cidr cidr_parts cidr masked_net bit_len prefix_length codes is_empty decimal_from
parse_cidr-host n lt =
    rw
      (
        cut-append b'/' (show_v4 n) (b'3' ∷ b'2' ∷ []) (show_v4-free n b'/' lt refl),
        parse_addr-show_v4 n lt,
        all_bits n,
      )
      refl
