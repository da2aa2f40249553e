-- ===== src/Utils/Printed.antt =====
-- IPv4 networks and addresses printed by IPNet.String and IP.String, read by ParseIPOrCIDRList of
-- internal/utils/net.go.
use gopher_cni.Go.Int.Show.{digit_read}
use gopher_cni.Go.Int.{decimal_from}
use gopher_cni.Go.Ip.{
  Ip, IpNet, as16, bit_len, ip16, ip4, mask4, masked, masked_net, network, to4, v4, v4_in_v6_prefix,
}
use gopher_cni.Go.ParseIp.{cidr, cidr_parts, parse_cidr, parse_ip, prefix_length}
use gopher_cni.Go.ShowIp.RoundTrip.{parse_addr-show_v4, show_v4-free}
use gopher_cni.Go.ShowIp.{digit, show_byte, show_ip, show_net, show_v4}
use gopher_cni.Go.Text.Plain.{
  are_plain, are_plain-IsSolid, are_plain-append, are_plain-free, are_plain-solid, is_plain,
}
use gopher_cni.Go.Text.Trim.{IsSolid, cut-append, split-whole, trim_space-solid}
use gopher_cni.Go.Text.{Text, contains_code, is_empty}
use gopher_cni.Prelude.{
  Bool-cases, [], ap, arith, false, inl, inr, leb, ltb, ltb→lt, ok, refl, some, true, ℕ, ◌%◌, ◌*◌,
  ◌++◌, ◌+◌, ◌/◌, ◌<◌, ◌==◌, ◌^◌, ◌∙◌, ◌∷◌, ◌≡◌, ◌≤◌, subst, sym,
}
use gopher_cni.Utils.{
  host_net, parse_ip_or_cidr_list, parse_token, parse_tokens, cidr_or_error, ip_or_error,
}

show_byte-plain : (x : ℕ) → x < 256 → are_plain (show_byte x) ≡ true
unfolding show_byte digit are_plain is_plain
show_byte-plain x lt = ground (arith, lt)

show_byte-full : (x : ℕ) → is_empty (show_byte x) ≡ false
unfolding show_byte is_empty
show_byte-full x = ground arith

is_empty-append_left : (s t : Text) → is_empty s ≡ false → is_empty (s ++ t) ≡ false
unfolding is_empty
is_empty-append_left [] t h = cc
is_empty-append_left (c ∷ s) t h = refl

show_v4-plain : (n : ℕ) → n < 2 ^ 32 → are_plain (show_v4 n) ≡ true
unfolding show_v4 are_plain is_plain
show_v4-plain n lt =
    let byte = λ (x : ℕ) (small : x < 256). show_byte-plain x small in
    are_plain-append (show_byte (n / 2 ^ 24)) _ (byte (n / 2 ^ 24) (omega arith)) (
      are_plain-append (show_byte (n / 2 ^ 16 % 256)) _ (byte (n / 2 ^ 16 % 256) (omega arith)) (
        are_plain-append (show_byte (n / 2 ^ 8 % 256)) _ (byte (n / 2 ^ 8 % 256) (omega arith))
          (byte (n % 256) (omega arith))))

show_v4-full : (n : ℕ) → is_empty (show_v4 n) ≡ false
unfolding show_v4
show_v4-full n = is_empty-append_left (show_byte (n / 2 ^ 24)) _ (show_byte-full (n / 2 ^ 24))

prefix_length-show_byte : (m : ℕ) → m < 100 → prefix_length (show_byte m) ≡ some m
unfolding prefix_length show_byte digit is_empty decimal_from
prefix_length-show_byte m lt = elim (Bool-cases (ltb m 10)) [
  | inl e ↦
      rw e (digit_read 0 m [] (ltb→lt m 10 e) ∙ ap (λ (k : ℕ). decimal_from k []) (omega arith))
  | inr e ↦
      let small : ltb m 100 ≡ true = ground arith in
      rw (e, small)
        (digit_read 0 (m / 10) (digit (m % 10) ∷ []) (omega arith)
          ∙ digit_read (0 * 10 + m / 10) (m % 10) [] (omega arith)
          ∙ ap (λ (k : ℕ). decimal_from k []) (omega arith))
]

parse_cidr-show_v4 :
    (n ones : ℕ)
    → n < 2 ^ 32
    → ones ≤ 32
    → parse_cidr (show_v4 n ++ b'/' ∷ show_byte ones) ≡ some (masked_net (v4 n) ones)
unfolding parse_cidr cidr_parts cidr bit_len
parse_cidr-show_v4 n ones lt le =
    let free : contains_code b'/' (show_v4 n) ≡ false = show_v4-free n b'/' lt refl in
    let small : leb ones 32 ≡ true = ground arith in
    rw
      (
        cut-append b'/' (show_v4 n) (show_byte ones) free,
        parse_addr-show_v4 n lt,
        prefix_length-show_byte ones (omega arith),
        small,
      )
      refl

-- The networks that ParseIPOrCIDRList makes of an IPv4 network, and the addresses of those that it
-- makes of an IPv4 address.
pub data IsV4Net : IpNet → Type 0 where
  v4_net :
      (n ones : ℕ)
      → n < 2 ^ 32
      → ones ≤ 32
      → masked 32 ones n ≡ n
      → IsV4Net (record { ip = ip4 n; ones = ones; bits = 32 })

pub data IsV4Mapped : Ip → Type 0 where
  v4_mapped : (n : ℕ) → n < 2 ^ 32 → IsV4Mapped (ip16 (v4_in_v6_prefix * 2 ^ 32 + n))

-- One token without white space and commas is the whole list.
one_token :
    (s : Text) (net : IpNet)
    → are_plain s ≡ true
    → is_empty s ≡ false
    → parse_token s ≡ ok net
    → parse_ip_or_cidr_list s ≡ ok (net ∷ [])
unfolding parse_ip_or_cidr_list parse_tokens is_plain
one_token s net plain full read =
    rw
      (
        split-whole b',' s (are_plain-free b',' s refl plain),
        trim_space-solid s (are_plain-solid s plain),
        full,
        read,
      )
      refl

slash-plain : (s : Text) → are_plain s ≡ true → are_plain (b'/' ∷ s) ≡ true
unfolding are_plain is_plain
slash-plain s h = h

printed_net-plain :
    (n ones : ℕ) → n < 2 ^ 32 → ones ≤ 32 → are_plain (show_v4 n ++ b'/' ∷ show_byte ones) ≡ true
printed_net-plain n ones lt le =
    are_plain-append (show_v4 n) (b'/' ∷ show_byte ones) (show_v4-plain n lt)
      (slash-plain (show_byte ones) (show_byte-plain ones (omega arith)))

contains_code-behind : (c : ℕ) (s t : Text) → contains_code c (s ++ c ∷ t) ≡ true
unfolding contains_code
contains_code-behind c [] t = ground arith
contains_code-behind c (x ∷ s) t = ground (arith, contains_code-behind c s t)

pub show_net-IsSolid : (net : IpNet) → IsV4Net net → IsSolid (show_net net)
unfolding show_net network to4 mask4
show_net-IsSolid net (v4_net n ones lt le same) =
    are_plain-IsSolid (show_v4 n ++ b'/' ∷ show_byte ones) (printed_net-plain n ones lt le)
      (is_empty-append_left (show_v4 n) (b'/' ∷ show_byte ones) (show_v4-full n))

-- Such a network is read back from its print.
pub parse_ip_or_cidr_list-show_net :
    (net : IpNet) → IsV4Net net → parse_ip_or_cidr_list (show_net net) ≡ ok (net ∷ [])
unfolding show_net network to4 mask4 parse_token cidr_or_error masked_net
parse_ip_or_cidr_list-show_net net (v4_net n ones lt le same) =
    let printed = show_v4 n ++ b'/' ∷ show_byte ones in
    let read : parse_token printed ≡ ok (record { ip = ip4 n; ones = ones; bits = 32 }) =
      rw (contains_code-behind b'/' (show_v4 n) (show_byte ones), parse_cidr-show_v4 n ones lt le)
        (ap (λ (m : ℕ). ok (record { ip = ip4 m; ones = ones; bits = 32 })) same) in
    one_token printed (record { ip = ip4 n; ones = ones; bits = 32 })
      (printed_net-plain n ones lt le)
      (is_empty-append_left (show_v4 n) (b'/' ∷ show_byte ones) (show_v4-full n)) read

to4-mapped : (n : ℕ) → n < 2 ^ 32 → to4 (ip16 (v4_in_v6_prefix * 2 ^ 32 + n)) ≡ some n
unfolding to4
to4-mapped n lt =
    let high : ((v4_in_v6_prefix * 2 ^ 32 + n) / 2 ^ 32 == v4_in_v6_prefix) ≡ true = ground arith in
    rw high (ap some (omega arith))

show_ip-mapped : (n : ℕ) → n < 2 ^ 32 → show_ip (ip16 (v4_in_v6_prefix * 2 ^ 32 + n)) ≡ show_v4 n
unfolding show_ip show_v4
show_ip-mapped n lt = rw (show_ip, to4-mapped n lt) refl

parse_ip-show_v4 :
    (n : ℕ) → n < 2 ^ 32 → parse_ip (show_v4 n) ≡ some (ip16 (v4_in_v6_prefix * 2 ^ 32 + n))
unfolding as16 parse_ip
parse_ip-show_v4 n lt = rw (parse_ip, parse_addr-show_v4 n lt) refl

pub show_ip-IsSolid : (ip : Ip) → IsV4Mapped ip → IsSolid (show_ip ip)
show_ip-IsSolid ip (v4_mapped n lt) =
    subst IsSolid (sym (show_ip-mapped n lt))
      (are_plain-IsSolid (show_v4 n) (show_v4-plain n lt) (show_v4-full n))

host_net-mapped :
    (n : ℕ)
    → n < 2 ^ 32
    → host_net (ip16 (v4_in_v6_prefix * 2 ^ 32 + n))
      ≡ record { ip = ip16 (v4_in_v6_prefix * 2 ^ 32 + n); ones = 32; bits = 32 }
unfolding host_net
host_net-mapped n lt = rw (host_net, to4-mapped n lt) refl

-- Such an address is read back from its print, as a host's network.
pub parse_ip_or_cidr_list-show_ip :
    (ip : Ip)
    → IsV4Mapped ip
    → parse_ip_or_cidr_list (show_ip ip) ≡ ok (record { ip = ip; ones = 32; bits = 32 } ∷ [])
unfolding parse_token ip_or_error
parse_ip_or_cidr_list-show_ip ip (v4_mapped n lt) =
    let net : IpNet = record { ip = ip16 (v4_in_v6_prefix * 2 ^ 32 + n); ones = 32; bits = 32 } in
    let read : parse_token (show_v4 n) ≡ ok net =
      rw (show_v4-free n b'/' lt refl, parse_ip-show_v4 n lt) (ap ok (host_net-mapped n lt)) in
    ap parse_ip_or_cidr_list (show_ip-mapped n lt)
    ∙ one_token (show_v4 n) net (show_v4-plain n lt) (show_v4-full n) read
