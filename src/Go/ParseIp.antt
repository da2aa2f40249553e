-- ===== src/Go/ParseIp.antt =====
-- net.ParseIP and net.ParseCIDR, over netip.ParseAddr.
use gopher_cni.Prelude.{
  ℕ, zero, suc, ◌+◌, ◌-◌, ◌*◌, ◌/◌, ◌%◌, Bool, true, false, not, ◌&&◌, ◌||◌, Option, none, some,
  List, [], ◌∷◌, ◌++◌, ltb, leb, ◌==◌, if◌then◌else◌, length,
}
use gopher_cni.Go.Text.{Text, is_empty, cut, contains_code}
use gopher_cni.Go.Int.{is_digit, decimal_from}
use gopher_cni.Go.Ip.{Ip, IpNet, Addr, v4, v6, bit_len, as16, masked_net}

-- netip.parseIPv4Fields. `fresh` says that no byte of the field was read, `acc` holds the fields
-- before it.
unfoldable pub v4_fields : Text → Bool → ℕ → ℕ → ℕ → ℕ → Option ℕ
unfolding is_digit is_empty
v4_fields [] fresh val dig_len field acc = if ltb field 3 then none else some (acc * 256 + val)
v4_fields (c ∷ s) fresh val dig_len field acc =
    let val' = val * 10 + (c - b'0') in
    let digit = v4_fields s false val' (dig_len + 1) field acc in
    let dot = v4_fields s true 0 0 (field + 1) (acc * 256 + val) in
    if is_digit c
    then if (dig_len == 1 && val == 0) || ltb 255 val' then none else digit
    else if c == b'.'
    then if fresh || is_empty s || field == 3 then none else dot
    else none

unfoldable pub parse_v4 : Text → Option ℕ
unfolding v4_fields
parse_v4 s = v4_fields s true 0 0 0 0

hex_value : ℕ → Option ℕ
unfolding is_digit
hex_value c =
    if is_digit c
    then some (c - b'0')
    else if leb b'a' c && leb c b'f'
    then some (c - b'a' + 10)
    else if leb b'A' c && leb c b'F'
    then some (c - b'A' + 10)
    else none

-- The digits of a group: the number so far, how many there were, and what follows them.
pub record Group : Type 0 where
  pub value : ℕ
  pub digits : ℕ
  pub rest : Text

hex_group : Text → ℕ → ℕ → Group
unfolding hex_value
hex_group [] acc off = record { value = acc; digits = off; rest = [] }
hex_group (c ∷ s) acc off = elim (hex_value c) [
  | none ↦ record { value = acc; digits = off; rest = c ∷ s }
  | some d ↦ hex_group s (acc * 16 + d) (off + 1)
]

-- The groups read before the loop of netip.parseIPv6 ended, where the :: stood, what was left.
pub record Groups : Type 0 where
  pub groups : List ℕ
  pub ellipsis : Option ℕ
  pub rest : Text

abbrev done : List ℕ → Option ℕ → Text → Option Groups
done gs e s = some (record { groups = gs; ellipsis = e; rest = s })

-- With no :: before it an embedded IPv4 address is the last two of eight groups.
misplaced : Option ℕ → ℕ → Bool
misplaced none n = not (n == 6)
misplaced (some _) n = ltb 6 n

-- a trailing IPv4 address, `s`
embedded : Option ℕ → Text → List ℕ → Option Groups
unfolding parse_v4 misplaced
embedded e s gs =
    if misplaced e (length gs)
    then none
    else elim (parse_v4 s) [ none ↦ none | some v ↦ done (gs ++ v / 65536 ∷ v % 65536 ∷ []) e [] ]

-- The loop of netip.parseIPv6: at most eight groups.
v6_groups : ℕ → Text → List ℕ → Option ℕ → Option Groups
unfolding hex_group embedded is_empty
v6_groups zero s gs e = done gs e s
v6_groups (suc k) s gs e =
    let g = hex_group s 0 0 in
    let gs' = gs ++ g.value ∷ [] in
    if g.digits == 0 || ltb 4 g.digits then none else elim g.rest [
      | [] ↦ done gs' e []
      | c ∷ t ↦
          if c == b'.'
          then embedded e s gs
          else if c == b':'
          then elim t [
            | [] ↦ none
            | d ∷ u ↦
                if d == b':'
                then elim e [
                  | some _ ↦ none
                  | none ↦ elim (is_empty u) [
                    | true ↦ done gs' (some (length gs')) []
                    | false ↦ v6_groups k u gs' (some (length gs'))
                  ]
                ]
                else v6_groups k (d ∷ u) gs' e
          ]
          else none
    ]

-- `n` zero groups put in behind the first `k`.
fill_zeros : ℕ → ℕ → List ℕ → List ℕ
fill_zeros zero zero gs = gs
fill_zeros zero (suc n) gs = 0 ∷ fill_zeros zero n gs
fill_zeros (suc k) n [] = []
fill_zeros (suc k) n (g ∷ gs) = g ∷ fill_zeros k n gs

of_groups : ℕ → List ℕ → ℕ
of_groups acc [] = acc
of_groups acc (g ∷ gs) = of_groups (acc * 65536 + g) gs

expand : Option Groups → Option ℕ
unfolding is_empty fill_zeros of_groups
expand none = none
expand (some r) =
    let n = length r.groups in
    if is_empty r.rest
    then elim r.ellipsis [
      | none ↦ if ltb n 8 then none else some (of_groups 0 r.groups)
      | some k ↦ if ltb n 8 then some (of_groups 0 (fill_zeros k (8 - n) r.groups)) else none
    ]
    else none

-- netip.parseIPv6 of a text with no zone
unfoldable pub parse_v6 : Text → Option ℕ
unfolding expand v6_groups
parse_v6 [] = none
parse_v6 (c ∷ []) = expand (v6_groups 8 (c ∷ []) [] none)
parse_v6 (c ∷ d ∷ s) =
    if c == b':' && d == b':'
    then elim s [ [] ↦ some 0 | x ∷ t ↦ expand (v6_groups 8 (x ∷ t) [] (some 0)) ]
    else expand (v6_groups 8 (c ∷ d ∷ s) [] none)

-- Which of `.` and `:` comes first decides the family.
unfoldable pub first_mark : Text → Option ℕ
first_mark [] = none
first_mark (c ∷ s) = let rest = first_mark s in if c == b'.' || c == b':' then some c else rest

-- netip.ParseAddr, with the callers' refusal of a zone: an address with a `%` is never accepted.
unfoldable pub parse_addr : Text → Option Addr
unfolding first_mark parse_v4 parse_v6 contains_code
parse_addr s = if contains_code b'%' s then none else elim (first_mark s) [
  | none ↦ none
  | some m ↦
      if m == b'.'
      then elim (parse_v4 s) [ none ↦ none | some n ↦ some (v4 n) ]
      else elim (parse_v6 s) [ none ↦ none | some n ↦ some (v6 n) ]
]

-- net.ParseIP; `none` is nil.
unfoldable pub parse_ip : Text → Option Ip
unfolding parse_addr as16
parse_ip s = elim (parse_addr s) [ none ↦ none | some a ↦ some (as16 a) ]

-- net.dtoi: it stops at 0xFFFFFF, which no prefix length reaches.
unfoldable pub prefix_length : Text → Option ℕ
unfolding is_empty decimal_from
prefix_length s = if is_empty s then none else decimal_from 0 s

unfoldable pub cidr : Option Addr → Option ℕ → Option IpNet
unfolding bit_len masked_net
cidr (some a) (some n) = if leb n (bit_len a) then some (masked_net a n) else none
cidr _ _ = none

unfoldable pub cidr_parts : Text → Option Text → Option IpNet
unfolding parse_addr prefix_length cidr
cidr_parts addr none = none
cidr_parts addr (some mask) = cidr (parse_addr addr) (prefix_length mask)

-- The network that net.ParseCIDR returns; `none` is its error.
unfoldable pub parse_cidr : Text → Option IpNet
unfolding cut cidr_parts
parse_cidr s = let parts = cut b'/' s in cidr_parts parts.0 parts.1
