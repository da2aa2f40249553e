-- ===== src/Go/Ip.antt =====
-- Packages net and net/netip: addresses, masks and networks.
pub mod Prefix
use gopher_cni.Prelude.{
  ℕ, ◌+◌, ◌-◌, ◌*◌, ◌/◌, ◌%◌, ◌^◌, Bool, false, Option, none, some, ◌==◌, if◌then◌else◌,
}

-- net.IP: a slice of four bytes or of sixteen, as the big-endian number that they spell.
pub data Ip : Type 0 where
  ip4 : ℕ → Ip
  ip16 : ℕ → Ip

-- The twelve bytes in front of an IPv4 address in its IPv6 form, ::ffff:0:0/96.
abbrev pub v4_in_v6_prefix : ℕ
v4_in_v6_prefix = 0xFFFF

-- IP.To4
unfoldable pub to4 : Ip → Option ℕ
to4 (ip4 n) = some n
to4 (ip16 n) = if n / 2 ^ 32 == v4_in_v6_prefix then some (n % 2 ^ 32) else none

-- net.IPNet, with the mask that net.CIDRMask(ones, bits) gives.
pub record IpNet : Type 0 where
  pub ip : Ip
  pub ones : ℕ
  pub bits : ℕ

-- The first `ones` of `width` bits: what is left of a number under such a mask.
unfoldable pub prefix : ℕ → ℕ → ℕ → ℕ
prefix width ones n = n / 2 ^ (width - ones)

-- The results of net.networkNumberAndMask: number and ones, in four bytes or in sixteen.
pub data Network : Type 0 where
  net4 : ℕ → ℕ → Network
  net16 : ℕ → ℕ → Network
  no_network : Network

-- The mask of an IPv4 number; of sixteen bytes of mask the last four count.
unfoldable pub mask4 : ℕ → ℕ → ℕ → Network
mask4 n ones bits = if bits == 32 then net4 n ones else net4 n (ones - 96)

mask16 : Ip → ℕ → ℕ → Network
mask16 (ip4 n) ones bits = no_network
mask16 (ip16 n) ones bits = if bits == 128 then net16 n ones else no_network

unfoldable pub network : IpNet → Network
unfolding mask4 mask16
network net = elim (to4 net.ip) [
  | some n ↦ mask4 n net.ones net.bits
  | none ↦ mask16 net.ip net.ones net.bits
]

unfoldable pub contains4 : Network → ℕ → Bool
contains4 (net4 n ones) x = prefix 32 ones n == prefix 32 ones x
contains4 _ x = false

unfoldable pub contains16 : Network → Ip → Bool
contains16 (net16 n ones) (ip16 x) = prefix 128 ones n == prefix 128 ones x
contains16 _ x = false

-- (*IPNet).Contains
unfoldable pub contains : IpNet → Ip → Bool
unfolding network contains4 contains16
contains net ip = elim (to4 ip) [
  | some x ↦ contains4 (network net) x
  | none ↦ contains16 (network net) ip
]

-- A number under the mask: its first `ones` bits, and zeros.
unfoldable pub masked : ℕ → ℕ → ℕ → ℕ
unfolding prefix
masked width ones n = prefix width ones n * 2 ^ (width - ones)

-- netip.Addr without a zone.
pub data Addr : Type 0 where
  v4 : ℕ → Addr
  v6 : ℕ → Addr

-- Addr.BitLen
unfoldable pub bit_len : Addr → ℕ
bit_len (v4 n) = 32
bit_len (v6 n) = 128

-- IP(addr.As16())
unfoldable pub as16 : Addr → Ip
as16 (v4 n) = ip16 (v4_in_v6_prefix * 2 ^ 32 + n)
as16 (v6 n) = ip16 n

-- &IPNet{IP: IP(addr16[:]).Mask(m), Mask: m} for m = CIDRMask(ones, addr.BitLen()).
unfoldable pub masked_net : Addr → ℕ → IpNet
unfolding masked
masked_net (v4 n) ones = record { ip = ip4 (masked 32 ones n); ones = ones; bits = 32 }
masked_net (v6 n) ones = record { ip = ip16 (masked 128 ones n); ones = ones; bits = 128 }
