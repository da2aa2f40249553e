-- ===== src/Go/ShowIp.antt =====
-- IP.String and IPNet.String.
pub mod RoundTrip
use gopher_cni.Prelude.{
  ℕ, zero, suc, ◌+◌, ◌-◌, ◌*◌, ◌/◌, ◌%◌, ◌^◌, ◌&&◌, ◌||◌, none, some, List, [], ◌∷◌, ◌++◌, ltb,
  ◌==◌, if◌then◌else◌,
}
use gopher_cni.Go.Text.{Text, codes}
use gopher_cni.Go.Ip.{Ip, ip4, ip16, to4, IpNet, net4, net16, no_network, network}

unfoldable pub digit : ℕ → ℕ
digit d = b'0' + d

-- A number below 1000 in decimal.
unfoldable pub show_byte : ℕ → Text
unfolding digit
show_byte n =
    if ltb n 10
    then digit n ∷ []
    else if ltb n 100
    then digit (n / 10) ∷ digit (n % 10) ∷ []
    else digit (n / 100) ∷ digit (n / 10 % 10) ∷ digit (n % 10) ∷ []

-- The dotted form of an IPv4 address.
unfoldable pub show_v4 : ℕ → Text
unfolding show_byte
show_v4 n =
    show_byte (n / 2 ^ 24)
    ++ (b'.'
        ∷ (show_byte (n / 2 ^ 16 % 256)
            ++ (b'.' ∷ (show_byte (n / 2 ^ 8 % 256) ++ (b'.' ∷ show_byte (n % 256))))))

hex_digit : ℕ → ℕ
hex_digit d = if ltb d 10 then b'0' + d else b'a' + (d - 10)

show_group : ℕ → Text
unfolding hex_digit
show_group n =
    let d0 = hex_digit (n % 16) in
    let d1 = hex_digit (n / 16 % 16) in
    let d2 = hex_digit (n / 256 % 16) in
    let d3 = hex_digit (n / 4096) in
    if ltb n 0x10
    then d0 ∷ []
    else if ltb n 0x100
    then d1 ∷ d0 ∷ []
    else if ltb n 0x1000
    then d2 ∷ d1 ∷ d0 ∷ []
    else d3 ∷ d2 ∷ d1 ∷ d0 ∷ []

-- the k lowest groups of sixteen bits, the highest first
groups : ℕ → ℕ → List ℕ
groups zero n = []
groups (suc k) n = (n / 2 ^ (16 * k) % 65536) ∷ groups k n

leading_zeros : List ℕ → ℕ
leading_zeros [] = 0
leading_zeros (g ∷ gs) = let rest = leading_zeros gs in if g == 0 then suc rest else 0

-- The first longest run of two zero groups or more, its start and its size; `i` is the position.
longest_run : ℕ → List ℕ → ℕ × ℕ → ℕ × ℕ
unfolding leading_zeros
longest_run i [] best = best
longest_run i (g ∷ gs) best =
    let l = leading_zeros (g ∷ gs) in
    longest_run (suc i) gs (if ltb 1 l && ltb best.1 l then (i, l) else best)

-- The groups from position `i` on; `skip` groups of the run are still to be left out.
show_groups : ℕ → ℕ → ℕ × ℕ → List ℕ → Text
unfolding show_group
show_groups i skip run [] = []
show_groups i (suc skip) run (g ∷ gs) = show_groups (suc i) skip run gs
show_groups i zero run (g ∷ gs) =
    let starts = ltb 0 run.1 && i == run.0 in
    let rest = show_groups (suc i) (if starts then run.1 - 1 else 0) run gs in
    let behind_run = ltb 0 run.1 && i == run.0 + run.1 in
    if starts
    then b':' ∷ b':' ∷ rest
    else if i == 0 || behind_run
    then show_group g ++ rest
    else b':' ∷ (show_group g ++ rest)

show_v6 : ℕ → Text
unfolding groups longest_run show_groups
show_v6 n = let gs = groups 8 n in show_groups 0 0 (longest_run 0 gs (0, 0)) gs

show16 : Ip → Text
unfolding show_v6
show16 (ip4 n) = []
show16 (ip16 n) = show_v6 n

-- IP.String of an address that is not nil
unfoldable pub show_ip : Ip → Text
unfolding to4 show_v4 show16
show_ip ip = elim (to4 ip) [ some n ↦ show_v4 n | none ↦ show16 ip ]

-- (*IPNet).String
unfoldable pub show_net : IpNet → Text
unfolding network show_v4 show_v6 show_byte codes
show_net net = elim (network net) [
  | net4 n ones ↦ show_v4 n ++ (b'/' ∷ show_byte ones)
  | net16 n ones ↦ show_v6 n ++ (b'/' ∷ show_byte ones)
  | no_network ↦ codes "<nil>"
]
