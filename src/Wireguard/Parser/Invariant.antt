-- ===== src/Wireguard/Parser/Invariant.antt =====
-- What holds of the parser's variables at every line, and of the configuration that it returns.
use gopher_cni.Prelude.{
  subst, ℕ, ◌≤◌, ◌≡◌, refl, sym, ◌⊎◌, inl, inr, Option, none, some, List, [], ◌∷◌, ◌++◌, arith,
  Option-cases, ok, Result-cases, All, All-append,
}
use gopher_cni.Go.Text.{Text, codes}
use gopher_cni.Go.Int.{ℤ, pos, negsuc, atoi}
use gopher_cni.Go.Ip.{IpNet, to4}
use gopher_cni.Utils.{parse_ip_or_cidr_list}
use gopher_cni.Wireguard.{PeerConfig}
use gopher_cni.Wireguard.Parser.{Decoders, State, v4_nets, check_port, parse_interface_key}

-- The address has an IPv4 form.
abbrev pub HasV4 : IpNet → Type 0
HasV4 n = (x : ℕ) × (to4 n.ip ≡ some x)

abbrev pub PortInRange : Option ℤ → Type 0
PortInRange none = Unit
PortInRange (some (pos n)) = n ≤ 65535
PortInRange (some (negsuc n)) = ⊥

pub record IsWf (s : State) : Type 0 where
  pub peer_open : s.section ≡ codes "peer" → (p : PeerConfig) × (s.current_peer ≡ some p)
  pub addresses_v4 : All HasV4 s.addresses
  pub port_range : PortInRange s.wg.listen_port

v4_nets-HasV4 : (ns : List IpNet) → All HasV4 (v4_nets ns)
unfolding v4_nets
v4_nets-HasV4 [] = tt
v4_nets-HasV4 (n ∷ ns) =
    (elim (to4 n.ip)
        as (λ o.
          to4 n.ip ≡ o → All HasV4 (elim o [ none ↦ v4_nets ns | some _ ↦ n ∷ v4_nets ns ])) [
            | none ↦ λ e. v4_nets-HasV4 ns
            | some x ↦ λ e. ((x, e), v4_nets-HasV4 ns)
          ])
      refl

pub check_port-PortInRange : (z port : ℤ) → check_port z ≡ ok port → PortInRange (some port)
unfolding check_port
check_port-PortInRange (pos n) (pos m) h = ground arith
check_port-PortInRange (pos n) (negsuc m) h = ground arith
check_port-PortInRange (negsuc n) port h = cc

-- Of a line of the [Interface] section.
pub record Keeps (s s' : State) : Type 0 where
  pub section_lem : s'.section ≡ s.section
  pub peer_lem : s'.current_peer ≡ s.current_peer
  pub peers_lem : s'.wg.peers ≡ s.wg.peers

pub parse_interface_key-Keeps :
    (d : Decoders) (s s' : State) (key value : Text)
    → parse_interface_key d s key value ≡ ok s'
    → Keeps s s'
unfolding parse_interface_key
parse_interface_key-Keeps d s s' key value h = ground arith

parse_interface_key-parsed :
    (d : Decoders) (s s' : State) (key value : Text) (ns : List IpNet)
    → parse_ip_or_cidr_list value ≡ ok ns
    → parse_interface_key d s key value ≡ ok s'
    → (s'.addresses ≡ s.addresses) ⊎ (s'.addresses ≡ s.addresses ++ v4_nets ns)
unfolding parse_interface_key
parse_interface_key-parsed d s s' key value ns e h = ground arith

pub parse_interface_key-HasV4 :
    (d : Decoders) (s s' : State) (key value : Text)
    → parse_interface_key d s key value ≡ ok s'
    → All HasV4 s.addresses
    → All HasV4 s'.addresses
unfolding parse_interface_key
parse_interface_key-HasV4 d s s' key value h all =
    elim (Result-cases (parse_ip_or_cidr_list value)) [
      | inl (ns, e) ↦ elim (parse_interface_key-parsed d s s' key value ns e h) [
        | inl same ↦ subst (All HasV4) (sym same) all
        | inr more ↦
            subst (All HasV4) (sym more)
              (All-append HasV4 s.addresses (v4_nets ns) all (v4_nets-HasV4 ns))
      ]
      | inr (e, bad) ↦
          let same : s'.addresses ≡ s.addresses = ground (arith, bad) in
          subst (All HasV4) (sym same) all
    ]

pub parse_interface_key-port :
    (d : Decoders) (s s' : State) (key value : Text)
    → parse_interface_key d s key value ≡ ok s'
    → (s'.wg.listen_port ≡ s.wg.listen_port)
      ⊎ ((z : ℤ) × (port : ℤ) × (check_port z ≡ ok port) × (s'.wg.listen_port ≡ some port))
unfolding parse_interface_key
parse_interface_key-port d s s' key value h = elim (Option-cases (atoi value)) [
  | inl e ↦ inl (ground (arith, e))
  | inr (z, e) ↦ elim (Result-cases (check_port z)) [
    | inr (e', bad) ↦ inl (ground (arith, e, bad))
    | inl (port, good) ↦ elim (port_or_same z port e good) [
      | inl same ↦ inl same
      | inr set ↦ inr (z, port, good, set)
    ]
  ]
]
  where
    port_or_same :
        (z port : ℤ)
        → atoi value ≡ some z
        → check_port z ≡ ok port
        → (s'.wg.listen_port ≡ s.wg.listen_port) ⊎ (s'.wg.listen_port ≡ some port)
    port_or_same z port e good = ground (arith, e, good, h)
