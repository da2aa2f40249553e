-- ===== src/Wireguard.antt =====
-- internal/wireguard: the configuration of the tunnel (configure.go) and its parser (parser.go).

pub mod Parser
pub mod Configure
use gopher_cni.Prelude.{ℕ, Option, none, some, List, [], ◌∷◌, ◌++◌}
use gopher_cni.Go.Int.{ℤ}
use gopher_cni.Go.Ip.{Ip, IpNet, to4}

-- wgtypes.Key: thirty-two bytes.
abbrev pub Key : Type 0
Key = List ℕ

-- net.UDPAddr; an address with no host part has no IP.
pub record UdpAddr : Type 0 where
  pub ip : Option Ip
  pub port : ℕ

-- wgtypes.PeerConfig, with the fields that the parser sets. The keepalive is in nanoseconds.
pub record PeerConfig : Type 0 where
  pub public_key : Key
  pub preshared_key : Option Key
  pub endpoint : Option UdpAddr
  pub keepalive : Option ℤ
  pub allowed_ips : List IpNet

-- wgtypes.Config, with the fields that the parser sets.
pub record WgConfig : Type 0 where
  pub private_key : Option Key
  pub listen_port : Option ℤ
  pub firewall_mark : Option ℤ
  pub peers : List PeerConfig

pub record Config : Type 0 where
  pub wg : WgConfig
  pub addresses : List IpNet
  pub dns : List Ip

-- the /32 networks of the IPv4 servers
unfoldable pub dns_nets : List Ip → List IpNet
dns_nets [] = []
dns_nets (ip ∷ ips) =
    let rest = dns_nets ips in
    elim (to4 ip) [ none ↦ rest | some _ ↦ record { ip = ip; ones = 32; bits = 32 } ∷ rest ]

-- (*Config).ProtectedNets
unfoldable pub protected_nets : Config → List IpNet
unfolding dns_nets
protected_nets c = c.addresses ++ dns_nets c.dns
