-- ===== src/Wireguard/Parser/Print.antt =====
-- The lines of a configuration file for internal/wireguard/parser.go, one for each value, as
-- wg-quick takes them. The program does not print configurations: this says apart from the parser
-- what the file of a configuration is.
pub mod Lines
pub mod Interface
pub mod Peers
pub mod RoundTrip
pub mod File
use gopher_cni.Go.Int.Show.{IsInt, show_int, show_number}
use gopher_cni.Go.Int.{negsuc, pos, ℤ}
use gopher_cni.Go.Ip.{Ip, IpNet}
use gopher_cni.Go.ShowIp.{show_ip, show_net}
use gopher_cni.Go.Text.Trim.{IsSolid}
use gopher_cni.Go.Text.{Text, codes}
use gopher_cni.Prelude.{
  All, List, Option, [], map, none, some, ℕ, ◌%◌, ◌++◌, ◌/◌, ◌<◌, ◌^◌, ◌∷◌, ◌≡◌, ◌≤◌,
}
use gopher_cni.Utils.Printed.{IsV4Mapped, IsV4Net}
use gopher_cni.Wireguard.Parser.{Decoders}
use gopher_cni.Wireguard.{Config, Key, PeerConfig, UdpAddr}

-- How a key and an endpoint are written: wgtypes.Key.String and net.UDPAddr.String.
pub record Encoders : Type 0 where
  pub show_key : Key → Text
  pub show_udp_addr : UdpAddr → Text

unfoldable pub pair : Text → Text → Text
pair key value = key ++ b' ' ∷ b'=' ∷ b' ' ∷ value

unfoldable pub optional : {A : Type 0} → Text → (A → Text) → Option A → List Text
optional key show none = []
optional key show (some a) = pair key (show a) ∷ []

unfoldable pub each : {A : Type 0} → Text → (A → Text) → List A → List Text
each key show [] = []
each key show (a ∷ as') = pair key (show a) ∷ each key show as'

-- a duration in seconds
unfoldable pub show_seconds : ℤ → Text
show_seconds (pos n) = show_number (n / 10 ^ 9)
show_seconds (negsuc n) = []

module _ (e : Encoders) where
  unfoldable pub peer_body : PeerConfig → List Text
  peer_body p =
      pair (codes "PublicKey") (e.show_key p.public_key)
      ∷ (optional (codes "PresharedKey") e.show_key p.preshared_key
          ++ (optional (codes "Endpoint") e.show_udp_addr p.endpoint
              ++ (optional (codes "PersistentKeepalive") show_seconds p.keepalive
                  ++ each (codes "AllowedIPs") show_net p.allowed_ips)))

  unfoldable pub print_peers : List PeerConfig → List Text
  print_peers [] = []
  print_peers (p ∷ ps) = codes "[Peer]" ∷ (peer_body p ++ print_peers ps)

  -- The lines of a configuration.
  unfoldable pub print_config : Config → List Text
  print_config c =
      codes "[Interface]"
      ∷ (optional (codes "PrivateKey") e.show_key c.wg.private_key
          ++ (optional (codes "ListenPort") show_int c.wg.listen_port
              ++ (optional (codes "FwMark") show_int c.wg.firewall_mark
                  ++ (each (codes "Address") show_net c.addresses
                      ++ (each (codes "DNS") show_ip c.dns ++ print_peers c.wg.peers)))))

abbrev pub OnSome : {A : Type 0} → (A → Type 0) → Option A → Type 0
OnSome P none = Unit
OnSome P (some a) = P a

abbrev pub IsPort : ℤ → Type 0
IsPort (pos n) = n ≤ 65535
IsPort (negsuc n) = ⊥

-- A number of whole seconds that a duration can hold.
abbrev pub IsSeconds : ℤ → Type 0
IsSeconds (pos n) = (n < 2 ^ 63) × (n % 10 ^ 9 ≡ 0)
IsSeconds (negsuc n) = ⊥

-- The parser's decoders read what the encoders write, in which there is no white space.
module _ (d : Decoders) (e : Encoders) where
  abbrev pub IsKey : Key → Type 0
  IsKey k = (d.parse_key (e.show_key k) ≡ some k) × IsSolid (e.show_key k)

  abbrev pub IsEndpoint : UdpAddr → Type 0
  IsEndpoint a = (d.resolve_udp_addr (e.show_udp_addr a) ≡ some a) × IsSolid (e.show_udp_addr a)

  pub record IsPeer (p : PeerConfig) : Type 0 where
    pub public_key_lem : IsKey p.public_key
    pub preshared_key_lem : OnSome IsKey p.preshared_key
    pub endpoint_lem : OnSome IsEndpoint p.endpoint
    pub keepalive_lem : OnSome IsSeconds p.keepalive
    pub allowed_ips_lem : All IsV4Net p.allowed_ips

  -- The configurations that a file can hold.
  pub record IsPrintable (c : Config) : Type 0 where
    pub private_key_lem : OnSome IsKey c.wg.private_key
    pub listen_port_lem : OnSome IsPort c.wg.listen_port
    pub firewall_mark_lem : OnSome IsInt c.wg.firewall_mark
    pub addresses_lem : All IsV4Net c.addresses
    pub dns_lem : All IsV4Mapped c.dns
    pub peers_lem : All IsPeer c.wg.peers
