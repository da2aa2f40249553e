-- ===== src/Wireguard/Parser.antt =====
-- internal/wireguard/parser.go: the parser of WireGuard configuration files. The decoder of keys
-- (wgtypes.ParseKey) and the resolver of endpoints (net.ResolveUDPAddr, which asks the DNS) are
-- parameters.
pub mod Lines
pub mod Invariant
pub mod Steps
pub mod Sound
pub mod Peers
pub mod Print
use gopher_cni.Prelude.{
  ℕ, ◌+◌, ◌*◌, ◌^◌, Bool, ◌&&◌, ◌||◌, Option, none, some, List, [], ◌∷◌, ◌++◌, ltb, if◌then◌else◌,
  Result, ok, err, ◌>>=◌, wrap,
}
use gopher_cni.Go.Text.{
  Text, codes, text_eq, is_empty, trim_space, cut, starts_with_code, ends_with_code, drop_first,
  drop_last, to_lower,
}
use gopher_cni.Go.Int.{ℤ, pos, negsuc, atoi, of_word}
use gopher_cni.Go.Lines.{scan}
use gopher_cni.Go.Ip.{Ip, IpNet, to4}
use gopher_cni.Utils.{ListError, parse_ip_or_cidr_list}
use gopher_cni.Wireguard.{Key, UdpAddr, PeerConfig, WgConfig, Config}

-- What the parser calls outside the repository; `none` is an error.
pub record Decoders : Type 0 where
  pub parse_key : Text → Option Key
  pub resolve_udp_addr : Text → Option UdpAddr

-- The errors of a line. The one of a list carries what ParseIPOrCIDRList found.
pub data LineError : Type 0 where
  invalid_format peer_outside_section : LineError
  unknown_section : Text → LineError
  invalid_private_key invalid_listen_port invalid_fwmark : LineError
  listen_port_out_of_range : ℤ → LineError
  invalid_address invalid_dns_server invalid_allowed_ip : ListError → LineError
  invalid_public_key invalid_preshared_key invalid_endpoint : LineError
  invalid_keepalive negative_keepalive : LineError

-- The errors of ParseConfig: one at a line, or one of the scanner.
pub data ParseError : Type 0 where
  at_line : ℕ → LineError → ParseError
  reading_config : ParseError

-- The variables of ParseConfig's loop.
pub record State : Type 0 where
  pub wg : WgConfig
  pub addresses : List IpNet
  pub dns : List Ip
  pub current_peer : Option PeerConfig
  pub section : Text

abbrev pub empty_wg : WgConfig
empty_wg = record { private_key = none; listen_port = none; firewall_mark = none; peers = [] }

abbrev pub initial : State
initial = record {
  wg = empty_wg;
  addresses = [];
  dns = [];
  current_peer = none;
  section = codes "";
}

-- &wgtypes.PeerConfig{}: the zero key is thirty-two zero bytes.
zeros : Key
zeros =
    0 ∷ 0 ∷ 0 ∷ 0 ∷ 0 ∷ 0 ∷ 0 ∷ 0 ∷ 0 ∷ 0 ∷ 0 ∷ 0 ∷ 0 ∷ 0 ∷ 0 ∷ 0 ∷ 0 ∷ 0 ∷ 0 ∷ 0 ∷ 0 ∷ 0 ∷ 0 ∷ 0
    ∷ 0 ∷ 0 ∷ 0 ∷ 0 ∷ 0 ∷ 0 ∷ 0 ∷ 0 ∷ []

pub empty_peer : PeerConfig
empty_peer = record {
  public_key = zeros;
  preshared_key = none;
  endpoint = none;
  keepalive = none;
  allowed_ips = [];
}

-- `err` where a call outside failed
abbrev or_else : {A : Type 0} → LineError → Option A → Result LineError A
or_else e none = err e
or_else e (some a) = ok a

-- the networks whose address has an IPv4 form
unfoldable pub v4_nets : List IpNet → List IpNet
v4_nets [] = []
v4_nets (n ∷ ns) = let rest = v4_nets ns in elim (to4 n.ip) [ none ↦ rest | some _ ↦ n ∷ rest ]

unfoldable pub net_ips : List IpNet → List Ip
net_ips [] = []
net_ips (n ∷ ns) = n.ip ∷ net_ips ns

unfoldable pub check_port : ℤ → Result LineError ℤ
check_port (pos n) = if ltb 65535 n then err (listen_port_out_of_range (pos n)) else ok (pos n)
check_port (negsuc n) = err (listen_port_out_of_range (negsuc n))

-- time.Duration(keepalive) * time.Second, which wraps around at sixty-four bits
unfoldable pub seconds : ℕ → ℤ
unfolding of_word
seconds n = of_word (n * 10 ^ 9)

unfoldable pub check_keepalive : ℤ → Result LineError ℤ
unfolding seconds
check_keepalive (pos n) = ok (seconds n)
check_keepalive (negsuc n) = err negative_keepalive

module _ (d : Decoders) where
  -- parseInterfaceKey
  unfoldable pub parse_interface_key : State → Text → Text → Result LineError State
  parse_interface_key s key value =
      let k = to_lower key in
      if text_eq k (codes "privatekey")
      then (do
        private_key ← or_else invalid_private_key (d.parse_key value)
        ok (record s { wg = record s.wg { private_key = some private_key } }))
      else if text_eq k (codes "listenport")
      then (do
        number ← or_else invalid_listen_port (atoi value)
        port ← check_port number
        ok (record s { wg = record s.wg { listen_port = some port } }))
      else if text_eq k (codes "fwmark")
      then (do
        fwmark ← or_else invalid_fwmark (atoi value)
        ok (record s { wg = record s.wg { firewall_mark = some fwmark } }))
      else if text_eq k (codes "address")
      then (do
        parsed ← wrap invalid_address (parse_ip_or_cidr_list value)
        ok (record s { addresses = s.addresses ++ v4_nets parsed }))
      else if text_eq k (codes "dns")
      then (do
        parsed ← wrap invalid_dns_server (parse_ip_or_cidr_list value)
        ok (record s { dns = s.dns ++ net_ips parsed }))
      else ok s

  -- parsePeerKey
  unfoldable pub parse_peer_key : PeerConfig → Text → Text → Result LineError PeerConfig
  parse_peer_key p key value =
      let k = to_lower key in
      if text_eq k (codes "publickey")
      then (do
        public_key ← or_else invalid_public_key (d.parse_key value)
        ok (record p { public_key = public_key }))
      else if text_eq k (codes "presharedkey")
      then (do
        preshared_key ← or_else invalid_preshared_key (d.parse_key value)
        ok (record p { preshared_key = some preshared_key }))
      else if text_eq k (codes "endpoint")
      then (do
        endpoint ← or_else invalid_endpoint (d.resolve_udp_addr value)
        ok (record p { endpoint = some endpoint }))
      else if text_eq k (codes "persistentkeepalive")
      then (do
        number ← or_else invalid_keepalive (atoi value)
        duration ← check_keepalive number
        ok (record p { keepalive = some duration }))
      else if text_eq k (codes "allowedips")
      then (do
        parsed ← wrap invalid_allowed_ip (parse_ip_or_cidr_list value)
        ok (record p { allowed_ips = p.allowed_ips ++ parsed }))
      else ok p

-- Save the current peer, if one is being built.
unfoldable pub save_peer : State → State
save_peer s = elim s.current_peer [
  | none ↦ s
  | some p ↦ record s { wg = record s.wg { peers = s.wg.peers ++ p ∷ [] }; current_peer = none }
]

-- the text between the brackets, in lower case
unfoldable pub section_name : Text → Text
section_name line = to_lower (trim_space (drop_last (drop_first line)))

unfoldable pub enter_section : State → Text → State
unfolding save_peer
enter_section s name =
    let saved = save_peer s in
    record saved {
      section = name;
      current_peer = if text_eq name (codes "peer") then some empty_peer else saved.current_peer;
    }

-- An empty line or a comment.
unfoldable pub is_skipped : Text → Bool
is_skipped line = is_empty line || starts_with_code b'#' line || starts_with_code b';' line

unfoldable pub is_header : Text → Bool
is_header line = starts_with_code b'[' line && ends_with_code b']' line

module _ (d : Decoders) where
  unfoldable pub peer_line : State → Option PeerConfig → Text → Text → Result LineError State
  peer_line s none key value = err peer_outside_section
  peer_line s (some p) key value = do
    p' ← parse_peer_key d p key value
    ok (record s { current_peer = some p' })

  -- A line `key = value` in the section that the parser is in.
  unfoldable pub parse_pair : State → Text → Text → Result LineError State
  parse_pair s key value =
      if text_eq s.section (codes "interface")
      then parse_interface_key d s key value
      else if text_eq s.section (codes "peer")
      then peer_line s s.current_peer key value
      else err (unknown_section s.section)

  unfoldable pub split_pair : State → Text × Option Text → Result LineError State
  split_pair s (key, none) = err invalid_format
  split_pair s (key, some value) = parse_pair s (trim_space key) (trim_space value)

  -- The body of the loop for one line that is trimmed.
  unfoldable pub parse_line : State → Text → Result LineError State
  parse_line s line =
      if is_skipped line
      then ok s
      else if is_header line
      then ok (enter_section s (section_name line))
      else split_pair s (cut b'=' line)

  -- The loop, from the line numbered `n + 1` on.
  unfoldable pub parse_lines : ℕ → State → List Text → Result ParseError State
  parse_lines n s [] = ok s
  parse_lines n s (line ∷ rest) = do
    s' ← wrap (at_line (n + 1)) (parse_line s (trim_space line))
    parse_lines (n + 1) s' rest

  unfoldable pub finish : Bool → State → Result ParseError Config
  unfolding save_peer
  finish too_long s =
      let last = save_peer s in
      if too_long
      then err reading_config
      else ok (record { wg = last.wg; addresses = last.addresses; dns = last.dns })

  -- ParseConfig
  unfoldable pub parse_config : Text → Result ParseError Config
  unfolding finish
  parse_config input = do
    s ← parse_lines 0 initial (scan input).lines
    finish (scan input).too_long s
