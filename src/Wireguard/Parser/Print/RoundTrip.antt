-- ===== src/Wireguard/Parser/Print/RoundTrip.antt =====
-- ParseConfig of internal/wireguard/parser.go on the file of a configuration.
use gopher_cni.Go.Int.Show.{show_int}
use gopher_cni.Go.Ip.{Ip, IpNet}
use gopher_cni.Go.ShowIp.{show_ip, show_net}
use gopher_cni.Go.Text.{
  Text, codes, drop_first, drop_last, ends_with_code, is_empty, is_space, lower_code,
  starts_with_code, text_eq, to_lower, trim_left, trim_right, trim_space,
}
use gopher_cni.Prelude.{
  All, List, [], ap, append-nil, append_assoc, false, none, ok, refl, sym, ◌++◌, ◌∙◌, ◌∷◌, ◌≡◌,
}
use gopher_cni.Wireguard.Parser.Print.Interface.{
  addresses_taken, dns_taken, firewall_mark_taken, interface_wg, listen_port_taken,
  private_key_taken, reading,
}
use gopher_cni.Wireguard.Parser.Print.Lines.{Takes, Takes-append, Takes-cons, Takes-nil}
use gopher_cni.Wireguard.Parser.Print.Peers.{in_peer, peer_body_taken}
use gopher_cni.Wireguard.Parser.Print.{
  Encoders, IsPeer, IsPrintable, each, optional, peer_body, print_config, print_peers,
}
use gopher_cni.Wireguard.Parser.{
  Decoders, State, empty_peer, empty_wg, enter_section, finish, initial, is_header, is_skipped,
  parse_line, parse_lines, save_peer, section_name,
}
use gopher_cni.Wireguard.{Config, PeerConfig, WgConfig}

module _ (d : Decoders) where
  header_taken :
      (st : State)
      → parse_line d st (trim_space (codes "[Peer]")) ≡ ok (enter_section st (codes "peer"))
  unfolding parse_line trim_space trim_left trim_right is_space codes is_empty is_skipped is_header
      starts_with_code ends_with_code section_name drop_first drop_last to_lower lower_code
  header_taken st = refl

  interface_taken :
      parse_line d initial (trim_space (codes "[Interface]")) ≡ ok (reading empty_wg [] [])
  unfolding parse_line trim_space trim_left trim_right is_space codes is_empty is_skipped is_header
      starts_with_code ends_with_code section_name drop_first drop_last to_lower lower_code
      enter_section save_peer text_eq
  interface_taken = refl

with_peers : WgConfig → List PeerConfig → WgConfig
with_peers w ps = record w { peers = w.peers ++ ps }

abbrev config_with : WgConfig → List IpNet → List Ip → Config
config_with w addresses dns = record { wg = w; addresses = addresses; dns = dns }

module _ (d : Decoders) (e : Encoders) (addresses : List IpNet) (dns : List Ip) where
  -- The loop takes the lines, and what it comes to is read as the configuration.
  Reads : List Text → State → Config → Type 0
  Reads lines s c = (s' : State) × Takes d lines s s' × (finish d false s' ≡ ok c)

  -- The peers behind one that is being read.
  more_peers :
      (w : WgConfig) (q : PeerConfig) (ps : List PeerConfig)
      → All (IsPeer d e) ps
      → Reads
          (print_peers e ps)
          (in_peer w addresses dns q)
          (config_with (with_peers w (q ∷ ps)) addresses dns)
  unfolding Reads print_peers finish save_peer with_peers enter_section text_eq codes
  more_peers w q [] h = let st = in_peer w addresses dns q in (st, Takes-nil d st, refl)
  more_peers w q (p ∷ ps) h =
      let st = in_peer w addresses dns q in
      let saved = with_peers w (q ∷ []) in
      let opened = in_peer saved addresses dns empty_peer in
      let (last, taken, read) = more_peers saved p ps h.1 in
      (
        last,
        Takes-cons d (codes "[Peer]") (peer_body e p ++ print_peers e ps) st opened last
            (header_taken d st)
            (Takes-append d (peer_body e p) (print_peers e ps) opened
              (in_peer saved addresses dns p) last (peer_body_taken d e saved addresses dns p h.0)
              taken),
        read
            ∙ ap
                (λ (all : List PeerConfig).
                  ok (config_with (record w { peers = all }) addresses dns))
                (append_assoc w.peers (q ∷ []) (p ∷ ps)),
      )

  peers_read :
      (w : WgConfig) (ps : List PeerConfig)
      → All (IsPeer d e) ps
      → Reads
          (print_peers e ps)
          (reading w addresses dns)
          (config_with (with_peers w ps) addresses dns)
  unfolding Reads print_peers finish save_peer with_peers enter_section text_eq codes
  peers_read w [] h =
      let st = reading w addresses dns in
      (
        st,
        Takes-nil d st,
        ap (λ (all : List PeerConfig). ok (config_with (record w { peers = all }) addresses dns))
            (sym (append-nil w.peers)),
      )
  peers_read w (p ∷ ps) h =
      let st = reading w addresses dns in
      let opened = in_peer w addresses dns empty_peer in
      let (last, taken, read) = more_peers w p ps h.1 in
      (
        last,
        Takes-cons d (codes "[Peer]") (peer_body e p ++ print_peers e ps) st opened last
            (header_taken d st)
            (Takes-append d (peer_body e p) (print_peers e ps) opened (in_peer w addresses dns p)
              last (peer_body_taken d e w addresses dns p h.0) taken),
        read,
      )

-- The loop takes the lines of a configuration, and what it comes to is that configuration.
pub print_config-Reads :
    (d : Decoders) (e : Encoders) (c : Config)
    → IsPrintable d e c
    → (s : State) × (parse_lines d 0 initial (print_config e c) ≡ ok s) × (finish d false s ≡ ok c)
unfolding print_config Reads with_peers parse_lines
print_config-Reads d e c h =
    let key_lines = optional (codes "PrivateKey") e.show_key c.wg.private_key in
    let port_lines = optional (codes "ListenPort") show_int c.wg.listen_port in
    let mark_lines = optional (codes "FwMark") show_int c.wg.firewall_mark in
    let address_lines = each (codes "Address") show_net c.addresses in
    let dns_lines = each (codes "DNS") show_ip c.dns in
    let peer_lines = print_peers e c.wg.peers in
    let keyed = interface_wg c.wg.private_key none none in
    let opened = interface_wg c.wg.private_key c.wg.listen_port none in
    let marked = interface_wg c.wg.private_key c.wg.listen_port c.wg.firewall_mark in
    let (s, peers, read) = peers_read d e c.addresses c.dns marked c.wg.peers h.peers_lem in
    let named =
      Takes-append d dns_lines peer_lines (reading marked c.addresses [])
        (reading marked c.addresses c.dns) s (dns_taken d e marked c.addresses [] c.dns h.dns_lem)
        peers in
    let addressed =
      Takes-append d address_lines (dns_lines ++ peer_lines) (reading marked [] [])
        (reading marked c.addresses []) s
        (addresses_taken d e marked [] c.addresses [] h.addresses_lem) named in
    let marks =
      Takes-append d mark_lines (address_lines ++ (dns_lines ++ peer_lines)) (reading opened [] [])
        (reading marked [] []) s
        (firewall_mark_taken d e c.wg.private_key c.wg.listen_port c.wg.firewall_mark
          h.firewall_mark_lem)
        addressed in
    let ports =
      Takes-append d port_lines (mark_lines ++ (address_lines ++ (dns_lines ++ peer_lines)))
        (reading keyed [] []) (reading opened [] []) s
        (listen_port_taken d e c.wg.private_key c.wg.listen_port h.listen_port_lem) marks in
    let keys =
      Takes-append d key_lines
        (port_lines ++ (mark_lines ++ (address_lines ++ (dns_lines ++ peer_lines))))
        (reading empty_wg [] []) (reading keyed [] []) s
        (private_key_taken d e c.wg.private_key h.private_key_lem) ports in
    let (m, taken) =
      Takes-cons d (codes "[Interface]")
        (key_lines ++ (port_lines ++ (mark_lines ++ (address_lines ++ (dns_lines ++ peer_lines)))))
        initial (reading empty_wg [] []) s (interface_taken d) keys 0 [] in
    (s, ap (parse_lines d 0 initial) (sym (append-nil (print_config e c))) ∙ taken, read)
