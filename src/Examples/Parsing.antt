-- ===== src/Examples/Parsing.antt =====
-- Addresses as texts, and the parser of internal/wireguard/parser.go on a small file.
use gopher_cni.Examples.Fixtures.{protected, decoders, endpoint, wg_conf}
use gopher_cni.Go.Ip.{contains4, ip16, to4, v6}
use gopher_cni.Go.Lines.{scan}
use gopher_cni.Go.ParseIp.{parse_ip, parse_cidr, parse_addr}
use gopher_cni.Go.ShowIp.{show_ip}
use gopher_cni.Go.Text.{
  contains_code, text_eq, starts_with_code, ends_with_code, drop_first, to_lower, Text, codes, cut,
  trim_space,
}
use gopher_cni.Prelude.{[], All, List, err, length, none, ok, refl, some, ◌*◌, ◌+◌, ◌^◌, ◌∷◌, ◌≡◌}
use gopher_cni.Utils.{parse_token, parse_ip_or_cidr_list}
use gopher_cni.Wireguard.{Config}
use gopher_cni.Wireguard.Parser.{
  at_line, empty_peer, enter_section, initial, invalid_format, is_header, is_skipped, net_ips,
  parse_config, parse_interface_key, parse_line, parse_lines, parse_pair, parse_peer_key, peer_line,
  save_peer, section_name, split_pair, v4_nets,
}
use gopher_cni.Wireguard.Parser.Invariant.{HasV4, PortInRange}
use gopher_cni.Wireguard.Parser.Lines.{
  FailsAt, counted_lines, parse_lines-FailsAt, parse_lines-counted_lines, unnumbered,
}
use gopher_cni.Wireguard.Parser.Peers.{parse_config-peers, peer_headers}
use gopher_cni.Wireguard.Parser.Sound.{parse_config_bounds}

parse_addr_v6 : parse_addr (codes "fd00::1") ≡ some (v6 (0xfd00 * 2 ^ 112 + 1))
unfolding parse_addr codes
parse_addr_v6 = refl

parse_addr_v4_in_v6 :
    parse_addr (codes "1:2:3:4:5:6:1.2.3.4") ≡ some (v6 0x00010002000300040005000601020304)
unfolding parse_addr codes
parse_addr_v4_in_v6 = refl

parse_addr_zero_led : parse_addr (codes "1.2.3.04") ≡ none
unfolding parse_addr codes
parse_addr_zero_led = refl

show_ip_longest_run : show_ip (ip16 0x00010002000000040000000000000008) ≡ codes "1:2:0:4::8"
unfolding show_ip codes
show_ip_longest_run = refl

trim_space_both : trim_space (codes "  a b \t") ≡ codes "a b"
unfolding trim_space codes
trim_space_both = refl

abbrev pub parsed : Config
parsed = record {
  wg = record {
    private_key = none;
    listen_port = none;
    firewall_mark = none;
    peers = record empty_peer { endpoint = some endpoint } ∷ [];
  };
  addresses = protected ∷ [];
  dns = ip16 (0xffff * 2 ^ 32 + 168296449) ∷ [];
}

pub parse_config-wg_conf : parse_config decoders wg_conf ≡ ok parsed
unfolding parse_config parse_lines parse_line split_pair parse_pair parse_interface_key peer_line
    parse_peer_key enter_section save_peer section_name v4_nets net_ips parse_ip_or_cidr_list scan
    codes trim_space cut is_skipped is_header starts_with_code ends_with_code contains4 to4 text_eq
    to_lower drop_first parse_token contains_code parse_cidr parse_ip
parse_config-wg_conf = refl

parse_config-peers_example : length parsed.wg.peers ≡ peer_headers (scan wg_conf).lines
parse_config-peers_example = parse_config-peers decoders wg_conf parsed parse_config-wg_conf

parse_config_bounds_example : All HasV4 parsed.addresses × PortInRange parsed.wg.listen_port
parse_config_bounds_example = parse_config_bounds decoders wg_conf parsed parse_config-wg_conf

abbrev bad_lines : List Text
bad_lines = codes "# none" ∷ codes "[Peer]" ∷ codes "Endpoint" ∷ codes "x" ∷ []

bad_lines-refused : parse_lines decoders 0 initial bad_lines ≡ err (at_line 3 invalid_format)
unfolding parse_lines parse_line split_pair enter_section save_peer section_name codes trim_space
    cut is_skipped is_header starts_with_code ends_with_code
bad_lines-refused = refl

parse_lines-FailsAt_example : FailsAt decoders 0 initial bad_lines 3 invalid_format
parse_lines-FailsAt_example =
    parse_lines-FailsAt decoders 0 initial bad_lines 3 invalid_format bad_lines-refused

parse_lines-counted_lines_example :
    unnumbered (parse_lines decoders 0 initial bad_lines)
    ≡ unnumbered (parse_lines decoders 0 initial (counted_lines bad_lines))
parse_lines-counted_lines_example = parse_lines-counted_lines decoders 0 0 initial bad_lines
