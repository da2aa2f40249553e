-- ===== src/Examples/Printing.antt =====
-- A configuration with a peer, its file, and the file parsed again.
use gopher_cni.Examples.Fixtures.{decoders, endpoint, protected, split_net}
use gopher_cni.Go.Int.{negsuc, pos}
use gopher_cni.Go.Int.Show.{show_int, show_number}
use gopher_cni.Go.Ip.{ip16, masked, prefix}
use gopher_cni.Go.Lines.File.{file_of}
use gopher_cni.Go.Lines.{byte_length}
use gopher_cni.Go.ShowIp.{show_ip, show_net}
use gopher_cni.Go.Text.Trim.{are_solid}
use gopher_cni.Go.Text.{codes, is_empty, is_space}
use gopher_cni.Prelude.{[], arith, ok, refl, some, ◌∷◌, ◌≡◌}
use gopher_cni.Utils.Printed.{IsV4Mapped, IsV4Net, v4_mapped, v4_net}
use gopher_cni.Wireguard.Parser.Print.File.{parse_config-print_config}
use gopher_cni.Wireguard.Parser.Print.{
  Encoders, IsPeer, IsPrintable, each, optional, pair, peer_body, print_config, print_peers,
  show_seconds,
}
use gopher_cni.Wireguard.Parser.{parse_config}
use gopher_cni.Wireguard.{Config, PeerConfig}

abbrev encoders : Encoders
encoders = record { show_key = λ k. k; show_udp_addr = λ a. codes "1.2.3.4:51820" }

abbrev full_peer : PeerConfig
full_peer = record {
  public_key = codes "cGVlcg==";
  preshared_key = some (codes "c2hhcmVk");
  endpoint = some endpoint;
  keepalive = some (pos 25000000000);
  allowed_ips = split_net ∷ protected ∷ [];
}

abbrev full_config : Config
full_config = record {
  wg = record {
    private_key = some (codes "cHJpdmF0ZQ==");
    listen_port = some (pos 51820);
    firewall_mark = some (negsuc 6);
    peers = full_peer ∷ [];
  };
  addresses = protected ∷ [];
  dns = ip16 281470682333185 ∷ [];
}

protected-IsV4Net : IsV4Net protected
unfolding masked prefix
protected-IsV4Net = v4_net 168296448 24 (omega arith) (omega arith) refl

split_net-IsV4Net : IsV4Net split_net
unfolding masked prefix
split_net-IsV4Net = v4_net 167772160 8 (omega arith) (omega arith) refl

full_peer-IsPeer : IsPeer decoders encoders full_peer
unfolding are_solid is_space is_empty codes
full_peer-IsPeer = record {
  public_key_lem = (refl, (refl, refl));
  preshared_key_lem = (refl, (refl, refl));
  endpoint_lem = (refl, (refl, refl));
  keepalive_lem = (omega arith, refl);
  allowed_ips_lem = (split_net-IsV4Net, (protected-IsV4Net, tt));
}

dns-IsV4Mapped : IsV4Mapped (ip16 281470682333185)
dns-IsV4Mapped = v4_mapped 589825 (omega arith)

full_config-IsPrintable : IsPrintable decoders encoders full_config
unfolding are_solid is_space is_empty codes
full_config-IsPrintable = record {
  private_key_lem = (refl, (refl, refl));
  listen_port_lem = omega arith;
  firewall_mark_lem = omega arith;
  addresses_lem = (protected-IsV4Net, tt);
  dns_lem = (dns-IsV4Mapped, tt);
  peers_lem = (full_peer-IsPeer, tt);
}

parse_config-print_config_example :
    parse_config decoders (file_of (print_config encoders full_config)) ≡ ok full_config
unfolding print_config print_peers peer_body each optional pair byte_length codes show_int
    show_number show_ip show_net show_seconds
parse_config-print_config_example =
    parse_config-print_config decoders encoders full_config full_config-IsPrintable (
      refl,
      (
        refl,
        (refl, (refl, (refl, (refl, (refl, (refl, (refl, (refl, (refl, (refl, (refl, tt))))))))))),
      ),
    )
