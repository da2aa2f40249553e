-- ===== src/Wireguard/Parser/Print/Interface.antt =====
-- The printed lines of the [Interface] section, taken by the loop of ParseConfig.
use gopher_cni.Go.Int.Show.{IsInt, atoi-show_int, show_int, show_int-IsSolid}
use gopher_cni.Go.Int.{negsuc, pos, ℤ}
use gopher_cni.Go.Ip.{Ip, IpNet, to4}
use gopher_cni.Go.ShowIp.{show_ip, show_net}
use gopher_cni.Go.Text.{codes, is_empty, lower_code, text_eq, to_lower}
use gopher_cni.Prelude.{
  All, List, Option, [], append-nil, append_assoc, arith, false, ltb, none, ok, refl, some, subst,
  sym, ◌++◌, ◌∙◌, ◌∷◌, ◌≡◌,
}
use gopher_cni.Utils.Printed.{
  IsV4Mapped, IsV4Net, parse_ip_or_cidr_list-show_ip, parse_ip_or_cidr_list-show_net,
  show_ip-IsSolid, show_net-IsSolid, v4_net,
}
use gopher_cni.Wireguard.Parser.Print.Lines.{
  Takes, Takes-cons, Takes-nil, Takes-one, is_letter, is_word, parse_line-pair,
}
use gopher_cni.Wireguard.Parser.Print.{Encoders, IsKey, IsPort, OnSome, each, optional, pair}
use gopher_cni.Wireguard.Parser.{
  Decoders, State, check_port, empty_wg, net_ips, parse_interface_key, parse_pair, v4_nets,
}
use gopher_cni.Wireguard.{Key, WgConfig}

-- The state of the parser in the first section.
abbrev pub reading : WgConfig → List IpNet → List Ip → State
reading w addresses dns = record {
  wg = w;
  addresses = addresses;
  dns = dns;
  current_peer = none;
  section = codes "interface";
}

abbrev pub interface_wg : Option Key → Option ℤ → Option ℤ → WgConfig
interface_wg k port mark = record {
  private_key = k;
  listen_port = port;
  firewall_mark = mark;
  peers = [];
}

check_port-IsPort : (z : ℤ) → IsPort z → check_port z ≡ ok z
unfolding check_port
check_port-IsPort (pos n) le = let small : ltb 65535 n ≡ false = ground arith in rw small refl
check_port-IsPort (negsuc _) le = elim le [ ]

IsPort-IsInt : (z : ℤ) → IsPort z → IsInt z
IsPort-IsInt (pos n) le = omega arith
IsPort-IsInt (negsuc _) le = elim le [ ]

module _ (d : Decoders) (e : Encoders) where
  pub private_key_taken :
      (o : Option Key)
      → OnSome (IsKey d e) o
      → Takes d
          (optional (codes "PrivateKey") e.show_key o)
          (reading empty_wg [] [])
          (reading (interface_wg o none none) [] [])
  unfolding optional parse_pair parse_interface_key text_eq to_lower lower_code codes is_word
      is_letter is_empty
  private_key_taken none h = Takes-nil d (reading empty_wg [] [])
  private_key_taken (some k) h =
      let st = reading empty_wg [] [] in
      Takes-one d _ st (reading (interface_wg (some k) none none) [] [])
        (parse_line-pair d st (codes "PrivateKey") (e.show_key k) refl refl h.1 ∙ rw h.0 refl)

  pub listen_port_taken :
      (k : Option Key) (o : Option ℤ)
      → OnSome IsPort o
      → Takes d
          (optional (codes "ListenPort") show_int o)
          (reading (interface_wg k none none) [] [])
          (reading (interface_wg k o none) [] [])
  unfolding optional parse_pair parse_interface_key text_eq to_lower lower_code codes is_word
      is_letter is_empty
  listen_port_taken k none h = Takes-nil d (reading (interface_wg k none none) [] [])
  listen_port_taken k (some z) h =
      let st = reading (interface_wg k none none) [] [] in
      Takes-one d _ st (reading (interface_wg k (some z) none) [] []) (
        parse_line-pair d st (codes "ListenPort") (show_int z) refl refl (show_int-IsSolid z)
        ∙ rw (atoi-show_int z (IsPort-IsInt z h), check_port-IsPort z h) refl)

  pub firewall_mark_taken :
      (k : Option Key) (port o : Option ℤ)
      → OnSome IsInt o
      → Takes d
          (optional (codes "FwMark") show_int o)
          (reading (interface_wg k port none) [] [])
          (reading (interface_wg k port o) [] [])
  unfolding optional parse_pair parse_interface_key text_eq to_lower lower_code codes is_word
      is_letter is_empty
  firewall_mark_taken k port none h = Takes-nil d (reading (interface_wg k port none) [] [])
  firewall_mark_taken k port (some z) h =
      let st = reading (interface_wg k port none) [] [] in
      Takes-one d _ st (reading (interface_wg k port (some z)) [] []) (
        parse_line-pair d st (codes "FwMark") (show_int z) refl refl (show_int-IsSolid z)
        ∙ rw (atoi-show_int z h) refl)

  v4_nets-one : (n : IpNet) → IsV4Net n → v4_nets (n ∷ []) ≡ n ∷ []
  unfolding v4_nets to4
  v4_nets-one n (v4_net a ones lt le same) = refl

  pub addresses_taken :
      (w : WgConfig) (read ns : List IpNet) (dns : List Ip)
      → All IsV4Net ns
      → Takes d
          (each (codes "Address") show_net ns)
          (reading w read dns)
          (reading w (read ++ ns) dns)
  unfolding each parse_pair parse_interface_key text_eq to_lower lower_code codes is_word is_letter
      is_empty
  addresses_taken w read [] dns h =
      subst (λ (ns : List IpNet). Takes d [] (reading w read dns) (reading w ns dns))
        (sym (append-nil read)) (Takes-nil d (reading w read dns))
  addresses_taken w read (n ∷ ns) dns h =
      let st = reading w read dns in
      let next = reading w (read ++ n ∷ []) dns in
      let step : parse_pair d st (codes "Address") (show_net n) ≡ ok next =
        rw (parse_ip_or_cidr_list-show_net n h.0, v4_nets-one n h.0) refl in
      subst
        (λ (all : List IpNet).
          Takes d (each (codes "Address") show_net (n ∷ ns)) st (reading w all dns))
        (append_assoc read (n ∷ []) ns)
        (Takes-cons d (pair (codes "Address") (show_net n)) (each (codes "Address") show_net ns) st
          next (reading w ((read ++ n ∷ []) ++ ns) dns)
          (parse_line-pair d st (codes "Address") (show_net n) refl refl (show_net-IsSolid n h.0)
            ∙ step)
          (addresses_taken w (read ++ n ∷ []) ns dns h.1))

  pub dns_taken :
      (w : WgConfig) (addresses : List IpNet) (read ips : List Ip)
      → All IsV4Mapped ips
      → Takes d
          (each (codes "DNS") show_ip ips)
          (reading w addresses read)
          (reading w addresses (read ++ ips))
  unfolding each parse_pair parse_interface_key text_eq to_lower lower_code codes is_word is_letter
      is_empty net_ips
  dns_taken w addresses read [] h =
      subst (λ (ips : List Ip). Takes d [] (reading w addresses read) (reading w addresses ips))
        (sym (append-nil read)) (Takes-nil d (reading w addresses read))
  dns_taken w addresses read (ip ∷ ips) h =
      let st = reading w addresses read in
      let next = reading w addresses (read ++ ip ∷ []) in
      let step : parse_pair d st (codes "DNS") (show_ip ip) ≡ ok next =
        rw (parse_ip_or_cidr_list-show_ip ip h.0) refl in
      subst
        (λ (all : List Ip).
          Takes d (each (codes "DNS") show_ip (ip ∷ ips)) st (reading w addresses all))
        (append_assoc read (ip ∷ []) ips)
        (Takes-cons d (pair (codes "DNS") (show_ip ip)) (each (codes "DNS") show_ip ips) st next
          (reading w addresses ((read ++ ip ∷ []) ++ ips))
          (parse_line-pair d st (codes "DNS") (show_ip ip) refl refl (show_ip-IsSolid ip h.0)
            ∙ step)
          (dns_taken w addresses (read ++ ip ∷ []) ips h.1))
