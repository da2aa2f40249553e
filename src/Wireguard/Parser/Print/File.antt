-- ===== src/Wireguard/Parser/Print/File.antt =====
-- The file of a configuration: the scanner of ParseConfig hands out the lines that were printed.
use gopher_cni.Go.Int.Show.{IsInt, show_int, show_int-IsSolid}
use gopher_cni.Go.Lines.File.{IsClean, IsShort, file_of, scan-file_of}
use gopher_cni.Go.ShowIp.{show_ip, show_net}
use gopher_cni.Go.Text.Trim.{IsSolid, are_solid}
use gopher_cni.Go.Text.{Text, codes, contains_code, ends_with_code, is_empty, is_space}
use gopher_cni.Prelude.{
  All, All-append, List, Option, [], and-true, arith, false, none, not, ok, refl, some, true, ℕ,
  ◌++◌, ◌==◌, ◌∷◌, ◌≡◌, ◌∙◌,
}
use gopher_cni.Utils.Printed.{IsV4Mapped, IsV4Net, show_ip-IsSolid, show_net-IsSolid}
use gopher_cni.Wireguard.Parser.Print.Peers.{show_seconds-IsSolid}
use gopher_cni.Wireguard.Parser.Print.RoundTrip.{print_config-Reads}
use gopher_cni.Wireguard.Parser.Print.{
  Encoders, IsEndpoint, IsKey, IsPeer, IsPort, IsPrintable, IsSeconds, OnSome, each, optional, pair,
  peer_body, print_config, print_peers, show_seconds,
}
use gopher_cni.Wireguard.Parser.{Decoders, parse_config}
use gopher_cni.Wireguard.{Config, PeerConfig}

solid_other : (c : ℕ) → not (is_space c) ≡ true → ((c == b'\n') ≡ false) × ((c == b'\r') ≡ false)
unfolding is_space
solid_other c h = (ground (arith, h), ground (arith, h))

solid_no_newline : (s : Text) → are_solid s ≡ true → contains_code b'\n' s ≡ false
unfolding are_solid contains_code
solid_no_newline [] h = refl
solid_no_newline (c ∷ s) h =
    let p = and-true (not (is_space c)) (are_solid s) h in
    rw (solid_no_newline s p.1, (solid_other c p.0).0) refl

solid_no_return : (s : Text) → are_solid s ≡ true → ends_with_code b'\r' s ≡ false
unfolding are_solid ends_with_code
solid_no_return [] h = refl
solid_no_return (c ∷ []) h = (solid_other c (and-true (not (is_space c)) true h).0).1
solid_no_return (c ∷ x ∷ s) h =
    solid_no_return (x ∷ s) (and-true (not (is_space c)) (are_solid (x ∷ s)) h).1

no_newline-append :
    (s t : Text)
    → contains_code b'\n' s ≡ false
    → contains_code b'\n' t ≡ false
    → contains_code b'\n' (s ++ t) ≡ false
unfolding contains_code
no_newline-append [] t h k = k
no_newline-append (c ∷ s) t h k = ground (arith, no_newline-append s t, h, k)

ends_with-append :
    (c : ℕ) (s t : Text) → is_empty t ≡ false → ends_with_code c (s ++ t) ≡ ends_with_code c t
unfolding ends_with_code is_empty
ends_with-append c [] t full = refl
ends_with-append c (x ∷ []) [] full = cc
ends_with-append c (x ∷ []) (y ∷ t) full = refl
ends_with-append c (x ∷ y ∷ s) t full = ends_with-append c (y ∷ s) t full

pair-IsClean :
    (key value : Text) → contains_code b'\n' key ≡ false → IsSolid value → IsClean (pair key value)
unfolding pair contains_code is_empty ends_with_code
pair-IsClean key value clean solid =
    let behind = b' ' ∷ b'=' ∷ b' ' ∷ [] in
    (
      no_newline-append key (behind ++ value) clean (solid_no_newline value solid.0),
      ends_with-append b'\r' key (behind ++ value) refl
          ∙ ends_with-append b'\r' behind value solid.1
          ∙ solid_no_return value solid.0,
    )

optional-IsClean :
    {A : Type 0} (P : A → Type 0) (key : Text) (show : A → Text) (o : Option A)
    → contains_code b'\n' key ≡ false
    → ((a : A) → P a → IsSolid (show a))
    → OnSome P o
    → All IsClean (optional key show o)
unfolding optional
optional-IsClean P key show none clean solid h = tt
optional-IsClean P key show (some a) clean solid h =
    (pair-IsClean key (show a) clean (solid a h), tt)

each-IsClean :
    {A : Type 0} (P : A → Type 0) (key : Text) (show : A → Text) (as' : List A)
    → contains_code b'\n' key ≡ false
    → ((a : A) → P a → IsSolid (show a))
    → All P as'
    → All IsClean (each key show as')
unfolding each
each-IsClean P key show [] clean solid h = tt
each-IsClean P key show (a ∷ as') clean solid h =
    (pair-IsClean key (show a) clean (solid a h.0), each-IsClean P key show as' clean solid h.1)

module _ (d : Decoders) (e : Encoders) where
  peer_body-IsClean : (p : PeerConfig) → IsPeer d e p → All IsClean (peer_body e p)
  unfolding peer_body contains_code codes
  peer_body-IsClean p h = (
    pair-IsClean (codes "PublicKey") (e.show_key p.public_key) refl h.public_key_lem.1,
    All-append IsClean _ _
        (optional-IsClean (IsKey d e) (codes "PresharedKey") e.show_key p.preshared_key refl
          (λ k good. good.1) h.preshared_key_lem)
        (All-append IsClean _ _
          (optional-IsClean (IsEndpoint d e) (codes "Endpoint") e.show_udp_addr p.endpoint refl
            (λ a good. good.1) h.endpoint_lem)
          (All-append IsClean _ _
            (optional-IsClean IsSeconds (codes "PersistentKeepalive") show_seconds p.keepalive refl
              show_seconds-IsSolid h.keepalive_lem)
            (each-IsClean IsV4Net (codes "AllowedIPs") show_net p.allowed_ips refl show_net-IsSolid
              h.allowed_ips_lem))),
  )

  print_peers-IsClean :
      (ps : List PeerConfig) → All (IsPeer d e) ps → All IsClean (print_peers e ps)
  unfolding print_peers contains_code codes ends_with_code
  print_peers-IsClean [] h = tt
  print_peers-IsClean (p ∷ ps) h = (
    (refl, refl),
    All-append IsClean (peer_body e p) (print_peers e ps) (peer_body-IsClean p h.0)
        (print_peers-IsClean ps h.1),
  )

  print_config-IsClean : (c : Config) → IsPrintable d e c → All IsClean (print_config e c)
  unfolding print_config contains_code codes ends_with_code
  print_config-IsClean c h = (
    (refl, refl),
    All-append IsClean _ _
        (optional-IsClean (IsKey d e) (codes "PrivateKey") e.show_key c.wg.private_key refl
          (λ k good. good.1) h.private_key_lem)
        (All-append IsClean _ _
          (optional-IsClean IsPort (codes "ListenPort") show_int c.wg.listen_port refl
            (λ z _. show_int-IsSolid z) h.listen_port_lem)
          (All-append IsClean _ _
            (optional-IsClean IsInt (codes "FwMark") show_int c.wg.firewall_mark refl
              (λ z _. show_int-IsSolid z) h.firewall_mark_lem)
            (All-append IsClean _ _
              (each-IsClean IsV4Net (codes "Address") show_net c.addresses refl show_net-IsSolid
                h.addresses_lem)
              (All-append IsClean _ _
                (each-IsClean IsV4Mapped (codes "DNS") show_ip c.dns refl show_ip-IsSolid h.dns_lem)
                (print_peers-IsClean c.wg.peers h.peers_lem))))),
  )

  -- A configuration that a file can hold is read back from its file: ParseConfig returns it, where
  -- every line of the file is shorter than the scanner's limit.
  pub parse_config-print_config :
      (c : Config)
      → IsPrintable d e c
      → All IsShort (print_config e c)
      → parse_config d (file_of (print_config e c)) ≡ ok c
  unfolding parse_config
  parse_config-print_config c h short =
      let scanned = scan-file_of (print_config e c) (print_config-IsClean c h) short in
      let (s, taken, read) = print_config-Reads d e c h in rw (scanned, taken) read
