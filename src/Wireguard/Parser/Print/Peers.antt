-- ===== src/Wireguard/Parser/Print/Peers.antt =====
-- The printed lines of a [Peer] section, taken by the loop of ParseConfig.
use gopher_cni.Go.Int.Show.{atoi-show_number, show_number, show_number-full, show_number-plain}
use gopher_cni.Go.Int.{atoi, negsuc, of_word, pos, ℤ}
use gopher_cni.Go.Ip.{Ip, IpNet}
use gopher_cni.Go.ShowIp.{show_net}
use gopher_cni.Go.Text.Plain.{are_plain-IsSolid}
use gopher_cni.Go.Text.Trim.{IsSolid}
use gopher_cni.Go.Text.{Text, codes, is_empty, lower_code, text_eq, to_lower}
use gopher_cni.Prelude.{
  false, All, List, Option, [], ap, append-nil, append_assoc, arith, ltb, none, ok, refl, some,
  subst, sym, true, ℕ, ◌%◌, ◌*◌, ◌++◌, ◌/◌, ◌<◌, ◌^◌, ◌∙◌, ◌∷◌, ◌≡◌,
}
use gopher_cni.Utils.Printed.{IsV4Net, parse_ip_or_cidr_list-show_net, show_net-IsSolid}
use gopher_cni.Wireguard.Parser.Print.Lines.{
  Takes, Takes-append, Takes-nil, Takes-one, is_letter, is_word, parse_line-pair,
}
use gopher_cni.Wireguard.Parser.Print.{
  Encoders, IsEndpoint, IsKey, IsPeer, IsSeconds, OnSome, each, optional, pair, peer_body,
  show_seconds,
}
use gopher_cni.Wireguard.Parser.{
  Decoders, State, check_keepalive, empty_peer, parse_pair, parse_peer_key, peer_line, seconds,
}
use gopher_cni.Wireguard.{Key, PeerConfig, UdpAddr, WgConfig}

-- The state of the parser in the section of a peer.
abbrev pub in_peer : WgConfig → List IpNet → List Ip → PeerConfig → State
in_peer w addresses dns p = record {
  wg = w;
  addresses = addresses;
  dns = dns;
  current_peer = some p;
  section = codes "peer";
}

-- A duration of whole seconds is read back from its print.
pub show_seconds-IsSolid : (z : ℤ) → IsSeconds z → IsSolid (show_seconds z)
unfolding show_seconds
show_seconds-IsSolid (pos n) h =
    let s = n / 10 ^ 9 in
    are_plain-IsSolid (show_number s) (show_number-plain s) (show_number-full s)
show_seconds-IsSolid (negsuc n) h = elim h [ ]

seconds_of : (n : ℕ) → n < 2 ^ 63 → n % 10 ^ 9 ≡ 0 → seconds (n / 10 ^ 9) ≡ pos n
unfolding seconds of_word
seconds_of n lt whole =
    let back : n / 10 ^ 9 * 10 ^ 9 % 2 ^ 64 ≡ n = omega (arith, whole, lt) in
    let small : ltb n (2 ^ 63) ≡ true = ground arith in rw (back, small) refl

keepalive_read :
    (z : ℤ) → IsSeconds z → (n : ℤ) × (atoi (show_seconds z) ≡ some n) × (check_keepalive n ≡ ok z)
unfolding show_seconds check_keepalive
keepalive_read (pos n) h = (
  pos (n / 10 ^ 9),
  atoi-show_number (n / 10 ^ 9) (omega (arith, h.0)),
  ap ok (seconds_of n h.0 h.1),
)
keepalive_read (negsuc n) h = elim h [ ]

module _ (d : Decoders) (e : Encoders) (w : WgConfig) (addresses : List IpNet) (dns : List Ip) where
  peer_taken :
      (p p' : PeerConfig) (key value : Text)
      → is_word key ≡ true
      → is_empty key ≡ false
      → IsSolid value
      → parse_peer_key d p key value ≡ ok p'
      → Takes d (pair key value ∷ []) (in_peer w addresses dns p) (in_peer w addresses dns p')
  unfolding parse_pair peer_line text_eq codes
  peer_taken p p' key value word full solid step =
      let st = in_peer w addresses dns p in
      Takes-one d (pair key value) st (in_peer w addresses dns p')
        (parse_line-pair d st key value word full solid ∙ rw step refl)

  public_key_taken :
      (k : Key)
      → IsKey d e k
      → Takes d
          (pair (codes "PublicKey") (e.show_key k) ∷ [])
          (in_peer w addresses dns empty_peer)
          (in_peer w addresses dns (record empty_peer { public_key = k }))
  unfolding parse_peer_key text_eq to_lower lower_code codes is_word is_letter is_empty
  public_key_taken k h =
      peer_taken empty_peer (record empty_peer { public_key = k }) (codes "PublicKey")
        (e.show_key k) refl refl h.1 (rw h.0 refl)

  preshared_key_taken :
      (p : PeerConfig) (o : Option Key)
      → p.preshared_key ≡ none
      → OnSome (IsKey d e) o
      → Takes d
          (optional (codes "PresharedKey") e.show_key o)
          (in_peer w addresses dns p)
          (in_peer w addresses dns (record p { preshared_key = o }))
  unfolding optional parse_peer_key text_eq to_lower lower_code codes is_word is_letter is_empty
  preshared_key_taken p none unset h =
      subst
        (λ (o : Option Key).
          Takes d [] (in_peer w addresses dns p)
            (in_peer w addresses dns (record p { preshared_key = o })))
        unset (Takes-nil d (in_peer w addresses dns p))
  preshared_key_taken p (some k) unset h =
      peer_taken p (record p { preshared_key = some k }) (codes "PresharedKey") (e.show_key k) refl
        refl h.1 (rw h.0 refl)

  endpoint_taken :
      (p : PeerConfig) (o : Option UdpAddr)
      → p.endpoint ≡ none
      → OnSome (IsEndpoint d e) o
      → Takes d
          (optional (codes "Endpoint") e.show_udp_addr o)
          (in_peer w addresses dns p)
          (in_peer w addresses dns (record p { endpoint = o }))
  unfolding optional parse_peer_key text_eq to_lower lower_code codes is_word is_letter is_empty
  endpoint_taken p none unset h =
      subst
        (λ (o : Option UdpAddr).
          Takes d [] (in_peer w addresses dns p)
            (in_peer w addresses dns (record p { endpoint = o })))
        unset (Takes-nil d (in_peer w addresses dns p))
  endpoint_taken p (some a) unset h =
      peer_taken p (record p { endpoint = some a }) (codes "Endpoint") (e.show_udp_addr a) refl refl
        h.1 (rw h.0 refl)

  keepalive_taken :
      (p : PeerConfig) (o : Option ℤ)
      → p.keepalive ≡ none
      → OnSome IsSeconds o
      → Takes d
          (optional (codes "PersistentKeepalive") show_seconds o)
          (in_peer w addresses dns p)
          (in_peer w addresses dns (record p { keepalive = o }))
  unfolding optional parse_peer_key text_eq to_lower lower_code codes is_word is_letter is_empty
  keepalive_taken p none unset h =
      subst
        (λ (o : Option ℤ).
          Takes d [] (in_peer w addresses dns p)
            (in_peer w addresses dns (record p { keepalive = o })))
        unset (Takes-nil d (in_peer w addresses dns p))
  keepalive_taken p (some z) unset h =
      let (n, read, checked) = keepalive_read z h in
      peer_taken p (record p { keepalive = some z }) (codes "PersistentKeepalive") (show_seconds z)
        refl refl (show_seconds-IsSolid z h) (rw (read, checked) refl)

  allowed_ips_taken :
      (p : PeerConfig) (read ns : List IpNet)
      → All IsV4Net ns
      → Takes d
          (each (codes "AllowedIPs") show_net ns)
          (in_peer w addresses dns (record p { allowed_ips = read }))
          (in_peer w addresses dns (record p { allowed_ips = read ++ ns }))
  unfolding each parse_peer_key text_eq to_lower lower_code codes is_word is_letter is_empty
  allowed_ips_taken p read [] h =
      let st = in_peer w addresses dns (record p { allowed_ips = read }) in
      subst
        (λ (ns : List IpNet).
          Takes d [] st (in_peer w addresses dns (record p { allowed_ips = ns })))
        (sym (append-nil read)) (Takes-nil d st)
  allowed_ips_taken p read (n ∷ ns) h =
      let st = in_peer w addresses dns (record p { allowed_ips = read }) in
      let next = in_peer w addresses dns (record p { allowed_ips = read ++ n ∷ [] }) in
      let line = pair (codes "AllowedIPs") (show_net n) in
      let one : Takes d (line ∷ []) st next =
        peer_taken (record p { allowed_ips = read }) (record p { allowed_ips = read ++ n ∷ [] })
          (codes "AllowedIPs") (show_net n) refl refl (show_net-IsSolid n h.0)
          (rw (parse_ip_or_cidr_list-show_net n h.0) refl) in
      subst
        (λ (all : List IpNet).
          Takes d (each (codes "AllowedIPs") show_net (n ∷ ns)) st
            (in_peer w addresses dns (record p { allowed_ips = all })))
        (append_assoc read (n ∷ []) ns)
        (Takes-append d (line ∷ []) (each (codes "AllowedIPs") show_net ns) st next
          (in_peer w addresses dns (record p { allowed_ips = (read ++ n ∷ []) ++ ns })) one
          (allowed_ips_taken p (read ++ n ∷ []) ns h.1))

  -- The section of a peer, behind its header.
  pub peer_body_taken :
      (p : PeerConfig)
      → IsPeer d e p
      → Takes d (peer_body e p) (in_peer w addresses dns empty_peer) (in_peer w addresses dns p)
  unfolding peer_body empty_peer
  peer_body_taken p h =
      let at : PeerConfig → State = in_peer w addresses dns in
      let keyed = record empty_peer { public_key = p.public_key } in
      let shared = record keyed { preshared_key = p.preshared_key } in
      let ended = record shared { endpoint = p.endpoint } in
      let kept = record ended { keepalive = p.keepalive } in
      let key_lines = pair (codes "PublicKey") (e.show_key p.public_key) ∷ [] in
      let shared_lines = optional (codes "PresharedKey") e.show_key p.preshared_key in
      let ended_lines = optional (codes "Endpoint") e.show_udp_addr p.endpoint in
      let kept_lines = optional (codes "PersistentKeepalive") show_seconds p.keepalive in
      let ip_lines = each (codes "AllowedIPs") show_net p.allowed_ips in
      Takes-append d key_lines (shared_lines ++ (ended_lines ++ (kept_lines ++ ip_lines)))
        (at empty_peer) (at keyed) (at p) (public_key_taken p.public_key h.public_key_lem)
        (Takes-append d shared_lines (ended_lines ++ (kept_lines ++ ip_lines)) (at keyed)
          (at shared) (at p) (preshared_key_taken keyed p.preshared_key refl h.preshared_key_lem)
          (Takes-append d ended_lines (kept_lines ++ ip_lines) (at shared) (at ended) (at p)
            (endpoint_taken shared p.endpoint refl h.endpoint_lem)
            (Takes-append d kept_lines ip_lines (at ended) (at kept) (at p)
              (keepalive_taken ended p.keepalive refl h.keepalive_lem)
              (allowed_ips_taken kept [] p.allowed_ips h.allowed_ips_lem))))
