-- ===== src/Tunnel/Endpoint.antt =====
-- The routes to the peers' endpoints that plugin/cmd/net.go adds in the pod-origin mode, so that
-- the tunnel's own packets do not go into the tunnel.
use gopher_cni.Go.Ip.{Ip, IpNet, ip4, to4}
use gopher_cni.Go.ShowIp.{show_ip, show_v4}
use gopher_cni.Go.ShowIp.RoundTrip.{parse_cidr-host}
use gopher_cni.Go.Text.{Text}
use gopher_cni.Plugin.Kernel.{Route, Kernel, Trace}
use gopher_cni.Plugin.Net.{
  peer_net, show_endpoint_ip, via_gateway, setup_wg_via_container, find_default,
}
use gopher_cni.Plugin.Net.Modes.{container_calls, endpoint_net, setup_wg_via_container-calls}
use gopher_cni.Prelude.{
  ap, List, some, ℕ, ◌++◌, ◌<◌, ◌^◌, ◌≡◌, inl, inr, arith, refl, ◌∙◌, In, true, subst, ok, ◌≤◌,
  In-append_left,
}
use gopher_cni.Tunnel.Installed.{installed, In-append, default, tunnel, split, installed-Origin}
use gopher_cni.Webhook.Validate.Overlap.{Holds, Holds-own}
use gopher_cni.Tunnel.Routing.{main_routes, best, best-Choice, dst_holds, dst_ones}
use gopher_cni.Wireguard.{PeerConfig, UdpAddr, WgConfig}
use gopher_cni.Tunnel.Container.{peer_routes, container_routes, In-peer_routes, peer_routes-Origin}

-- The endpoint of a peer at an IPv4 address.
peer_net-v4 :
    (e : UdpAddr) (ip : Ip) (n : ℕ)
    → e.ip ≡ some ip
    → to4 ip ≡ some n
    → n < 2 ^ 32
    → peer_net e ≡ some (record { ip = ip4 n; ones = 32; bits = 32 })
unfolding peer_net show_endpoint_ip show_ip
peer_net-v4 e ip n has v4 lt =
    let shown : show_ip ip ≡ show_v4 n = rw (v4, show_ip) refl in
    rw (has, shown) (parse_cidr-host n lt)

host-Holds : (n : ℕ) → Holds (record { ip = ip4 n; ones = 32; bits = 32 }) n
unfolding to4
host-Holds n =
    Holds-own _ (record { number = n; number_lem = refl; bits_lem = refl; fits = omega arith })

-- The best of the installed routes for a peer's own address.
best-host :
    (index : ℕ) (protected splits : List IpNet) (orig : Route) (rs : List Route) (n : ℕ)
    → ((q : IpNet) → In q protected → Holds q n → q.ones < 32)
    → ((r : Route) → In r rs → (m : IpNet) × (r ≡ via_gateway orig m))
    → In (via_gateway orig (record { ip = ip4 n; ones = 32; bits = 32 })) rs
    → (r : Route) × (best n (rs ++ installed index protected splits orig) ≡ some r)
      × (r.link_index ≡ orig.link_index)
      × (r.gw ≡ orig.gw)
unfolding dst_holds dst_ones
best-host index protected splits orig rs n less gateways i =
    let b =
      best-Choice n (via_gateway orig (record { ip = ip4 n; ones = 32; bits = 32 }))
        (rs ++ installed index protected splits orig) (In-append_left _ i) (host-Holds n) in
    elim (In-append b.route rs _ b.mem) [
      | inl j ↦
          let (m, e) = gateways b.route j in
          (b.route, b.best_lem, ap (λ (q : Route). q.link_index) e, ap (λ (q : Route). q.gw) e)
      | inr j ↦ elim (installed-Origin index protected splits orig b.route j) [
        | default d ↦
            let longer : 32 ≤ 0 = subst (λ (r : Route). 32 ≤ dst_ones r.dst) d b.longest in
            absurd (omega arith)
        | tunnel q l d ↦
            let fits : Holds q n = subst (λ (r : Route). dst_holds r.dst n ≡ true) d b.holds in
            let longer : 32 ≤ q.ones = subst (λ (r : Route). 32 ≤ dst_ones r.dst) d b.longest in
            absurd (omega (arith, less q l fits))
        | split q l d ↦
            (b.route, b.best_lem, ap (λ (q : Route). q.link_index) d, ap (λ (q : Route). q.gw) d)
      ]
    ]

-- In the pod-origin mode, where the set-up returned: to the IPv4 address of a peer's endpoint, the
-- best of the routes that the set-up put into the main table has the link and the gateway of the
-- pod's original default route, where the mask of every protected network that holds the address
-- has fewer than 32 bits. This leaves out a protected network that is the address alone, and one
-- in the IPv4-mapped form of IPv6, whose mask of 96 bits or more is longer than the route to the
-- endpoint.
pub endpoint-via_gateway :
    (k : Kernel) (ns name : Text) (config : WgConfig) (addrs : List Text)
    (protected splits : List IpNet) (t t' : Trace)
    → setup_wg_via_container k ns name config addrs protected splits t ≡ (ok tt, t')
    → (p : PeerConfig) → In p config.peers
    → (e : UdpAddr) → p.endpoint ≡ some e
    → (ip : Ip) → e.ip ≡ some ip
    → (n : ℕ) → to4 ip ≡ some n
    → n < 2 ^ 32
    → ((q : IpNet) → In q protected → Holds q n → q.ones < 32)
    → (orig : Route) × (cs : Trace) × (r : Route) × (t' ≡ t ++ cs)
      × (find_default (k.routes (t ++ container_calls ns name)) ≡ some orig)
      × (best n (main_routes cs) ≡ some r)
      × (r.link_index ≡ orig.link_index)
      × (r.gw ≡ orig.gw)
endpoint-via_gateway k ns name config addrs protected splits t t' done p i e has ip addr n v4 lt
      less =
    let (index, orig, ips, cs, _, found, calls, trace) =
      setup_wg_via_container-calls k ns name config addrs protected splits t t' done in
    let net : endpoint_net p.endpoint ≡ some (record { ip = ip4 n; ones = 32; bits = 32 }) =
      ap endpoint_net has ∙ peer_net-v4 e ip n addr v4 lt in
    let (r, chosen, link, gw) =
      best-host index protected splits orig (peer_routes orig config.peers) n less
        (λ r j. let (_, m, _, _, same) = peer_routes-Origin orig r config.peers j in (m, same))
        (In-peer_routes orig p config.peers _ i net) in
    (
      orig,
      _,
      r,
      trace,
      found,
      ap (best n) (container_routes index ns name config addrs protected splits orig ips cs calls)
          ∙ chosen,
      link,
      gw,
    )
