-- ===== src/Tunnel/Container.antt =====
-- The routes of a pod that plugin/cmd/net.go sets up in the pod-origin mode: those that it adds for
-- the peers, and the ones of both modes.
use gopher_cni.Wireguard.Parser.{Decoders}
use gopher_cni.Webhook.Validate.{overlap_allowed, validate_pod_spec}
use gopher_cni.Webhook.Types.{WebhookConfig, fetch_wg_config}
use gopher_cni.Plugin.Provider.{CniProvider, split_tunnel_cidrs}
use gopher_cni.Kubernetes.{Clientset, PodSpec}
use gopher_cni.Go.Ip.Prefix.{IsPlain}
use gopher_cni.Go.Dict.{HasUniqueKeys, get_or_empty}
use gopher_cni.Cni.{annotation_wg_conf_secret, interface_name}
use gopher_cni.Tunnel.Protection.{installed-via_link}
use gopher_cni.Tunnel.Whole.{accepted_overlaps}
use gopher_cni.Go.Ip.{Ip, IpNet, ip4, contains}
use gopher_cni.Go.Text.{Text}
use gopher_cni.Plugin.Kernel.{
  Route, Call, leave_ns, route_list, route_add, Kernel, Trace, get_ns, enter_ns,
}
use gopher_cni.Plugin.Net.{via_gateway, setup_wg_via_container}
use gopher_cni.Plugin.Net.Calls.{configure_calls}
use gopher_cni.Plugin.Net.Modes.{
  container_calls, endpoint_net, peer_calls, setup_wg_via_container-calls,
}
use gopher_cni.Prelude.{
  ap, Option, List, [], none, some, ℕ, ◌++◌, ◌∷◌, ◌≡◌, Option-cases, inl, inr, arith, refl, ◌∙◌, In,
  here, there, false, ok, All,
}
use gopher_cni.Tunnel.Installed.{installed, main_routes-append, main_routes-configured}
use gopher_cni.Webhook.Validate.Overlap.{Holds}
use gopher_cni.Tunnel.Routing.{main_routes, best, dst_holds, best-append}
use gopher_cni.Wireguard.{PeerConfig, WgConfig, Config, protected_nets}

-- The host route of a peer, and those of all peers.
abbrev pub more_routes : Option IpNet → Route → List Route → List Route
more_routes none orig rs = rs
more_routes (some n) orig rs = via_gateway orig n ∷ rs

pub peer_routes : Route → List PeerConfig → List Route
peer_routes orig [] = []
peer_routes orig (p ∷ ps) = more_routes (endpoint_net p.endpoint) orig (peer_routes orig ps)

main_routes-peer_calls :
    (orig : Route) (ps : List PeerConfig) (cs : List Call)
    → peer_calls orig ps ≡ some cs
    → main_routes cs ≡ peer_routes orig ps
unfolding peer_routes main_routes peer_calls
main_routes-peer_calls orig [] cs h = let same : [] ≡ cs = ground (arith, h) in rw (← same) refl
main_routes-peer_calls orig (p ∷ ps) cs h = elim (Option-cases (endpoint_net p.endpoint)) [
  | inl none_net ↦ absurd (ground (arith, none_net, h))
  | inr (n, net) ↦ elim (Option-cases (peer_calls orig ps)) [
    | inl none_calls ↦ absurd (ground (arith, net, none_calls, h))
    | inr (ds, calls) ↦
        let same : route_add (via_gateway orig n) ∷ ds ≡ cs = ground (arith, net, calls, h) in
        rw (← same, net, main_routes-peer_calls orig ps ds calls) refl
  ]
]

-- Everything that the set-up puts into the main table.
pub container_routes :
    (index : ℕ) (ns name : Text) (config : WgConfig) (addrs : List Text)
    (protected splits : List IpNet) (orig : Route) (ips : List Ip) (cs : List Call)
    → peer_calls orig config.peers ≡ some cs
    → main_routes (
        container_calls ns name
        ++ (route_list
            ∷ (cs
                ++ (configure_calls index name config addrs protected splits orig ips
                    ++ leave_ns ∷ []))))
      ≡ peer_routes orig config.peers ++ installed index protected splits orig
unfolding main_routes
container_routes index ns name config addrs protected splits orig ips cs h =
    main_routes-append cs _
    ∙ ap (◌++◌ (main_routes cs))
        (main_routes-configured index name config addrs protected splits orig ips)
    ∙ ap (λ (rs : List Route). rs ++ installed index protected splits orig)
        (main_routes-peer_calls orig config.peers cs h)

pub In-peer_routes :
    (orig : Route) (p : PeerConfig) (ps : List PeerConfig) (n : IpNet)
    → In p ps
    → endpoint_net p.endpoint ≡ some n
    → In (via_gateway orig n) (peer_routes orig ps)
unfolding peer_routes
In-peer_routes orig p [] n i net = elim i [ ]
In-peer_routes orig p (q ∷ ps) n (here e) net =
    let net' : endpoint_net q.endpoint ≡ some n = rw (← e) net in rw net' (here refl)
In-peer_routes orig p (q ∷ ps) n (there i) net = elim (Option-cases (endpoint_net q.endpoint)) [
  | inl nothing ↦ rw nothing (In-peer_routes orig p ps n i net)
  | inr (m, given) ↦ rw given (there (In-peer_routes orig p ps n i net))
]

first_or_later :
    (orig r : Route) (p : PeerConfig) (ps : List PeerConfig) (m : IpNet)
    → endpoint_net p.endpoint ≡ some m
    → (In r (peer_routes orig ps)
        → (q : PeerConfig) × (n : IpNet) × In q ps
          × (endpoint_net q.endpoint ≡ some n)
          × (r ≡ via_gateway orig n))
    → In r (via_gateway orig m ∷ peer_routes orig ps)
    → (q : PeerConfig) × (n : IpNet) × In q (p ∷ ps)
      × (endpoint_net q.endpoint ≡ some n)
      × (r ≡ via_gateway orig n)
first_or_later orig r p ps m given later (here e) = (p, m, here refl, given, e)
first_or_later orig r p ps m given later (there i) =
    let (q, n, j, net, e) = later i in (q, n, there j, net, e)

-- A route of the peers is the host route of one of them.
pub peer_routes-Origin :
    (orig r : Route) (ps : List PeerConfig)
    → In r (peer_routes orig ps)
    → (p : PeerConfig) × (n : IpNet) × In p ps
      × (endpoint_net p.endpoint ≡ some n)
      × (r ≡ via_gateway orig n)
unfolding peer_routes
peer_routes-Origin orig r [] i = elim i [ ]
peer_routes-Origin orig r (p ∷ ps) i = elim (Option-cases (endpoint_net p.endpoint)) [
  | inl nothing ↦
      let (q, n, j, net, e) = peer_routes-Origin orig r ps (rw (nothing) at i) in
      (q, n, there j, net, e)
  | inr (m, given) ↦
      let i' : In r (via_gateway orig m ∷ peer_routes orig ps) = rw (given) at i in
      first_or_later orig r p ps m given (peer_routes-Origin orig r ps) i'
]

-- The conditions are those on the pod and the webhook that `accepted_pod-via_link` of Tunnel.Whole
-- has, for the pod-origin mode: the webhook reads the pod's WireGuard configuration and finds
-- nothing wrong with the pod, and the plugin's set-up inside the pod's namespace returned. Then to
-- each address of a protected network that no peer's endpoint is routed at, the best of the routes
-- that the set-up put into the main table goes out through the WireGuard link, and through no
-- gateway.
pub accepted_pod-via_container_link :
    (d : Decoders) (c : WebhookConfig) (client : Clientset) (spec : PodSpec) (p : CniProvider)
    (config : Config) (splits : List IpNet) (k : Kernel) (netns : Text) (addrs : List Text)
    (t t' : Trace)
    → HasUniqueKeys p.pod.annotations
    → c.kube_client ≡ some client
    → fetch_wg_config d c p.pod.namespace (get_or_empty annotation_wg_conf_secret p.pod.annotations)
      ≡ ok config
    → validate_pod_spec d c p.pod.namespace spec p.pod.annotations ≡ []
    → split_tunnel_cidrs p ≡ ok splits
    → All IsPlain splits
    → All IsPlain (protected_nets config)
    → setup_wg_via_container k netns interface_name config.wg addrs (protected_nets config) splits t
      ≡ (ok tt, t')
    → (q : IpNet) → In q (protected_nets config)
    → (a : ℕ) → Holds q a
    → ((x : PeerConfig)
        → In x config.wg.peers
        → (n : IpNet) → endpoint_net x.endpoint ≡ some n
        → contains n (ip4 a) ≡ false)
    → (cs : Trace) × (r : Route) × (t' ≡ t ++ cs)
      × (best a (main_routes cs) ≡ some r)
      × (r.link_index ≡ k.link_index (t ++ (get_ns netns ∷ enter_ns netns ∷ [])) interface_name)
      × (r.gw ≡ none)
unfolding dst_holds
accepted_pod-via_container_link d c client spec p config splits k netns addrs t t' unique present
      fetched valid parsed vs vp done q i a held apart =
    let accepted =
      accepted_overlaps d c client spec p config splits unique present fetched valid parsed in
    let (index, orig, ips, cs, same_index, found, calls, trace) =
      setup_wg_via_container-calls k netns interface_name config.wg addrs (protected_nets config)
        splits t t' done in
    let (r, chosen, link, gw) =
      installed-via_link index (protected_nets config) splits orig
        (overlap_allowed p.pod.annotations) vs vp accepted q i a held in
    (
      _,
      r,
      trace,
      ap (best a) (
            container_routes index netns interface_name config.wg addrs (protected_nets config)
              splits orig ips cs calls)
          ∙ best-append a (peer_routes orig config.wg.peers) _ (λ r j.
            let (x, n, l, net, same) = peer_routes-Origin orig r config.wg.peers j in
            ap (λ (r : Route). dst_holds r.dst a) same ∙ apart x l n net)
          ∙ chosen,
      link ∙ same_index,
      gw,
    )
