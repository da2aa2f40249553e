-- ===== src/Tunnel/Whole.antt =====
-- From the webhook's verdict to the routes of the pod, in the host-origin mode of
-- plugin/cmd/net.go, which adds no routes for the peers.
use gopher_cni.Cni.{annotation_wg_conf_secret, interface_name}
use gopher_cni.Go.Dict.{HasUniqueKeys, get_or_empty}
use gopher_cni.Go.Ip.{Ip, IpNet}
use gopher_cni.Go.Ip.Prefix.{IsPlain}
use gopher_cni.Go.Text.{Text}
use gopher_cni.Kubernetes.{Clientset, PodSpec}
use gopher_cni.Plugin.Kernel.{Kernel, Route, Trace, leave_ns, route_list}
use gopher_cni.Plugin.Net.{setup_wg_via_host}
use gopher_cni.Plugin.Net.Calls.{configure_calls}
use gopher_cni.Plugin.Net.Modes.{host_calls, setup_wg_via_host-calls}
use gopher_cni.Plugin.Provider.{CniProvider, split_tunnel_cidrs}
use gopher_cni.Prelude.{
  [], All, In, List, ap, none, ok, some, subst, sym, ℕ, ◌++◌, ◌∙◌, ◌∷◌, ◌≡◌, ok-injective,
}
use gopher_cni.Tunnel.Agreement.{accepted_pod}
use gopher_cni.Tunnel.Installed.{installed, main_routes-configured}
use gopher_cni.Tunnel.Protection.{installed-via_link}
use gopher_cni.Tunnel.Routing.{best, main_routes}
use gopher_cni.Webhook.Types.{WebhookConfig, fetch_wg_config}
use gopher_cni.Webhook.Validate.{overlap_allowed, overlap_errors, validate_pod_spec}
use gopher_cni.Webhook.Validate.Overlap.{Holds}
use gopher_cni.Wireguard.{Config, WgConfig, protected_nets}
use gopher_cni.Wireguard.Parser.{Decoders}

host_routes :
    (index : ℕ) (ns name : Text) (config : WgConfig) (addrs : List Text)
    (protected splits : List IpNet) (orig : Route) (ips : List Ip)
    → main_routes (
        host_calls index ns name
        ++ (route_list
            ∷ (configure_calls index name config addrs protected splits orig ips ++ leave_ns ∷ [])))
      ≡ installed index protected splits orig
unfolding main_routes
host_routes index ns name config addrs protected splits orig ips =
    main_routes-configured index name config addrs protected splits orig ips

-- What the webhook's verdict says of the networks that the plugin parses.
pub accepted_overlaps :
    (d : Decoders) (c : WebhookConfig) (client : Clientset) (spec : PodSpec) (p : CniProvider)
    (config : Config) (splits : List IpNet)
    → HasUniqueKeys p.pod.annotations
    → c.kube_client ≡ some client
    → fetch_wg_config d c p.pod.namespace (get_or_empty annotation_wg_conf_secret p.pod.annotations)
      ≡ ok config
    → validate_pod_spec d c p.pod.namespace spec p.pod.annotations ≡ []
    → split_tunnel_cidrs p ≡ ok splits
    → overlap_errors (overlap_allowed p.pod.annotations) splits (protected_nets config) ≡ []
accepted_overlaps d c client spec p config splits unique present fetched valid parsed =
    let (mode, splits', parsed', checked) =
      accepted_pod d c client spec p config unique present fetched valid in
    subst
      (λ (s : List IpNet).
        overlap_errors (overlap_allowed p.pod.annotations) s (protected_nets config) ≡ [])
      (ok-injective _ _ (sym parsed' ∙ parsed)) checked

-- Where a pod's annotations are a map, the webhook has a client, reads the pod's WireGuard
-- configuration and finds nothing wrong with the pod, and each network is an IPv4 one with a
-- four-byte mask or has an address with no IPv4 form: if the plugin's set-up over the host returns,
-- with the split-tunnel networks that it parses from the same annotations, then to each address of
-- a network that the configuration protects, the best of the routes that the set-up put into the
-- main table goes out through the WireGuard link, and through no gateway.
pub accepted_pod-via_link :
    (d : Decoders) (c : WebhookConfig) (client : Clientset) (spec : PodSpec) (p : CniProvider)
    (config : Config) (splits : List IpNet) (k : Kernel) (netns : Text) (addrs : List Text)
    (t t' : Trace)
    → HasUniqueKeys p.pod.annotations
    → c.kube_client ≡ some client
    → fetch_wg_config d c p.pod.namespace (get_or_empty annotation_wg_conf_secret p.pod.annotations)
      ≡ ok config
    → validate_pod_spec d c p.pod.namespace spec p.pod.annotations ≡ []
    → split_tunnel_cidrs p ≡ ok splits
    → All IsPlain splits
    → All IsPlain (protected_nets config)
    → setup_wg_via_host k netns interface_name config.wg addrs (protected_nets config) splits t
      ≡ (ok tt, t')
    → (q : IpNet) → In q (protected_nets config)
    → (a : ℕ) → Holds q a
    → (cs : Trace) × (r : Route) × (t' ≡ t ++ cs)
      × (best a (main_routes cs) ≡ some r)
      × (r.link_index ≡ k.link_index t interface_name)
      × (r.gw ≡ none)
accepted_pod-via_link d c client spec p config splits k netns addrs t t' unique present fetched
      valid parsed vs vp done q i a held =
    let accepted =
      accepted_overlaps d c client spec p config splits unique present fetched valid parsed in
    let (index, orig, ips, same_index, found, e) =
      setup_wg_via_host-calls k netns interface_name config.wg addrs (protected_nets config) splits
        t t' done in
    let (r, chosen, link, gw) =
      installed-via_link index (protected_nets config) splits orig
        (overlap_allowed p.pod.annotations) vs vp accepted q i a held in
    (
      _,
      r,
      e,
      ap (best a) (
            host_routes index netns interface_name config.wg addrs (protected_nets config) splits
              orig ips)
          ∙ chosen,
      link ∙ same_index,
      gw,
    )
