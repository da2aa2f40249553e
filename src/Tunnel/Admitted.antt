-- ===== src/Tunnel/Admitted.antt =====
-- From the validating webhook's answer to the routes of the pod that plugin/cmd/cmdAdd.go sets up.
use gopher_cni.Tunnel.Container.{accepted_pod-via_container_link}
use gopher_cni.Tunnel.Whole.{accepted_pod-via_link}
use gopher_cni.Tunnel.Routing.{best, main_routes}
use gopher_cni.Plugin.Net.Modes.{endpoint_net}
use gopher_cni.Webhook.Validate.Overlap.{Holds}
use gopher_cni.Plugin.Commands.Laws.{SetUp, Outcome, add-eq-ok}
use gopher_cni.Go.Ip.Prefix.{IsPlain}
use gopher_cni.Plugin.Kernel.{Kernel, Trace, Route, get_ns, enter_ns}
use gopher_cni.Prelude.{
  inl, inr, true, false, Option, none, some, List, [], ok, ok-injective, sym, ap, subst, ◌∙◌, ◌≡◌,
  All, In, ℕ, ◌++◌, append-nil, if◌then◌else◌, ◌∷◌, refl,
}
use gopher_cni.Plugin.Provider.{
  PluginKubernetesConfig, CniProvider, new_kube_provider_from_cni, contains_text,
  split_tunnel_cidrs, cni_mode,
}
use gopher_cni.Plugin.Commands.{Host, CmdArgs, PluginConfig, load_net_conf, add, Setup}
use gopher_cni.Go.Ip.{IpNet, contains, ip4}
use gopher_cni.Go.Dict.{HasUniqueKeys, get_or_empty, Dict}
use gopher_cni.Go.Text.{Text, codes, text_eq}
use gopher_cni.Webhook.Validate.{validate, validate_pod_spec}
use gopher_cni.Webhook.Admission.{Codec, AdmissionRequest, prepare_pod, process}
use gopher_cni.Webhook.Types.{WebhookConfig, fetch_wg_config, should_inject}
use gopher_cni.Wireguard.Parser.{Decoders}
use gopher_cni.Wireguard.{Config, protected_nets, PeerConfig}
use gopher_cni.Kubernetes.{Clientset, Pod, PodSpec}
use gopher_cni.Cni.{
  mode_pod_origin, annotation_wg_conf_secret, interface_name, label_enabled, mode_host_origin,
}
use gopher_cni.Tunnel.Planned.{verdict_of-nil, prepare_pod-should_inject, planned_set_up}

-- The calls of a set-up in front of the one that makes the link.
abbrev pub before_link : Text → Text → Trace
before_link mode netns =
    if text_eq mode mode_host_origin then [] else get_ns netns ∷ enter_ns netns ∷ []

before_link-host :
    (mode netns : Text) (t : Trace) → mode ≡ mode_host_origin → t ++ before_link mode netns ≡ t
unfolding text_eq codes
before_link-host mode netns t e =
    subst (λ (m : Text). t ++ before_link m netns ≡ t) (sym e) (append-nil t)

before_link-pod :
    (mode netns : Text)
    → mode ≡ mode_pod_origin
    → before_link mode netns ≡ get_ns netns ∷ enter_ns netns ∷ []
unfolding text_eq codes
before_link-pod mode netns e =
    subst (λ (m : Text). before_link m netns ≡ get_ns netns ∷ enter_ns netns ∷ []) (sym e) refl

-- The two modes, put together.
SetUp-via_link :
    (d : Decoders) (c : WebhookConfig) (client : Clientset) (spec : PodSpec) (k8s : CniProvider)
    (config : Config) (splits : List IpNet) (k : Kernel) (netns : Text) (addrs : List Text)
    (t t' : Trace)
    → HasUniqueKeys k8s.pod.annotations
    → c.kube_client ≡ some client
    → fetch_wg_config d c k8s.pod.namespace
        (get_or_empty annotation_wg_conf_secret k8s.pod.annotations)
      ≡ ok config
    → validate_pod_spec d c k8s.pod.namespace spec k8s.pod.annotations ≡ []
    → split_tunnel_cidrs k8s ≡ ok splits
    → All IsPlain splits
    → All IsPlain (protected_nets config)
    → SetUp k netns
        (record { mode = cni_mode k8s; config = config; addrs = addrs; splits = splits })
        t
        t'
    → (q : IpNet) → In q (protected_nets config)
    → (a : ℕ) → Holds q a
    → ((x : PeerConfig)
        → In x config.wg.peers
        → (n : IpNet) → endpoint_net x.endpoint ≡ some n
        → contains n (ip4 a) ≡ false)
    → (cs : Trace) × (r : Route) × (t' ≡ t ++ cs)
      × (best a (main_routes cs) ≡ some r)
      × (r.link_index ≡ k.link_index (t ++ before_link (cni_mode k8s) netns) interface_name)
      × (r.gw ≡ none)
SetUp-via_link d c client spec k8s config splits k netns addrs t t' unique present fetched valid
      parsed vs vp (inl (host, done)) q i a held apart =
    let (cs, r, e, chosen, link, gw) =
      accepted_pod-via_link d c client spec k8s config splits k netns addrs t t' unique present
        fetched valid parsed vs vp done q i a held in
    (
      cs,
      r,
      e,
      chosen,
      link
          ∙ ap (λ (u : Trace). k.link_index u interface_name)
              (sym (before_link-host (cni_mode k8s) netns t host)),
      gw,
    )
SetUp-via_link d c client spec k8s config splits k netns addrs t t' unique present fetched valid
      parsed vs vp (inr (modes, done)) q i a held apart =
    let (cs, r, e, chosen, link, gw) =
      accepted_pod-via_container_link d c client spec k8s config splits k netns addrs t t' unique
        present fetched valid parsed vs vp done q i a held apart in
    (
      cs,
      r,
      e,
      chosen,
      link
          ∙ ap (λ (cs : Trace). k.link_index (t ++ cs) interface_name)
              (sym (before_link-pod (cni_mode k8s) netns modes)),
      gw,
    )

-- Add answered, for a pod that the plugin's client gives it in a namespace that is not excluded, and
-- the validating webhook had allowed the request for a pod of the same namespace, labels and
-- annotations. The webhook's client is the plugin's, labels and annotations are maps, the webhook
-- could read the WireGuard configuration, and each split-tunnel network and each protected network
-- is an IPv4 one with a four-byte mask or has an address with no IPv4 form. Then, in either mode, to
-- each address of a protected network that no peer's endpoint is routed at, the best of the routes
-- that Add put into the main table goes out through no gateway and through the link whose index the
-- kernel gave for the interface's name where Add made it: at its first call in the host-origin mode,
-- and behind the two that enter the pod's namespace in the other one.
pub admitted_pod-via_link :
    (k : Kernel) (h : Host) (d : Decoders) (c : WebhookConfig) (codec : Codec)
    (req : AdmissionRequest) (admitted : Pod) (args : CmdArgs) (conf : PluginConfig)
    (kc : PluginKubernetesConfig) (client : Clientset) (k8s : CniProvider) (config : Config)
    (splits : List IpNet) (t t' : Trace) (out : Text)
    → add k h d args t ≡ (ok out, t')
    → load_net_conf h args.stdin_data ≡ ok conf
    → conf.kubernetes ≡ some kc
    → h.new_kube_client kc.kubeconfig ≡ some client
    → new_kube_provider_from_cni h.load_args kc args.args client ≡ ok k8s
    → contains_text kc.exclude_namespaces k8s.pod.namespace ≡ false
    → c.kube_client ≡ some client
    → prepare_pod codec req ≡ process admitted
    → (validate d c codec req).allowed ≡ true
    → k8s.pod.namespace ≡ admitted.namespace
    → k8s.pod.labels ≡ admitted.labels
    → k8s.pod.annotations ≡ admitted.annotations
    → HasUniqueKeys k8s.pod.labels
    → HasUniqueKeys k8s.pod.annotations
    → fetch_wg_config d c k8s.pod.namespace
        (get_or_empty annotation_wg_conf_secret k8s.pod.annotations)
      ≡ ok config
    → split_tunnel_cidrs k8s ≡ ok splits
    → All IsPlain splits
    → All IsPlain (protected_nets config)
    → (q : IpNet) → In q (protected_nets config)
    → (a : ℕ) → Holds q a
    → ((x : PeerConfig)
        → In x config.wg.peers
        → (n : IpNet) → endpoint_net x.endpoint ≡ some n
        → contains n (ip4 a) ≡ false)
    → (cs : Trace) × (r : Route) × (t' ≡ t ++ cs)
      × (best a (main_routes cs) ≡ some r)
      × (r.link_index ≡ k.link_index (t ++ before_link (cni_mode k8s) args.netns) interface_name)
      × (r.gw ≡ none)
unfolding should_inject
admitted_pod-via_link k h d c codec req admitted args conf kc client k8s config splits t t' out
      added loaded kube got provided included present prepared allowed namespace labels annotations
      unique_labels unique fetched parsed vs vp q i a held apart =
    let (p, planned, _, outcome) = add-eq-ok k h d args t t' out added in
    let asks : should_inject k8s.pod ≡ true =
      ap (λ (l : Dict). text_eq (get_or_empty label_enabled l) (codes "true")) labels
      ∙ prepare_pod-should_inject codec req admitted prepared in
    let valid : validate_pod_spec d c k8s.pod.namespace admitted.spec k8s.pod.annotations ≡ [] =
      rw (namespace, annotations) (verdict_of-nil d c codec req admitted prepared allowed) in
    let (addrs, splits', parsed', setup) =
      planned_set_up h d c args p conf kc client k8s config planned loaded kube got provided present
        unique_labels unique asks included fetched in
    let same : splits' ≡ splits = ok-injective _ _ (sym parsed' ∙ parsed) in
    SetUp-via_link d c client admitted.spec k8s config splits k args.netns addrs t t' unique present
      fetched valid parsed vs vp
      (subst
        (λ (s : List IpNet).
          SetUp k args.netns
            (record { mode = cni_mode k8s; config = config; addrs = addrs; splits = s }) t t')
        same (subst (λ (o : Option Setup). Outcome k args.netns o t t') setup outcome))
      q i a held apart
