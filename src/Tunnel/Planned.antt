-- ===== src/Tunnel/Planned.antt =====
-- What the validating webhook and the plugin read of one pod: the same annotations and the same
-- secret, so that the one checks what the other sets up.
use gopher_cni.Prelude.{
  Bool-cases, inl, inr, true, false, Option, none, some, List, [], Result, ok, ok-injective, sym,
  ap, subst, ◌∙◌, ◌≡◌,
}
use gopher_cni.Plugin.Provider.Maps.{fetch-eq-get_or_empty}
use gopher_cni.Plugin.Provider.{
  PluginKubernetesConfig, CniProvider, new_kube_provider_from_cni, contains_text,
  split_tunnel_cidrs, cni_mode,
}
use gopher_cni.Plugin.Commands.Planned.{
  plan-setup_of, setup_of-eq-ok, provider-client, fetch_raw-fetch_secret_key,
}
use gopher_cni.Plugin.Commands.{Host, CmdArgs, Plan, PluginConfig, plan, load_net_conf, setup_of}
use gopher_cni.Go.Ip.{IpNet}
use gopher_cni.Go.Dict.{HasUniqueKeys, get_or_empty}
use gopher_cni.Go.Text.{Text, codes, text_eq}
use gopher_cni.Webhook.Responses.{verdict-allowed}
use gopher_cni.Webhook.Validate.{validate, validate_prepared, validate_pod_spec}
use gopher_cni.Webhook.Admission.{
  Codec, AdmissionRequest, prepare_pod, process, decoded, injectable, in_namespace,
}
use gopher_cni.Webhook.Types.{WebhookConfig, fetch_wg_config, fetch_with, FetchError, should_inject}
use gopher_cni.Wireguard.Parser.{Decoders, parse_config}
use gopher_cni.Wireguard.{Config}
use gopher_cni.Kubernetes.{Clientset, Pod, fetch_secret_key}
use gopher_cni.Cni.{annotation_wg_conf_secret, label_enabled, secret_key_wg_conf}

pub verdict_of-nil :
    (d : Decoders) (c : WebhookConfig) (codec : Codec) (req : AdmissionRequest) (pod : Pod)
    → prepare_pod codec req ≡ process pod
    → (validate d c codec req).allowed ≡ true
    → validate_pod_spec d c pod.namespace pod.spec pod.annotations ≡ []
unfolding validate validate_prepared
verdict_of-nil d c codec req pod prepared allowed = verdict-allowed d c _ (rw (prepared) at allowed)

injectable-should_inject :
    (pod admitted : Pod) → injectable pod ≡ process admitted → should_inject admitted ≡ true
unfolding injectable
injectable-should_inject pod admitted e = elim (Bool-cases (should_inject pod)) [
  | inr not_asked ↦ cc (rw not_asked at e)
  | inl asks ↦
      let same : pod ≡ admitted = cc (rw asks at e) in
      subst (λ (p : Pod). should_inject p ≡ true) same asks
]

decoded-should_inject :
    (namespace : Text) (o : Option Pod) (admitted : Pod)
    → decoded namespace o ≡ process admitted
    → should_inject admitted ≡ true
unfolding decoded
decoded-should_inject namespace none admitted e = cc
decoded-should_inject namespace (some pod) admitted e =
    injectable-should_inject (in_namespace namespace pod) admitted e

pub prepare_pod-should_inject :
    (codec : Codec) (req : AdmissionRequest) (admitted : Pod)
    → prepare_pod codec req ≡ process admitted
    → should_inject admitted ≡ true
unfolding prepare_pod
prepare_pod-should_inject codec req admitted e =
    elim (Bool-cases (text_eq req.kind (codes "Pod"))) [
      | inr differs ↦ cc (rw differs at e)
      | inl is_pod ↦ decoded-should_inject req.namespace _ admitted (rw is_pod at e)
    ]

-- The webhook and the plugin parse one text.
same_config :
    (d : Decoders) (c : WebhookConfig) (client : Clientset) (namespace secret raw : Text)
    (config config' : Config)
    → c.kube_client ≡ some client
    → fetch_wg_config d c namespace secret ≡ ok config
    → fetch_secret_key client namespace secret secret_key_wg_conf ≡ ok raw
    → parse_config d raw ≡ ok config'
    → config ≡ config'
unfolding fetch_wg_config fetch_with
same_config d c client namespace secret raw config config' present fetched got parsed =
    let both : ◌≡◌ {A = Result FetchError Config} (ok config') (ok config) =
      rw (present, got, parsed) at fetched in
    ok-injective _ _ (sym both)

-- The set-up that Add carries out, for the configuration that the webhook read.
pub planned_set_up :
    (h : Host) (d : Decoders) (c : WebhookConfig) (args : CmdArgs) (p : Plan) (conf : PluginConfig)
    (kc : PluginKubernetesConfig) (client : Clientset) (k8s : CniProvider) (config : Config)
    → plan h d args ≡ ok p
    → load_net_conf h args.stdin_data ≡ ok conf
    → conf.kubernetes ≡ some kc
    → h.new_kube_client kc.kubeconfig ≡ some client
    → new_kube_provider_from_cni h.load_args kc args.args client ≡ ok k8s
    → c.kube_client ≡ some client
    → HasUniqueKeys k8s.pod.labels
    → HasUniqueKeys k8s.pod.annotations
    → should_inject k8s.pod ≡ true
    → contains_text kc.exclude_namespaces k8s.pod.namespace ≡ false
    → fetch_wg_config d c k8s.pod.namespace
        (get_or_empty annotation_wg_conf_secret k8s.pod.annotations)
      ≡ ok config
    → (addrs : List Text) × (splits : List IpNet) × (split_tunnel_cidrs k8s ≡ ok splits)
      × (p.setup
          ≡ some (record { mode = cni_mode k8s; config = config; addrs = addrs; splits = splits }))
unfolding should_inject
planned_set_up h d c args p conf kc client k8s config planned loaded kube got provided present
      unique_labels unique asks included fetched =
    let (same_client, same_excluded) =
      provider-client h.load_args kc args.args client k8s provided in
    let (raw, fetched_raw, made) =
      plan-setup_of h d args p conf kc client k8s planned loaded kube got provided in
    let (text, is_text, secret) =
      fetch_raw-fetch_secret_key k8s raw
        (ap (λ (l : List Text). contains_text l k8s.pod.namespace) same_excluded ∙ included)
        (ap (λ (t : Text). text_eq t (codes "true"))
            (fetch-eq-get_or_empty k8s.pod.labels label_enabled unique_labels)
          ∙ asks)
        fetched_raw in
    let (config', addrs, splits, parsed, split_lem, setup) =
      setup_of-eq-ok h d k8s text p.setup
        (subst (λ (o : Option Text). setup_of h d k8s o ≡ ok p.setup) is_text made) in
    let notes = k8s.pod.annotations in
    let secret' =
      ap
        (λ (x : Clientset).
          fetch_secret_key x k8s.pod.namespace (get_or_empty annotation_wg_conf_secret notes)
            secret_key_wg_conf)
        (sym same_client)
      ∙ ap (λ (n : Text). fetch_secret_key k8s.client k8s.pod.namespace n secret_key_wg_conf)
          (sym (fetch-eq-get_or_empty notes annotation_wg_conf_secret unique))
      ∙ secret in
    let same : config ≡ config' =
      same_config d c client k8s.pod.namespace _ text config config' present fetched secret'
        parsed in
    (
      addrs,
      splits,
      split_lem,
      setup
          ∙ ap
              (λ (x : Config).
                some (record { mode = cni_mode k8s; config = x; addrs = addrs; splits = splits }))
              (sym same),
    )
