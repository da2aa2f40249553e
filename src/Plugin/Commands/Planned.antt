-- ===== src/Plugin/Commands/Planned.antt =====
-- What a plan of Add is made of: the provider of the pod, the text of the secret, the set-up.
use gopher_cni.Cni.{annotation_wg_conf_secret, label_enabled, secret_key_wg_conf}
use gopher_cni.Go.Ip.{IpNet}
use gopher_cni.Go.Text.{Text, codes, is_empty, text_eq}
use gopher_cni.Kubernetes.{Clientset, fetch_secret_key, kube_get_pod}
use gopher_cni.Plugin.Commands.{
  AddError, CmdArgs, Host, Plan, PluginConfig, Setup, bad_split_cidrs, checked_config,
  config_failed, fetch_failed, load_net_conf, parse_addrs, plan, required, setup_of, no_prev_result,
  no_kubernetes_config, bad_address,
}
use gopher_cni.Plugin.Provider.{
  CniProvider, PluginKubernetesConfig, K8sArgs, cni_mode, contains_text, fetch,
  fetch_raw_wireguard_config, new_kube_provider_from_cni, split_tunnel_cidrs, ProviderError,
  bad_args, no_pod_info, pod_failed, with_args, some_of, missing_secret_annotation, secret_failed,
}
use gopher_cni.Prelude.{
  Bool-cases, List, Option, Option-cases, Result, Result-cases, ap, bind-eq-ok, err, false, inl,
  inr, ok, some, sym, true, wrap, ◌∙◌, ◌≡◌, ok-injective, ◌||◌,
}
use gopher_cni.Wireguard.{Config}
use gopher_cni.Wireguard.Parser.{Decoders, parse_config}

wrap-eq-ok : {E F A : Type 0} (f : E → F) (r : Result E A) (a : A) → wrap f r ≡ ok a → r ≡ ok a
wrap-eq-ok f (ok b) a h = cc
wrap-eq-ok f (err e) a h = cc

-- A plan, from the provider on.
pub plan-setup_of :
    (h : Host) (d : Decoders) (args : CmdArgs) (p : Plan) (conf : PluginConfig)
    (kc : PluginKubernetesConfig) (client : Clientset) (k8s : CniProvider)
    → plan h d args ≡ ok p
    → load_net_conf h args.stdin_data ≡ ok conf
    → conf.kubernetes ≡ some kc
    → h.new_kube_client kc.kubeconfig ≡ some client
    → new_kube_provider_from_cni h.load_args kc args.args client ≡ ok k8s
    → (raw : Option Text) × (fetch_raw_wireguard_config k8s ≡ ok raw)
      × (setup_of h d k8s raw ≡ ok p.setup)
unfolding plan checked_config
plan-setup_of h d args p conf kc client k8s planned loaded kube got provided =
    elim (Option-cases conf.prev_result) [
      | inl nothing ↦
          let bad : ◌≡◌ {A = Result AddError Plan} (err no_prev_result) (ok p) =
            rw (loaded, nothing) at planned in
          cc (bad)
      | inr (prev, there) ↦ elim (Bool-cases (is_empty kc.kubeconfig)) [
        | inl empty ↦
            let bad : ◌≡◌ {A = Result AddError Plan} (err no_kubernetes_config) (ok p) =
              rw (loaded, there, kube, empty) at planned in
            cc (bad)
        | inr full ↦
            let (raw, fetched, rest) =
              bind-eq-ok (wrap fetch_failed (fetch_raw_wireguard_config k8s)) _
                (rw (loaded, there, kube, full, got, provided) at planned) in
            let (setup, set, last) = bind-eq-ok (setup_of h d k8s raw) _ rest in
            (
              raw,
              wrap-eq-ok fetch_failed _ raw fetched,
              set ∙ ap ok (ap (λ (q : Plan). q.setup) (ok-injective _ _ last)),
            )
      ]
    ]

-- A set-up, from the text of the secret.
pub setup_of-eq-ok :
    (h : Host) (d : Decoders) (k8s : CniProvider) (raw : Text) (o : Option Setup)
    → setup_of h d k8s (some raw) ≡ ok o
    → (config : Config) × (addrs : List Text) × (splits : List IpNet) × (parse_config d raw
        ≡ ok config)
      × (split_tunnel_cidrs k8s ≡ ok splits)
      × (o ≡ some (record { mode = cni_mode k8s; config = config; addrs = addrs; splits = splits }))
unfolding setup_of
setup_of-eq-ok h d k8s raw o made =
    let (config, parsed, rest) = bind-eq-ok (wrap config_failed (parse_config d raw)) _ made in
    let (addrs, _, rest') =
      bind-eq-ok (required bad_address (parse_addrs h config.addresses)) _ rest in
    let (splits, split_lem, last) =
      bind-eq-ok (wrap bad_split_cidrs (split_tunnel_cidrs k8s)) _ rest' in
    (
      config,
      addrs,
      splits,
      wrap-eq-ok config_failed _ config parsed,
      wrap-eq-ok bad_split_cidrs _ splits split_lem,
      sym (ok-injective _ _ last),
    )

-- The provider has the client that it was made with.
pub provider-client :
    (load_args : Text → Option K8sArgs) (kc : PluginKubernetesConfig) (args : Text)
    (client : Clientset) (k8s : CniProvider)
    → new_kube_provider_from_cni load_args kc args client ≡ ok k8s
    → (k8s.client ≡ client) × (k8s.exclude_namespaces ≡ kc.exclude_namespaces)
unfolding new_kube_provider_from_cni with_args
provider-client load_args kc args client k8s provided = elim (Option-cases (load_args args)) [
  | inl nothing ↦
      let bad : ◌≡◌ {A = Result ProviderError CniProvider} (err bad_args) (ok k8s) =
        rw (nothing) at provided in
      cc (bad)
  | inr (ka, there) ↦ elim (Bool-cases (is_empty ka.pod_name || is_empty ka.pod_namespace)) [
    | inl empty ↦
        let bad : ◌≡◌ {A = Result ProviderError CniProvider} (err no_pod_info) (ok k8s) =
          rw (there, empty) at provided in
        cc (bad)
    | inr full ↦
        let (pod, got, last) =
          bind-eq-ok (wrap pod_failed (kube_get_pod client ka.pod_namespace ka.pod_name)) _
            (rw (there, full) at provided) in
        let same = ok-injective _ _ (sym last) in
        (
          ap (λ (q : CniProvider). q.client) same,
          ap (λ (q : CniProvider). q.exclude_namespaces) same,
        )
  ]
]

-- The text of the secret of a pod that is not left alone.
pub fetch_raw-fetch_secret_key :
    (k8s : CniProvider) (raw : Option Text)
    → contains_text k8s.exclude_namespaces k8s.pod.namespace ≡ false
    → text_eq (fetch k8s.pod.labels label_enabled) (codes "true") ≡ true
    → fetch_raw_wireguard_config k8s ≡ ok raw
    → (text : Text) × (raw ≡ some text)
      × (fetch_secret_key k8s.client k8s.pod.namespace
            (fetch k8s.pod.annotations annotation_wg_conf_secret)
            secret_key_wg_conf
          ≡ ok text)
unfolding fetch_raw_wireguard_config some_of
fetch_raw-fetch_secret_key k8s raw included enabled fetched =
    let secret = fetch k8s.pod.annotations annotation_wg_conf_secret in
    elim (Bool-cases (is_empty secret)) [
      | inl empty ↦
          let bad : ◌≡◌ {A = Result ProviderError (Option Text)} (err missing_secret_annotation)
              (ok raw) =
            rw (included, enabled, empty) at fetched in
          cc (bad)
      | inr full ↦
          elim (Result-cases
            (fetch_secret_key k8s.client k8s.pod.namespace secret secret_key_wg_conf)) [
              | inl (text, got) ↦
                  (text, ok-injective _ _ (sym (rw (included, enabled, full, got) at fetched)), got)
              | inr (e, failed) ↦
                  let bad : ◌≡◌ {A = Result ProviderError (Option Text)} (err (secret_failed e))
                      (ok raw) =
                    rw (included, enabled, full, failed) at fetched in
                  cc (bad)
            ]
    ]
