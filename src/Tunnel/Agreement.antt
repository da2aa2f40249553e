-- ===== src/Tunnel/Agreement.antt =====
-- What the validating webhook accepts, the plugin can carry out.
use gopher_cni.Prelude.{
  ◌≡◌, refl, ◌⊎◌, inl, inr, true, false, ◌||◌, some, List, [], ◌∷◌, arith, Bool-cases, Nil-cases,
  Option-cases, if◌then◌else◌, ok,
}
use gopher_cni.Go.Text.{Text, text_eq, text_eq_iff, is_empty, cut, contains_code, split, trim_space}
use gopher_cni.Go.Dict.{Dict, get_or_empty, HasUniqueKeys}
use gopher_cni.Go.Ip.{IpNet}
use gopher_cni.Go.ParseIp.{parse_cidr}
use gopher_cni.Cni.{
  annotation_wg_conf_secret, annotation_cni_mode, annotation_split_tunnel_cidrs,
  annotation_split_tunnel_overlap, mode_pod_origin, mode_host_origin,
}
use gopher_cni.Utils.{parse_token, parse_tokens, parse_ip_or_cidr_list}
use gopher_cni.Kubernetes.{PodSpec, Clientset}
use gopher_cni.Wireguard.{Config, protected_nets}
use gopher_cni.Wireguard.Parser.{Decoders}
use gopher_cni.Webhook.Types.{WebhookConfig, fetch_wg_config}
use gopher_cni.Webhook.Validate.{
  secret_errors, mode_errors, overlap_value_errors, split_tunnel_errors, is_present, parse_splits,
  overlap_errors, overlap_allowed, validate_split_tunnel_overlap, validate_pod_spec,
}
use gopher_cni.Webhook.Validate.Overlap.{append-eq-nil}
use gopher_cni.Plugin.Provider.{CniProvider, cni_mode, split_tunnel_cidrs}
use gopher_cni.Plugin.Provider.Maps.{fetch-eq-get_or_empty}

cut-contains_code : (c : _) (s t : Text) → (cut c s).1 ≡ some t → contains_code c s ≡ true
unfolding cut contains_code
cut-contains_code c [] t h = cc
cut-contains_code c (x ∷ s) t h = ground (arith, cut-contains_code c s t)

parse_cidr-contains_code :
    (s : Text) (n : IpNet) → parse_cidr s ≡ some n → contains_code b'/' s ≡ true
unfolding parse_cidr
parse_cidr-contains_code s n h = elim (Option-cases (cut b'/' s).1) [
  | inl whole ↦ cc (rw whole at h)
  | inr (t, found) ↦ cut-contains_code b'/' s t found
]

-- A token that the webhook takes for a network is the same network for the plugin.
parse_token-parse_cidr : (s : Text) (n : IpNet) → parse_cidr s ≡ some n → parse_token s ≡ ok n
unfolding parse_token
parse_token-parse_cidr s n h = rw (parse_cidr-contains_code s n h, h)

parse_tokens-parse_splits :
    (ts : List Text) → (parse_splits ts).errors ≡ [] → parse_tokens ts ≡ ok (parse_splits ts).nets
unfolding parse_splits parse_tokens
parse_tokens-parse_splits [] h = refl
parse_tokens-parse_splits (raw ∷ ts) h = elim (Bool-cases (is_empty (trim_space raw))) [
  | inl skip ↦ rw skip (parse_tokens-parse_splits ts (rw skip at h))
  | inr full ↦ elim (Option-cases (parse_cidr (trim_space raw))) [
    | inl bad ↦ cc (rw (full, bad) at h)
    | inr (n, good) ↦
        rw (full, good, parse_token-parse_cidr (trim_space raw) n good)
          (rw (parse_tokens-parse_splits ts (rw (full, good) at h)))
  ]
]

-- What a pod without validation errors has.
record Accepts (d : Decoders) (c : WebhookConfig) (namespace : Text) (annotations : Dict)
    : Type 0 where
  mode_known :
      (is_empty (get_or_empty annotation_cni_mode annotations)
        || text_eq (get_or_empty annotation_cni_mode annotations) mode_pod_origin
        || text_eq (get_or_empty annotation_cni_mode annotations) mode_host_origin)
      ≡ true
  splits_checked :
      is_present c.kube_client ≡ true
      → is_empty (get_or_empty annotation_split_tunnel_cidrs annotations) ≡ false
      → validate_split_tunnel_overlap d c namespace
          (get_or_empty annotation_split_tunnel_cidrs annotations)
          (get_or_empty annotation_wg_conf_secret annotations)
          annotations
        ≡ []

validate_pod_spec-Accepts :
    (d : Decoders) (c : WebhookConfig) (namespace : Text) (spec : PodSpec) (annotations : Dict)
    → validate_pod_spec d c namespace spec annotations ≡ []
    → Accepts d c namespace annotations
unfolding validate_pod_spec secret_errors mode_errors split_tunnel_errors
validate_pod_spec-Accepts d c namespace spec annotations h =
    let (secret, h1) = append-eq-nil (secret_errors annotations) _ h in
    let (mode, h2) =
      append-eq-nil (mode_errors (get_or_empty annotation_cni_mode annotations)) _ h1 in
    let (_, h3) =
      append-eq-nil
        (overlap_value_errors (get_or_empty annotation_split_tunnel_overlap annotations)) _ h2 in
    let (splits, _) = append-eq-nil (split_tunnel_errors d c namespace annotations) _ h3 in
    record {
      mode_known = ground (arith, mode);
      splits_checked = λ present full. ground (arith, secret, splits, present, full);
    }

-- The mode that the plugin reads from an accepted pod is one of the two.
known_mode :
    (mode : Text)
    → (is_empty mode || text_eq mode mode_pod_origin || text_eq mode mode_host_origin) ≡ true
    → (if is_empty mode then mode_pod_origin else mode) ≡ mode_pod_origin
      ⊎ (if is_empty mode then mode_pod_origin else mode) ≡ mode_host_origin
known_mode mode h = elim (Bool-cases (is_empty mode)) [
  | inl e ↦ rw e (inl refl)
  | inr ne ↦ elim (Bool-cases (text_eq mode mode_pod_origin)) [
    | inl e ↦ rw ne (inl ((text_eq_iff mode mode_pod_origin).0 e))
    | inr ne' ↦ rw ne (inr ((text_eq_iff mode mode_host_origin).0 (ground (arith, h, ne, ne'))))
  ]
]

validate_split-nets :
    (d : Decoders) (c : WebhookConfig) (namespace raw secret : Text) (annotations : Dict)
    (config : Config)
    → fetch_wg_config d c namespace secret ≡ ok config
    → validate_split_tunnel_overlap d c namespace raw secret annotations ≡ []
    → (splits : List IpNet) × (parse_ip_or_cidr_list raw ≡ ok splits)
      × (overlap_errors (overlap_allowed annotations) splits (protected_nets config) ≡ [])
unfolding validate_split_tunnel_overlap parse_ip_or_cidr_list
validate_split-nets d c namespace raw secret annotations config f h =
    elim (Nil-cases (parse_splits (split b',' raw)).errors) [
      | inl e ↦ (
        (parse_splits (split b',' raw)).nets,
        parse_tokens-parse_splits (split b',' raw) e,
        rw (e, f) at h,
      )
      | inr (x, xs, e) ↦ cc (rw e at h)
    ]

-- Where a pod's annotations are a map, the webhook has a client and reads the pod's WireGuard
-- configuration, and finds nothing wrong with the pod: the plugin, on the same annotations, gets
-- one of the two modes, parses the split-tunnel networks without an error, and these networks pass
-- the webhook's overlap check against the networks that the configuration protects.
pub accepted_pod :
    (d : Decoders) (c : WebhookConfig) (client : Clientset) (spec : PodSpec) (p : CniProvider)
    (config : Config)
    → HasUniqueKeys p.pod.annotations
    → c.kube_client ≡ some client
    → fetch_wg_config d c p.pod.namespace (get_or_empty annotation_wg_conf_secret p.pod.annotations)
      ≡ ok config
    → validate_pod_spec d c p.pod.namespace spec p.pod.annotations ≡ []
    → ((cni_mode p ≡ mode_pod_origin) ⊎ (cni_mode p ≡ mode_host_origin))
      × (splits : List IpNet) × (split_tunnel_cidrs p ≡ ok splits)
      × (overlap_errors (overlap_allowed p.pod.annotations) splits (protected_nets config) ≡ [])
unfolding cni_mode split_tunnel_cidrs overlap_errors
accepted_pod d c client spec p config unique present fetched h =
    let notes = p.pod.annotations in
    let a = validate_pod_spec-Accepts d c p.pod.namespace spec notes h in
    let mode = known_mode (get_or_empty annotation_cni_mode notes) a.mode_known in
    let raw = get_or_empty annotation_split_tunnel_cidrs notes in
    rw
      (
        fetch-eq-get_or_empty notes annotation_cni_mode unique,
        fetch-eq-get_or_empty notes annotation_split_tunnel_cidrs unique,
      )
      (elim (Bool-cases (is_empty raw)) [
        | inl e ↦ rw e (mode, [], refl, refl)
        | inr ne ↦
            let (splits, parsed, checked) =
              validate_split-nets d c p.pod.namespace raw _ notes config fetched
                (a.splits_checked (rw present refl) ne) in
            rw ne (mode, splits, parsed, checked)
      ])
