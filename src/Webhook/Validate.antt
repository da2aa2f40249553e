-- ===== src/Webhook/Validate.antt =====
-- internal/webhook/validate.go: the validating webhook.
pub mod Overlap
use gopher_cni.Prelude.{
  Bool, true, false, not, ◌||◌, Option, none, some, List, [], ◌∷◌, ◌++◌, leb, if◌then◌else◌, Result,
  ok, err, map,
}
use gopher_cni.Go.Text.{Text, codes, text_eq, is_empty, split, trim_space}
use gopher_cni.Go.Dict.{Dict, get_or_empty}
use gopher_cni.Go.Ip.{IpNet, contains}
use gopher_cni.Go.ParseIp.{parse_cidr}
use gopher_cni.Cni.{
  annotation_wg_conf_secret, annotation_cni_mode, annotation_split_tunnel_cidrs,
  annotation_split_tunnel_overlap, mode_pod_origin, mode_host_origin,
}
use gopher_cni.Kubernetes.{PodSpec}
use gopher_cni.Wireguard.{Config, protected_nets}
use gopher_cni.Wireguard.Parser.{Decoders}
use gopher_cni.Webhook.Types.{
  ValidationError, Message, missing_secret, invalid_mode, invalid_overlap, invalid_split_cidr,
  bypasses, overlaps, host_network_used, WebhookConfig, FetchError, fetch_wg_config,
}
use gopher_cni.Webhook.Admission.{
  Codec, AdmissionRequest, AdmissionResponse, Prepared, process, early, prepare_pod, allow, deny,
  validation_failed, value_invalid,
}

abbrev pub error_at : Text → Message → ValidationError
error_at field message = record { field = field; message = message }

-- The annotation's networks, and an error for each of its tokens that is none.
pub record Splits : Type 0 where
  pub errors : List ValidationError
  pub nets : List IpNet

add_split : Text → Option IpNet → Splits → Splits
add_split s none r = record r {
  errors = error_at annotation_split_tunnel_cidrs (invalid_split_cidr s) ∷ r.errors;
}
add_split s (some n) r = record r { nets = n ∷ r.nets }

-- The first loop of validateSplitTunnelOverlap.
unfoldable pub parse_splits : List Text → Splits
unfolding add_split
parse_splits [] = record { errors = []; nets = [] }
parse_splits (raw ∷ rest) =
    let s = trim_space raw in
    let later = parse_splits rest in if is_empty s then later else add_split s (parse_cidr s) later

-- Some address lies in both networks, as the code tests it.
unfoldable pub overlap : IpNet → IpNet → Bool
overlap split prot = contains split prot.ip || contains prot split.ip

-- The body of the inner loop.
unfoldable pub pair_errors : Bool → IpNet → IpNet → List ValidationError
unfolding overlap
pair_errors overlap_allowed split prot =
    if not (overlap split prot)
    then []
    else if leb prot.ones split.ones
    then error_at annotation_split_tunnel_cidrs (bypasses split prot) ∷ []
    else if not overlap_allowed
    then error_at annotation_split_tunnel_cidrs (overlaps split prot) ∷ []
    else []

unfoldable pub split_errors : Bool → IpNet → List IpNet → List ValidationError
split_errors overlap_allowed split [] = []
split_errors overlap_allowed split (prot ∷ prots) =
    pair_errors overlap_allowed split prot ++ split_errors overlap_allowed split prots

-- The second loop of validateSplitTunnelOverlap.
unfoldable pub overlap_errors : Bool → List IpNet → List IpNet → List ValidationError
unfolding split_errors
overlap_errors overlap_allowed [] prots = []
overlap_errors overlap_allowed (split ∷ splits) prots =
    split_errors overlap_allowed split prots ++ overlap_errors overlap_allowed splits prots

unfoldable pub overlap_allowed : Dict → Bool
overlap_allowed annotations =
    text_eq (get_or_empty annotation_split_tunnel_overlap annotations) (codes "allow")

-- A secret that cannot be read, or does not parse, leaves nothing to check against.
check_fetched : Dict → List IpNet → Result FetchError Config → List ValidationError
unfolding overlap_allowed
check_fetched annotations splits (err e) = []
check_fetched annotations splits (ok config) =
    overlap_errors (overlap_allowed annotations) splits (protected_nets config)

abbrev is_nil {ℓ} : {A : Type ℓ} → List A → Bool
is_nil [] = true
is_nil (x ∷ xs) = false

abbrev pub is_present {ℓ} : {A : Type ℓ} → Option A → Bool
is_present none = false
is_present (some a) = true

unfoldable pub secret_errors : Dict → List ValidationError
secret_errors annotations =
    if is_empty (get_or_empty annotation_wg_conf_secret annotations)
    then error_at annotation_wg_conf_secret missing_secret ∷ []
    else []

unfoldable pub mode_errors : Text → List ValidationError
mode_errors mode =
    if is_empty mode || text_eq mode mode_pod_origin || text_eq mode mode_host_origin
    then []
    else error_at annotation_cni_mode (invalid_mode mode) ∷ []

unfoldable pub overlap_value_errors : Text → List ValidationError
overlap_value_errors value =
    if is_empty value || text_eq value (codes "allow")
    then []
    else error_at annotation_split_tunnel_overlap (invalid_overlap value) ∷ []

unfoldable pub host_network_errors : PodSpec → List ValidationError
host_network_errors spec =
    if spec.host_network
    then error_at (codes "spec.template.spec.hostNetwork") host_network_used ∷ []
    else []

unfoldable pub verdict : List ValidationError → AdmissionResponse
verdict [] = allow
verdict (e ∷ es) = deny (validation_failed (e ∷ es)) 422 (map value_invalid (e ∷ es))

module _ (d : Decoders) (c : WebhookConfig) where
  -- validateSplitTunnelOverlap
  unfoldable pub validate_split_tunnel_overlap : Text → Text → Text → Dict → List ValidationError
  unfolding check_fetched
  validate_split_tunnel_overlap namespace split_cidrs_raw secret_name annotations =
      let r = parse_splits (split b',' split_cidrs_raw) in
      if is_nil r.errors
      then check_fetched annotations r.nets (fetch_wg_config d c namespace secret_name)
      else r.errors

  unfoldable pub split_tunnel_errors : Text → Dict → List ValidationError
  split_tunnel_errors namespace annotations =
      let split_cidrs = get_or_empty annotation_split_tunnel_cidrs annotations in
      let secret_name = get_or_empty annotation_wg_conf_secret annotations in
      if is_empty split_cidrs || is_empty secret_name || not (is_present c.kube_client)
      then []
      else validate_split_tunnel_overlap namespace split_cidrs secret_name annotations

  -- validatePodSpec. A value that is missing and an empty one are treated alike by every test.
  unfoldable pub validate_pod_spec : Text → PodSpec → Dict → List ValidationError
  validate_pod_spec namespace spec annotations =
      secret_errors annotations
      ++ (mode_errors (get_or_empty annotation_cni_mode annotations)
          ++ (overlap_value_errors (get_or_empty annotation_split_tunnel_overlap annotations)
              ++ (split_tunnel_errors namespace annotations ++ host_network_errors spec)))

  unfoldable pub validate_prepared : Prepared → AdmissionResponse
  unfolding verdict
  validate_prepared (early response) = response
  validate_prepared (process pod) =
      verdict (validate_pod_spec pod.namespace pod.spec pod.annotations)

  -- (*ValidateHandler).validate
  unfoldable pub validate : Codec → AdmissionRequest → AdmissionResponse
  unfolding validate_prepared
  validate codec req = validate_prepared (prepare_pod codec req)
