-- ===== src/Examples/Serving.antt =====
-- The webhook's responses to an admission request for one pod.
use gopher_cni.Examples.Fixtures.{decoders, notes, pod_with, webhook_config}
use gopher_cni.Go.Dict.{get, get_or_empty}
use gopher_cni.Go.Ip.{contains, contains4, network, prefix, to4}
use gopher_cni.Go.Lines.{scan}
use gopher_cni.Go.ParseIp.{parse_cidr, parse_ip}
use gopher_cni.Go.Text.{
  codes, contains_code, cut, drop_first, ends_with_code, is_empty, split, starts_with_code, text_eq,
  to_lower, trim_space,
}
use gopher_cni.Kubernetes.{Pod, fetch_secret_key}
use gopher_cni.Prelude.{[], none, refl, some, true, ◌≡◌, ◌⊎◌}
use gopher_cni.Utils.{parse_ip_or_cidr_list, parse_token}
use gopher_cni.Webhook.Admission.{
  AdmissionRequest, Codec, decoded, injectable, prepare_pod, process,
}
use gopher_cni.Webhook.Responses.{IsLeftAlone, validate-allowed}
use gopher_cni.Webhook.Types.{fetch_wg_config, should_inject}
use gopher_cni.Webhook.Validate.{
  host_network_errors, mode_errors, overlap, overlap_allowed, overlap_errors, overlap_value_errors,
  pair_errors, parse_splits, secret_errors, split_tunnel_errors, validate, validate_pod_spec,
  validate_prepared, validate_split_tunnel_overlap, verdict,
}
use gopher_cni.Wireguard.{dns_nets, protected_nets}
use gopher_cni.Wireguard.Parser.{
  enter_section, is_header, is_skipped, net_ips, parse_config, parse_interface_key, parse_line,
  parse_lines, parse_pair, parse_peer_key, peer_line, save_peer, section_name, split_pair, v4_nets,
}

abbrev pub codec : Codec
codec = record {
  decode_pod = λ s. some (pod_with notes);
  encode_patches = λ ps. some (codes "patch");
  decode_review = λ s. none;
  encode_review = λ r. none;
}

abbrev pub request : AdmissionRequest
request = record {
  uid = codes "1";
  kind = codes "Pod";
  namespace = codes "default";
  object = codes "{}";
}

pub request-allowed : (validate decoders webhook_config codec request).allowed ≡ true
unfolding validate validate_prepared verdict prepare_pod decoded injectable should_inject is_empty
    get_or_empty get text_eq codes validate_pod_spec secret_errors mode_errors overlap_value_errors
    split_tunnel_errors host_network_errors validate_split_tunnel_overlap parse_splits
    overlap_errors overlap_allowed pair_errors overlap contains network contains4 prefix to4
    fetch_wg_config fetch_secret_key protected_nets dns_nets split trim_space parse_cidr cut
    parse_config parse_lines parse_line split_pair parse_pair parse_interface_key peer_line
    parse_peer_key enter_section save_peer section_name v4_nets net_ips parse_ip_or_cidr_list scan
    is_skipped is_header starts_with_code ends_with_code to_lower drop_first parse_token
    contains_code parse_ip
request-allowed = refl

validate-allowed_example :
    IsLeftAlone codec request
    ⊎ ((pod : Pod) × (prepare_pod codec request ≡ process pod)
        × (validate_pod_spec decoders webhook_config pod.namespace pod.spec pod.annotations ≡ []))
validate-allowed_example = validate-allowed decoders webhook_config codec request request-allowed
