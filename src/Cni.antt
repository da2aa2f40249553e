-- ===== src/Cni.antt =====
-- internal/cni/types.go and internal/version: the names that the parts of the program share.
use gopher_cni.Go.Text.{Text, codes}

abbrev pub label_enabled : Text
label_enabled = codes "gopher.cni/enabled"

abbrev pub annotation_wg_conf_secret : Text
annotation_wg_conf_secret = codes "gopher.cni/wgconf-secret"

abbrev pub secret_key_wg_conf : Text
secret_key_wg_conf = codes "wg.conf"

abbrev pub annotation_cni_mode : Text
annotation_cni_mode = codes "gopher.cni/cni-mode"

abbrev pub annotation_split_tunnel_cidrs : Text
annotation_split_tunnel_cidrs = codes "gopher.cni/split-tunnel-cidrs"

abbrev pub annotation_split_tunnel_overlap : Text
annotation_split_tunnel_overlap = codes "gopher.cni/split-tunnel-overlap"

abbrev pub annotation_split_tunnel_dns_zones : Text
annotation_split_tunnel_dns_zones = codes "gopher.cni/split-tunnel-dns-zones"

abbrev pub mode_pod_origin : Text
mode_pod_origin = codes "pod-origin"

abbrev pub mode_host_origin : Text
mode_host_origin = codes "host-origin"

abbrev pub interface_name : Text
interface_name = codes "gcni0"

-- version.CNI_PLUGIN_TYPE, and version.AppName
abbrev pub plugin_type : Text
plugin_type = codes "gopher-cni"

abbrev pub plugin_binary_name : Text
plugin_binary_name = codes "gopher-cni"
