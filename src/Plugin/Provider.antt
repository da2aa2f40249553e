-- ===== src/Plugin/Provider.antt =====
-- plugin/cmd/kubernetes.go: what the plugin asks of Kubernetes about the pod.
pub mod Maps
use gopher_cni.Prelude.{
  Bool, false, not, ◌&&◌, ◌||◌, Option, none, some, List, [], ◌∷◌, if◌then◌else◌, Result, ok, err,
  ◌>>=◌, wrap,
}
use gopher_cni.Go.Text.{Text, codes, text_eq, is_empty}
use gopher_cni.Go.Dict.{Dict}
use gopher_cni.Go.Ip.{IpNet}
use gopher_cni.Cni.{
  label_enabled, annotation_wg_conf_secret, annotation_cni_mode, annotation_split_tunnel_cidrs,
  annotation_split_tunnel_overlap, secret_key_wg_conf, mode_pod_origin,
}
use gopher_cni.Utils.{ListError, parse_ip_or_cidr_list}
use gopher_cni.Kubernetes.{Pod, KubeError, Clientset, kube_get_pod, fetch_secret_key}

-- cni.PluginKubernetesConfig
pub record PluginKubernetesConfig : Type 0 where
  pub kubeconfig : Text
  pub exclude_namespaces : List Text

-- K8sArgs, as cnitypes.LoadArgs fills it from the text of CNI_ARGS
pub record K8sArgs : Type 0 where
  pub pod_name : Text
  pub pod_namespace : Text

pub record CniProvider : Type 0 where
  pub client : Clientset
  pub pod : Pod
  pub exclude_namespaces : List Text

pub data ProviderError : Type 0 where
  bad_args no_pod_info missing_secret_annotation : ProviderError
  pod_failed secret_failed : KubeError → ProviderError

-- The loops of fetchLabel and fetchAnnotation over a map, in the order in which it is walked.
unfoldable pub fetch : Dict → Text → Text
fetch [] key = codes ""
fetch ((k, v) ∷ m) key =
    let rest = fetch m key in if text_eq k key && not (is_empty v) then v else rest

-- slices.Contains
unfoldable pub contains_text : List Text → Text → Bool
contains_text [] s = false
contains_text (x ∷ xs) s = text_eq x s || contains_text xs s

module _ (load_args : Text → Option K8sArgs) where
  unfoldable pub with_args :
      PluginKubernetesConfig → Clientset → Option K8sArgs → Result ProviderError CniProvider
  with_args conf client none = err bad_args
  with_args conf client (some args) =
      if is_empty args.pod_name || is_empty args.pod_namespace then err no_pod_info else do
        pod ← wrap pod_failed (kube_get_pod client args.pod_namespace args.pod_name)
        ok (record { client = client; pod = pod; exclude_namespaces = conf.exclude_namespaces })

  -- newKubeProviderFromCNI, whose callers pass no nil pointer
  unfoldable pub new_kube_provider_from_cni :
      PluginKubernetesConfig → Text → Clientset → Result ProviderError CniProvider
  unfolding with_args
  new_kube_provider_from_cni conf args client = with_args conf client (load_args args)

unfoldable pub some_of : Result KubeError Text → Result ProviderError (Option Text)
some_of (ok content) = ok (some content)
some_of (err e) = err (secret_failed e)

module _ (p : CniProvider) where
  -- PodName and PodNamespace
  unfoldable pub pod_name : Text
  pod_name = p.pod.name

  unfoldable pub pod_namespace : Text
  pod_namespace = p.pod.namespace

  -- FetchRawWireguardConfig; `none` is the nil of a pod that is left alone.
  unfoldable pub fetch_raw_wireguard_config : Result ProviderError (Option Text)
  unfolding some_of
  fetch_raw_wireguard_config =
      let secret_name = fetch p.pod.annotations annotation_wg_conf_secret in
      if contains_text p.exclude_namespaces p.pod.namespace
      then ok none
      else if not (text_eq (fetch p.pod.labels label_enabled) (codes "true"))
      then ok none
      else if is_empty secret_name
      then err missing_secret_annotation
      else some_of (fetch_secret_key p.client p.pod.namespace secret_name secret_key_wg_conf)

  -- SplitTunnelOverlap
  unfoldable pub split_tunnel_overlap : Text
  split_tunnel_overlap = fetch p.pod.annotations annotation_split_tunnel_overlap

  -- CNIMode
  unfoldable pub cni_mode : Text
  cni_mode =
      let mode = fetch p.pod.annotations annotation_cni_mode in
      if is_empty mode then mode_pod_origin else mode

  -- SplitTunnelCIDRs
  unfoldable pub split_tunnel_cidrs : Result ListError (List IpNet)
  split_tunnel_cidrs =
      let raw = fetch p.pod.annotations annotation_split_tunnel_cidrs in
      if is_empty raw then ok [] else parse_ip_or_cidr_list raw
