-- ===== src/Examples/Whole.antt =====
-- One pod from the webhook's answer to its routes.
use gopher_cni.Examples.Admitting.{
  fetched, host_held, nets-IsPlain, parsed_splits, protected-mem, splits-IsPlain, unique,
}
use gopher_cni.Examples.Commanding.{add-added, added, args, host_excluding}
use gopher_cni.Examples.Fixtures.{
  client, decoders, kernel, notes, pod_with, protected, provider, split_net, webhook_config,
}
use gopher_cni.Examples.Parsing.{parsed}
use gopher_cni.Examples.Peers.{peers_apart}
use gopher_cni.Examples.Serving.{codec, request, request-allowed}
use gopher_cni.Go.Dict.{HasUniqueKeys, get, get_or_empty}
use gopher_cni.Go.Text.{codes, is_empty, text_eq}
use gopher_cni.Plugin.Commands.{PluginConfig, load_net_conf}
use gopher_cni.Plugin.Kernel.{Route, Trace}
use gopher_cni.Plugin.Provider.{PluginKubernetesConfig, contains_text, new_kube_provider_from_cni}
use gopher_cni.Kubernetes.{kube_get_pod}
use gopher_cni.Prelude.{[], none, ok, refl, some, ◌∷◌, ◌≡◌}
use gopher_cni.Tunnel.Admitted.{admitted_pod-via_link}
use gopher_cni.Tunnel.Routing.{best, main_routes}
use gopher_cni.Webhook.Admission.{prepare_pod, process}
use gopher_cni.Webhook.Types.{should_inject}

abbrev plugin_kubernetes : PluginKubernetesConfig
plugin_kubernetes = record { kubeconfig = codes "k"; exclude_namespaces = [] }

abbrev plugin_conf : PluginConfig
plugin_conf = record {
  cni_version = codes "1.0.0";
  raw_prev_result = some (codes "{}");
  prev_result = some (codes "{}");
  kubernetes = some plugin_kubernetes;
}

conf_loaded : load_net_conf (host_excluding []) args.stdin_data ≡ ok plugin_conf
unfolding load_net_conf
conf_loaded = refl

provided :
    new_kube_provider_from_cni (host_excluding []).load_args plugin_kubernetes args.args client
    ≡ ok provider
unfolding new_kube_provider_from_cni is_empty codes kube_get_pod
provided = refl

request_prepared : prepare_pod codec request ≡ process (pod_with notes)
unfolding prepare_pod text_eq codes should_inject get_or_empty is_empty
request_prepared = refl

label-HasUniqueKeys : HasUniqueKeys provider.pod.labels
unfolding get
label-HasUniqueKeys = (refl, tt)

admitted_pod-via_link_example :
    (cs : Trace) × (r : Route) × (added ≡ cs)
    × (best 168296453 (main_routes cs) ≡ some r)
    × (r.link_index ≡ 7)
    × (r.gw ≡ none)
unfolding contains_text
admitted_pod-via_link_example =
    admitted_pod-via_link kernel (host_excluding []) decoders webhook_config codec request
      (pod_with notes) args plugin_conf plugin_kubernetes client provider parsed (split_net ∷ []) []
      added (codes "{}") add-added conf_loaded refl refl provided refl refl request_prepared
      request-allowed refl refl refl label-HasUniqueKeys unique fetched parsed_splits splits-IsPlain
      nets-IsPlain protected protected-mem 168296453 host_held peers_apart
