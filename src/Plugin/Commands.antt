-- ===== src/Plugin/Commands.antt =====
-- plugin/cmd/cmdAdd.go, cmdDel.go, cmdCheck.go, cmdStatus.go and config.go: the CNI commands.
pub mod Laws
pub mod Planned
use gopher_cni.Prelude.{
  Bool, Option, none, some, List, [], ◌∷◌, if◌then◌else◌, Result, ok, err, ◌>>=◌, wrap,
}
use gopher_cni.Go.Text.{Text, text_eq, is_empty}
use gopher_cni.Go.Ip.{IpNet}
use gopher_cni.Go.ShowIp.{show_net}
use gopher_cni.Cni.{interface_name, mode_pod_origin, mode_host_origin}
use gopher_cni.Utils.{ListError}
use gopher_cni.Kubernetes.{Clientset}
use gopher_cni.Wireguard.{Config, protected_nets}
use gopher_cni.Wireguard.Parser.{Decoders, ParseError, parse_config}
use gopher_cni.Plugin.Kernel.{Kernel, Trace, NetError}
use gopher_cni.Plugin.Net.{setup_wg_via_host, setup_wg_via_container}
use gopher_cni.Plugin.Provider.{
  PluginKubernetesConfig, K8sArgs, CniProvider, ProviderError, new_kube_provider_from_cni,
  fetch_raw_wireguard_config, cni_mode, split_tunnel_cidrs,
}

-- skel.CmdArgs, with the fields that the commands use
pub record CmdArgs : Type 0 where
  pub netns : Text
  pub args : Text
  pub stdin_data : Text

-- cni.PluginConfig: the previous result as it stands in the JSON, and as it was converted.
pub record PluginConfig : Type 0 where
  pub cni_version : Text
  pub raw_prev_result : Option Text
  pub prev_result : Option Text
  pub kubernetes : Option PluginKubernetesConfig

-- What the commands call outside the repository. A result is the text of its JSON.
pub record Host : Type 0 where
  pub decode_conf : Text → Option PluginConfig
  pub new_result : Text → Text → Option Text
  pub convert_result : Text → Option Text
  pub new_kube_client : Text → Option Clientset
  pub load_args : Text → Option K8sArgs
  pub parse_addr_text : Text → Option Text
  pub print_result : Text → Text → Bool

pub data ConfError : Type 0 where
  load_failed parse_failed convert_failed : ConfError

pub data AddError : Type 0 where
  bad_config : ConfError → AddError
  no_prev_result no_kubernetes_config client_failed : AddError
  provider_failed fetch_failed : ProviderError → AddError
  config_failed : ParseError → AddError
  bad_address : AddError
  bad_split_cidrs : ListError → AddError
  setup_failed : NetError → AddError
  unknown_mode : Text → AddError
  print_failed : AddError

module _ (h : Host) where
  converted : PluginConfig → Option Text → Result ConfError PluginConfig
  converted n none = err convert_failed
  converted n (some r) = ok (record n { prev_result = some r })

  new_result_of : PluginConfig → Option Text → Result ConfError PluginConfig
  unfolding converted
  new_result_of n none = err parse_failed
  new_result_of n (some r) = converted n (h.convert_result r)

  prev_result_of : PluginConfig → Option Text → Result ConfError PluginConfig
  unfolding new_result_of
  prev_result_of n none = ok n
  prev_result_of n (some raw) = new_result_of n (h.new_result n.cni_version raw)

  loaded : Option PluginConfig → Result ConfError PluginConfig
  unfolding prev_result_of
  loaded none = err load_failed
  loaded (some n) = prev_result_of n n.raw_prev_result

  -- LoadNetConf
  unfoldable pub load_net_conf : Text → Result ConfError PluginConfig
  unfolding loaded
  load_net_conf bytes = loaded (h.decode_conf bytes)

  -- The addresses of the interface, through their texts and netlink.ParseAddr.
  unfoldable pub parse_addrs : List IpNet → Option (List Text)
  parse_addrs [] = some []
  parse_addrs (n ∷ ns) = elim (h.parse_addr_text (show_net n)) [
    | none ↦ none
    | some a ↦ elim (parse_addrs ns) [ none ↦ none | some as' ↦ some (a ∷ as') ]
  ]

abbrev pub required {ℓ} : {E A : Type ℓ} → E → Option A → Result E A
required e none = err e
required e (some a) = ok a

checked_config : Option PluginKubernetesConfig → Result AddError PluginKubernetesConfig
checked_config none = err no_kubernetes_config
checked_config (some conf) = if is_empty conf.kubeconfig then err no_kubernetes_config else ok conf

-- What Add knows before it touches the network: the previous result with its version, and the
-- set-up to make, if the pod is not left alone.
pub record Setup : Type 0 where
  pub mode : Text
  pub config : Config
  pub addrs : List Text
  pub splits : List IpNet

pub record Plan : Type 0 where
  pub prev_result : Text
  pub cni_version : Text
  pub setup : Option Setup

module _ (h : Host) (d : Decoders) where
  pub setup_of : CniProvider → Option Text → Result AddError (Option Setup)
  setup_of k8s none = ok none
  setup_of k8s (some raw) = do
    config ← wrap config_failed (parse_config d raw)
    addrs ← required bad_address (parse_addrs h config.addresses)
    splits ← wrap bad_split_cidrs (split_tunnel_cidrs k8s)
    ok (some (record { mode = cni_mode k8s; config = config; addrs = addrs; splits = splits }))

  -- Add up to its switch on the mode.
  unfoldable pub plan : CmdArgs → Result AddError Plan
  unfolding setup_of checked_config
  plan args = do
    conf ← wrap bad_config (load_net_conf h args.stdin_data)
    prev ← required no_prev_result conf.prev_result
    kubernetes ← checked_config conf.kubernetes
    client ← required client_failed (h.new_kube_client kubernetes.kubeconfig)
    k8s ← wrap provider_failed (new_kube_provider_from_cni h.load_args kubernetes args.args client)
    raw ← wrap fetch_failed (fetch_raw_wireguard_config k8s)
    setup ← setup_of k8s raw
    ok (record { prev_result = prev; cni_version = conf.cni_version; setup = setup })

set_up : Result NetError (Unit {0}) × Trace → Result AddError (Unit {0}) × Trace
set_up (r, t) = (wrap setup_failed r, t)

module _ (k : Kernel) where
  -- The switch on the mode.
  unfoldable pub apply_setup : Text → Option Setup → Trace → Result AddError (Unit {0}) × Trace
  unfolding set_up
  apply_setup netns none t = (ok tt, t)
  apply_setup netns (some s) t =
      if text_eq s.mode mode_host_origin
      then set_up (
          setup_wg_via_host k netns interface_name s.config.wg s.addrs (protected_nets s.config)
            s.splits t)
      else if text_eq s.mode mode_pod_origin
      then set_up (
          setup_wg_via_container k netns interface_name s.config.wg s.addrs
            (protected_nets s.config) s.splits t)
      else (err (unknown_mode s.mode), t)

  printed : Host → Plan → Result AddError (Unit {0}) → Result AddError Text
  printed h p (err e) = err e
  printed h p (ok _) =
      if h.print_result p.prev_result p.cni_version then ok p.prev_result else err print_failed

  carry_out : Host → Text → Result AddError Plan → Trace → Result AddError Text × Trace
  unfolding printed
  carry_out h netns (err e) t = (err e, t)
  carry_out h netns (ok p) t = let r = apply_setup netns p.setup t in (printed h p r.0, r.1)

  -- Add: the result that it prints, and the calls that it made of the kernel.
  unfoldable pub add : Host → Decoders → CmdArgs → Trace → Result AddError Text × Trace
  unfolding carry_out
  add h d args t = carry_out h args.netns (plan h d args) t

-- Del, Check and Status read their configuration and do nothing else.
unfoldable pub del : Host → CmdArgs → Result ConfError (Unit {0})
del h args = do conf ← load_net_conf h args.stdin_data; ok tt

unfoldable pub check : Host → CmdArgs → Result ConfError (Unit {0})
check h args = do conf ← load_net_conf h args.stdin_data; ok tt

unfoldable pub status : Host → CmdArgs → Result ConfError (Unit {0})
status h args = do conf ← load_net_conf h args.stdin_data; ok tt
