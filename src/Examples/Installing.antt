-- ===== src/Examples/Installing.antt =====
-- The installer on a node with one configuration list, which holds one plugin of another type.
use gopher_cni.Cni.{plugin_type}
use gopher_cni.Go.Json.{
  end, nil, object, array, string, field, cons, Fields, Items, append_item, get_field, set_field,
}
use gopher_cni.Go.Text.{Text, codes, text_eq}
use gopher_cni.Installer.CniConfig.{
  insert_cni_plugin_config, is_ours, plugins_key, remove_cni_plugin_config, remove_first, type_key,
}
use gopher_cni.Installer.CniConfig.Entries.{AreObjects, count_ours}
use gopher_cni.Installer.CniConfig.History.{
  Kept, Reach, Reach-Kept, insertion, next, removal, start,
}
use gopher_cni.Installer.CniConfig.Laws.{IsWf}
use gopher_cni.Installer.CniConfig.Refinement.{
  change_all, change_all-refines, entry_after, inserts, removes, represented,
}
use gopher_cni.Installer.Config.{Config}
use gopher_cni.Installer.Os.{Os}
use gopher_cni.Installer.Os.Reliable.{IsReliable}
use gopher_cni.Prelude.{[], arith, false, ok, refl, true, ◌≡◌, ◌∷◌, some}

abbrev pub calm : Os
calm = record { refuses = λ files c. false; leaves = λ files c. files; masked = λ mode. mode }

pub calm-IsReliable : IsReliable calm
unfolding IsReliable
calm-IsReliable files c = refl

abbrev pub node_config : Config
node_config = record {
  mounted_host_dir = codes "/host";
  cni_net_dir = codes "/etc/cni/net.d";
  log_level = codes "info";
  k8s_service_host = codes "10.0.0.1";
  k8s_service_port = codes "443";
  k8s_service_protocol = codes "https";
  k8s_ca_file = codes "/ca.crt";
  k8s_skip_tls_verify = false;
  kubeconfig_filename = codes "kubeconfig";
  kubeconfig_mode = 384;
  kube_exclude_namespaces = [];
  skip_route_cidrs = [];
  cni_bin_source_dir = codes "/cni";
  cni_bin_target_dir = codes "/opt/cni/bin";
  uds_socket_address = codes "/log.sock";
}

abbrev pub entry_of_type : Text → Fields
entry_of_type t = field type_key (string t) end

abbrev pub entry : Fields
entry = entry_of_type plugin_type

abbrev pub flannel : Items
flannel = cons (object (entry_of_type (codes "flannel"))) nil

abbrev pub node_list : Fields
node_list = field plugins_key (array flannel) end

abbrev pub installed_list : Fields
installed_list = field plugins_key (array (append_item flannel (object entry))) end

pub node_list-IsWf : IsWf node_list flannel
unfolding get_field AreObjects count_ours text_eq codes is_ours
node_list-IsWf = record { has_entries = refl; are_objects = tt; at_most_one = omega arith }

pub entry-is_ours : is_ours entry ≡ true
unfolding is_ours get_field text_eq codes
entry-is_ours = refl

pub flannel_only : count_ours flannel ≡ 0
unfolding count_ours is_ours get_field text_eq codes
flannel_only = refl

pub entry_inserted : insert_cni_plugin_config entry node_list ≡ ok installed_list
unfolding insert_cni_plugin_config remove_cni_plugin_config get_field text_eq codes remove_first
    is_ours set_field
entry_inserted = refl

entry_removed : remove_cni_plugin_config installed_list ≡ ok node_list
unfolding remove_cni_plugin_config get_field text_eq codes remove_first append_item is_ours
    set_field
entry_removed = refl

inserted_and_removed : Reach node_list node_list
inserted_and_removed =
    next (next start (insertion entry entry-is_ours entry_inserted)) (removal entry_removed)

Reach-Kept_example : Kept node_list flannel node_list
Reach-Kept_example = Reach-Kept flannel node_list-IsWf inserted_and_removed

change_all-refines_example :
    change_all (inserts entry ∷ removes ∷ inserts entry ∷ []) node_list
    ≡ ok (represented node_list flannel (some entry))
unfolding entry_after
change_all-refines_example =
    change_all-refines node_list flannel node_list-IsWf flannel_only
      (inserts entry ∷ removes ∷ inserts entry ∷ []) (entry-is_ours, (tt, (entry-is_ours, tt)))
