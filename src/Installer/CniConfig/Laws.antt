-- ===== src/Installer/CniConfig/Laws.antt =====
-- What insertion and removal do to a configuration.
use gopher_cni.Prelude.{◌≡◌, ◌≤◌, ap, true, some, arith, ok}
use gopher_cni.Go.Json.{
  Items, object, array, Fields, get_field, set_field, append_item, get_field-set_field,
  set_field-set_field,
}
use gopher_cni.Installer.CniConfig.{
  plugins_key, is_ours, as_list, remove_cni_plugin_config, insert_cni_plugin_config,
}
use gopher_cni.Installer.CniConfig.Entries.{
  AreObjects, count_ours, others, remove_first-others, AreObjects-others, count_ours-others,
  AreObjects-append_item, count_ours-append_item,
}

-- A configuration list with at most one entry of the plugin, whose `entries` are objects, as the
-- CNI library requires.
pub record IsWf (config : Fields) (entries : Items) : Type 0 where
  pub has_entries : get_field plugins_key config ≡ some (array entries)
  pub are_objects : AreObjects entries
  pub at_most_one : count_ours entries ≤ 1

unfoldable pub with_entries : Items → Fields → Fields
with_entries ps config = set_field plugins_key (array ps) config

with_entries-IsWf :
    (ps : Items) (config : Fields)
    → AreObjects ps
    → count_ours ps ≤ 1
    → IsWf (with_entries ps config) ps
unfolding with_entries
with_entries-IsWf ps config o c = record {
  has_entries = get_field-set_field plugins_key (array ps) config;
  are_objects = o;
  at_most_one = c;
}

module _ (config : Fields) (entries : Items) (wf : IsWf config entries) where
  pub remove_lem : remove_cni_plugin_config config ≡ ok (with_entries (others entries) config)
  unfolding remove_cni_plugin_config as_list with_entries
  remove_lem =
      rw (wf.has_entries, as_list, remove_first-others entries wf.are_objects wf.at_most_one)

  -- With the plugin's entry inserted: the other entries, and the new one behind them.
  pub insert_lem :
      (plugin : Fields)
      → insert_cni_plugin_config plugin config
        ≡ ok (with_entries (append_item (others entries) (object plugin)) config)
  unfolding insert_cni_plugin_config as_list with_entries
  insert_lem plugin =
      rw (remove_lem, with_entries, get_field-set_field plugins_key (array (others entries)) config)
        (ap ok (set_field-set_field plugins_key _ _ config))

  pub others-IsWf : IsWf (with_entries (others entries) config) (others entries)
  others-IsWf =
      with_entries-IsWf (others entries) config (AreObjects-others entries wf.are_objects)
        (omega (arith, count_ours-others entries))

  pub insert-IsWf :
      (plugin : Fields)
      → is_ours plugin ≡ true
      → IsWf
          (with_entries (append_item (others entries) (object plugin)) config)
          (append_item (others entries) (object plugin))
  insert-IsWf plugin ours =
      with_entries-IsWf (append_item (others entries) (object plugin)) config
        (AreObjects-append_item (others entries) plugin (AreObjects-others entries wf.are_objects))
        (omega
          (arith, count_ours-append_item plugin ours (others entries), count_ours-others entries))
