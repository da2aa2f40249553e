-- ===== src/Installer/CniConfig.antt =====
-- internal/installer/cniconfig.go: the plugin's entry in a CNI configuration list.
pub mod Entries
pub mod Laws
pub mod History
pub mod Refinement
use gopher_cni.Prelude.{Bool, false, Option, some, if◌then◌else◌, Result, ok, err, ◌>>=◌}
use gopher_cni.Go.Text.{Text, codes, text_eq}
use gopher_cni.Go.Json.{
  Json, string, array, object, Items, nil, cons, Fields, get_field, set_field, append_item,
}
use gopher_cni.Cni.{plugin_type}

-- The errors of removeCNIPluginConfig, and the panic of a failed type assertion.
pub data ConfigError : Type 0 where
  no_plugin_list : ConfigError
  bad_plugin : ConfigError
  plugins_panic : ConfigError

abbrev pub plugins_key : Text
plugins_key = codes "plugins"

abbrev pub type_key : Text
type_key = codes "type"

-- plugin["type"] == version.CNI_PLUGIN_TYPE, on what the map holds
unfoldable pub is_plugin_type : Option Json → Bool
is_plugin_type (some (string s)) = text_eq s plugin_type
is_plugin_type _ = false

unfoldable pub is_ours : Fields → Bool
unfolding is_plugin_type
is_ours plugin = is_plugin_type (get_field type_key plugin)

-- The loop of removeCNIPluginConfig: it stops at the first entry of the plugin's type.
unfoldable pub remove_first : Items → Result ConfigError Items
remove_first nil = ok nil
remove_first (cons (object plugin) rest) =
    let later = remove_first rest in
    if is_ours plugin then ok rest else do rest' ← later; ok (cons (object plugin) rest')
remove_first (cons _ rest) = err bad_plugin

-- what the map holds under "plugins", as []any
unfoldable pub as_list : ConfigError → Option Json → Result ConfigError Items
as_list e (some (array plugins)) = ok plugins
as_list e _ = err e

-- removeCNIPluginConfig
unfoldable pub remove_cni_plugin_config : Fields → Result ConfigError Fields
unfolding as_list
remove_cni_plugin_config config = do
  plugins ← as_list no_plugin_list (get_field plugins_key config)
  plugins' ← remove_first plugins
  ok (set_field plugins_key (array plugins') config)

-- insertCNIPluginConfig
unfoldable pub insert_cni_plugin_config : Fields → Fields → Result ConfigError Fields
unfolding as_list
insert_cni_plugin_config plugin_config config = do
  new_map ← remove_cni_plugin_config config
  plugins ← as_list plugins_panic (get_field plugins_key new_map)
  ok (set_field plugins_key (array (append_item plugins (object plugin_config))) new_map)
