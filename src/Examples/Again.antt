-- ===== src/Examples/Again.antt =====
-- A second Uninstall on a node.
use gopher_cni.Go.Path.{join}
use gopher_cni.Installer.CniConfig.{is_ours}
use gopher_cni.Examples.Installing.{
  calm, calm-IsReliable, entry, flannel, installed_list, node_config,
}
use gopher_cni.Examples.Node.{list_path, node_files, node_progress, small_codec}
use gopher_cni.Go.Json.{set_field, get_field, append_item, object}
use gopher_cni.Go.Text.{codes, is_empty, starts_with_code, split, text_eq}
use gopher_cni.Installer.CniConfig.Laws.{IsWf, with_entries}
use gopher_cni.Installer.CniConfig.Entries.{others, AreObjects, count_ours}
use gopher_cni.Installer.Install.{uninstall}
use gopher_cni.Installer.Install.Idempotence.{uninstall-uninstall}
use gopher_cni.Installer.Install.Restore.{IsCarried}
use gopher_cni.Installer.Os.{File, Files, put}
use gopher_cni.Prelude.{arith, refl, ◌≡◌}

abbrev installed_file : File
installed_file = record { content = codes "two\n"; mode = 420 }

abbrev installed_files : Files
installed_files = put list_path installed_file node_files

installed_list-IsWf : IsWf installed_list (append_item flannel (object entry))
unfolding get_field AreObjects count_ours text_eq codes is_ours append_item
installed_list-IsWf = record { has_entries = refl; are_objects = tt; at_most_one = omega arith }

left-IsCarried :
    IsCarried small_codec
      (with_entries (others (append_item flannel (object entry))) installed_list)
unfolding get_field with_entries set_field text_eq codes others append_item is_ours
left-IsCarried = record { text = codes "one"; encoded = refl; decoded = refl }

uninstall-uninstall_example :
    uninstall calm small_codec node_config node_progress
      (uninstall calm small_codec node_config node_progress installed_files)
      list_path
    ≡ uninstall calm small_codec node_config node_progress installed_files list_path
unfolding is_empty codes text_eq join starts_with_code split
uninstall-uninstall_example =
    uninstall-uninstall calm calm-IsReliable small_codec node_config node_progress refl refl refl
      installed_files installed_file installed_list (append_item flannel (object entry)) refl refl
      installed_list-IsWf left-IsCarried list_path
