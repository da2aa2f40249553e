-- ===== src/Installer/Install/Restore.antt =====
-- Install's change of the CNI configuration on the node, taken back by Uninstall.
use gopher_cni.Go.Json.{Fields, Items}
use gopher_cni.Go.Text.{Text, codes, is_empty, text_eq, text_eq_iff}
use gopher_cni.Installer.CniConfig.{insert_cni_plugin_config, is_ours, remove_cni_plugin_config}
use gopher_cni.Installer.CniConfig.Entries.{count_ours}
use gopher_cni.Installer.CniConfig.History.{ok-injective, remove-insert}
use gopher_cni.Installer.CniConfig.Laws.{IsWf}
use gopher_cni.Installer.CniFile.{
  JsonCodec, read_config, uninstall_cni_config, update_config, write_cni_config_map,
}
use gopher_cni.Installer.Config.{Config}
use gopher_cni.Installer.Install.{Progress, binary_path, clean_config, uninstall}
use gopher_cni.Installer.Install.Cleanup.{clean_file-other, clean_kubeconfig-other}
use gopher_cni.Installer.Kubeconfig.{InstallError}
use gopher_cni.Installer.Os.{File, Files, Os, put}
use gopher_cni.Installer.Os.Reliable.{IsReliable, file_exists_lem, read_lem, write_lem}
use gopher_cni.Prelude.{Result, ap, false, ok, refl, some, sym, true, ◌++◌, ◌∙◌, ◌≡◌}

-- A configuration list that the codec carries to a file and back.
pub record IsCarried (codec : JsonCodec) (config : Fields) : Type 0 where
  pub text : Text
  pub encoded : codec.encode config ≡ some text
  pub decoded : codec.decode (text ++ codes "\n") ≡ some config

module _ (os : Os) (reliable : IsReliable os) (codec : JsonCodec) where
  write_config_lem :
      (path : Text) (config : Fields) (files : Files) (f : File)
      → files path ≡ some f
      → (carried : IsCarried codec config)
      → write_cni_config_map os codec path config files
        ≡ (ok tt, put path (record f { content = carried.text ++ codes "\n" }) files)
  unfolding write_cni_config_map
  write_config_lem path config files f there carried =
      rw (carried.encoded, write_lem os reliable path (carried.text ++ codes "\n") 420 files, there)

  pub update_config_lem :
      (path : Text) (plugin config config' : Fields) (files : Files) (f : File)
      → files path ≡ some f
      → codec.decode f.content ≡ some config
      → insert_cni_plugin_config plugin config ≡ ok config'
      → (carried : IsCarried codec config')
      → update_config os codec plugin path files
        ≡ (ok path, put path (record f { content = carried.text ++ codes "\n" }) files)
  unfolding update_config read_config
  update_config_lem path plugin config config' files f there decoded inserted carried = rw (
    file_exists_lem os reliable path files,
    there,
    read_lem os reliable path files f there,
    decoded,
    inserted,
    write_config_lem path config' files f there carried,
  )

  pub uninstall_config_lem :
      (path : Text) (config config' : Fields) (files : Files) (f : File)
      → files path ≡ some f
      → codec.decode f.content ≡ some config'
      → remove_cni_plugin_config config' ≡ ok config
      → (carried : IsCarried codec config) → is_empty path ≡ false
      → clean_config os codec path files
        ≡ put path (record f { content = carried.text ++ codes "\n" }) files
  unfolding clean_config uninstall_cni_config
  uninstall_config_lem path config config' files f there decoded removed carried named = rw (
    named,
    file_exists_lem os reliable path files,
    there,
    read_lem os reliable path files f there,
    decoded,
    removed,
    write_config_lem path config files f there carried,
  )

  -- On a system that refuses no call: where the file of the CNI configuration holds a list of
  -- objects, none of them the plugin's, and the file that Install wrote is as it was when Uninstall
  -- begins, Uninstall gives the file the configuration that it held before, and its permissions.
  -- The two configurations are such that the codec carries them to a file and back.
  pub update-uninstall :
      (cfg : Config) (p : Progress) (plugin config config' : Fields) (entries : Items)
      → (files later : Files) (f : File) → files p.cni_config_filepath ≡ some f
      → codec.decode f.content ≡ some config
      → IsWf config entries
      → count_ours entries ≡ 0
      → is_ours plugin ≡ true
      → insert_cni_plugin_config plugin config ≡ ok config'
      → IsCarried codec config
      → IsCarried codec config'
      → later p.cni_config_filepath
        ≡ (update_config os codec plugin p.cni_config_filepath files).1 p.cni_config_filepath
      → is_empty p.cni_config_filepath ≡ false
      → text_eq (binary_path cfg) p.cni_config_filepath ≡ false
      → text_eq p.kubeconfig_filepath p.cni_config_filepath ≡ false
      → (text : Text) × (codec.decode text ≡ some config)
        × (uninstall os codec cfg p later p.cni_config_filepath
            ≡ some (record f { content = text }))
  unfolding uninstall
  update-uninstall cfg p plugin config config' entries files later f there decoded wf absent ours
        inserted carried carried' kept named not_binary not_kube =
      let path = p.cni_config_filepath in
      let self = (text_eq_iff path path).1 refl in
      let restored = remove-insert config entries wf plugin ours absent in
      let same = ok-injective restored.0 config' (sym restored.1 ∙ inserted) in
      let removed = ap (λ (c : Fields). remove_cni_plugin_config c) (sym same) ∙ restored.2 in
      let updated =
        update_config_lem path plugin config config' files f there decoded inserted carried' in
      let left =
        kept ∙ ap (λ (r : Result InstallError Text × Files). r.1 path) updated ∙ rw self refl in
      (
        carried.text ++ codes "\n",
        carried.decoded,
        clean_file-other os reliable (binary_path cfg) path _ not_binary
            ∙ clean_kubeconfig-other os reliable p.kubeconfig_filepath path _ not_kube
            ∙ ap (λ (h : Files). h path)
                (uninstall_config_lem path config config' later
                  (record f { content = carried'.text ++ codes "\n" }) left carried'.decoded removed
                  carried named)
            ∙ rw self refl,
      )
