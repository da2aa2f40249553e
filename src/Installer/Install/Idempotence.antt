-- ===== src/Installer/Install/Idempotence.antt =====
-- Uninstall of internal/installer/install.go, run twice.
use gopher_cni.Go.Json.{Fields, Items, set_field-set_field}
use gopher_cni.Go.Text.{Text, codes, is_empty, text_eq, text_eq_iff}
use gopher_cni.Installer.CniConfig.{remove_cni_plugin_config}
use gopher_cni.Installer.CniConfig.Entries.{
  AreObjects-others, count_ours-others, others, others_none,
}
use gopher_cni.Installer.CniConfig.Laws.{IsWf, others-IsWf, remove_lem, with_entries}
use gopher_cni.Installer.CniFile.{JsonCodec}
use gopher_cni.Installer.Config.{Config}
use gopher_cni.Installer.Install.{Progress, binary_path, uninstall}
use gopher_cni.Installer.Install.Cleanup.{clean_file-other, clean_kubeconfig-other}
use gopher_cni.Installer.Install.Removal.{is_removed, uninstall-removes}
use gopher_cni.Installer.Install.Restore.{IsCarried, uninstall_config_lem}
use gopher_cni.Installer.Os.{File, Files, Os}
use gopher_cni.Installer.Os.Reliable.{IsReliable}
use gopher_cni.Prelude.{Bool-cases, ap, false, inl, inr, ok, refl, some, subst, sym, ◌++◌, ◌∙◌, ◌≡◌}

-- What is left of a configuration has nothing more to remove.
remove-others :
    (config : Fields) (entries : Items)
    → IsWf config entries
    → remove_cni_plugin_config (with_entries (others entries) config)
      ≡ ok (with_entries (others entries) config)
unfolding with_entries
remove-others config entries wf =
    remove_lem (with_entries (others entries) config) (others entries)
      (others-IsWf config entries wf)
    ∙ ap (λ (es : Items). ok (with_entries es (with_entries (others entries) config)))
        (others_none (others entries) (AreObjects-others entries wf.are_objects)
          (count_ours-others entries))
    ∙ ap ok (set_field-set_field _ _ _ config)

module _ (os : Os) (reliable : IsReliable os) (codec : JsonCodec) (cfg : Config) (p : Progress)
    (named : is_empty p.cni_config_filepath ≡ false)
    (not_binary : text_eq (binary_path cfg) p.cni_config_filepath ≡ false)
    (not_kube : text_eq p.kubeconfig_filepath p.cni_config_filepath ≡ false) where
  -- The file of the CNI configuration, after Uninstall.
  uninstalled_config :
      (config config' : Fields) (files : Files) (f : File)
      → files p.cni_config_filepath ≡ some f
      → codec.decode f.content ≡ some config'
      → remove_cni_plugin_config config' ≡ ok config
      → (carried : IsCarried codec config)
      → uninstall os codec cfg p files p.cni_config_filepath
        ≡ some (record f { content = carried.text ++ codes "\n" })
  unfolding uninstall
  uninstalled_config config config' files f there decoded removed carried =
      let path = p.cni_config_filepath in
      clean_file-other os reliable (binary_path cfg) path _ not_binary
      ∙ clean_kubeconfig-other os reliable p.kubeconfig_filepath path _ not_kube
      ∙ ap (λ (h : Files). h path)
          (uninstall_config_lem os reliable codec path config config' files f there decoded removed
            carried named)
      ∙ rw ((text_eq_iff path path).1 refl) refl

  removed_twice :
      (files : Files) (q : Text)
      → text_eq p.cni_config_filepath q ≡ false
      → uninstall os codec cfg p (uninstall os codec cfg p files) q
        ≡ uninstall os codec cfg p files q
  removed_twice files q differs =
      let once = uninstall-removes os reliable codec cfg p files q differs in
      uninstall-removes os reliable codec cfg p (uninstall os codec cfg p files) q differs
      ∙ elim (Bool-cases (is_removed cfg p q)) [
        | inl e ↦ rw e (sym (once ∙ rw e refl))
        | inr e ↦ rw e refl
      ]

  -- On a system that refuses no call, where the file of the CNI configuration holds a list of
  -- objects, one of them at most the plugin's, and the codec carries to a file and back what is
  -- left of it without the plugin's entry: a second Uninstall changes no file.
  pub uninstall-uninstall :
      (files : Files) (f : File) (config : Fields) (entries : Items)
      → files p.cni_config_filepath ≡ some f
      → codec.decode f.content ≡ some config
      → IsWf config entries
      → IsCarried codec (with_entries (others entries) config)
      → (q : Text)
      → uninstall os codec cfg p (uninstall os codec cfg p files) q
        ≡ uninstall os codec cfg p files q
  uninstall-uninstall files f config entries there decoded wf carried q =
      let path = p.cni_config_filepath in
      let left = with_entries (others entries) config in
      let once =
        uninstalled_config left config files f there decoded (remove_lem config entries wf)
          carried in
      let twice =
        uninstalled_config left left (uninstall os codec cfg p files) _ once carried.decoded
          (remove-others config entries wf) carried in
      elim (Bool-cases (text_eq path q)) [
        | inr differs ↦ removed_twice files q differs
        | inl same ↦
            subst
              (λ (r : Text).
                uninstall os codec cfg p (uninstall os codec cfg p files) r
                ≡ uninstall os codec cfg p files r)
              ((text_eq_iff path q).0 same) (twice ∙ sym once)
      ]
