-- ===== src/Installer/Install/Cleanup.antt =====
-- What Uninstall takes off the node.
use gopher_cni.Actions.{Action, from, ◌>>=◌}
use gopher_cni.Go.Json.{Fields}
use gopher_cni.Go.Text.{Text, is_empty, text_eq, text_eq_iff}
use gopher_cni.Installer.CniConfig.{remove_cni_plugin_config}
use gopher_cni.Installer.CniFile.{JsonCodec, or_fail, uninstall_cni_config, write_cni_config_map}
use gopher_cni.Installer.Install.{clean_config, clean_file, clean_kubeconfig}
use gopher_cni.Installer.Kubeconfig.{calling, config_error, not_json}
use gopher_cni.Installer.Os.{Files, Os, file_exists, read}
use gopher_cni.Installer.Os.Reliable.{
  IsReliable, file_exists_lem, read-state, remove_lem, write_lem,
}
use gopher_cni.Prelude.{
  true, Bool-cases, Option-cases, Result-cases, ap, false, inl, inr, none, not, refl, wrap, ◌&&◌,
  ◌∙◌, ◌≡◌,
}

-- An action that leaves the file `q` as it is.
abbrev Keeps : {E A : Type 0} → Text → Action E Files A → Type 0
Keeps q m = (files : Files) → (m files).1 q ≡ files q

Keeps-and_then :
    {E A B : Type 0} (q : Text) (m : Action E Files A) (f : A → Action E Files B)
    → Keeps q m
    → ((a : A) → Keeps q (f a))
    → Keeps q (m >>= f)
Keeps-and_then q m f keep_m keep_f files = elim (Result-cases (m files).0) [
  | inl (a, e) ↦ rw e (keep_f a (m files).1 ∙ keep_m files)
  | inr (x, e) ↦ rw e (keep_m files)
]

module _ (os : Os) (reliable : IsReliable os) where
  pub clean_file_self : (path : Text) (files : Files) → clean_file os path files path ≡ none
  unfolding clean_file
  clean_file_self path files = elim (Option-cases (files path)) [
    | inl e ↦ rw (file_exists_lem os reliable path files, e) e
    | inr (f, e) ↦
        rw (file_exists_lem os reliable path files, e, remove_lem os reliable path files f e)
          (rw ((text_eq_iff path path).1 refl) refl)
  ]

  -- Another path is left alone.
  pub clean_file-other :
      (path q : Text) (files : Files)
      → text_eq path q ≡ false
      → clean_file os path files q ≡ files q
  unfolding clean_file
  clean_file-other path q files ne = elim (Option-cases (files path)) [
    | inl e ↦ rw (file_exists_lem os reliable path files, e) refl
    | inr (f, e) ↦
        rw (file_exists_lem os reliable path files, e, remove_lem os reliable path files f e)
          (rw ne refl)
  ]

  pub clean_kubeconfig-other :
      (path q : Text) (files : Files)
      → text_eq path q ≡ false
      → clean_kubeconfig os path files q ≡ files q
  unfolding clean_kubeconfig
  clean_kubeconfig-other path q files ne = elim (Bool-cases (is_empty path)) [
    | inl e ↦ rw e refl
    | inr e ↦ rw e (clean_file-other path q files ne)
  ]

  pub clean_kubeconfig-none :
      (path : Text) (files : Files) → is_empty path ≡ true → clean_kubeconfig os path files ≡ files
  unfolding clean_kubeconfig
  clean_kubeconfig-none path files e = rw e refl

  pub clean_kubeconfig_self :
      (path : Text) (files : Files)
      → is_empty path ≡ false
      → clean_kubeconfig os path files path ≡ none
  unfolding clean_kubeconfig
  clean_kubeconfig_self path files ne = rw ne (clean_file_self path files)

  module _ (codec : JsonCodec) where
    write_cni_config_map-other :
        (path q : Text) (config : Fields) (files : Files)
        → text_eq path q ≡ false
        → (write_cni_config_map os codec path config files).1 q ≡ files q
    unfolding write_cni_config_map
    write_cni_config_map-other path q config files ne = elim (Option-cases (codec.encode config)) [
      | inl e ↦ rw e refl
      | inr (content, e) ↦ rw (e, write_lem os reliable) (rw ne refl)
    ]

    uninstall_cni_config-other :
        (path q : Text) (files : Files)
        → text_eq path q ≡ false
        → (uninstall_cni_config os codec path files).1 q ≡ files q
    unfolding uninstall_cni_config
    uninstall_cni_config-other path q files ne =
        Keeps-and_then q (calling (read os path)) _
          (λ fs. ap (λ (h : Files). h q) (read-state os reliable path fs))
          (λ content.
            Keeps-and_then q (from (or_fail os codec not_json (codec.decode content))) _
              (λ fs. refl)
              (λ existing.
                Keeps-and_then q (from (wrap config_error (remove_cni_plugin_config existing))) _
                  (λ fs. refl) (λ config fs. write_cni_config_map-other path q config fs ne)))
          files

    pub clean_config-other :
        (path q : Text) (files : Files)
        → text_eq path q ≡ false
        → clean_config os codec path files q ≡ files q
    unfolding clean_config
    clean_config-other path q files ne =
        elim (Bool-cases (not (is_empty path) && file_exists os path files)) [
          | inl e ↦ rw e (uninstall_cni_config-other path q files ne)
          | inr e ↦ rw e refl
        ]
