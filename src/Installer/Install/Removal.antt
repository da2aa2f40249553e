-- ===== src/Installer/Install/Removal.antt =====
-- What Uninstall leaves of the files on the node.
use gopher_cni.Go.Text.{Text, is_empty, text_eq, text_eq_iff}
use gopher_cni.Installer.CniFile.{JsonCodec, Libcni}
use gopher_cni.Installer.Config.{Config}
use gopher_cni.Installer.Install.{
  Progress, binary_path, clean_config, clean_file, clean_kubeconfig, install, set_up_node,
  uninstall, waited,
}
use gopher_cni.Installer.Install.Cleanup.{
  clean_config-other, clean_file-other, clean_file_self, clean_kubeconfig-none,
  clean_kubeconfig-other, clean_kubeconfig_self,
}
use gopher_cni.Installer.Os.{File, Files, Os}
use gopher_cni.Installer.Os.Reliable.{IsReliable}
use gopher_cni.Prelude.{
  Bool, Bool-cases, Option, ap, false, if◌then◌else◌, inl, inr, none, not, refl, subst, true, ℕ,
  ◌&&◌, ◌||◌, ◌∙◌, ◌≡◌,
}

-- the paths of the files that Uninstall removes: the plugin's binary and, where Install set one up,
-- its kubeconfig
abbrev pub is_removed : Config → Progress → Text → Bool
is_removed cfg p q =
    text_eq (binary_path cfg) q
    || (not (is_empty p.kubeconfig_filepath) && text_eq p.kubeconfig_filepath q)

if-if_or :
    {A : Type 0} (a b : Bool) (x y : A)
    → (if a then x else if b then x else y) ≡ (if a || b then x else y)
if-if_or true b x y = refl
if-if_or false b x y = refl

module _ (os : Os) (reliable : IsReliable os) where
  kubeconfig_cleaned :
      (kube q : Text) (files : Files)
      → clean_kubeconfig os kube files q
        ≡ (if not (is_empty kube) && text_eq kube q then none else files q)
  kubeconfig_cleaned kube q files = elim (Bool-cases (text_eq kube q)) [
    | inl e ↦ elim (Bool-cases (is_empty kube)) [
      | inl empty ↦ rw (empty, clean_kubeconfig-none os reliable kube files empty) refl
      | inr named ↦
          rw (named, e)
            (subst (λ (x : Text). clean_kubeconfig os kube files x ≡ none)
              ((text_eq_iff kube q).0 e) (clean_kubeconfig_self os reliable kube files named))
    ]
    | inr ne ↦ elim (Bool-cases (is_empty kube)) [
      | inl empty ↦ rw (empty) (clean_kubeconfig-other os reliable kube q files ne)
      | inr named ↦ rw (named, ne) (clean_kubeconfig-other os reliable kube q files ne)
    ]
  ]

  file_cleaned :
      (path q : Text) (files : Files)
      → clean_file os path files q ≡ (if text_eq path q then none else files q)
  file_cleaned path q files = elim (Bool-cases (text_eq path q)) [
    | inl e ↦ rw e (
        subst (λ (x : Text). clean_file os path files x ≡ none) ((text_eq_iff path q).0 e)
          (clean_file_self os reliable path files))
    | inr ne ↦ rw ne (clean_file-other os reliable path q files ne)
  ]

module _ (os : Os) (reliable : IsReliable os) (codec : JsonCodec) (cfg : Config) where
  -- On a system that refuses no call, Uninstall leaves no plugin binary, whatever paths Install gave
  -- it, and no kubeconfig where it was given a path; every other file, but that of the CNI
  -- configuration, stays as it is.
  pub uninstall-removes :
      (p : Progress) (files : Files) (q : Text)
      → text_eq p.cni_config_filepath q ≡ false
      → uninstall os codec cfg p files q ≡ (if is_removed cfg p q then none else files q)
  unfolding uninstall
  uninstall-removes p files q nc =
      let configured = clean_config os codec p.cni_config_filepath files in
      let named = not (is_empty p.kubeconfig_filepath) && text_eq p.kubeconfig_filepath q in
      file_cleaned os reliable (binary_path cfg) q
        (clean_kubeconfig os p.kubeconfig_filepath configured)
      ∙ ap (λ (o : Option File). if text_eq (binary_path cfg) q then none else o)
          (kubeconfig_cleaned os reliable p.kubeconfig_filepath q configured
            ∙ ap (λ (o : Option File). if named then none else o)
                (clean_config-other os reliable codec p.cni_config_filepath q files nc))
      ∙ if-if_or (text_eq (binary_path cfg) q) named none (files q)

  uninstall-none :
      (p : Progress) (files : Files) (q : Text)
      → is_removed cfg p q ≡ true
      → uninstall os codec cfg p files q ≡ none
  unfolding uninstall
  uninstall-none p files q e =
      let configured = clean_config os codec p.cni_config_filepath files in
      file_cleaned os reliable (binary_path cfg) q
        (clean_kubeconfig os p.kubeconfig_filepath configured)
      ∙ ap (λ (o : Option File). if text_eq (binary_path cfg) q then none else o)
          (kubeconfig_cleaned os reliable p.kubeconfig_filepath q configured)
      ∙ if-if_or (text_eq (binary_path cfg) q) _ none (configured q)
      ∙ rw e refl

module _ (os : Os) (reliable : IsReliable os) (codec : JsonCodec) (cfg : Config) (lib : Libcni)
    (sleep : ℕ → Files → Files) (fuel : ℕ) where
  -- On a system that refuses no call, neither the plugin's binary nor the kubeconfig that it set up
  -- is on the node once Install has returned, with an error or after its wait, whatever the others
  -- did to the files meanwhile.
  pub install-leaves :
      (wait : Files → Files) (files : Files) (q : Text)
      → let p = (set_up_node os codec cfg lib sleep fuel files).0 in
        is_removed cfg p q ≡ true → (install os codec cfg lib sleep fuel wait files).1 q ≡ none
  unfolding install
  install-leaves wait files q e =
      let r = set_up_node os codec cfg lib sleep fuel files in
      uninstall-none os reliable codec cfg r.0 (waited os codec cfg lib sleep fuel wait r.0 r.1) q e
