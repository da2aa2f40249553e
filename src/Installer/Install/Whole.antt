-- ===== src/Installer/Install/Whole.antt =====
-- Install from its start to its end, where nothing stands in its way.
use gopher_cni.Go.Json.{Fields, Items}
use gopher_cni.Go.Path.{base, join, trim_prefix}
use gopher_cni.Go.Text.{Text, codes, is_empty, text_eq}
use gopher_cni.Installer.Binaries.Copy.{copy_plugin_binary-copied}
use gopher_cni.Installer.CniConfig.{insert_cni_plugin_config, is_ours}
use gopher_cni.Installer.CniConfig.Entries.{count_ours}
use gopher_cni.Installer.CniConfig.Laws.{IsWf}
use gopher_cni.Installer.CniFile.{
  JsonCodec, Libcni, create_cni_config_file, get_default_cni_network, install_cni_config,
  update_config,
}
use gopher_cni.Installer.CniFile.Network.{await_network-stops}
use gopher_cni.Installer.Config.{Config, PluginEntry, get_plugin_config}
use gopher_cni.Installer.Install.{
  InstallError, after_config, after_token, after_kubeconfig, after_copy, Progress, binary_path,
  install, set_up_node, source_path, target_dir, uninstall, waited,
}
use gopher_cni.Installer.Install.Restore.{IsCarried, update-uninstall, update_config_lem}
use gopher_cni.Installer.Kubeconfig.{
  ca_file_of, create_kubeconfig_file_lem, kubeconfig_path, no_token_file, os_error,
  read_existing_lem, read_service_account_token, service_account_path,
}
use gopher_cni.Installer.Os.{File, Files, Os, OsError, put}
use gopher_cni.Installer.Os.Reliable.{IsReliable}
use gopher_cni.Prelude.{
  Result, [], ap, arith, false, none, ok, refl, some, suc, true, wrap, ℕ, ◌++◌, ◌∙◌, ◌∷◌, ◌≡◌, ◌≢◌,
  ok-injective,
}

abbrev pub token_path : Text
token_path = service_account_path ++ codes "/token"

-- where copyPluginBinary puts the binary
abbrev pub copied_path : Config → Text
copied_path cfg = join (target_dir cfg ∷ base (source_path cfg) ∷ [])

-- the directory in which Install looks for the CNI configuration
abbrev pub net_dir : Config → Text
net_dir cfg = join (cfg.mounted_host_dir ∷ cfg.cni_net_dir ∷ [])

module _ (os : Os) (reliable : IsReliable os) (codec : JsonCodec) (cfg : Config) (lib : Libcni)
    (sleep : ℕ → Files → Files) (fuel : ℕ) where
  -- what Install knows when it waits
  abbrev installed : Text → Progress
  installed path = record {
    kubeconfig_filepath = kubeconfig_path os cfg;
    cni_config_filepath = path;
    failed = none;
  }

  -- What the plugin's entry is made from.
  abbrev pub plugin_entry : PluginEntry
  plugin_entry = get_plugin_config cfg (trim_prefix (kubeconfig_path os cfg) cfg.mounted_host_dir)

  -- The file system holds what it held before, but for the copy of the binary and the kubeconfig.
  abbrev pub IsSameBeside : Files → Files → Type 0
  IsSameBeside files fs =
      (q : Text)
      → text_eq (copied_path cfg) q ≡ false
      → text_eq (kubeconfig_path os cfg) q ≡ false
      → fs q ≡ files q

  module _ (path : Text) (plugin config config' : Fields) (list : File) (files : Files)
      (named : is_empty path ≡ false) (made : codec.entry_fields plugin_entry ≡ some plugin)
      (looked : (fs : Files)
        → IsSameBeside files fs
        → get_default_cni_network lib (net_dir cfg) fs ≡ ok path)
      (decoded : codec.decode list.content ≡ some config)
      (inserted : insert_cni_plugin_config plugin config ≡ ok config')
      (carried : IsCarried codec config') where
    path_given : ◌≢◌ {A = Result InstallError Text} (ok path) (ok (codes ""))
    unfolding codes is_empty
    path_given e = cc (rw (ok-injective path [] e) at named)

    -- Install from the kubeconfig on.
    after_kubeconfig_lem :
        (fs : Files)
        → fs path ≡ some list
        → IsSameBeside files fs
        → after_kubeconfig os codec cfg lib sleep (suc fuel) (ok (kubeconfig_path os cfg), fs)
          ≡ (installed path, (update_config os codec plugin path fs).1)
    unfolding after_kubeconfig after_config create_cni_config_file install_cni_config
    after_kubeconfig_lem fs there same =
        rw
          (
            made,
            await_network-stops lib sleep (net_dir cfg) 0 (suc fuel) 0 fs (ok path) (omega arith)
                path_given (λ k lt. absurd (omega arith)) (looked fs same),
            update_config_lem os reliable codec path plugin config config' fs list there decoded
                inserted carried,
          )
          refl

    module _ (ca token : File) (host : is_empty cfg.k8s_service_host ≡ false)
        (port : is_empty cfg.k8s_service_port ≡ false) (verified : cfg.k8s_skip_tls_verify ≡ false)
        (ne_kube : text_eq (kubeconfig_path os cfg) path ≡ false) where
      -- Install from the copy of the binary on.
      after_copy_lem :
          (fs : Files)
          → fs token_path ≡ some token
          → fs (ca_file_of os cfg) ≡ some ca
          → fs path ≡ some list
          → ((q : Text) → text_eq (copied_path cfg) q ≡ false → fs q ≡ files q)
          → (later : Files) × (later path ≡ some list)
            × (after_copy os codec cfg lib sleep (suc fuel) (ok tt, fs)
                ≡ (installed path, (update_config os codec plugin path later).1))
      unfolding after_copy after_token read_service_account_token
      after_copy_lem fs has_token has_ca there same =
          let (kube, kube_lem) =
            create_kubeconfig_file_lem os reliable cfg token.content fs ca host port verified
              has_ca in
          let there' : put (kubeconfig_path os cfg) kube fs path ≡ some list = rw ne_kube there in
          let same' : IsSameBeside files (put (kubeconfig_path os cfg) kube fs) =
            λ q ne ne'. rw ne' (same q ne) in
          (
            put (kubeconfig_path os cfg) kube fs,
            there',
            rw (read_existing_lem os reliable no_token_file token_path fs token has_token, kube_lem)
                (after_kubeconfig_lem (put (kubeconfig_path os cfg) kube fs) there' same'),
          )

      -- On a system that refuses no call, with the host and the port of the API server set and its
      -- certificate to be verified: where the binary, the token, the CA file and the file of a CNI
      -- configuration are there, the look for a configuration finds this file on the node as it is,
      -- whatever is under the paths of the binary's copy and of the kubeconfig, the file's list
      -- holds objects, none of them the plugin's, and the codec makes the plugin's entry and
      -- carries the list before and after the insertion to a file and back, Install comes to its
      -- wait and returns no error; and if the file is left alone during the wait, it holds
      -- afterwards the configuration that it held before, with its permissions. The copy of the
      -- binary, the kubeconfig and the configuration are under paths of their own.
      pub install-restores :
          (wait : Files → Files) (binary : File) (entries : Items)
          → files (source_path cfg) ≡ some binary
          → files token_path ≡ some token
          → files (ca_file_of os cfg) ≡ some ca
          → files path ≡ some list
          → text_eq (copied_path cfg) (source_path cfg) ≡ false
          → text_eq (copied_path cfg) token_path ≡ false
          → text_eq (copied_path cfg) (ca_file_of os cfg) ≡ false
          → text_eq (copied_path cfg) path ≡ false
          → text_eq (binary_path cfg) path ≡ false
          → IsWf config entries
          → count_ours entries ≡ 0
          → is_ours plugin ≡ true
          → IsCarried codec config
          → ((fs : Files) → wait fs path ≡ fs path)
          → ((install os codec cfg lib sleep (suc fuel) wait files).0 ≡ none)
            × (text : Text) × (codec.decode text ≡ some config)
            × ((install os codec cfg lib sleep (suc fuel) wait files).1 path
                ≡ some (record list { content = text }))
      unfolding install set_up_node
      install-restores wait binary entries has_binary has_token has_ca has_list ne_source ne_token
            ne_ca ne_copied ne_binary wf absent ours carried_back left_alone =
          let (files1, copied, files1_lem) =
            copy_plugin_binary-copied os reliable (source_path cfg) (target_dir cfg) files binary
              has_binary ne_source in
          let (later, there, reached) =
            after_copy_lem files1 (files1_lem token_path ∙ rw ne_token has_token)
              (files1_lem (ca_file_of os cfg) ∙ rw ne_ca has_ca)
              (files1_lem path ∙ rw ne_copied has_list) (λ q ne. files1_lem q ∙ rw ne refl) in
          let updated = (update_config os codec plugin path later).1 in
          let whole : set_up_node os codec cfg lib sleep (suc fuel) files
              ≡ (installed path, updated) =
            ap
              (λ (r : Result OsError (Unit {0}) × Files).
                after_copy os codec cfg lib sleep (suc fuel) (wrap os_error r.0, r.1))
              copied
            ∙ reached in
          let (text, decoded_back, restored) =
            update-uninstall os reliable codec cfg (installed path) plugin config config' entries
              later (wait updated) list there decoded wf absent ours inserted carried_back carried
              (left_alone updated) named ne_binary ne_kube in
          (
            ap (λ (r : Progress × Files). r.0.failed) whole,
            text,
            decoded_back,
            ap
                  (λ (r : Progress × Files).
                    uninstall os codec cfg r.0
                      (waited os codec cfg lib sleep (suc fuel) wait r.0 r.1) path)
                  whole
                ∙ restored,
          )
