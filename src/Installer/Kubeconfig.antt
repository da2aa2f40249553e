-- ===== src/Installer/Kubeconfig.antt =====
-- internal/installer/kubeconfig.go: the kubeconfig file of the plugin.
pub mod Escaping
use gopher_cni.Actions.{Action, done, ◌>>=◌, ◌>>◌}
use gopher_cni.Go.Base64.{encode_base64, escape}
use gopher_cni.Go.Path.{join}
use gopher_cni.Go.Text.{Text, codes, is_empty}
use gopher_cni.Installer.CniConfig.{ConfigError}
use gopher_cni.Installer.Config.{Config}
use gopher_cni.Installer.Os.{kept_mode, File, Files, Io, Os, OsError, file_exists, put, read, write}
use gopher_cni.Installer.Os.Reliable.{IsReliable, file_exists_lem, read_lem, write_lem}
use gopher_cni.Prelude.{[], err, false, if◌then◌else◌, ok, refl, some, wrap, ◌++◌, ◌∷◌, ◌≡◌}

pub data InstallError : Type 0 where
  os_error : OsError → InstallError
  no_service_host no_service_port : InstallError
  no_ca_file no_token_file : Text → InstallError
  config_error : ConfigError → InstallError
  no_default_network invalid_config_list no_networks : InstallError
  config_removed : Text → InstallError
  not_json not_marshalled : InstallError
  -- The loop of getCNIConfig goes on beyond the fuel of the model.
  still_waiting : InstallError

-- A call of the operating system, whose error is wrapped.
abbrev pub calling : {A : Type 0} → Io A → Action InstallError Files A
calling m files = let r = m files in (wrap os_error r.0, r.1)

abbrev pub service_account_path : Text
service_account_path = codes "/var/run/secrets/kubernetes.io/serviceaccount"

-- kubeconfigTemplate, with these texts in the places of its fields
unfoldable pub fill_template : Text → Text → Text → Text → Text → Text
fill_template protocol host port tls_config token =
    codes
      "# Kubeconfig file for Gopher CNI plugin.\napiVersion: v1\nkind: Config\nclusters:\n- name: local\n  cluster:\n    server: "
    ++ (protocol
        ++ (codes "://"
            ++ (host
                ++ (codes ":"
                    ++ (port
                        ++ (codes "\n    "
                            ++ (tls_config
                                ++ (codes "\nusers:\n- name: cni\n  user:\n    token: \""
                                    ++ (token
                                        ++ codes
                                            "\"\ncontexts:\n- name: cni-context\n  context:\n    cluster: local\n    user: cni\ncurrent-context: cni-context\n")))))))))

-- The template executed: html/template escapes each field.
unfoldable pub render_kubeconfig : Text → Text → Text → Text → Text → Text
render_kubeconfig protocol host port tls_config token =
    fill_template (escape protocol) (escape host) (escape port) (escape tls_config) (escape token)

abbrev pub ca_data_key : Text
ca_data_key = codes "certificate-authority-data: "

module _ (os : Os) where
  abbrev pub ca_file_of : Config → Text
  ca_file_of cfg =
      if is_empty cfg.k8s_ca_file then service_account_path ++ codes "/ca.crt" else cfg.k8s_ca_file

  -- the contents of a file that is there
  unfoldable pub read_existing : (Text → InstallError) → Text → Action InstallError Files Text
  read_existing missing path files =
      if file_exists os path files
      then calling (read os path) files
      else (err (missing path), files)

  unfoldable pub tls_config : Config → Action InstallError Files Text
  unfolding read_existing
  tls_config cfg files =
      if cfg.k8s_skip_tls_verify
      then (ok (codes "insecure-skip-tls-verify: true"), files)
      else (do
        contents ← read_existing no_ca_file (ca_file_of cfg)
        done (ca_data_key ++ encode_base64 contents))
          files

  abbrev pub kubeconfig_path : Config → Text
  kubeconfig_path cfg = join (cfg.mounted_host_dir ∷ cfg.cni_net_dir ∷ cfg.kubeconfig_filename ∷ [])

  -- the part of createKubeconfigFile behind its two checks
  unfoldable pub write_kubeconfig : Config → Text → Action InstallError Files Text
  write_kubeconfig cfg sa_token = do
    tls ← tls_config cfg
    calling (
        write os (kubeconfig_path cfg)
          (render_kubeconfig cfg.k8s_service_protocol cfg.k8s_service_host cfg.k8s_service_port tls
            sa_token)
          cfg.kubeconfig_mode)
    done (kubeconfig_path cfg)

  -- createKubeconfigFile
  unfoldable pub create_kubeconfig_file : Config → Text → Action InstallError Files Text
  create_kubeconfig_file cfg sa_token files =
      if is_empty cfg.k8s_service_host
      then (err no_service_host, files)
      else if is_empty cfg.k8s_service_port
      then (err no_service_port, files)
      else write_kubeconfig cfg sa_token files

  -- readServiceAccountToken
  unfoldable pub read_service_account_token : Action InstallError Files Text
  unfolding read_existing
  read_service_account_token = read_existing no_token_file (service_account_path ++ codes "/token")

module _ (os : Os) (reliable : IsReliable os) where
  -- On a system that refuses no call, what is there is read.
  pub read_existing_lem :
      (missing : Text → InstallError) (path : Text) (files : Files) (f : File)
      → files path ≡ some f
      → read_existing os missing path files ≡ (ok f.content, files)
  unfolding read_existing
  read_existing_lem missing path files f there =
      rw (file_exists_lem os reliable path files, there, read_lem os reliable path files f there)
        refl

  pub create_kubeconfig_file_lem :
      (cfg : Config) (token : Text) (files : Files) (ca : File)
      → is_empty cfg.k8s_service_host ≡ false
      → is_empty cfg.k8s_service_port ≡ false
      → cfg.k8s_skip_tls_verify ≡ false
      → files (ca_file_of os cfg) ≡ some ca
      → (f : File) × (create_kubeconfig_file os cfg token files
          ≡ (ok (kubeconfig_path os cfg), put (kubeconfig_path os cfg) f files))
  unfolding create_kubeconfig_file write_kubeconfig tls_config
  create_kubeconfig_file_lem cfg token files ca host port verified there = (
    record {
      content =
          render_kubeconfig cfg.k8s_service_protocol cfg.k8s_service_host cfg.k8s_service_port
            (ca_data_key ++ encode_base64 ca.content) token;
      mode = kept_mode os cfg.kubeconfig_mode (files (kubeconfig_path os cfg));
    },
    rw
        (
          host,
          port,
          verified,
          read_existing_lem no_ca_file (ca_file_of os cfg) files ca there,
          write_lem os reliable (kubeconfig_path os cfg) _ cfg.kubeconfig_mode files,
        )
        refl,
  )
