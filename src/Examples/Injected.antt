-- ===== src/Examples/Injected.antt =====
-- The init containers of internal/sidecar, and GetEnv, on concrete values.
use gopher_cni.Examples.Fixtures.{webhook_config}
use gopher_cni.Go.Text.{Text, codes, is_empty}
use gopher_cni.Prelude.{[], false, refl, some, ◌∷◌, ◌≡◌}
use gopher_cni.Sidecar.{
  FileSystem, corefile_handed_over, corefile_path, env_of, run_write_core_dns_config, success,
}
use gopher_cni.Webhook.Types.{
  create_core_dns_config_init_container, create_core_dns_sidecar_container,
}

-- The state is the text of the file.
abbrev one_file : FileSystem Text
one_file = record { mkdir_all = λ s dir. some s; write_file = λ s path data'. some data' }

not_empty : is_empty (codes ". {}") ≡ false
unfolding is_empty codes
not_empty = refl

sidecar_args :
    (create_core_dns_sidecar_container webhook_config).args ≡ codes "-conf" ∷ corefile_path ∷ []
unfolding create_core_dns_sidecar_container
sidecar_args = refl

corefile_handed_over_example :
    run_write_core_dns_config one_file
      (env_of (create_core_dns_config_init_container webhook_config (codes ". {}")).env)
      (codes "")
    ≡ (success, codes ". {}")
corefile_handed_over_example =
    corefile_handed_over one_file webhook_config (codes ". {}") corefile_path (codes "") (codes "")
      (codes ". {}") not_empty sidecar_args refl refl
