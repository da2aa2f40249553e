-- ===== src/Cmd/WriteCorednsConfig.antt =====
-- cmd/write-coredns-config/write_coredns_config.go: Run, which writes the Corefile of the environment.
use gopher_cni.Go.Dict.{Dict, get_or_empty}
use gopher_cni.Go.Text.{codes, is_empty}
use gopher_cni.Prelude.{
  Bool-cases, Option, Option-cases, inl, inr, if◌then◌else◌, none, refl, some, ◌≡◌,
}
use gopher_cni.Sidecar.{
  Exit, FileSystem, failure, run_write_core_dns_config, success, write_corefile, written,
}

module _ {S : Type 0} (fs : FileSystem S) where
  exit_on_error : S → Option S → (S → Exit × S) → Exit × S
  exit_on_error s none next = (failure, s)
  exit_on_error s (some s') next = next s'

  -- Run, in an environment
  unfoldable pub run : Dict → S → Exit × S
  unfolding exit_on_error
  run env s =
      let corefile = get_or_empty (codes "COREFILE") env in
      if is_empty corefile
      then (failure, s)
      else exit_on_error s (fs.mkdir_all s (codes "/etc/coredns")) (λ s'.
        exit_on_error s' (fs.write_file s' (codes "/etc/coredns/Corefile") corefile)
          (λ s''. (success, s'')))

  -- It does what the sidecar's RunWriteCoreDNSConfig does, errors included.
  run-run_write_core_dns_config :
      (env : Dict) (s : S) → run env s ≡ run_write_core_dns_config fs env s
  unfolding run exit_on_error run_write_core_dns_config write_corefile written
  run-run_write_core_dns_config env s =
      let corefile = get_or_empty (codes "COREFILE") env in
      elim (Bool-cases (is_empty corefile)) [
        | inl e ↦ rw e refl
        | inr e ↦ elim (Option-cases (fs.mkdir_all s (codes "/etc/coredns"))) [
          | inl none_made ↦ rw (e, none_made) refl
          | inr (s', made) ↦
              elim (Option-cases (fs.write_file s' (codes "/etc/coredns/Corefile") corefile)) [
                | inl refused ↦ rw (e, made, refused) refl
                | inr (s'', stored) ↦ rw (e, made, stored) refl
              ]
        ]
      ]
