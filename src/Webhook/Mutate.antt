-- ===== src/Webhook/Mutate.antt =====
-- internal/webhook/mutate.go: the mutating webhook.
pub mod Patching
pub mod Outcome
use gopher_cni.Prelude.{
  Option, none, some, List, [], ◌∷◌, ◌++◌, if◌then◌else◌, Result, ok, err, ◌>>=◌,
}
use gopher_cni.Go.Text.{Text, is_empty}
use gopher_cni.Go.Dict.{get_or_empty}
use gopher_cni.Cni.{annotation_wg_conf_secret}
use gopher_cni.Kubernetes.{Pod, Container}
use gopher_cni.Wireguard.Parser.{Decoders}
use gopher_cni.Webhook.Types.{
  PatchOperation, add, init_containers, init_containers_end, container_list, container,
  WebhookConfig, has_container, create_init_container, init_container_name,
}
use gopher_cni.Webhook.Admission.{
  Codec, AdmissionRequest, AdmissionResponse, Prepared, process, early, prepare_pod, allow,
  allow_with, deny, missing_annotation, patches_failed, marshal_failed, value_required,
}
use gopher_cni.Webhook.SplitDns.{DnsError, create_dns_patches}

module _ (c : WebhookConfig) where
  unfoldable pub init_patch : List Container → PatchOperation
  init_patch [] = record {
    op = add;
    path = init_containers;
    value = container_list (create_init_container c ∷ []);
  }
  init_patch (x ∷ xs) = record {
    op = add;
    path = init_containers_end;
    value = container (create_init_container c);
  }

  -- createInitContainerPatches, whose error is always nil
  unfoldable pub create_init_container_patches : Pod → List PatchOperation
  unfolding init_patch
  create_init_container_patches pod =
      if has_container pod.spec.init_containers init_container_name
      then []
      else init_patch pod.spec.init_containers ∷ []

module _ (d : Decoders) (c : WebhookConfig) where
  -- createPatches
  unfoldable pub create_patches : Pod → Result DnsError (List PatchOperation)
  create_patches pod = do
    dns_patches ← create_dns_patches d c pod
    ok (create_init_container_patches c pod ++ dns_patches)

  unfoldable pub marshalled : Option Text → AdmissionResponse
  marshalled none = deny marshal_failed 500 []
  marshalled (some patch) = allow_with patch

  unfoldable pub patched : Codec → Result DnsError (List PatchOperation) → AdmissionResponse
  unfolding marshalled
  patched codec (err e) = deny patches_failed 500 []
  patched codec (ok []) = allow
  patched codec (ok (p ∷ ps)) = marshalled (codec.encode_patches (p ∷ ps))

  unfoldable pub mutate_prepared : Codec → Prepared → AdmissionResponse
  unfolding patched
  mutate_prepared codec (early response) = response
  mutate_prepared codec (process pod) =
      if is_empty (get_or_empty annotation_wg_conf_secret pod.annotations)
      then deny missing_annotation 422 (value_required annotation_wg_conf_secret ∷ [])
      else patched codec (create_patches pod)

  -- (*MutateHandler).mutate
  unfoldable pub mutate : Codec → AdmissionRequest → AdmissionResponse
  unfolding mutate_prepared
  mutate codec req = mutate_prepared codec (prepare_pod codec req)
