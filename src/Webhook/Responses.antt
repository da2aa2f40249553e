-- ===== src/Webhook/Responses.antt =====
-- The responses of internal/webhook/admission.go, validate.go and mutate.go.
use gopher_cni.Go.Text.{Text, codes, text_eq}
use gopher_cni.Kubernetes.{Pod}
use gopher_cni.Prelude.{
  [], Bool-cases, List, Option, false, inl, inr, none, ok, refl, some, true, ◌∷◌, ◌≡◌, ◌⊎◌,
}
use gopher_cni.Webhook.Admission.{
  AdmissionRequest, AdmissionResponse, Codec, Prepared, decoded, early, in_namespace, injectable,
  prepare_pod, process,
}
use gopher_cni.Webhook.Mutate.{create_patches}
use gopher_cni.Webhook.Types.{PatchOperation, ValidationError, WebhookConfig, should_inject}
use gopher_cni.Webhook.Validate.{validate, validate_pod_spec, validate_prepared, verdict}
use gopher_cni.Wireguard.Parser.{Decoders}

-- A request for no pod, or for a pod that does not ask for the tunnel.
abbrev pub IsLeftAlone : Codec → AdmissionRequest → Type 0
IsLeftAlone codec req =
    (text_eq req.kind (codes "Pod") ≡ false)
    ⊎ ((pod : Pod) × (codec.decode_pod req.object ≡ some pod)
        × (should_inject (in_namespace req.namespace pod) ≡ false))

module _ (d : Decoders) (c : WebhookConfig) where
  pub verdict-allowed : (es : List ValidationError) → (verdict es).allowed ≡ true → es ≡ []
  unfolding verdict
  verdict-allowed [] h = refl
  verdict-allowed (e ∷ es) h = cc

  validate_prepared-allowed :
      (p : Prepared)
      → (validate_prepared d c p).allowed ≡ true
      → ((r : AdmissionResponse) × (p ≡ early r) × (r.allowed ≡ true))
        ⊎ ((pod : Pod) × (p ≡ process pod)
            × (validate_pod_spec d c pod.namespace pod.spec pod.annotations ≡ []))
  unfolding validate_prepared
  validate_prepared-allowed (early r) h = inl (r, refl, h)
  validate_prepared-allowed (process pod) h = inr (pod, refl, verdict-allowed _ h)

  decoded-early :
      (namespace : Text) (o : Option Pod) (r : AdmissionResponse)
      → decoded namespace o ≡ early r
      → r.allowed ≡ true
      → (pod : Pod) × (o ≡ some pod) × (should_inject (in_namespace namespace pod) ≡ false)
  unfolding decoded injectable
  decoded-early namespace none r e h = cc
  decoded-early namespace (some pod) r e h =
      elim (Bool-cases (should_inject (in_namespace namespace pod))) [
        | inl yes' ↦ cc (rw yes' at e)
        | inr no' ↦ (pod, refl, no')
      ]

  prepare_pod-early :
      (codec : Codec) (req : AdmissionRequest) (r : AdmissionResponse)
      → prepare_pod codec req ≡ early r
      → r.allowed ≡ true
      → IsLeftAlone codec req
  unfolding prepare_pod
  prepare_pod-early codec req r e h = elim (Bool-cases (text_eq req.kind (codes "Pod"))) [
    | inr differs ↦ inl differs
    | inl is_pod ↦
        inr (decoded-early req.namespace (codec.decode_pod req.object) r (rw is_pod at e) h)
  ]

  -- What the validating webhook allows is no pod, a pod that does not ask for the tunnel, or a pod
  -- in whose annotations and specification it finds no error.
  pub validate-allowed :
      (codec : Codec) (req : AdmissionRequest)
      → (validate d c codec req).allowed ≡ true
      → IsLeftAlone codec req
        ⊎ ((pod : Pod) × (prepare_pod codec req ≡ process pod)
            × (validate_pod_spec d c pod.namespace pod.spec pod.annotations ≡ []))
  unfolding validate
  validate-allowed codec req h = elim (validate_prepared-allowed (prepare_pod codec req) h) [
    | inl (r, e, allowed) ↦ inl (prepare_pod-early codec req r e allowed)
    | inr checked ↦ inr checked
  ]

  -- The patches that are sent to the API server.
  abbrev pub IsPatched : Codec → Pod → Text → Type 0
  IsPatched codec pod patch =
      (ps : List PatchOperation) × (create_patches d c pod ≡ ok ps)
      × (codec.encode_patches ps ≡ some patch)
