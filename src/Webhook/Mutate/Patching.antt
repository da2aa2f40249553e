-- ===== src/Webhook/Mutate/Patching.antt =====
-- The patches of the mutating webhook, applied to the pod that they were made for. How a JSON
-- patch changes a document (RFC 6902) is stated here, apart from the code, for the paths in use: an
-- `add` at a field sets it, an `add` at `-` appends to a list that is there, and a `replace` wants
-- the field to be there. An empty list of a pod and an empty DNS policy are left out of its JSON.
use gopher_cni.Prelude.{
  ◌≡◌, refl, inl, inr, true, Option, none, some, List, [], ◌∷◌, ◌++◌, arith, Bool-cases, Nil-cases,
  if◌then◌else◌,
}
use gopher_cni.Go.Text.{Text, text_eq_iff, is_empty}
use gopher_cni.Kubernetes.{Pod, PodSpec, Container, Volume}
use gopher_cni.Webhook.Types.{
  PatchOperation, Op, add, replace, PatchPath, init_containers, init_containers_end, volumes,
  volumes_end, containers_end, dns_policy, dns_config, PatchValue, container_list, container,
  volume_list, volume, policy, pod_dns_config, WebhookConfig, has_container, init_container_name,
  create_init_container,
}
use gopher_cni.Webhook.Mutate.{create_init_container_patches}

-- append to a list that the document has
append_to : {A : Type 0} → List A → A → Option (List A)
append_to [] x = none
append_to (y ∷ ys) x = some ((y ∷ ys) ++ x ∷ [])

with_init : PodSpec → Option (List Container) → Option PodSpec
with_init s none = none
with_init s (some cs) = some (record s { init_containers = cs })

with_containers : PodSpec → Option (List Container) → Option PodSpec
with_containers s none = none
with_containers s (some cs) = some (record s { containers = cs })

with_volumes : PodSpec → Option (List Volume) → Option PodSpec
with_volumes s none = none
with_volumes s (some vs) = some (record s { volumes = vs })

-- An operation at a path with a value of the path's kind; any other is refused.
operate : PodSpec → Op → PatchPath → PatchValue → Option PodSpec
unfolding with_init with_containers with_volumes append_to
operate s add init_containers (container_list cs) = some (record s { init_containers = cs })
operate s add init_containers_end (container c) = with_init s (append_to s.init_containers c)
operate s add volumes (volume_list vs) = some (record s { volumes = vs })
operate s add volumes_end (volume v) = with_volumes s (append_to s.volumes v)
operate s add containers_end (container c) = with_containers s (append_to s.containers c)
operate s add dns_config (pod_dns_config c) = some (record s { dns_config = some c })
operate s replace dns_policy (policy p) =
    if is_empty s.dns_policy then none else some (record s { dns_policy = p })
operate s _ _ _ = none

unfoldable pub apply_patches : PodSpec → List PatchOperation → Option PodSpec
unfolding operate
apply_patches s [] = some s
apply_patches s (p ∷ ps) = elim (operate s p.op p.path p.value) [
  | none ↦ none
  | some s' ↦ apply_patches s' ps
]

pub has_container-append :
    (cs : List Container) (c : Container) (name : Text)
    → c.name ≡ name
    → has_container (cs ++ c ∷ []) name ≡ true
unfolding has_container
has_container-append [] c name e = rw (e, (text_eq_iff name name).1 refl)
has_container-append (x ∷ cs) c name e = ground (arith, has_container-append cs c name e)

module _ (c : WebhookConfig) where
  -- The init containers with the validator among them.
  pub with_validator : List Container → List Container
  with_validator cs =
      if has_container cs init_container_name then cs else cs ++ create_init_container c ∷ []

  pub with_validator-has_container :
      (cs : List Container) → has_container (with_validator cs) init_container_name ≡ true
  unfolding with_validator create_init_container
  with_validator-has_container cs = elim (Bool-cases (has_container cs init_container_name)) [
    | inl e ↦ rw e e
    | inr e ↦ rw e (has_container-append cs _ init_container_name refl)
  ]

  -- The validator is appended, or is there already.
  pub apply-init_patches :
      (pod : Pod) (ps : List PatchOperation)
      → apply_patches pod.spec (create_init_container_patches c pod ++ ps)
        ≡ apply_patches
            (record pod.spec { init_containers = with_validator pod.spec.init_containers })
            ps
  unfolding create_init_container_patches apply_patches with_validator
  apply-init_patches pod ps =
      elim (Bool-cases (has_container pod.spec.init_containers init_container_name)) [
        | inl e ↦ rw e
        | inr e ↦ elim (Nil-cases pod.spec.init_containers) [
          | inl n ↦ ground (arith, e, n)
          | inr (x, xs, n) ↦ ground (arith, e, n)
        ]
      ]
