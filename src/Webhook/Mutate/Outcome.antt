-- ===== src/Webhook/Mutate/Outcome.antt =====
-- What the pod looks like once the patches of the mutating webhook are applied.
use gopher_cni.Prelude.{
  ◌≡◌, ◌≢◌, refl, ◌∙◌, inl, inr, true, false, some, List, [], ◌∷◌, ◌++◌, arith, Nil-cases, Result,
  ok, err,
}
use gopher_cni.Go.Text.{Text, codes, is_empty}
use gopher_cni.Go.Dict.{get_or_empty}
use gopher_cni.Cni.{annotation_wg_conf_secret, annotation_split_tunnel_dns_zones}
use gopher_cni.Kubernetes.{Pod, PodSpec, Container}
use gopher_cni.Wireguard.Parser.{Decoders}
use gopher_cni.Webhook.Types.{
  FetchError, PatchOperation, WebhookConfig, has_container, init_container_name,
  core_dns_container_name, create_core_dns_config_init_container, create_core_dns_sidecar_container,
}
use gopher_cni.Webhook.SplitDns.{
  first_or_empty, create_dns_patches, create_split_dns_patches, tunnel_dns_patches,
  nameserver_patches, sidecar_patches, core_dns_volume, get_tunnel_dns_servers, cluster_ip,
  generate_corefile, parse_dns_zones, container_exists, only_nameservers,
}
use gopher_cni.Webhook.Mutate.{create_init_container_patches, create_patches}
use gopher_cni.Webhook.Mutate.Patching.{
  has_container-append, apply_patches, with_validator, with_validator-has_container,
  apply-init_patches,
}

-- The DNS settings that the pod ends up with: the nameservers of the tunnel, if there are any, with
-- the policy None, and nothing of the searches and options that it had.
pub with_servers : PodSpec → List Text → PodSpec
with_servers s [] = s
with_servers s (n ∷ ns) = record s {
  dns_policy = codes "None";
  dns_config = some (only_nameservers (n ∷ ns));
}

-- The sidecar, the init container that writes its configuration, and the volume that both share.
pub with_sidecar : WebhookConfig → Text → PodSpec → PodSpec
with_sidecar c corefile s = record s {
  init_containers = s.init_containers ++ create_core_dns_config_init_container c corefile ∷ [];
  containers = s.containers ++ create_core_dns_sidecar_container c ∷ [];
  volumes = s.volumes ++ core_dns_volume ∷ [];
  dns_policy = codes "None";
  dns_config = some (only_nameservers (codes "127.0.0.1" ∷ []));
}

apply-tunnel_patches :
    (s : PodSpec) (servers : List Text)
    → is_empty s.dns_policy ≡ false
    → apply_patches s (tunnel_dns_patches servers) ≡ some (with_servers s servers)
unfolding apply_patches tunnel_dns_patches with_servers
apply-tunnel_patches s [] given = refl
apply-tunnel_patches s (n ∷ ns) given = ground (arith, given)

has_container-ne-nil :
    (cs : List Container) (name : Text)
    → has_container cs name ≡ true
    → (x : Container) × (xs : List Container) × (cs ≡ x ∷ xs)
unfolding has_container
has_container-ne-nil [] name h = cc
has_container-ne-nil (x ∷ xs) name h = (x, xs, refl)

apply-sidecar_patches :
    (c : WebhookConfig) (pod : Pod) (s : PodSpec) (corefile : Text)
    → s.volumes ≡ pod.spec.volumes
    → has_container s.init_containers init_container_name ≡ true
    → s.containers ≢ []
    → is_empty s.dns_policy ≡ false
    → apply_patches s (sidecar_patches c pod corefile) ≡ some (with_sidecar c corefile s)
unfolding apply_patches sidecar_patches nameserver_patches with_sidecar
apply-sidecar_patches c pod s corefile v i ne given =
    let (x, xs, e) = has_container-ne-nil s.init_containers _ i in
    elim (Nil-cases pod.spec.volumes) [
      | inl n ↦ ground (arith, e, n, given)
      | inr (y, ys, n) ↦ ground (arith, e, n, given)
    ]

-- The pod's specification with the validator.
abbrev pub validated_spec : WebhookConfig → Pod → PodSpec
validated_spec c pod = record pod.spec {
  init_containers = with_validator c pod.spec.init_containers;
}

abbrev pub split_zones : Pod → Text
split_zones pod = get_or_empty annotation_split_tunnel_dns_zones pod.annotations

abbrev pub tunnel_servers : Decoders → WebhookConfig → Pod → Result FetchError (List Text)
tunnel_servers d c pod =
    get_tunnel_dns_servers d c pod.namespace
      (get_or_empty annotation_wg_conf_secret pod.annotations)

module _ (d : Decoders) (c : WebhookConfig) (pod : Pod) (servers : List Text) where
  -- A pod without split DNS zones and with a DNS policy, which the API server sets where a pod names
  -- none, and whose WireGuard configuration can be read: the mutating webhook makes patches, they
  -- apply to the pod, and they add the validator to its init containers where it is not there; if
  -- the configuration names IPv4 DNS servers, they set the pod's DNS policy to None and its DNS
  -- configuration to these nameservers, without the searches and options that it had. Nothing else
  -- changes.
  pub mutate-tunnel_dns :
      tunnel_servers d c pod ≡ ok servers
      → is_empty (split_zones pod) ≡ true
      → is_empty pod.spec.dns_policy ≡ false
      → (ps : List PatchOperation) × (create_patches d c pod ≡ ok ps)
        × (apply_patches pod.spec ps ≡ some (with_servers (validated_spec c pod) servers))
        × (has_container (validated_spec c pod).init_containers init_container_name ≡ true)
  unfolding create_patches create_dns_patches
  mutate-tunnel_dns read none_split given = (
    create_init_container_patches c pod ++ tunnel_dns_patches servers,
    rw (read, none_split),
    apply-init_patches c pod (tunnel_dns_patches servers)
        ∙ apply-tunnel_patches (validated_spec c pod) servers given,
    with_validator-has_container c pod.spec.init_containers,
  )

  -- A pod with split DNS zones, a DNS policy, which the API server sets where a pod names none, and
  -- a container, none of them named as the sidecar is, whose WireGuard configuration can be read and
  -- where the cluster's DNS service has an address: the mutating webhook makes patches, they apply
  -- to the pod, and they add the validator where it is not there, the sidecar, its volume and the
  -- init container with the Corefile for these zones and servers, and set the DNS policy to None and
  -- the DNS configuration to the only nameserver 127.0.0.1, without the searches and options that
  -- the pod had. Nothing else changes.
  pub mutate-split_dns :
      (ip : Text)
      → tunnel_servers d c pod ≡ ok servers
      → is_empty (split_zones pod) ≡ false
      → cluster_ip c.kube_client ≡ ok ip
      → has_container pod.spec.containers core_dns_container_name ≡ false
      → pod.spec.containers ≢ []
      → is_empty pod.spec.dns_policy ≡ false
      → (ps : List PatchOperation) × (create_patches d c pod ≡ ok ps)
        × (apply_patches pod.spec ps
            ≡ some (
                with_sidecar c
                  (generate_corefile
                    (parse_dns_zones (split_zones pod))
                    ip
                    (first_or_empty servers))
                  (validated_spec c pod)))
        × (has_container (validated_spec c pod).init_containers init_container_name ≡ true)
  unfolding create_patches create_dns_patches create_split_dns_patches
  mutate-split_dns ip read has_split cluster fresh ne given =
      let corefile =
        generate_corefile (parse_dns_zones (split_zones pod)) ip (first_or_empty servers) in
      let validator = with_validator-has_container c pod.spec.init_containers in
      (
        create_init_container_patches c pod ++ sidecar_patches c pod corefile,
        rw (read, has_split, cluster, fresh),
        apply-init_patches c pod (sidecar_patches c pod corefile)
            ∙ apply-sidecar_patches c pod (validated_spec c pod) corefile refl validator ne given,
        validator,
      )

-- A pod that has the sidecar already is refused, if it has split DNS zones: patching a pod twice
-- fails, whatever else it holds.
pub mutate-split_dns_twice :
    (d : Decoders) (c : WebhookConfig) (pod : Pod) (corefile ip : Text) (servers : List Text)
    → tunnel_servers d c (record pod { spec = with_sidecar c corefile pod.spec }) ≡ ok servers
    → is_empty (split_zones pod) ≡ false
    → cluster_ip c.kube_client ≡ ok ip
    → create_patches d c (record pod { spec = with_sidecar c corefile pod.spec })
      ≡ err container_exists
unfolding create_patches create_dns_patches create_split_dns_patches with_sidecar
    create_core_dns_sidecar_container
mutate-split_dns_twice d c pod corefile ip servers read has_split cluster = rw (
  read,
  has_split,
  cluster,
  has_container-append pod.spec.containers (create_core_dns_sidecar_container c)
      core_dns_container_name refl,
)
