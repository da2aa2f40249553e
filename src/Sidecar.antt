-- ===== src/Sidecar.antt =====
-- internal/sidecar: what the injected init containers run. validation.go checks the pod's interface,
-- write_coredns_config.go writes the Corefile. Netlink and the file system are parameters.
use gopher_cni.Cni.{interface_name}
use gopher_cni.Go.Dict.{Dict, get, get_or_empty}
use gopher_cni.Go.Ip.{Ip}
use gopher_cni.Go.Path.{up}
use gopher_cni.Go.Text.{Text, codes, is_empty, text_eq}
use gopher_cni.Kubernetes.{EnvVar}
use gopher_cni.Prelude.{
  Bool, List, Option, Result, [], ap, err, false, if◌then◌else◌, none, ok, refl, some, subst, sym,
  true, ℕ, ◌↔◌, ◌∙◌, ◌∷◌, ◌≡◌,
}
use gopher_cni.Webhook.Types.{
  WebhookConfig, create_core_dns_config_init_container, create_core_dns_sidecar_container,
}

-- What LinkByName returns: an error that errors.Is takes for LinkNotFoundError{}, or another one.
pub data LinkError : Type 0 where
  link_not_found : LinkError
  link_error : Text → LinkError

-- NetlinkClient: the link of a name, which may be nil, with its flag "up"; and its IPv4 addresses.
pub record Link : Type 0 where
  pub index : ℕ
  pub is_up : Bool

pub record NetlinkClient : Type 0 where
  pub link_by_name : Text → Result LinkError (Option Link)
  pub addr_list : Link → Result Text (List Ip)

pub data InterfaceError : Type 0 where
  interface_not_found detecting_failed nil_link not_up no_address : InterfaceError
  listing_failed : Text → InterfaceError

has_address : Result Text (List Ip) → Result InterfaceError (Unit {0})
has_address (err e) = err (listing_failed e)
has_address (ok []) = err no_address
has_address (ok (a ∷ as')) = ok tt

when_up :
    (b : Bool) (r : Result InterfaceError (Unit {0}))
    → (if b then r else err not_up) ≡ ok tt
    → (b ≡ true) × (r ≡ ok tt)
when_up true r h = (refl, h)
when_up false r h = cc

up_then :
    (b : Bool) (r : Result InterfaceError (Unit {0}))
    → b ≡ true
    → r ≡ ok tt
    → (if b then r else err not_up) ≡ ok tt
up_then true r up h = h
up_then false r up h = cc

module _ (nl : NetlinkClient) where
  check_link : Result LinkError (Option Link) → Result InterfaceError (Unit {0})
  unfolding has_address
  check_link (err link_not_found) = err interface_not_found
  check_link (err (link_error e)) = err detecting_failed
  check_link (ok none) = err nil_link
  check_link (ok (some link)) = if link.is_up then has_address (nl.addr_list link) else err not_up

  -- validate
  unfoldable pub validate : Text → Result InterfaceError (Unit {0})
  unfolding check_link
  validate iface_name = check_link (nl.link_by_name iface_name)

  -- The link is there, it is up, and it has an address.
  abbrev pub IsReady : Text → Type 0
  IsReady name =
      (link : Link) × (a : Ip) × (as' : List Ip) × (nl.link_by_name name ≡ ok (some link))
      × (link.is_up ≡ true)
      × (nl.addr_list link ≡ ok (a ∷ as'))

  has_address-ok :
      (r : Result Text (List Ip))
      → has_address r ≡ ok tt
      → (a : Ip) × (as' : List Ip) × (r ≡ ok (a ∷ as'))
  unfolding has_address
  has_address-ok (err e) h = cc
  has_address-ok (ok []) h = cc
  has_address-ok (ok (a ∷ as')) h = (a, as', refl)

  check_link-ok :
      (name : Text) (r : Result LinkError (Option Link))
      → nl.link_by_name name ≡ r
      → check_link r ≡ ok tt
      → IsReady name
  unfolding check_link
  check_link-ok name (err link_not_found) e h = cc
  check_link-ok name (err (link_error x)) e h = cc
  check_link-ok name (ok none) e h = cc
  check_link-ok name (ok (some link)) e h =
      let (up, has) = when_up link.is_up (has_address (nl.addr_list link)) h in
      let (a, as', listed) = has_address-ok (nl.addr_list link) has in (link, a, as', e, up, listed)

  -- The init container lets the pod start exactly when the interface is there, is up, and has an
  -- IPv4 address.
  pub validate_iff_IsReady : (name : Text) → (validate name ≡ ok tt) ↔ IsReady name
  unfolding validate check_link has_address
  validate_iff_IsReady name = (
    λ h. check_link-ok name (nl.link_by_name name) refl h,
    λ w.
        let (link, a, as', found, up, listed) = w in
        ap check_link found
        ∙ up_then link.is_up (has_address (nl.addr_list link)) up (ap has_address listed),
  )

pub data Exit : Type 0 where
  success failure : Exit

exit_of : Result InterfaceError (Unit {0}) → Exit
exit_of (err e) = failure
exit_of (ok u) = success

-- RunInitValidation
unfoldable pub run_init_validation : NetlinkClient → Exit
unfolding exit_of
run_init_validation nl = exit_of (validate nl interface_name)

exit_of-success : (r : Result InterfaceError (Unit {0})) → (exit_of r ≡ success) ↔ (r ≡ ok tt)
unfolding exit_of
exit_of-success (err e) = (λ h. cc, λ h. cc)
exit_of-success (ok u) = (λ h. refl, λ h. refl)

pub run_init_validation-iff_IsReady :
    (nl : NetlinkClient) → (run_init_validation nl ≡ success) ↔ IsReady nl interface_name
unfolding run_init_validation
run_init_validation-iff_IsReady nl =
    let exited = exit_of-success (validate nl interface_name) in
    let ready = validate_iff_IsReady nl interface_name in
    (λ h. ready.0 (exited.0 h), λ w. exited.1 (ready.1 w))

abbrev pub corefile_env_var : Text
corefile_env_var = codes "COREFILE"

abbrev pub corefile_path : Text
corefile_path = codes "/etc/coredns/Corefile"

-- filepath.Dir of the path
abbrev pub corefile_dir : Text
corefile_dir = codes "/etc/coredns"

-- os.MkdirAll and os.WriteFile on the state of a file system; `none` is an error.
pub record FileSystem (S : Type 0) : Type 0 where
  pub mkdir_all : S → Text → Option S
  pub write_file : S → Text → Text → Option S

-- The environment that a container is given.
pub env_of : List EnvVar → Dict
env_of [] = []
env_of (e ∷ es) = (e.name, e.value) ∷ env_of es

module _ {S : Type 0} (fs : FileSystem S) where
  unfoldable pub written : S → Option S → Exit × S
  written s none = (failure, s)
  written s (some s') = (success, s')

  unfoldable pub write_corefile : Text → S → Option S → Exit × S
  unfolding written
  write_corefile corefile s none = (failure, s)
  write_corefile corefile s (some s') = written s' (fs.write_file s' corefile_path corefile)

  -- RunWriteCoreDNSConfig, in an environment
  unfoldable pub run_write_core_dns_config : Dict → S → Exit × S
  unfolding write_corefile
  run_write_core_dns_config env s =
      let corefile = get_or_empty corefile_env_var env in
      if is_empty corefile
      then (failure, s)
      else write_corefile corefile s (fs.mkdir_all s corefile_dir)

  -- The init container that the webhook injects for split DNS, run in the environment that it is
  -- given: where the Corefile is not empty and the file system refuses neither call, it ends with
  -- success, and has written the webhook's Corefile to the path that the webhook gives the sidecar
  -- container as its argument.
  pub corefile_handed_over :
      (c : WebhookConfig) (corefile path : Text) (s s' s'' : S)
      → is_empty corefile ≡ false
      → (create_core_dns_sidecar_container c).args ≡ codes "-conf" ∷ path ∷ []
      → fs.mkdir_all s corefile_dir ≡ some s'
      → fs.write_file s' path corefile ≡ some s''
      → run_write_core_dns_config (env_of (create_core_dns_config_init_container c corefile).env) s
        ≡ (success, s'')
  unfolding run_write_core_dns_config write_corefile written env_of
      create_core_dns_sidecar_container create_core_dns_config_init_container get_or_empty get
      text_eq codes
  corefile_handed_over c corefile path s s' s'' full args made stored =
      let same : corefile_path ≡ path = cc args in
      rw
        (full, made, subst (λ (p : Text). fs.write_file s' p corefile ≡ some s'') (sym same) stored)
