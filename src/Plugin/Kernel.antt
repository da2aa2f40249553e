-- ===== src/Plugin/Kernel.antt =====
-- What the plugin asks of the kernel through netlink, wgctrl and the namespace package. None of
-- these is under the repository, so the kernel is a parameter: it answers each call by what was
-- done before. The state is the list of the calls that succeeded, in order; leave_ns
-- stands in it for the end of a Do in a namespace.
pub mod Laws
use gopher_cni.Prelude.{ℕ, Option, none, some, List, [], ◌∷◌, ◌++◌, Result, ok, err}
use gopher_cni.Go.Text.{Text}
use gopher_cni.Go.Ip.{Ip, IpNet}
use gopher_cni.Wireguard.{WgConfig}

-- netlink.Scope: SCOPE_UNIVERSE is the zero value.
pub data RouteScope : Type 0 where
  universe link_scope other_scope : RouteScope

-- netlink.Route; the table 0 stands for the main one.
pub record Route : Type 0 where
  pub link_index : ℕ
  pub dst : Option IpNet
  pub gw : Option Ip
  pub scope : RouteScope
  pub table : ℕ

-- netlink.Rule, with the fields that the plugin sets.
pub record Rule : Type 0 where
  pub table : ℕ
  pub src : IpNet

pub data Call : Type 0 where
  get_ns enter_ns link_add : Text → Call
  leave_ns : Call
  link_set_ns_fd : ℕ → Text → Call
  route_list : Call
  route_add route_replace : Route → Call
  addr_add : ℕ → Text → Call
  new_wg_client : Call
  configure_device : Text → WgConfig → Call
  link_set_mtu : ℕ → ℕ → Call
  link_set_up link_by_index addr_list : ℕ → Call
  rule_add : Rule → Call

abbrev pub Trace : Type 0
Trace = List Call

-- The kernel: whether a call fails, and with what; what a call that succeeds returns.
pub record Kernel : Type 0 where
  pub failure : Trace → Call → Option Text
  pub link_index : Trace → Text → ℕ
  pub routes : Trace → List Route
  pub addresses : Trace → ℕ → List Ip

-- A failed call, or an error of the plugin's own. A nil pointer that is followed is a panic.
pub data NetError : Type 0 where
  call_failed : Call → Text → NetError
  invalid_peer_ip no_default_route nil_endpoint : NetError

-- Code that makes calls: its result, and the calls that it made.
abbrev pub Net : Type 0 → Type 0
Net A = Trace → Result NetError A × Trace

module _ {A : Type 0} where
  unfoldable pub pure : A → Net A
  pure a t = (ok a, t)

  unfoldable pub raise : NetError → Net A
  raise e t = (err e, t)

module _ {A B : Type 0} where
  continue : Result NetError A → (A → Net B) → Net B
  continue (ok a) f t = f a t
  continue (err e) f t = (err e, t)

  infixl 5 ◌>>=◌ ◌>>◌
  unfoldable pub ◌>>=◌ : Net A → (A → Net B) → Net B
  unfolding continue pure raise
  ◌>>=◌ m f t = let r = m t in continue r.0 f r.1

  abbrev pub ◌>>◌ : Net A → Net B → Net B
  m >> n = m >>= λ _. n

answer : Call → Option Text → Net (Unit {0})
answer c none t = (ok tt, t ++ c ∷ [])
answer c (some e) t = (err (call_failed c e), t)

module _ (k : Kernel) where
  unfoldable pub call : Call → Net (Unit {0})
  unfolding answer
  call c t = answer c (k.failure t c) t
