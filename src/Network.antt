-- ===== src/Network.antt =====
-- internal/net: netns.go, the handles of a network namespace, and route.go, its default route. The
-- packages netns and netlink are parameters; the state is the routes of the namespace.
pub mod DefaultRoute
use gopher_cni.Prelude.{Option, none, some, List, [], ◌∷◌, Result, ok, err, wrap, ℕ, if◌then◌else◌}
use gopher_cni.Go.ParseIp.{parse_ip, parse_cidr}
use gopher_cni.Go.Text.{Text, codes, contains_sub, is_empty}
use gopher_cni.Actions.{Action, done, from, wrapping, ◌>>=◌, ◌>>◌}
use gopher_cni.Plugin.Kernel.{Route, link_scope, universe}
use gopher_cni.Plugin.Net.{find_default, is_default_dst}

pub data NetworkError : Type 0 where
  namespace_missing : Text → NetworkError
  no_namespace : Text → Text → NetworkError
  no_handle : Text → NetworkError
  nothing_default : NetworkError
  no_device route_del_failed route_add_failed : Text → NetworkError
  bad_gateway : Text → NetworkError
  bad_destination : Text → Text → Text → NetworkError

-- What the packages answer, by the routes that the namespace has at the time. A handle is a number.
pub record Netlink : Type 0 where
  pub get_from_path : List Route → Text → Result Text ℕ
  pub new_handle_at : List Route → ℕ → Result Text ℕ
  pub link_by_name : List Route → ℕ → Text → Result Text ℕ
  pub route_list : List Route → ℕ → List Route × Option Text
  pub route_del : ℕ → Route → Action Text (List Route) (Unit {0})
  pub route_add : ℕ → Route → Action Text (List Route) (Unit {0})

namespace_error : Text → Text → NetworkError
namespace_error path e =
    if contains_sub (codes "no such file or directory") e
    then namespace_missing path
    else no_namespace path e

found_default : Option Route → Result NetworkError Route
found_default none = err nothing_default
found_default (some r) = ok r

-- The route of RouteAdd: its link, then its gateway or the scope of a link, then its destination.
abbrev on_link : ℕ → Route
on_link index = record { link_index = index; dst = none; gw = none; scope = universe; table = 0 }

unfoldable pub with_gateway : Text → Route → Result NetworkError Route
with_gateway gateway r =
    if is_empty gateway then ok (record r { scope = link_scope }) else elim (parse_ip gateway) [
      | none ↦ err (bad_gateway gateway)
      | some ip ↦ ok (record r { gw = some ip })
    ]

unfoldable pub with_destination : Text → Text → Text → Route → Result NetworkError Route
with_destination destination gateway device r =
    if is_empty destination then ok r else elim (parse_cidr destination) [
      | none ↦ err (bad_destination destination gateway device)
      | some net ↦ ok (record r { dst = some net })
    ]

module _ (nl : Netlink) where
  -- NetNSHandles
  unfoldable pub net_ns_handles : Text → Action NetworkError (List Route) ℕ
  unfolding namespace_error
  net_ns_handles path s =
      (do
        ns ← from (wrap (namespace_error path) (nl.get_from_path s path))
        from (wrap no_handle (nl.new_handle_at s ns)))
        s

  -- DefaultRoute: an error of RouteList is ignored.
  unfoldable pub default_route : Text → Action NetworkError (List Route) Route
  unfolding found_default
  default_route path s =
      (do h ← net_ns_handles path; from (found_default (find_default (nl.route_list s h).0))) s

  -- RouteAdd
  unfoldable pub route_add : Text → Text → Text → Text → Action NetworkError (List Route) (Unit {0})
  route_add path destination gateway device s =
      (do
        h ← net_ns_handles path
        index ← from (wrap no_device (nl.link_by_name s h device))
        gated ← from (with_gateway gateway (on_link index))
        route ← from (with_destination destination gateway device gated)
        wrapping route_add_failed (nl.route_add h route))
        s

  -- ReplaceDefaultRoute: the loop over the routes that were listed, and the function.
  unfoldable pub del_defaults : ℕ → List Route → Action NetworkError (List Route) (Unit {0})
  del_defaults h [] = done tt
  del_defaults h (r ∷ rs) =
      let rest = del_defaults h rs in
      if is_default_dst r.dst then wrapping route_del_failed (nl.route_del h r) >> rest else rest

  unfoldable pub replace_default_route : Text → Text → Action NetworkError (List Route) (Unit {0})
  replace_default_route path device s =
      (do
        h ← net_ns_handles path
        del_defaults h (nl.route_list s h).0
        route_add path (codes "0.0.0.0/0") [] device)
        s
