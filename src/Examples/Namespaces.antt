-- ===== src/Examples/Namespaces.antt =====
-- internal/net on a namespace with one default route and another route.
use gopher_cni.Examples.Fixtures.{protected}
use gopher_cni.Go.Ip.{Ip, IpNet, to4}
use gopher_cni.Go.ParseIp.{parse_cidr}
use gopher_cni.Go.ShowIp.{show_net}
use gopher_cni.Go.Text.{Text, codes, is_empty, text_eq}
use gopher_cni.Network.{
  Netlink, default_route, del_defaults, net_ns_handles, replace_default_route, route_add,
  with_destination, with_gateway,
}
use gopher_cni.Network.DefaultRoute.{
  IsTable, Removes, defaults, first, later, others, replace_default_route-found,
}
use gopher_cni.Plugin.Kernel.{Route, RouteScope, link_scope, universe, other_scope}
use gopher_cni.Plugin.Net.{default_dst, is_default_dst, via_link}
use gopher_cni.Prelude.{
  ==_iff, Bool, Bool-cases, List, Option, Result, [], and-true, ap, err, false, if◌then◌else◌, inl,
  inr, none, ok, refl, some, subst, sym, true, ℕ, ◌&&◌, ◌==◌, ◌∷◌, ◌≡◌, some-injective,
  Option-cases,
}

-- The one route that this kernel deletes.
abbrev lan : Route
lan = record { link_index = 2; dst = none; gw = none; scope = universe; table = 0 }

lan_test : ℕ → Option IpNet → Option Ip → RouteScope → ℕ → Bool
lan_test index none none universe table = index == 2 && table == 0
lan_test index _ _ _ table = false

abbrev is_lan : Route → Bool
is_lan r = lan_test r.link_index r.dst r.gw r.scope r.table

lan_test-lan :
    (index : ℕ) (dst : Option IpNet) (gw : Option Ip) (scope : RouteScope) (table : ℕ)
    → lan_test index dst gw scope table ≡ true
    → record { link_index = index; dst = dst; gw = gw; scope = scope; table = table } ≡ lan
unfolding lan_test
lan_test-lan index none none universe table h =
    let both = and-true _ _ h in
    let i = (==_iff index 2).0 both.0 in
    let t = (==_iff table 0).0 both.1 in
    λ k. record { link_index = i k; dst = none; gw = none; scope = universe; table = t k }
lan_test-lan index none none link_scope table h = cc
lan_test-lan index none none other_scope table h = cc
lan_test-lan index none (some gw) scope table h = cc
lan_test-lan index (some dst) gw scope table h = cc

abbrev onto : Route → Option (List Route) → Option (List Route)
onto q none = none
onto q (some rs) = some (q ∷ rs)

without_lan : List Route → Option (List Route)
without_lan [] = none
without_lan (q ∷ rs) = let rest = without_lan rs in if is_lan q then some rs else onto q rest

without_lan-Removes : (s s' : List Route) → without_lan s ≡ some s' → Removes lan s s'
unfolding without_lan
without_lan-Removes [] s' h = cc
without_lan-Removes (q ∷ rs) s' h = elim (Bool-cases (is_lan q)) [
  | inl e ↦
      let same : rs ≡ s' = some-injective _ _ (rw (e) at h) in
      let is_it : q ≡ lan = lan_test-lan q.link_index q.dst q.gw q.scope q.table e in
      subst (λ (t : List Route). Removes lan (q ∷ rs) t) same
        (subst (λ (r : Route). Removes lan (r ∷ rs) rs) (sym is_it) (first rs))
  | inr e ↦ elim (Option-cases (without_lan rs)) [
    | inl nothing ↦ let h' : none ≡ some s' = rw (e, nothing) at h in cc (h')
    | inr (t, there') ↦
        let same : q ∷ t ≡ s' = some-injective _ _ (rw (e, there') at h) in
        subst (λ (t : List Route). Removes lan (q ∷ rs) t) same
          (later q rs t (without_lan-Removes rs t there'))
  ]
]

abbrev deleted_from : Bool → Option (List Route) → List Route → Result Text (Unit {0}) × List Route
deleted_from true (some rs) s = (ok tt, rs)
deleted_from _ _ s = (err (codes "no such process"), s)

abbrev small_net : Netlink
small_net = record {
  get_from_path = λ s path. ok 3;
  new_handle_at = λ s ns. ok 4;
  link_by_name = λ s h name. ok 7;
  route_list = λ s h. (s, none);
  route_del = λ h r s. deleted_from (is_lan r) (without_lan s) s;
  route_add = λ h r s. (ok tt, r ∷ s);
}

deleted_from-Removes :
    (r : Route) (s s' : List Route)
    → deleted_from (is_lan r) (without_lan s) s ≡ (ok tt, s')
    → Removes r s s'
deleted_from-Removes r s s' h = elim (Bool-cases (is_lan r)) [
  | inr e ↦
      let h' : ◌≡◌ {A = Result Text (Unit {0}) × List Route} (err (codes "no such process"), s)
          (ok tt, s') =
        rw (e) at h in
      cc (h')
  | inl e ↦ elim (Option-cases (without_lan s)) [
    | inl nothing ↦
        let h' : ◌≡◌ {A = Result Text (Unit {0}) × List Route} (err (codes "no such process"), s)
            (ok tt, s') =
          rw (e, nothing) at h in
        cc (h')
    | inr (t, there') ↦
        let h' : ◌≡◌ {A = Result Text (Unit {0}) × List Route} (ok tt, t) (ok tt, s') =
          rw (e, there') at h in
        let same = ap (λ (x : Result Text (Unit {0}) × List Route). x.1) h' in
        let is_it : r ≡ lan = lan_test-lan r.link_index r.dst r.gw r.scope r.table e in
        subst (λ (u : List Route). Removes r s u) same
          (subst (λ (q : Route). Removes q s t) (sym is_it) (without_lan-Removes s t there'))
  ]
]

small_net-IsTable : IsTable small_net
small_net-IsTable = record {
  listed = λ s h. refl;
  deleted = λ h r s s' e. deleted_from-Removes r s s' e;
  added = λ h r s s' e.
      subst (λ (u : List Route). Removes r u s)
        (ap (λ (x : Result Text (Unit {0}) × List Route). x.1) e) (first s);
}

abbrev other_route : Route
other_route = via_link 2 protected

replaced :
    replace_default_route small_net (codes "/ns") (codes "gcni0") (other_route ∷ lan ∷ [])
    ≡ (ok tt, via_link 7 default_dst ∷ other_route ∷ [])
unfolding replace_default_route net_ns_handles del_defaults is_default_dst text_eq show_net to4
    lan_test without_lan route_add with_gateway is_empty with_destination parse_cidr
replaced = refl

replace_default_route-found_example :
    (h index : ℕ) × (u : List Route) × (◌≡◌ {A = Result Text ℕ} (ok 7) (ok index))
    × (default_route small_net (codes "/ns") (via_link 7 default_dst ∷ other_route ∷ [])
        ≡ (ok (via_link index default_dst), via_link 7 default_dst ∷ other_route ∷ []))
    × (defaults (via_link 7 default_dst ∷ other_route ∷ []) ≡ via_link index default_dst ∷ [])
    × (others (via_link 7 default_dst ∷ other_route ∷ []) ≡ others (other_route ∷ lan ∷ []))
unfolding net_ns_handles
replace_default_route-found_example =
    replace_default_route-found small_net small_net-IsTable (codes "/ns") (codes "gcni0")
      (other_route ∷ lan ∷ []) (via_link 7 default_dst ∷ other_route ∷ []) 4 replaced refl
