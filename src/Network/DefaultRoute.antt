-- ===== src/Network/DefaultRoute.antt =====
-- The routes of a namespace around ReplaceDefaultRoute of internal/net/route.go.
use gopher_cni.Go.ShowIp.{show_net}
use gopher_cni.Go.Ip.{masked_net, to4}
use gopher_cni.Prelude.{
  Option, Bool-cases, inl, inr, none, some, List, [], ◌∷◌, Result, ok, err, length, suc, ◌+◌, ℕ, ap,
  refl, true, if◌then◌else◌, ◌≡◌, arith, sym, ◌∙◌, Result-cases, subst, wrap,
}
use gopher_cni.Plugin.Kernel.{Route}
use gopher_cni.Go.ParseIp.{parse_cidr, parse_addr}
use gopher_cni.Go.Text.{Text, codes, is_empty, cut, text_eq}
use gopher_cni.Network.{
  Netlink, del_defaults, route_add, with_gateway, with_destination, NetworkError, route_del_failed,
  net_ns_handles, no_device, route_add_failed, no_handle, namespace_error, replace_default_route,
  default_route,
}
use gopher_cni.Actions.{and_then-eq-ok, wrapping, wrapped-eq-ok, from, and_then}
use gopher_cni.Plugin.Net.{default_dst, find_default, is_default_dst, via_link}

-- The second list is the first one without the route, at some place.
pub data Removes (r : Route) : List Route → List Route → Type 0 where
  first : (rs : List Route) → Removes r (r ∷ rs) rs
  later : (q : Route) (rs rs' : List Route) → Removes r rs rs' → Removes r (q ∷ rs) (q ∷ rs')

-- What netlink documents: a listing that does not fail gives all routes, a deletion takes one out,
-- and an addition puts one in. Here no listing fails.
pub record IsTable (nl : Netlink) : Type 0 where
  pub listed : (s : List Route) (h : ℕ) → nl.route_list s h ≡ (s, none)
  pub deleted :
      (h : ℕ) (r : Route) (s s' : List Route) → nl.route_del h r s ≡ (ok tt, s') → Removes r s s'
  pub added :
      (h : ℕ) (r : Route) (s s' : List Route) → nl.route_add h r s ≡ (ok tt, s') → Removes r s' s

-- The default routes of a table, and the other ones.
pub defaults : List Route → List Route
defaults [] = []
defaults (r ∷ rs) = let rest = defaults rs in if is_default_dst r.dst then r ∷ rest else rest

pub others : List Route → List Route
others [] = []
others (r ∷ rs) = let rest = others rs in if is_default_dst r.dst then rest else r ∷ rest

Removes-others :
    (r : Route) (s s' : List Route)
    → is_default_dst r.dst ≡ true
    → Removes r s s'
    → (others s' ≡ others s) × (length (defaults s) ≡ suc (length (defaults s')))
unfolding others defaults
Removes-others r s s' d (first rs) = rw d (refl, refl)
Removes-others r s s' d (later q rs rs' h) =
    let ih = Removes-others r rs rs' d h in
    elim (Bool-cases (is_default_dst q.dst)) [
      | inl e ↦ rw e (ih.0, ap suc ih.1)
      | inr e ↦ rw e (ap (◌∷◌ q) ih.0, ih.1)
    ]

is_default_dst-default : is_default_dst (some default_dst) ≡ true
unfolding is_default_dst text_eq show_net to4
is_default_dst-default = refl

length-zero : {A : Type 0} (xs : List A) → length xs ≡ 0 → xs ≡ []
length-zero [] h = refl
length-zero (x ∷ xs) h = absurd (omega (arith, h))

find_default-defaults : (r : Route) (s : List Route) → defaults s ≡ r ∷ [] → find_default s ≡ some r
unfolding defaults find_default
find_default-defaults r [] h = cc
find_default-defaults r (q ∷ rs) h = elim (Bool-cases (is_default_dst q.dst)) [
  | inl e ↦
      let h' : q ∷ defaults rs ≡ r ∷ [] = rw (e) at h in
      let same : q ≡ r = cc (h') in rw e (ap some same)
  | inr e ↦ rw e (find_default-defaults r rs (rw (e) at h))
]

Removes-defaults :
    (r : Route) (s s' : List Route)
    → is_default_dst r.dst ≡ true
    → Removes r s s'
    → defaults s' ≡ []
    → defaults s ≡ r ∷ []
unfolding defaults
Removes-defaults r s s' d (first rs) h = rw d (ap (◌∷◌ r) h)
Removes-defaults r s s' d (later q rs rs' i) h = elim (Bool-cases (is_default_dst q.dst)) [
  | inl e ↦ let h' : q ∷ defaults rs' ≡ [] = rw (e) at h in cc (h')
  | inr e ↦ rw e (Removes-defaults r rs rs' d i (rw (e) at h))
]

and_then-same :
    {E S A B : Type 0} (r : Result E A) (f : A → Result E B) (s : S)
    → (and_then r (λ a. from (f a)) s).1 ≡ s
and_then-same (ok a) f s = refl
and_then-same (err e) f s = refl

module _ (nl : Netlink) (table : IsTable nl) where
  del_defaults-others :
      (h : ℕ) (qs s s' : List Route)
      → del_defaults nl h qs s ≡ (ok tt, s')
      → (others s' ≡ others s) × (length (defaults s) ≡ length (defaults qs) + length (defaults s'))
  unfolding del_defaults defaults
  del_defaults-others h [] s s' done =
      let same : s ≡ s' = ap (λ (x : Result NetworkError (Unit {0}) × List Route). x.1) done in
      (ap others (sym same), ap (λ (u : List Route). length (defaults u)) same ∙ omega arith)
  del_defaults-others h (q ∷ qs) s s' done = elim (Bool-cases (is_default_dst q.dst)) [
    | inl e ↦
        let (_, u, gone, rest) =
          and_then-eq-ok (wrapping route_del_failed (nl.route_del h q) s)
            (λ _. del_defaults nl h qs) (rw (e) at done) in
        let one =
          Removes-others q s u e (table.deleted h q s u (wrapped-eq-ok route_del_failed _ gone)) in
        let ih = del_defaults-others h qs u s' rest in
        rw e (ih.0 ∙ one.0, omega (arith, ih.1, one.1))
    | inr e ↦ rw e (del_defaults-others h qs s s' (rw (e) at done))
  ]

  net_ns_handles-same :
      (path : Text) (h : ℕ) (s u : List Route) → net_ns_handles nl path s ≡ (ok h, u) → u ≡ s
  unfolding net_ns_handles
  net_ns_handles-same path h s u e =
      sym (ap (λ (x : Result NetworkError ℕ × List Route). x.1) e)
      ∙ and_then-same (wrap (namespace_error path) (nl.get_from_path s path))
          (λ ns. wrap no_handle (nl.new_handle_at s ns)) s

  -- An addition that returned, to the whole table.
  route_add-default :
      (path device : Text) (s s' : List Route)
      → route_add nl path (codes "0.0.0.0/0") [] device s ≡ (ok tt, s')
      → (h index : ℕ) × (nl.link_by_name s h device ≡ ok index)
        × Removes (via_link index default_dst) s' s
  unfolding route_add with_gateway with_destination parse_cidr codes parse_addr cut masked_net
      is_empty
  route_add-default path device s s' done =
      let (h, u, handles, a) = and_then-eq-ok (net_ns_handles nl path s) _ done in
      let same = net_ns_handles-same path h s u handles in
      elim (Result-cases (nl.link_by_name s h device)) [
        | inl (index, e) ↦
            let last : wrapping route_add_failed (nl.route_add h (via_link index default_dst)) u
                ≡ (ok tt, s') =
              rw (e) at a in
            (
              h,
              index,
              e,
              subst (λ (t : List Route). Removes (via_link index default_dst) s' t) same
                  (table.added h _ u s' (wrapped-eq-ok route_add_failed _ last)),
            )
        | inr (x, e) ↦
            let failed : ◌≡◌ {A = Result NetworkError (Unit {0}) × List Route}
                (err (no_device x), u) (ok tt, s') =
              rw (e) at a in
            cc (failed)
      ]

  -- Where the default route was replaced, listings do not fail, and deletions and additions do what
  -- netlink documents: the namespace has one default route, through the device and no gateway, the
  -- other routes are those that were there, in their order, and DefaultRoute finds the new one
  -- where it gets its handle.
  pub replace_default_route-found :
      (path device : Text) (s s' : List Route) (h : ℕ)
      → replace_default_route nl path device s ≡ (ok tt, s')
      → net_ns_handles nl path s' ≡ (ok h, s')
      → (h' index : ℕ) × (u : List Route) × (nl.link_by_name u h' device ≡ ok index)
        × (default_route nl path s' ≡ (ok (via_link index default_dst), s'))
        × (defaults s' ≡ via_link index default_dst ∷ [])
        × (others s' ≡ others s)
  unfolding replace_default_route default_route
  replace_default_route-found path device s s' h replaced handles =
      let (h1, u, handles1, rest) = and_then-eq-ok (net_ns_handles nl path s) _ replaced in
      let (_, v, deleted, adding) =
        and_then-eq-ok (del_defaults nl h1 (nl.route_list s h1).0 u) _ rest in
      let (h2, index, linked, put) = route_add-default path device v s' adding in
      let gone = del_defaults-others h1 s s v (
        subst (λ (qs : List Route). del_defaults nl h1 qs s ≡ (ok tt, v))
          (ap (λ (x : List Route × Option Text). x.0) (table.listed s h1))
          (subst (λ (t : List Route). del_defaults nl h1 (nl.route_list s h1).0 t ≡ (ok tt, v))
            (net_ns_handles-same path h1 s u handles1) deleted)) in
      let none_left : defaults v ≡ [] = length-zero (defaults v) (omega (arith, gone.1)) in
      let one =
        Removes-defaults (via_link index default_dst) s' v is_default_dst-default put none_left in
      (
        h2,
        index,
        v,
        linked,
        rw (handles, table.listed s' h, find_default-defaults (via_link index default_dst) s' one)
            refl,
        one,
        sym (Removes-others (via_link index default_dst) s' v is_default_dst-default put).0
            ∙ gone.0,
      )
