-- ===== src/Tunnel/Routing.antt =====
-- The kernel's choice of a route, stated apart from the code of plugin/cmd/net.go: of the routes of the main table whose destination
-- holds the address, one with the longest prefix.
use gopher_cni.Prelude.{
  ℕ, ◌≤◌, ◌≡◌, refl, inl, inr, Bool, true, false, Option, none, some, List, [], ◌∷◌, ◌++◌, arith,
  ltb, ◌==◌, if◌then◌else◌, Bool-cases, Option-cases, In, here, there,
}
use gopher_cni.Go.Ip.{ip4, IpNet, contains}
use gopher_cni.Plugin.Kernel.{Route, Call, route_add, route_replace, Trace}

in_main : Route → List Route
in_main r = if r.table == 0 then r ∷ [] else []

call_routes : Call → List Route
call_routes (route_add r) = in_main r
call_routes (route_replace r) = in_main r
call_routes _ = []

-- The routes that a sequence of calls puts into the main table.
unfoldable pub main_routes : Trace → List Route
unfolding call_routes in_main
main_routes [] = []
main_routes (c ∷ cs) = call_routes c ++ main_routes cs

unfoldable pub dst_holds : Option IpNet → ℕ → Bool
dst_holds none a = true
dst_holds (some n) a = contains n (ip4 a)

unfoldable pub dst_ones : Option IpNet → ℕ
dst_ones none = 0
dst_ones (some n) = n.ones

longer : Route → Option Route → Route
longer r none = r
longer r (some q) = if ltb (dst_ones r.dst) (dst_ones q.dst) then q else r

-- A route with the longest prefix among those whose destination holds the address.
pub best : ℕ → List Route → Option Route
unfolding dst_holds longer dst_ones
best a [] = none
best a (r ∷ rs) = let rest = best a rs in if dst_holds r.dst a then some (longer r rest) else rest

-- What `best` finds when some route fits: it is in the table, fits, and is no less specific.
pub record Choice (a : ℕ) (rs : List Route) (n : ℕ) : Type 0 where
  pub route : Route
  pub best_lem : best a rs ≡ some route
  pub mem : In route rs
  pub holds : dst_holds route.dst a ≡ true
  pub longest : n ≤ dst_ones route.dst

-- A choice between the head and the best of the tail.
longer-cons :
    (a : ℕ) (r q : Route) (rs : List Route)
    → dst_holds r.dst a ≡ true
    → In q rs
    → dst_holds q.dst a ≡ true
    → In (longer r (some q)) (r ∷ rs)
      × (dst_holds (longer r (some q)).dst a ≡ true)
      × (dst_ones r.dst ≤ dst_ones (longer r (some q)).dst)
      × (dst_ones q.dst ≤ dst_ones (longer r (some q)).dst)
unfolding longer
longer-cons a r q rs h i k = elim (Bool-cases (ltb (dst_ones r.dst) (dst_ones q.dst))) [
  | inl lt ↦ rw lt (there i, k, ground arith, omega arith)
  | inr ge ↦ rw ge (here refl, h, omega arith, ground arith)
]

best_sound :
    (a : ℕ) (q : Route) (rs : List Route)
    → best a rs ≡ some q
    → In q rs × (dst_holds q.dst a ≡ true)
unfolding best
best_sound a q [] e = cc
best_sound a q (r ∷ rs) e = elim (Bool-cases (dst_holds r.dst a)) [
  | inr out ↦ let ih = best_sound a q rs (rw (out) at e) in (there ih.0, ih.1)
  | inl fits ↦ elim (Option-cases (best a rs)) [
    | inl nothing ↦ let e' : r ≡ q = ground (arith, fits, nothing, e) in rw (← e') (here refl, fits)
    | inr (q', found) ↦
        let ih = best_sound a q' rs found in
        let both = longer-cons a r q' rs fits ih.0 ih.1 in
        let e' : longer r (some q') ≡ q = ground (arith, fits, found, e) in
        rw (← e') (both.0, both.1)
  ]
]

pub best-Choice :
    (a : ℕ) (r : Route) (rs : List Route)
    → In r rs
    → dst_holds r.dst a ≡ true
    → Choice a rs (dst_ones r.dst)
unfolding best
best-Choice a r [] i h = elim i [ ]
best-Choice a r (x ∷ rs) (here e) h = elim (Option-cases (best a rs)) [
  | inl nothing ↦ record {
    route = x;
    best_lem = rw (nothing, ← e, h);
    mem = here refl;
    holds = rw (← e) h;
    longest = rw e (omega arith);
  }
  | inr (q, found) ↦
      let ih = best_sound a q rs found in
      let fits : dst_holds x.dst a ≡ true = rw (← e) h in
      let both = longer-cons a x q rs fits ih.0 ih.1 in
      record {
        route = longer x (some q);
        best_lem = rw (found, fits);
        mem = both.0;
        holds = both.1;
        longest = rw e both.2;
      }
]
best-Choice a r (x ∷ rs) (there i) h =
    let ih = best-Choice a r rs i h in
    elim (Bool-cases (dst_holds x.dst a)) [
      | inr out ↦ record {
        route = ih.route;
        best_lem = rw out ih.best_lem;
        mem = there ih.mem;
        holds = ih.holds;
        longest = ih.longest;
      }
      | inl fits ↦
          let both = longer-cons a x ih.route rs fits ih.mem ih.holds in
          record {
            route = longer x (some ih.route);
            best_lem = rw (ih.best_lem, fits);
            mem = both.0;
            holds = both.1;
            longest = omega (arith, ih.longest, both.3);
          }
    ]

-- The best of all routes is that of the later ones, where none of the first fits.
pub best-append :
    (a : ℕ) (xs ys : List Route)
    → ((r : Route) → In r xs → dst_holds r.dst a ≡ false)
    → best a (xs ++ ys) ≡ best a ys
unfolding best
best-append a [] ys h = refl
best-append a (x ∷ xs) ys h = rw (h x (here refl)) (best-append a xs ys (λ r i. h r (there i)))
