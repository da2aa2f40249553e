-- ===== src/Tunnel/Installed.antt =====
-- The routes that the calls of plugin/cmd/net.go put into the main table.
use gopher_cni.Prelude.{
  append_assoc, append-nil, ◌∙◌, ℕ, ◌≡◌, refl, ap, ◌⊎◌, inl, inr, none, some, List, [], ◌∷◌, ◌++◌,
  map, In, here, there,
}
use gopher_cni.Tunnel.Routing.{main_routes}
use gopher_cni.Go.Text.{Text}
use gopher_cni.Go.Ip.{Ip, to4, IpNet}
use gopher_cni.Wireguard.{WgConfig}
use gopher_cni.Plugin.Kernel.{Route, rule_add, leave_ns, Trace}
use gopher_cni.Plugin.Net.{default_dst, via_link, via_gateway, return_rule}
use gopher_cni.Plugin.Net.Calls.{
  configure_calls, addr_calls, protected_calls, split_calls, rule_calls,
}

pub main_routes-append : (cs ds : Trace) → main_routes (cs ++ ds) ≡ main_routes cs ++ main_routes ds
unfolding main_routes
main_routes-append [] ds = refl
main_routes-append (c ∷ cs) ds = simp (main_routes-append cs ds, append_assoc)

main_routes-addr_calls : (index : ℕ) (addrs : List Text) → main_routes (addr_calls index addrs) ≡ []
unfolding main_routes
main_routes-addr_calls index [] = refl
main_routes-addr_calls index (a ∷ as') = main_routes-addr_calls index as'

main_routes-rule_calls : (ips : List Ip) → main_routes (rule_calls ips) ≡ []
unfolding main_routes rule_calls
main_routes-rule_calls [] = refl
main_routes-rule_calls (ip ∷ ips) =
    elim (to4 ip)
      as (λ o.
        main_routes
          (elim o [ none ↦ rule_calls ips | some n ↦ rule_add (return_rule n) ∷ rule_calls ips ])
        ≡ []) [ none ↦ main_routes-rule_calls ips | some n ↦ main_routes-rule_calls ips ]

main_routes-protected_calls :
    (index : ℕ) (nets : List IpNet)
    → main_routes (protected_calls index nets) ≡ map (via_link index) nets
unfolding main_routes
main_routes-protected_calls index [] = refl
main_routes-protected_calls index (n ∷ ns) =
    ap (◌∷◌ (via_link index n)) (main_routes-protected_calls index ns)

main_routes-split_calls :
    (orig : Route) (nets : List IpNet)
    → main_routes (split_calls orig nets) ≡ map (via_gateway orig) nets
unfolding main_routes
main_routes-split_calls orig [] = refl
main_routes-split_calls orig (n ∷ ns) =
    ap (◌∷◌ (via_gateway orig n)) (main_routes-split_calls orig ns)

-- The default route through the link, one for each protected network, and the split ones.
abbrev pub installed : ℕ → List IpNet → List IpNet → Route → List Route
installed index protected splits orig =
    via_link index default_dst ∷ (map (via_link index) protected ++ map (via_gateway orig) splits)

pub main_routes-configure_calls :
    (index : ℕ) (name : Text) (config : WgConfig) (addrs : List Text)
    (protected splits : List IpNet) (orig : Route) (ips : List Ip)
    → main_routes (configure_calls index name config addrs protected splits orig ips)
      ≡ installed index protected splits orig
unfolding main_routes
main_routes-configure_calls index name config addrs protected splits orig ips = simp (
  main_routes-append, main_routes-addr_calls, main_routes-protected_calls, main_routes-split_calls,
  main_routes-rule_calls,
)

pub main_routes-configured :
    (index : ℕ) (name : Text) (config : WgConfig) (addrs : List Text)
    (protected splits : List IpNet) (orig : Route) (ips : List Ip)
    → main_routes
        (configure_calls index name config addrs protected splits orig ips ++ leave_ns ∷ [])
      ≡ installed index protected splits orig
unfolding main_routes
main_routes-configured index name config addrs protected splits orig ips =
    main_routes-append (configure_calls index name config addrs protected splits orig ips)
      (leave_ns ∷ [])
    ∙ append-nil _
    ∙ main_routes-configure_calls index name config addrs protected splits orig ips

In-map :
    {A B : Type 0} (f : A → B) (b : B) (xs : List A)
    → In b (map f xs)
    → (x : A) × In x xs × (b ≡ f x)
In-map f b [] i = elim i [ ]
In-map f b (x ∷ xs) (here e) = (x, here refl, e)
In-map f b (x ∷ xs) (there i) = let (y, j, e) = In-map f b xs i in (y, there j, e)

pub map-In : {A B : Type 0} (f : A → B) (x : A) (xs : List A) → In x xs → In (f x) (map f xs)
map-In f x [] i = elim i [ ]
map-In f x (y ∷ ys) (here e) = here (ap f e)
map-In f x (y ∷ ys) (there i) = there (map-In f x ys i)

pub In-append : {A : Type 0} (x : A) (xs ys : List A) → In x (xs ++ ys) → In x xs ⊎ In x ys
In-append x [] ys i = inr i
In-append x (z ∷ xs) ys (here e) = inl (here e)
In-append x (z ∷ xs) ys (there i) = elim (In-append x xs ys i) [
  | inl j ↦ inl (there j)
  | inr j ↦ inr j
]

-- Where an installed route comes from.
pub data Origin (index : ℕ) (protected splits : List IpNet) (orig r : Route) : Type 0 where
  default : r ≡ via_link index default_dst → Origin index protected splits orig r
  tunnel :
      (p : IpNet) → In p protected → r ≡ via_link index p → Origin index protected splits orig r
  split : (s : IpNet) → In s splits → r ≡ via_gateway orig s → Origin index protected splits orig r

module _ (index : ℕ) (protected splits : List IpNet) (orig : Route) where
  pub installed-Origin :
      (r : Route)
      → In r (installed index protected splits orig)
      → Origin index protected splits orig r
  installed-Origin r (here e) = default e
  installed-Origin r (there i) = elim (In-append r (map (via_link index) protected) _ i) [
    | inl j ↦ let (p, k, e) = In-map (via_link index) r protected j in tunnel p k e
    | inr j ↦ let (s, k, e) = In-map (via_gateway orig) r splits j in split s k e
  ]
