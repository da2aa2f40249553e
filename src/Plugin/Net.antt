-- ===== src/Plugin/Net.antt =====
-- plugin/cmd/net.go: the WireGuard interface of a pod, its addresses, routes and rules.
pub mod Calls
pub mod Modes
use gopher_cni.Prelude.{ℕ, Bool, true, Option, none, some, List, [], ◌∷◌, ◌++◌, if◌then◌else◌}
use gopher_cni.Go.Text.{Text, codes, text_eq}
use gopher_cni.Go.Ip.{Ip, ip4, to4, IpNet}
use gopher_cni.Go.ParseIp.{parse_cidr}
use gopher_cni.Go.ShowIp.{show_ip, show_net}
use gopher_cni.Wireguard.{WgConfig, PeerConfig, UdpAddr}
use gopher_cni.Plugin.Kernel.{
  universe, link_scope, Route, Rule, get_ns, enter_ns, leave_ns, link_add, link_set_ns_fd,
  route_list, route_add, route_replace, addr_add, new_wg_client, configure_device, link_set_mtu,
  link_set_up, link_by_index, addr_list, rule_add, Kernel, invalid_peer_ip, no_default_route,
  nil_endpoint, Net, pure, raise, ◌>>=◌, ◌>>◌, call,
}

abbrev pub wg_mtu : ℕ
wg_mtu = 1420

abbrev pub eth0_return_table : ℕ
eth0_return_table = 100

-- The network that ParseCIDR gives for "0.0.0.0/0".
abbrev pub default_dst : IpNet
default_dst = record { ip = ip4 0; ones = 0; bits = 32 }

-- A route in the main table; a route through a link alone has its scope.
abbrev pub via_gateway : Route → IpNet → Route
via_gateway orig dst = record {
  link_index = orig.link_index;
  dst = some dst;
  gw = orig.gw;
  scope = universe;
  table = 0;
}

abbrev pub via_link : ℕ → IpNet → Route
via_link index dst = record {
  link_index = index;
  dst = some dst;
  gw = none;
  scope = link_scope;
  table = 0;
}

-- The copy of the original default route in the private table.
abbrev pub return_route : Route → Route
return_route orig = record {
  link_index = orig.link_index;
  dst = some default_dst;
  gw = orig.gw;
  scope = orig.scope;
  table = eth0_return_table;
}

abbrev pub return_rule : ℕ → Rule
return_rule n = record {
  table = eth0_return_table;
  src = record { ip = ip4 n; ones = 32; bits = 32 };
}

unfoldable pub is_default_dst : Option IpNet → Bool
is_default_dst none = true
is_default_dst (some dst) = text_eq (show_net dst) (codes "0.0.0.0/0")

-- The first route of the list with no destination or with 0.0.0.0/0.
unfoldable pub find_default : List Route → Option Route
unfolding is_default_dst
find_default [] = none
find_default (r ∷ rs) = if is_default_dst r.dst then some r else find_default rs

found : Option Route → Net Route
found none = raise no_default_route
found (some r) = pure r

-- The network that the code parses for a peer: the text of its address with "/32" behind it.
unfoldable pub show_endpoint_ip : Option Ip → Text
show_endpoint_ip none = codes "<nil>"
show_endpoint_ip (some ip) = show_ip ip

unfoldable pub peer_net : UdpAddr → Option IpNet
unfolding show_endpoint_ip
peer_net endpoint = parse_cidr (show_endpoint_ip endpoint.ip ++ codes "/32")

module _ (k : Kernel) where
  -- defaultRoute
  unfoldable pub default_route : Net Route
  unfolding found call
  default_route t = (do call k route_list; found (find_default (k.routes t))) t

  -- the loops over addresses and networks
  add_addrs : ℕ → List Text → Net (Unit {0})
  add_addrs index [] = pure tt
  add_addrs index (a ∷ as') = do call k (addr_add index a); add_addrs index as'

  -- setupWG
  unfoldable pub setup_wg : ℕ → Text → WgConfig → List Text → Net (Unit {0})
  unfolding add_addrs
  setup_wg index name config addrs = do
    add_addrs index addrs
    call k new_wg_client
    call k (configure_device name config)
    call k (link_set_mtu index wg_mtu)
    call k (link_set_up index)

  -- replaceDefaultRoute
  unfoldable pub replace_default_route : ℕ → Net (Unit {0})
  replace_default_route index = call k (route_replace (via_link index default_dst))

  -- addProtectedRoutes
  unfoldable pub add_protected_routes : ℕ → List IpNet → Net (Unit {0})
  add_protected_routes index [] = pure tt
  add_protected_routes index (n ∷ ns) = do
    call k (route_add (via_link index n))
    add_protected_routes index ns

  -- addSplitTunnelRoutes
  unfoldable pub add_split_tunnel_routes : Route → List IpNet → Net (Unit {0})
  add_split_tunnel_routes orig [] = pure tt
  add_split_tunnel_routes orig (n ∷ ns) = do
    call k (route_add (via_gateway orig n))
    add_split_tunnel_routes orig ns

  add_rule : Option ℕ → Net (Unit {0})
  add_rule none = pure tt
  add_rule (some n) = call k (rule_add (return_rule n))

  unfoldable pub add_rules : List Ip → Net (Unit {0})
  unfolding add_rule
  add_rules [] = pure tt
  add_rules (ip ∷ ips) = do add_rule (to4 ip); add_rules ips

  -- AddrList
  list_addrs : ℕ → Net (List Ip)
  list_addrs index t = (do call k (addr_list index); pure (k.addresses t index)) t

  -- addEth0ReturnRoute
  unfoldable pub add_eth0_return_route : Route → Net (Unit {0})
  unfolding list_addrs add_rules
  add_eth0_return_route orig = do
    call k (link_by_index orig.link_index)
    addrs ← list_addrs orig.link_index
    call k (route_add (return_route orig))
    add_rules addrs

  -- LinkAdd, which stores the index of the new link
  add_wg_link : Text → Net ℕ
  add_wg_link name t = (do call k (link_add name); pure (k.link_index t name)) t

  parsed_peer : Route → Option IpNet → Net (Unit {0})
  parsed_peer orig none = raise invalid_peer_ip
  parsed_peer orig (some dst) = call k (route_add (via_gateway orig dst))

  peer_route : Route → Option UdpAddr → Net (Unit {0})
  unfolding parsed_peer
  peer_route orig none = raise nil_endpoint
  peer_route orig (some endpoint) = parsed_peer orig (peer_net endpoint)

  unfoldable pub add_peer_routes : Route → List PeerConfig → Net (Unit {0})
  unfolding peer_route
  add_peer_routes orig [] = pure tt
  add_peer_routes orig (p ∷ ps) = do peer_route orig p.endpoint; add_peer_routes orig ps

  -- What both modes do once the link is there: steps 5 and 6 of the one, 4 and 5 of the other.
  unfoldable pub configure_pod :
      ℕ → Text → WgConfig → List Text → List IpNet → List IpNet → Route → Net (Unit {0})
  configure_pod index name config addrs protected splits orig = do
    setup_wg index name config addrs
    replace_default_route index
    add_protected_routes index protected
    add_eth0_return_route orig
    add_split_tunnel_routes orig splits

  -- containerNS.Do of the plugins' library: the calls inside are made in the namespace, and its
  -- result is theirs. leave_ns marks the end of Do: the library drops an error of the way back, which
  -- is made on a thread of its own.
  unfoldable pub ns_do : Text → Net (Unit {0}) → Net (Unit {0})
  ns_do ns body t =
      (do call k (enter_ns ns); λ t'. let r = body t' in (r.0, r.1 ++ leave_ns ∷ [])) t

  -- setupWGViaHost
  unfoldable pub setup_wg_via_host :
      Text → Text → WgConfig → List Text → List IpNet → List IpNet → Net (Unit {0})
  unfolding add_wg_link
  setup_wg_via_host ns name config addrs protected splits = do
    index ← add_wg_link name
    call k (get_ns ns)
    call k (link_set_ns_fd index ns)
    ns_do ns (do orig ← default_route; configure_pod index name config addrs protected splits orig)

  -- setupWGViaContainer
  unfoldable pub setup_wg_via_container :
      Text → Text → WgConfig → List Text → List IpNet → List IpNet → Net (Unit {0})
  unfolding add_wg_link add_peer_routes
  setup_wg_via_container ns name config addrs protected splits = do
    call k (get_ns ns)
    ns_do ns (do
      index ← add_wg_link name
      orig ← default_route
      add_peer_routes orig config.peers
      configure_pod index name config addrs protected splits orig)
