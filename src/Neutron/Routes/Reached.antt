-- ===== src/Neutron/Routes/Reached.antt =====
-- internal/neutron/resolve.go: what a trace meets on its way, told without the resolver's own searches.
use lachesis.Base.{ℕ, ◌≤◌, ◌≡◌, ◌≢◌, String, true, false, some}
use lachesis.Base.Text.{String-discrete}
use lachesis.Base.Among.{Among}
use lachesis.Base.GoMap.{get}
use lachesis.Trie.{Prefix}
use lachesis.Neutron.{
  v4, NetPrefix, Netip, contains, Network, Subnet, Port, Route, Router,
  device_owner_router_interface,
}
use lachesis.Neutron.Topology.{ResolveIndex, at, port_at}
use lachesis.Neutron.Routes.{bits_of}

-- The text is a prefix that holds the whole destination.
pub record Covers (ip : Netip) (destination : Prefix) (cidr : String) : Type 0 where
  pub prefix : NetPrefix
  pub parses : ip.parse_prefix cidr ≡ some prefix
  pub wide : bits_of prefix ≤ destination.bits
  pub holds : contains prefix destination.addr ≡ true

-- A router has an interface in the IPv4 subnet.
pub record IsAttached (ri : ResolveIndex) (router_id : String) (s : Subnet) : Type 0 where
  pub id : String
  pub listed : Among id (at ri.router_subnets router_id)
  pub indexed : get String-discrete ri.subnets id ≡ some s
  pub ipv4 : s.ip_version ≡ 4

-- The nexthop is an address of a subnet of the router, and a port has it.
pub record IsNexthop (ip : Netip) (ri : ResolveIndex) (current : Router) (nexthop : ℕ)
    (iface : Subnet) (port : Port) : Type 0 where
  pub attached : IsAttached ri current.id iface
  pub prefix : NetPrefix
  pub parses : ip.parse_prefix iface.cidr ≡ some prefix
  pub holds : contains prefix nexthop ≡ true
  pub there : port_at ri iface.id (ip.addr_string nexthop) ≡ some port

-- The port is an interface of the next router.
pub record IsMet (ip : Netip) (ri : ResolveIndex) (current : Router) (nexthop : ℕ) (iface : Subnet)
    (next : Router) : Type 0 where
  pub port : Port
  pub address : IsNexthop ip ri current nexthop iface port
  pub interface : port.device_owner ≡ device_owner_router_interface
  pub router : get String-discrete ri.routers port.device_id ≡ some next

-- The routers and the nexthops of a static route's trace, from its own router on: each router is met at
-- the nexthop before, and has a route that covers the destination.
pub data Reached (ip : Netip) (ri : ResolveIndex) (r : Router) (destination : Prefix) (nexthop : ℕ)
    : Router → ℕ → Type 0 where
  starts : Reached ip ri r destination nexthop r nexthop
  crosses :
      {current : Router} {nh : ℕ}
      → Reached ip ri r destination nexthop current nh
      → (iface : Subnet) (next : Router) (route : Route) (nh' : ℕ)
      → IsMet ip ri current nh iface next
      → Among route next.routes
      → Covers ip destination route.destination
      → ip.parse_addr route.nexthop ≡ some (v4 nh')
      → Reached ip ri r destination nexthop next nh'

-- A network of the index that is neither external nor shared.
pub record IsPrivate (ri : ResolveIndex) (id : String) (n : Network) : Type 0 where
  pub indexed : get String-discrete ri.networks id ≡ some n
  pub inside : n.is_external ≡ false
  pub unshared : n.shared ≡ false

-- A subnet of the router, on another network than the one that the trace came by, holds the destination.
pub record IsMatch (ip : Netip) (ri : ResolveIndex) (next : Router) (entered : Subnet)
    (destination : Prefix) (s : Subnet) (n : Network) : Type 0 where
  pub attached : IsAttached ri next.id s
  pub apart : s.network_id ≢ entered.network_id
  pub covers : Covers ip destination s.cidr
  pub indexed : get String-discrete ri.networks s.network_id ≡ some n
