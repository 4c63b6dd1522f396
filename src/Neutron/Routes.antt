-- ===== src/Neutron/Routes.antt =====
-- internal/neutron/resolve.go: the zone of one static route.
pub mod Hops
pub mod Reached
pub mod Searches
pub mod Matches
pub mod Sound
use text.Mathlib.Text.{◌==◌ as str_eq}
use lachesis.Base.{
  ℕ, zero, suc, ◌+◌, String, Bool, true, false, not, ◌||◌, ◌&&◌, Option, none, some, List, [], ◌∷◌,
  ◌++◌, ltb, leb, ◌==◌, if◌then◌else◌,
}
use lachesis.Base.Text.{String-discrete}
use lachesis.Base.GoMap.{GoMap, get, put, length}
use lachesis.Bpf.{zone_external, zone_same_tenant, zone_other_tenant, zone_shared}
use lachesis.Trie.{Prefix}
use lachesis.Neutron.{
  Addr, v4, v6, NetPrefix, prefix_v4, prefix_v6, Netip, contains, Network, Subnet, FixedIp, Port,
  Route, Router, Snapshot, device_owner_router_interface, is_compute_port,
  default_max_static_route_hops,
}
use lachesis.Neutron.Topology.{ResolveIndex, at, anchor_subnet, port_at}

pub record AmbiguityHit : Type 0 where
  pub source_tenant : String
  pub router_id : String
  pub destination : Prefix
  pub owners : List String

pub record CycleHit : Type 0 where
  pub source_tenant : String
  pub source_router : String
  pub destination : Prefix
  pub loop_router : String

-- What the resolver returns.
pub record Outcome : Type 0 where
  pub zone : ℕ
  pub ambiguity : Option AmbiguityHit
  pub cycle : Option CycleHit

-- `zoneFor`
unfoldable pub zone_for : String → String → Network → ℕ
zone_for owner_tenant source_tenant network =
    if network.is_external
    then zone_external
    else if network.shared
    then zone_shared
    else if str_eq owner_tenant source_tenant
    then zone_same_tenant
    else zone_other_tenant

-- `containsString`
unfoldable pub contains_string : List String → String → Bool
contains_string [] v = false
contains_string (x ∷ s) v = str_eq x v || contains_string s v

abbrev pub bits_of : NetPrefix → ℕ
bits_of (prefix_v4 p) = p.bits
bits_of (prefix_v6 addr bits) = bits

abbrev pub external : Outcome
external = record { zone = zone_external; ambiguity = none; cycle = none }

-- The candidates that the loop of `resolveAtNextRouter` has found: the first network, and the owners.
pub record Matched : Type 0 where
  pub first : Option Network
  pub owners : List String

unfoldable pub add_match : Network → Matched → Matched
unfolding contains_string
add_match n c = record {
  first = elim c.first [ none ↦ some n | some old ↦ some old ];
  owners =
      if contains_string c.owners n.project_id then c.owners else c.owners ++ (n.project_id ∷ []);
}

-- What `resolveAtNextRouter` makes of the candidates.
abbrev pub verdict : Router → Prefix → String → Option Network → List String → Option Outcome
verdict next destination source_tenant none owners = none
verdict next destination source_tenant (some n) owners = some (
    if ltb 1 (length owners)
    then record external {
      ambiguity = some (record {
        source_tenant = source_tenant;
        router_id = next.id;
        destination = destination;
        owners = owners;
      });
    }
    else record external { zone = zone_for n.project_id source_tenant n })

-- The end of a round: the resolver returns, or goes on from a router with a nexthop.
pub data Round : Type 0 where
  done : Outcome → Round
  onward : Router → ℕ → GoMap String (Unit {0}) → Round

-- The case of a VM, on what `ri.networks` holds
unfoldable pub meet_vm : Router → Port → Option Network → Round
unfolding zone_for
meet_vm r port none = done external
meet_vm r port (some n) = done (record external { zone = zone_for port.project_id r.project_id n })

module _ (ip : Netip) where
  -- `supernetOf` on what the text parses to
  unfoldable pub supernet : Option NetPrefix → Prefix → Option NetPrefix
  unfolding contains
  supernet none dst = none
  supernet (some p) dst =
      if ltb dst.bits (bits_of p) || not (contains p dst.addr) then none else some p

  -- `supernetOf`
  unfoldable pub supernet_of : String → Prefix → Option NetPrefix
  unfolding supernet
  supernet_of cidr dst = supernet (ip.parse_prefix cidr) dst

  -- One round of `lpmMatchRoute`: the best route so far with its bits, and `none` for -1.
  abbrev pub keep_longer : Route → Option NetPrefix → Option (Route × ℕ) → Option (Route × ℕ)
  keep_longer r none best = best
  keep_longer r (some rp) none = some (r, bits_of rp)
  keep_longer r (some rp) (some (b, bits)) =
      if ltb bits (bits_of rp) then some (r, bits_of rp) else some (b, bits)

  unfoldable pub longest_route : List Route → Prefix → Option (Route × ℕ) → Option (Route × ℕ)
  unfolding supernet_of
  longest_route [] destination best = best
  longest_route (r ∷ routes) destination best =
      longest_route routes destination (keep_longer r (supernet_of r.destination destination) best)

  -- `lpmMatchRoute`
  unfoldable pub lpm_match_route : List Route → Prefix → Option Route
  unfolding longest_route
  lpm_match_route routes destination = elim (longest_route routes destination none) [
    | none ↦ none
    | some (r, bits) ↦ some r
  ]

  -- One round of it, with the subnet and its network as the index has them.
  unfoldable pub visit_subnet : ResolveIndex → Subnet → Prefix → Option Subnet → Matched → Matched
  unfolding supernet_of add_match
  visit_subnet ri entered destination none c = c
  visit_subnet ri entered destination (some s) c =
      if not (s.ip_version == 4) || str_eq s.network_id entered.network_id
      then c
      else elim (supernet_of s.cidr destination) [
        | none ↦ c
        | some p ↦ elim (get String-discrete ri.networks s.network_id) [
          | none ↦ c
          | some n ↦ add_match n c
        ]
      ]

  unfoldable pub visit_subnets : ResolveIndex → Subnet → Prefix → List String → Matched → Matched
  unfolding visit_subnet
  visit_subnets ri entered destination [] c = c
  visit_subnets ri entered destination (sid ∷ sids) c =
      visit_subnets ri entered destination sids
        (visit_subnet ri entered destination (get String-discrete ri.subnets sid) c)

  -- `resolveAtNextRouter`
  unfoldable pub resolve_at_next_router :
      ResolveIndex → Router → Subnet → Prefix → String → Option Outcome
  unfolding visit_subnets zone_for
  resolve_at_next_router ri next entered destination source_tenant =
      let c =
        visit_subnets ri entered destination (at ri.router_subnets next.id)
          (record { first = none; owners = [] }) in
      verdict next destination source_tenant c.first c.owners

  -- Step D on the route that `lpmMatchRoute` found
  unfoldable pub follow : Router → GoMap String (Unit {0}) → Option Route → Round
  follow next visited none = done external
  follow next visited (some route) = elim (ip.parse_addr route.nexthop) [
    | none ↦ done external
    | some (v6 a) ↦ done external
    | some (v4 nh) ↦ onward next nh visited
  ]

  -- Steps C to E at a router that was not visited
  unfoldable pub enter :
      ResolveIndex → Router → Subnet → Prefix → String → GoMap String (Unit {0}) → Round
  unfolding resolve_at_next_router lpm_match_route follow
  enter ri next iface destination source_tenant visited =
      elim (resolve_at_next_router ri next iface destination source_tenant) [
        | none ↦ follow next visited (lpm_match_route next.routes destination)
        | some o ↦ done o
      ]

  -- The case of a router interface, on what `ri.routers` holds
  unfoldable pub meet_router :
      ResolveIndex → Router → Prefix → GoMap String (Unit {0}) → Subnet → Option Router → Round
  unfolding enter
  meet_router ri r destination visited iface none = done external
  meet_router ri r destination visited iface (some next) =
      elim (get String-discrete visited next.id) [
        | none ↦
            enter ri next iface destination r.project_id (put String-discrete visited next.id tt)
        | some _ ↦ done (record external {
          cycle = some (record {
            source_tenant = r.project_id;
            source_router = r.id;
            destination = destination;
            loop_router = next.id;
          });
        })
      ]

  -- The `switch` on the port at the nexthop
  unfoldable pub meet :
      ResolveIndex → Router → Prefix → GoMap String (Unit {0}) → Subnet → Option Port → Round
  unfolding meet_router meet_vm is_compute_port
  meet ri r destination visited iface none = done external
  meet ri r destination visited iface (some port) =
      if str_eq port.device_owner device_owner_router_interface
      then meet_router ri r destination visited iface
          (get String-discrete ri.routers port.device_id)
      else if is_compute_port port.device_owner
      then meet_vm r port (get String-discrete ri.networks iface.network_id)
      else done external

  -- One round of the loop of `resolveStaticRouteZone`
  unfoldable pub round :
      ResolveIndex → Router → Prefix → Router → ℕ → GoMap String (Unit {0}) → Round
  unfolding anchor_subnet port_at meet
  round ri r destination current nexthop visited = elim (anchor_subnet ip ri current.id nexthop) [
    | none ↦ done external
    | some iface ↦
        meet ri r destination visited iface (port_at ri iface.id (ip.addr_string nexthop))
  ]

  -- The loop, with the hops left
  unfoldable pub trace :
      ResolveIndex → Router → Prefix → ℕ → Router → ℕ → GoMap String (Unit {0}) → Outcome
  unfolding round
  trace ri r destination zero current nexthop visited = external
  trace ri r destination (suc hops) current nexthop visited =
      elim (round ri r destination current nexthop visited) [
        | done o ↦ o
        | onward next nh visited' ↦ trace ri r destination hops next nh visited'
      ]

  -- `resolveStaticRouteZone`
  unfoldable pub resolve_static_route_zone : ResolveIndex → Router → Prefix → ℕ → Outcome
  unfolding trace
  resolve_static_route_zone ri r destination initial_nexthop =
      trace ri r destination ri.max_hops r initial_nexthop (put String-discrete [] r.id tt)
