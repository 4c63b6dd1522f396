-- ===== src/Neutron/Topology.antt =====
-- internal/neutron/resolve.go: the index of a snapshot, its look-ups by router, subnet and address.
use text.Mathlib.Text.{◌==◌ as str_eq}
use lachesis.Base.{
  ℕ, String, not, ◌||◌, ◌&&◌, Option, none, some, List, [], ◌∷◌, ◌++◌, ltb, ◌==◌, if◌then◌else◌,
}
use lachesis.Base.Text.{String-discrete}
use lachesis.Base.GoMap.{GoMap, get, put}
use lachesis.Neutron.{
  Netip, contains, Network, Subnet, FixedIp, Port, Router, Snapshot, device_owner_router_interface,
  default_max_static_route_hops,
}

-- `resolveIndex`
pub record ResolveIndex : Type 0 where
  pub routers : GoMap String Router
  pub subnets : GoMap String Subnet
  pub networks : GoMap String Network
  pub router_subnets : GoMap String (List String)
  pub ports_in_subnet : GoMap String (GoMap String Port)
  pub max_hops : ℕ

-- `m[k]` of a map of slices or of maps, with nil for a key that is not there
abbrev pub at : {V : Type 0} → GoMap String (List V) → String → List V
at m k = elim (get String-discrete m k) [ none ↦ [] | some l ↦ l ]

abbrev pub by_id : {A : Type 0} → (A → String) → List A → GoMap String A → GoMap String A
by_id id [] m = m
by_id id (x ∷ xs) m = by_id id xs (put String-discrete m (id x) x)

-- The first loop over a port's fixed IPs in `newResolveIndex`.
unfoldable pub add_router_subnets :
    String → List FixedIp → GoMap String (List String) → GoMap String (List String)
add_router_subnets device [] m = m
add_router_subnets device (fip ∷ fips) m = add_router_subnets device fips (
    if str_eq fip.subnet_id ""
    then m
    else put String-discrete m device (at m device ++ (fip.subnet_id ∷ [])))

-- The second one.
unfoldable pub add_addresses :
    Port → List FixedIp → GoMap String (GoMap String Port) → GoMap String (GoMap String Port)
add_addresses p [] m = m
add_addresses p (fip ∷ fips) m = add_addresses p fips (
    if str_eq fip.subnet_id "" || str_eq fip.ip_address ""
    then m
    else put String-discrete m fip.subnet_id
        (put String-discrete (at m fip.subnet_id) fip.ip_address p))

unfoldable pub index_port : Port → ResolveIndex → ResolveIndex
unfolding add_router_subnets add_addresses
index_port p ri = record ri {
  router_subnets =
      if str_eq p.device_owner device_owner_router_interface && not (str_eq p.device_id "")
      then add_router_subnets p.device_id p.fixed_ips ri.router_subnets
      else ri.router_subnets;
  ports_in_subnet = add_addresses p p.fixed_ips ri.ports_in_subnet;
}

unfoldable pub index_ports : List Port → ResolveIndex → ResolveIndex
unfolding index_port
index_ports [] ri = ri
index_ports (p ∷ ports) ri = index_ports ports (index_port p ri)

-- `newResolveIndex`
unfoldable pub new_resolve_index : Snapshot → ℕ → ResolveIndex
unfolding index_ports
new_resolve_index snap max_hops = index_ports snap.ports (record {
  routers = by_id (λ (r : Router). r.id) snap.routers [];
  subnets = by_id (λ (s : Subnet). s.id) snap.subnets [];
  networks = by_id (λ (n : Network). n.id) snap.networks [];
  router_subnets = [];
  ports_in_subnet = [];
  max_hops = if ltb max_hops 1 then default_max_static_route_hops else max_hops;
})

module _ (ip : Netip) where
  -- The loop of `anchorSubnet` over the subnets of a router, on what `ri.subnets` holds.
  unfoldable pub anchor : ResolveIndex → List String → ℕ → Option Subnet
  unfolding contains
  anchor ri [] nexthop = none
  anchor ri (sid ∷ sids) nexthop =
      let rest = anchor ri sids nexthop in
      elim (get String-discrete ri.subnets sid) [
        | none ↦ rest
        | some s ↦ if not (s.ip_version == 4) then rest else elim (ip.parse_prefix s.cidr) [
          | none ↦ rest
          | some p ↦ if contains p nexthop then some s else rest
        ]
      ]

  -- `anchorSubnet`
  unfoldable pub anchor_subnet : ResolveIndex → String → ℕ → Option Subnet
  unfolding anchor
  anchor_subnet ri router_id nexthop = anchor ri (at ri.router_subnets router_id) nexthop

-- `portAt`
unfoldable pub port_at : ResolveIndex → String → String → Option Port
port_at ri subnet_id addr = get String-discrete (at ri.ports_in_subnet subnet_id) addr
