-- ===== src/Neutron/Builder/Rows.antt =====
-- internal/neutron/trie.go: which rows the builder makes, in terms of the snapshot.
pub mod Routed
pub mod Sound
pub mod Complete
pub mod Exact
use lachesis.Base.{
  ℕ, ◌≡◌, ◌≢◌, String, true, false, some, Bool, not, ◌||◌, if◌then◌else◌, List, ◌++◌,
}
use lachesis.Base.Among.{Among}
use lachesis.Bpf.{zone_external, zone_same_tenant, zone_infra, zone_shared}
use lachesis.Trie.{Prefix, TrieEntry}
use lachesis.Neutron.{
  v4, Netip, Network, Subnet, FixedIp, Port, Route, Router, Snapshot, is_infra_port, catchall,
  metadata_prefix,
}
use lachesis.Neutron.Topology.{new_resolve_index}
use lachesis.Neutron.Routes.{resolve_static_route_zone}
use lachesis.Neutron.Builder.{parse_prefix_v4, parse_addr_v4_as_prefix}
use lachesis.Neutron.Builder.Subnets.{IsSubnetOf}
use lachesis.Neutron.Builder.Tenants.{IsTenant}

abbrev pub row : String → Prefix → ℕ → TrieEntry
row tenant p zone = record { tenant_id = tenant; prefix = p; zone = zone }

-- What the trie of a snapshot holds: rows for everybody, if there is a tenant, and rows for a tenant.
pub data IsRow (ip : Netip) (snap : Snapshot) (max_hops : ℕ) (e : TrieEntry) : Type 0 where
  everything :
      (t : String) → IsTenant snap t → e ≡ row "" catchall zone_external → IsRow ip snap max_hops e
  owned :
      (n : Network) (s : Subnet) (p : Prefix)
      → Among n snap.networks
      → n.project_id ≢ ""
      → n.shared ≡ false
      → n.is_external ≡ false
      → IsSubnetOf snap n.id s
      → parse_prefix_v4 ip s.cidr ≡ some p
      → e ≡ row n.project_id p zone_same_tenant
      → IsRow ip snap max_hops e
  for_all :
      (t : String) (n : Network) (s : Subnet) (p : Prefix)
      → IsTenant snap t
      → Among n snap.networks
      → n.shared ≡ true
      → n.is_external ≡ false
      → IsSubnetOf snap n.id s
      → parse_prefix_v4 ip s.cidr ≡ some p
      → e ≡ row "" p zone_shared
      → IsRow ip snap max_hops e
  infra_port :
      (t : String) (q : Port) (f : FixedIp) (p : Prefix)
      → IsTenant snap t
      → Among q snap.ports
      → is_infra_port q.device_owner ≡ true
      → Among f q.fixed_ips
      → parse_addr_v4_as_prefix ip f.ip_address ≡ some p
      → e ≡ row "" p zone_infra
      → IsRow ip snap max_hops e
  gateway :
      (t : String) (s : Subnet) (p : Prefix)
      → IsTenant snap t
      → Among s snap.subnets
      → s.ip_version ≡ 4
      → parse_addr_v4_as_prefix ip s.gateway_ip ≡ some p
      → e ≡ row "" p zone_infra
      → IsRow ip snap max_hops e
  metadata :
      (t : String)
      → IsTenant snap t
      → e ≡ row "" metadata_prefix zone_infra
      → IsRow ip snap max_hops e
  routed :
      (r : Router) (route : Route) (destination : Prefix) (nexthop : ℕ)
      → Among r snap.routers
      → r.project_id ≢ ""
      → Among route r.routes
      → parse_prefix_v4 ip route.destination ≡ some destination
      → ip.parse_addr route.nexthop ≡ some (v4 nexthop)
      → e
        ≡ row r.project_id destination
            (resolve_static_route_zone ip
              (new_resolve_index snap max_hops)
              r
              destination
              nexthop).zone
      → IsRow ip snap max_hops e
