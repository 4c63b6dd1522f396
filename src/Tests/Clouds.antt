-- ===== src/Tests/Clouds.antt =====
-- The theorems on routes and on the trie, at a cloud with two networks of one tenant and a route between.
use text.Mathlib.Text.{◌==◌ as str_eq}
use lachesis.Base.{◌≡◌, refl, false, none, some, List, [], ◌∷◌, arith, ◌↔◌, inl, if◌then◌else◌, ltb}
use lachesis.Base.Text.{String-discrete}
use lachesis.Base.Among.{Among}
use native.Mathlib.Decide.{ℕ_discrete}
use lachesis.Base.GoMap.{get, put}
use lachesis.Bpf.{zone_same_tenant}
use lachesis.Trie.{Prefix, TrieEntry}
use lachesis.Neutron.{v4, prefix_v4, Netip, Network, Subnet, Port, Route, Router, Snapshot}
use lachesis.Neutron.Topology.{ResolveIndex}
use lachesis.Neutron.Routes.{trace, resolve_static_route_zone}
use lachesis.Neutron.Routes.Hops.{resolve_static_route_zone-trace}
use lachesis.Neutron.Routes.Sound.{IsSound, resolve_static_route_zone-IsSound}
use lachesis.Neutron.Builder.{build_trie}
use lachesis.Neutron.Builder.Tenants.{IsTenant}
use lachesis.Neutron.Builder.Rows.{IsRow, row}
use lachesis.Neutron.Builder.Rows.Exact.{Among-build_trie}
use lachesis.Neutron.Lookup.{Pass, lookup_zone}
use lachesis.Neutron.Lookup.Longest.{IsZone, lookup_zone-IsZone}
use lachesis.Neutron.Lookup.Found.{lookup_zone-build_trie}

abbrev front : Prefix
front = record { addr = 0x0a00_0000; bits = 24 }

abbrev back : Prefix
back = record { addr = 0x0a00_0100; bits = 24 }

-- A parser of the texts that stand here.
abbrev texts : Netip
texts = record {
  parse_prefix = λ s.
      if str_eq s "10.0.0.0/24"
      then some (prefix_v4 front)
      else if str_eq s "10.0.1.0/24"
      then some (prefix_v4 back)
      else none;
  parse_addr = λ s. if str_eq s "10.0.0.2" then some (v4 0x0a00_0002) else none;
  parse_mac = λ s. none;
  addr_string = λ a. "10.0.0.2";
  prefix_string = λ p. if ltb p.addr 0x0a00_0100 then "10.0.0.0/24" else "10.0.1.0/24";
}

abbrev front_net : Network
front_net = record {
  id = "n1";
  project_id = "red";
  name = "front";
  shared = false;
  is_external = false;
}

abbrev back_net : Network
back_net = record {
  id = "n2";
  project_id = "red";
  name = "back";
  shared = false;
  is_external = false;
}

abbrev front_subnet : Subnet
front_subnet = record {
  id = "s1";
  network_id = "n1";
  project_id = "red";
  cidr = "10.0.0.0/24";
  gateway_ip = "";
  ip_version = 4;
}

abbrev back_subnet : Subnet
back_subnet = record front_subnet { id = "s2"; network_id = "n2"; cidr = "10.0.1.0/24" }

abbrev interface : Port
interface = record {
  id = "p1";
  network_id = "n1";
  project_id = "red";
  mac_address = "";
  device_owner = "network:router_interface";
  device_id = "r2";
  fixed_ips =
      record { subnet_id = "s1"; ip_address = "10.0.0.2" }
      ∷ record { subnet_id = "s2"; ip_address = "10.0.1.1" }
      ∷ [];
}

abbrev to_back : Route
to_back = record { destination = "10.0.1.0/24"; nexthop = "10.0.0.2" }

abbrev edge : Router
edge = record {
  id = "r1";
  project_id = "red";
  name = "edge";
  external_network_id = "";
  routes = to_back ∷ [];
}

abbrev inner : Router
inner = record edge { id = "r2"; name = "inner"; routes = [] }

abbrev cloud : Snapshot
cloud = record {
  networks = front_net ∷ back_net ∷ [];
  subnets = front_subnet ∷ back_subnet ∷ [];
  ports = interface ∷ [];
  routers = edge ∷ inner ∷ [];
  floating_ips = [];
  load_balancers = [];
  amphorae = [];
}

-- The index of the cloud.
abbrev index : ResolveIndex
index = record {
  routers = ("r1", edge) ∷ ("r2", inner) ∷ [];
  subnets = ("s1", front_subnet) ∷ ("s2", back_subnet) ∷ [];
  networks = ("n1", front_net) ∷ ("n2", back_net) ∷ [];
  router_subnets = ("r1", "s1" ∷ []) ∷ ("r2", "s1" ∷ "s2" ∷ []) ∷ [];
  ports_in_subnet = ("s1", ("10.0.0.2", interface) ∷ []) ∷ [];
  max_hops = 16;
}

owned_by_red : IsTenant cloud "red"
owned_by_red = record { named = λ e. cc; owner = inl (front_net, inl refl, refl) }

-- The route leads to the tenant's other network.
to_back_zone : (resolve_static_route_zone texts index edge back 0x0a00_0002).zone ≡ zone_same_tenant
unfolding resolve_static_route_zone String-discrete get put ℕ_discrete
to_back_zone = refl

resolve_static_route_zone-trace_example :
    trace texts index edge back 3 edge 0x0a00_0002 (put String-discrete [] "r1" tt)
    ≡ resolve_static_route_zone texts index edge back 0x0a00_0002
resolve_static_route_zone-trace_example =
    resolve_static_route_zone-trace texts index edge back 0x0a00_0002 3 (omega arith) (omega arith)

resolve_static_route_zone-IsSound_example :
    IsSound texts index edge back 0x0a00_0002
      (resolve_static_route_zone texts index edge back 0x0a00_0002)
resolve_static_route_zone-IsSound_example =
    resolve_static_route_zone-IsSound texts index edge back 0x0a00_0002

Among-build_trie_example :
    Among (row "red" back zone_same_tenant) (build_trie texts cloud 16).entries
    ↔ IsRow texts cloud 16 (row "red" back zone_same_tenant)
Among-build_trie_example = Among-build_trie texts cloud 16 (row "red" back zone_same_tenant)

abbrev two_entries : List TrieEntry
two_entries = row "red" back zone_same_tenant ∷ row "" front 0 ∷ []

lookup_zone-IsZone_example :
    IsZone two_entries (v4 0x0a00_0105) "red" (lookup_zone two_entries (v4 0x0a00_0105) "red")
lookup_zone-IsZone_example = lookup_zone-IsZone two_entries (v4 0x0a00_0105) "red"

lookup_zone-build_trie_example :
    (e : TrieEntry) × (pass : Pass) × (lookup_zone
        (build_trie texts cloud 16).entries
        (v4 0x0a00_0105)
        "red"
      ≡ some (e, pass))
    × IsRow texts cloud 16 e
lookup_zone-build_trie_example =
    lookup_zone-build_trie texts cloud 16 "red" owned_by_red 0x0a00_0105 (omega arith) "red"
