-- ===== src/Neutron/Builder.antt =====
-- internal/neutron/trie.go: the rows of the kernel's trie, in five steps. A loop that appends to a slice is
-- `append_each`; the durations of the steps, which are metrics, are left out.
pub mod Gathering
pub mod Subnets
pub mod Tenants
pub mod Prefixes
pub mod Rows
use Prim.Native.String.{compare as compare_text}
use native.Mathlib.Decide.{ℕ_discrete}
use text.Mathlib.Text.{◌==◌ as str_eq, is_lt}
use lachesis.Base.{
  ℕ, String, Bool, true, false, not, ◌||◌, ◌&&◌, Option, none, some, List, [], ◌∷◌, ◌++◌, map, ltb,
  ◌==◌, if◌then◌else◌,
}
use lachesis.Base.Text.{String-discrete}
use lachesis.Base.Among.{append_each, for_each, sort}
use lachesis.Base.GoMap.{GoMap, get, put}
use lachesis.Bpf.{zone_external, zone_same_tenant, zone_infra, zone_shared}
use lachesis.Trie.{Prefix, TrieEntry, Prefix-discrete}
use lachesis.Neutron.{
  Addr, v4, v6, NetPrefix, prefix_v4, prefix_v6, Netip, Network, Subnet, FixedIp, Port, Route,
  Router, Snapshot, masked, is_infra_port, catchall, metadata_prefix, default_max_static_route_hops,
}
use lachesis.Neutron.Topology.{ResolveIndex, at, new_resolve_index}
use lachesis.Neutron.Routes.{Outcome, AmbiguityHit, CycleHit, resolve_static_route_zone}

-- `groupSubnetsByNetwork`
unfoldable pub group_subnets : List Subnet → GoMap String (List Subnet) → GoMap String (List Subnet)
group_subnets [] out = out
group_subnets (s ∷ subnets) out = group_subnets subnets (
    if not (s.ip_version == 4)
    then out
    else put String-discrete out s.network_id (at out s.network_id ++ (s ∷ [])))

-- `if id != "" { set[id] = struct{}{} }`
abbrev pub add_tenant : String → GoMap String (Unit {0}) → GoMap String (Unit {0})
add_tenant id set = if str_eq id "" then set else put String-discrete set id tt

unfoldable pub add_tenants : List String → GoMap String (Unit {0}) → GoMap String (Unit {0})
unfolding for_each
add_tenants = for_each add_tenant

abbrev pub keys : {V : Type 0} → GoMap String V → List String
keys [] = []
keys ((k, v) ∷ m) = k ∷ keys m

-- `a < b` on strings
abbrev pub text_lt : String → String → Bool
text_lt a b = is_lt (compare_text a b)

-- `collectTenants`
unfoldable pub collect_tenants : List Network → List Port → List Router → List String
unfolding add_tenants
collect_tenants networks ports routers = sort text_lt (
    keys (
      add_tenants (map (λ (r : Router). r.project_id) routers) (
        add_tenants (map (λ (p : Port). p.project_id) ports)
          (add_tenants (map (λ (n : Network). n.project_id) networks) []))))

-- `seen` and `out` of the loops that drop duplicates.
pub record Collected : Type 0 where
  pub seen : GoMap Prefix (Unit {0})
  pub out : List Prefix

abbrev pub nothing_yet : Collected
nothing_yet = record { seen = []; out = [] }

-- `add`, and the same in `buildSharedPrefixes`, on what `seen` holds
unfoldable pub collect_as : Prefix → Collected → Option (Unit {0}) → Collected
collect_as p c none = record { seen = put Prefix-discrete c.seen p tt; out = c.out ++ (p ∷ []) }
collect_as p c (some dup) = c

unfoldable pub collect : Prefix → Collected → Collected
unfolding collect_as
collect p c = collect_as p c (get Prefix-discrete c.seen p)

-- `if !ok { continue }` before it
abbrev pub collect? : Option Prefix → Collected → Collected
collect? none c = c
collect? (some p) c = collect p c

-- `trieBuilder`: what every step reads
pub record TrieBuilder : Type 0 where
  pub networks : List Network
  pub routers : List Router
  pub subnets_by_network : GoMap String (List Subnet)
  pub tenants : List String
  pub shared_prefixes : List Prefix
  pub infra_prefixes : List Prefix
  pub ri : ResolveIndex

module _ (ip : Netip) where
  -- `parsePrefixV4`
  unfoldable pub parse_prefix_v4 : String → Option Prefix
  parse_prefix_v4 s = elim (ip.parse_prefix s) [
    | none ↦ none
    | some (prefix_v4 p) ↦ some (masked p)
    | some (prefix_v6 addr bits) ↦ none
  ]

  -- `parseAddrV4AsPrefix`
  unfoldable pub parse_addr_v4_as_prefix : String → Option Prefix
  parse_addr_v4_as_prefix s = if str_eq s "" then none else elim (ip.parse_addr s) [
    | none ↦ none
    | some (v4 a) ↦ some (record { addr = a; bits = 32 })
    | some (v6 a) ↦ none
  ]

  unfoldable pub collect_subnets : List Subnet → Collected → Collected
  unfolding for_each parse_prefix_v4
  collect_subnets = for_each (λ (s : Subnet). collect? (parse_prefix_v4 s.cidr))

  abbrev pub collect_shared : GoMap String (List Subnet) → Network → Collected → Collected
  collect_shared by_network n c =
      if not n.shared || n.is_external then c else collect_subnets (at by_network n.id) c

  -- `buildSharedPrefixes`
  unfoldable pub build_shared_prefixes : List Network → GoMap String (List Subnet) → List Prefix
  unfolding for_each collect_subnets
  build_shared_prefixes networks by_network =
      (for_each (collect_shared by_network) networks nothing_yet).out

  unfoldable pub collect_addresses : List FixedIp → Collected → Collected
  unfolding for_each parse_addr_v4_as_prefix
  collect_addresses = for_each (λ (f : FixedIp). collect? (parse_addr_v4_as_prefix f.ip_address))

  abbrev pub collect_port : Port → Collected → Collected
  collect_port p c =
      if not (is_infra_port p.device_owner) then c else collect_addresses p.fixed_ips c

  abbrev pub collect_gateway : Subnet → Collected → Collected
  collect_gateway s c =
      if not (s.ip_version == 4) || str_eq s.gateway_ip ""
      then c
      else collect? (parse_addr_v4_as_prefix s.gateway_ip) c

  -- `buildInfraPrefixes`
  unfoldable pub build_infra_prefixes : List Subnet → List Port → List Prefix
  unfolding for_each collect_addresses parse_addr_v4_as_prefix
  build_infra_prefixes subnets ports =
      (for_each collect_gateway subnets (for_each collect_port ports nothing_yet)).out

  -- `newTrieBuilder`
  unfoldable pub new_trie_builder : Snapshot → ℕ → TrieBuilder
  unfolding group_subnets collect_tenants build_shared_prefixes build_infra_prefixes
  new_trie_builder snap max_hops =
      let by_network = group_subnets snap.subnets [] in
      record {
        networks = snap.networks;
        routers = snap.routers;
        subnets_by_network = by_network;
        tenants = collect_tenants snap.networks snap.ports snap.routers;
        shared_prefixes = build_shared_prefixes snap.networks by_network;
        infra_prefixes = build_infra_prefixes snap.subnets snap.ports;
        ri = new_resolve_index snap max_hops;
      }

-- `hasTenants`
abbrev pub has_tenants : TrieBuilder → Bool
has_tenants b = elim b.tenants [ [] ↦ false | t ∷ ts ↦ true ]

-- `emitCatchall`
unfoldable pub emit_catchall : TrieBuilder → List TrieEntry → List TrieEntry
emit_catchall b entries =
    if not (has_tenants b)
    then entries
    else entries ++ (record { tenant_id = ""; prefix = catchall; zone = zone_external } ∷ [])

module _ (ip : Netip) where
  abbrev pub owned_row : String → Subnet → List TrieEntry
  owned_row tenant s = elim (parse_prefix_v4 ip s.cidr) [
    | none ↦ []
    | some p ↦ record { tenant_id = tenant; prefix = p; zone = zone_same_tenant } ∷ []
  ]

  abbrev pub owned_rows : TrieBuilder → String → Network → List TrieEntry
  owned_rows b tenant n =
      if not (str_eq n.project_id tenant) || n.shared || n.is_external
      then []
      else append_each (owned_row tenant) (at b.subnets_by_network n.id) []

  -- `emitOwnedSubnets`
  unfoldable pub emit_owned_subnets : TrieBuilder → List TrieEntry → List TrieEntry
  unfolding parse_prefix_v4 append_each
  emit_owned_subnets b entries =
      append_each (λ tenant. append_each (owned_rows b tenant) b.networks []) b.tenants entries

abbrev pub global_row : ℕ → Prefix → List TrieEntry
global_row zone p = record { tenant_id = ""; prefix = p; zone = zone } ∷ []

-- `emitSharedSubnets`
unfoldable pub emit_shared_subnets : TrieBuilder → List TrieEntry → List TrieEntry
unfolding append_each
emit_shared_subnets b entries =
    if not (has_tenants b)
    then entries
    else append_each (global_row zone_shared) b.shared_prefixes entries

-- `emitInfraPrefixes`
unfoldable pub emit_infra_prefixes : TrieBuilder → List TrieEntry → List TrieEntry
unfolding append_each
emit_infra_prefixes b entries =
    if not (has_tenants b)
    then entries
    else append_each (global_row zone_infra) b.infra_prefixes entries
      ++ global_row zone_infra metadata_prefix

-- A route that the resolver was asked about, with its answer.
pub record Resolved : Type 0 where
  pub tenant : String
  pub destination : Prefix
  pub outcome : Outcome

module _ (ip : Netip) where
  -- One round over a router's routes, on what the two texts parse to: nothing for what is not IPv4
  abbrev pub asked : ResolveIndex → String → Router → Option Prefix → Option Addr → List Resolved
  asked ri tenant r none nexthop = []
  asked ri tenant r (some destination) none = []
  asked ri tenant r (some destination) (some (v6 a)) = []
  asked ri tenant r (some destination) (some (v4 nh)) =
      record {
        tenant = tenant;
        destination = destination;
        outcome = resolve_static_route_zone ip ri r destination nh;
      }
      ∷ []

  abbrev pub resolve_route : ResolveIndex → String → Router → Route → List Resolved
  resolve_route ri tenant r route =
      asked ri tenant r (parse_prefix_v4 ip route.destination) (ip.parse_addr route.nexthop)

  abbrev pub resolve_router : ResolveIndex → String → Router → List Resolved
  resolve_router ri tenant r =
      if not (str_eq r.project_id tenant)
      then []
      else append_each (resolve_route ri tenant r) r.routes []

  -- The three loops of `emitExtraRoutes`, and what each round asked of the resolver.
  unfoldable pub resolved_routes : TrieBuilder → List Resolved
  unfolding parse_prefix_v4 append_each resolve_static_route_zone
  resolved_routes b =
      append_each (λ tenant. append_each (resolve_router b.ri tenant) b.routers []) b.tenants []

abbrev pub route_row : Resolved → List TrieEntry
route_row x = record { tenant_id = x.tenant; prefix = x.destination; zone = x.outcome.zone } ∷ []

abbrev pub hit : {A : Type 0} → Option A → List A
hit none = []
hit (some h) = h ∷ []

-- What `buildTrie` returns.
pub record Built : Type 0 where
  pub entries : List TrieEntry
  pub ambiguities : List AmbiguityHit
  pub cycles : List CycleHit

-- `emitExtraRoutes`, on what the resolver answered: it appends a row, and an incident where there is one
unfoldable pub emit_extra_routes : List Resolved → List TrieEntry → Built
unfolding append_each
emit_extra_routes resolved entries = record {
  entries = append_each route_row resolved entries;
  ambiguities = append_each (λ (x : Resolved). hit x.outcome.ambiguity) resolved [];
  cycles = append_each (λ (x : Resolved). hit x.outcome.cycle) resolved [];
}

module _ (ip : Netip) where
  -- The order of `sortEntries`
  unfoldable pub entry_lt : TrieEntry → TrieEntry → Bool
  entry_lt a b =
      if not (str_eq a.tenant_id b.tenant_id)
      then text_lt a.tenant_id b.tenant_id
      else if not (str_eq (ip.prefix_string a.prefix) (ip.prefix_string b.prefix))
      then text_lt (ip.prefix_string a.prefix) (ip.prefix_string b.prefix)
      else ltb a.zone b.zone

  -- `buildTrie`
  unfoldable pub build_trie : Snapshot → ℕ → Built
  unfolding new_trie_builder emit_catchall emit_owned_subnets emit_shared_subnets
      emit_infra_prefixes resolved_routes emit_extra_routes entry_lt
  build_trie snap max_hops =
      let b = new_trie_builder ip snap max_hops in
      let entries =
        emit_infra_prefixes b
          (emit_shared_subnets b (emit_owned_subnets ip b (emit_catchall b []))) in
      let built = emit_extra_routes (resolved_routes ip b) entries in
      record built { entries = sort entry_lt built.entries }
