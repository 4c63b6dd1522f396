-- ===== src/Neutron/Builder/Rows/Complete.antt =====
-- internal/neutron/trie.go: no row that the snapshot gives a reason for is missing from the trie.
use text.Mathlib.Text.{◌==◌ as str_eq}
use text.Mathlib.TextEquality.{eq_iff}
use lachesis.Base.{
  ℕ, ◌≡◌, ◌≢◌, refl, String, Bool, true, false, not, ◌||◌, some, List, [], ◌∷◌, arith, Bool-cases,
  ◌⊎◌, inl, inr, ◌==◌,
}
use lachesis.Base.Among.{
  Among, append_each, Among-append_left, Among-append_right, Among-append_each_old,
  Among-append_each_new, Among-sorted,
}
use lachesis.Base.GoMap.{GoMap}
use lachesis.Bpf.{zone_external, zone_same_tenant, zone_infra, zone_shared}
use lachesis.Trie.{Prefix, TrieEntry}
use lachesis.Neutron.{
  v4, Netip, Network, Subnet, Route, Router, Snapshot, is_infra_port, catchall, metadata_prefix,
}
use lachesis.Neutron.Routes.{resolve_static_route_zone}
use lachesis.Neutron.Topology.{at, new_resolve_index}
use lachesis.Neutron.Builder.{
  TrieBuilder, Resolved, parse_prefix_v4, parse_addr_v4_as_prefix, group_subnets, new_trie_builder,
  has_tenants, emit_catchall, owned_row, owned_rows, emit_owned_subnets, global_row,
  emit_shared_subnets, emit_infra_prefixes, resolve_route, resolve_router, resolved_routes,
  route_row, emit_extra_routes, entry_lt, build_trie,
}
use lachesis.Neutron.Builder.Subnets.{IsSubnetOf, IsSubnetOf-Among}
use lachesis.Neutron.Builder.Tenants.{IsTenant, IsTenant-Among}
use lachesis.Neutron.Builder.Prefixes.{
  FromShared, FromPorts, FromGateways, shared-Among, infra-Among,
}
use lachesis.Neutron.Builder.Rows.{
  row, IsRow, everything, owned, for_all, infra_port, gateway, metadata, routed,
}

gateway_named :
    (ip : Netip) (s : String) (p : Prefix)
    → parse_addr_v4_as_prefix ip s ≡ some p
    → str_eq s "" ≡ false
unfolding parse_addr_v4_as_prefix
gateway_named ip s p e = elim (Bool-cases (str_eq s "")) [
  | inl empty ↦ cc (rw empty at e)
  | inr named ↦ named
]

passes :
    (ip : Netip) (s : Subnet) (p : Prefix)
    → s.ip_version ≡ 4
    → parse_addr_v4_as_prefix ip s.gateway_ip ≡ some p
    → (not (s.ip_version == 4) || str_eq s.gateway_ip "") ≡ false
passes ip s p ipv4 parsed = ground (arith, gateway_named ip s.gateway_ip p parsed)

self : (t : String) → str_eq t t ≡ true
self t = (eq_iff t t).1 refl

negated : (b : Bool) → b ≡ true → not b ≡ false
negated b e = ground arith

module _ (ip : Netip) (snap : Snapshot) (max_hops : ℕ) where
  abbrev b : TrieBuilder
  b = new_trie_builder ip snap max_hops

  abbrev by_network : GoMap String (List Subnet)
  by_network = group_subnets snap.subnets []

  not_empty :
      (t : String) (ts : List String)
      → Among t ts
      → (elim ts [ [] ↦ false | x ∷ rest ↦ true ]) ≡ true
  not_empty t [] h = absurd h
  not_empty t (x ∷ ts) h = refl

  has_some : (t : String) → IsTenant snap t → has_tenants b ≡ true
  unfolding new_trie_builder
  has_some t tenant = not_empty t b.tenants (IsTenant-Among snap t tenant)

  module _ (e : TrieEntry) where
    catchall-old : (entries : List TrieEntry) → Among e entries → Among e (emit_catchall b entries)
    unfolding emit_catchall
    catchall-old entries h = elim (Bool-cases (has_tenants b)) [
      | inl some_one ↦
          rw some_one (Among-append_left e entries (row "" catchall zone_external ∷ []) h)
      | inr no_one ↦ rw no_one h
    ]

    owned-old :
        (entries : List TrieEntry) → Among e entries → Among e (emit_owned_subnets ip b entries)
    unfolding emit_owned_subnets
    owned-old entries h =
        Among-append_each_old (λ tenant. append_each (owned_rows ip b tenant) b.networks []) e
          b.tenants entries h

    shared-old :
        (entries : List TrieEntry) → Among e entries → Among e (emit_shared_subnets b entries)
    unfolding emit_shared_subnets
    shared-old entries h = elim (Bool-cases (has_tenants b)) [
      | inl some_one ↦
          rw some_one (Among-append_each_old (global_row zone_shared) e b.shared_prefixes entries h)
      | inr no_one ↦ rw no_one h
    ]

    infra-old :
        (entries : List TrieEntry) → Among e entries → Among e (emit_infra_prefixes b entries)
    unfolding emit_infra_prefixes
    infra-old entries h = elim (Bool-cases (has_tenants b)) [
      | inl some_one ↦ rw some_one (
          Among-append_left e (append_each (global_row zone_infra) b.infra_prefixes entries)
            (global_row zone_infra metadata_prefix)
            (Among-append_each_old (global_row zone_infra) e b.infra_prefixes entries h))
      | inr no_one ↦ rw no_one h
    ]

    shared-new :
        (entries : List TrieEntry) (t : String)
        → IsTenant snap t
        → (p : Prefix) → FromShared ip by_network snap.networks p
        → e ≡ row "" p zone_shared
        → Among e (emit_shared_subnets b entries)
    unfolding emit_shared_subnets new_trie_builder
    shared-new entries t tenant p from same = rw (has_some t tenant) (
        Among-append_each_new (global_row zone_shared) p e b.shared_prefixes entries
          (shared-Among ip by_network snap.networks p from) (inl same))

    infra-new :
        (entries : List TrieEntry) (t : String)
        → IsTenant snap t
        → (p : Prefix) → FromPorts ip snap.ports p ⊎ FromGateways ip snap.subnets p
        → e ≡ row "" p zone_infra
        → Among e (emit_infra_prefixes b entries)
    unfolding emit_infra_prefixes new_trie_builder
    infra-new entries t tenant p from same = rw (has_some t tenant) (
        Among-append_left e (append_each (global_row zone_infra) b.infra_prefixes entries)
          (global_row zone_infra metadata_prefix)
          (Among-append_each_new (global_row zone_infra) p e b.infra_prefixes entries
            (infra-Among ip snap.subnets snap.ports p from) (inl same)))

    metadata-new :
        (entries : List TrieEntry) (t : String)
        → IsTenant snap t
        → e ≡ row "" metadata_prefix zone_infra
        → Among e (emit_infra_prefixes b entries)
    unfolding emit_infra_prefixes
    metadata-new entries t tenant same = rw (has_some t tenant) (
        Among-append_right e (append_each (global_row zone_infra) b.infra_prefixes entries)
          (global_row zone_infra metadata_prefix) (inl same))

    catchall-new :
        (entries : List TrieEntry) (t : String)
        → IsTenant snap t
        → e ≡ row "" catchall zone_external
        → Among e (emit_catchall b entries)
    unfolding emit_catchall
    catchall-new entries t tenant same =
        rw (has_some t tenant)
          (Among-append_right e entries (row "" catchall zone_external ∷ []) (inl same))

    owned-new :
        (entries : List TrieEntry) (n : Network) (s : Subnet) (p : Prefix)
        → Among n snap.networks
        → n.project_id ≢ ""
        → n.shared ≡ false
        → n.is_external ≡ false
        → IsSubnetOf snap n.id s
        → parse_prefix_v4 ip s.cidr ≡ some p
        → e ≡ row n.project_id p zone_same_tenant
        → Among e (emit_owned_subnets ip b entries)
    unfolding emit_owned_subnets new_trie_builder
    owned-new entries n s p network named unshared inside subnet parsed same =
        let tenant : IsTenant snap n.project_id = record {
          named = named;
          owner = inl (n, network, refl);
        } in
        Among-append_each_new (λ t. append_each (owned_rows ip b t) b.networks []) n.project_id e
          b.tenants entries (IsTenant-Among snap n.project_id tenant)
          (Among-append_each_new (owned_rows ip b n.project_id) n e b.networks [] network (
            rw (self n.project_id, unshared, inside)
              (Among-append_each_new (owned_row ip n.project_id) s e (at by_network n.id) []
                (IsSubnetOf-Among snap n.id s subnet) (rw (parsed, Among) (inl same)))))

    routed-new :
        (entries : List TrieEntry) (r : Router) (route : Route) (d : Prefix) (nh : ℕ)
        → Among r snap.routers
        → r.project_id ≢ ""
        → Among route r.routes
        → parse_prefix_v4 ip route.destination ≡ some d
        → ip.parse_addr route.nexthop ≡ some (v4 nh)
        → e
          ≡ row r.project_id d
              (resolve_static_route_zone ip (new_resolve_index snap max_hops) r d nh).zone
        → Among e (append_each route_row (resolved_routes ip b) entries)
    unfolding resolved_routes new_trie_builder
    routed-new entries r route d nh router named here pd pa same =
        let tenant : IsTenant snap r.project_id = record {
          named = named;
          owner = inr (inr (r, router, refl));
        } in
        let x : Resolved = record {
          tenant = r.project_id;
          destination = d;
          outcome = resolve_static_route_zone ip (new_resolve_index snap max_hops) r d nh;
        } in
        Among-append_each_new route_row x e (resolved_routes ip b) entries
          (Among-append_each_new (λ t. append_each (resolve_router ip b.ri t) b.routers [])
            r.project_id x b.tenants [] (IsTenant-Among snap r.project_id tenant)
            (Among-append_each_new (resolve_router ip b.ri r.project_id) r x b.routers [] router (
              rw (self r.project_id) (
                Among-append_each_new (resolve_route ip b.ri r.project_id r) route x r.routes []
                  here (rw (pd, pa) (inl refl))))))
          (inl same)

-- Every row that the snapshot gives a reason for is in the trie: the catch-all and the metadata service's,
-- those of the subnets that a tenant owns, of the shared ones, of the infrastructure and of the routes.
pub IsRow-build_trie :
    (ip : Netip) (snap : Snapshot) (max_hops : ℕ) (e : TrieEntry)
    → IsRow ip snap max_hops e
    → Among e (build_trie ip snap max_hops).entries
unfolding build_trie emit_extra_routes
IsRow-build_trie ip snap max_hops e reason =
    let b = new_trie_builder ip snap max_hops in
    let first = emit_catchall b [] in
    let second = emit_owned_subnets ip b first in
    let third = emit_shared_subnets b second in
    let fourth = emit_infra_prefixes b third in
    let resolved = resolved_routes ip b in
    let finish : Among e fourth → Among e (append_each route_row resolved fourth) =
      Among-append_each_old route_row e resolved fourth in
    Among-sorted (entry_lt ip) e (append_each route_row resolved fourth) (elim reason [
      | everything t tenant same ↦ finish (
          infra-old ip snap max_hops e third (
            shared-old ip snap max_hops e second (
              owned-old ip snap max_hops e first
                (catchall-new ip snap max_hops e [] t tenant same))))
      | owned n s p network named unshared inside subnet parsed same ↦ finish (
          infra-old ip snap max_hops e third (
            shared-old ip snap max_hops e second (
              owned-new ip snap max_hops e first n s p network named unshared inside subnet parsed
                same)))
      | for_all t n s p tenant network shared inside subnet parsed same ↦ finish (
          infra-old ip snap max_hops e third (
            shared-new ip snap max_hops e second t tenant p
              (
                n,
                network,
                (rw (shared, inside) refl, (s, IsSubnetOf-Among snap n.id s subnet, parsed)),
              )
              same))
      | infra_port t q f p tenant port infra address parsed same ↦ finish (
          infra-new ip snap max_hops e third t tenant p
            (inl (q, port, (negated (is_infra_port q.device_owner) infra, (f, address, parsed))))
            same)
      | gateway t s p tenant subnet ipv4 parsed same ↦ finish (
          infra-new ip snap max_hops e third t tenant p
            (inr (s, subnet, (passes ip s p ipv4 parsed, parsed))) same)
      | metadata t tenant same ↦ finish (metadata-new ip snap max_hops e third t tenant same)
      | routed r route d nh router named here pd pa same ↦
          routed-new ip snap max_hops e fourth r route d nh router named here pd pa same
    ])
