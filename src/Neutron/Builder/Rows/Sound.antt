-- ===== src/Neutron/Builder/Rows/Sound.antt =====
-- internal/neutron/trie.go: every row of the trie has its reason in the snapshot.
use text.Mathlib.Text.{◌==◌ as str_eq}
use text.Mathlib.TextEquality.{eq_iff}
use lachesis.Base.{
  ℕ, ◌≡◌, refl, sym, ap, ◌∙◌, String, Bool, true, false, not, ◌||◌, Option, none, some, List, [],
  ◌∷◌, ◌++◌, arith, Bool-cases, ◌⊎◌, inl, inr, if◌then◌else◌, ◌==◌,
}
use lachesis.Base.Among.{Among, append_each, Among-append, Among-append_each, Among-sort}
use lachesis.Base.GoMap.{GoMap}
use lachesis.Bpf.{zone_external, zone_same_tenant, zone_infra, zone_shared}
use lachesis.Trie.{Prefix, TrieEntry}
use lachesis.Neutron.{Netip, Network, Subnet, Snapshot, is_infra_port, catchall, metadata_prefix}
use lachesis.Neutron.Topology.{at}
use lachesis.Neutron.Builder.{
  TrieBuilder, parse_prefix_v4, group_subnets, new_trie_builder, has_tenants, emit_catchall,
  owned_row, owned_rows, emit_owned_subnets, global_row, emit_shared_subnets, emit_infra_prefixes,
  resolved_routes, route_row, emit_extra_routes, entry_lt, build_trie,
}
use lachesis.Neutron.Builder.Subnets.{IsSubnetOf, Among-group_subnets}
use lachesis.Neutron.Builder.Tenants.{IsTenant, Among-collect_tenants}
use lachesis.Neutron.Builder.Prefixes.{Among-shared, Among-infra}
use lachesis.Neutron.Builder.Rows.{
  row, IsRow, everything, owned, for_all, infra_port, gateway, metadata,
}
use lachesis.Neutron.Builder.Rows.Routed.{resolved-IsRow}

shared_of : (n : Network) → (not n.shared || n.is_external) ≡ false → n.shared ≡ true
shared_of n h = ground arith

inside_of : (n : Network) → (not n.shared || n.is_external) ≡ false → n.is_external ≡ false
inside_of n h = ground arith

is_four : (n : ℕ) (b : Bool) → (not (n == 4) || b) ≡ false → n ≡ 4
is_four n b h = ground arith

infra_of : (b : Bool) → not b ≡ false → b ≡ true
infra_of b h = ground arith

-- The tests of `emitOwnedSubnets`, none of which skips.
owned_of :
    (n : Network) (t : String)
    → (not (str_eq n.project_id t) || n.shared || n.is_external) ≡ false
    → (n.project_id ≡ t) × (n.shared ≡ false) × (n.is_external ≡ false)
owned_of n t h = ground (arith, eq_iff n.project_id t)

module _ (ip : Netip) (snap : Snapshot) (max_hops : ℕ) (e : TrieEntry) where
  abbrev b : TrieBuilder
  b = new_trie_builder ip snap max_hops

  abbrev Made : List TrieEntry → Type 0
  Made entries = Among e entries ⊎ IsRow ip snap max_hops e

  first_tenant :
      (ts : List String)
      → (elim ts [ [] ↦ false | t ∷ rest ↦ true ]) ≡ true
      → (t : String) × Among t ts
  first_tenant [] h = cc
  first_tenant (t ∷ ts) h = (t, inl refl)

  some-IsTenant : has_tenants b ≡ true → (t : String) × IsTenant snap t
  unfolding new_trie_builder
  some-IsTenant h =
      let (t, there) = first_tenant b.tenants h in (t, Among-collect_tenants snap t there)

  if_tenants :
      (entries entries' : List TrieEntry)
      → ((t : String) → IsTenant snap t → Among e entries' → Made entries)
      → Among e (if not (has_tenants b) then entries else entries')
      → Made entries
  if_tenants entries entries' f = elim (Bool-cases (has_tenants b)) [
    | inl yes_some ↦ let (t, tenant) = some-IsTenant yes_some in rw yes_some (f t tenant)
    | inr no_one ↦ rw no_one (λ h. inl h)
  ]

  abbrev by_network : GoMap String (List Subnet)
  by_network = group_subnets snap.subnets []

  catchall-Made : (entries : List TrieEntry) → Among e (emit_catchall b entries) → Made entries
  unfolding emit_catchall
  catchall-Made entries =
      if_tenants entries (entries ++ (row "" catchall zone_external ∷ [])) (λ t tenant h.
        elim (Among-append e entries (row "" catchall zone_external ∷ []) h) [
          | inl before ↦ inl before
          | inr (inl same) ↦ inr (everything t tenant same)
          | inr (inr none_left) ↦ absurd none_left
        ])

  shared-Made : (entries : List TrieEntry) → Among e (emit_shared_subnets b entries) → Made entries
  unfolding emit_shared_subnets new_trie_builder
  shared-Made entries =
      if_tenants entries (append_each (global_row zone_shared) b.shared_prefixes entries)
        (λ t tenant h.
          elim (Among-append_each (global_row zone_shared) e b.shared_prefixes entries h) [
            | inl before ↦ inl before
            | inr (p, there, inl same) ↦
                let (n, network, rest) = Among-shared ip by_network snap.networks p there in
                let (test, found) = rest in
                let (s, subnet, parsed) = found in
                inr (
                  for_all t n s p tenant network (shared_of n test) (inside_of n test)
                    (Among-group_subnets snap n.id s subnet) parsed same)
            | inr (p, there, inr none_left) ↦ absurd none_left
          ])

  infra_rows :
      (t : String) (tenant : IsTenant snap t) (entries : List TrieEntry)
      → Among e (append_each (global_row zone_infra) b.infra_prefixes entries)
      → Made entries
  unfolding new_trie_builder
  infra_rows t tenant entries h =
      elim (Among-append_each (global_row zone_infra) e b.infra_prefixes entries h) [
        | inl before ↦ inl before
        | inr (p, there, inl same) ↦ elim (Among-infra ip snap.subnets snap.ports p there) [
          | inl (q, port, rest) ↦
              let (test, found) = rest in
              let (f, address, parsed) = found in
              inr (
                infra_port t q f p tenant port (infra_of (is_infra_port q.device_owner) test)
                  address parsed same)
          | inr (s, subnet, rest) ↦
              let (test, parsed) = rest in
              inr (
                gateway t s p tenant subnet (is_four s.ip_version (str_eq s.gateway_ip "") test)
                  parsed same)
        ]
        | inr (p, there, inr none_left) ↦ absurd none_left
      ]

  -- The rows of one subnet of a tenant's network.
  owned_subnet :
      (t : String) (n : Network) (s : Subnet)
      → IsTenant snap t
      → Among n snap.networks
      → (n.project_id ≡ t) × (n.shared ≡ false) × (n.is_external ≡ false)
      → IsSubnetOf snap n.id s
      → (parsed : Option Prefix) → parse_prefix_v4 ip s.cidr ≡ parsed
      → Among e (elim parsed [ none ↦ [] | some p ↦ row t p zone_same_tenant ∷ [] ])
      → IsRow ip snap max_hops e
  owned_subnet t n s tenant network tests subnet none parsed h = absurd h
  owned_subnet t n s tenant network tests subnet (some p) parsed (inl same) =
      owned n s p network (λ empty. tenant.named (sym tests.0 ∙ empty)) tests.1 tests.2 subnet
        parsed (same ∙ ap (λ x. row x p zone_same_tenant) (sym tests.0))
  owned_subnet t n s tenant network tests subnet (some p) parsed (inr none_left) = absurd none_left

  owned_network :
      (t : String)
      → IsTenant snap t
      → (n : Network) → Among n snap.networks
      → Among e (owned_rows ip b t n)
      → IsRow ip snap max_hops e
  unfolding new_trie_builder
  owned_network t tenant n network =
      elim (Bool-cases (not (str_eq n.project_id t) || n.shared || n.is_external)) [
        | inl skip ↦ rw skip (λ h. absurd h)
        | inr tests ↦ rw tests (λ h.
            elim (Among-append_each (owned_row ip t) e (at by_network n.id) [] h) [
              | inl none_there ↦ absurd none_there
              | inr (s, subnet, here) ↦
                  owned_subnet t n s tenant network (owned_of n t tests)
                    (Among-group_subnets snap n.id s subnet) (parse_prefix_v4 ip s.cidr) refl here
            ])
      ]

  infra-Made : (entries : List TrieEntry) → Among e (emit_infra_prefixes b entries) → Made entries
  unfolding emit_infra_prefixes new_trie_builder
  infra-Made entries =
      let rows = append_each (global_row zone_infra) b.infra_prefixes entries in
      if_tenants entries (rows ++ global_row zone_infra metadata_prefix) (λ t tenant h.
        elim (Among-append e rows (global_row zone_infra metadata_prefix) h) [
          | inl before ↦ infra_rows t tenant entries before
          | inr (inl same) ↦ inr (metadata t tenant same)
          | inr (inr none_left) ↦ absurd none_left
        ])

  owned-Made : (entries : List TrieEntry) → Among e (emit_owned_subnets ip b entries) → Made entries
  unfolding emit_owned_subnets new_trie_builder
  owned-Made entries h =
      elim (Among-append_each (λ tenant. append_each (owned_rows ip b tenant) b.networks []) e
        b.tenants entries h) [
          | inl before ↦ inl before
          | inr (t, there, mine) ↦
              elim (Among-append_each (owned_rows ip b t) e b.networks [] mine) [
                | inl none_there ↦ absurd none_there
                | inr (n, network, rows) ↦
                    inr (owned_network t (Among-collect_tenants snap t there) n network rows)
              ]
        ]

-- Every row of the trie has its reason in the snapshot: it is the catch-all or the metadata service's, of a
-- subnet that the tenant owns, of a shared one, an address of the infrastructure, or a static route.
pub build_trie-IsRow :
    (ip : Netip) (snap : Snapshot) (max_hops : ℕ) (e : TrieEntry)
    → Among e (build_trie ip snap max_hops).entries
    → IsRow ip snap max_hops e
unfolding build_trie emit_extra_routes
build_trie-IsRow ip snap max_hops e h =
    let b = new_trie_builder ip snap max_hops in
    let first = emit_catchall b [] in
    let second = emit_owned_subnets ip b first in
    let third = emit_shared_subnets b second in
    let fourth = emit_infra_prefixes b third in
    let resolved = resolved_routes ip b in
    elim (Among-append_each route_row e resolved fourth
      (Among-sort (entry_lt ip) e (append_each route_row resolved fourth) h)) [
        | inl in_fourth ↦ elim (infra-Made ip snap max_hops e third in_fourth) [
          | inl in_third ↦ elim (shared-Made ip snap max_hops e second in_third) [
            | inl in_second ↦ elim (owned-Made ip snap max_hops e first in_second) [
              | inl in_first ↦ elim (catchall-Made ip snap max_hops e [] in_first) [
                | inl none_there ↦ absurd none_there
                | inr row ↦ row
              ]
              | inr row ↦ row
            ]
            | inr row ↦ row
          ]
          | inr row ↦ row
        ]
        | inr (x, there, here) ↦ resolved-IsRow ip snap max_hops e x there here
      ]
