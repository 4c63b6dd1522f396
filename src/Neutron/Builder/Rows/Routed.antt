-- ===== src/Neutron/Builder/Rows/Routed.antt =====
-- internal/neutron/trie.go: a row of a static route has its reason in the snapshot.
use text.Mathlib.Text.{◌==◌ as str_eq}
use text.Mathlib.TextEquality.{eq_iff}
use lachesis.Base.{ℕ, ◌≡◌, refl, sym, ap, ◌∙◌, String, Option, none, some, [], Bool-cases, inl, inr}
use lachesis.Base.Among.{Among, append_each, Among-append_each}
use lachesis.Trie.{Prefix, TrieEntry}
use lachesis.Neutron.{Addr, v4, v6, Netip, Route, Router, Snapshot}
use lachesis.Neutron.Routes.{resolve_static_route_zone}
use lachesis.Neutron.Topology.{new_resolve_index}
use lachesis.Neutron.Builder.{
  TrieBuilder, Resolved, parse_prefix_v4, new_trie_builder, asked, resolve_route, resolve_router,
  resolved_routes, route_row,
}
use lachesis.Neutron.Builder.Tenants.{IsTenant, Among-collect_tenants}
use lachesis.Neutron.Builder.Rows.{row, IsRow, routed}

module _ (ip : Netip) (snap : Snapshot) (max_hops : ℕ) (e : TrieEntry) where
  abbrev b : TrieBuilder
  b = new_trie_builder ip snap max_hops

  routed_route :
      (t : String) (r : Router) (route : Route) (x : Resolved)
      → IsTenant snap t
      → Among r snap.routers
      → r.project_id ≡ t
      → Among route r.routes
      → (d : Option Prefix) → parse_prefix_v4 ip route.destination ≡ d
      → (a : Option Addr) → ip.parse_addr route.nexthop ≡ a
      → Among x (asked ip b.ri t r d a)
      → Among e (route_row x)
      → IsRow ip snap max_hops e
  unfolding new_trie_builder
  routed_route t r route x tenant router own here none pd a pa h same = absurd h
  routed_route t r route x tenant router own here (some d) pd none pa h same = absurd h
  routed_route t r route x tenant router own here (some d) pd (some (v6 nh)) pa h same = absurd h
  routed_route t r route x tenant router own here (some d) pd (some (v4 nh)) pa (inl ask)
        (inl same) =
      routed r route d nh router (λ empty. tenant.named (sym own ∙ empty)) here pd pa
        (same
          ∙ ap (λ (y : Resolved). row y.tenant y.destination y.outcome.zone) ask
          ∙ ap
              (λ u.
                row u d
                  (resolve_static_route_zone ip (new_resolve_index snap max_hops) r d nh).zone)
              (sym own))
  routed_route t r route x tenant router own here (some d) pd (some (v4 nh)) pa (inl ask) (inr h) =
      absurd h
  routed_route t r route x tenant router own here (some d) pd (some (v4 nh)) pa (inr h) same =
      absurd h

  routed_router :
      (t : String)
      → IsTenant snap t
      → (r : Router) → Among r snap.routers
      → (x : Resolved) → Among x (resolve_router ip b.ri t r)
      → Among e (route_row x)
      → IsRow ip snap max_hops e
  unfolding new_trie_builder
  routed_router t tenant r router x = elim (Bool-cases (str_eq r.project_id t)) [
    | inl own ↦ rw own (λ h same.
        elim (Among-append_each (resolve_route ip b.ri t r) x r.routes [] h) [
          | inl none_there ↦ absurd none_there
          | inr (route, here, ask) ↦
              routed_route t r route x tenant router ((eq_iff r.project_id t).0 own) here
                (parse_prefix_v4 ip route.destination) refl (ip.parse_addr route.nexthop) refl ask
                same
        ])
    | inr other ↦ rw other (λ h same. absurd h)
  ]

  pub resolved-IsRow :
      (x : Resolved)
      → Among x (resolved_routes ip b)
      → Among e (route_row x)
      → IsRow ip snap max_hops e
  unfolding resolved_routes new_trie_builder
  resolved-IsRow x h here =
      elim (Among-append_each (λ tenant. append_each (resolve_router ip b.ri tenant) b.routers []) x
        b.tenants [] h) [
          | inl none_there ↦ absurd none_there
          | inr (t, there, mine) ↦
              elim (Among-append_each (resolve_router ip b.ri t) x b.routers [] mine) [
                | inl none_there ↦ absurd none_there
                | inr (r, router, rows) ↦
                    routed_router t (Among-collect_tenants snap t there) r router x rows here
              ]
        ]
