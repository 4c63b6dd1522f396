-- ===== src/Reconcile/Routers/Billing.antt =====
-- internal/reconcile/routers.go: the replacement of the router map moves no series.
use native.Mathlib.Decide.{ℕ_discrete}
use lachesis.Base.{
  ℕ, ◌≡◌, ◌≢◌, refl, sym, ap, ◌∙◌, String, true, none, some, [], ◌∷◌, ◌==◌, Bool-cases,
  Option-cases, ◌⊎◌, inl, inr,
}
use lachesis.Base.GoMap.{GoMap, get}
use lachesis.Bpf.{FlowKey, FlowKey-discrete, zone_external}
use lachesis.State.{GlobalState, Counter, settle, settle_rebase}
use lachesis.State.Exposure.{Meter}
use lachesis.State.Rows.{IsStore, get-settle, settle-IsStore}
use lachesis.Metadata.{
  TenantMeta, ShardedMetadataMap, RouterMacs, lookup, vm_mac, peer_mac, resolve, settle_resolver,
  flow_external_label, router_lookup,
}
use lachesis.Series.{
  SameShown, SameShown-trans, SameShown-relabel, owners, settle-SameSeries, IsSpent,
}
use lachesis.Reconcile.Learning.{settled_row-IsSpent}
use lachesis.Reconcile.Routers.{
  Changed, pick_changed, fold_routers, reconcile_router_macs, changed_macs,
}
use lachesis.Reconcile.Routers.Changes.{changed_macs-same}

-- A label changes only with that of the peer, in the external zone.
flow_external_label-same :
    (old desired : GoMap ℕ String) (ext : String) (k : FlowKey)
    → (k.dst_zone == zone_external ≡ true
        → get ℕ_discrete desired (peer_mac k) ≡ get ℕ_discrete old (peer_mac k))
    → flow_external_label (some desired) ext k ≡ flow_external_label (some old) ext k
unfolding flow_external_label router_lookup
flow_external_label-same old desired ext k same = elim (Bool-cases (k.dst_zone == zone_external)) [
  | inl external ↦ rw (external, same external) refl
  | inr internal ↦ rw internal refl
]

owners-same :
    (m : ShardedMetadataMap) (old desired : GoMap ℕ String) (k : FlowKey)
    → (k.dst_zone == zone_external ≡ true
        → get ℕ_discrete desired (peer_mac k) ≡ get ℕ_discrete old (peer_mac k))
    → owners m (some desired) k ≡ owners m (some old) k
unfolding resolve
owners-same m old desired k same = elim (Option-cases (lookup m (vm_mac k))) [
  | inl miss ↦ rw miss refl
  | inr (meta, hit) ↦ rw hit (
      ap (λ l. record { tenant = meta.project_id; ext_net = l; server = meta.server_id })
        (flow_external_label-same old desired meta.external_network k same))
]

-- A flow of the external zone that is known and rides a changed MAC resolves.
picked_ne_none :
    (changed : Changed) (m : ShardedMetadataMap) (routers : RouterMacs) (k : FlowKey)
    → k.dst_zone == zone_external ≡ true
    → get ℕ_discrete changed (peer_mac k) ≢ none
    → lookup m (vm_mac k) ≢ none
    → settle_resolver routers (pick_changed changed m) k ≢ none
unfolding settle_resolver
picked_ne_none changed m routers k external noted known =
    elim (Option-cases (lookup m (vm_mac k))) [
      | inl miss ↦ absurd (known miss)
      | inr (meta, hit) ↦ elim (Option-cases (get ℕ_discrete changed (peer_mac k))) [
        | inl quiet ↦ absurd (noted quiet)
        | inr (mark, there) ↦ rw (external, there, hit) (λ absent. cc)
      ]
    ]

owners-unknown :
    (m : ShardedMetadataMap) (old desired : RouterMacs) (k : FlowKey)
    → lookup m (vm_mac k) ≡ none
    → owners m desired k ≡ owners m old k
unfolding resolve
owners-unknown m old desired k miss = rw miss refl

-- The fold picks only what is known.
pick_changed-known :
    (changed : Changed) (m : ShardedMetadataMap) (k : FlowKey) (meta : TenantMeta)
    → pick_changed changed m k ≡ some meta
    → lookup m (vm_mac k) ≡ some meta
pick_changed-known changed m k meta e = elim (Bool-cases (k.dst_zone == zone_external)) [
  | inr internal ↦ cc (rw internal at e)
  | inl external ↦ elim (Option-cases (get ℕ_discrete changed (peer_mac k))) [
    | inl quiet ↦ cc (rw (external, quiet) at e)
    | inr (mark, there) ↦ (rw (external, there) at e)
  ]
]

module _ (m : ShardedMetadataMap) (g : GlobalState) (store : IsStore g)
    (old desired : GoMap ℕ String) where
  -- After the fold a row is shown as before, or it is spent.
  folded_row :
      (changed : Changed) (k : FlowKey) (c : Counter)
      → changed_macs desired old ≡ changed
      → let resolver = settle_resolver (some old) (pick_changed changed m) in
        get FlowKey-discrete (settle settle_rebase resolver g).0.counts k ≡ some c
        → (owners m (some desired) k ≡ owners m (some old) k) ⊎ IsSpent c
  folded_row changed k c e row =
      let resolver = settle_resolver (some old) (pick_changed changed m) in
      elim (Option-cases (get ℕ_discrete changed (peer_mac k))) [
        | inl quiet ↦ inl (
            owners-same m old desired k (λ zone.
              changed_macs-same desired old (peer_mac k)
                (ap (λ x. get ℕ_discrete x (peer_mac k)) e ∙ quiet)))
        | inr (mark, there) ↦ elim (Bool-cases (k.dst_zone == zone_external)) [
          | inr internal ↦ inl (owners-same m old desired k (λ zone. cc (zone, internal)))
          | inl external ↦ elim (Option-cases (lookup m (vm_mac k))) [
            | inl miss ↦ inl (owners-unknown m (some old) (some desired) k miss)
            | inr (meta, hit) ↦ inr (
                settled_row-IsSpent (resolver k) (get FlowKey-discrete g.counts k) c
                  (picked_ne_none changed m (some old) k external (λ absent. cc) (λ absent. cc))
                  (sym (get-settle settle_rebase resolver k g store.counts) ∙ row))
          ]
        ]
      ]

  fold_routers-SameShown :
      (meter : Meter) (changed : Changed)
      → changed_macs desired old ≡ changed
      → let after = fold_routers changed desired old m g in
        SameShown meter (owners m (some old)) g (owners m after.0) after.1
  unfolding fold_routers
  fold_routers-SameShown meter [] e = (λ q. refl, λ q. refl, λ q. refl)
  fold_routers-SameShown meter (row ∷ changed) e =
      let pick = pick_changed (row ∷ changed) m in
      let resolver = settle_resolver (some old) pick in
      let g' = (settle settle_rebase resolver g).0 in
      SameShown-trans meter (owners m (some old)) (owners m (some old)) (owners m (some desired)) g
        g' g'
        (settle-SameSeries meter (some old) m g settle_rebase pick store
          (pick_changed-known (row ∷ changed) m))
        (SameShown-relabel meter (owners m (some old)) (owners m (some desired)) g'
          (settle-IsStore settle_rebase resolver g store).counts
          (λ k c there. folded_row (row ∷ changed) k c e there))

-- Replacing the router map moves no tenant, server or total series, for bytes or for packets: the flows that
-- would get another external network are folded under the one that they had. No map of the store holds a
-- key twice before.
pub reconcile_router_macs-SameShown :
    (desired : GoMap ℕ String) (m : ShardedMetadataMap) (routers : RouterMacs) (g : GlobalState)
    → IsStore g
    → (meter : Meter)
    → let after = (reconcile_router_macs desired m routers g).0 in
      SameShown meter (owners m routers) g (owners m after.0) after.1
unfolding reconcile_router_macs
reconcile_router_macs-SameShown desired m none g store meter = (λ q. refl, λ q. refl, λ q. refl)
reconcile_router_macs-SameShown desired m (some old) g store meter =
    fold_routers-SameShown m g store old desired meter (changed_macs desired old) refl

-- The store stays without a key that stands twice.
pub reconcile_router_macs-IsStore :
    (desired : GoMap ℕ String) (m : ShardedMetadataMap) (routers : RouterMacs) (g : GlobalState)
    → IsStore g
    → IsStore (reconcile_router_macs desired m routers g).0.1
unfolding reconcile_router_macs
reconcile_router_macs-IsStore desired m none g store = store
reconcile_router_macs-IsStore desired m (some old) g store = by_changed (changed_macs desired old)
  where
    by_changed : (changed : Changed) → IsStore (fold_routers changed desired old m g).1
    by_changed [] = unfold fold_routers in store
    by_changed (row ∷ changed) =
        unfold fold_routers in
        settle-IsStore settle_rebase (settle_resolver (some old) (pick_changed (row ∷ changed) m)) g
          store
