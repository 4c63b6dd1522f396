-- ===== src/Gc/Ghost/Collect.antt =====
-- What the Collector (internal/metrics/collector.go) emits before and after a sweep of the ghosts
-- (internal/gc/ghost.go).
use lachesis.Base.{ℕ, ◌≡◌, refl, sym, ap, ◌∙◌, some, [], ◌∷◌}
use lachesis.Base.GoMap.{get}
use lachesis.State.{
  GlobalState, TenantSettledKey, ServerSettledKey, TotalSettledKey, TenantSettledKey-discrete,
  ServerSettledKey-discrete, TotalSettledKey-discrete, settle_evict, tenant_key,
}
use lachesis.State.Exposure.{Meter, read_settled}
use lachesis.State.Rows.{IsStore, settle-IsStore}
use lachesis.State.Prune.{total_key}
use lachesis.State.Prune.Total.{total_exposed}
use lachesis.State.Total.{settle-total_exposed, total_exposed-relabel}
use lachesis.Metadata.{ShardedMetadataMap, RouterMacs, resolve, settle_resolver, range}
use lachesis.Metadata.Sharded.{IsSharded}
use lachesis.Metadata.Labels.{total_label, owner_of-settle_resolver}
use lachesis.Metrics.{collect}
use lachesis.Metrics.Collect.{collect-exposed}
use lachesis.Gc.Ghost.{
  MacSet, MacEvictor, MacFlowEvictor, World, classify, delete_kernel_macs, settle_swept,
  delete_userspace, sweep,
}
use lachesis.Gc.Ghost.Exposed.{pick, pick-known, settled, after, relabelled, sweep-exposed}

module _ (routers : RouterMacs) (m : ShardedMetadataMap) (g : GlobalState) (sharded : IsSharded m)
    (store : IsStore g) where
  settle_swept-IsStore : (swept : MacSet) → IsStore (settle_swept routers m swept g).0
  unfolding settle_swept
  settle_swept-IsStore [] = store
  settle_swept-IsStore (row ∷ swept) = settle-IsStore settle_evict _ g store

  swept_total_exposed :
      (swept : MacSet) (meter : Meter) (q : TotalSettledKey)
      → total_exposed meter
          (total_label (delete_userspace swept m) routers)
          (settle_swept routers m swept g).0
          q
        ≡ total_exposed meter (total_label m routers) g q
  unfolding settle_swept settled after pick
  swept_total_exposed [] meter q = unfold delete_userspace in refl
  swept_total_exposed (row ∷ swept) meter q =
      let picked = pick routers m (row ∷ swept) g sharded store in
      total_exposed-relabel meter q (total_label m routers)
        (total_label (delete_userspace (row ∷ swept) m) routers)
        (settled routers m (row ∷ swept) g sharded store)
        (settle-IsStore settle_evict (settle_resolver routers picked) g store).counts
        (λ k c there.
          ap (λ o. some (total_key (tenant_key o k)))
            (relabelled routers m (row ∷ swept) g sharded store k c there))
      ∙ settle-total_exposed meter q settle_evict (settle_resolver routers picked) g store.counts
          (total_label m routers)
          (λ k o e.
            ap (λ x. some (total_key (tenant_key x k)))
              (owner_of-settle_resolver m routers picked
                (pick-known routers m (row ∷ swept) g sharded store) k o e))

-- What one pass of the Collector emits, resolved against the metadata of the world.
abbrev pub value_tenant :
    {E : MacEvictor} {F : MacFlowEvictor} → Meter → RouterMacs → World E F → TenantSettledKey → ℕ
value_tenant meter routers w q =
    read_settled meter
      (get TenantSettledKey-discrete (collect (resolve w.meta routers) w.state).tenant q)

abbrev pub value_server :
    {E : MacEvictor} {F : MacFlowEvictor} → Meter → RouterMacs → World E F → ServerSettledKey → ℕ
value_server meter routers w q =
    read_settled meter
      (get ServerSettledKey-discrete (collect (resolve w.meta routers) w.state).server q)

abbrev pub value_total :
    {E : MacEvictor} {F : MacFlowEvictor} → Meter → RouterMacs → World E F → TotalSettledKey → ℕ
value_total meter routers w q =
    read_settled meter
      (get TotalSettledKey-discrete (collect (resolve w.meta routers) w.state).total q)

-- A sweep of the ghosts moves no billing series: if the metadata map is well sharded and no map of the
-- store holds a key twice, then, whatever the kernel's maps answer, the Collector emits after the sweep
-- the value that it would have emitted before, in each tenant, server and total series, for bytes and
-- for packets. A tuple that is not emitted counts as zero.
pub sweep-collect :
    (E : MacEvictor) (F : MacFlowEvictor) (routers : RouterMacs) (now : ℕ) (w : World E F)
    → IsSharded w.meta
    → IsStore w.state
    → (meter : Meter)
    → ((q : TenantSettledKey)
        → value_tenant meter routers (sweep E F routers now w).0 q ≡ value_tenant meter routers w q)
      × ((q : ServerSettledKey)
          → value_server meter routers (sweep E F routers now w).0 q
            ≡ value_server meter routers w q)
      × ((q : TotalSettledKey)
          → value_total meter routers (sweep E F routers now w).0 q ≡ value_total meter routers w q)
      × IsStore (sweep E F routers now w).0.state
unfolding sweep
sweep-collect E F routers now w sharded store meter =
    let swept = (delete_kernel_macs E (classify now (range w.meta)).0 ([], w.kernel)).0 in
    let store' = settle_swept-IsStore routers w.meta w.state sharded store swept in
    let left = delete_userspace swept w.meta in
    let state = (settle_swept routers w.meta swept w.state).0 in
    let before = collect-exposed (resolve w.meta routers) w.state store meter in
    let emitted = collect-exposed (resolve left routers) state store' meter in
    let kept = sweep-exposed E F routers now w sharded store meter in
    let kept_total = swept_total_exposed routers w.meta w.state sharded store swept meter in
    (
      λ q. emitted.0 q ∙ unfold sweep in kept.0 q ∙ sym (before.0 q),
      λ q. emitted.1 q ∙ unfold sweep in kept.1 q ∙ sym (before.1 q),
      λ q. emitted.2 q ∙ kept_total q ∙ sym (before.2 q),
      store',
    )

-- A sweep moves no total series, and leaves no key of the store twice.
pub sweep-total_exposed :
    (E : MacEvictor) (F : MacFlowEvictor) (routers : RouterMacs) (now : ℕ) (w : World E F)
    → IsSharded w.meta
    → IsStore w.state
    → ((meter : Meter) (q : TotalSettledKey)
        → total_exposed meter
            (total_label (sweep E F routers now w).0.meta routers)
            (sweep E F routers now w).0.state
            q
          ≡ total_exposed meter (total_label w.meta routers) w.state q)
      × IsStore (sweep E F routers now w).0.state
unfolding sweep
sweep-total_exposed E F routers now w sharded store =
    let swept = (delete_kernel_macs E (classify now (range w.meta)).0 ([], w.kernel)).0 in
    (
      swept_total_exposed routers w.meta w.state sharded store swept,
      settle_swept-IsStore routers w.meta w.state sharded store swept,
    )
