-- ===== src/Reconcile/Once/Total.antt =====
-- internal/reconcile/reconcile.go: a pass moves no total series.
use lachesis.Base.{
  ℕ, ◌≡◌, refl, ◌∙◌, String, Option, none, some, List, [], ◌∷◌, Bool-cases, inl, inr,
}
use lachesis.Base.Among.{for_each}
use lachesis.Bpf.{FlowKey}
use lachesis.State.{GlobalState, Owner, TotalSettledKey, tenant_key}
use lachesis.State.Exposure.{Meter}
use lachesis.State.Rows.{IsStore}
use lachesis.State.Prune.{Alive, total_key, prune_server_settled}
use lachesis.State.Prune.Total.{total_exposed, total_exposed-prune_tenant_settled}
use lachesis.State.Prune.Stores.{
  SameButServers, prune_server_settled-SameButServers, prune_server_settled-IsStore,
  prune_tenant_settled-IsStore,
}
use lachesis.Series.{owners}
use lachesis.Reconcile.{reconcile_macs}
use lachesis.Reconcile.Billing.{RowsKnown, reconcile_macs-SameSeries, reconcile_macs-IsStore}
use lachesis.Reconcile.Desired.{desired_macs}
use lachesis.Reconcile.Routers.{reconcile_router_macs}
use lachesis.Reconcile.Routers.Billing.{
  reconcile_router_macs-SameShown, reconcile_router_macs-IsStore,
}
use lachesis.Neutron.External.{router_ext_macs}
use lachesis.Trie.{apply_trie_delta}
use lachesis.Reconcile.Once.{
  SyncResult, Env, Reconciler, add_alive, prune_servers_of, prune_tenants_of, apply_rest,
  apply_result, reconcile_once,
}

-- What a total series shows, with the owners `own`.
abbrev pub shown_total : Meter → (FlowKey → Owner) → GlobalState → TotalSettledKey → ℕ
shown_total meter own g q = total_exposed meter (λ k. some (total_key (tenant_key (own k) k))) g q

-- The total tier shows the same, and the store's maps hold no key twice.
abbrev pub SameTotal : (FlowKey → Owner) → GlobalState → (FlowKey → Owner) → GlobalState → Type 0
SameTotal own g own' g' =
    ((meter : Meter) (q : TotalSettledKey)
      → shown_total meter own' g' q ≡ shown_total meter own g q)
    × IsStore g'

module _ (own : FlowKey → Owner) where
  SameButServers-total :
      (meter : Meter) (q : TotalSettledKey) (g g' : GlobalState)
      → SameButServers g g'
      → shown_total meter own g' q ≡ shown_total meter own g q
  unfolding total_exposed
  SameButServers-total meter q g g' h = cc (h.counts, h.tenant, h.total)

  prune_servers-SameTotal :
      (ids : List String) (g : GlobalState)
      → IsStore g
      → SameTotal own g own (prune_servers_of ids g)
  unfolding prune_servers_of
  prune_servers-SameTotal [] g store = (λ meter q. refl, store)
  prune_servers-SameTotal (id ∷ ids) g store =
      let alive : Alive = for_each add_alive (id ∷ ids) [] in
      (
        λ meter q.
            SameButServers-total meter q g (prune_server_settled alive g).0
              (prune_server_settled-SameButServers alive g),
        prune_server_settled-IsStore alive g store,
      )

  prune_tenants-SameTotal :
      (ids : List String) (g : GlobalState)
      → IsStore g
      → SameTotal own g own (prune_tenants_of ids g)
  unfolding prune_tenants_of
  prune_tenants-SameTotal [] g store = (λ meter q. refl, store)
  prune_tenants-SameTotal (id ∷ ids) g store = (
    λ meter q.
        (total_exposed-prune_tenant_settled _ g store.tenant
          (λ k. some (total_key (tenant_key (own k) k))) meter q).0,
    prune_tenant_settled-IsStore _ g store,
  )

-- Who the flows of a reconciler's store are shown under.
abbrev pub shown_by : {E : Env} → Reconciler E → FlowKey → Owner
shown_by s = owners s.world.meta s.routers

pub SameTotal-trans :
    (own own' own'' : FlowKey → Owner) (g g' g'' : GlobalState)
    → SameTotal own g own' g'
    → SameTotal own' g' own'' g''
    → SameTotal own g own'' g''
SameTotal-trans own own' own'' g g' g'' a b = (λ meter q. b.0 meter q ∙ a.0 meter q, b.1)

module _ (E : Env) (now grace : ℕ) (r : SyncResult) where
  -- The rows of the MACs that the snapshot wants are known.
  abbrev pub Ready : Reconciler E → Type 0
  Ready s = RowsKnown (desired_macs E.ip E.equal_fold r.snapshot) s.world.meta s.world.state

  apply_rest-SameTotal :
      (s : Reconciler E)
      → IsStore s.world.state
      → Ready s
      → let s' = apply_rest E now grace r s in
        SameTotal (shown_by s) s.world.state (shown_by s') s'.world.state
  unfolding apply_rest
  apply_rest-SameTotal s store ready =
      let desired = desired_macs E.ip E.equal_fold r.snapshot in
      let w = (reconcile_macs E.macs s.routers now grace desired s.world).0 in
      let macs : SameTotal (shown_by s) s.world.state (owners w.meta s.routers) w.state = (
        λ meter q.
            (reconcile_macs-SameSeries E.macs s.routers now grace desired s.world store ready
                meter).2
              q,
        reconcile_macs-IsStore E.macs s.routers now grace desired s.world store,
      ) in
      let labels = router_ext_macs E.ip r.snapshot in
      let (routers, settled) = (reconcile_router_macs labels w.meta s.routers w.state).0 in
      let routed : SameTotal (owners w.meta s.routers) w.state (owners w.meta routers) settled = (
        λ meter q.
            (reconcile_router_macs-SameShown labels w.meta s.routers w.state macs.1 meter).2 q,
        reconcile_router_macs-IsStore labels w.meta s.routers w.state macs.1,
      ) in
      let own = owners w.meta routers in
      let served = prune_servers-SameTotal own r.servers settled routed.1 in
      let freed =
        prune_tenants-SameTotal own r.projects (prune_servers_of r.servers settled) served.1 in
      SameTotal-trans (shown_by s) (owners w.meta s.routers) own s.world.state w.state _ macs (
        SameTotal-trans (owners w.meta s.routers) own own w.state settled _ routed
          (SameTotal-trans own own own settled (prune_servers_of r.servers settled) _ served freed))

  apply_result-SameTotal :
      (s : Reconciler E)
      → IsStore s.world.state
      → Ready s
      → let s' = (apply_result E now grace r s).1 in
        SameTotal (shown_by s) s.world.state (shown_by s') s'.world.state
  unfolding apply_result
  apply_result-SameTotal s store ready =
      let (pass, interner) =
        apply_trie_delta E.trie E.native_endian s.committed r.entries s.world.interner s.trie in
      elim (Bool-cases pass.failed) [
        | inl failed ↦ rw failed ((λ meter q. refl), store)
        | inr done ↦ rw done (
            apply_rest-SameTotal
              (record s { trie = pass.kernel; world = record (s.world) { interner = interner } })
              store ready)
      ]

-- A pass of the reconciler, whatever its outcome, moves no total series, for bytes or for packets, and leaves
-- no key of the store twice, if none is before, and the row of every MAC that the snapshot wants is of a
-- MAC that is known.
pub reconcile_once-SameTotal :
    (E : Env) (now grace : ℕ) (result : Option SyncResult) (s : Reconciler E)
    → IsStore s.world.state
    → ((r : SyncResult) → result ≡ some r → Ready E now grace r s)
    → let s' = (reconcile_once E now grace result s).1 in
      SameTotal (shown_by s) s.world.state (shown_by s') s'.world.state
unfolding reconcile_once
reconcile_once-SameTotal E now grace none s store ready = ((λ meter q. refl), store)
reconcile_once-SameTotal E now grace (some r) s store ready =
    apply_result-SameTotal E now grace r s store (ready r refl)
