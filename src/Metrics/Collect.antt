-- ===== src/Metrics/Collect.antt =====
-- One pass of the Collector (internal/metrics/collector.go) emits the series of State.Exposure.
use lachesis.Base.{◌+◌, ◌%◌, ◌≡◌, refl, ap, ◌∙◌, [], arith}
use lachesis.Base.Word.{u64_mod}
use lachesis.Base.GoMap.{get}
use lachesis.Base.GoMap.Sum.{sum}
use lachesis.Bpf.{FlowKey}
use lachesis.State.{
  GlobalState, TenantSettledKey, ServerSettledKey, TotalSettledKey, TenantSettledKey-discrete,
  ServerSettledKey-discrete, TotalSettledKey-discrete,
}
use lachesis.State.Exposure.{
  Meter, read_settled, row_share, exposed, tenant_exposed, server_exposed,
}
use lachesis.State.Snapshot.{entries, buckets, snapshot_with_settled}
use lachesis.State.Prune.Total.{total_exposed, bucket_share}
use lachesis.State.Rows.{IsStore}
use lachesis.Metadata.{Attribution}
use lachesis.Metrics.{cleared, fold_settled, aggregate_live_rows, derive_totals, aggregate, collect}
use lachesis.Metrics.Sums.{
  settled_share, fold_settled-Shows, settled_share-sum, fold_settled-parts, derive_totals-Shows,
  tenant_series, server_series, total_series, rows-tenant, rows-server, rows-parts, rows-total_kept,
}

module _ (resolve : FlowKey → Attribution) (g : GlobalState) (h : IsStore g) (meter : Meter) where
  collect-tenant :
      (q : TenantSettledKey)
      → read_settled meter (get TenantSettledKey-discrete (collect resolve g).tenant q)
        ≡ tenant_exposed meter (tenant_series resolve) g q
  unfolding collect aggregate snapshot_with_settled exposed get
  collect-tenant q =
      rows-tenant resolve meter q g.counts
        (record cleared {
          tenant = fold_settled TenantSettledKey-discrete (buckets g.tenant_settled) [];
        })
        (0 + sum (settled_share TenantSettledKey-discrete meter q) g.tenant_settled)
        (fold_settled-Shows TenantSettledKey-discrete meter q g.tenant_settled [] 0 refl)
      ∙ ap (λ x. x % u64_mod)
          (omega
            (arith, settled_share-sum TenantSettledKey-discrete meter q g.tenant_settled h.tenant))

  collect-server :
      (q : ServerSettledKey)
      → read_settled meter (get ServerSettledKey-discrete (collect resolve g).server q)
        ≡ server_exposed meter (server_series resolve) g q
  unfolding collect aggregate snapshot_with_settled exposed get
  collect-server q =
      let live = aggregate_live_rows resolve (entries g.counts) (record cleared {
        tenant = fold_settled TenantSettledKey-discrete (buckets g.tenant_settled) [];
      }) in
      fold_settled-Shows ServerSettledKey-discrete meter q g.server_settled live.server
        (0 + sum (row_share ServerSettledKey-discrete meter (server_series resolve) q) g.counts)
        (rows-server resolve meter q g.counts _ 0 refl)
      ∙ ap (λ x. x % u64_mod)
          (omega
            (arith, settled_share-sum ServerSettledKey-discrete meter q g.server_settled h.server))

  collect-total :
      (q : TotalSettledKey)
      → read_settled meter (get TotalSettledKey-discrete (collect resolve g).total q)
        ≡ total_exposed meter (total_series resolve) g q
  unfolding collect aggregate snapshot_with_settled total_exposed get sum
  collect-total q =
      let settled = record cleared {
        tenant = fold_settled TenantSettledKey-discrete (buckets g.tenant_settled) [];
      } in
      let live = aggregate_live_rows resolve (entries g.counts) settled in
      let parts = sum (bucket_share meter q) live.tenant in
      fold_settled-Shows TotalSettledKey-discrete meter q g.total_settled
        (derive_totals live.tenant live.total) (0 + parts)
        (derive_totals-Shows meter q live.tenant live.total 0 (
          ap (λ m. read_settled meter (get TotalSettledKey-discrete m q))
            (rows-total_kept resolve g.counts settled)))
      ∙ omega (
        arith,
        settled_share-sum TotalSettledKey-discrete meter q g.total_settled h.total,
        rows-parts resolve meter q g.counts settled,
        fold_settled-parts meter q g.tenant_settled [],
      )

  -- What the Collector emits of a store whose maps hold no key twice, for bytes and for packets and
  -- whatever attribution it resolves flows with: each tenant series and each server series is its live
  -- rows and its settled bucket, and each total series is its live rows, the tenants' buckets that
  -- agree with it and its absorber, all modulo 2^64. A tuple that is not emitted counts as zero.
  pub collect-exposed :
      ((q : TenantSettledKey)
        → read_settled meter (get TenantSettledKey-discrete (collect resolve g).tenant q)
          ≡ tenant_exposed meter (tenant_series resolve) g q)
      × ((q : ServerSettledKey)
          → read_settled meter (get ServerSettledKey-discrete (collect resolve g).server q)
            ≡ server_exposed meter (server_series resolve) g q)
      × ((q : TotalSettledKey)
          → read_settled meter (get TotalSettledKey-discrete (collect resolve g).total q)
            ≡ total_exposed meter (total_series resolve) g q)
  collect-exposed = (collect-tenant, collect-server, collect-total)
