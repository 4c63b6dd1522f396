-- ===== src/Tests/Series.antt =====
-- The theorems on the Collector and on the log's snapshot, at the two rows.
use lachesis.Base.{◌≡◌}
use lachesis.Base.GoMap.{get}
use lachesis.State
use lachesis.State.{
  TenantSettledKey, ServerSettledKey, TotalSettledKey, TenantSettledKey-discrete,
  ServerSettledKey-discrete, TotalSettledKey-discrete, settle, settle_rebase, tenant_key,
}
use lachesis.State.Exposure.{bytes, read_settled, tenant_exposed, server_exposed}
use lachesis.State.Rows.{IsStore}
use lachesis.State.Snapshot.{restore_all, snapshot_for_wal, restore_all-snapshot_for_wal}
use lachesis.State.Prune.Total.{total_exposed}
use lachesis.Metadata.{resolve}
use lachesis.Metrics.{collect}
use lachesis.Metrics.Sums.{tenant_series, server_series, total_series}
use lachesis.Metrics.Collect.{collect-exposed}
use lachesis.Flush.{settle_lingering_ghosts}
use lachesis.Series.{SameSeries}
use lachesis.Flush.Exposed.{settle_lingering_ghosts-SameSeries}
use lachesis.Gc.Ghost.{sweep}
use lachesis.Gc.Ghost.Collect.{value_tenant, value_server, value_total, sweep-collect}
use lachesis.Tests.Data.{
  known, known-IsSharded, two_rows, two_rows-IsStore, no_routers, macs, mac_flows, world,
}

restore_all-snapshot_for_wal_example : restore_all (snapshot_for_wal two_rows) State.new ≡ two_rows
restore_all-snapshot_for_wal_example = restore_all-snapshot_for_wal two_rows two_rows-IsStore

collect-exposed_example :
    ((q : TenantSettledKey)
      → read_settled bytes
          (get TenantSettledKey-discrete (collect (resolve known no_routers) two_rows).tenant q)
        ≡ tenant_exposed bytes (tenant_series (resolve known no_routers)) two_rows q)
    × ((q : ServerSettledKey)
        → read_settled bytes
            (get ServerSettledKey-discrete (collect (resolve known no_routers) two_rows).server q)
          ≡ server_exposed bytes (server_series (resolve known no_routers)) two_rows q)
    × ((q : TotalSettledKey)
        → read_settled bytes
            (get TotalSettledKey-discrete (collect (resolve known no_routers) two_rows).total q)
          ≡ total_exposed bytes (total_series (resolve known no_routers)) two_rows q)
collect-exposed_example = collect-exposed (resolve known no_routers) two_rows two_rows-IsStore bytes

sweep-collect_example :
    ((q : TenantSettledKey)
      → value_tenant bytes no_routers (sweep macs mac_flows no_routers 200 world).0 q
        ≡ value_tenant bytes no_routers world q)
    × ((q : ServerSettledKey)
        → value_server bytes no_routers (sweep macs mac_flows no_routers 200 world).0 q
          ≡ value_server bytes no_routers world q)
    × ((q : TotalSettledKey)
        → value_total bytes no_routers (sweep macs mac_flows no_routers 200 world).0 q
          ≡ value_total bytes no_routers world q)
    × IsStore (sweep macs mac_flows no_routers 200 world).0.state
sweep-collect_example =
    sweep-collect macs mac_flows no_routers 200 world known-IsSharded two_rows-IsStore bytes

settle_lingering_ghosts-SameSeries_example :
    SameSeries bytes no_routers known two_rows known
      (settle_lingering_ghosts no_routers known two_rows).0
settle_lingering_ghosts-SameSeries_example =
    settle_lingering_ghosts-SameSeries no_routers known two_rows known-IsSharded two_rows-IsStore
      bytes
