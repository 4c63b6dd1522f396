-- ===== src/State/Snapshot.antt =====
-- The snapshots and the restores of internal/state/state.go. A snapshot appends to the buffers that it
-- is given; what it appends is modelled here, for buffers that are empty.
use lachesis.Base.{◌≡◌, sym, ap, ◌∙◌, ◌++◌, List, [], ◌∷◌}
use mathlib.Core.List.{append-nil, append_assoc}
use lachesis.Base.GoMap.Append.{put-new}
use lachesis.Base.GoMap.{GoMap, put, Distinct}
use lachesis.Bpf.{FlowKey, FlowKey-discrete}
use lachesis.State
use lachesis.State.{
  GlobalState, Counter, Record, Entry, SettledRecord, SettledTotal, TenantSettledKey,
  ServerSettledKey, TotalSettledKey, TenantSettledKey-discrete, ServerSettledKey-discrete,
  TotalSettledKey-discrete,
}
use lachesis.State.Rows.{IsStore}

-- The rows as the metrics read them.
unfoldable pub entries : GoMap FlowKey Counter → List Entry
entries [] = []
entries ((k, c) ∷ rows) = (record { key = k; total = c.total }) ∷ entries rows

-- The rows as the log takes them: the owner is filled in by the log's writer.
unfoldable pub records : GoMap FlowKey Counter → List Record
records [] = []
records ((k, c) ∷ rows) =
    (record { key = k; counter = c; owner = record { tenant = ""; ext_net = ""; server = "" } })
    ∷ records rows

unfoldable pub buckets : {K : Type 0} → GoMap K SettledTotal → List (SettledRecord K)
buckets [] = []
buckets ((k, t) ∷ rows) = (record { key = k; bytes = t.bytes; packets = t.packets }) ∷ buckets rows

-- What `SnapshotWithSettled` returns.
pub record Snapshot : Type 0 where
  pub flows : List Entry
  pub tenant : List (SettledRecord TenantSettledKey)
  pub server : List (SettledRecord ServerSettledKey)
  pub total : List (SettledRecord TotalSettledKey)

unfoldable pub snapshot_with_settled : GlobalState → Snapshot
unfolding entries buckets
snapshot_with_settled g = record {
  flows = entries g.counts;
  tenant = buckets g.tenant_settled;
  server = buckets g.server_settled;
  total = buckets g.total_settled;
}

-- What `SnapshotForWAL` returns.
pub record WalSnapshot : Type 0 where
  pub flows : List Record
  pub tenant : List (SettledRecord TenantSettledKey)
  pub server : List (SettledRecord ServerSettledKey)
  pub total : List (SettledRecord TotalSettledKey)

unfoldable pub snapshot_for_wal : GlobalState → WalSnapshot
unfolding records buckets
snapshot_for_wal g = record {
  flows = records g.counts;
  tenant = buckets g.tenant_settled;
  server = buckets g.server_settled;
  total = buckets g.total_settled;
}

-- The loops of `Restore` and of the three restores of buckets.
unfoldable pub restore_rows : List Record → GoMap FlowKey Counter → GoMap FlowKey Counter
restore_rows [] m = m
restore_rows (r ∷ rs) m = restore_rows rs (put FlowKey-discrete m r.key r.counter)

unfoldable pub restore_buckets :
    {K : Type 0} → Discrete K → List (SettledRecord K) → GoMap K SettledTotal → GoMap K SettledTotal
restore_buckets dec [] m = m
restore_buckets dec (r ∷ rs) m =
    restore_buckets dec rs (put dec m r.key (record { bytes = r.bytes; packets = r.packets }))

-- `Restore`
unfoldable pub restore : List Record → GlobalState → GlobalState
unfolding restore_rows
restore rs g = record g { counts = restore_rows rs g.counts }

unfoldable pub restore_tenant_settled :
    List (SettledRecord TenantSettledKey) → GlobalState → GlobalState
unfolding restore_buckets
restore_tenant_settled rs g = record g {
  tenant_settled = restore_buckets TenantSettledKey-discrete rs g.tenant_settled;
}

unfoldable pub restore_server_settled :
    List (SettledRecord ServerSettledKey) → GlobalState → GlobalState
unfolding restore_buckets
restore_server_settled rs g = record g {
  server_settled = restore_buckets ServerSettledKey-discrete rs g.server_settled;
}

unfoldable pub restore_total_settled :
    List (SettledRecord TotalSettledKey) → GlobalState → GlobalState
unfolding restore_buckets
restore_total_settled rs g = record g {
  total_settled = restore_buckets TotalSettledKey-discrete rs g.total_settled;
}

restore_rows-records :
    (m rows : GoMap FlowKey Counter)
    → Distinct FlowKey-discrete (m ++ rows)
    → restore_rows (records rows) m ≡ m ++ rows
unfolding restore_rows records
restore_rows-records m [] d = sym (append-nil m)
restore_rows-records m ((k, c) ∷ rows) d =
    let grown = put-new FlowKey-discrete m rows k c d in
    let joined = append_assoc m ((k, c) ∷ []) rows in
    ap (λ m'. restore_rows (records rows) m') grown
    ∙ restore_rows-records (m ++ ((k, c) ∷ [])) rows (rw joined d)
    ∙ joined

restore_buckets-buckets :
    {K : Type 0} (dec : Discrete K) (m rows : GoMap K SettledTotal)
    → Distinct dec (m ++ rows)
    → restore_buckets dec (buckets rows) m ≡ m ++ rows
unfolding restore_buckets buckets
restore_buckets-buckets dec m [] d = sym (append-nil m)
restore_buckets-buckets dec m ((k, t) ∷ rows) d =
    let grown = put-new dec m rows k t d in
    let joined = append_assoc m ((k, t) ∷ []) rows in
    ap (λ m'. restore_buckets dec (buckets rows) m') grown
    ∙ restore_buckets-buckets dec (m ++ ((k, t) ∷ [])) rows (rw joined d)
    ∙ joined

-- What the agent's boot does with the four parts of a log.
unfoldable pub restore_all : WalSnapshot → GlobalState → GlobalState
unfolding restore restore_tenant_settled restore_server_settled restore_total_settled
restore_all s g =
    restore_total_settled s.total
      (restore_server_settled s.server (restore_tenant_settled s.tenant (restore s.flows g)))

-- A store that is written to the log and restored into a new store is the store that was written, its
-- rows, baselines and settled buckets included, if no map of it holds a key twice.
pub restore_all-snapshot_for_wal :
    (g : GlobalState) → IsStore g → restore_all (snapshot_for_wal g) State.new ≡ g
unfolding restore_all snapshot_for_wal
restore_all-snapshot_for_wal g h = cc (
  restore_rows-records [] g.counts h.counts,
  restore_buckets-buckets TenantSettledKey-discrete [] g.tenant_settled h.tenant,
  restore_buckets-buckets ServerSettledKey-discrete [] g.server_settled h.server,
  restore_buckets-buckets TotalSettledKey-discrete [] g.total_settled h.total,
)
