-- ===== src/Metrics/Sums.antt =====
-- What the loops of internal/metrics/collector.go add to a series, modulo 2^64.
use mathlib.Core.Logic.{ite}
use lachesis.Base.{ℕ, ◌+◌, ◌%◌, ◌≡◌, refl, ap, ◌∙◌, Option, none, some, [], ◌∷◌, arith}
use lachesis.Base.Word.{u64_mod}
use lachesis.Base.GoMap.{GoMap, get, Distinct}
use lachesis.Base.GoMap.Sum.{sum}
use lachesis.Bpf.{FlowKey}
use lachesis.State.{
  Counter, Entry, SettledTotal, TenantSettledKey, ServerSettledKey, TotalSettledKey,
  TenantSettledKey-discrete, ServerSettledKey-discrete, TotalSettledKey-discrete, credit,
  tenant_key,
}
use lachesis.State.Exposure.{
  Meter, bytes, packets, read_flow, read_settled, row_share, read_settled-credit,
  read_settled-credit_bucket, server_key?,
}
use lachesis.State.Snapshot.{entries, buckets}
use lachesis.State.Prune.{total_key}
use lachesis.State.Prune.Total.{bucket_share, read_bucket, credit_flow-parts}
use lachesis.Metadata.{Attribution}
use lachesis.Metadata.Labels.{owner_of}
use lachesis.Metrics.{
  Aggregates, AggKey, TotalAggKey, AggValue, fold_settled, aggregate_row, aggregate_live_rows,
  derive_totals, agg_key, server_agg_key,
}

module _ {K : Type 0} (dec : Discrete K) (meter : Meter) (q : K) where
  -- What a series shows, as a number modulo 2^64.
  abbrev pub Shows : GoMap K AggValue → ℕ → Type 0
  Shows m n = read_settled meter (get dec m q) ≡ n % u64_mod

  -- What a bucket adds to the series.
  abbrev pub settled_share : K → SettledTotal → ℕ
  settled_share k t = ite (dec k q) (read_bucket meter t) 0

  credit_flow-Shows :
      (m : GoMap K AggValue) (k : K) (e : Entry) (n : ℕ)
      → Shows m n
      → Shows
          (credit dec m k e.total.bytes e.total.packets)
          (n + ite (dec k q) (read_flow meter e.total) 0)
  credit_flow-Shows m k e n h = ground (arith, read_settled-credit dec meter m k q e.total)

  credit_bucket-Shows :
      (m : GoMap K AggValue) (k : K) (t : SettledTotal) (n : ℕ)
      → Shows m n
      → Shows (credit dec m k t.bytes t.packets) (n + settled_share k t)
  credit_bucket-Shows m k t n h = ground (arith, read_settled-credit_bucket dec meter m k q t)

  pub fold_settled-Shows :
      (rows : GoMap K SettledTotal) (m : GoMap K AggValue) (n : ℕ)
      → Shows m n
      → Shows (fold_settled dec (buckets rows) m) (n + sum settled_share rows)
  unfolding fold_settled buckets sum
  fold_settled-Shows [] m n h = h ∙ ap (λ x. x % u64_mod) (omega arith)
  fold_settled-Shows ((k, t) ∷ rows) m n h =
      fold_settled-Shows rows (credit dec m k t.bytes t.packets) (n + settled_share k t)
        (credit_bucket-Shows m k t n h)
      ∙ ap (λ x. x % u64_mod) (omega arith)

  settled_share-absent :
      (rows : GoMap K SettledTotal) → get dec rows q ≡ none → sum settled_share rows ≡ 0
  unfolding sum get
  settled_share-absent [] e = refl
  settled_share-absent ((k, t) ∷ rows) e = ground (arith, settled_share-absent rows)

  -- The buckets of a map add their one bucket to a series.
  pub settled_share-sum :
      (rows : GoMap K SettledTotal)
      → Distinct dec rows
      → sum settled_share rows ≡ read_settled meter (get dec rows q)
  unfolding sum get
  settled_share-sum [] d = refl
  settled_share-sum ((k, t) ∷ rows) d = elim (dec k q) [
    | yes e ↦ ground (arith, settled_share-absent rows (rw e at d.0))
    | no ne ↦ ground (arith, settled_share-sum rows d.1)
  ]

credit_bucket-parts :
    (meter : Meter) (q : TotalSettledKey) (m : GoMap AggKey AggValue) (k : AggKey)
    (t : SettledTotal)
    → sum (bucket_share meter q) (credit TenantSettledKey-discrete m k t.bytes t.packets) % u64_mod
      ≡ (sum (bucket_share meter q) m + bucket_share meter q k t) % u64_mod
credit_bucket-parts bytes q m k t =
    credit_flow-parts bytes q m k
      (record { bytes = t.bytes; packets = t.packets; last_seen_ns = 0; created_ns = 0 })
credit_bucket-parts packets q m k t =
    credit_flow-parts packets q m k
      (record { bytes = t.bytes; packets = t.packets; last_seen_ns = 0; created_ns = 0 })

pub fold_settled-parts :
    (meter : Meter) (q : TotalSettledKey) (rows : GoMap TenantSettledKey SettledTotal)
    (m : GoMap AggKey AggValue)
    → sum (bucket_share meter q) (fold_settled TenantSettledKey-discrete (buckets rows) m) % u64_mod
      ≡ (sum (bucket_share meter q) m + sum (bucket_share meter q) rows) % u64_mod
unfolding fold_settled buckets sum
fold_settled-parts meter q [] m = ap (λ x. x % u64_mod) (omega arith)
fold_settled-parts meter q ((k, t) ∷ rows) m =
    fold_settled-parts meter q rows (credit TenantSettledKey-discrete m k t.bytes t.packets)
    ∙ omega (arith, credit_bucket-parts meter q m k t)

pub derive_totals-Shows :
    (meter : Meter) (q : TotalSettledKey) (rows : GoMap AggKey AggValue)
    (m : GoMap TotalAggKey AggValue) (n : ℕ)
    → Shows TotalSettledKey-discrete meter q m n
    → Shows TotalSettledKey-discrete meter q
        (derive_totals rows m)
        (n + sum (bucket_share meter q) rows)
unfolding derive_totals sum
derive_totals-Shows meter q [] m n h = h ∙ ap (λ x. x % u64_mod) (omega arith)
derive_totals-Shows meter q ((k, t) ∷ rows) m n h =
    derive_totals-Shows meter q rows
      (credit TotalSettledKey-discrete m (total_key k) t.bytes t.packets)
      (n + bucket_share meter q k t)
      (credit_bucket-Shows TotalSettledKey-discrete meter q m (total_key k) t n h)
    ∙ ap (λ x. x % u64_mod) (omega arith)

-- The labels of a flow, as its attribution has them.
module _ (resolve : FlowKey → Attribution) where
  abbrev pub tenant_series : FlowKey → Option TenantSettledKey
  tenant_series k = some (tenant_key (owner_of (resolve k)) k)

  abbrev pub server_series : FlowKey → Option ServerSettledKey
  server_series k = server_key? (owner_of (resolve k)) k

  abbrev pub total_series : FlowKey → Option TotalSettledKey
  total_series k = some (total_key (tenant_key (owner_of (resolve k)) k))

  module _ (meter : Meter) where
    pub rows-tenant :
        (q : TenantSettledKey) (rows : GoMap FlowKey Counter) (m : Aggregates) (n : ℕ)
        → Shows TenantSettledKey-discrete meter q m.tenant n
        → Shows TenantSettledKey-discrete meter q
            (aggregate_live_rows resolve (entries rows) m).tenant
            (n + sum (row_share TenantSettledKey-discrete meter tenant_series q) rows)
    unfolding aggregate_live_rows aggregate_row entries sum
    rows-tenant q [] m n h = h ∙ ap (λ x. x % u64_mod) (omega arith)
    rows-tenant q ((k, c) ∷ rows) m n h =
        let e : Entry = record { key = k; total = c.total } in
        rows-tenant q rows (aggregate_row (resolve k) e m)
          (n + row_share TenantSettledKey-discrete meter tenant_series q k c)
          (ground (
            arith,
            credit_flow-Shows TenantSettledKey-discrete meter q m.tenant (agg_key (resolve k) k) e n
                h,
          ))
        ∙ ap (λ x. x % u64_mod) (omega arith)

    pub rows-server :
        (q : ServerSettledKey) (rows : GoMap FlowKey Counter) (m : Aggregates) (n : ℕ)
        → Shows ServerSettledKey-discrete meter q m.server n
        → Shows ServerSettledKey-discrete meter q
            (aggregate_live_rows resolve (entries rows) m).server
            (n + sum (row_share ServerSettledKey-discrete meter server_series q) rows)
    unfolding aggregate_live_rows aggregate_row entries sum
    rows-server q [] m n h = h ∙ ap (λ x. x % u64_mod) (omega arith)
    rows-server q ((k, c) ∷ rows) m n h =
        let e : Entry = record { key = k; total = c.total } in
        rows-server q rows (aggregate_row (resolve k) e m)
          (n + row_share ServerSettledKey-discrete meter server_series q k c)
          (ground (
            arith,
            credit_flow-Shows ServerSettledKey-discrete meter q m.server
                (server_agg_key (resolve k) k) e n h,
          ))
        ∙ ap (λ x. x % u64_mod) (omega arith)

    pub rows-parts :
        (q : TotalSettledKey) (rows : GoMap FlowKey Counter) (m : Aggregates)
        → sum (bucket_share meter q) (aggregate_live_rows resolve (entries rows) m).tenant % u64_mod
          ≡ (sum (bucket_share meter q) m.tenant
              + sum (row_share TotalSettledKey-discrete meter total_series q) rows)
            % u64_mod
    unfolding aggregate_live_rows aggregate_row entries sum
    rows-parts q [] m = ap (λ x. x % u64_mod) (omega arith)
    rows-parts q ((k, c) ∷ rows) m =
        let e : Entry = record { key = k; total = c.total } in
        rows-parts q rows (aggregate_row (resolve k) e m)
        ∙ ground (arith, credit_flow-parts meter q m.tenant (agg_key (resolve k) k) c.total)

  pub rows-total_kept :
      (rows : GoMap FlowKey Counter) (m : Aggregates)
      → (aggregate_live_rows resolve (entries rows) m).total ≡ m.total
  unfolding aggregate_live_rows aggregate_row entries
  rows-total_kept [] m = refl
  rows-total_kept ((k, c) ∷ rows) m =
      rows-total_kept rows (aggregate_row (resolve k) (record { key = k; total = c.total }) m)
      ∙ ground arith
