-- ===== src/State/Exposure.antt =====
-- The value that a series shows: its live rows and its settled bucket, modulo 2^64. It is stated for
-- one tier at a time, over a labelling of the flows (internal/state/state.go, `Settle`).
use mathlib.Core.Logic.{ite}
use lachesis.Base.{ℕ, ◌+◌, ◌%◌, ◌≡◌, ap, not, Option, none, some, arith, if◌then◌else◌}
use lachesis.Base.Word.{add_u64, u64_mod}
use lachesis.Base.GoMap.{GoMap, get, Distinct, get-put_self, get-put_ne}
use lachesis.Base.GoMap.Sum.{sum, sum_congr, sum-put, sum-delete}
use lachesis.Bpf.{FlowKey, FlowMetrics, FlowKey-discrete}
use lachesis.State.{
  GlobalState, Owner, TenantSettledKey, ServerSettledKey, TenantSettledKey-discrete,
  ServerSettledKey-discrete, server_key, Counter, SettledTotal, SettleMode, settle_evict,
  settle_rebase, close_row, bump, credit,
}
use text.Mathlib.Text.{◌==◌ as str_eq}

-- Which of the two counters is read.
pub data Meter : Type 0 where
  bytes packets : Meter

abbrev pub read_flow : Meter → FlowMetrics → ℕ
read_flow bytes m = m.bytes
read_flow packets m = m.packets

abbrev pub read_settled : Meter → Option SettledTotal → ℕ
read_settled m none = 0
read_settled bytes (some t) = t.bytes
read_settled packets (some t) = t.packets

module _ {K : Type 0} (dec : Discrete K) where
  -- What a row adds to the series `q`: its total, if it is labelled so.
  abbrev pub share : Meter → K → Option K → FlowMetrics → ℕ
  share meter q none m = 0
  share meter q (some l) m = ite (dec l q) (read_flow meter m) 0

  abbrev pub row_share : Meter → (FlowKey → Option K) → K → FlowKey → Counter → ℕ
  row_share meter label q k c = share meter q (label k) c.total

  unfoldable pub exposed :
      Meter → (FlowKey → Option K) → GoMap FlowKey Counter → GoMap K SettledTotal → K → ℕ
  exposed meter label counts settled q =
      (sum (row_share meter label q) counts + read_settled meter (get dec settled q)) % u64_mod

  pub read_settled-credit :
      (meter : Meter) (m : GoMap K SettledTotal) (k q : K) (f : FlowMetrics)
      → read_settled meter (get dec (credit dec m k f.bytes f.packets) q)
        ≡ ite
            (dec k q)
            (add_u64 (read_settled meter (get dec m k)) (read_flow meter f))
            (read_settled meter (get dec m q))
  unfolding credit
  read_settled-credit bytes m k q f = ground (
    arith,
    get-put_self dec m k (bump (get dec m k) f.bytes f.packets),
    get-put_ne dec m k q (bump (get dec m k) f.bytes f.packets),
  )
  read_settled-credit packets m k q f = ground (
    arith,
    get-put_self dec m k (bump (get dec m k) f.bytes f.packets),
    get-put_ne dec m k q (bump (get dec m k) f.bytes f.packets),
  )

  pub read_settled-credit_bucket :
      (meter : Meter) (m : GoMap K SettledTotal) (k q : K) (t : SettledTotal)
      → read_settled meter (get dec (credit dec m k t.bytes t.packets) q)
        ≡ ite
            (dec k q)
            (add_u64 (read_settled meter (get dec m k)) (read_settled meter (some t)))
            (read_settled meter (get dec m q))
  read_settled-credit_bucket bytes m k q t =
      read_settled-credit bytes m k q
        (record { bytes = t.bytes; packets = t.packets; last_seen_ns = 0; created_ns = 0 })
  read_settled-credit_bucket packets m k q t =
      read_settled-credit packets m k q
        (record { bytes = t.bytes; packets = t.packets; last_seen_ns = 0; created_ns = 0 })

  -- Two labellings that agree on the rows that are there show the same series.
  pub exposed-relabel :
      (meter : Meter) (label label' : FlowKey → Option K) (counts : GoMap FlowKey Counter)
      (m : GoMap K SettledTotal) (q : K)
      → Distinct FlowKey-discrete counts
      → ((k : FlowKey) (c : Counter) → get FlowKey-discrete counts k ≡ some c → label' k ≡ label k)
      → exposed meter label' counts m q ≡ exposed meter label counts m q
  unfolding exposed
  exposed-relabel meter label label' counts m q d same =
      ap (λ n. (n + read_settled meter (get dec m q)) % u64_mod)
        (sum_congr FlowKey-discrete (row_share meter label' q) (row_share meter label q) counts d
          (λ k c row. ap (λ l. share meter q l c.total) (same k c row)))

  module _ (meter : Meter) (label : FlowKey → Option K) (q : K) (counts : GoMap FlowKey Counter)
      (k : FlowKey) (c : Counter) (row : get FlowKey-discrete counts k ≡ some c) where
    pub live_closed :
        (mode : SettleMode)
        → sum (row_share meter label q) (close_row mode counts k c) + row_share meter label q k c
          ≡ sum (row_share meter label q) counts
    unfolding close_row
    live_closed settle_evict =
        ground (arith, sum-delete FlowKey-discrete (row_share meter label q) counts k)
    live_closed settle_rebase = ground (
      arith,
      sum-put FlowKey-discrete (row_share meter label q) counts k
          (record c { total = record (c.total) { bytes = 0; packets = 0 } }),
    )

    -- A fold into the bucket of the row's own label changes no series.
    pub exposed-fold :
        (mode : SettleMode) (m : GoMap K SettledTotal) (l : K)
        → label k ≡ some l
        → exposed meter label
            (close_row mode counts k c)
            (credit dec m l c.total.bytes c.total.packets)
            q
          ≡ exposed meter label counts m q
    unfolding exposed
    exposed-fold mode m l h =
        ground (arith, live_closed mode, read_settled-credit meter m l q c.total)

    -- A row that no series shows may be closed.
    pub exposed-close :
        (mode : SettleMode) (m : GoMap K SettledTotal)
        → label k ≡ none
        → exposed meter label (close_row mode counts k c) m q ≡ exposed meter label counts m q
    unfolding exposed
    exposed-close mode m h = ground (arith, live_closed mode)

-- The two tiers that keep a settled accumulator beside the live rows.
abbrev pub tenant_exposed :
    Meter → (FlowKey → Option TenantSettledKey) → GlobalState → TenantSettledKey → ℕ
tenant_exposed meter label g =
    exposed TenantSettledKey-discrete meter label g.counts g.tenant_settled

abbrev pub server_exposed :
    Meter → (FlowKey → Option ServerSettledKey) → GlobalState → ServerSettledKey → ℕ
server_exposed meter label g =
    exposed ServerSettledKey-discrete meter label g.counts g.server_settled

-- A row without a server has no server series.
abbrev pub server_key? : Owner → FlowKey → Option ServerSettledKey
server_key? o k = if not (str_eq o.server "") then some (server_key o k) else none
