-- ===== src/State.antt =====
-- internal/state/state.go: the authoritative store of counters, `GlobalState`. Every method holds the
-- one lock from its first access to its last, so a method is one function from state to state.
pub mod Schema
pub mod Exposure
pub mod Settle
pub mod Rows
pub mod Delta
pub mod Prune
pub mod Total
pub mod Snapshot
pub use Schema.{
  Counter, Entry, Owner, Record, TenantSettledKey, ServerSettledKey, TotalSettledKey, SettledRecord,
  SettledTotal, SettleMode, settle_evict, settle_rebase,
}
unfoldable pub use Schema.{
  TenantSettledKey-discrete, ServerSettledKey-discrete, TotalSettledKey-discrete, Owner-discrete,
}
use lachesis.Base.{
  ℕ, suc, ◌+◌, ◌-◌, String, Bool, not, Option, none, some, List, [], ◌∷◌, ◌++◌, map, leb, ltb,
  if◌then◌else◌, ◌==◌,
}
use lachesis.Base.Word.{add_u64}
use lachesis.Base.Text.{String-discrete}
use lachesis.Base.GoMap.{GoMap, get, put, delete, length}
use lachesis.Bpf.{FlowKey, FlowMetrics, FlowKey-discrete, zero_metrics}
use text.Mathlib.Text.{◌==◌ as str_eq}

pub record GlobalState : Type 0 where
  pub counts : GoMap FlowKey Counter
  pub tenant_settled : GoMap TenantSettledKey SettledTotal
  pub server_settled : GoMap ServerSettledKey SettledTotal
  pub total_settled : GoMap TotalSettledKey SettledTotal

abbrev pub new : GlobalState
new = record { counts = []; tenant_settled = []; server_settled = []; total_settled = [] }

-- `AddDelta`: the new total and the new last raw reading
unfoldable pub add_delta : ℕ → ℕ → ℕ → ℕ × ℕ
add_delta total last_raw current =
    if leb last_raw current
    then (add_u64 total (current - last_raw), current)
    else (add_u64 total current, current)

-- `if a > b { b = a }`
abbrev pub raise_to : ℕ → ℕ → ℕ
raise_to a b = if ltb b a then a else b

-- The `switch` of `ApplyDelta` on bytes and packets, over the two totals.
guarded : Counter → FlowMetrics → FlowMetrics
unfolding add_delta
guarded c raw = record (c.total) {
  bytes = (add_delta c.total.bytes c.last_ebpf_raw.bytes raw.bytes).0;
  packets = (add_delta c.total.packets c.last_ebpf_raw.packets raw.packets).0;
}

whole : Counter → FlowMetrics → FlowMetrics
whole c raw = record (c.total) {
  bytes = add_u64 c.total.bytes raw.bytes;
  packets = add_u64 c.total.packets raw.packets;
}

-- `ApplyDelta` on a row that is there; every branch leaves `LastEbpfRaw` at the reading
unfoldable pub integrate : Counter → FlowMetrics → Counter
unfolding guarded whole
integrate c raw =
    let t =
      (if c.last_ebpf_raw.created_ns == 0
        then guarded c raw
        else if not (raw.created_ns == c.last_ebpf_raw.created_ns)
        then whole c raw
        else guarded c raw) in
    record {
      total = record t { last_seen_ns = raise_to raw.last_seen_ns t.last_seen_ns };
      last_ebpf_raw = raw;
    }

-- `ApplyDelta` on the row of its key: first sight seeds the row and counts the whole reading
unfoldable pub observe : Option Counter → FlowMetrics → Counter
unfolding integrate
observe none raw = record { total = raw; last_ebpf_raw = raw }
observe (some c) raw = integrate c raw

-- `ApplyDelta`
unfoldable pub apply_delta : GlobalState → FlowKey → FlowMetrics → GlobalState
unfolding observe
apply_delta g key raw = record g {
  counts = put FlowKey-discrete g.counts key (observe (get FlowKey-discrete g.counts key) raw);
}

-- `c.Total` plus `m`, as `Add` and `Resolve` compute it
unfoldable pub add_metrics : FlowMetrics → FlowMetrics → FlowMetrics
add_metrics t m = record t {
  bytes = add_u64 t.bytes m.bytes;
  packets = add_u64 t.packets m.packets;
  last_seen_ns = raise_to m.last_seen_ns t.last_seen_ns;
}

-- `Add` on the row of its key
unfoldable pub added : Option Counter → FlowMetrics → Counter
unfolding add_metrics
added none m = record { total = m; last_ebpf_raw = zero_metrics }
added (some c) m = record c { total = add_metrics c.total m }

-- `Add`
unfoldable pub add : GlobalState → FlowKey → FlowMetrics → GlobalState
unfolding added
add g key m = record g {
  counts = put FlowKey-discrete g.counts key (added (get FlowKey-discrete g.counts key) m);
}

-- `Resolve` on the row of its key
unfoldable pub resolved : Option Counter → FlowMetrics → FlowMetrics → Counter
unfolding add_metrics
resolved none total last_raw = record { total = total; last_ebpf_raw = last_raw }
resolved (some c) total last_raw = record {
  total = add_metrics c.total total;
  last_ebpf_raw = last_raw;
}

-- `Resolve`
unfoldable pub resolve : GlobalState → FlowKey → FlowMetrics → FlowMetrics → GlobalState
unfolding resolved
resolve g key total last_raw = record g {
  counts =
      put FlowKey-discrete g.counts key
        (resolved (get FlowKey-discrete g.counts key) total last_raw);
}

-- The bucket, which starts at zero, after `t.bytes += b; t.packets += p`
unfoldable pub bump : Option SettledTotal → ℕ → ℕ → SettledTotal
bump none b p = record { bytes = add_u64 0 b; packets = add_u64 0 p }
bump (some t) b p = record { bytes = add_u64 t.bytes b; packets = add_u64 t.packets p }

-- `t := m[k]; if t == nil { t = &settledTotal{}; m[k] = t }; t.bytes += b; t.packets += p`
unfoldable pub credit :
    {K : Type 0} → Discrete K → GoMap K SettledTotal → K → ℕ → ℕ → GoMap K SettledTotal
unfolding bump
credit dec m k b p = put dec m k (bump (get dec m k) b p)

abbrev pub tenant_key : Owner → FlowKey → TenantSettledKey
tenant_key o k = record {
  tenant = o.tenant;
  ext_net = o.ext_net;
  zone = k.dst_zone;
  dir = k.direction;
}

abbrev pub server_key : Owner → FlowKey → ServerSettledKey
server_key o k = record {
  server_id = o.server;
  tenant = o.tenant;
  ext_net = o.ext_net;
  zone = k.dst_zone;
  dir = k.direction;
}

-- The row after the fold: evicted, or kept with its bytes and packets at zero.
pub close_row : SettleMode → GoMap FlowKey Counter → FlowKey → Counter → GoMap FlowKey Counter
close_row settle_evict counts k c = delete FlowKey-discrete counts k
close_row settle_rebase counts k c =
    put FlowKey-discrete counts k (record c { total = record (c.total) { bytes = 0; packets = 0 } })

-- One round of the loop of `Settle`, for a row that resolves.
unfoldable pub fold_row : SettleMode → GlobalState → FlowKey → Counter → Owner → GlobalState
unfolding credit close_row
fold_row mode g k c o = record g {
  counts = close_row mode g.counts k c;
  tenant_settled =
      credit TenantSettledKey-discrete g.tenant_settled (tenant_key o k) c.total.bytes
        c.total.packets;
  server_settled =
      if not (str_eq o.server "")
      then credit ServerSettledKey-discrete g.server_settled (server_key o k) c.total.bytes
          c.total.packets
      else g.server_settled;
}

abbrev pub Resolve : Type 0
Resolve = FlowKey → Option Owner

-- One round of the loop of `Settle`; the second part counts the rows that fold.
unfoldable pub visit :
    SettleMode → FlowKey → Counter → Option Owner → GlobalState × ℕ → GlobalState × ℕ
unfolding fold_row
visit mode k c none (g, folded) = (g, folded)
visit mode k c (some o) (g, folded) = (fold_row mode g k c o, folded + 1)

-- The loop of `Settle` over the rows still to visit.
unfoldable pub settle_rows :
    SettleMode → Resolve → GoMap FlowKey Counter → GlobalState × ℕ → GlobalState × ℕ
unfolding visit
settle_rows mode resolve [] s = s
settle_rows mode resolve ((k, c) ∷ rows) s =
    settle_rows mode resolve rows (visit mode k c (resolve k) s)

unfoldable pub settle : SettleMode → Resolve → GlobalState → GlobalState × ℕ
unfolding settle_rows
settle mode resolve g = settle_rows mode resolve g.counts (g, 0)
