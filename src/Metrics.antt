-- ===== src/Metrics.antt =====
-- internal/metrics/collector.go: the Collector, which sums the rows and the settled buckets of one
-- snapshot to the series of each tier. The order of a snapshot's rows is any order.
pub mod Sums
pub mod Collect
use native.Mathlib.Decide.{ℕ_discrete}
use text.Mathlib.Text.{◌==◌ as str_eq}
use lachesis.Base.{ℕ, String, not, if◌then◌else◌, List, [], ◌∷◌}
use lachesis.Base.Text.{String-discrete}
use lachesis.Base.GoMap.{GoMap}
use lachesis.Bpf.{FlowKey}
use lachesis.State.{
  GlobalState, Entry, SettledRecord, SettledTotal, TenantSettledKey, ServerSettledKey,
  TotalSettledKey, TenantSettledKey-discrete, ServerSettledKey-discrete, TotalSettledKey-discrete,
  credit,
}
use lachesis.State.Snapshot.{Snapshot, snapshot_with_settled}
use lachesis.State.Prune.{total_key}
use lachesis.Metadata.{Attribution}

-- `totalAggKey`, `aggKey` and `serverAggKey` have the fields of the settled keys of their tiers, and
-- `aggValue` those of a settled bucket.
abbrev pub TotalAggKey : Type 0
TotalAggKey = TotalSettledKey

abbrev pub AggKey : Type 0
AggKey = TenantSettledKey

abbrev pub ServerAggKey : Type 0
ServerAggKey = ServerSettledKey

abbrev pub AggValue : Type 0
AggValue = SettledTotal

pub record PortAggKey : Type 0 where
  pub server : String
  pub port : String
  pub tenant : String
  pub ext : String
  pub zone : ℕ
  pub dir : ℕ

pub record ProtoAggKey : Type 0 where
  pub server : String
  pub port : String
  pub tenant : String
  pub proto : ℕ
  pub dir : ℕ

unfoldable pub PortAggKey-discrete : Discrete PortAggKey
unfolding String-discrete
PortAggKey-discrete = hlevel (ℕ_discrete, String-discrete)

unfoldable pub ProtoAggKey-discrete : Discrete ProtoAggKey
unfolding String-discrete
ProtoAggKey-discrete = hlevel (ℕ_discrete, String-discrete)

-- The aggregation buffers of the Collector.
pub record Aggregates : Type 0 where
  pub total : GoMap TotalAggKey AggValue
  pub tenant : GoMap AggKey AggValue
  pub server : GoMap ServerAggKey AggValue
  pub port : GoMap PortAggKey AggValue
  pub proto : GoMap ProtoAggKey AggValue

-- `clear` of all buffers
abbrev pub cleared : Aggregates
cleared = record { total = []; tenant = []; server = []; port = []; proto = [] }

-- The loop of `foldTenantSettled`, `foldServerSettled` and `foldTotalSettled`.
unfoldable pub fold_settled :
    {K : Type 0} → Discrete K → List (SettledRecord K) → GoMap K AggValue → GoMap K AggValue
unfolding credit
fold_settled dec [] m = m
fold_settled dec (s ∷ rest) m = fold_settled dec rest (credit dec m s.key s.bytes s.packets)

abbrev pub agg_key : Attribution → FlowKey → AggKey
agg_key a k = record {
  tenant = a.tenant;
  ext_net = a.external_network;
  zone = k.dst_zone;
  dir = k.direction;
}

abbrev pub server_agg_key : Attribution → FlowKey → ServerAggKey
server_agg_key a k = record {
  server_id = a.server_id;
  tenant = a.tenant;
  ext_net = a.external_network;
  zone = k.dst_zone;
  dir = k.direction;
}

abbrev pub port_agg_key : Attribution → FlowKey → PortAggKey
port_agg_key a k = record {
  server = a.server_id;
  port = a.port_id;
  tenant = a.tenant;
  ext = a.external_network;
  zone = k.dst_zone;
  dir = k.direction;
}

abbrev pub proto_agg_key : Attribution → FlowKey → ProtoAggKey
proto_agg_key a k = record {
  server = a.server_id;
  port = a.port_id;
  tenant = a.tenant;
  proto = k.l4_proto;
  dir = k.direction;
}

-- One round of `aggregateLiveRows`.
unfoldable pub aggregate_row : Attribution → Entry → Aggregates → Aggregates
unfolding credit
aggregate_row a e m =
    let tenant =
      credit TenantSettledKey-discrete m.tenant (agg_key a e.key) e.total.bytes e.total.packets in
    if not (str_eq a.server_id "")
    then record m {
      tenant = tenant;
      server =
          credit ServerSettledKey-discrete m.server (server_agg_key a e.key) e.total.bytes
            e.total.packets;
      port = credit PortAggKey-discrete m.port (port_agg_key a e.key) e.total.bytes e.total.packets;
      proto =
          credit ProtoAggKey-discrete m.proto (proto_agg_key a e.key) e.total.bytes e.total.packets;
    }
    else record m { tenant = tenant }

-- `aggregateLiveRows`
unfoldable pub aggregate_live_rows : (FlowKey → Attribution) → List Entry → Aggregates → Aggregates
unfolding aggregate_row
aggregate_live_rows resolve [] m = m
aggregate_live_rows resolve (e ∷ rest) m =
    aggregate_live_rows resolve rest (aggregate_row (resolve e.key) e m)

-- `deriveTotals`
unfoldable pub derive_totals :
    GoMap AggKey AggValue → GoMap TotalAggKey AggValue → GoMap TotalAggKey AggValue
unfolding credit
derive_totals [] m = m
derive_totals ((k, v) ∷ rest) m =
    derive_totals rest (credit TotalSettledKey-discrete m (total_key k) v.bytes v.packets)

-- `aggregate`
unfoldable pub aggregate : (FlowKey → Attribution) → Snapshot → Aggregates
unfolding fold_settled aggregate_live_rows derive_totals
aggregate resolve s =
    let settled = record cleared { tenant = fold_settled TenantSettledKey-discrete s.tenant [] } in
    let live = aggregate_live_rows resolve s.flows settled in
    record live {
      server = fold_settled ServerSettledKey-discrete s.server live.server;
      total = fold_settled TotalSettledKey-discrete s.total (derive_totals live.tenant live.total);
    }

-- What `Collect` emits, on the snapshot that it takes.
unfoldable pub collect : (FlowKey → Attribution) → GlobalState → Aggregates
unfolding aggregate snapshot_with_settled
collect resolve g = aggregate resolve (snapshot_with_settled g)

-- `UnknownTenant.Resolve`
abbrev pub unknown_tenant : FlowKey → Attribution
unknown_tenant k = record {
  tenant = "unknown";
  server_id = "";
  port_id = "";
  external_network = "none";
}
