-- ===== src/Wal.antt =====
-- internal/wal/schema.go and the conversions of internal/wal/wal.go: what a file of the write-ahead log
-- holds. JSON is a parameter, with a law for what it reads back.
pub mod Files
pub mod Loaded
pub mod Crash
pub mod Saved
use text.Mathlib.Text.{◌==◌ as str_eq}
use lachesis.Base.{
  ℕ, ◌≡◌, String, Bool, true, false, not, Option, none, some, List, [], ◌∷◌, map, ltb, ◌==◌,
  if◌then◌else◌,
}
use lachesis.Bpf.{Mac, FlowKey, FlowMetrics}
use lachesis.State.{
  Owner, Record, Counter, SettledRecord, TenantSettledKey, ServerSettledKey, TotalSettledKey,
}
use lachesis.State.Snapshot.{WalSnapshot}
use lachesis.Metadata.{no_external_network}

abbrev pub schema_version : ℕ
schema_version = 9

pub record FlowKeyWire : Type 0 where
  pub src_mac : Mac
  pub dst_mac : Mac
  pub eth_proto : ℕ
  pub direction : ℕ
  pub dst_zone : ℕ
  pub l4_proto : ℕ

pub record FlowMetricsWire : Type 0 where
  pub bytes : ℕ
  pub packets : ℕ
  pub last_seen_ns : ℕ
  pub created_ns : ℕ

pub record OwnerWire : Type 0 where
  pub tenant : String
  pub ext_net : String
  pub server : String

pub record EntryWire : Type 0 where
  pub key : FlowKeyWire
  pub total : FlowMetricsWire
  pub last_raw : FlowMetricsWire
  pub owner : Option OwnerWire

pub record TenantSettledWire : Type 0 where
  pub tenant_id : String
  pub external_network : String
  pub zone : ℕ
  pub direction : ℕ
  pub bytes : ℕ
  pub packets : ℕ

pub record ServerSettledWire : Type 0 where
  pub server_id : String
  pub tenant_id : String
  pub external_network : String
  pub zone : ℕ
  pub direction : ℕ
  pub bytes : ℕ
  pub packets : ℕ

pub record TotalSettledWire : Type 0 where
  pub external_network : String
  pub zone : ℕ
  pub direction : ℕ
  pub bytes : ℕ
  pub packets : ℕ

-- `snapshotWire`; a nil slice is the empty list
pub record SnapshotWire : Type 0 where
  pub version : ℕ
  pub agent_build : String
  pub written_at_ns : ℕ
  pub global_state : List EntryWire
  pub tenant_settled : List TenantSettledWire
  pub server_settled : List ServerSettledWire
  pub total_settled : List TotalSettledWire
  pub counters_reset_at_s : ℕ
  pub legacy_settled : List TenantSettledWire

-- `toMetricsWire` and `fromMetricsWire`
abbrev pub to_metrics_wire : FlowMetrics → FlowMetricsWire
to_metrics_wire m = record {
  bytes = m.bytes;
  packets = m.packets;
  last_seen_ns = m.last_seen_ns;
  created_ns = m.created_ns;
}

abbrev pub from_metrics_wire : FlowMetricsWire → FlowMetrics
from_metrics_wire w = record {
  bytes = w.bytes;
  packets = w.packets;
  last_seen_ns = w.last_seen_ns;
  created_ns = w.created_ns;
}

-- The owner of `toWire`: absent if the row did not resolve
unfoldable pub owner_wire : Owner → Option OwnerWire
owner_wire o =
    if not (str_eq o.tenant "")
    then some (record { tenant = o.tenant; ext_net = o.ext_net; server = o.server })
    else none

-- `toWire`
unfoldable pub to_wire : Record → EntryWire
unfolding owner_wire
to_wire r = record {
  key = record {
    src_mac = r.key.src_mac;
    dst_mac = r.key.dst_mac;
    eth_proto = r.key.eth_proto;
    direction = r.key.direction;
    dst_zone = r.key.dst_zone;
    l4_proto = r.key.l4_proto;
  };
  total = to_metrics_wire r.counter.total;
  last_raw = to_metrics_wire r.counter.last_ebpf_raw;
  owner = owner_wire r.owner;
}

abbrev pub from_owner_wire : Option OwnerWire → Owner
from_owner_wire none = record { tenant = ""; ext_net = ""; server = "" }
from_owner_wire (some o) = record { tenant = o.tenant; ext_net = o.ext_net; server = o.server }

-- One round of `fromSnapshot`
abbrev pub from_wire : EntryWire → Record
from_wire e = record {
  key = record {
    src_mac = e.key.src_mac;
    dst_mac = e.key.dst_mac;
    eth_proto = e.key.eth_proto;
    direction = e.key.direction;
    dst_zone = e.key.dst_zone;
    l4_proto = e.key.l4_proto;
  };
  counter = record {
    total = from_metrics_wire e.total;
    last_ebpf_raw = from_metrics_wire e.last_raw;
  };
  owner = from_owner_wire e.owner;
}

-- The sentinel for a bucket without an external network
abbrev pub gated : String → String
gated ext = if str_eq ext "" then no_external_network else ext

abbrev pub to_tenant_wire : SettledRecord TenantSettledKey → TenantSettledWire
to_tenant_wire s = record {
  tenant_id = s.key.tenant;
  external_network = s.key.ext_net;
  zone = s.key.zone;
  direction = s.key.dir;
  bytes = s.bytes;
  packets = s.packets;
}

abbrev pub from_tenant_wire : TenantSettledWire → SettledRecord TenantSettledKey
from_tenant_wire s = record {
  key = record {
    tenant = s.tenant_id;
    ext_net = gated s.external_network;
    zone = s.zone;
    dir = s.direction;
  };
  bytes = s.bytes;
  packets = s.packets;
}

abbrev pub to_server_wire : SettledRecord ServerSettledKey → ServerSettledWire
to_server_wire s = record {
  server_id = s.key.server_id;
  tenant_id = s.key.tenant;
  external_network = s.key.ext_net;
  zone = s.key.zone;
  direction = s.key.dir;
  bytes = s.bytes;
  packets = s.packets;
}

abbrev pub from_server_wire : ServerSettledWire → SettledRecord ServerSettledKey
from_server_wire s = record {
  key = record {
    server_id = s.server_id;
    tenant = s.tenant_id;
    ext_net = gated s.external_network;
    zone = s.zone;
    dir = s.direction;
  };
  bytes = s.bytes;
  packets = s.packets;
}

abbrev pub to_total_wire : SettledRecord TotalSettledKey → TotalSettledWire
to_total_wire s = record {
  external_network = s.key.ext_net;
  zone = s.key.zone;
  direction = s.key.dir;
  bytes = s.bytes;
  packets = s.packets;
}

abbrev pub from_total_wire : TotalSettledWire → SettledRecord TotalSettledKey
from_total_wire s = record {
  key = record { ext_net = gated s.external_network; zone = s.zone; dir = s.direction };
  bytes = s.bytes;
  packets = s.packets;
}

-- `fromTenantSettled`: an old file has the buckets under the legacy key
unfoldable pub from_tenant_settled : SnapshotWire → List (SettledRecord TenantSettledKey)
from_tenant_settled snap = elim snap.tenant_settled [
  | [] ↦ map from_tenant_wire snap.legacy_settled
  | s ∷ rest ↦ map from_tenant_wire (s ∷ rest)
]

-- The envelope that `Save` builds
unfoldable pub envelope : String → ℕ → WalSnapshot → ℕ → SnapshotWire
unfolding to_wire
envelope agent_build now s counters_reset_at = record {
  version = schema_version;
  agent_build = agent_build;
  written_at_ns = now;
  global_state = map to_wire s.flows;
  tenant_settled = map to_tenant_wire s.tenant;
  server_settled = map to_server_wire s.server;
  total_settled = map to_total_wire s.total;
  counters_reset_at_s = counters_reset_at;
  legacy_settled = [];
}

-- `json.Marshal` and `json.Unmarshal` on the envelope, with `none` for an error
pub record Json : Type 1 where
  pub Bytes : Type 0
  pub marshal : SnapshotWire → Option Bytes
  pub unmarshal : Bytes → Option SnapshotWire

-- What the program relies on of JSON: an envelope that was written is read back.
pub record IsJson (J : Json) : Type 0 where
  pub read_back : (s : SnapshotWire) (d : J.Bytes) → J.marshal s ≡ some d → J.unmarshal d ≡ some s

-- What `Load` finds in the file that it reads.
pub record Found : Type 0 where
  pub snapshot : WalSnapshot
  pub counters_reset_at : ℕ

unfoldable pub found : SnapshotWire → Found
unfolding from_tenant_settled
found snap = record {
  snapshot = record {
    flows = map from_wire snap.global_state;
    tenant = from_tenant_settled snap;
    server = map from_server_wire snap.server_settled;
    total = map from_total_wire snap.total_settled;
  };
  counters_reset_at = snap.counters_reset_at_s;
}

-- What `readAndParse` returns: a snapshot, or the kind of its error.
pub data Parsed : Type 0 where
  parsed : SnapshotWire → Parsed
  missing newer unreadable : Parsed

-- Its check of the version
unfoldable pub check_version : SnapshotWire → Parsed
check_version snap =
    if ltb schema_version snap.version
    then newer
    else if ltb snap.version 1
    then unreadable
    else parsed snap

abbrev pub checked : Option SnapshotWire → Parsed
checked none = unreadable
checked (some snap) = check_version snap
