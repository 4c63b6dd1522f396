-- ===== src/Metadata.antt =====
-- internal/metadata: what is known of a VM's MAC address (schema.go, metadata.go), the labels that a
-- flow gets from it (resolver.go, routers.go), and the numbering of tenants (interner.go).
pub mod Sharded
pub mod Labels
pub mod Interner
use native.Mathlib.Decide.{ℕ_discrete}
use mathlib.Core.Bool.{decide}
use text.Mathlib.Text.{◌==◌ as str_eq}
use lachesis.Base.{
  ℕ, suc, ◌+◌, ◌%◌, String, Bool, true, false, not, ◌||◌, Option, none, some, List, [], ◌++◌,
  if◌then◌else◌, ◌==◌,
}
use lachesis.Base.Text.{String-discrete}
use lachesis.Base.GoMap.{GoMap, get, put, delete, length}
use lachesis.Bpf.{FlowKey, mac_key, zone_external, direction_ingress}
use lachesis.State.{Owner}
use mathlib.Core.Logic.{ite}

-- `delete_at` is a `time.Time`: an instant, with 0 for the zero value.
pub record TenantMeta : Type 0 where
  pub project_id : String
  pub server_id : String
  pub port_id : String
  pub external_network : String
  pub is_amphora : Bool
  pub delete_at : ℕ

Bool-discrete : Discrete Bool
Bool-discrete = hlevel

unfoldable pub TenantMeta-discrete : Discrete TenantMeta
unfolding String-discrete Bool-discrete
TenantMeta-discrete = hlevel (ℕ_discrete, String-discrete, Bool-discrete)

-- `SameAttribution`: the whole struct is compared, with the lifecycle field at zero
unfoldable pub same_attribution : TenantMeta → TenantMeta → Bool
unfolding TenantMeta-discrete
same_attribution m o =
    ite (TenantMeta-discrete (record m { delete_at = 0 }) (record o { delete_at = 0 })) true false

-- `ShardedMetadataMap`: an array of shards, of which those below `num_shards` are used
abbrev pub num_shards : ℕ
num_shards = 64

pub record ShardedMetadataMap : Type 0 where
  pub shards : ℕ → GoMap ℕ TenantMeta

abbrev pub new : ShardedMetadataMap
new = record { shards = λ i. [] }

-- `mac & (numShards-1)`
abbrev pub shard_for : ℕ → ℕ
shard_for mac = mac % num_shards

-- `s.shards[i].m = m`
abbrev pub set_shard : ShardedMetadataMap → ℕ → GoMap ℕ TenantMeta → ShardedMetadataMap
set_shard s i m = record { shards = λ j. ite (ℕ_discrete i j) m (s.shards j) }

unfoldable pub lookup : ShardedMetadataMap → ℕ → Option TenantMeta
lookup s mac = get ℕ_discrete (s.shards (shard_for mac)) mac

unfoldable pub insert : ShardedMetadataMap → ℕ → TenantMeta → ShardedMetadataMap
insert s mac meta = set_shard s (shard_for mac) (put ℕ_discrete (s.shards (shard_for mac)) mac meta)

-- `Delete`
unfoldable pub remove : ShardedMetadataMap → ℕ → ShardedMetadataMap
remove s mac = set_shard s (shard_for mac) (delete ℕ_discrete (s.shards (shard_for mac)) mac)

mark : ShardedMetadataMap → ℕ → ℕ → Option TenantMeta → ShardedMetadataMap × Bool
mark s mac at none = (s, false)
mark s mac at (some prior) = (
  set_shard s (shard_for mac)
      (put ℕ_discrete (s.shards (shard_for mac)) mac (record prior { delete_at = at })),
  true,
)

-- `MarkDelete`
unfoldable pub mark_delete : ShardedMetadataMap → ℕ → ℕ → ShardedMetadataMap × Bool
unfolding mark
mark_delete s mac at = mark s mac at (get ℕ_discrete (s.shards (shard_for mac)) mac)

-- The rows of the shards below `n`, in the order of `Range`.
unfoldable pub rows_below : ℕ → ShardedMetadataMap → GoMap ℕ TenantMeta
rows_below ℕ.zero s = []
rows_below (suc n) s = rows_below n s ++ s.shards n

-- What `Range` visits, if its callback never stops it.
unfoldable pub range : ShardedMetadataMap → GoMap ℕ TenantMeta
unfolding rows_below
range s = rows_below num_shards s

len_below : ℕ → ShardedMetadataMap → ℕ
len_below ℕ.zero s = 0
len_below (suc n) s = len_below n s + length (s.shards n)

-- `Len`
unfoldable pub len : ShardedMetadataMap → ℕ
unfolding len_below
len s = len_below num_shards s

abbrev pub unknown_tenant_id : String
unknown_tenant_id = "unknown"

abbrev pub no_external_network : String
no_external_network = "none"

pub record Attribution : Type 0 where
  pub tenant : String
  pub server_id : String
  pub port_id : String
  pub external_network : String

-- `VMMAC`
unfoldable pub vm_mac : FlowKey → ℕ
unfolding mac_key
vm_mac key = if key.direction == direction_ingress then mac_key key.src_mac else mac_key key.dst_mac

-- `PeerMAC`
unfoldable pub peer_mac : FlowKey → ℕ
unfolding mac_key
peer_mac key =
    if key.direction == direction_ingress then mac_key key.dst_mac else mac_key key.src_mac

-- `ExternalNetworkLabel`
unfoldable pub external_network_label : String → ℕ → String
external_network_label ext_net zone =
    if not (zone == zone_external) || str_eq ext_net "" then no_external_network else ext_net

-- `RouterMACs`: the map behind the pointer; `none` is a nil pointer
abbrev pub RouterMacs : Type 0
RouterMacs = Option (GoMap ℕ String)

-- `routers.Lookup`, and the miss of a nil pointer
unfoldable pub router_lookup : RouterMacs → ℕ → Option String
router_lookup none mac = none
router_lookup (some m) mac = get ℕ_discrete m mac

-- `FlowExternalLabel`
unfoldable pub flow_external_label : RouterMacs → String → FlowKey → String
unfolding external_network_label
flow_external_label routers vm_ext_net key =
    if not (key.dst_zone == zone_external)
    then no_external_network
    else elim (router_lookup routers (peer_mac key)) [
      | none ↦ external_network_label vm_ext_net key.dst_zone
      | some ext ↦ ext
    ]

-- The closure of `SettleResolver` on what `pick` returned.
abbrev pub complete : RouterMacs → FlowKey → Option TenantMeta → Option Owner
complete routers k none = none
complete routers k (some meta) = some (record {
  tenant = meta.project_id;
  ext_net = flow_external_label routers meta.external_network k;
  server = meta.server_id;
})

-- `SettleResolver`
unfoldable pub settle_resolver : RouterMacs → (FlowKey → Option TenantMeta) → FlowKey → Option Owner
settle_resolver routers pick k = complete routers k (pick k)

-- `Resolver.Resolve` on what the lookup returned
abbrev pub attribute : RouterMacs → FlowKey → Option TenantMeta → Attribution
attribute routers key none = record {
  tenant = unknown_tenant_id;
  server_id = "";
  port_id = "";
  external_network = no_external_network;
}
attribute routers key (some meta) = record {
  tenant = meta.project_id;
  server_id = meta.server_id;
  port_id = meta.port_id;
  external_network = flow_external_label routers meta.external_network key;
}

-- `Resolver.Resolve`
unfoldable pub resolve : ShardedMetadataMap → RouterMacs → FlowKey → Attribution
unfolding lookup vm_mac
resolve m routers key = attribute routers key (lookup m (vm_mac key))
