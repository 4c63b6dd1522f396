-- ===== src/Metadata/Labels.antt =====
-- The label tuples under which internal/metrics/collector.go emits a flow, from the attribution of
-- internal/metadata/resolver.go, and how the folds of internal/metadata/routers.go agree with them.
use lachesis.Base.{◌≡◌, ap, Option, some, Option-cases, inl, inr}
use lachesis.Bpf.{FlowKey}
use lachesis.State.Prune.{total_key}
use lachesis.State.{Owner, TenantSettledKey, ServerSettledKey, TotalSettledKey, tenant_key}
use lachesis.State.Exposure.{server_key?}
use lachesis.Metadata.{
  TenantMeta, ShardedMetadataMap, RouterMacs, Attribution, lookup, vm_mac, resolve, settle_resolver,
}

abbrev pub owner_of : Attribution → Owner
owner_of a = record { tenant = a.tenant; ext_net = a.external_network; server = a.server_id }

-- The tenant series of a flow, its server series if it has one, and its total series.
abbrev pub tenant_label : ShardedMetadataMap → RouterMacs → FlowKey → Option TenantSettledKey
tenant_label m routers k = some (tenant_key (owner_of (resolve m routers k)) k)

abbrev pub server_label : ShardedMetadataMap → RouterMacs → FlowKey → Option ServerSettledKey
server_label m routers k = server_key? (owner_of (resolve m routers k)) k

abbrev pub total_label : ShardedMetadataMap → RouterMacs → FlowKey → Option TotalSettledKey
total_label m routers k = some (total_key (tenant_key (owner_of (resolve m routers k)) k))

pub owner_of-settle_resolver :
    (m : ShardedMetadataMap) (routers : RouterMacs) (pick : FlowKey → Option TenantMeta)
    → ((k : FlowKey) (meta : TenantMeta) → pick k ≡ some meta → lookup m (vm_mac k) ≡ some meta)
    → (k : FlowKey) (o : Owner) → settle_resolver routers pick k ≡ some o
    → owner_of (resolve m routers k) ≡ o
unfolding settle_resolver resolve
owner_of-settle_resolver m routers pick known k o e = elim (Option-cases (pick k)) [
  | inl miss ↦ cc
  | inr (meta, hit) ↦ cc (known k meta hit)
]

-- If a fold picks for a flow only the entry that the metadata map has for its MAC, then a row that
-- resolves has, as the Collector labels it, the tenant key and the server key of its owner.
pub settle_resolver-labels :
    (m : ShardedMetadataMap) (routers : RouterMacs) (pick : FlowKey → Option TenantMeta)
    → ((k : FlowKey) (meta : TenantMeta) → pick k ≡ some meta → lookup m (vm_mac k) ≡ some meta)
    → (k : FlowKey) (o : Owner) → settle_resolver routers pick k ≡ some o
    → (tenant_label m routers k ≡ some (tenant_key o k))
      × (server_label m routers k ≡ server_key? o k)
settle_resolver-labels m routers pick known k o e =
    let same = owner_of-settle_resolver m routers pick known k o e in
    (ap (λ x. some (tenant_key x k)) same, ap (λ x. server_key? x k) same)
