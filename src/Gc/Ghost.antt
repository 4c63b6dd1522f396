-- ===== src/Gc/Ghost.antt =====
-- internal/gc/ghost.go: the sweep of lingering ghosts. The kernel's maps are parameters of it.
pub mod Kernel
pub mod Exposed
pub mod Collect
use native.Mathlib.Decide.{ℕ_discrete}
use lachesis.Base.{
  ℕ, suc, ◌+◌, Bool, true, false, Option, none, some, List, [], ◌∷◌, if◌then◌else◌, ◌==◌, ltb,
}
use lachesis.Base.GoMap.{GoMap, get, put, length}
use lachesis.Bpf.{FlowKey}
use lachesis.State.{GlobalState, settle, settle_evict}
use lachesis.Metadata.{
  TenantMeta, ShardedMetadataMap, RouterMacs, lookup, remove, range, vm_mac, settle_resolver,
}

-- `map[uint64]struct{}`
abbrev pub MacSet : Type 0
MacSet = GoMap ℕ (Unit {0})

-- `MacEvictor`: the kernel's `mac_tenant_map`, and `Delete`, which may fail
pub record MacEvictor : Type 1 where
  pub Kernel : Type 0
  pub evict : Kernel → ℕ → Bool × Kernel

-- `MacFlowEvictor`: the kernel's `telemetry_map`, and `DeleteFlowsForMACs` with the count it returns
pub record MacFlowEvictor : Type 1 where
  pub Flows : Type 0
  pub delete_flows_for_macs : Flows → MacSet → ℕ × Flows

-- One step of `classify`, on an entry with the deadline `at`: `DeleteAt.After(now)` is `now < at`
classify_row : ℕ → ℕ → ℕ → List ℕ × ℕ → List ℕ × ℕ
classify_row now mac at (expired, active) =
    if at == 0
    then (expired, active)
    else if ltb now at
    then (expired, suc active)
    else (mac ∷ expired, active)

-- `classify`: the MACs whose grace is over, and the number of those still inside it
unfoldable pub classify : ℕ → GoMap ℕ TenantMeta → List ℕ × ℕ
unfolding classify_row
classify now [] = ([], 0)
classify now ((mac, meta) ∷ rows) = classify_row now mac meta.delete_at (classify now rows)

module _ (E : MacEvictor) where
  open E use {Kernel, evict}

  -- `deleteKernelMACs`: the MACs whose kernel entry is gone
  unfoldable pub delete_kernel_macs : List ℕ → MacSet × Kernel → MacSet × Kernel
  delete_kernel_macs [] s = s
  delete_kernel_macs (mac ∷ expired) (swept, kernel) =
      let (gone, kernel') = evict kernel mac in
      delete_kernel_macs expired (if gone then put ℕ_discrete swept mac tt else swept, kernel')

-- `if meta, ok := g.meta.Lookup(mac); ok { metas[mac] = meta }`
unfoldable pub collect_meta : Option TenantMeta → ℕ → GoMap ℕ TenantMeta → GoMap ℕ TenantMeta
collect_meta none mac metas = metas
collect_meta (some meta) mac metas = put ℕ_discrete metas mac meta

-- The loop of `settleSwept` that collects the entries of the swept MACs.
unfoldable pub collect_metas : ShardedMetadataMap → MacSet → GoMap ℕ TenantMeta → GoMap ℕ TenantMeta
unfolding collect_meta
collect_metas m [] metas = metas
collect_metas m ((mac, _) ∷ swept) metas =
    collect_metas m swept (collect_meta (lookup m mac) mac metas)

-- `settleSwept`: the new state, and the rows that folded
unfoldable pub settle_swept :
    RouterMacs → ShardedMetadataMap → MacSet → GlobalState → GlobalState × ℕ
unfolding collect_metas
settle_swept routers m [] g = (g, 0)
settle_swept routers m (row ∷ swept) g =
    let metas = collect_metas m (row ∷ swept) [] in
    settle settle_evict (settle_resolver routers (λ k. get ℕ_discrete metas (vm_mac k))) g

-- `deleteUserspace`
unfoldable pub delete_userspace : MacSet → ShardedMetadataMap → ShardedMetadataMap
delete_userspace [] m = m
delete_userspace ((mac, _) ∷ swept) m = delete_userspace swept (remove m mac)

-- `evictResidualFlows`
unfoldable pub evict_residual_flows : (F : MacFlowEvictor) → MacSet → F.Flows → ℕ × F.Flows
evict_residual_flows F [] flows = (0, flows)
evict_residual_flows F (row ∷ swept) flows = F.delete_flows_for_macs flows (row ∷ swept)

-- What one sweep works on, and what it reports.
pub record World (E : MacEvictor) (F : MacFlowEvictor) : Type 0 where
  pub meta : ShardedMetadataMap
  pub state : GlobalState
  pub kernel : E.Kernel
  pub flows : F.Flows

pub record Report : Type 0 where
  pub evicted : ℕ
  pub residual : ℕ
  pub settled : ℕ
  pub active : ℕ

-- `sweep`, with the settler wired
unfoldable pub sweep :
    (E : MacEvictor) (F : MacFlowEvictor) → RouterMacs → ℕ → World E F → World E F × Report
unfolding classify delete_kernel_macs settle_swept delete_userspace evict_residual_flows
sweep E F routers now w =
    let (expired, active) = classify now (range w.meta) in
    let (swept, kernel) = delete_kernel_macs E expired ([], w.kernel) in
    let (residual, flows) = evict_residual_flows F swept w.flows in
    let (state, settled) = settle_swept routers w.meta swept w.state in
    (
      record {
        meta = delete_userspace swept w.meta;
        state = state;
        kernel = kernel;
        flows = flows;
      },
      record { evicted = length swept; residual = residual; settled = settled; active = active },
    )
