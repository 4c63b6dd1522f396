-- ===== src/Reconcile.antt =====
-- internal/reconcile/mac.go: the metadata map and the kernel's `mac_tenant_map` follow the ports of a
-- fresh snapshot. What the snapshot wants is an argument, `desired`; `MacWriter` is `MacMap`.
pub mod Desired
pub mod Once
pub mod Routers
pub mod Macs
pub mod Learning
pub mod Billing
pub mod Kernel
pub mod Settled
use native.Mathlib.Decide.{ℕ_discrete}
use lachesis.Base.{
  ℕ, ◌+◌, Option, none, some, List, [], ◌∷◌, ◌++◌, Bool, true, false, not, if◌then◌else◌, ◌==◌,
}
use lachesis.Base.GoMap.{GoMap, get, length}
use lachesis.Bpf.{FlowKey}
use lachesis.State.{GlobalState, settle, settle_rebase}
use lachesis.Metadata.{
  TenantMeta, ShardedMetadataMap, RouterMacs, lookup, insert, mark_delete, range, vm_mac,
  settle_resolver, same_attribution,
}
use lachesis.Metadata.Interner.{TenantInterner, intern}
use lachesis.KernelMap.{MacMap, tenant_value}

-- What a pass works on.
pub record World (T : MacMap) : Type 0 where
  pub meta : ShardedMetadataMap
  pub state : GlobalState
  pub interner : TenantInterner
  pub kernel : T.Kernel

-- The loop of `learnMACs`: the world, and the two counts.
pub record Learned (T : MacMap) : Type 0 where
  pub world : World T
  pub inserted : ℕ
  pub changed : ℕ

-- `macDelta`
pub record MacDelta : Type 0 where
  pub inserted : ℕ
  pub changed : ℕ
  pub ghosted : ℕ

-- The closure of `settleAttributionChange`.
abbrev pub pick_mac : ℕ → TenantMeta → FlowKey → Option TenantMeta
pick_mac mac old k = if not (vm_mac k == mac) then none else some old

-- `settleAttributionChange`, with the settler wired
unfoldable pub settle_attribution_change : RouterMacs → ℕ → TenantMeta → GlobalState → GlobalState
settle_attribution_change routers mac old g =
    (settle settle_rebase (settle_resolver routers (pick_mac mac old)) g).0

module _ (T : MacMap) where
  -- `insertMAC`; the error of the kernel's write is logged
  unfoldable pub insert_mac : ℕ → TenantMeta → World T → World T
  insert_mac mac meta w =
      let (tid, interner) = intern w.interner meta.project_id in
      record w {
        meta = insert w.meta mac (record meta { delete_at = 0 });
        interner = interner;
        kernel = (T.update w.kernel mac (tenant_value tid meta.is_amphora)).1;
      }

  -- One round of `learnMACs`, on what is known of the MAC.
  unfoldable pub learn_mac : RouterMacs → ℕ → TenantMeta → Option TenantMeta → Learned T → Learned T
  unfolding insert_mac settle_attribution_change
  learn_mac routers mac want none s = record s {
    world = insert_mac mac want s.world;
    inserted = s.inserted + 1;
  }
  learn_mac routers mac want (some cur) s =
      let settled : World T = record (s.world) {
        state = settle_attribution_change routers mac cur s.world.state;
      } in
      if not (same_attribution cur want)
      then record s { world = insert_mac mac want settled; changed = s.changed + 1 }
      else if not (cur.delete_at == 0)
      then record s { world = insert_mac mac want s.world; changed = s.changed + 1 }
      else s

  unfoldable pub learn_rows : RouterMacs → GoMap ℕ TenantMeta → Learned T → Learned T
  unfolding learn_mac
  learn_rows routers [] s = s
  learn_rows routers ((mac, want) ∷ desired) s =
      learn_rows routers desired (learn_mac routers mac want (lookup s.world.meta mac) s)

  -- `learnMACs`
  unfoldable pub learn_macs : RouterMacs → GoMap ℕ TenantMeta → World T → Learned T
  unfolding learn_rows
  learn_macs routers desired w =
      learn_rows routers desired (record { world = w; inserted = 0; changed = 0 })

-- `gone = append(gone, mac)`, if the snapshot does not want the MAC
abbrev pub add_gone : Option TenantMeta → ℕ → List ℕ → List ℕ
add_gone (some want) mac gone = gone
add_gone none mac gone = gone ++ (mac ∷ [])

-- The callback of `ghostGoneMACs` on the rows of `Range`: the gone MACs, and how many are live.
unfoldable pub gone_macs : GoMap ℕ TenantMeta → GoMap ℕ TenantMeta → List ℕ × ℕ → List ℕ × ℕ
gone_macs desired [] s = s
gone_macs desired ((mac, m) ∷ rows) (gone, live) = gone_macs desired rows (
    if m.delete_at == 0
    then (add_gone (get ℕ_discrete desired mac) mac gone, live + 1)
    else (gone, live))

-- The loop that marks them.
unfoldable pub mark_all : ℕ → List ℕ → ShardedMetadataMap → ShardedMetadataMap
mark_all at [] m = m
mark_all at (mac ∷ gone) m = mark_all at gone (mark_delete m mac at).0

-- `ghostGoneMACs`: the map, and the numbers of the ghosted and the live; `grace` is `GhostGrace`
unfoldable pub ghost_gone_macs :
    ℕ → ℕ → GoMap ℕ TenantMeta → ShardedMetadataMap → ShardedMetadataMap × ℕ × ℕ
unfolding gone_macs mark_all
ghost_gone_macs now grace desired m =
    let (gone, live) = gone_macs desired (range m) ([], 0) in
    (mark_all (now + grace) gone m, length gone, live)

-- `reconcileMACs`, with the metadata map and the kernel's writer wired
unfoldable pub reconcile_macs :
    (T : MacMap) → RouterMacs → ℕ → ℕ → GoMap ℕ TenantMeta → World T → World T × MacDelta
unfolding learn_macs ghost_gone_macs
reconcile_macs T routers now grace desired w =
    let learned = learn_macs T routers desired w in
    let (meta, ghosted, live) = ghost_gone_macs now grace desired learned.world.meta in
    (
      record (learned.world) { meta = meta },
      record { inserted = learned.inserted; changed = learned.changed; ghosted = ghosted },
    )
