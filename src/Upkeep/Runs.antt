-- ===== src/Upkeep/Runs.antt =====
-- The background work moves no total series, and keeps the kernel's map within the metadata map.
use lachesis.Base.{ℕ, refl}
use lachesis.State.Rows.{IsStore}
use lachesis.KernelMap.{IsMacMap}
use lachesis.Gc.Ghost.Collect.{sweep-total_exposed}
use lachesis.Gc.Ghost.Kernel.{IsEvictor, sweep-superset, sweep-IsSharded}
use lachesis.Flush.Exposed.{settle_lingering_ghosts-SameSeries, settle_lingering_ghosts-IsStore}
use lachesis.Reconcile.Once.Total.{SameTotal, SameTotal-trans, shown_by, reconcile_once-SameTotal}
use lachesis.Reconcile.Once.Known.{IsKnown, reconcile_once-IsKnown}
use lachesis.Upkeep.{
  Node, evictor, Agent, ghosts_of, Step, reconciles, sweeps, folds, Steps, stays, goes,
}

-- What the kernel's map of MACs does: an update brings in its own MAC only, and a deletion that succeeds
-- removes its MAC, and none brings one in.
pub record IsNode (N : Node) (holds : N.env.macs.Kernel → ℕ → Type 0) : Type 0 where
  pub updates : IsMacMap N.env.macs holds
  pub deletes : IsEvictor (evictor N) holds

module _ (N : Node) (holds : N.env.macs.Kernel → ℕ → Type 0) where
  -- The metadata map is well sharded and knows what the kernel holds; the store holds no key twice.
  pub record IsAgent (a : Agent N) : Type 0 where
    pub known : IsKnown N.env holds a.reconciler
    pub store : IsStore a.reconciler.world.state

  abbrev pub SameTotals : Agent N → Agent N → Type 0
  SameTotals a b =
      SameTotal (shown_by a.reconciler) a.reconciler.world.state (shown_by b.reconciler)
        b.reconciler.world.state

  module _ (law : IsNode N holds) where
    Step-SameTotals :
        {a b : Agent N} → Step N a b → IsAgent a → SameTotals a b × IsKnown N.env holds b.reconciler
    Step-SameTotals (reconciles a now grace result ready) h = (
      reconcile_once-SameTotal N.env now grace result a.reconciler h.store ready,
      reconcile_once-IsKnown N.env holds law.updates now grace result a.reconciler h.known,
    )
    Step-SameTotals (sweeps a now) h =
        let routers = a.reconciler.routers in
        (
          sweep-total_exposed (evictor N) N.flow_evictor routers now (ghosts_of N a) h.known.0
              h.store,
          (
            sweep-IsSharded (evictor N) N.flow_evictor routers now (ghosts_of N a) h.known.0,
            sweep-superset (evictor N) N.flow_evictor routers now (ghosts_of N a) h.known.0 holds
                law.deletes h.known.1,
          ),
        )
    Step-SameTotals (folds a) h =
        let w = a.reconciler.world in
        (
          (
            λ meter q.
                (settle_lingering_ghosts-SameSeries a.reconciler.routers w.meta w.state h.known.0
                    h.store meter).2
                  q,
            settle_lingering_ghosts-IsStore a.reconciler.routers w.meta w.state h.store,
          ),
          h.known,
        )

    -- However passes with any outcome, sweeps and folds follow one another: no total series moves, for bytes
    -- or for packets, and at the end, as at the start, the metadata map is well sharded and knows every
    -- MAC that the kernel holds, and no map of the store holds a key twice. An update of the kernel's map
    -- brings in its own MAC only, a deletion brings in none and removes its MAC if it succeeds, and a pass
    -- meets a store in which the row of every MAC that it wants is of a known MAC.
    pub Steps-SameTotals : {a b : Agent N} → Steps N a b → IsAgent a → SameTotals a b × IsAgent b
    Steps-SameTotals {a} stays h = (((λ meter q. refl), h.store), h)
    Steps-SameTotals {a} (goes {b} {c} run step) h =
        let (same, mid) = Steps-SameTotals run h in
        let (moved, known) = Step-SameTotals step mid in
        (
          SameTotal-trans (shown_by a.reconciler) (shown_by b.reconciler) (shown_by c.reconciler)
              a.reconciler.world.state b.reconciler.world.state c.reconciler.world.state same moved,
          record { known = known; store = moved.1 },
        )
