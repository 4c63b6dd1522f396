-- ===== src/Upkeep.antt =====
-- The background work on the agent's maps, as steps of one state: passes of the reconciler
-- (internal/reconcile/reconcile.go), sweeps of the ghosts (internal/gc/ghost.go), and the fold of lingering
-- ghosts before the last flush (internal/agent/walflush.go). One kernel map serves the reconciler and the
-- sweep.
pub mod Runs
use lachesis.Base.{ℕ, ◌≡◌, ◌≢◌, Bool, Option, some}
use lachesis.State.Rows.{IsStore}
use lachesis.Metadata.{lookup}
use lachesis.Gc.Ghost
use lachesis.Gc.Ghost.{MacEvictor, MacFlowEvictor, sweep}
use lachesis.Flush.{settle_lingering_ghosts}
use lachesis.Reconcile.Once.{SyncResult, Env, Reconciler, reconcile_once}
use lachesis.Reconcile.Once.Total.{Ready}
use lachesis.Reconcile.Once.Known.{IsKnown}

-- The parameters of a pass and of a sweep.
pub record Node : Type 1 where
  pub env : Env
  pub evict : env.macs.Kernel → ℕ → Bool × env.macs.Kernel
  pub flow_evictor : MacFlowEvictor

abbrev pub evictor : Node → MacEvictor
evictor N = record { Kernel = N.env.macs.Kernel; evict = N.evict }

pub record Agent (N : Node) : Type 0 where
  pub reconciler : Reconciler N.env
  pub flows : N.flow_evictor.Flows

module _ (N : Node) where
  -- What a sweep reads of the agent.
  abbrev pub ghosts_of : Agent N → Ghost.World (evictor N) N.flow_evictor
  ghosts_of a = record {
    meta = a.reconciler.world.meta;
    state = a.reconciler.world.state;
    kernel = a.reconciler.world.kernel;
    flows = a.flows;
  }

  abbrev pub with_ghosts : Ghost.World (evictor N) N.flow_evictor → Agent N → Agent N
  with_ghosts w a = record {
    reconciler = record (a.reconciler) {
      world = record (a.reconciler.world) { meta = w.meta; state = w.state; kernel = w.kernel };
    };
    flows = w.flows;
  }

  abbrev pub reconciled : ℕ → ℕ → Option SyncResult → Agent N → Agent N
  reconciled now grace result a = record a {
    reconciler = (reconcile_once N.env now grace result a.reconciler).1;
  }

  abbrev pub swept : ℕ → Agent N → Agent N
  swept now a =
      with_ghosts (sweep (evictor N) N.flow_evictor a.reconciler.routers now (ghosts_of a)).0 a

  abbrev pub folded : Agent N → Agent N
  folded a =
      let w = a.reconciler.world in
      let (state, settled) = settle_lingering_ghosts a.reconciler.routers w.meta w.state in
      record a { reconciler = record (a.reconciler) { world = record w { state = state } } }

  -- One step. A pass meets a store in which the row of every MAC that it wants is of a known MAC.
  pub data Step : Agent N → Agent N → Type 0 where
    reconciles :
        (a : Agent N) (now grace : ℕ) (result : Option SyncResult)
        → ((r : SyncResult) → result ≡ some r → Ready N.env now grace r a.reconciler)
        → Step a (reconciled now grace result a)
    sweeps : (a : Agent N) (now : ℕ) → Step a (swept now a)
    folds : (a : Agent N) → Step a (folded a)

  -- Steps in any order.
  pub data Steps (a : Agent N) : Agent N → Type 0 where
    stays : Steps a a
    goes : {b c : Agent N} → Steps a b → Step b c → Steps a c
