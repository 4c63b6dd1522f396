-- ===== src/Reconcile/Once/Known.antt =====
-- internal/reconcile/reconcile.go: a pass keeps the metadata map well sharded, and the kernel's map within it.
use lachesis.Base.{ℕ, ◌≢◌, Option, none, some, Bool-cases, inl, inr}
use lachesis.Metadata.{lookup}
use lachesis.Metadata.Sharded.{IsSharded}
use lachesis.KernelMap.{IsMacMap}
use lachesis.Trie.{apply_trie_delta}
use lachesis.Reconcile.Macs.{reconcile_macs-IsSharded}
use lachesis.Reconcile.Kernel.{reconcile_macs-known}
use lachesis.Reconcile.Desired.{desired_macs}
use lachesis.Reconcile.Once.{SyncResult, Env, Reconciler, apply_rest, apply_result, reconcile_once}

module _ (E : Env) (holds : E.macs.Kernel → ℕ → Type 0) where
  -- The metadata map is well sharded, and knows every MAC that the kernel holds.
  abbrev pub IsKnown : Reconciler E → Type 0
  IsKnown s =
      IsSharded s.world.meta × ((q : ℕ) → holds s.world.kernel q → lookup s.world.meta q ≢ none)

  module _ (law : IsMacMap E.macs holds) (now grace : ℕ) where
    apply_rest-IsKnown :
        (r : SyncResult) (s : Reconciler E) → IsKnown s → IsKnown (apply_rest E now grace r s)
    unfolding apply_rest
    apply_rest-IsKnown r s (sharded, within) =
        let desired = desired_macs E.ip E.equal_fold r.snapshot in
        (
          reconcile_macs-IsSharded E.macs s.routers now grace desired s.world sharded,
          reconcile_macs-known E.macs holds law s.routers now grace desired s.world within,
        )

    apply_result-IsKnown :
        (r : SyncResult) (s : Reconciler E) → IsKnown s → IsKnown (apply_result E now grace r s).1
    unfolding apply_result
    apply_result-IsKnown r s known =
        let (pass, interner) =
          apply_trie_delta E.trie E.native_endian s.committed r.entries s.world.interner s.trie in
        elim (Bool-cases pass.failed) [
          | inl failed ↦ rw failed known
          | inr done ↦ rw done (
              apply_rest-IsKnown r
                (record s { trie = pass.kernel; world = record (s.world) { interner = interner } })
                known)
        ]

    -- A pass keeps that, whatever its outcome.
    pub reconcile_once-IsKnown :
        (result : Option SyncResult) (s : Reconciler E)
        → IsKnown s
        → IsKnown (reconcile_once E now grace result s).1
    unfolding reconcile_once
    reconcile_once-IsKnown none s known = known
    reconcile_once-IsKnown (some r) s known = apply_result-IsKnown r s known
