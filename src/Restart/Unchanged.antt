-- ===== src/Restart/Unchanged.antt =====
-- internal/agent/walflush.go: a boot on what a flush wrote, when no flow changed its owner.
use text.Mathlib.Text.{◌==◌ as str_eq}
use mathlib.Core.Logic.{if_pos}
use lachesis.Base.{
  ℕ, ◌≡◌, ◌≢◌, refl, sym, ap, ◌∙◌, String, false, Option, none, some, List, [], ◌∷◌, map, ◌==◌,
  arith, Bool-cases, inl, inr,
}
use lachesis.Base.GoMap.{GoMap, put}
use lachesis.Bpf.{FlowKey, FlowKey-discrete}
use lachesis.State
use lachesis.State.{GlobalState, Counter, Owner, Record, Resolve, Owner-discrete}
use lachesis.State.Rows.{IsStore}
use lachesis.State.Snapshot.{
  records, restore_rows, restore, snapshot_for_wal, restore_all, restore_all-snapshot_for_wal,
}
use lachesis.Wal.{Json, IsJson}
use lachesis.Wal.Files.{Files, Outcomes, ended, save, loaded}
use lachesis.Wal.Loaded.{IsWritable}
use lachesis.Wal.Saved.{load-save}
use lachesis.Restart.{
  owner_or_zero, stamp, flushed, flush_wal, add_changed, changed_owners, settle_changed_owners,
  Boot, seeded, resume, boot_from, restore_from_wal,
}

-- The owners of the rows do not matter for the restore.
restore_rows-stamp :
    (resolve : Resolve) (rs : List Record) (rows : GoMap FlowKey Counter)
    → restore_rows (map (stamp resolve) rs) rows ≡ restore_rows rs rows
unfolding restore_rows
restore_rows-stamp resolve [] rows = refl
restore_rows-stamp resolve (r ∷ rs) rows = restore_rows-stamp resolve rs _

pub restore_all-flushed :
    (resolve : Resolve) (g : GlobalState)
    → IsStore g
    → restore_all (flushed resolve g) State.new ≡ g
unfolding restore_all flushed restore snapshot_for_wal
restore_all-flushed resolve g h =
    rw (restore_rows-stamp resolve (records g.counts) []) (restore_all-snapshot_for_wal g h)

-- Each row of the store has the owner that it had.
abbrev pub SameOwners : Resolve → Resolve → GoMap FlowKey Counter → Type 0
SameOwners resolve resolve' [] = Unit
SameOwners resolve resolve' ((k, c) ∷ rows) =
    (resolve' k ≡ resolve k) × SameOwners resolve resolve' rows

add_changed-same :
    (now : Option Owner) (r : Record) (changed : GoMap FlowKey Owner)
    → r.owner ≡ owner_or_zero now
    → add_changed now r changed ≡ changed
add_changed-same none r changed e = rw e refl
add_changed-same (some o) r changed e = elim (Bool-cases (str_eq r.owner.tenant "")) [
  | inl empty ↦ rw empty refl
  | inr named ↦ rw named (
      if_pos (Owner-discrete o r.owner) (sym e) changed
        (put FlowKey-discrete changed r.key r.owner))
]

changed_owners-flushed :
    (resolve resolve' : Resolve) (rows : GoMap FlowKey Counter)
    → SameOwners resolve resolve' rows
    → changed_owners resolve' (map (stamp resolve) (records rows)) [] ≡ []
unfolding changed_owners records
changed_owners-flushed resolve resolve' [] same = refl
changed_owners-flushed resolve resolve' ((k, c) ∷ rows) same =
    ap (changed_owners resolve' (map (stamp resolve) (records rows))) (
      add_changed-same (resolve' k)
        (record { key = k; counter = c; owner = owner_or_zero (resolve k) }) []
        (ap owner_or_zero (sym same.0)))
    ∙ changed_owners-flushed resolve resolve' rows same.1

module _ (J : Json) where
  seeded-flushed :
      (resolve resolve' : Resolve) (g : GlobalState) (at : ℕ)
      → IsStore g
      → SameOwners resolve resolve' g.counts
      → seeded J resolve' (record { snapshot = flushed resolve g; counters_reset_at = at }) ≡ g
  unfolding seeded settle_changed_owners flushed snapshot_for_wal
  seeded-flushed resolve resolve' g at store same =
      rw (changed_owners-flushed resolve resolve' g.counts same)
        (restore_all-flushed resolve g store)

  boot_from-flushed :
      (resolve : Resolve) (g : GlobalState) (at : ℕ) (b : Boot J) (f : Files J)
      → IsStore g
      → SameOwners resolve b.resolve g.counts
      → at ≢ 0
      → boot_from J b f
          (loaded false (record { snapshot = flushed resolve g; counters_reset_at = at }))
        ≡ some (record { state = g; files = f; counters_reset_at = at })
  unfolding boot_from resume
  boot_from-flushed resolve g at b f store same ne = elim (Bool-cases (at == 0)) [
    | inl zero_at ↦ ground arith
    | inr nonzero ↦ rw nonzero (cc (seeded-flushed resolve b.resolve g at store same))
  ]

  -- If a flush reports no error, and each row of the store has the same owner at the next boot, then the boot
  -- does not refuse: it has the store that was flushed, with its baselines and settled buckets, the epoch of
  -- the flush, which is not zero, and it leaves the files as they are.
  pub restore_from_wal-flush_wal :
      (io : Outcomes J) (agent_build : String) (now at : ℕ) (resolve : Resolve) (g : GlobalState)
      → (f : Files J) (b : Boot J) → IsJson J
      → IsStore g
      → IsWritable (flushed resolve g)
      → SameOwners resolve b.resolve g.counts
      → at ≢ 0
      → (flush_wal J io agent_build now at resolve g f).0 ≡ ended none
      → restore_from_wal J b (flush_wal J io agent_build now at resolve g f).1
        ≡ some (record {
          state = g;
          files = (flush_wal J io agent_build now at resolve g f).1;
          counters_reset_at = at;
        })
  unfolding flush_wal restore_from_wal
  restore_from_wal-flush_wal io agent_build now at resolve g f b law store writable same ne h =
      let f' = (save J io agent_build now (flushed resolve g) at f).1 in
      rw (load-save J io agent_build now at (flushed resolve g) f law writable h)
        (boot_from-flushed resolve g at b f' store same ne)
