-- ===== src/Restart.antt =====
-- internal/agent/walflush.go: the flush of the store to the log, and the boot that reads it back.
pub mod Unchanged
pub mod Changed
pub mod Kept
use mathlib.Core.Logic.{ite}
use text.Mathlib.Text.{◌==◌ as str_eq}
use lachesis.Base.{
  ℕ, String, Bool, true, false, Option, none, some, List, [], ◌∷◌, map, ◌==◌, if◌then◌else◌,
}
use lachesis.Base.GoMap.{GoMap, get, put}
use lachesis.Bpf.{FlowKey, FlowKey-discrete}
use lachesis.State
use lachesis.State.{GlobalState, Owner, Record, Resolve, Owner-discrete, settle, settle_rebase}
use lachesis.State.Snapshot.{WalSnapshot, snapshot_for_wal, restore_all}
use lachesis.Metadata.{ShardedMetadataMap, RouterMacs, lookup, vm_mac, settle_resolver}
use lachesis.Wal.{Json, Found}
use lachesis.Wal.Files.{
  Files, Outcomes, Phase, save, load, Loaded, loaded, empty, refused, failed, quarantine_file,
}

-- `ownerResolver`
unfoldable pub owner_resolver : RouterMacs → ShardedMetadataMap → Resolve
unfolding settle_resolver
owner_resolver routers m = settle_resolver routers (λ k. lookup m (vm_mac k))

abbrev pub owner_or_zero : Option Owner → Owner
owner_or_zero none = record { tenant = ""; ext_net = ""; server = "" }
owner_or_zero (some o) = o

-- The loop of `flushWAL`, on one record
abbrev pub stamp : Resolve → Record → Record
stamp resolve r = record r { owner = owner_or_zero (resolve r.key) }

-- What `flushWAL` hands to `Save`
unfoldable pub flushed : Resolve → GlobalState → WalSnapshot
unfolding snapshot_for_wal
flushed resolve g = record (snapshot_for_wal g) {
  flows = map (stamp resolve) (snapshot_for_wal g).flows;
}

-- `flushWAL`
unfoldable pub flush_wal :
    (J : Json) → Outcomes J → String → ℕ → ℕ → Resolve → GlobalState → Files J → Phase × Files J
unfolding save flushed
flush_wal J io agent_build now counters_reset_at resolve g f =
    save J io agent_build now (flushed resolve g) counters_reset_at f

-- One round of the loop of `settleChangedOwners`, on what the flow resolves to now
abbrev pub add_owner : Option Owner → Record → GoMap FlowKey Owner → GoMap FlowKey Owner
add_owner none r changed = put FlowKey-discrete changed r.key r.owner
add_owner (some o) r changed =
    ite (Owner-discrete o r.owner) changed (put FlowKey-discrete changed r.key r.owner)

abbrev pub add_changed : Option Owner → Record → GoMap FlowKey Owner → GoMap FlowKey Owner
add_changed now r changed = if str_eq r.owner.tenant "" then changed else add_owner now r changed

unfoldable pub changed_owners : Resolve → List Record → GoMap FlowKey Owner → GoMap FlowKey Owner
changed_owners resolve [] changed = changed
changed_owners resolve (r ∷ rs) changed =
    changed_owners resolve rs (add_changed (resolve r.key) r changed)

abbrev pub settle_changed : GoMap FlowKey Owner → GlobalState → GlobalState
settle_changed [] g = g
settle_changed (row ∷ changed) g =
    (settle settle_rebase (λ k. get FlowKey-discrete (row ∷ changed) k) g).0

-- `settleChangedOwners`
unfoldable pub settle_changed_owners : Resolve → List Record → GlobalState → GlobalState
unfolding changed_owners
settle_changed_owners resolve records g = settle_changed (changed_owners resolve records []) g

-- The agent after `restoreFromWAL`.
pub record Booted (J : Json) : Type 0 where
  pub state : GlobalState
  pub files : Files J
  pub counters_reset_at : ℕ

-- What a boot meets: the outcomes of the calls, the time in both units, and what flows resolve to.
pub record Boot (J : Json) : Type 0 where
  pub renamed : Bool
  pub io : Outcomes J
  pub agent_build : String
  pub now_ns : ℕ
  pub now_s : ℕ
  pub resolve : Resolve

module _ (J : Json) where
  -- `stampCountersReset`: it flushes at once, and goes on if the flush fails
  unfoldable pub stamp_counters_reset : Boot J → GlobalState → Files J → Booted J
  unfolding flush_wal
  stamp_counters_reset b g f = record {
    state = g;
    files = (flush_wal J b.io b.agent_build b.now_ns b.now_s b.resolve g f).1;
    counters_reset_at = b.now_s;
  }

  -- The seeds of `restoreFromWAL` and the fold after them
  unfoldable pub seeded : Resolve → Found → GlobalState
  unfolding settle_changed_owners restore_all
  seeded resolve found =
      settle_changed_owners resolve found.snapshot.flows (restore_all found.snapshot State.new)

  -- Its end, with the stored epoch or a new one
  unfoldable pub resume : Boot J → Found → Files J → Booted J
  unfolding stamp_counters_reset seeded
  resume b found f =
      let g = seeded b.resolve found in
      if found.counters_reset_at == 0
      then stamp_counters_reset b g f
      else record { state = g; files = f; counters_reset_at = found.counters_reset_at }

  -- `restoreFromWAL` on what `Load` returned; `none` refuses the boot
  unfoldable pub boot_from : Boot J → Files J → Loaded J → Option (Booted J)
  unfolding resume quarantine_file
  boot_from b f refused = none
  boot_from b f (failed true) = none
  boot_from b f (failed false) =
      some (stamp_counters_reset b State.new (quarantine_file J b.renamed f))
  boot_from b f empty = some (stamp_counters_reset b State.new f)
  boot_from b f (loaded false found) = some (resume b found f)
  boot_from b f (loaded true found) = some (resume b found (quarantine_file J b.renamed f))

  -- `restoreFromWAL`, with the log enabled
  unfoldable pub restore_from_wal : Boot J → Files J → Option (Booted J)
  unfolding load boot_from
  restore_from_wal b f = boot_from b f (load J f)
