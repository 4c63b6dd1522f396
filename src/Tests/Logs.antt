-- ===== src/Tests/Logs.antt =====
-- The theorems on the log: the two rows flushed over a primary and its backup, and a boot after it.
use lachesis.Base.{◌≡◌, ◌≢◌, refl, arith, true, false, none, some, [], inr}
use lachesis.State.Snapshot.{WalSnapshot, snapshot_for_wal}
use lachesis.Wal.{Json, IsJson, SnapshotWire, envelope, found}
use lachesis.Wal.Files.{Files, Outcomes, writing, calls, save, load, loaded}
use lachesis.Wal.Loaded.{IsOwner, IsWritable}
use lachesis.Wal.Crash.{Survives, calls-Survives}
use lachesis.Wal.Saved.{load-save}
use lachesis.Restart.{Boot, flushed, flush_wal, restore_from_wal}
use lachesis.Restart.Unchanged.{restore_from_wal-flush_wal}
use lachesis.Tests.Data.{two_rows, two_rows-IsStore, red, to_red}

-- A JSON whose texts are the envelopes.
abbrev pub json : Json
json = record { Bytes = SnapshotWire; marshal = λ s. some s; unmarshal = λ d. some d }

json-IsJson : IsJson json
json-IsJson = record { read_back = λ s d e. cc e }

abbrev snapshot : WalSnapshot
snapshot = flushed to_red two_rows

pub text_ne : red.tenant ≢ ""
text_ne e = cc e

named : IsOwner red
named e = absurd (text_ne e)

labelled : red.ext_net ≢ ""
labelled e = cc e

snapshot-IsWritable : IsWritable snapshot
unfolding flushed snapshot_for_wal
snapshot-IsWritable = record {
  owners = (named, (named, tt));
  tenant = (labelled, tt);
  server = tt;
  total = tt;
}

-- What an earlier flush wrote.
abbrev old : SnapshotWire
old = envelope "abc" 3 (record { flows = []; tenant = []; server = []; total = [] }) 1

abbrev older : SnapshotWire
older = record old { version = 8 }

abbrev files : Files json
files = record { current = some old; bak = some older; tmp = none; quarantine = none }

-- Each call succeeds.
abbrev succeeds : Outcomes json
succeeds = record { write_error = none; torn = none; rotated = true; placed = true; synced = true }

-- The rename to the path fails.
abbrev unplaced : Outcomes json
unplaced = record succeeds { placed = false }

abbrev boot : Boot json
boot = record {
  renamed = true;
  io = succeeds;
  agent_build = "def";
  now_ns = 9;
  now_s = 2;
  resolve = to_red;
}

calls-Survives_example :
    Survives json
      (found old)
      (record { snapshot = snapshot; counters_reset_at = 1 })
      (calls json 3 unplaced (envelope "abc" 7 snapshot 1) (writing, files)).1
unfolding load envelope found
calls-Survives_example =
    calls-Survives json 3 unplaced "abc" 7 1 snapshot (envelope "abc" 7 snapshot 1) files false
      (found old) json-IsJson snapshot-IsWritable refl (inr (old, refl)) refl

load-save_example :
    load json (save json succeeds "abc" 7 snapshot 1 files).1
    ≡ loaded false (record { snapshot = snapshot; counters_reset_at = 1 })
unfolding save
load-save_example =
    load-save json succeeds "abc" 7 1 snapshot files json-IsJson snapshot-IsWritable refl

restore_from_wal-flush_wal_example :
    restore_from_wal json boot (flush_wal json succeeds "abc" 7 1 to_red two_rows files).1
    ≡ some (record {
      state = two_rows;
      files = (flush_wal json succeeds "abc" 7 1 to_red two_rows files).1;
      counters_reset_at = 1;
    })
unfolding flush_wal
restore_from_wal-flush_wal_example =
    restore_from_wal-flush_wal json succeeds "abc" 7 1 to_red two_rows files boot json-IsJson
      two_rows-IsStore snapshot-IsWritable (refl, (refl, tt)) (omega arith) refl
