-- ===== src/Wal/Files.antt =====
-- internal/wal/wal.go: `Save`, `Load` and `Quarantine` on the files of the log, call by call.
use lachesis.Base.{ℕ, zero, suc, Bool, true, false, Option, none, some, String, if◌then◌else◌}
use lachesis.State.Snapshot.{WalSnapshot}
use lachesis.Wal.{
  Json, Parsed, parsed, missing, newer, unreadable, check_version, checked, Found, found, envelope,
}

-- The `Stage` labels of a failure.
pub data Stage : Type 0 where
  marshal write fsync rename_bak rename_current dir_sync : Stage

-- Where `Save` stands: the calls that are left, or its end with the stage of its error.
pub data Phase : Type 0 where
  writing rotating placing syncing : Phase
  ended : Option Stage → Phase

module _ (J : Json) where
  -- The files at the path, and at the path with the suffixes .bak, .tmp and .quarantine.
  pub record Files : Type 0 where
    pub current : Option J.Bytes
    pub bak : Option J.Bytes
    pub tmp : Option J.Bytes
    pub quarantine : Option J.Bytes

  -- What the calls of one `Save` do: whether each succeeds, and what a failed `writeAndFsync` leaves.
  pub record Outcomes : Type 0 where
    pub write_error : Option Stage
    pub torn : Option J.Bytes
    pub rotated : Bool
    pub placed : Bool
    pub synced : Bool

  -- `os.Rename(path, bak)`, of a file that is there
  abbrev pub rotate : Outcomes → Files → Option J.Bytes → Phase × Files
  rotate io f none = (placing, f)
  rotate io f (some d) =
      if io.rotated
      then (placing, record f { current = none; bak = some d })
      else (ended (some rename_bak), f)

  -- One call of `Save` after the marshalling, with its error return
  unfoldable pub step : Outcomes → J.Bytes → Phase × Files → Phase × Files
  step io d (writing, f) = elim io.write_error [
    | none ↦ (rotating, record f { tmp = some d })
    | some stage ↦ (ended (some stage), record f { tmp = io.torn })
  ]
  step io d (rotating, f) = rotate io f f.current
  step io d (placing, f) =
      if io.placed
      then (syncing, record f { current = f.tmp; tmp = none })
      else (ended (some rename_current), f)
  step io d (syncing, f) = (ended (if io.synced then none else some dir_sync), f)
  step io d (ended e, f) = (ended e, f)

  -- The first calls of `Save`, as many as were made before the process died
  unfoldable pub calls : ℕ → Outcomes → J.Bytes → Phase × Files → Phase × Files
  unfolding step
  calls zero io d s = s
  calls (suc n) io d s = calls n io d (step io d s)

  -- `Save` once the envelope is marshalled: there are four calls
  abbrev pub write_file : Outcomes → J.Bytes → Files → Phase × Files
  write_file io d f = calls 4 io d (writing, f)

  abbrev pub save_marshalled : Outcomes → Option J.Bytes → Files → Phase × Files
  save_marshalled io none f = (ended (some marshal), f)
  save_marshalled io (some d) f = write_file io d f

  -- `Save`
  unfoldable pub save : Outcomes → String → ℕ → WalSnapshot → ℕ → Files → Phase × Files
  unfolding calls envelope
  save io agent_build now s counters_reset_at f =
      save_marshalled io (J.marshal (envelope agent_build now s counters_reset_at)) f

  -- `readAndParse`
  unfoldable pub read_and_parse : Option J.Bytes → Parsed
  unfolding check_version
  read_and_parse none = missing
  read_and_parse (some d) = checked (J.unmarshal d)

  -- What `Load` returns: a snapshot and whether it is the backup's, nothing on a first boot, the refusal of
  -- a newer primary, or the error of both files, with whether the backup is newer.
  pub data Loaded : Type 0 where
    loaded : Bool → Found → Loaded
    empty refused : Loaded
    failed : Bool → Loaded

-- `Load` on what the two files parse to, after the primary failed
abbrev pub load_backup : (J : Json) → Bool → Parsed → Loaded J
load_backup J absent (parsed s) = loaded true (found s)
load_backup J true missing = empty
load_backup J false missing = failed false
load_backup J absent newer = failed true
load_backup J absent unreadable = failed false

abbrev pub load_parsed : (J : Json) → Parsed → Parsed → Loaded J
load_parsed J (parsed s) backup = loaded false (found s)
load_parsed J newer backup = refused
load_parsed J missing backup = load_backup J true backup
load_parsed J unreadable backup = load_backup J false backup

module _ (J : Json) where
  -- `Load`
  unfoldable pub load : Files J → Loaded J
  unfolding read_and_parse found
  load f = load_parsed J (read_and_parse J f.current) (read_and_parse J f.bak)

  -- `Quarantine`, whose rename succeeds or fails; a missing file is no error
  unfoldable pub quarantine_file : Bool → Files J → Files J
  quarantine_file renamed f = elim f.current [
    | none ↦ f
    | some d ↦ if renamed then record f { current = none; quarantine = some d } else f
  ]
