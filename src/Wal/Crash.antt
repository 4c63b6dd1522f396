-- ===== src/Wal/Crash.antt =====
-- internal/wal/wal.go: a `Save` that fails, or dies between two calls, loses nothing that `Load` found.
use lachesis.Base.{
  ℕ, zero, suc, ◌≡◌, ◌≢◌, refl, sym, ap, ◌∙◌, String, Bool, true, false, Option, none, some, arith,
  Bool-cases, Option-cases, ◌⊎◌, inl, inr,
}
use lachesis.State.Snapshot.{WalSnapshot}
use lachesis.Wal.{Json, IsJson, SnapshotWire, parsed, check_version, Found, found, envelope}
use lachesis.Wal.Files.{
  Files, Outcomes, Phase, writing, rotating, placing, syncing, ended, Stage, rename_current, rotate,
  step, calls, read_and_parse, load, loaded,
}
use lachesis.Wal.Loaded.{IsWritable, found-envelope}

-- The file at the path is absent, or parses.
abbrev pub IsSafe : (J : Json) → Files J → Type 0
IsSafe J f = (f.current ≡ none) ⊎ ((s : SnapshotWire) × (read_and_parse J f.current ≡ parsed s))

module _ (J : Json) (f : Files J) (d : J.Bytes) where
  -- The two files that `Load` reads are as they were.
  pub record Same (g : Files J) : Type 0 where
    pub current : g.current ≡ f.current
    pub bak : g.bak ≡ f.bak

  -- The one at the path stands aside.
  pub record Moved (g : Files J) : Type 0 where
    pub current : g.current ≡ none
    pub bak : g.bak ≡ f.current
    pub there : f.current ≢ none

  abbrev Placed : Files J → Type 0
  Placed g = g.current ≡ some d

  -- Where the files stand in each phase of a `Save` that began at `f`.
  abbrev Standing : Phase × Files J → Type 0
  Standing (writing, g) = Same g
  Standing (rotating, g) = Same g × (g.tmp ≡ some d)
  Standing (placing, g) = (Same g ⊎ Moved g) × (g.tmp ≡ some d)
  Standing (syncing, g) = Placed g
  Standing (ended e, g) = Same g ⊎ Moved g ⊎ Placed g

  rotate-Standing :
      (io : Outcomes J) (g : Files J) (cur : Option J.Bytes)
      → g.current ≡ cur
      → Same g
      → g.tmp ≡ some d
      → Standing (rotate J io g cur)
  rotate-Standing io g none e same tmp = (inl same, tmp)
  rotate-Standing io g (some x) e same tmp = elim (Bool-cases io.rotated) [
    | inl done ↦
        rw (done, Standing)
          (
            inr (record {
              current = refl;
              bak = sym e ∙ same.current;
              there = λ absent. cc (e, same.current);
            }),
            tmp,
          )
    | inr kept ↦ rw (kept, Standing) (inl same)
  ]

  weaken : (e : Option Stage) (g : Files J) → Same g ⊎ Moved g → Standing (ended e, g)
  weaken e g (inl same) = inl same
  weaken e g (inr moved) = inr (inl moved)

  step-Standing :
      (io : Outcomes J) (p : Phase) (g : Files J) → Standing (p, g) → Standing (step J io d (p, g))
  unfolding step
  step-Standing io writing g same = elim (Option-cases io.write_error) [
    | inl done ↦ rw (done, Standing) (record { current = same.current; bak = same.bak }, refl)
    | inr (stage, torn) ↦
        rw (torn, Standing) (inl (record { current = same.current; bak = same.bak }))
  ]
  step-Standing io rotating g (same, tmp) = rotate-Standing io g g.current refl same tmp
  step-Standing io placing g (old, tmp) = elim (Bool-cases io.placed) [
    | inl done ↦ rw (done, Standing) tmp
    | inr kept ↦ rw (kept, Standing) (weaken (some rename_current) g old)
  ]
  step-Standing io syncing g new = inr (inr new)
  step-Standing io (ended e) g h = h

  calls-Standing :
      (n : ℕ) (io : Outcomes J) (s : Phase × Files J) → Standing s → Standing (calls J n io d s)
  unfolding calls
  calls-Standing zero io s h = h
  calls-Standing (suc n) io (p, g) h =
      calls-Standing n io (step J io d (p, g)) (step-Standing io p g h)

  Standing-files : (p : Phase) (g : Files J) → Standing (p, g) → Same g ⊎ Moved g ⊎ Placed g
  Standing-files writing g same = inl same
  Standing-files rotating g (same, tmp) = inl same
  Standing-files placing g (inl same, tmp) = inl same
  Standing-files placing g (inr moved, tmp) = inr (inl moved)
  Standing-files syncing g new = inr (inr new)
  Standing-files (ended e) g h = h

  calls_files :
      (n : ℕ) (io : Outcomes J)
      → let g = (calls J n io d (writing, f)).1 in Same g ⊎ Moved g ⊎ Placed g
  calls_files n io =
      let s = calls J n io d (writing, f) in
      Standing-files s.0 s.1
        (calls-Standing n io (writing, f) (record { current = refl; bak = refl }))

  -- Files that are as they were, or whose snapshot stands aside, load as before.
  load-Same : (g : Files J) → Same g → load J g ≡ load J f
  unfolding load
  load-Same g same = cc (same.current, same.bak)

  Moved-parsed :
      (g : Files J) (s : SnapshotWire)
      → read_and_parse J f.current ≡ parsed s
      → Moved g
      → (load J f ≡ loaded false (found s)) × (load J g ≡ loaded true (found s))
  unfolding load read_and_parse
  Moved-parsed g s e moved = (rw e refl, rw (moved.current, moved.bak, e) refl)

-- A snapshot that is loaded from either file, or the one that is being saved, and the files stay safe.
abbrev pub Survives : (J : Json) → Found → Found → Files J → Type 0
Survives J old new g =
    IsSafe J g
    × (((backup : Bool) × (load J g ≡ loaded backup old)) ⊎ (load J g ≡ loaded false new))

current_of :
    (J : Json) (f g : Files J) (b : Bool) (old : Found)
    → IsSafe J f
    → f.current ≢ none
    → load J f ≡ loaded b old
    → (s : SnapshotWire) × (read_and_parse J f.current ≡ parsed s) × (old ≡ found s)
unfolding load
current_of J f g b old (inl absent) there e = absurd (there absent)
current_of J f g b old (inr (s, parses)) there e = (s, parses, ground (arith))

module _ (J : Json) (law : IsJson J) (agent_build : String) (now at : ℕ) (s : WalSnapshot)
    (writable : IsWritable s) (d : J.Bytes)
    (marshals : J.marshal (envelope agent_build now s at) ≡ some d) where
  abbrev fresh : Found
  fresh = record { snapshot = s; counters_reset_at = at }

  saved-parses :
      (g : Files J)
      → g.current ≡ some d
      → read_and_parse J g.current ≡ parsed (envelope agent_build now s at)
  unfolding read_and_parse check_version envelope
  saved-parses g e = rw (e, law.read_back (envelope agent_build now s at) d marshals) refl

  pub saved-loads : (g : Files J) → g.current ≡ some d → load J g ≡ loaded false fresh
  unfolding load
  saved-loads g e =
      rw (saved-parses g e) (ap (loaded false) (found-envelope agent_build now s at writable))

  files-Survives :
      (f g : Files J) (b : Bool) (old : Found)
      → IsSafe J f
      → load J f ≡ loaded b old
      → Same J f d g ⊎ Moved J f d g ⊎ Placed J f d g
      → Survives J old fresh g
  files-Survives f g b old (inl absent) e (inl same) =
      (inl (same.current ∙ absent), inl (b, load-Same J f d g same ∙ e))
  files-Survives f g b old (inr (x, parses)) e (inl same) =
      (inr (x, ap (read_and_parse J) same.current ∙ parses), inl (b, load-Same J f d g same ∙ e))
  files-Survives f g b old safe e (inr (inl moved)) =
      let (x, parses, same) = current_of J f g b old safe moved.there e in
      (
        inl moved.current,
        inl (true, (Moved-parsed J f d g x parses moved).1 ∙ ap (loaded true) (sym same)),
      )
  files-Survives f g b old safe e (inr (inr new)) =
      (inr (envelope agent_build now s at, saved-parses g new), inr (saved-loads g new))

-- However many calls a `Save` has made when the process dies, and whichever of them failed: `Load` then finds
-- the snapshot that it found before, from either file, or the one that was being saved, and the file at the
-- path is absent or parses. So it is before: the file at the path is absent or parses, and `Load` finds a
-- snapshot. What is saved is as the store hands it over and marshals, and JSON reads back what it wrote.
pub calls-Survives :
    (J : Json) (n : ℕ) (io : Outcomes J) (agent_build : String) (now at : ℕ) (s : WalSnapshot)
    (d : J.Bytes) (f : Files J) (backup : Bool) (old : Found)
    → IsJson J
    → IsWritable s
    → J.marshal (envelope agent_build now s at) ≡ some d
    → IsSafe J f
    → load J f ≡ loaded backup old
    → Survives J old
        (record { snapshot = s; counters_reset_at = at })
        (calls J n io d (writing, f)).1
calls-Survives J n io agent_build now at s d f backup old law writable marshals safe e =
    files-Survives J law agent_build now at s writable d marshals f (calls J n io d (writing, f)).1
      backup old safe e (calls_files J f d n io)
