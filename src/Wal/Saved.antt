-- ===== src/Wal/Saved.antt =====
-- internal/wal/wal.go: a `Save` that reports no error is loaded by the next `Load`.
use lachesis.Base.{ℕ, ◌≡◌, refl, String, false, Option, none, some, arith, Option-cases, inl, inr}
use lachesis.State.Snapshot.{WalSnapshot}
use lachesis.Wal.{Json, IsJson, envelope}
use lachesis.Wal.Files.{
  Files, Outcomes, ended, step, calls, save, save_marshalled, write_file, load, loaded,
}
use lachesis.Wal.Loaded.{IsWritable}
use lachesis.Wal.Crash.{saved-loads}

write_file-current :
    (J : Json) (io : Outcomes J) (d : J.Bytes) (f : Files J)
    → (write_file J io d f).0 ≡ ended none
    → (write_file J io d f).1.current ≡ some d
unfolding calls step
write_file-current J io d f = elim (Option-cases io.write_error) [
  | inl done ↦ elim (Option-cases f.current) [
    | inl absent ↦ rw (done, absent) (λ e. ground arith)
    | inr (x, there) ↦ rw (done, there) (λ e. ground arith)
  ]
  | inr (stage, torn) ↦ rw torn (λ e. cc)
]

save_marshalled-load :
    (J : Json) (io : Outcomes J) (agent_build : String) (now at : ℕ) (s : WalSnapshot) (f : Files J)
    → IsJson J
    → IsWritable s
    → (d : Option J.Bytes) → J.marshal (envelope agent_build now s at) ≡ d
    → (save_marshalled J io d f).0 ≡ ended none
    → load J (save_marshalled J io d f).1
      ≡ loaded false (record { snapshot = s; counters_reset_at = at })
save_marshalled-load J io agent_build now at s f law writable none e h = cc
save_marshalled-load J io agent_build now at s f law writable (some d) e h =
    saved-loads J law agent_build now at s writable d e (write_file J io d f).1
      (write_file-current J io d f h)

-- If `Save` reports no error, then `Load` returns from the primary the snapshot that was saved, rows, owners,
-- settled buckets and epoch: for a snapshot as the store hands it over, and a JSON that reads back what it
-- wrote. It does not matter what the files held before.
pub load-save :
    (J : Json) (io : Outcomes J) (agent_build : String) (now at : ℕ) (s : WalSnapshot) (f : Files J)
    → IsJson J
    → IsWritable s
    → (save J io agent_build now s at f).0 ≡ ended none
    → load J (save J io agent_build now s at f).1
      ≡ loaded false (record { snapshot = s; counters_reset_at = at })
unfolding save
load-save J io agent_build now at s f law writable h =
    save_marshalled-load J io agent_build now at s f law writable
      (J.marshal (envelope agent_build now s at)) refl h
