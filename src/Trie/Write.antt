-- ===== src/Trie/Write.antt =====
-- `WriteSubnetZoneTrie` of internal/kernelwriter/writer.go: the cold start's write of the whole trie.
use mathlib.Core.Logic.{ite}
use mathlib.Core.Bool.{true≢false}
use lachesis.Base.{
  ℕ, ◌+◌, ◌%◌, ◌≤◌, ◌≡◌, refl, sym, ap, ◌∙◌, Bool, true, false, not, ◌||◌, Option, some, List, [],
  ◌∷◌, arith, if◌then◌else◌, Bool-cases, inl, inr,
}
use lachesis.Base.GoMap.{get, put, length, get-put}
use lachesis.Metadata.Interner.{TenantInterner, intern}
use lachesis.Trie.{
  TrieEntry, TrieRowKey, LpmKey, TrieRowKey-discrete, TrieMap, Rows, lpm_key_for_prefix, index_rows,
}
use lachesis.Trie.Delta.{IsTrieMap, IsRow, row, lpm_key_injective, over}
use lachesis.Trie.Apply.{AllEntries, rows_of}

-- The kernel's map, the interner, the count and `firstErr != nil` while the loop runs.
pub record Progress (T : TrieMap) : Type 0 where
  pub kernel : T.Kernel
  pub interner : TenantInterner
  pub written : ℕ
  pub failed : Bool

module _ (T : TrieMap) (native_endian : ℕ → ℕ) where
  -- After the call of `Update`.
  unfoldable pub counted : Bool × T.Kernel → TenantInterner → Progress T → Progress T
  counted (ok, kernel) interner s = record {
    kernel = kernel;
    interner = interner;
    written = if ok then s.written + 1 else s.written;
    failed = s.failed || not ok;
  }

  -- One round of the loop.
  unfoldable pub write_entry : TrieEntry → Progress T → Progress T
  unfolding counted lpm_key_for_prefix intern
  write_entry e s =
      let (tid, interner) = intern s.interner e.tenant_id in
      counted
        (T.update s.kernel
          (lpm_key_for_prefix T native_endian (record { tid = tid; prefix = e.prefix }))
          (e.zone % 256))
        interner s

  unfoldable pub write_entries : List TrieEntry → Progress T → Progress T
  unfolding write_entry
  write_entries [] s = s
  write_entries (e ∷ entries) s = write_entries entries (write_entry e s)

  -- `WriteSubnetZoneTrie`
  unfoldable pub write_subnet_zone_trie : List TrieEntry → TenantInterner → T.Kernel → Progress T
  unfolding write_entries
  write_subnet_zone_trie entries interner kernel =
      write_entries entries
        (record { kernel = kernel; interner = interner; written = 0; failed = false })

module _ (T : TrieMap) (native_endian : ℕ → ℕ)
    (injective : (a b : ℕ) → native_endian a ≡ native_endian b → a ≡ b)
    (read : T.Kernel → LpmKey → Option ℕ) (law : IsTrieMap T read) where
  write_entry-failed :
      (e : TrieEntry) (s : Progress T)
      → s.failed ≡ true
      → (write_entry T native_endian e s).failed ≡ true
  unfolding write_entry counted
  write_entry-failed e s h = ground arith

  write_entries-failed :
      (entries : List TrieEntry) (s : Progress T)
      → s.failed ≡ true
      → (write_entries T native_endian entries s).failed ≡ true
  unfolding write_entries
  write_entries-failed [] s h = h
  write_entries-failed (e ∷ entries) s h =
      write_entries-failed entries (write_entry T native_endian e s) (write_entry-failed e s h)

  write_entry-row :
      (e : TrieEntry) (s : Progress T) (q : TrieRowKey)
      → e.prefix.bits ≤ 32
      → IsRow q
      → (write_entry T native_endian e s).failed ≡ false
      → row T native_endian injective read law (write_entry T native_endian e s).kernel q
        ≡ ite
            (TrieRowKey-discrete
              (record { tid = (intern s.interner e.tenant_id).0; prefix = e.prefix })
              q)
            (some (e.zone % 256))
            (row T native_endian injective read law s.kernel q)
  unfolding write_entry counted row
  write_entry-row e s q he hq ok =
      let rk : TrieRowKey = record { tid = (intern s.interner e.tenant_id).0; prefix = e.prefix } in
      ground (
        arith,
        lpm_key_injective T native_endian injective read law rk q he hq,
        law.updated s.kernel (lpm_key_for_prefix T native_endian rk)
            (lpm_key_for_prefix T native_endian q) (e.zone % 256),
      )

  write_entry-interner :
      (e : TrieEntry) (s : Progress T)
      → (write_entry T native_endian e s).interner ≡ (intern s.interner e.tenant_id).1
  unfolding write_entry counted
  write_entry-interner e s = refl

  write_entry-written :
      (e : TrieEntry) (s : Progress T)
      → (write_entry T native_endian e s).failed ≡ false
      → (write_entry T native_endian e s).written ≡ s.written + 1
  unfolding write_entry counted
  write_entry-written e s ok = ground arith

  write_entries-row :
      (entries : List TrieEntry) (s : Progress T) (rows : Rows) (before : Option ℕ) (q : TrieRowKey)
      → AllEntries entries
      → IsRow q
      → row T native_endian injective read law s.kernel q
        ≡ over (get TrieRowKey-discrete rows q) before
      → (write_entries T native_endian entries s).failed ≡ false
      → (row T native_endian injective read law (write_entries T native_endian entries s).kernel q
          ≡ over (get TrieRowKey-discrete (index_rows entries (rows, s.interner)).0 q) before)
        × ((write_entries T native_endian entries s).interner
            ≡ (index_rows entries (rows, s.interner)).1)
        × ((write_entries T native_endian entries s).written ≡ s.written + length entries)
  unfolding write_entries index_rows
  write_entries-row [] s rows before q a hq e ok = (e, refl, omega arith)
  write_entries-row (x ∷ entries) s rows before q a hq e ok =
      let s' = write_entry T native_endian x s in
      let ok' : s'.failed ≡ false = elim (Bool-cases s'.failed) [
        | inl failed ↦ absurd (true≢false (sym (write_entries-failed entries s' failed) ∙ ok))
        | inr done ↦ done
      ] in
      let rk : TrieRowKey = record { tid = (intern s.interner x.tenant_id).0; prefix = x.prefix } in
      let same = write_entry-interner x s in
      let rows' : Rows = put TrieRowKey-discrete rows rk (x.zone % 256) in
      let rest =
        write_entries-row entries s' rows' before q a.1 hq
          (ground (
            arith,
            write_entry-row x s q a.0 hq ok',
            get-put TrieRowKey-discrete rows rk q (x.zone % 256),
          ))
          ok in
      (
        rest.0
            ∙ ap (λ i. over (get TrieRowKey-discrete (index_rows entries (rows', i)).0 q) before)
                same,
        rest.1 ∙ ap (λ i. (index_rows entries (rows', i)).1) same,
        rest.2 ∙ omega (arith, write_entry-written x s ok'),
      )

  -- `WriteSubnetZoneTrie`, where all prefixes have at most 32 bits, the byte order loses nothing and the
  -- kernel's map does what `IsTrieMap` says: if the call returns no error, the kernel holds the rows of
  -- the entries, a later one over an earlier one of the same key, and else what it held; the interner
  -- has numbered the tenants as `index_rows` does, and the count is the number of the entries.
  pub write_subnet_zone_trie-row :
      (entries : List TrieEntry) (interner : TenantInterner) (k : T.Kernel) (q : TrieRowKey)
      → AllEntries entries
      → IsRow q
      → (write_subnet_zone_trie T native_endian entries interner k).failed ≡ false
      → (row T native_endian injective read law
            (write_subnet_zone_trie T native_endian entries interner k).kernel
            q
          ≡ over
              (get TrieRowKey-discrete (rows_of entries interner) q)
              (row T native_endian injective read law k q))
        × ((write_subnet_zone_trie T native_endian entries interner k).interner
            ≡ (index_rows entries ([], interner)).1)
        × ((write_subnet_zone_trie T native_endian entries interner k).written ≡ length entries)
  unfolding write_subnet_zone_trie
  write_subnet_zone_trie-row entries interner k q a hq ok =
      let kept =
        write_entries-row entries
          (record { kernel = k; interner = interner; written = 0; failed = false }) []
          (row T native_endian injective read law k q) q a hq (unfold get in refl) ok in
      (kept.0, kept.1, kept.2 ∙ omega arith)
