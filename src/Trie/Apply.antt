-- ===== src/Trie/Apply.antt =====
-- `ApplyTrieDelta` (internal/kernelwriter/delta.go) from the entries to the kernel's map.
use lachesis.Base.{inl, ℕ, ◌%◌, ◌≤◌, ◌≡◌, false, Option, List, [], ◌∷◌, arith}
use lachesis.Base.GoMap.{get, put, Distinct, put-Distinct}
use lachesis.Base.GoMap.Range.{AllRows}
use lachesis.Metadata.Interner.{TenantInterner, intern}
use lachesis.Trie.{
  TrieEntry, TrieRowKey, LpmKey, TrieRowKey-discrete, TrieMap, Rows, apply_trie_delta, index_rows,
}
use lachesis.Trie.Delta.{IsTrieMap, IsRow, row, apply_rows-row}

abbrev pub AllEntries : List TrieEntry → Type 0
AllEntries [] = Unit
AllEntries (e ∷ entries) = (e.prefix.bits ≤ 32) × AllEntries entries

AllRows-put :
    (rows : Rows) (rk : TrieRowKey) (zone : ℕ)
    → IsRow rk
    → AllRows (λ k z. IsRow k) rows
    → AllRows (λ k z. IsRow k) (put TrieRowKey-discrete rows rk zone)
unfolding put
AllRows-put [] rk zone h a = (h, tt)
AllRows-put ((k, z) ∷ rows) rk zone h a = ground (arith, AllRows-put rows rk zone h)

pub index_rows-IsRow :
    (entries : List TrieEntry) (s : Rows × TenantInterner)
    → AllEntries entries
    → Distinct TrieRowKey-discrete s.0
    → AllRows (λ rk zone. IsRow rk) s.0
    → Distinct TrieRowKey-discrete (index_rows entries s).0
      × AllRows (λ rk zone. IsRow rk) (index_rows entries s).0
unfolding index_rows
index_rows-IsRow [] s h d a = (d, a)
index_rows-IsRow (e ∷ entries) s h d a =
    let rk : TrieRowKey = record { tid = (intern s.1 e.tenant_id).0; prefix = e.prefix } in
    index_rows-IsRow entries
      (put TrieRowKey-discrete s.0 rk (e.zone % 256), (intern s.1 e.tenant_id).1) h.1
      (put-Distinct TrieRowKey-discrete s.0 rk (e.zone % 256) d)
      (AllRows-put s.0 rk (e.zone % 256) h.0 a)

-- The rows that a list of entries stands for, under the numbers of the tenants.
abbrev pub rows_of : List TrieEntry → TenantInterner → Rows
rows_of entries interner = (index_rows entries ([], interner)).0

-- `ApplyTrieDelta`, where all prefixes have at most 32 bits, the byte order loses nothing, and the
-- kernel's map does what `IsTrieMap` says: if the kernel holds the rows of the old entries, as the
-- interner numbers them, and the call returns no error, then the kernel holds the rows of the new
-- entries and no other IPv4 row.
pub apply_trie_delta-row :
    (T : TrieMap) (native_endian : ℕ → ℕ)
    (injective : (a b : ℕ) → native_endian a ≡ native_endian b → a ≡ b)
    (read : T.Kernel → LpmKey → Option ℕ) (law : IsTrieMap T read)
    (old_entries new_entries : List TrieEntry) (interner : TenantInterner) (k : T.Kernel)
    → AllEntries old_entries
    → AllEntries new_entries
    → ((q : TrieRowKey)
        → IsRow q
        → row T native_endian injective read law k q
          ≡ get TrieRowKey-discrete
              (rows_of old_entries (index_rows new_entries ([], interner)).1)
              q)
    → (apply_trie_delta T native_endian old_entries new_entries interner k).0.failed ≡ false
    → (q : TrieRowKey) → IsRow q
    → row T native_endian injective read law
        (apply_trie_delta T native_endian old_entries new_entries interner k).0.kernel
        q
      ≡ get TrieRowKey-discrete (rows_of new_entries interner) q
unfolding apply_trie_delta
apply_trie_delta-row T native_endian injective read law old new interner k hold hnew before ok =
    let desired = index_rows-IsRow new ([], interner) hnew tt tt in
    let prior = index_rows-IsRow old ([], (index_rows new ([], interner)).1) hold tt tt in
    apply_rows-row T native_endian injective read law
      (rows_of old (index_rows new ([], interner)).1) (rows_of new interner) k prior.0 desired.0
      prior.1 desired.1 (λ q hq. inl (before q hq)) ok
