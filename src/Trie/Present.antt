-- ===== src/Trie/Present.antt =====
-- No destination that is routed before and after `ApplyTrieDelta` (internal/kernelwriter/delta.go)
-- loses its row, also where calls fail.
use lachesis.Base.{
  ℕ, ◌≡◌, ◌≢◌, refl, false, Option, none, some, List, [], ◌∷◌, arith, Bool-cases, inl, inr,
}
use lachesis.Base.GoMap.{get}
use lachesis.Base.GoMap.Range.{AllRows}
use lachesis.Metadata.Interner.{TenantInterner}
use lachesis.Trie.{
  TrieEntry, TrieRowKey, LpmKey, TrieRowKey-discrete, TrieMap, Rows, Pass, lpm_key_for_prefix,
  upserted, upsert_row, upsert_rows, deleted, delete_row, delete_rows, apply_rows, apply_trie_delta,
  index_rows,
}
use lachesis.Trie.Delta.{IsTrieMap, IsRow, row, lpm_key_injective}
use lachesis.Trie.Apply.{AllEntries, rows_of, index_rows-IsRow}

module _ (T : TrieMap) (native_endian : ℕ → ℕ)
    (injective : (a b : ℕ) → native_endian a ≡ native_endian b → a ≡ b)
    (read : T.Kernel → LpmKey → Option ℕ) (law : IsTrieMap T read) where
  -- The kernel has a row for the key.
  abbrev IsPresent : T.Kernel → TrieRowKey → Type 0
  IsPresent k q = row T native_endian injective read law k q ≢ none

  upsert_row-IsPresent :
      (prev : Option ℕ) (rk q : TrieRowKey) (zone : ℕ) (s : Pass T)
      → IsPresent s.kernel q
      → IsPresent (upsert_row T native_endian prev rk zone s).kernel q
  unfolding upsert_row upserted row
  upsert_row-IsPresent prev rk q zone s h = ground (
    arith,
    law.updated s.kernel (lpm_key_for_prefix T native_endian rk)
        (lpm_key_for_prefix T native_endian q) zone,
  )

  upsert_rows-IsPresent :
      (old rows : Rows) (s : Pass T) (q : TrieRowKey)
      → IsPresent s.kernel q
      → IsPresent (upsert_rows T native_endian old rows s).kernel q
  unfolding upsert_rows
  upsert_rows-IsPresent old [] s q h = h
  upsert_rows-IsPresent old ((rk, zone) ∷ rows) s q h =
      upsert_rows-IsPresent old rows
        (upsert_row T native_endian (get TrieRowKey-discrete old rk) rk zone s) q
        (upsert_row-IsPresent (get TrieRowKey-discrete old rk) rk q zone s h)

  delete_row-IsPresent :
      (wanted : Option ℕ) (new : Rows) (rk q : TrieRowKey) (s : Pass T)
      → get TrieRowKey-discrete new rk ≡ wanted
      → get TrieRowKey-discrete new q ≢ none
      → IsRow rk
      → IsRow q
      → IsPresent s.kernel q
      → IsPresent (delete_row T native_endian wanted rk s).kernel q
  unfolding delete_row deleted row
  delete_row-IsPresent (some zone) new rk q s e w hr hq h = h
  delete_row-IsPresent none new rk q s e w hr hq h = ground (
    arith,
    lpm_key_injective T native_endian injective read law rk q hr hq,
    law.removed s.kernel (lpm_key_for_prefix T native_endian rk)
        (lpm_key_for_prefix T native_endian q),
  )

  delete_rows-IsPresent :
      (new rows : Rows) (s : Pass T) (q : TrieRowKey)
      → AllRows (λ rk zone. IsRow rk) rows
      → get TrieRowKey-discrete new q ≢ none
      → IsRow q
      → IsPresent s.kernel q
      → IsPresent (delete_rows T native_endian new rows s).kernel q
  unfolding delete_rows
  delete_rows-IsPresent new [] s q a w hq h = h
  delete_rows-IsPresent new ((rk, zone) ∷ rows) s q a w hq h =
      delete_rows-IsPresent new rows
        (delete_row T native_endian (get TrieRowKey-discrete new rk) rk s) q a.1 w hq
        (delete_row-IsPresent (get TrieRowKey-discrete new rk) new rk q s refl w a.0 hq h)

  apply_rows-IsPresent :
      (old new : Rows) (k : T.Kernel) (q : TrieRowKey)
      → AllRows (λ rk zone. IsRow rk) old
      → get TrieRowKey-discrete new q ≢ none
      → IsRow q
      → IsPresent k q
      → IsPresent (apply_rows T native_endian old new k).kernel q
  unfolding apply_rows
  apply_rows-IsPresent old new k q a w hq h =
      let start : Pass T = record {
        kernel = k;
        delta = record { added = 0; changed = 0; removed = 0 };
        failed = false;
      } in
      let s = upsert_rows T native_endian old new start in
      let there = upsert_rows-IsPresent old new start q h in
      elim (Bool-cases s.failed) [
        | inl failed ↦ rw failed there
        | inr done ↦ rw done (delete_rows-IsPresent new old s q a w hq there)
      ]

  -- Where all old prefixes have at most 32 bits: a key that has a row in the kernel before the call,
  -- and that the new entries want, has a row in the kernel after it, whichever calls fail.
  pub apply_trie_delta-present :
      (old_entries new_entries : List TrieEntry) (interner : TenantInterner) (k : T.Kernel)
      (q : TrieRowKey)
      → AllEntries old_entries
      → IsRow q
      → row T native_endian injective read law k q ≢ none
      → get TrieRowKey-discrete (rows_of new_entries interner) q ≢ none
      → row T native_endian injective read law
          (apply_trie_delta T native_endian old_entries new_entries interner k).0.kernel
          q
        ≢ none
  unfolding apply_trie_delta
  apply_trie_delta-present old new interner k q hold hq h w =
      let interner' = (index_rows new ([], interner)).1 in
      apply_rows-IsPresent (rows_of old interner') (rows_of new interner) k q
        (index_rows-IsRow old ([], interner') hold tt tt).1 w hq h
