-- ===== src/Trie/Delta.antt =====
-- What `ApplyTrieDelta` (internal/kernelwriter/delta.go) leaves in the kernel's map.
use mathlib.Core.Logic.{ite}
use mathlib.Core.Bool.{true≢false}
use lachesis.Base.{
  ℕ, ◌≤◌, ◌≡◌, ◌≢◌, refl, sym, ◌∙◌, true, false, Option, none, some, [], ◌∷◌, arith, if◌then◌else◌,
  Bool-cases, ◌⊎◌, inl, inr,
}
use lachesis.Base.GoMap.{get, Distinct}
use lachesis.Base.GoMap.Range.{AllRows}
use lachesis.Trie.{
  TrieRowKey, LpmKey, LpmKey-discrete, TrieRowKey-discrete, TrieMap, Rows, Pass, lpm_key_for_prefix,
  upserted, upsert_row, upsert_rows, deleted, delete_row, delete_rows, apply_rows,
}

-- What the program relies on of the kernel's map: a call that succeeds writes or removes its row, and
-- one that fails, nothing; no call touches another row.
pub record IsTrieMap (T : TrieMap) (read : T.Kernel → LpmKey → Option ℕ) : Type 0 where
  pub updated :
      (k : T.Kernel) (key q : LpmKey) (v : ℕ)
      → read (T.update k key v).1 q ≡ (
          if (T.update k key v).0
          then ite (LpmKey-discrete key q) (some v) (read k q)
          else read k q)
  pub removed :
      (k : T.Kernel) (key q : LpmKey)
      → read (T.remove k key).1 q
        ≡ (if (T.remove k key).0 then ite (LpmKey-discrete key q) none (read k q) else read k q)

-- An IPv4 prefix has at most 32 bits.
abbrev pub IsRow : TrieRowKey → Type 0
IsRow rk = rk.prefix.bits ≤ 32

-- A row that is written over what was there.
abbrev pub over : Option ℕ → Option ℕ → Option ℕ
over none x = x
over (some z) x = some z

-- A row after phase 2: kept if it is wanted.
abbrev pub kept : Option ℕ → Option ℕ → Option ℕ
kept none x = none
kept (some z) x = x

-- What phase 2 leaves of a row `x`, if `listed` is its old row and `wanted` its new one.
abbrev pub left : Option ℕ → Option ℕ → Option ℕ → Option ℕ
left none wanted x = x
left (some z) wanted x = kept wanted x

module _ (T : TrieMap) (native_endian : ℕ → ℕ)
    (native_endian_injective : (a b : ℕ) → native_endian a ≡ native_endian b → a ≡ b)
    (read : T.Kernel → LpmKey → Option ℕ) (law : IsTrieMap T read) where
  -- The row of a key in the kernel.
  unfoldable pub row : T.Kernel → TrieRowKey → Option ℕ
  row k rk = read k (lpm_key_for_prefix T native_endian rk)

  pub lpm_key_injective :
      (a b : TrieRowKey)
      → IsRow a
      → IsRow b
      → lpm_key_for_prefix T native_endian a ≡ lpm_key_for_prefix T native_endian b
      → a ≡ b
  unfolding lpm_key_for_prefix
  lpm_key_injective a b ha hb e =
      ground (arith, native_endian_injective a.prefix.addr b.prefix.addr)

  upsert_row-row :
      (prev : Option ℕ) (rk q : TrieRowKey) (zone : ℕ) (s : Pass T)
      → IsRow rk
      → IsRow q
      → (row s.kernel rk ≡ prev) ⊎ (row s.kernel rk ≡ some zone)
      → (upsert_row T native_endian prev rk zone s).failed ≡ false
      → row (upsert_row T native_endian prev rk zone s).kernel q
        ≡ ite (TrieRowKey-discrete rk q) (some zone) (row s.kernel q)
  unfolding upsert_row upserted row
  upsert_row-row prev rk q zone s hr hq e ok = ground (
    arith,
    lpm_key_injective rk q hr hq,
    law.updated s.kernel (lpm_key_for_prefix T native_endian rk)
        (lpm_key_for_prefix T native_endian q) zone,
  )

  upsert_row-failed :
      (prev : Option ℕ) (rk : TrieRowKey) (zone : ℕ) (s : Pass T)
      → s.failed ≡ true
      → (upsert_row T native_endian prev rk zone s).failed ≡ true
  unfolding upsert_row upserted
  upsert_row-failed prev rk zone s e = ground arith

  upsert_rows-failed :
      (old rows : Rows) (s : Pass T)
      → s.failed ≡ true
      → (upsert_rows T native_endian old rows s).failed ≡ true
  unfolding upsert_rows
  upsert_rows-failed old [] s e = e
  upsert_rows-failed old ((rk, zone) ∷ rows) s e =
      upsert_rows-failed old rows
        (upsert_row T native_endian (get TrieRowKey-discrete old rk) rk zone s)
        (upsert_row-failed (get TrieRowKey-discrete old rk) rk zone s e)

  -- Phase 1, if no call of it fails.
  upsert_rows-row :
      (old rows : Rows) (s : Pass T) (q : TrieRowKey)
      → Distinct TrieRowKey-discrete rows
      → AllRows (λ rk zone. IsRow rk) rows
      → IsRow q
      → ((rk : TrieRowKey)
          → IsRow rk
          → get TrieRowKey-discrete rows rk ≢ none
          → (row s.kernel rk ≡ get TrieRowKey-discrete old rk)
            ⊎ (row s.kernel rk ≡ get TrieRowKey-discrete rows rk))
      → (upsert_rows T native_endian old rows s).failed ≡ false
      → row (upsert_rows T native_endian old rows s).kernel q
        ≡ over (get TrieRowKey-discrete rows q) (row s.kernel q)
  unfolding upsert_rows get
  upsert_rows-row old [] s q d a hq before ok = refl
  upsert_rows-row old ((rk, zone) ∷ rows) s q d a hq before ok =
      let prev = get TrieRowKey-discrete old rk in
      let s' = upsert_row T native_endian prev rk zone s in
      let ok' : s'.failed ≡ false = elim (Bool-cases s'.failed) [
        | inl failed ↦ absurd (true≢false (sym (upsert_rows-failed old rows s' failed) ∙ ok))
        | inr e ↦ e
      ] in
      let here : (row s.kernel rk ≡ prev) ⊎ (row s.kernel rk ≡ some zone) =
        ground (arith, before rk a.0) in
      let wrote =
        λ (p : TrieRowKey) (hp : IsRow p). upsert_row-row prev rk p zone s a.0 hp here ok' in
      upsert_rows-row old rows s' q d.1 a.1 hq
        (λ p hp there. ground (arith, wrote p hp, before p hp, d.0)) ok
      ∙ ground (arith, wrote q hq, d.0)

  delete_row-row :
      (wanted : Option ℕ) (rk q : TrieRowKey) (s : Pass T)
      → IsRow rk
      → IsRow q
      → (delete_row T native_endian wanted rk s).failed ≡ false
      → row (delete_row T native_endian wanted rk s).kernel q
        ≡ ite (TrieRowKey-discrete rk q) (kept wanted (row s.kernel q)) (row s.kernel q)
  unfolding delete_row deleted row
  delete_row-row (some zone) rk q s hr hq ok = ground arith
  delete_row-row none rk q s hr hq ok = ground (
    arith,
    lpm_key_injective rk q hr hq,
    law.removed s.kernel (lpm_key_for_prefix T native_endian rk)
        (lpm_key_for_prefix T native_endian q),
  )

  delete_row-failed :
      (wanted : Option ℕ) (rk : TrieRowKey) (s : Pass T)
      → s.failed ≡ true
      → (delete_row T native_endian wanted rk s).failed ≡ true
  unfolding delete_row deleted
  delete_row-failed (some zone) rk s e = e
  delete_row-failed none rk s e = ground arith

  delete_rows-failed :
      (new rows : Rows) (s : Pass T)
      → s.failed ≡ true
      → (delete_rows T native_endian new rows s).failed ≡ true
  unfolding delete_rows
  delete_rows-failed new [] s e = e
  delete_rows-failed new ((rk, zone) ∷ rows) s e =
      delete_rows-failed new rows (delete_row T native_endian (get TrieRowKey-discrete new rk) rk s)
        (delete_row-failed (get TrieRowKey-discrete new rk) rk s e)

  -- Phase 2, if no call of it fails.
  delete_rows-row :
      (new rows : Rows) (s : Pass T) (q : TrieRowKey)
      → Distinct TrieRowKey-discrete rows
      → AllRows (λ rk zone. IsRow rk) rows
      → IsRow q
      → (delete_rows T native_endian new rows s).failed ≡ false
      → row (delete_rows T native_endian new rows s).kernel q
        ≡ left (get TrieRowKey-discrete rows q) (get TrieRowKey-discrete new q) (row s.kernel q)
  unfolding delete_rows get
  delete_rows-row new [] s q d a hq ok = refl
  delete_rows-row new ((rk, zone) ∷ rows) s q d a hq ok =
      let wanted = get TrieRowKey-discrete new rk in
      let s' = delete_row T native_endian wanted rk s in
      let ok' : s'.failed ≡ false = elim (Bool-cases s'.failed) [
        | inl failed ↦ absurd (true≢false (sym (delete_rows-failed new rows s' failed) ∙ ok))
        | inr e ↦ e
      ] in
      delete_rows-row new rows s' q d.1 a.1 hq ok
      ∙ ground (arith, delete_row-row wanted rk q s a.0 hq ok', d.0)

  -- The two phases: if the kernel holds, key by key, the old row or the new one, and no call fails, it then
  -- holds the new rows.
  pub apply_rows-row :
      (old new : Rows) (k : T.Kernel)
      → Distinct TrieRowKey-discrete old
      → Distinct TrieRowKey-discrete new
      → AllRows (λ rk zone. IsRow rk) old
      → AllRows (λ rk zone. IsRow rk) new
      → ((q : TrieRowKey)
          → IsRow q
          → (row k q ≡ get TrieRowKey-discrete old q) ⊎ (row k q ≡ get TrieRowKey-discrete new q))
      → (apply_rows T native_endian old new k).failed ≡ false
      → (q : TrieRowKey) → IsRow q
      → row (apply_rows T native_endian old new k).kernel q ≡ get TrieRowKey-discrete new q
  unfolding apply_rows
  apply_rows-row old new k dold dnew aold anew before ok q hq =
      let s : Pass T = upsert_rows T native_endian old new (record {
        kernel = k;
        delta = record { added = 0; changed = 0; removed = 0 };
        failed = false;
      }) in
      elim (Bool-cases s.failed) [
        | inl failed ↦ absurd (true≢false (sym failed ∙ (rw failed at ok)))
        | inr done ↦
            let upserts =
              upsert_rows-row old new
                (record {
                  kernel = k;
                  delta = record { added = 0; changed = 0; removed = 0 };
                  failed = false;
                })
                q dnew anew hq (λ rk hr there. before rk hr) done in
            let deletes = delete_rows-row new old s q dold aold hq (rw done at ok) in
            rw done (deletes ∙ ground (arith, upserts, before q hq))
      ]
