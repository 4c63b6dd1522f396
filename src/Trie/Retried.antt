-- ===== src/Trie/Retried.antt =====
-- internal/kernelwriter/delta.go: what passes whose calls fail leave in the kernel's map, and a retry after them.
use lachesis.Base.{
  ℕ, zero, suc, ◌≡◌, refl, sym, ◌∙◌, true, false, Option, none, some, [], ◌∷◌, arith, Bool-cases,
  ◌⊎◌, inl, inr,
}
use lachesis.Base.GoMap.{get, Distinct}
use lachesis.Base.GoMap.Range.{AllRows}
use lachesis.Trie.{
  TrieRowKey, LpmKey, TrieRowKey-discrete, TrieMap, Rows, Pass, lpm_key_for_prefix, upserted,
  upsert_row, upsert_rows, deleted, delete_row, delete_rows, apply_rows,
}
use lachesis.Trie.Delta.{IsTrieMap, IsRow, row, lpm_key_injective, apply_rows-row}

-- The kernel's map after a number of passes on the same rows.
abbrev pub attempts : (T : TrieMap) → (ℕ → ℕ) → Rows → Rows → ℕ → T.Kernel → T.Kernel
attempts T native_endian old new zero k = k
attempts T native_endian old new (suc n) k =
    (apply_rows T native_endian old new (attempts T native_endian old new n k)).kernel

module _ (T : TrieMap) (native_endian : ℕ → ℕ)
    (native_endian_injective : (a b : ℕ) → native_endian a ≡ native_endian b → a ≡ b)
    (read : T.Kernel → LpmKey → Option ℕ) (law : IsTrieMap T read) where
  abbrev at : T.Kernel → TrieRowKey → Option ℕ
  at k q = row T native_endian native_endian_injective read law k q

  upsert_row_between :
      (prev : Option ℕ) (rk q : TrieRowKey) (zone : ℕ) (s : Pass T)
      → IsRow rk
      → IsRow q
      → (at (upsert_row T native_endian prev rk zone s).kernel q ≡ at s.kernel q)
        ⊎ ((rk ≡ q) × (at (upsert_row T native_endian prev rk zone s).kernel q ≡ some zone))
  unfolding upsert_row upserted row
  upsert_row_between prev rk q zone s hr hq = ground (
    arith,
    lpm_key_injective T native_endian native_endian_injective read law rk q hr hq,
    law.updated s.kernel (lpm_key_for_prefix T native_endian rk)
        (lpm_key_for_prefix T native_endian q) zone,
  )

  -- A row after phase 1, whichever calls fail.
  upsert_rows_between :
      (old rows : Rows) (s : Pass T) (q : TrieRowKey)
      → Distinct TrieRowKey-discrete rows
      → AllRows (λ rk zone. IsRow rk) rows
      → IsRow q
      → (at (upsert_rows T native_endian old rows s).kernel q ≡ at s.kernel q)
        ⊎ ((zone : ℕ) × (get TrieRowKey-discrete rows q ≡ some zone)
            × (at (upsert_rows T native_endian old rows s).kernel q ≡ some zone))
  unfolding upsert_rows get
  upsert_rows_between old [] s q d a hq = inl refl
  upsert_rows_between old ((rk, zone) ∷ rows) s q d a hq =
      let prev = get TrieRowKey-discrete old rk in
      let s' = upsert_row T native_endian prev rk zone s in
      elim (upsert_rows_between old rows s' q d.1 a.1 hq) [
        | inl kept ↦ elim (upsert_row_between prev rk q zone s a.0 hq) [
          | inl same ↦ inl (kept ∙ same)
          | inr (own, wrote) ↦ inr (zone, ground arith, kept ∙ wrote)
        ]
        | inr (z, there, wrote) ↦ inr (z, ground (arith, d.0), wrote)
      ]

  delete_row_between :
      (wanted : Option ℕ) (rk q : TrieRowKey) (s : Pass T)
      → IsRow rk
      → IsRow q
      → (at (delete_row T native_endian wanted rk s).kernel q ≡ at s.kernel q)
        ⊎ ((rk ≡ q)
            × (wanted ≡ none)
            × (at (delete_row T native_endian wanted rk s).kernel q ≡ none))
  unfolding delete_row deleted row
  delete_row_between (some zone) rk q s hr hq = inl refl
  delete_row_between none rk q s hr hq = ground (
    arith,
    lpm_key_injective T native_endian native_endian_injective read law rk q hr hq,
    law.removed s.kernel (lpm_key_for_prefix T native_endian rk)
        (lpm_key_for_prefix T native_endian q),
  )

  -- A row after phase 2, whichever calls fail.
  delete_rows_between :
      (new rows : Rows) (s : Pass T) (q : TrieRowKey)
      → AllRows (λ rk zone. IsRow rk) rows
      → IsRow q
      → (at (delete_rows T native_endian new rows s).kernel q ≡ at s.kernel q)
        ⊎ ((get TrieRowKey-discrete new q ≡ none)
            × (at (delete_rows T native_endian new rows s).kernel q ≡ none))
  unfolding delete_rows
  delete_rows_between new [] s q a hq = inl refl
  delete_rows_between new ((rk, zone) ∷ rows) s q a hq =
      let wanted = get TrieRowKey-discrete new rk in
      let s' = delete_row T native_endian wanted rk s in
      elim (delete_rows_between new rows s' q a.1 hq) [
        | inl kept ↦ elim (delete_row_between wanted rk q s a.0 hq) [
          | inl same ↦ inl (kept ∙ same)
          | inr (own, unwanted, gone) ↦ inr (rw (← own) unwanted, kept ∙ gone)
        ]
        | inr gone ↦ inr gone
      ]

  module _ (old new : Rows) (dold : Distinct TrieRowKey-discrete old)
      (dnew : Distinct TrieRowKey-discrete new) (aold : AllRows (λ rk zone. IsRow rk) old)
      (anew : AllRows (λ rk zone. IsRow rk) new) where
    apply_rows_between :
        (k : T.Kernel) (q : TrieRowKey)
        → IsRow q
        → (at (apply_rows T native_endian old new k).kernel q ≡ at k q)
          ⊎ (at (apply_rows T native_endian old new k).kernel q ≡ get TrieRowKey-discrete new q)
    unfolding apply_rows
    apply_rows_between k q hq =
        let start : Pass T = record {
          kernel = k;
          delta = record { added = 0; changed = 0; removed = 0 };
          failed = false;
        } in
        let s = upsert_rows T native_endian old new start in
        let first = upsert_rows_between old new start q dnew anew hq in
        elim (Bool-cases s.failed) [
          | inl failed ↦
              rw failed (elim first [
                | inl kept ↦ inl kept
                | inr (z, there, wrote) ↦ inr (wrote ∙ sym there)
              ])
          | inr done ↦ rw done (elim (delete_rows_between new old s q aold hq) [
            | inr (unwanted, gone) ↦ inr (gone ∙ sym unwanted)
            | inl same ↦ elim first [
              | inl kept ↦ inl (same ∙ kept)
              | inr (z, there, wrote) ↦ inr (same ∙ wrote ∙ sym there)
            ]
          ])
        ]

    attempts_between :
        (n : ℕ) (k : T.Kernel)
        → ((q : TrieRowKey) → IsRow q → at k q ≡ get TrieRowKey-discrete old q)
        → (q : TrieRowKey) → IsRow q
        → (at (attempts T native_endian old new n k) q ≡ get TrieRowKey-discrete old q)
          ⊎ (at (attempts T native_endian old new n k) q ≡ get TrieRowKey-discrete new q)
    attempts_between zero k before q hq = inl (before q hq)
    attempts_between (suc n) k before q hq =
        elim (apply_rows_between (attempts T native_endian old new n k) q hq) [
          | inr now ↦ inr now
          | inl same ↦ elim (attempts_between n k before q hq) [
            | inl was ↦ inl (same ∙ was)
            | inr is ↦ inr (same ∙ is)
          ]
        ]

    -- Passes that start from a kernel with the old rows leave at each key, whichever of their calls fail, the
    -- old row or the new one, none for a key without a row; and the next pass on the same rows reports an
    -- error or leaves the new rows and no other IPv4 row. The keys of the rows are distinct and have at
    -- most 32 bits, the byte order loses nothing, and the kernel's map does what `IsTrieMap` says.
    pub apply_rows_retried :
        (n : ℕ) (k : T.Kernel)
        → ((q : TrieRowKey) → IsRow q → at k q ≡ get TrieRowKey-discrete old q)
        → (q : TrieRowKey) → IsRow q
        → let before = attempts T native_endian old new n k in
          let pass = apply_rows T native_endian old new before in
          ((at before q ≡ get TrieRowKey-discrete old q)
            ⊎ (at before q ≡ get TrieRowKey-discrete new q))
          × ((pass.failed ≡ true) ⊎ (at pass.kernel q ≡ get TrieRowKey-discrete new q))
    apply_rows_retried n k start q hq =
        let before = attempts T native_endian old new n k in
        (
          attempts_between n k start q hq,
          elim (Bool-cases (apply_rows T native_endian old new before).failed) [
            | inl failed ↦ inl failed
            | inr ok ↦ inr (
                apply_rows-row T native_endian native_endian_injective read law old new before dold
                  dnew aold anew (attempts_between n k start) ok q hq)
          ],
        )
