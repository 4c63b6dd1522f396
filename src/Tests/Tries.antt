-- ===== src/Tests/Tries.antt =====
-- The theorems on the kernel's trie, at a kernel that is a function from keys.
use native.Mathlib.Decide.{ℕ_discrete}
use mathlib.Core.Logic.{ite}
use lachesis.Base.{
  ◌==◌, if◌then◌else◌, Bool-cases, ◌⊎◌, inl, inr, ◌<◌, ℕ, ◌≡◌, ◌≢◌, refl, arith, true, false,
  Option, none, some, [], ◌∷◌,
}
use lachesis.Base.GoMap.{length, get, put}
use lachesis.Metadata.Interner
use lachesis.Metadata.Interner.{intern}
use lachesis.Trie.{
  TrieEntry, TrieRowKey, LpmKey, LpmKey-discrete, TrieRowKey-discrete, Prefix-discrete, TrieMap,
  apply_trie_delta, apply_rows, index_rows, upsert_rows, upsert_row, upserted, delete_rows,
}
use lachesis.Trie.Delta.{IsTrieMap, IsRow, row, over}
use lachesis.Trie.Apply.{rows_of, apply_trie_delta-row}
use lachesis.Bpf.{mac_key}
use lachesis.Base.Word.{u32_mod}
use lachesis.Metadata.{lookup, range, rows_below, insert}
use lachesis.Tests.Data.{mac_set, InMacSet, mac_set-IsMacMap, vm, known, known-IsSharded}
use lachesis.Trie.Write.{
  write_subnet_zone_trie, write_subnet_zone_trie-row, write_entries, write_entry, counted,
}
use lachesis.KernelMap.{
  tenant_value, tenant_value_injective, write_mac_tenant_map, collect_pairs, add_pair, write_pairs,
  write_mac_tenant_map-known, counted as counted_mac,
}
use lachesis.Trie.{Rows}
use lachesis.Trie.Retried.{attempts, apply_rows_retried}
use lachesis.Trie.Present.{apply_trie_delta-present}

abbrev pub tries : TrieMap
tries = record {
  Kernel = LpmKey → Option ℕ;
  update = λ k key v. (true, λ q. ite (LpmKey-discrete key q) (some v) (k q));
  remove = λ k key. (true, λ q. ite (LpmKey-discrete key q) none (k q));
}

abbrev read_tries : (LpmKey → Option ℕ) → LpmKey → Option ℕ
read_tries k key = k key

tries-IsTrieMap : IsTrieMap tries read_tries
tries-IsTrieMap = record { updated = λ k key q v. refl; removed = λ k key q. refl }

abbrev pub same : ℕ → ℕ
same a = a

same_injective : (a b : ℕ) → same a ≡ same b → a ≡ b
same_injective a b e = e

abbrev pub entry : TrieEntry
entry = record { tenant_id = "red"; prefix = record { addr = 10; bits = 24 }; zone = 1 }

abbrev pub empty : LpmKey → Option ℕ
empty key = none

abbrev rk : TrieRowKey
rk = record { tid = 1; prefix = record { addr = 10; bits = 24 } }

empty-rows :
    (q : TrieRowKey)
    → IsRow q
    → row tries same same_injective read_tries tries-IsTrieMap empty q
      ≡ get TrieRowKey-discrete (rows_of [] (index_rows (entry ∷ []) ([], Interner.new)).1) q
unfolding row index_rows get
empty-rows q h = refl

all-written : (apply_trie_delta tries same [] (entry ∷ []) Interner.new empty).0.failed ≡ false
unfolding apply_trie_delta index_rows apply_rows upsert_rows upsert_row upserted delete_rows put get
all-written = refl

apply_trie_delta-row_example :
    row tries same same_injective read_tries tries-IsTrieMap
      (apply_trie_delta tries same [] (entry ∷ []) Interner.new empty).0.kernel
      rk
    ≡ get TrieRowKey-discrete (rows_of (entry ∷ []) Interner.new) rk
apply_trie_delta-row_example =
    apply_trie_delta-row tries same same_injective read_tries tries-IsTrieMap [] (entry ∷ [])
      Interner.new empty tt (omega arith, tt) empty-rows all-written rk (omega arith)

entry-wanted : get TrieRowKey-discrete (rows_of (entry ∷ []) Interner.new) rk ≢ none
unfolding index_rows intern put get TrieRowKey-discrete Prefix-discrete ℕ_discrete
entry-wanted e = cc

rk-there : row tries same same_injective read_tries tries-IsTrieMap (λ key. some 4) rk ≢ none
unfolding row
rk-there e = cc

apply_trie_delta-present_example :
    row tries same same_injective read_tries tries-IsTrieMap
      (apply_trie_delta tries same (entry ∷ []) (entry ∷ []) Interner.new (λ key. some 4)).0.kernel
      rk
    ≢ none
apply_trie_delta-present_example =
    apply_trie_delta-present tries same same_injective read_tries tries-IsTrieMap (entry ∷ [])
      (entry ∷ []) Interner.new (λ key. some 4) rk (omega arith, tt) (omega arith) rk-there
      entry-wanted

all-entries_written :
    (write_subnet_zone_trie tries same (entry ∷ []) Interner.new empty).failed ≡ false
unfolding write_subnet_zone_trie write_entries write_entry counted
all-entries_written = refl

write_subnet_zone_trie-row_example :
    (row tries same same_injective read_tries tries-IsTrieMap
        (write_subnet_zone_trie tries same (entry ∷ []) Interner.new empty).kernel
        rk
      ≡ over
          (get TrieRowKey-discrete (rows_of (entry ∷ []) Interner.new) rk)
          (row tries same same_injective read_tries tries-IsTrieMap empty rk))
    × ((write_subnet_zone_trie tries same (entry ∷ []) Interner.new empty).interner
        ≡ (index_rows (entry ∷ []) ([], Interner.new)).1)
    × ((write_subnet_zone_trie tries same (entry ∷ []) Interner.new empty).written
        ≡ length (entry ∷ []))
write_subnet_zone_trie-row_example =
    write_subnet_zone_trie-row tries same same_injective read_tries tries-IsTrieMap (entry ∷ [])
      Interner.new empty rk (omega arith, tt) (omega arith) all-entries_written

abbrev seven : ℕ
seven = 7

tenant_value_injective_example :
    (seven ≡ seven) × (true ≡ true) × (tenant_value seven true < u32_mod)
tenant_value_injective_example =
    tenant_value_injective seven seven true true (omega arith) (omega arith) refl

none-held : (q : ℕ) → ¬ InMacSet (λ mac. false) q
none-held q e = cc

vm-written :
    InMacSet (write_mac_tenant_map mac_set known Interner.new (λ mac. false)).0.kernel (mac_key vm)
unfolding write_mac_tenant_map collect_pairs add_pair write_pairs counted_mac range rows_below
    insert put mac_key ℕ_discrete
vm-written = refl

write_mac_tenant_map-known_example : lookup known (mac_key vm) ≢ none
write_mac_tenant_map-known_example =
    write_mac_tenant_map-known mac_set InMacSet mac_set-IsMacMap known Interner.new (λ mac. false)
      known-IsSharded none-held (mac_key vm) vm-written

-- A map whose first update fails.
abbrev flaky : TrieMap
flaky = record {
  Kernel = ℕ × (LpmKey → Option ℕ);
  update = λ k key v.
      if k.0 == 0
      then (false, (1, k.1))
      else (true, (k.0, λ q. ite (LpmKey-discrete key q) (some v) (k.1 q)));
  remove = λ k key. (true, (k.0, λ q. ite (LpmKey-discrete key q) none (k.1 q)));
}

abbrev read_flaky : ℕ × (LpmKey → Option ℕ) → LpmKey → Option ℕ
read_flaky k key = k.1 key

flaky-IsTrieMap : IsTrieMap flaky read_flaky
flaky-IsTrieMap = record {
  updated = λ k key q v. elim (Bool-cases (k.0 == 0)) [
    | inl first ↦ rw first refl
    | inr later ↦ rw later refl
  ];
  removed = λ k key q. refl;
}

abbrev wanted_rows : Rows
wanted_rows = (rk, 1) ∷ []

empty-flaky :
    (q : TrieRowKey)
    → IsRow q
    → row flaky same same_injective read_flaky flaky-IsTrieMap (0, empty) q
      ≡ get TrieRowKey-discrete [] q
unfolding row get
empty-flaky q h = refl

-- The first pass fails, and the second one does not.
first-failed : (apply_rows flaky same [] wanted_rows (0, empty)).failed ≡ true
unfolding apply_rows upsert_rows upsert_row upserted get
first-failed = refl

apply_rows_retried_example :
    let before = attempts flaky same [] wanted_rows 1 (0, empty) in
    let pass = apply_rows flaky same [] wanted_rows before in
    let read = row flaky same same_injective read_flaky flaky-IsTrieMap in
    ((read before rk ≡ get TrieRowKey-discrete [] rk)
      ⊎ (read before rk ≡ get TrieRowKey-discrete wanted_rows rk))
    × ((pass.failed ≡ true) ⊎ (read pass.kernel rk ≡ get TrieRowKey-discrete wanted_rows rk))
apply_rows_retried_example =
    apply_rows_retried flaky same same_injective read_flaky flaky-IsTrieMap [] wanted_rows tt
      (unfold get in (refl, tt)) tt (omega arith, tt) 1 (0, empty) empty-flaky rk (omega arith)
