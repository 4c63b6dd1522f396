-- ===== src/Trie.antt =====
-- internal/kernelwriter/delta.go: moving the kernel's `subnet_zone_trie` from one list of rows to
-- another. The kernel's map and the machine's byte order are parameters.
pub mod Delta
pub mod Apply
pub mod Retried
pub mod Present
pub mod Write
use native.Mathlib.Decide.{ℕ_discrete}
use lachesis.Base.{
  ℕ, ◌+◌, ◌%◌, String, Bool, true, false, not, ◌||◌, Option, none, some, List, [], ◌∷◌,
  if◌then◌else◌, ◌==◌,
}
use lachesis.Base.Word.{u32_mod}
use lachesis.Base.GoMap.{GoMap, get, put}
use lachesis.Bpf.{lpm_key_tenant_bits}
use lachesis.Metadata.Interner.{TenantInterner, intern}

-- An IPv4 `netip.Prefix`.
pub record Prefix : Type 0 where
  pub addr : ℕ
  pub bits : ℕ

pub record TrieEntry : Type 0 where
  pub tenant_id : String
  pub prefix : Prefix
  pub zone : ℕ

-- `trieRowKey`
pub record TrieRowKey : Type 0 where
  pub tid : ℕ
  pub prefix : Prefix

pub record LpmKey : Type 0 where
  pub prefixlen : ℕ
  pub tenant_id : ℕ
  pub ip : ℕ

unfoldable pub Prefix-discrete : Discrete Prefix
Prefix-discrete = hlevel ℕ_discrete

unfoldable pub TrieRowKey-discrete : Discrete TrieRowKey
unfolding Prefix-discrete
TrieRowKey-discrete = hlevel (ℕ_discrete, Prefix-discrete)

unfoldable pub LpmKey-discrete : Discrete LpmKey
LpmKey-discrete = hlevel ℕ_discrete

-- `MapUpdateDeleter`: the kernel's map; each call may fail
pub record TrieMap : Type 1 where
  pub Kernel : Type 0
  pub update : Kernel → LpmKey → ℕ → Bool × Kernel
  pub remove : Kernel → LpmKey → Bool × Kernel

pub record TrieDelta : Type 0 where
  pub added : ℕ
  pub changed : ℕ
  pub removed : ℕ

-- The indices `newRows` and `oldRows`.
abbrev pub Rows : Type 0
Rows = GoMap TrieRowKey ℕ

-- The loops that build them; a project is interned on the way.
unfoldable pub index_rows : List TrieEntry → Rows × TenantInterner → Rows × TenantInterner
unfolding intern
index_rows [] s = s
index_rows (e ∷ entries) (rows, interner) =
    let (tid, interner') = intern interner e.tenant_id in
    index_rows entries (
      put TrieRowKey-discrete rows (record { tid = tid; prefix = e.prefix }) (e.zone % 256),
      interner',
    )

-- The kernel's map, the counts and `firstErr != nil` while a pass runs.
pub record Pass (T : TrieMap) : Type 0 where
  pub kernel : T.Kernel
  pub delta : TrieDelta
  pub failed : Bool

-- `existed && prev == zone`
abbrev pub unchanged : Option ℕ → ℕ → Bool
unchanged none zone = false
unchanged (some prev) zone = prev == zone

abbrev pub count_upsert : Option ℕ → TrieDelta → TrieDelta
count_upsert none d = record d { added = d.added + 1 }
count_upsert (some prev) d = record d { changed = d.changed + 1 }

module _ (T : TrieMap) (native_endian : ℕ → ℕ) where
  -- `LpmKeyForPrefix` on an IPv4 prefix
  unfoldable pub lpm_key_for_prefix : TrieRowKey → LpmKey
  lpm_key_for_prefix rk = record {
    prefixlen = (lpm_key_tenant_bits + rk.prefix.bits) % u32_mod;
    tenant_id = rk.tid;
    ip = native_endian rk.prefix.addr;
  }

  -- After the call of `Update`.
  unfoldable pub upserted : Option ℕ → Bool × T.Kernel → Pass T → Pass T
  upserted prev (ok, kernel) s = record {
    kernel = kernel;
    delta = if ok then count_upsert prev s.delta else s.delta;
    failed = s.failed || not ok;
  }

  -- One round of phase 1.
  unfoldable pub upsert_row : Option ℕ → TrieRowKey → ℕ → Pass T → Pass T
  unfolding upserted lpm_key_for_prefix
  upsert_row prev rk zone s =
      if unchanged prev zone
      then s
      else upserted prev (T.update s.kernel (lpm_key_for_prefix rk) zone) s

  unfoldable pub upsert_rows : Rows → Rows → Pass T → Pass T
  unfolding upsert_row
  upsert_rows old [] s = s
  upsert_rows old ((rk, zone) ∷ rows) s =
      upsert_rows old rows (upsert_row (get TrieRowKey-discrete old rk) rk zone s)

  -- After the call of `Delete`.
  unfoldable pub deleted : Bool × T.Kernel → Pass T → Pass T
  deleted (ok, kernel) s = record {
    kernel = kernel;
    delta = if ok then record (s.delta) { removed = s.delta.removed + 1 } else s.delta;
    failed = s.failed || not ok;
  }

  -- One round of phase 2.
  unfoldable pub delete_row : Option ℕ → TrieRowKey → Pass T → Pass T
  unfolding deleted lpm_key_for_prefix
  delete_row (some kept) rk s = s
  delete_row none rk s = deleted (T.remove s.kernel (lpm_key_for_prefix rk)) s

  unfoldable pub delete_rows : Rows → Rows → Pass T → Pass T
  unfolding delete_row
  delete_rows new [] s = s
  delete_rows new ((rk, zone) ∷ rows) s =
      delete_rows new rows (delete_row (get TrieRowKey-discrete new rk) rk s)

  -- The two phases on the two indices.
  unfoldable pub apply_rows : Rows → Rows → T.Kernel → Pass T
  unfolding upsert_rows delete_rows
  apply_rows old new kernel =
      let s = upsert_rows old new (record {
        kernel = kernel;
        delta = record { added = 0; changed = 0; removed = 0 };
        failed = false;
      }) in
      if s.failed then s else delete_rows new old s

  -- `ApplyTrieDelta`: the pass, and the interner after it
  unfoldable pub apply_trie_delta :
      List TrieEntry → List TrieEntry → TenantInterner → T.Kernel → Pass T × TenantInterner
  unfolding index_rows apply_rows
  apply_trie_delta old_entries new_entries interner kernel =
      let (new, interner') = index_rows new_entries ([], interner) in
      let (old, interner'') = index_rows old_entries ([], interner') in
      (apply_rows old new kernel, interner'')
