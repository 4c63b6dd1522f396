-- ===== src/KernelMap.antt =====
-- `WriteMacTenantMap` of internal/kernelwriter/writer.go: the cold start's write of the MACs that are
-- known, with the packed value of `TenantValue` (internal/bpf/schema.go).
use mathlib.Core.Path.{subst}
use lachesis.Base.Word.{u32_mod}
use text.Mathlib.Text.{◌==◌ as str_eq}
use lachesis.Base.{
  ℕ, ◌+◌, ◌<◌, ◌≤◌, ◌≡◌, ◌≢◌, refl, Bool, true, false, not, ◌||◌, none, some, [], ◌∷◌, ◌++◌,
  Bool-cases, arith, if◌then◌else◌, ltb, ◌⊎◌, inl, inr,
}
use lachesis.Base.GoMap.{GoMap}
use lachesis.Base.GoMap.Range.{AllRows, AllRows-append}
use lachesis.Bpf.{tenant_amphora_flag, tenant_id_mask}
use lachesis.Metadata.{TenantMeta, ShardedMetadataMap, lookup, range}
use lachesis.Metadata.Sharded.{IsSharded, range-AllRows}
use lachesis.Metadata.Interner.{TenantInterner, intern}

-- `TenantValue`: the flag is the top bit of the word, so `tenantID | TenantAmphoraFlag` sets it where
-- it is not set yet.
unfoldable pub tenant_value : ℕ → Bool → ℕ
tenant_value tenant_id false = tenant_id
tenant_value tenant_id true =
    if ltb tenant_id tenant_amphora_flag then tenant_id + tenant_amphora_flag else tenant_id

-- `MapUpdater`, on `mac_tenant_map`; a call may fail
pub record MacMap : Type 1 where
  pub Kernel : Type 0
  pub update : Kernel → ℕ → ℕ → Bool × Kernel

-- The callback of `Range`, on one entry: the pairs so far, and the interner.
unfoldable pub add_pair : ℕ → TenantMeta → GoMap ℕ ℕ × TenantInterner → GoMap ℕ ℕ × TenantInterner
unfolding tenant_value intern
add_pair mac meta (pairs, interner) =
    let (tid, interner') = intern interner meta.project_id in
    if str_eq meta.project_id ""
    then (pairs, interner)
    else (pairs ++ ((mac, tenant_value tid meta.is_amphora) ∷ []), interner')

unfoldable pub collect_pairs :
    GoMap ℕ TenantMeta → GoMap ℕ ℕ × TenantInterner → GoMap ℕ ℕ × TenantInterner
unfolding add_pair
collect_pairs [] s = s
collect_pairs ((mac, meta) ∷ rows) s = collect_pairs rows (add_pair mac meta s)

-- The kernel's map, the count and `firstErr != nil` while the writes run.
pub record Progress (T : MacMap) : Type 0 where
  pub kernel : T.Kernel
  pub written : ℕ
  pub failed : Bool

module _ (T : MacMap) where
  -- After the call of `Update`.
  unfoldable pub counted : Bool × T.Kernel → Progress T → Progress T
  counted (ok, kernel) s = record {
    kernel = kernel;
    written = if ok then s.written + 1 else s.written;
    failed = s.failed || not ok;
  }

  unfoldable pub write_pairs : GoMap ℕ ℕ → Progress T → Progress T
  unfolding counted
  write_pairs [] s = s
  write_pairs ((mac, tid) ∷ pairs) s = write_pairs pairs (counted (T.update s.kernel mac tid) s)

  -- `WriteMacTenantMap`, and the interner after it
  unfoldable pub write_mac_tenant_map :
      ShardedMetadataMap → TenantInterner → T.Kernel → Progress T × TenantInterner
  unfolding collect_pairs write_pairs
  write_mac_tenant_map snap interner kernel =
      let (pairs, interner') = collect_pairs (range snap) ([], interner) in
      (write_pairs pairs (record { kernel = kernel; written = 0; failed = false }), interner')

-- Two words that hold the same value hold the same tenant and the same marker, if the tenants' numbers
-- do not exceed `TenantIDMask`; and the value fits in 32 bits.
pub tenant_value_injective :
    (s t : ℕ) (a b : Bool)
    → s ≤ tenant_id_mask
    → t ≤ tenant_id_mask
    → tenant_value s a ≡ tenant_value t b
    → (s ≡ t) × (a ≡ b) × (tenant_value s a < u32_mod)
unfolding tenant_value
tenant_value_injective s t false false hs ht e = (e, refl, omega arith)
tenant_value_injective s t false true hs ht e = ground arith
tenant_value_injective s t true false hs ht e = ground arith
tenant_value_injective s t true true hs ht e = ground arith

-- What the program relies on of the kernel's map: a call brings in no other MAC than its own.
pub record IsMacMap (T : MacMap) (holds : T.Kernel → ℕ → Type 0) : Type 0 where
  pub brought : (k : T.Kernel) (mac v q : ℕ) → holds (T.update k mac v).1 q → holds k q ⊎ (mac ≡ q)

add_pair-AllRows :
    (P : ℕ → Type 0) (mac : ℕ) (meta : TenantMeta) (s : GoMap ℕ ℕ × TenantInterner)
    → P mac
    → AllRows (λ q v. P q) s.0
    → AllRows (λ q v. P q) (add_pair mac meta s).0
unfolding add_pair
add_pair-AllRows P mac meta s h a = elim (Bool-cases (str_eq meta.project_id "")) [
  | inl e ↦ rw e a
  | inr e ↦ rw e (AllRows-append (λ q v. P q) s.0 _ a (h, tt))
]

collect_pairs-AllRows :
    (P : ℕ → Type 0) (rows : GoMap ℕ TenantMeta) (s : GoMap ℕ ℕ × TenantInterner)
    → AllRows (λ q meta. P q) rows
    → AllRows (λ q v. P q) s.0
    → AllRows (λ q v. P q) (collect_pairs rows s).0
unfolding collect_pairs
collect_pairs-AllRows P [] s h a = a
collect_pairs-AllRows P ((mac, meta) ∷ rows) s h a =
    collect_pairs-AllRows P rows (add_pair mac meta s) h.1 (add_pair-AllRows P mac meta s h.0 a)

AllRows-weaken :
    (P : ℕ → TenantMeta → Type 0) (Q : ℕ → Type 0) (rows : GoMap ℕ TenantMeta)
    → ((q : ℕ) (meta : TenantMeta) → P q meta → Q q)
    → AllRows P rows
    → AllRows (λ q meta. Q q) rows
AllRows-weaken P Q [] f a = tt
AllRows-weaken P Q ((q, meta) ∷ rows) f a = (f q meta a.0, AllRows-weaken P Q rows f a.1)

module _ (T : MacMap) (holds : T.Kernel → ℕ → Type 0) (law : IsMacMap T holds) where
  write_pairs-holds :
      (P : ℕ → Type 0) (pairs : GoMap ℕ ℕ) (s : Progress T)
      → AllRows (λ q v. P q) pairs
      → ((q : ℕ) → holds s.kernel q → P q)
      → (q : ℕ) → holds (write_pairs T pairs s).kernel q
      → P q
  unfolding write_pairs counted
  write_pairs-holds P [] s a h q there = h q there
  write_pairs-holds P ((mac, v) ∷ pairs) s a h q there =
      write_pairs-holds P pairs (counted T (T.update s.kernel mac v) s) a.1
        (λ p now. elim (law.brought s.kernel mac v p now) [
          | inl before ↦ h p before
          | inr same ↦ subst P same a.0
        ])
        q there

  -- The cold start puts only known MACs into the kernel: if the kernel's map is empty, the metadata map
  -- is well sharded and a call brings in no other MAC than its own, then every MAC that the kernel
  -- holds after `WriteMacTenantMap` is known, whichever calls fail.
  pub write_mac_tenant_map-known :
      (snap : ShardedMetadataMap) (interner : TenantInterner) (k : T.Kernel)
      → IsSharded snap
      → ((q : ℕ) → ¬ holds k q)
      → (q : ℕ) → holds (write_mac_tenant_map T snap interner k).0.kernel q
      → lookup snap q ≢ none
  unfolding write_mac_tenant_map
  write_mac_tenant_map-known snap interner k sharded fresh =
      write_pairs-holds (λ q. lookup snap q ≢ none) (collect_pairs (range snap) ([], interner)).0
        (record { kernel = k; written = 0; failed = false })
        (collect_pairs-AllRows (λ q. lookup snap q ≢ none) (range snap) ([], interner)
          (AllRows-weaken (λ q meta. lookup snap q ≡ some meta) (λ q. lookup snap q ≢ none)
            (range snap) (λ q meta e unknown. cc) (range-AllRows snap sharded))
          tt)
        (λ q there. absurd (fresh q there))
