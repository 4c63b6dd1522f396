-- ===== src/Gc/Ghost/Kernel.antt =====
-- internal/gc/ghost.go: which entries a sweep removes, and that the kernel's map stays within the
-- metadata map.
use mathlib.Core.Logic.{if_neg}
use mathlib.Core.Path.{subst}
use native.Mathlib.Decide.{ℕ_discrete}
use lachesis.Base.{
  ℕ, ◌≤◌, ◌≡◌, ◌≢◌, refl, sym, ◌∙◌, Bool, true, false, none, some, List, [], ◌∷◌, arith, ◌⊎◌,
  Option-cases, Bool-cases, inl, inr, ltb, if◌then◌else◌, ◌==◌,
}
use lachesis.Base.GoMap.{GoMap, get, put, get-put_ne}
use lachesis.Base.GoMap.Range.{AllRows}
use lachesis.Metadata.{TenantMeta, ShardedMetadataMap, RouterMacs, lookup, remove, range}
use lachesis.Metadata.Sharded.{IsSharded, lookup-remove_self, remove-IsSharded, range-AllRows}
use lachesis.Gc.Ghost.{
  MacSet, MacEvictor, MacFlowEvictor, World, classify_row, classify, delete_kernel_macs,
  delete_userspace, sweep,
}
use lachesis.Gc.Ghost.Exposed.{delete_userspace-absent, delete_userspace-unknown}

-- The grace of a MAC's entry is over.
abbrev pub IsExpired : ShardedMetadataMap → ℕ → ℕ → Type 0
IsExpired m now mac =
    (meta : TenantMeta) × (lookup m mac ≡ some meta) × (meta.delete_at ≢ 0) × (meta.delete_at ≤ now)

abbrev All : (ℕ → Type 0) → List ℕ → Type 0
All P [] = Unit
All P (x ∷ xs) = P x × All P xs

classify_row-IsExpired :
    (m : ShardedMetadataMap) (now mac : ℕ) (meta : TenantMeta) (s : List ℕ × ℕ)
    → lookup m mac ≡ some meta
    → All (IsExpired m now) s.0
    → All (IsExpired m now) (classify_row now mac meta.delete_at s).0
unfolding classify_row
classify_row-IsExpired m now mac meta s e h = elim (Bool-cases (meta.delete_at == 0)) [
  | inl live ↦ rw live h
  | inr dying ↦ elim (Bool-cases (ltb now meta.delete_at)) [
    | inl young ↦ rw (dying, young) h
    | inr over ↦ rw (dying, over) ((meta, e, ground arith, ground arith), h)
  ]
]

classify-IsExpired :
    (m : ShardedMetadataMap) (now : ℕ) (rows : GoMap ℕ TenantMeta)
    → AllRows (λ mac meta. lookup m mac ≡ some meta) rows
    → All (IsExpired m now) (classify now rows).0
unfolding classify
classify-IsExpired m now [] h = tt
classify-IsExpired m now ((mac, meta) ∷ rows) h =
    classify_row-IsExpired m now mac meta (classify now rows) h.0
      (classify-IsExpired m now rows h.1)

put_if-All :
    (P : ℕ → Type 0) (gone : Bool) (swept : MacSet) (mac : ℕ)
    → P mac
    → ((q : ℕ) → get ℕ_discrete swept q ≢ none → P q)
    → (q : ℕ) → get ℕ_discrete (if gone then put ℕ_discrete swept mac tt else swept) q ≢ none
    → P q
put_if-All P false swept mac p h q e = h q e
put_if-All P true swept mac p h q e = elim (ℕ_discrete mac q) [
  | yes same ↦ subst P same p
  | no other ↦ h q (λ absent. e (get-put_ne ℕ_discrete swept mac q tt other ∙ absent))
]

module _ (E : MacEvictor) where
  delete_kernel_macs-All :
      (P : ℕ → Type 0) (expired : List ℕ) (s : MacSet × E.Kernel)
      → All P expired
      → ((q : ℕ) → get ℕ_discrete s.0 q ≢ none → P q)
      → (q : ℕ) → get ℕ_discrete (delete_kernel_macs E expired s).0 q ≢ none
      → P q
  unfolding delete_kernel_macs
  delete_kernel_macs-All P [] s a h = h
  delete_kernel_macs-All P (mac ∷ expired) s a h =
      let (gone, kernel) = E.evict s.1 mac in
      delete_kernel_macs-All P expired (if gone then put ℕ_discrete s.0 mac tt else s.0, kernel) a.1
        (put_if-All P gone s.0 mac a.0 h)

  -- What the program relies on of the kernel's map: a deletion that succeeds removes the MAC, and no
  -- deletion brings another MAC in.
  pub record IsEvictor (holds : E.Kernel → ℕ → Type 0) : Type 0 where
    pub deleted :
        (k : E.Kernel) (mac : ℕ) → (E.evict k mac).0 ≡ true → ¬ holds (E.evict k mac).1 mac
    pub kept : (k : E.Kernel) (mac q : ℕ) → holds (E.evict k mac).1 q → holds k q

  module _ (holds : E.Kernel → ℕ → Type 0) (law : IsEvictor holds) where
    put_if-gone :
        (gone : Bool) (k : E.Kernel) (swept : MacSet) (mac : ℕ)
        → (E.evict k mac).0 ≡ gone
        → ((q : ℕ) → get ℕ_discrete swept q ≢ none → ¬ holds k q)
        → (q : ℕ) → get ℕ_discrete (if gone then put ℕ_discrete swept mac tt else swept) q ≢ none
        → ¬ holds (E.evict k mac).1 q
    put_if-gone false k swept mac e h q ne there = h q ne (law.kept k mac q there)
    put_if-gone true k swept mac e h q ne there = elim (ℕ_discrete mac q) [
      | yes same ↦ law.deleted k mac e (subst (holds (E.evict k mac).1) (sym same) there)
      | no other ↦
          h q (λ absent. ne (get-put_ne ℕ_discrete swept mac q tt other ∙ absent))
            (law.kept k mac q there)
    ]

    -- A swept MAC is gone from the kernel, and nothing has come into it.
    delete_kernel_macs-holds :
        (expired : List ℕ) (s : MacSet × E.Kernel)
        → ((q : ℕ) → get ℕ_discrete s.0 q ≢ none → ¬ holds s.1 q)
        → (q : ℕ) → holds (delete_kernel_macs E expired s).1 q
        → holds s.1 q × (get ℕ_discrete (delete_kernel_macs E expired s).0 q ≡ none)
    unfolding delete_kernel_macs
    delete_kernel_macs-holds [] s h q there = elim (Option-cases (get ℕ_discrete s.0 q)) [
      | inl e ↦ (there, e)
      | inr (u, e) ↦ absurd (h q (λ absent. cc) there)
    ]
    delete_kernel_macs-holds (mac ∷ expired) s h q there =
        let (gone, kernel) = E.evict s.1 mac in
        let (before, absent) =
          delete_kernel_macs-holds expired (if gone then put ℕ_discrete s.0 mac tt else s.0, kernel)
            (put_if-gone gone s.1 s.0 mac refl h) q there in
        (law.kept s.1 mac q before, absent)

delete_userspace-present :
    (swept : MacSet) (m : ShardedMetadataMap) (q : ℕ)
    → IsSharded m
    → get ℕ_discrete swept q ≢ none
    → lookup (delete_userspace swept m) q ≡ none
unfolding delete_userspace get
delete_userspace-present [] m q s h = absurd (h refl)
delete_userspace-present ((mac, u) ∷ swept) m q s h = elim (ℕ_discrete mac q) [
  | yes same ↦
      delete_userspace-unknown swept (remove m mac) q (remove-IsSharded m mac s)
        (rw (← same) (lookup-remove_self m mac s))
  | no other ↦
      delete_userspace-present swept (remove m mac) q (remove-IsSharded m mac s)
        (λ absent. h (if_neg (ℕ_discrete mac q) other _ _ ∙ absent))
]

module _ (E : MacEvictor) (F : MacFlowEvictor) (routers : RouterMacs) (now : ℕ) (w : World E F)
    (sharded : IsSharded w.meta) where
  swept_of : MacSet
  swept_of = (delete_kernel_macs E (classify now (range w.meta)).0 ([], w.kernel)).0

  swept_of-IsExpired : (q : ℕ) → get ℕ_discrete swept_of q ≢ none → IsExpired w.meta now q
  unfolding swept_of get
  swept_of-IsExpired =
      delete_kernel_macs-All E (IsExpired w.meta now) (classify now (range w.meta)).0 ([], w.kernel)
        (classify-IsExpired w.meta now (range w.meta) (range-AllRows w.meta sharded))
        (λ q ne. absurd (ne refl))

  meta_after : (sweep E F routers now w).0.meta ≡ delete_userspace swept_of w.meta
  unfolding sweep swept_of
  meta_after = refl

  -- On a well sharded metadata map, a sweep leaves the metadata of a MAC as it is, or removes it;
  -- it removes only entries that were marked deleted and whose deadline is not after now.
  pub sweep-IsExpired :
      (mac : ℕ)
      → (lookup (sweep E F routers now w).0.meta mac ≡ lookup w.meta mac)
        ⊎ ((lookup (sweep E F routers now w).0.meta mac ≡ none) × IsExpired w.meta now mac)
  sweep-IsExpired mac = rw meta_after (elim (Option-cases (get ℕ_discrete swept_of mac)) [
    | inl absent ↦ inl (delete_userspace-absent swept_of w.meta mac absent)
    | inr (u, e) ↦
        let ne : get ℕ_discrete swept_of mac ≢ none = λ absent. cc in
        inr (delete_userspace-present swept_of w.meta mac sharded ne, swept_of-IsExpired mac ne)
  ])

  -- The kernel's map stays within the metadata map: if the metadata map is well sharded, a
  -- deletion that succeeds removes its MAC and none brings a MAC in, and every MAC that the kernel
  -- holds is known before the sweep, then every MAC that it holds afterwards is still known, also
  -- where deletions in the kernel fail.
  pub sweep-superset :
      (holds : E.Kernel → ℕ → Type 0)
      → IsEvictor E holds
      → ((mac : ℕ) → holds w.kernel mac → lookup w.meta mac ≢ none)
      → (mac : ℕ) → holds (sweep E F routers now w).0.kernel mac
      → lookup (sweep E F routers now w).0.meta mac ≢ none
  unfolding sweep
  sweep-superset holds law within mac there =
      let (before, absent) =
        delete_kernel_macs-holds E holds law (classify now (range w.meta)).0 ([], w.kernel)
          (λ q ne. absurd (ne (unfold get in refl))) mac there in
      λ unknown. within mac before (
        sym (
          delete_userspace-absent
            (delete_kernel_macs E (classify now (range w.meta)).0 ([], w.kernel)).0 w.meta mac
            absent)
        ∙ unknown)

delete_userspace-IsSharded :
    (swept : MacSet) (m : ShardedMetadataMap) → IsSharded m → IsSharded (delete_userspace swept m)
unfolding delete_userspace
delete_userspace-IsSharded [] m h = h
delete_userspace-IsSharded ((mac, u) ∷ swept) m h =
    delete_userspace-IsSharded swept (remove m mac) (remove-IsSharded m mac h)

-- A sweep keeps the metadata map well sharded.
pub sweep-IsSharded :
    (E : MacEvictor) (F : MacFlowEvictor) (routers : RouterMacs) (now : ℕ) (w : World E F)
    → IsSharded w.meta
    → IsSharded (sweep E F routers now w).0.meta
unfolding sweep
sweep-IsSharded E F routers now w =
    delete_userspace-IsSharded
      (delete_kernel_macs E (classify now (range w.meta)).0 ([], w.kernel)).0 w.meta
