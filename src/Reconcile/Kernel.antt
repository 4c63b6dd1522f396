-- ===== src/Reconcile/Kernel.antt =====
-- internal/reconcile/mac.go: the kernel's `mac_tenant_map` stays within the metadata map.
use native.Mathlib.Decide.{ℕ_discrete}
use mathlib.Core.Logic.{if_neg}
use lachesis.Base.{
  ℕ, ◌+◌, ◌≡◌, ◌≢◌, sym, ◌∙◌, Option, none, some, List, [], ◌∷◌, ◌==◌, arith, Bool-cases, ◌⊎◌, inl,
  inr,
}
use lachesis.Base.GoMap.{GoMap}
use lachesis.Metadata.{
  TenantMeta, ShardedMetadataMap, RouterMacs, lookup, mark_delete, same_attribution, range,
}
use lachesis.Metadata.Sharded.{lookup-mark_delete}
use lachesis.KernelMap.{MacMap, IsMacMap}
use lachesis.Reconcile.{
  World, Learned, learn_mac, insert_mac, learn_rows, learn_macs, gone_macs, mark_all,
  ghost_gone_macs, reconcile_macs,
}
use lachesis.Reconcile.Macs.{lookup-learn_mac}

mark_all-known :
    (at : ℕ) (gone : List ℕ) (m : ShardedMetadataMap) (q : ℕ)
    → lookup m q ≢ none
    → lookup (mark_all at gone m) q ≢ none
unfolding mark_all
mark_all-known at [] m q h = h
mark_all-known at (mac ∷ gone) m q h =
    mark_all-known at gone (mark_delete m mac at).0 q
      (λ e. h (ground (arith, lookup-mark_delete m mac at q)))

module _ (T : MacMap) (holds : T.Kernel → ℕ → Type 0) (law : IsMacMap T holds)
    (routers : RouterMacs) where
  -- A round brings no other MAC into the kernel's map than its own.
  learn_mac-brought :
      (mac : ℕ) (want : TenantMeta) (s : Learned T) (q : ℕ) (cur : Option TenantMeta)
      → holds (learn_mac T routers mac want cur s).world.kernel q
      → holds s.world.kernel q ⊎ (mac ≡ q)
  unfolding learn_mac insert_mac
  learn_mac-brought mac want s q none = λ there. law.brought s.world.kernel mac _ q there
  learn_mac-brought mac want s q (some cur) = elim (Bool-cases (same_attribution cur want)) [
    | inl same ↦ elim (Bool-cases (cur.delete_at == 0)) [
      | inl alive ↦ rw (same, alive) (λ there. inl there)
      | inr dying ↦ rw (same, dying) (λ there. law.brought s.world.kernel mac _ q there)
    ]
    | inr other ↦ rw other (λ there. law.brought s.world.kernel mac _ q there)
  ]

  learn_rows-known :
      (desired : GoMap ℕ TenantMeta) (s : Learned T)
      → ((q : ℕ) → holds s.world.kernel q → lookup s.world.meta q ≢ none)
      → (q : ℕ) → holds (learn_rows T routers desired s).world.kernel q
      → lookup (learn_rows T routers desired s).world.meta q ≢ none
  unfolding learn_rows
  learn_rows-known [] s within = within
  learn_rows-known ((mac, want) ∷ desired) s within =
      learn_rows-known desired (learn_mac T routers mac want (lookup s.world.meta mac) s)
        (λ q there absent. elim (ℕ_discrete mac q) [
          | yes own ↦ ground (arith, lookup-learn_mac T routers mac want s q)
          | no other ↦ elim (learn_mac-brought mac want s q (lookup s.world.meta mac) there) [
            | inl before ↦ within q before (
                sym (lookup-learn_mac T routers mac want s q ∙ if_neg (ℕ_discrete mac q) other _ _)
                ∙ absent)
            | inr own ↦ other own
          ]
        ])

  -- If a call brings in no other MAC than its own and every MAC that the kernel holds is known before a
  -- pass, then every MAC that it holds afterwards is known, whichever writes fail.
  pub reconcile_macs-known :
      (now grace : ℕ) (desired : GoMap ℕ TenantMeta) (w : World T)
      → ((q : ℕ) → holds w.kernel q → lookup w.meta q ≢ none)
      → (q : ℕ) → holds (reconcile_macs T routers now grace desired w).0.kernel q
      → lookup (reconcile_macs T routers now grace desired w).0.meta q ≢ none
  unfolding reconcile_macs learn_macs ghost_gone_macs
  reconcile_macs-known now grace desired w within q there =
      let start : Learned T = record { world = w; inserted = 0; changed = 0 } in
      let s = learn_rows T routers desired start in
      mark_all-known (now + grace) (gone_macs desired (range s.world.meta) ([], 0)).0 s.world.meta q
        (learn_rows-known desired start within q there)
