-- ===== src/Reconcile/Settled.antt =====
-- internal/reconcile/mac.go: a second pass with the same snapshot finds nothing to do.
use native.Mathlib.Decide.{ℕ_discrete}
use mathlib.Core.Logic.{if_pos}
use lachesis.Base.{
  ℕ, ◌+◌, ◌<◌, ◌≡◌, refl, ap, ◌∙◌, Option, none, some, List, [], ◌∷◌, true, false, arith,
}
use lachesis.Base.GoMap.{GoMap, get, Distinct}
use lachesis.Base.GoMap.Range.{AllRows, AllRows-HoldsRows, HoldsRows-self}
use lachesis.Metadata.{
  TenantMeta, ShardedMetadataMap, RouterMacs, lookup, range, same_attribution, TenantMeta-discrete,
}
use lachesis.Metadata.Sharded.{IsSharded}
use lachesis.KernelMap.{MacMap}
use lachesis.Reconcile.{
  World, Learned, learn_mac, learn_rows, learn_macs, gone_macs, mark_all, ghost_gone_macs,
  reconcile_macs,
}
use lachesis.Reconcile.Macs.{
  live, contains, is_gone, contains-gone, lookup-reconcile_macs, reconcile_macs-IsSharded,
  reconciled,
}

same_attribution_self : (want : TenantMeta) → same_attribution (live want) want ≡ true
unfolding same_attribution
same_attribution_self want = if_pos (TenantMeta-discrete (live want) (live want)) refl _ _

abbrev IsWanted : ShardedMetadataMap → ℕ → TenantMeta → Type 0
IsWanted m mac want = lookup m mac ≡ some (live want)

module _ (T : MacMap) (routers : RouterMacs) where
  learn_mac-wanted :
      (mac : ℕ) (want : TenantMeta) (s : Learned T)
      → learn_mac T routers mac want (some (live want)) s ≡ s
  unfolding learn_mac
  learn_mac-wanted mac want s = rw (same_attribution_self want) refl

  learn_rows-wanted :
      (desired : GoMap ℕ TenantMeta) (s : Learned T)
      → AllRows (IsWanted s.world.meta) desired
      → learn_rows T routers desired s ≡ s
  unfolding learn_rows
  learn_rows-wanted [] s a = refl
  learn_rows-wanted ((mac, want) ∷ desired) s a =
      rw (a.0, learn_mac-wanted mac want s) (learn_rows-wanted desired s a.1)

  -- A pass with nothing to learn and nothing gone.
  reconcile_macs-idle :
      (now grace : ℕ) (desired : GoMap ℕ TenantMeta) (w : World T)
      → AllRows (IsWanted w.meta) desired
      → (gone_macs desired (range w.meta) ([], 0)).0 ≡ []
      → reconcile_macs T routers now grace desired w
        ≡ (w, record { inserted = 0; changed = 0; ghosted = 0 })
  unfolding reconcile_macs learn_macs ghost_gone_macs mark_all
  reconcile_macs-idle now grace desired w a e =
      rw (learn_rows-wanted desired (record { world = w; inserted = 0; changed = 0 }) a, e) refl

contains-none : (xs : List ℕ) → ((q : ℕ) → contains xs q ≡ false) → xs ≡ []
contains-none [] h = refl
contains-none (x ∷ xs) h = absurd (ground (arith, h x))

-- An entry that a pass left is not gone for the next.
is_gone-reconciled :
    (at mac : ℕ) (desired : GoMap ℕ TenantMeta) (cur : Option TenantMeta)
    → 0 < at
    → is_gone desired mac (reconciled at (get ℕ_discrete desired mac) cur) ≡ false
is_gone-reconciled at mac desired none pos = ground arith
is_gone-reconciled at mac desired (some m) pos = ground arith

module _ (T : MacMap) (routers : RouterMacs) (now grace : ℕ) (desired : GoMap ℕ TenantMeta)
    (w : World T) (sharded : IsSharded w.meta) (distinct : Distinct ℕ_discrete desired) where
  abbrev passed : World T
  passed = (reconcile_macs T routers now grace desired w).0

  passed-IsWanted : AllRows (IsWanted passed.meta) desired
  passed-IsWanted =
      AllRows-HoldsRows ℕ_discrete (IsWanted passed.meta) desired desired
        (HoldsRows-self ℕ_discrete desired distinct)
        (λ mac want e.
          lookup-reconcile_macs T routers now grace desired w sharded distinct mac
          ∙ ap (λ o. reconciled (now + grace) o (lookup w.meta mac)) e)

  passed-gone : 0 < now + grace → (gone_macs desired (range passed.meta) ([], 0)).0 ≡ []
  passed-gone pos = contains-none (gone_macs desired (range passed.meta) ([], 0)).0 (λ q.
      contains-gone desired passed.meta q
        (reconcile_macs-IsSharded T routers now grace desired w sharded)
      ∙ ap (is_gone desired q)
          (lookup-reconcile_macs T routers now grace desired w sharded distinct q)
      ∙ is_gone-reconciled (now + grace) q desired (lookup w.meta q) pos)

  -- A second pass with the same snapshot, at any time, changes neither the metadata map nor the store,
  -- the interner or the kernel's map, and counts nothing: also where writes to the kernel failed in the
  -- first one, which are so not made again. The metadata map is well sharded, the snapshot wants one
  -- entry for a MAC at most, and the deadline of the first pass is not the zero instant.
  pub reconcile_macs-repeated :
      (now' grace' : ℕ)
      → 0 < now + grace
      → reconcile_macs T routers now' grace' desired passed
        ≡ (passed, record { inserted = 0; changed = 0; ghosted = 0 })
  reconcile_macs-repeated now' grace' pos =
      reconcile_macs-idle T routers now' grace' desired passed passed-IsWanted (passed-gone pos)
