-- ===== src/Reconcile/Billing.antt =====
-- internal/reconcile/mac.go: a pass moves no series.
use native.Mathlib.Decide.{ℕ_discrete}
use mathlib.Core.Logic.{if_pos, if_neg}
use lachesis.Base.{
  ℕ, ◌+◌, ◌≡◌, ◌≢◌, refl, ap, ◌∙◌, Option, none, some, List, [], ◌∷◌, arith, Option-cases, inl, inr,
}
use lachesis.Base.GoMap.{GoMap, get}
use lachesis.Bpf.{FlowKey, FlowKey-discrete}
use lachesis.State.{GlobalState, Counter}
use lachesis.State.Exposure.{Meter}
use lachesis.State.Rows.{IsStore}
use lachesis.Metadata.{
  TenantMeta, ShardedMetadataMap, RouterMacs, lookup, mark_delete, range, vm_mac,
}
use lachesis.Metadata.Sharded.{lookup-mark_delete, ghosted}
use lachesis.Series.{SameSeries, SameSeries-refl, SameSeries-trans, SameSeries-relabel}
use lachesis.KernelMap.{MacMap}
use lachesis.Reconcile.{
  World, Learned, learn_mac, learn_rows, learn_macs, gone_macs, mark_all, ghost_gone_macs,
  reconcile_macs,
}
use lachesis.Reconcile.Macs.{lookup-learn_mac}
use lachesis.Base.GoMap.Range.{get-row_self, get-row_ne}
use lachesis.Reconcile.Learning.{
  known_as, owner_of-live, learn_mac-IsStore, learn_mac-row, learn_mac-SameSeries,
}

-- A row whose MAC the snapshot wants has a MAC that is known.
abbrev pub RowsKnown : GoMap ℕ TenantMeta → ShardedMetadataMap → GlobalState → Type 0
RowsKnown desired m g =
    (k : FlowKey) (c : Counter)
    → get FlowKey-discrete g.counts k ≡ some c
    → get ℕ_discrete desired (vm_mac k) ≢ none
    → lookup m (vm_mac k) ≢ none

module _ (T : MacMap) (routers : RouterMacs) (meter : Meter) where
  learn_mac-RowsKnown :
      (mac : ℕ) (want : TenantMeta) (desired : GoMap ℕ TenantMeta) (s : Learned T)
      → IsStore s.world.state
      → RowsKnown ((mac, want) ∷ desired) s.world.meta s.world.state
      → RowsKnown desired
          (learn_mac T routers mac want (lookup s.world.meta mac) s).world.meta
          (learn_mac T routers mac want (lookup s.world.meta mac) s).world.state
  learn_mac-RowsKnown mac want desired s store known k c row wanted =
      elim (Option-cases (get FlowKey-discrete s.world.state.counts k)) [
        | inl absent ↦
            absurd
              (learn_mac-row T routers mac want s store (lookup s.world.meta mac) k c row absent)
        | inr (c0, row0) ↦
            rw (lookup-learn_mac T routers mac want s (vm_mac k))
              (elim (ℕ_discrete mac (vm_mac k)) [
                | yes own ↦ rw (if_pos (ℕ_discrete mac (vm_mac k)) own _ _) (λ absent. cc)
                | no other ↦ rw (if_neg (ℕ_discrete mac (vm_mac k)) other _ _) (
                    known k c0 row0 (λ absent.
                      wanted (get-row_ne ℕ_discrete desired (vm_mac k) mac want other ∙ absent)))
              ])
      ]

  learn_rows-SameSeries :
      (desired : GoMap ℕ TenantMeta) (s : Learned T)
      → IsStore s.world.state
      → RowsKnown desired s.world.meta s.world.state
      → SameSeries meter routers s.world.meta s.world.state
          (learn_rows T routers desired s).world.meta
          (learn_rows T routers desired s).world.state
  unfolding learn_rows
  learn_rows-SameSeries [] s store known = SameSeries-refl meter routers s.world.meta s.world.state
  learn_rows-SameSeries ((mac, want) ∷ desired) s store known =
      let cur = lookup s.world.meta mac in
      let s' = learn_mac T routers mac want cur s in
      SameSeries-trans meter routers s.world.meta s'.world.meta
        (learn_rows T routers desired s').world.meta s.world.state s'.world.state
        (learn_rows T routers desired s').world.state
        (learn_mac-SameSeries T routers mac want s store meter cur refl (λ k c row own absent.
          known k c row
            (λ unwanted. cc (
              get-row_self ℕ_discrete desired mac want,
              ap (get ℕ_discrete ((mac, want) ∷ desired)) own,
            ))
            (ap (lookup s.world.meta) own ∙ absent)))
        (learn_rows-SameSeries desired s' (learn_mac-IsStore T routers mac want s store cur)
          (learn_mac-RowsKnown mac want desired s store known))

known_as-ghosted : (at : ℕ) (o : Option TenantMeta) → known_as (ghosted at o) ≡ known_as o
known_as-ghosted at none = refl
known_as-ghosted at (some m) = refl

mark_all-known_as :
    (at : ℕ) (gone : List ℕ) (m : ShardedMetadataMap) (q : ℕ)
    → known_as (lookup (mark_all at gone m) q) ≡ known_as (lookup m q)
unfolding mark_all
mark_all-known_as at [] m q = refl
mark_all-known_as at (mac ∷ gone) m q =
    mark_all-known_as at gone (mark_delete m mac at).0 q
    ∙ (rw (lookup-mark_delete m mac at q) (ground (arith, known_as-ghosted at (lookup m q))))

pub learn_rows-IsStore :
    (T : MacMap) (routers : RouterMacs) (desired : GoMap ℕ TenantMeta) (s : Learned T)
    → IsStore s.world.state
    → IsStore (learn_rows T routers desired s).world.state
unfolding learn_rows
learn_rows-IsStore T routers [] s store = store
learn_rows-IsStore T routers ((mac, want) ∷ desired) s store =
    learn_rows-IsStore T routers desired (learn_mac T routers mac want (lookup s.world.meta mac) s)
      (learn_mac-IsStore T routers mac want s store (lookup s.world.meta mac))

-- A pass moves no tenant, server or total series, for bytes or for packets, if no map of the store holds
-- a key twice and the MAC of every row is known, or not wanted by the snapshot: new ports, ports with
-- another attribution, ghosts that came back and ports that are gone included.
pub reconcile_macs-SameSeries :
    (T : MacMap) (routers : RouterMacs) (now grace : ℕ) (desired : GoMap ℕ TenantMeta) (w : World T)
    → IsStore w.state
    → RowsKnown desired w.meta w.state
    → (meter : Meter)
    → SameSeries meter routers w.meta w.state
        (reconcile_macs T routers now grace desired w).0.meta
        (reconcile_macs T routers now grace desired w).0.state
unfolding reconcile_macs learn_macs ghost_gone_macs
reconcile_macs-SameSeries T routers now grace desired w store known meter =
    let start : Learned T = record { world = w; inserted = 0; changed = 0 } in
    let s = learn_rows T routers desired start in
    let marked =
      mark_all (now + grace) (gone_macs desired (range s.world.meta) ([], 0)).0 s.world.meta in
    SameSeries-trans meter routers w.meta s.world.meta marked w.state s.world.state s.world.state
      (learn_rows-SameSeries T routers meter desired start store known)
      (SameSeries-relabel meter routers s.world.meta marked s.world.state
        (learn_rows-IsStore T routers desired start store).counts
        (λ k c row. inl (
          owner_of-live routers s.world.meta marked k (
            mark_all-known_as (now + grace) (gone_macs desired (range s.world.meta) ([], 0)).0
              s.world.meta (vm_mac k)))))

-- The store stays without a key that stands twice.
pub reconcile_macs-IsStore :
    (T : MacMap) (routers : RouterMacs) (now grace : ℕ) (desired : GoMap ℕ TenantMeta) (w : World T)
    → IsStore w.state
    → IsStore (reconcile_macs T routers now grace desired w).0.state
unfolding reconcile_macs learn_macs ghost_gone_macs
reconcile_macs-IsStore T routers now grace desired w =
    learn_rows-IsStore T routers desired (record { world = w; inserted = 0; changed = 0 })
