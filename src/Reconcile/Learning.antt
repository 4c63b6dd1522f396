-- ===== src/Reconcile/Learning.antt =====
-- internal/reconcile/mac.go: learning one MAC moves no series.
use native.Mathlib.Decide.{ℕ_discrete}
use mathlib.Core.Logic.{if_neg}
use lachesis.Base.{
  ℕ, ◌≡◌, ◌≢◌, refl, ap, sym, ◌∙◌, Option, none, some, ◌==◌, arith, Bool-cases, inl, inr,
}
use lachesis.Base.GoMap.{get}
use lachesis.Bpf.{FlowKey, FlowKey-discrete}
use lachesis.State.{GlobalState, Counter, Owner, settle_rebase}
use lachesis.State.Exposure.{Meter}
use lachesis.State.Rows.{IsStore, get-settle, settle-IsStore, settled_row}
use lachesis.Metadata.{
  TenantMeta, ShardedMetadataMap, RouterMacs, lookup, insert, vm_mac, resolve, attribute,
  settle_resolver, same_attribution,
}
use lachesis.Metadata.Labels.{owner_of}
use lachesis.Metadata.Sharded.{lookup-insert}
use lachesis.Series.{
  SameSeries, SameSeries-refl, SameSeries-trans, SameSeries-relabel, IsSpent, settle-SameSeries,
}
use lachesis.KernelMap.{MacMap}
use lachesis.Reconcile.{Learned, insert_mac, learn_mac, settle_attribution_change, pick_mac}
use lachesis.Reconcile.Macs.{live, same_attribution-live}

abbrev pub known_as : Option TenantMeta → Option TenantMeta
known_as none = none
known_as (some m) = some (live m)

-- A deadline changes no label.
attribute-live :
    (routers : RouterMacs) (k : FlowKey) (a b : Option TenantMeta)
    → known_as a ≡ known_as b
    → attribute routers k a ≡ attribute routers k b
attribute-live routers k none none e = refl
attribute-live routers k none (some y) e = cc
attribute-live routers k (some x) none e = cc
attribute-live routers k (some x) (some y) e = ground arith

pub owner_of-live :
    (routers : RouterMacs) (m m' : ShardedMetadataMap) (k : FlowKey)
    → known_as (lookup m' (vm_mac k)) ≡ known_as (lookup m (vm_mac k))
    → owner_of (resolve m' routers k) ≡ owner_of (resolve m routers k)
unfolding resolve
owner_of-live routers m m' k e =
    ap owner_of (attribute-live routers k (lookup m' (vm_mac k)) (lookup m (vm_mac k)) e)

pick_mac-known :
    (m : ShardedMetadataMap) (mac : ℕ) (cur meta : TenantMeta) (k : FlowKey)
    → lookup m mac ≡ some cur
    → pick_mac mac cur k ≡ some meta
    → lookup m (vm_mac k) ≡ some meta
pick_mac-known m mac cur meta k e p = ground (arith, ap (lookup m) {x = vm_mac k} {y = mac})

pub settled_row-IsSpent :
    (o : Option Owner) (row : Option Counter) (c : Counter)
    → o ≢ none
    → settled_row settle_rebase o row ≡ some c
    → IsSpent c
settled_row-IsSpent none row c ne e = absurd (ne refl)
settled_row-IsSpent (some o) none c ne e = cc
settled_row-IsSpent (some o) (some c') c ne e = record {
  bytes = ground arith;
  packets = ground arith;
}

module _ (routers : RouterMacs) (mac : ℕ) (want : TenantMeta) (m : ShardedMetadataMap)
    (g : GlobalState) (store : IsStore g) where
  -- An entry for a MAC that was not known labels no row anew, if no row has the MAC.
  insert-SameSeries :
      ((k : FlowKey) (c : Counter) → get FlowKey-discrete g.counts k ≡ some c → vm_mac k ≢ mac)
      → (meter : Meter) → SameSeries meter routers m g (insert m mac want) g
  insert-SameSeries foreign meter =
      SameSeries-relabel meter routers m (insert m mac want) g store.counts (λ k c row. inl (
        owner_of-live routers m (insert m mac want) k (
          ap known_as (
            lookup-insert m mac want (vm_mac k)
            ∙ if_neg (ℕ_discrete mac (vm_mac k)) (λ e. foreign k c row (sym e)) _ _))))

  -- An entry with the same attribution labels no row anew.
  resurrect-SameSeries :
      (cur : TenantMeta)
      → lookup m mac ≡ some cur
      → live cur ≡ live want
      → (meter : Meter) → SameSeries meter routers m g (insert m mac want) g
  resurrect-SameSeries cur e same meter =
      SameSeries-relabel meter routers m (insert m mac want) g store.counts (λ k c row. inl (
        owner_of-live routers m (insert m mac want) k (
          rw (lookup-insert m mac want (vm_mac k))
            (ground (arith, ap (lookup m) {x = mac} {y = vm_mac k})))))

  resolver-ne-none :
      (cur : TenantMeta) (k : FlowKey)
      → vm_mac k ≡ mac
      → settle_resolver routers (pick_mac mac cur) k ≢ none
  unfolding settle_resolver
  resolver-ne-none cur k own = rw own (ground arith)

  -- The rows of a MAC are spent when the fold under the old attribution is over.
  settled-IsSpent :
      (cur : TenantMeta) (k : FlowKey) (c : Counter)
      → vm_mac k ≡ mac
      → get FlowKey-discrete (settle_attribution_change routers mac cur g).counts k ≡ some c
      → IsSpent c
  unfolding settle_attribution_change
  settled-IsSpent cur k c own row =
      let resolver = settle_resolver routers (pick_mac mac cur) in
      settled_row-IsSpent (resolver k) (get FlowKey-discrete g.counts k) c
        (resolver-ne-none cur k own)
        (sym (get-settle settle_rebase resolver k g store.counts) ∙ row)

  change-SameSeries :
      (cur : TenantMeta)
      → lookup m mac ≡ some cur
      → (meter : Meter)
      → SameSeries meter routers m g
          (insert m mac want)
          (settle_attribution_change routers mac cur g)
  unfolding settle_attribution_change
  change-SameSeries cur e meter =
      let g' = settle_attribution_change routers mac cur g in
      SameSeries-trans meter routers m m (insert m mac want) g g' g'
        (settle-SameSeries meter routers m g settle_rebase (pick_mac mac cur) store
          (λ k meta. pick_mac-known m mac cur meta k e))
        (SameSeries-relabel meter routers m (insert m mac want) g'
          (settle-IsStore settle_rebase (settle_resolver routers (pick_mac mac cur)) g store).counts
          (λ k c row. elim (ℕ_discrete mac (vm_mac k)) [
            | yes own ↦ inr (settled-IsSpent cur k c (sym own) row)
            | no other ↦ inl (
                owner_of-live routers m (insert m mac want) k (
                  ap known_as (
                    lookup-insert m mac want (vm_mac k)
                    ∙ if_neg (ℕ_discrete mac (vm_mac k)) other _ _)))
          ]))

pub settled_row-some :
    (o : Option Owner) (row : Option Counter) (c : Counter)
    → settled_row settle_rebase o row ≡ some c
    → row ≢ none
settled_row-some none row c e absent = cc
settled_row-some (some o) none c e absent = cc
settled_row-some (some o) (some c') c e absent = cc

module _ (T : MacMap) (routers : RouterMacs) where
  module _ (mac : ℕ) (want : TenantMeta) (s : Learned T) (store : IsStore s.world.state) where
    pub learn_mac-IsStore :
        (cur : Option TenantMeta) → IsStore (learn_mac T routers mac want cur s).world.state
    unfolding learn_mac insert_mac settle_attribution_change
    learn_mac-IsStore none = store
    learn_mac-IsStore (some cur) = elim (Bool-cases (same_attribution cur want)) [
      | inl same ↦ elim (Bool-cases (cur.delete_at == 0)) [
        | inl alive ↦ rw (same, alive) store
        | inr dying ↦ rw (same, dying) store
      ]
      | inr other ↦ rw other (
          settle-IsStore settle_rebase (settle_resolver routers (pick_mac mac cur)) s.world.state
            store)
    ]

    -- A round brings in no row.
    pub learn_mac-row :
        (cur : Option TenantMeta) (k : FlowKey) (c : Counter)
        → get FlowKey-discrete (learn_mac T routers mac want cur s).world.state.counts k ≡ some c
        → get FlowKey-discrete s.world.state.counts k ≢ none
    unfolding learn_mac insert_mac settle_attribution_change
    learn_mac-row none k c row = λ absent. cc
    learn_mac-row (some cur) k c row = elim (Bool-cases (same_attribution cur want)) [
      | inl same ↦ elim (Bool-cases (cur.delete_at == 0)) [
        | inl alive ↦ λ absent. cc (rw (same, alive) at row)
        | inr dying ↦ λ absent. cc (rw (same, dying) at row)
      ]
      | inr other ↦
          let resolver = settle_resolver routers (pick_mac mac cur) in
          settled_row-some (resolver k) (get FlowKey-discrete s.world.state.counts k) c (
            sym (get-settle settle_rebase resolver k s.world.state store.counts)
            ∙ (rw other at row))
    ]

    pub learn_mac-SameSeries :
        (meter : Meter) (cur : Option TenantMeta)
        → lookup s.world.meta mac ≡ cur
        → ((k : FlowKey) (c : Counter)
            → get FlowKey-discrete s.world.state.counts k ≡ some c
            → vm_mac k ≡ mac
            → cur ≢ none)
        → SameSeries meter routers s.world.meta s.world.state
            (learn_mac T routers mac want cur s).world.meta
            (learn_mac T routers mac want cur s).world.state
    unfolding learn_mac insert_mac
    learn_mac-SameSeries meter none e foreign =
        insert-SameSeries routers mac (live want) s.world.meta s.world.state store
          (λ k c row own. foreign k c row own refl) meter
    learn_mac-SameSeries meter (some cur) e foreign =
        elim (Bool-cases (same_attribution cur want)) [
          | inl same ↦ elim (Bool-cases (cur.delete_at == 0)) [
            | inl alive ↦
                rw (same, alive) (SameSeries-refl meter routers s.world.meta s.world.state)
            | inr dying ↦
                rw (same, dying)
                  (resurrect-SameSeries routers mac (live want) s.world.meta s.world.state store cur
                    e (same_attribution-live cur want same) meter)
          ]
          | inr other ↦ rw other (
              change-SameSeries routers mac (live want) s.world.meta s.world.state store cur e
                meter)
        ]
