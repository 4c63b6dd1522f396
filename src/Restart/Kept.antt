-- ===== src/Restart/Kept.antt =====
-- internal/agent/walflush.go: a boot moves no series, though flows changed their owners.
use lachesis.Base.{
  ℕ, ◌≡◌, ◌≢◌, refl, sym, ap, ◌∙◌, Option, none, some, [], ◌∷◌, Option-cases, ◌⊎◌, inl, inr,
}
use lachesis.Base.GoMap.{GoMap, get}
use lachesis.Bpf.{FlowKey, FlowKey-discrete}
use lachesis.State.{GlobalState, Counter, Owner, Resolve, settle, settle_rebase}
use lachesis.State.Exposure.{Meter}
use lachesis.State.Rows.{IsStore, get-settle, settle-IsStore, settled_row}
use lachesis.State.Snapshot.{snapshot_for_wal}
use lachesis.Metadata.{
  ShardedMetadataMap, RouterMacs, lookup, vm_mac, resolve, settle_resolver, unknown_tenant_id,
  no_external_network,
}
use lachesis.Metadata.Labels.{owner_of}
use lachesis.Series.{
  SameSeries, SameSeries-trans, SameSeries-relabel, settle_owners-SameSeries, IsSpent,
}
use lachesis.Reconcile.Learning.{settled_row-IsSpent, settled_row-some}
use lachesis.Wal.{Json}
use lachesis.Restart.{owner_resolver, flushed, settle_changed_owners, settle_changed, seeded}
use lachesis.Restart.Unchanged.{restore_all-flushed}
use lachesis.Restart.Changed.{
  Named, Recorded, changed_rows, changed_rows-Recorded, changed_rows-Stands, get-empty,
}

-- The owner under which a row is shown.
abbrev shown_as : Option Owner → Owner
shown_as none = record { tenant = unknown_tenant_id; ext_net = no_external_network; server = "" }
shown_as (some o) = o

owner_of-resolve :
    (routers : RouterMacs) (m : ShardedMetadataMap) (k : FlowKey)
    → owner_of (resolve m routers k) ≡ shown_as (owner_resolver routers m k)
unfolding resolve owner_resolver settle_resolver
owner_of-resolve routers m k = elim (Option-cases (lookup m (vm_mac k))) [
  | inl miss ↦ rw miss refl
  | inr (meta, hit) ↦ rw hit refl
]

module _ (routers : RouterMacs) (m m' : ShardedMetadataMap) (g : GlobalState) (store : IsStore g)
    (meter : Meter) where
  -- Each row is shown as it was, or its old owner is to be folded.
  abbrev Covered : GoMap FlowKey Owner → Type 0
  Covered changed =
      (k : FlowKey) (c : Counter)
      → get FlowKey-discrete g.counts k ≡ some c
      → (owner_resolver routers m' k ≡ owner_resolver routers m k)
        ⊎ (get FlowKey-discrete changed k ≢ none)

  same_label :
      (k : FlowKey)
      → owner_resolver routers m' k ≡ owner_resolver routers m k
      → owner_of (resolve m' routers k) ≡ owner_of (resolve m routers k)
  same_label k e =
      owner_of-resolve routers m' k ∙ ap shown_as e ∙ sym (owner_of-resolve routers m k)

  -- A row after the fold is shown as it was, or it is spent.
  folded_row :
      (owner : Resolve) (k : FlowKey) (c : Counter) (before : Option Counter)
      → get FlowKey-discrete g.counts k ≡ before
      → settled_row settle_rebase (owner k) before ≡ some c
      → ((c0 : Counter)
          → get FlowKey-discrete g.counts k ≡ some c0
          → (owner_resolver routers m' k ≡ owner_resolver routers m k) ⊎ (owner k ≢ none))
      → (owner_of (resolve m' routers k) ≡ owner_of (resolve m routers k)) ⊎ IsSpent c
  folded_row owner k c none e row covered = absurd (settled_row-some (owner k) none c row refl)
  folded_row owner k c (some c0) e row covered = elim (covered c0 e) [
    | inl same ↦ inl (same_label k same)
    | inr ne ↦ inr (settled_row-IsSpent (owner k) (some c0) c ne row)
  ]

  settle_changed-SameSeries :
      (changed : GoMap FlowKey Owner)
      → Recorded (owner_resolver routers m) changed
      → Covered changed
      → SameSeries meter routers m g m' (settle_changed changed g)
  settle_changed-SameSeries [] recorded covered =
      SameSeries-relabel meter routers m m' g store.counts (λ k c row. elim (covered k c row) [
        | inl same ↦ inl (same_label k same)
        | inr ne ↦ absurd (ne (get-empty k))
      ])
  settle_changed-SameSeries (row ∷ changed) recorded covered =
      let owner : Resolve = λ k. get FlowKey-discrete (row ∷ changed) k in
      let g' = (settle settle_rebase owner g).0 in
      SameSeries-trans meter routers m m m' g g' g'
        (settle_owners-SameSeries meter routers m g settle_rebase owner store
          (λ k o e. owner_of-resolve routers m k ∙ ap shown_as (recorded k o e)))
        (SameSeries-relabel meter routers m m' g'
          (settle-IsStore settle_rebase owner g store).counts
          (λ k c there.
            folded_row owner k c (get FlowKey-discrete g.counts k) refl
              (sym (get-settle settle_rebase owner k g store.counts) ∙ there) (covered k)))

  -- A boot on a snapshot that was flushed moves no tenant, server or total series, for bytes or for packets,
  -- whatever became of the flows' owners while the agent was down: removed, moved to another tenant, or the
  -- same. The store holds no key twice, the owners at the flush have names, the router MACs are as they
  -- were, and a flow that had no owner at the flush has none at the boot.
  pub seeded-SameSeries :
      (J : Json) (at : ℕ)
      → Named (owner_resolver routers m)
      → ((k : FlowKey) (c : Counter)
          → get FlowKey-discrete g.counts k ≡ some c
          → owner_resolver routers m k ≡ none
          → owner_resolver routers m' k ≡ none)
      → SameSeries meter routers m g m' (
          seeded J
            (owner_resolver routers m')
            (record { snapshot = flushed (owner_resolver routers m) g; counters_reset_at = at }))
  unfolding seeded settle_changed_owners flushed snapshot_for_wal
  seeded-SameSeries J at named unseen =
      let old = owner_resolver routers m in
      let now = owner_resolver routers m' in
      rw (restore_all-flushed old g store) (
        settle_changed-SameSeries (changed_rows old now named g.counts [])
          (changed_rows-Recorded old now named g.counts [] (λ q o e. cc (get-empty q, e)))
          (λ k c row. elim (changed_rows-Stands old now named g.counts [] k (λ absent. cc)) [
            | inl none_before ↦ inl (unseen k c row none_before ∙ sym none_before)
            | inr (inl same) ↦ inl same
            | inr (inr ne) ↦ inr ne
          ]))
