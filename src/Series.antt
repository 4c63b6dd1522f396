-- ===== src/Series.antt =====
-- The billing series that a metadata map and a store show together: every tier of
-- internal/metrics/collector.go, under the labels of internal/metadata/resolver.go.
use lachesis.Base.{◌≡◌, refl, ap, ◌∙◌, Option, none, some, arith, ◌⊎◌, inl, inr}
use lachesis.Base.GoMap.{get, Distinct}
use lachesis.Base.GoMap.Sum.{sum, sum_congr}
use lachesis.Bpf.{FlowKey, FlowKey-discrete}
use lachesis.State.{
  GlobalState, Counter, Owner, TenantSettledKey, ServerSettledKey, TotalSettledKey,
  TenantSettledKey-discrete, ServerSettledKey-discrete, TotalSettledKey-discrete, settle,
  SettleMode, Resolve, tenant_key,
}
use lachesis.State.Exposure.{
  Meter, bytes, packets, share, row_share, exposed, tenant_exposed, server_exposed, server_key?,
  read_flow,
}
use lachesis.State.Settle.{settle-exposed}
use lachesis.State.Total.{settle-total_exposed}
use lachesis.State.Prune.{total_key}
use lachesis.State.Prune.Total.{total_exposed}
use lachesis.State.Rows.{IsStore}
use lachesis.Metadata.{
  TenantMeta, ShardedMetadataMap, RouterMacs, lookup, vm_mac, resolve, settle_resolver,
}
use lachesis.Metadata.Labels.{
  owner_of, tenant_label, server_label, total_label, owner_of-settle_resolver,
}

-- All three tiers show the same values before, with the owners `own` and `g`, and after, with `own'` and
-- `g'`.
abbrev pub SameShown :
    Meter → (FlowKey → Owner) → GlobalState → (FlowKey → Owner) → GlobalState → Type 0
SameShown meter own g own' g' =
    ((q : TenantSettledKey)
      → tenant_exposed meter (λ k. some (tenant_key (own' k) k)) g' q
        ≡ tenant_exposed meter (λ k. some (tenant_key (own k) k)) g q)
    × ((q : ServerSettledKey)
        → server_exposed meter (λ k. server_key? (own' k) k) g' q
          ≡ server_exposed meter (λ k. server_key? (own k) k) g q)
    × ((q : TotalSettledKey)
        → total_exposed meter (λ k. some (total_key (tenant_key (own' k) k))) g' q
          ≡ total_exposed meter (λ k. some (total_key (tenant_key (own k) k))) g q)

-- Who a flow is shown under.
abbrev pub owners : ShardedMetadataMap → RouterMacs → FlowKey → Owner
owners m routers k = owner_of (resolve m routers k)

-- The same, with `m` and `g` before and `m'` and `g'` after.
abbrev pub SameSeries :
    Meter
    → RouterMacs
    → ShardedMetadataMap
    → GlobalState
    → ShardedMetadataMap
    → GlobalState
    → Type 0
SameSeries meter routers m g m' g' = SameShown meter (owners m routers) g (owners m' routers) g'

pub SameShown-trans :
    (meter : Meter) (own own' own'' : FlowKey → Owner) (g g' g'' : GlobalState)
    → SameShown meter own g own' g'
    → SameShown meter own' g' own'' g''
    → SameShown meter own g own'' g''
SameShown-trans meter own own' own'' g g' g'' a b =
    (λ q. b.0 q ∙ a.0 q, λ q. b.1 q ∙ a.1 q, λ q. b.2 q ∙ a.2 q)

pub SameSeries-refl :
    (meter : Meter) (routers : RouterMacs) (m : ShardedMetadataMap) (g : GlobalState)
    → SameSeries meter routers m g m g
SameSeries-refl meter routers m g = (λ q. refl, λ q. refl, λ q. refl)

pub SameSeries-trans :
    (meter : Meter) (routers : RouterMacs) (m m' m'' : ShardedMetadataMap) (g g' g'' : GlobalState)
    → SameSeries meter routers m g m' g'
    → SameSeries meter routers m' g' m'' g''
    → SameSeries meter routers m g m'' g''
SameSeries-trans meter routers m m' m'' =
    SameShown-trans meter (owners m routers) (owners m' routers) (owners m'' routers)

-- A row that shows nothing.
pub record IsSpent (c : Counter) : Type 0 where
  pub bytes : c.total.bytes ≡ 0
  pub packets : c.total.packets ≡ 0

IsSpent-read : (meter : Meter) (c : Counter) → IsSpent c → read_flow meter c.total ≡ 0
IsSpent-read bytes c h = h.bytes
IsSpent-read packets c h = h.packets

module _ (meter : Meter) (own own' : FlowKey → Owner) (g : GlobalState)
    (distinct : Distinct FlowKey-discrete g.counts)
    (same : (k : FlowKey) (c : Counter)
      → get FlowKey-discrete g.counts k ≡ some c
      → (own' k ≡ own k) ⊎ IsSpent c) where
  module _ {K : Type 0} (dec : Discrete K) (key : Owner → FlowKey → Option K) (q : K) where
    abbrev labelled : (FlowKey → Owner) → FlowKey → Option K
    labelled by k = key (by k) k

    share_spent :
        (c : Counter) (a b : Option K)
        → IsSpent c
        → share dec meter q a c.total ≡ share dec meter q b c.total
    share_spent c none none h = refl
    share_spent c none (some y) h = ground (arith, IsSpent-read meter c h)
    share_spent c (some x) none h = ground (arith, IsSpent-read meter c h)
    share_spent c (some x) (some y) h = ground (arith, IsSpent-read meter c h)

    rows_relabelled :
        sum (row_share dec meter (labelled own') q) g.counts
        ≡ sum (row_share dec meter (labelled own) q) g.counts
    rows_relabelled =
        sum_congr FlowKey-discrete (row_share dec meter (labelled own') q)
          (row_share dec meter (labelled own) q) g.counts distinct
          (λ k c row. elim (same k c row) [
            | inl e ↦ ap (λ o. share dec meter q (key o k) c.total) e
            | inr spent ↦ share_spent c (labelled own' k) (labelled own k) spent
          ])

  -- New owners move no series, if each row keeps its owner or shows nothing.
  pub SameShown-relabel : SameShown meter own g own' g
  unfolding exposed total_exposed
  SameShown-relabel = (
    λ q. omega (arith, rows_relabelled TenantSettledKey-discrete (λ o k. some (tenant_key o k)) q),
    λ q. omega (arith, rows_relabelled ServerSettledKey-discrete server_key? q),
    λ q. omega (
      arith,
      rows_relabelled TotalSettledKey-discrete (λ o k. some (total_key (tenant_key o k))) q,
    ),
  )

pub SameSeries-relabel :
    (meter : Meter) (routers : RouterMacs) (m m' : ShardedMetadataMap) (g : GlobalState)
    → Distinct FlowKey-discrete g.counts
    → ((k : FlowKey) (c : Counter)
        → get FlowKey-discrete g.counts k ≡ some c
        → (owner_of (resolve m' routers k) ≡ owner_of (resolve m routers k)) ⊎ IsSpent c)
    → SameSeries meter routers m g m' g
SameSeries-relabel meter routers m m' =
    SameShown-relabel meter (owners m routers) (owners m' routers)

-- A fold moves no series, if the owner that it takes for a flow is the one that labels it.
pub settle_owners-SameSeries :
    (meter : Meter) (routers : RouterMacs) (m : ShardedMetadataMap) (g : GlobalState)
    (mode : SettleMode) (owner : Resolve)
    → IsStore g
    → ((k : FlowKey) (o : Owner) → owner k ≡ some o → owner_of (resolve m routers k) ≡ o)
    → SameSeries meter routers m g m (settle mode owner g).0
settle_owners-SameSeries meter routers m g mode owner store own =
    let kept =
      settle-exposed mode owner g store.counts (tenant_label m routers) (server_label m routers)
        (λ k o e.
          (ap (λ x. some (tenant_key x k)) (own k o e), ap (λ x. server_key? x k) (own k o e)))
        meter in
    (
      kept.0,
      kept.1,
      λ q.
          settle-total_exposed meter q mode owner g store.counts (total_label m routers)
            (λ k o e. ap (λ x. some (total_key (tenant_key x k))) (own k o e)),
    )

-- A fold moves no series, if it picks for a flow only the entry that is known of its MAC.
pub settle-SameSeries :
    (meter : Meter) (routers : RouterMacs) (m : ShardedMetadataMap) (g : GlobalState)
    (mode : SettleMode) (pick : FlowKey → Option TenantMeta)
    → IsStore g
    → ((k : FlowKey) (meta : TenantMeta) → pick k ≡ some meta → lookup m (vm_mac k) ≡ some meta)
    → SameSeries meter routers m g m (settle mode (settle_resolver routers pick) g).0
settle-SameSeries meter routers m g mode pick store picked =
    settle_owners-SameSeries meter routers m g mode (settle_resolver routers pick) store
      (owner_of-settle_resolver m routers pick picked)
