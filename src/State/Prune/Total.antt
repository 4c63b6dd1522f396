-- ===== src/State/Prune/Total.antt =====
-- The total tier: the live rows, the tenants' settled buckets and the total absorber. A bucket that is
-- released moves between the last two.
use mathlib.Core.Logic.{ite}
use lachesis.Base.{ℕ, ◌+◌, ◌%◌, ◌≡◌, refl, ◌∙◌, Option, none, some, [], ◌∷◌, arith}
use lachesis.Base.Text.{String-discrete}
use lachesis.Base.Word.{u64_mod}
use lachesis.Base.GoMap.{GoMap, get, Distinct}
use lachesis.Base.GoMap.Range.{HoldsRows, HoldsRows-self, HoldsRows-delete}
use lachesis.Base.GoMap.Sum.{sum-put, sum, sum-delete}
use lachesis.Bpf.{FlowMetrics, FlowKey}
use lachesis.State.{
  bump, GlobalState, TenantSettledKey, TotalSettledKey, SettledTotal, TenantSettledKey-discrete,
  TotalSettledKey-discrete, credit,
}
use lachesis.State.Exposure.{
  Meter, bytes, packets, read_flow, read_settled, row_share, read_settled-credit_bucket,
}
use lachesis.State.Prune.{Alive, total_key, prune_tenant, prune_tenants, prune_tenant_settled}

abbrev pub read_bucket : Meter → SettledTotal → ℕ
read_bucket meter t = read_settled meter (some t)

-- What a tenant's bucket adds to the total series `q`.
abbrev pub bucket_share : Meter → TotalSettledKey → TenantSettledKey → SettledTotal → ℕ
bucket_share meter q k t = ite (TotalSettledKey-discrete (total_key k) q) (read_bucket meter t) 0

unfoldable pub total_exposed :
    Meter → (FlowKey → Option TotalSettledKey) → GlobalState → TotalSettledKey → ℕ
total_exposed meter label g q =
    (sum (row_share TotalSettledKey-discrete meter label q) g.counts
      + sum (bucket_share meter q) g.tenant_settled
      + read_settled meter (get TotalSettledKey-discrete g.total_settled q))
    % u64_mod

-- What a credit adds to the sum of a total series over the tenants' buckets.
pub credit_flow-parts :
    (meter : Meter) (q : TotalSettledKey) (m : GoMap TenantSettledKey SettledTotal)
    (k : TenantSettledKey) (f : FlowMetrics)
    → sum (bucket_share meter q) (credit TenantSettledKey-discrete m k f.bytes f.packets) % u64_mod
      ≡ (sum (bucket_share meter q) m
          + ite (TotalSettledKey-discrete (total_key k) q) (read_flow meter f) 0)
        % u64_mod
unfolding credit
credit_flow-parts bytes q m k f = ground (
  arith,
  sum-put TenantSettledKey-discrete (bucket_share bytes q) m k
      (bump (get TenantSettledKey-discrete m k) f.bytes f.packets),
)
credit_flow-parts packets q m k f = ground (
  arith,
  sum-put TenantSettledKey-discrete (bucket_share packets q) m k
      (bump (get TenantSettledKey-discrete m k) f.bytes f.packets),
)

module _ (meter : Meter) (label : FlowKey → Option TotalSettledKey) (q : TotalSettledKey) where
  total_exposed-prune_tenant :
      (o : Option (Unit {0})) (k : TenantSettledKey) (t : SettledTotal) (s : GlobalState × ℕ)
      → get TenantSettledKey-discrete s.0.tenant_settled k ≡ some t
      → total_exposed meter label (prune_tenant o k t s).0 q ≡ total_exposed meter label s.0 q
  unfolding prune_tenant total_exposed
  total_exposed-prune_tenant (some u) k t s e = refl
  total_exposed-prune_tenant none k t s e = ground (
    arith,
    sum-delete TenantSettledKey-discrete (bucket_share meter q) s.0.tenant_settled k,
    read_settled-credit_bucket TotalSettledKey-discrete meter s.0.total_settled (total_key k) q t,
  )

untouched :
    (o : Option (Unit {0})) (k : TenantSettledKey) (t : SettledTotal) (s : GlobalState × ℕ)
    (g : GlobalState)
    → s.0.counts ≡ g.counts
    → s.0.server_settled ≡ g.server_settled
    → ((prune_tenant o k t s).0.counts ≡ g.counts)
      × ((prune_tenant o k t s).0.server_settled ≡ g.server_settled)
unfolding prune_tenant
untouched (some u) k t s g a b = (a, b)
untouched none k t s g a b = (a, b)

HoldsRows-prune_tenant :
    (o : Option (Unit {0})) (k : TenantSettledKey) (t : SettledTotal) (s : GlobalState × ℕ)
    (rows : GoMap TenantSettledKey SettledTotal)
    → get TenantSettledKey-discrete rows k ≡ none
    → HoldsRows TenantSettledKey-discrete s.0.tenant_settled rows
    → HoldsRows TenantSettledKey-discrete (prune_tenant o k t s).0.tenant_settled rows
unfolding prune_tenant
HoldsRows-prune_tenant (some u) k t s rows e h = h
HoldsRows-prune_tenant none k t s rows e h =
    HoldsRows-delete TenantSettledKey-discrete s.0.tenant_settled rows k e h

module _ (alive : Alive) where
  prune_tenants_induction :
      (P : GlobalState → Type 0)
      → ((k : TenantSettledKey) (t : SettledTotal) (s : GlobalState × ℕ)
          → get TenantSettledKey-discrete s.0.tenant_settled k ≡ some t
          → P s.0
          → P (prune_tenant (get String-discrete alive k.tenant) k t s).0)
      → (rows : GoMap TenantSettledKey SettledTotal) (s : GlobalState × ℕ)
      → HoldsRows TenantSettledKey-discrete s.0.tenant_settled rows
      → Distinct TenantSettledKey-discrete rows
      → P s.0
      → P (prune_tenants alive rows s).0
  unfolding prune_tenants
  prune_tenants_induction P step [] s held once h = h
  prune_tenants_induction P step ((k, t) ∷ rows) s held once h =
      prune_tenants_induction P step rows (prune_tenant (get String-discrete alive k.tenant) k t s)
        (HoldsRows-prune_tenant (get String-discrete alive k.tenant) k t s rows once.0 held.1)
        once.1 (step k t s held.0 h)

  module _ (g : GlobalState) (distinct : Distinct TenantSettledKey-discrete g.tenant_settled) where
    -- If no tenant bucket stands under a key twice, releasing the buckets of the tenants that are
    -- not alive changes no series of the total tier, however the live flows are labelled, and
    -- touches neither the live rows nor the server tier.
    pub total_exposed-prune_tenant_settled :
        (label : FlowKey → Option TotalSettledKey) (meter : Meter) (q : TotalSettledKey)
        → (total_exposed meter label (prune_tenant_settled alive g).0 q
            ≡ total_exposed meter label g q)
          × ((prune_tenant_settled alive g).0.counts ≡ g.counts)
          × ((prune_tenant_settled alive g).0.server_settled ≡ g.server_settled)
    unfolding prune_tenant_settled
    total_exposed-prune_tenant_settled label meter q =
        prune_tenants_induction
          (λ g'.
            (total_exposed meter label g' q ≡ total_exposed meter label g q)
            × (g'.counts ≡ g.counts)
            × (g'.server_settled ≡ g.server_settled))
          (λ k t s e h.
            let alive? = get String-discrete alive k.tenant in
            let kept = untouched alive? k t s g h.1 h.2 in
            (total_exposed-prune_tenant meter label q alive? k t s e ∙ h.0, kept.0, kept.1))
          g.tenant_settled (g, 0)
          (HoldsRows-self TenantSettledKey-discrete g.tenant_settled distinct) distinct
          (refl, refl, refl)
