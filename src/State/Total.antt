-- ===== src/State/Total.antt =====
-- `Settle` of internal/state/state.go and the total tier.
use lachesis.Base.{◌%◌, ◌≡◌, refl, ap, ◌∙◌, Option, some, arith}
use lachesis.Base.Word.{u64_mod}
use lachesis.Base.GoMap.{get, Distinct}
use lachesis.Base.GoMap.Sum.{sum_congr}
use lachesis.Bpf.{FlowKey, FlowKey-discrete}
use lachesis.State.{
  GlobalState, Counter, Owner, TotalSettledKey, TotalSettledKey-discrete, SettleMode, Resolve,
  fold_row, settle, tenant_key,
}
use lachesis.State.Exposure.{Meter, share, row_share, live_closed}
use lachesis.State.Prune.{total_key}
use lachesis.State.Prune.Total.{total_exposed, credit_flow-parts}
use lachesis.State.Settle.{settle_induction}

module _ (meter : Meter) (q : TotalSettledKey) where
  total_exposed-fold_row :
      (mode : SettleMode) (g : GlobalState) (k : FlowKey) (c : Counter) (o : Owner)
      (label : FlowKey → Option TotalSettledKey)
      → get FlowKey-discrete g.counts k ≡ some c
      → label k ≡ some (total_key (tenant_key o k))
      → total_exposed meter label (fold_row mode g k c o) q ≡ total_exposed meter label g q
  unfolding total_exposed fold_row
  total_exposed-fold_row mode g k c o label row h = ground (
    arith,
    h,
    live_closed TotalSettledKey-discrete meter label q g.counts k c row mode,
    credit_flow-parts meter q g.tenant_settled (tenant_key o k) c.total,
  )

  -- If each row that folds is labelled by the owner it folds under, and no two rows have one key, then
  -- `Settle` leaves every total series as it was.
  pub settle-total_exposed :
      (mode : SettleMode) (resolve : Resolve) (g : GlobalState)
      → Distinct FlowKey-discrete g.counts
      → (label : FlowKey → Option TotalSettledKey)
      → ((k : FlowKey) (o : Owner)
          → resolve k ≡ some o
          → label k ≡ some (total_key (tenant_key o k)))
      → total_exposed meter label (settle mode resolve g).0 q ≡ total_exposed meter label g q
  settle-total_exposed mode resolve g distinct label agree =
      settle_induction mode resolve g distinct
        (λ g'. total_exposed meter label g' q ≡ total_exposed meter label g q)
        (λ g' k c o row e h. total_exposed-fold_row mode g' k c o label row (agree k o e) ∙ h) refl

  -- Two labellings that agree on the rows that are there show the same total series.
  pub total_exposed-relabel :
      (label label' : FlowKey → Option TotalSettledKey) (g : GlobalState)
      → Distinct FlowKey-discrete g.counts
      → ((k : FlowKey) (c : Counter)
          → get FlowKey-discrete g.counts k ≡ some c
          → label' k ≡ label k)
      → total_exposed meter label' g q ≡ total_exposed meter label g q
  unfolding total_exposed
  total_exposed-relabel label label' g d same =
      let same_rows =
        sum_congr FlowKey-discrete (row_share TotalSettledKey-discrete meter label' q)
          (row_share TotalSettledKey-discrete meter label q) g.counts d
          (λ k c row. ap (λ l. share TotalSettledKey-discrete meter q l c.total) (same k c row)) in
      ap (λ n. n % u64_mod) (omega (arith, same_rows))
