-- ===== src/State/Settle.antt =====
-- `Settle` of internal/state/state.go: what it does to every row, and that no series moves.
use lachesis.Base.{
  ℕ, ◌+◌, ◌≡◌, refl, ◌∙◌, Option, none, some, [], ◌∷◌, Option-cases, Bool-cases, inl, inr,
}
use lachesis.Base.GoMap.{GoMap, get, Distinct}
use lachesis.Base.GoMap.Range.{HoldsRows, HoldsRows-self, HoldsRows-put, HoldsRows-delete}
use lachesis.Bpf.{FlowKey, FlowKey-discrete}
use lachesis.State.{
  GlobalState, Counter, Owner, TenantSettledKey, ServerSettledKey, TenantSettledKey-discrete,
  ServerSettledKey-discrete, SettleMode, settle_evict, settle_rebase, Resolve, close_row, fold_row,
  settle_rows, settle, tenant_key, server_key,
}
use lachesis.State.Exposure.{
  Meter, tenant_exposed, server_exposed, server_key?, exposed-fold, exposed-close,
}
use text.Mathlib.Text.{◌==◌ as str_eq}

-- The rows still to visit stand in the state as they are, and none stands twice.
pub record IsPending (g : GlobalState) (rows : GoMap FlowKey Counter) : Type 0 where
  pub held : HoldsRows FlowKey-discrete g.counts rows
  pub once : Distinct FlowKey-discrete rows

module _ (mode : SettleMode) (meter : Meter) (g : GlobalState) (k : FlowKey) (c : Counter)
    (o : Owner) (row : get FlowKey-discrete g.counts k ≡ some c) where
  tenant_exposed-fold_row :
      (label : FlowKey → Option TenantSettledKey) (q : TenantSettledKey)
      → label k ≡ some (tenant_key o k)
      → tenant_exposed meter label (fold_row mode g k c o) q ≡ tenant_exposed meter label g q
  unfolding fold_row
  tenant_exposed-fold_row label q e =
      exposed-fold TenantSettledKey-discrete meter label q g.counts k c row mode g.tenant_settled
        (tenant_key o k) e

  server_exposed-fold_row :
      (label : FlowKey → Option ServerSettledKey) (q : ServerSettledKey)
      → label k ≡ server_key? o k
      → server_exposed meter label (fold_row mode g k c o) q ≡ server_exposed meter label g q
  unfolding fold_row
  server_exposed-fold_row label q e = elim (Bool-cases (str_eq o.server "")) [
    | inl absent ↦ rw absent (
        exposed-close ServerSettledKey-discrete meter label q g.counts k c row mode g.server_settled
          (rw absent at e))
    | inr present ↦ rw present (
        exposed-fold ServerSettledKey-discrete meter label q g.counts k c row mode g.server_settled
          (server_key o k) (rw present at e))
  ]

module _ (mode : SettleMode) where
  HoldsRows-close_row :
      (counts rows : GoMap FlowKey Counter) (k : FlowKey) (c : Counter)
      → get FlowKey-discrete rows k ≡ none
      → HoldsRows FlowKey-discrete counts rows
      → HoldsRows FlowKey-discrete (close_row mode counts k c) rows
  HoldsRows-close_row counts rows k c h r =
      elim mode as (λ m. HoldsRows FlowKey-discrete (close_row m counts k c) rows) [
        | settle_evict ↦ unfold close_row in HoldsRows-delete FlowKey-discrete counts rows k h r
        | settle_rebase ↦ unfold close_row in HoldsRows-put FlowKey-discrete counts rows k _ h r
      ]

  pub IsPending-fold_row :
      (g : GlobalState) (k : FlowKey) (c : Counter) (rows : GoMap FlowKey Counter) (o : Owner)
      → IsPending g ((k, c) ∷ rows)
      → IsPending (fold_row mode g k c o) rows
  unfolding fold_row
  IsPending-fold_row g k c rows o p = record {
    held = HoldsRows-close_row g.counts rows k c p.once.0 p.held.1;
    once = p.once.1;
  }

  -- An invariant of one round that keeps the pending rows is one of the whole loop.
  pub settle_rows_induction :
      (resolve : Resolve) (P : GlobalState → Type 0)
      → ((g : GlobalState) (k : FlowKey) (c : Counter) (o : Owner)
          → get FlowKey-discrete g.counts k ≡ some c
          → resolve k ≡ some o
          → P g
          → P (fold_row mode g k c o))
      → (rows : GoMap FlowKey Counter) (g : GlobalState) (n : ℕ) → IsPending g rows
      → P g
      → P (settle_rows mode resolve rows (g, n)).0
  unfolding settle_rows
  settle_rows_induction resolve P step [] g n p h = h
  settle_rows_induction resolve P step ((k, c) ∷ rows) g n p h = elim (Option-cases (resolve k)) [
    | inl e ↦
        rw (e, settle_rows)
          (settle_rows_induction resolve P step rows g n
            (record { held = p.held.1; once = p.once.1 }) h)
    | inr (o, e) ↦
        rw (e, settle_rows)
          (settle_rows_induction resolve P step rows (fold_row mode g k c o) (n + 1)
            (IsPending-fold_row g k c rows o p) (step g k c o p.held.0 e h))
  ]

  module _ (resolve : Resolve) (g : GlobalState)
      (distinct : Distinct FlowKey-discrete g.counts) where
    pub settle_induction :
        (P : GlobalState → Type 0)
        → ((g : GlobalState) (k : FlowKey) (c : Counter) (o : Owner)
            → get FlowKey-discrete g.counts k ≡ some c
            → resolve k ≡ some o
            → P g
            → P (fold_row mode g k c o))
        → P g
        → P (settle mode resolve g).0
    unfolding settle
    settle_induction P step h =
        settle_rows_induction resolve P step g.counts g 0
          (record { held = HoldsRows-self FlowKey-discrete g.counts distinct; once = distinct }) h

    -- Whatever labels the flows: if no two rows have one key, and each row that folds is labelled
    -- by the owner it folds under, then `Settle`, in either mode, leaves every tenant series,
    -- every server series and the total absorber as they were, for bytes and for packets.
    pub settle-exposed :
        (tenant_label : FlowKey → Option TenantSettledKey)
        (server_label : FlowKey → Option ServerSettledKey)
        → ((k : FlowKey) (o : Owner)
            → resolve k ≡ some o
            → (tenant_label k ≡ some (tenant_key o k)) × (server_label k ≡ server_key? o k))
        → (meter : Meter)
        → ((q : TenantSettledKey)
            → tenant_exposed meter tenant_label (settle mode resolve g).0 q
              ≡ tenant_exposed meter tenant_label g q)
          × ((q : ServerSettledKey)
              → server_exposed meter server_label (settle mode resolve g).0 q
                ≡ server_exposed meter server_label g q)
          × ((settle mode resolve g).0.total_settled ≡ g.total_settled)
    settle-exposed tenant_label server_label agree meter = (
      λ q.
          settle_induction
            (λ g'. tenant_exposed meter tenant_label g' q ≡ tenant_exposed meter tenant_label g q)
            (λ g' k c o row e h.
              tenant_exposed-fold_row mode meter g' k c o row tenant_label q (agree k o e).0 ∙ h)
            refl,
      λ q.
          settle_induction
            (λ g'. server_exposed meter server_label g' q ≡ server_exposed meter server_label g q)
            (λ g' k c o row e h.
              server_exposed-fold_row mode meter g' k c o row server_label q (agree k o e).1 ∙ h)
            refl,
      settle_induction (λ g'. g'.total_settled ≡ g.total_settled)
          (λ g' k c o row e h. unfold fold_row in h) refl,
    )
