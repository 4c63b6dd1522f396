-- ===== src/State/Rows.antt =====
-- `Settle` of internal/state/state.go, row by row: which rows are left, with what in them.
use lachesis.Base.{
  ℕ, ◌≡◌, ◌≢◌, refl, ◌∙◌, sym, Option, none, some, [], ◌∷◌, arith, Option-cases, inl, inr,
}
use lachesis.Base.GoMap.{
  GoMap, get, Distinct, get-put_self, get-put_ne, get-delete_self, get-delete_ne, put-Distinct,
  delete-Distinct,
}
use lachesis.Bpf.{FlowKey, FlowKey-discrete}
use lachesis.State.{
  GlobalState, Counter, Owner, TenantSettledKey-discrete, ServerSettledKey-discrete,
  TotalSettledKey-discrete, SettleMode, settle_evict, settle_rebase, Resolve, close_row, fold_row,
  visit, settle_rows, settle, credit, server_key,
}
use lachesis.Base.GoMap.Range.{HoldsRows-self, get-ne_row, get-row_ne, get-row_self}
use lachesis.State.Settle.{IsPending, IsPending-fold_row, settle_induction}

-- No map of the store holds a key twice.
pub record IsStore (g : GlobalState) : Type 0 where
  pub counts : Distinct FlowKey-discrete g.counts
  pub tenant : Distinct TenantSettledKey-discrete g.tenant_settled
  pub server : Distinct ServerSettledKey-discrete g.server_settled
  pub total : Distinct TotalSettledKey-discrete g.total_settled

-- A row after `Settle`: gone, or with its total at zero and its baseline kept, if it resolved.
abbrev pub settled_row : SettleMode → Option Owner → Option Counter → Option Counter
settled_row mode none row = row
settled_row mode (some o) none = none
settled_row settle_evict (some o) (some c) = none
settled_row settle_rebase (some o) (some c) =
    some (record c { total = record (c.total) { bytes = 0; packets = 0 } })

pub credit-Distinct :
    {K : Type 0} (dec : Discrete K) (m : GoMap K _) (k : K) (b p : ℕ)
    → Distinct dec m
    → Distinct dec (credit dec m k b p)
unfolding credit
credit-Distinct dec m k b p d = put-Distinct dec m k _ d

settled_row-none : (mode : SettleMode) (o : Option Owner) → settled_row mode o none ≡ none
settled_row-none mode none = refl
settled_row-none mode (some o) = refl

module _ (mode : SettleMode) where
  close_row-Distinct :
      (counts : GoMap FlowKey Counter) (k : FlowKey) (c : Counter)
      → Distinct FlowKey-discrete counts
      → Distinct FlowKey-discrete (close_row mode counts k c)
  close_row-Distinct counts k c d =
      elim mode as (λ m. Distinct FlowKey-discrete (close_row m counts k c)) [
        | settle_evict ↦ unfold close_row in delete-Distinct FlowKey-discrete counts k d
        | settle_rebase ↦ unfold close_row in put-Distinct FlowKey-discrete counts k _ d
      ]

  get-close_row_ne :
      (counts : GoMap FlowKey Counter) (k q : FlowKey) (c : Counter)
      → k ≢ q
      → get FlowKey-discrete (close_row mode counts k c) q ≡ get FlowKey-discrete counts q
  get-close_row_ne counts k q c ne =
      elim mode
        as (λ m. get FlowKey-discrete (close_row m counts k c) q ≡ get FlowKey-discrete counts q) [
          | settle_evict ↦ unfold close_row in get-delete_ne FlowKey-discrete counts k q ne
          | settle_rebase ↦ unfold close_row in get-put_ne FlowKey-discrete counts k q _ ne
        ]

  get-close_row_self :
      (counts : GoMap FlowKey Counter) (k : FlowKey) (c : Counter) (o : Owner)
      → Distinct FlowKey-discrete counts
      → get FlowKey-discrete (close_row mode counts k c) k ≡ settled_row mode (some o) (some c)
  get-close_row_self counts k c o d =
      elim mode
        as (λ m.
          get FlowKey-discrete (close_row m counts k c) k ≡ settled_row m (some o) (some c)) [
            | settle_evict ↦ unfold close_row in get-delete_self FlowKey-discrete counts k d
            | settle_rebase ↦ unfold close_row in get-put_self FlowKey-discrete counts k _
          ]

  fold_row-IsStore :
      (g : GlobalState) (k : FlowKey) (c : Counter) (o : Owner)
      → IsStore g
      → IsStore (fold_row mode g k c o)
  unfolding fold_row
  fold_row-IsStore g k c o s = record {
    counts = close_row-Distinct g.counts k c s.counts;
    tenant = credit-Distinct TenantSettledKey-discrete g.tenant_settled _ _ _ s.tenant;
    server =
        unfold fold_row in
        ground (
          arith,
          s.server,
          credit-Distinct ServerSettledKey-discrete g.server_settled (server_key o k) c.total.bytes
              c.total.packets s.server,
        );
    total = s.total;
  }

  module _ (k : FlowKey) (c : Counter) (s : GlobalState × ℕ) where
    visit-Distinct :
        (o : Option Owner)
        → Distinct FlowKey-discrete s.0.counts
        → Distinct FlowKey-discrete (visit mode k c o s).0.counts
    unfolding visit
    visit-Distinct none d = d
    visit-Distinct (some o) d = close_row-Distinct s.0.counts k c d

    get-visit_ne :
        (o : Option Owner) (q : FlowKey)
        → k ≢ q
        → get FlowKey-discrete (visit mode k c o s).0.counts q ≡ get FlowKey-discrete s.0.counts q
    unfolding visit
    get-visit_ne none q ne = refl
    get-visit_ne (some o) q ne = get-close_row_ne s.0.counts k q c ne

    get-visit_self :
        (o : Option Owner)
        → Distinct FlowKey-discrete s.0.counts
        → get FlowKey-discrete s.0.counts k ≡ some c
        → get FlowKey-discrete (visit mode k c o s).0.counts k ≡ settled_row mode o (some c)
    unfolding visit
    get-visit_self none d e = e
    get-visit_self (some o) d e = get-close_row_self s.0.counts k c o d

    IsPending-visit :
        (o : Option Owner) (rows : GoMap FlowKey Counter)
        → IsPending s.0 ((k, c) ∷ rows)
        → IsPending (visit mode k c o s).0 rows
    unfolding visit
    IsPending-visit none rows p = record { held = p.held.1; once = p.once.1 }
    IsPending-visit (some o) rows p = IsPending-fold_row mode s.0 k c rows o p

  module _ (resolve : Resolve) (q : FlowKey) where
    settle_rows-absent :
        (rows : GoMap FlowKey Counter) (s : GlobalState × ℕ)
        → get FlowKey-discrete rows q ≡ none
        → get FlowKey-discrete (settle_rows mode resolve rows s).0.counts q
          ≡ get FlowKey-discrete s.0.counts q
    unfolding settle_rows
    settle_rows-absent [] s e = refl
    settle_rows-absent ((k, c) ∷ rows) s e =
        let (ne, rest) = get-ne_row FlowKey-discrete rows q k c e in
        settle_rows-absent rows (visit mode k c (resolve k) s) rest
        ∙ get-visit_ne k c s (resolve k) q (λ p. ne (sym p))

    settle_rows-present :
        (rows : GoMap FlowKey Counter) (s : GlobalState × ℕ) (c : Counter)
        → IsPending s.0 rows
        → Distinct FlowKey-discrete s.0.counts
        → get FlowKey-discrete rows q ≡ some c
        → get FlowKey-discrete (settle_rows mode resolve rows s).0.counts q
          ≡ settled_row mode (resolve q) (some c)
    unfolding settle_rows
    settle_rows-present [] s c p d e = unfold get in cc
    settle_rows-present ((k, c') ∷ rows) s c p d e = elim (FlowKey-discrete k q) [
      | yes same ↦ cc (
        same,
        get-row_self FlowKey-discrete rows k c',
        settle_rows-absent rows (visit mode k c' (resolve k) s) (rw same at p.once.0),
        get-visit_self k c' s (resolve k) d p.held.0,
      )
      | no other ↦
          settle_rows-present rows (visit mode k c' (resolve k) s) c
            (IsPending-visit k c' s (resolve k) rows p) (visit-Distinct k c' s (resolve k) d)
            (get-row_ne FlowKey-discrete rows q k c' other ∙ e)
    ]

    -- If no two rows have one key, `Settle` leaves a row that does not resolve as it was; a row
    -- that resolves is evicted, or keeps its baseline under a total of zero bytes and packets, as
    -- the mode says.
    pub get-settle :
        (g : GlobalState)
        → Distinct FlowKey-discrete g.counts
        → get FlowKey-discrete (settle mode resolve g).0.counts q
          ≡ settled_row mode (resolve q) (get FlowKey-discrete g.counts q)
    unfolding settle
    get-settle g d = elim (Option-cases (get FlowKey-discrete g.counts q)) [
      | inl e ↦
          rw e (settle_rows-absent g.counts (g, 0) e ∙ e ∙ sym (settled_row-none mode (resolve q)))
      | inr (c, e) ↦ rw e (
          settle_rows-present g.counts (g, 0) c
            (record { held = HoldsRows-self FlowKey-discrete g.counts d; once = d }) d e)
    ]

  -- No map of the store holds a key twice after `Settle`, if none did before.
  pub settle-IsStore :
      (resolve : Resolve) (g : GlobalState) → IsStore g → IsStore (settle mode resolve g).0
  settle-IsStore resolve g s =
      settle_induction mode resolve g s.counts IsStore
        (λ g' k c o row e h. fold_row-IsStore g' k c o h) s
