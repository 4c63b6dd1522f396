-- ===== src/Restart/Changed.antt =====
-- internal/agent/walflush.go: a boot after flows changed their owners while the agent was down.
use text.Mathlib.Text.{◌==◌ as str_eq}
use text.Mathlib.TextEquality.{eq_iff}
use mathlib.Core.Logic.{if_pos, if_neg}
use lachesis.Base.{
  ◌≡◌, ◌≢◌, refl, sym, ap, ◌∙◌, Option, none, some, [], ◌∷◌, map, Bool-cases, ◌⊎◌, inl, inr,
}
use lachesis.Base.GoMap.{GoMap, get, put, get-put_self, get-put_ne}
use lachesis.Base.GoMap.Range.{get-row_ne}
use lachesis.Bpf.{FlowKey, FlowKey-discrete}
use lachesis.State.{Counter, Owner, Record, Resolve, Owner-discrete}
use lachesis.State.Snapshot.{records}
use lachesis.Restart.{owner_or_zero, stamp, add_owner, add_changed, changed_owners}

-- Every owner names its tenant.
abbrev pub Named : Resolve → Type 0
Named resolver = (k : FlowKey) (o : Owner) → resolver k ≡ some o → o.tenant ≢ ""

-- An owner that is to be folded is the one that was recorded.
abbrev pub Recorded : Resolve → GoMap FlowKey Owner → Type 0
Recorded resolver changed =
    (q : FlowKey) (o : Owner) → get FlowKey-discrete changed q ≡ some o → resolver q ≡ some o

pub get-empty : {V : Type 0} (q : FlowKey) → get {V = V} FlowKey-discrete [] q ≡ none
unfolding get
get-empty q = refl

module _ (old now : Resolve) (named : Named old) where
  -- What a row of the log has.
  abbrev row_of : FlowKey → Counter → Record
  row_of k c = record { key = k; counter = c; owner = owner_or_zero (old k) }

  put-Recorded :
      (k : FlowKey) (o : Owner) (changed : GoMap FlowKey Owner)
      → old k ≡ some o
      → Recorded old changed
      → Recorded old (put FlowKey-discrete changed k o)
  put-Recorded k o changed e h q p there = elim (FlowKey-discrete k q) [
    | yes own ↦ cc (get-put_self FlowKey-discrete changed k o, e, own, there)
    | no other ↦ h q p (sym (get-put_ne FlowKey-discrete changed k q o other) ∙ there)
  ]

  put-present :
      (k q : FlowKey) (o : Owner) (changed : GoMap FlowKey Owner)
      → get FlowKey-discrete changed q ≢ none
      → get FlowKey-discrete (put FlowKey-discrete changed k o) q ≢ none
  put-present k q o changed ne = elim (FlowKey-discrete k q) [
    | yes own ↦ λ absent. cc (get-put_self FlowKey-discrete changed k o, own, absent)
    | no other ↦ λ absent. ne (sym (get-put_ne FlowKey-discrete changed k q o other) ∙ absent)
  ]

  -- What one round does: it leaves the map, and then the owner is the recorded one or there was none, or it
  -- records an owner that differs.
  Round : FlowKey → Option Owner → Option Owner → GoMap FlowKey Owner → GoMap FlowKey Owner → Type 0
  Round k was is changed next =
      ((next ≡ changed) × ((was ≡ none) ⊎ (is ≡ was)))
      ⊎ ((o : Owner) × (was ≡ some o) × (next ≡ put FlowKey-discrete changed k o))

  add_owner-Round :
      (k : FlowKey) (c : Counter) (o : Owner) (is : Option Owner) (changed : GoMap FlowKey Owner)
      → Round k
          (some o)
          is
          changed
          (add_owner is (record { key = k; counter = c; owner = o }) changed)
  unfolding Round
  add_owner-Round k c o none changed = inr (o, refl, refl)
  add_owner-Round k c o (some p) changed = elim (Owner-discrete p o) [
    | yes same ↦ inl (if_pos (Owner-discrete p o) same _ _, inr (ap some same))
    | no other ↦ inr (o, refl, if_neg (Owner-discrete p o) other _ _)
  ]

  add_changed-Round :
      (k : FlowKey) (c : Counter) (was is : Option Owner) (changed : GoMap FlowKey Owner)
      → old k ≡ was
      → Round k was is changed
          (add_changed is (record { key = k; counter = c; owner = owner_or_zero was }) changed)
  unfolding Round
  add_changed-Round k c none is changed e = inl (refl, inl refl)
  add_changed-Round k c (some o) is changed e = elim (Bool-cases (str_eq o.tenant "")) [
    | inl empty ↦ absurd (named k o e ((eq_iff o.tenant "").0 empty))
    | inr full ↦ rw full (add_owner-Round k c o is changed)
  ]

  Round-Recorded :
      (k : FlowKey) (is : Option Owner) (changed next : GoMap FlowKey Owner)
      → Round k (old k) is changed next
      → Recorded old changed
      → Recorded old next
  unfolding Round
  Round-Recorded k is changed next (inl (e, s)) h = rw e h
  Round-Recorded k is changed next (inr (o, was, e)) h = rw e (put-Recorded k o changed was h)

  Round-present :
      (k : FlowKey) (is : Option Owner) (changed next : GoMap FlowKey Owner)
      → Round k (old k) is changed next
      → (q : FlowKey) → get FlowKey-discrete changed q ≢ none
      → get FlowKey-discrete next q ≢ none
  unfolding Round
  Round-present k is changed next (inl (e, s)) q ne = rw e ne
  Round-present k is changed next (inr (o, was, e)) q ne = rw e (put-present k q o changed ne)

  -- Where a row stands: it has no owner that was recorded, it has the same one, or it is to be folded.
  abbrev pub Stands : GoMap FlowKey Owner → FlowKey → Type 0
  Stands changed k = (old k ≡ none) ⊎ ((now k ≡ old k) ⊎ (get FlowKey-discrete changed k ≢ none))

  Round-Stands :
      (k : FlowKey) (changed next : GoMap FlowKey Owner)
      → Round k (old k) (now k) changed next
      → Stands next k
  unfolding Round
  Round-Stands k changed next (inl (e, inl was)) = inl was
  Round-Stands k changed next (inl (e, inr same)) = inr (inl same)
  Round-Stands k changed next (inr (o, was, e)) =
      inr (inr (rw (e, get-put_self FlowKey-discrete changed k o) (λ absent. cc)))

  abbrev pub changed_rows : GoMap FlowKey Counter → GoMap FlowKey Owner → GoMap FlowKey Owner
  changed_rows rows changed = changed_owners now (map (stamp old) (records rows)) changed

  abbrev after : FlowKey → Counter → GoMap FlowKey Owner → GoMap FlowKey Owner
  after k c changed = add_changed (now k) (row_of k c) changed

  pub changed_rows-Recorded :
      (rows : GoMap FlowKey Counter) (changed : GoMap FlowKey Owner)
      → Recorded old changed
      → Recorded old (changed_rows rows changed)
  unfolding changed_owners records
  changed_rows-Recorded [] changed h = h
  changed_rows-Recorded ((k, c) ∷ rows) changed h = changed_rows-Recorded rows (after k c changed) (
      Round-Recorded k (now k) changed (after k c changed)
        (add_changed-Round k c (old k) (now k) changed refl) h)

  changed_rows-present :
      (rows : GoMap FlowKey Counter) (changed : GoMap FlowKey Owner) (q : FlowKey)
      → get FlowKey-discrete changed q ≢ none
      → get FlowKey-discrete (changed_rows rows changed) q ≢ none
  unfolding changed_owners records
  changed_rows-present [] changed q ne = ne
  changed_rows-present ((k, c) ∷ rows) changed q ne =
      changed_rows-present rows (after k c changed) q (
        Round-present k (now k) changed (after k c changed)
          (add_changed-Round k c (old k) (now k) changed refl) q ne)

  Stands-later :
      (rows : GoMap FlowKey Counter) (changed : GoMap FlowKey Owner) (q : FlowKey)
      → Stands changed q
      → Stands (changed_rows rows changed) q
  Stands-later rows changed q (inl was) = inl was
  Stands-later rows changed q (inr (inl same)) = inr (inl same)
  Stands-later rows changed q (inr (inr ne)) = inr (inr (changed_rows-present rows changed q ne))

  pub changed_rows-Stands :
      (rows : GoMap FlowKey Counter) (changed : GoMap FlowKey Owner) (q : FlowKey)
      → get FlowKey-discrete rows q ≢ none
      → Stands (changed_rows rows changed) q
  unfolding changed_owners records
  changed_rows-Stands [] changed q ne = absurd (ne (get-empty q))
  changed_rows-Stands ((k, c) ∷ rows) changed q ne = elim (FlowKey-discrete k q) [
    | yes own ↦ rw (← own) (
        Stands-later rows (after k c changed) k (
          Round-Stands k changed (after k c changed)
            (add_changed-Round k c (old k) (now k) changed refl)))
    | no other ↦
        changed_rows-Stands rows (after k c changed) q
          (λ absent. ne (sym (get-row_ne FlowKey-discrete rows q k c other) ∙ absent))
  ]
