-- ===== src/Unresolved/Conserved.antt =====
-- internal/unresolved/buffer.go: what leaves the buffer arrives in the store, to the byte.
use lachesis.Base.{
  ℕ, zero, suc, ◌+◌, ◌-◌, ◌%◌, ◌≡◌, refl, ◌∙◌, Bool, true, not, ◌&&◌, Option, none, some, [], ◌∷◌,
  arith, Bool-cases, inl, inr, ltb, if◌then◌else◌, leb,
}
use lachesis.Base.Word.{u64_mod}
use lachesis.Base.GoMap.{GoMap, get, put, Distinct, length}
use lachesis.Base.GoMap.Range.{HoldsRows, HoldsRows-self, HoldsRows-delete}
use lachesis.Base.GoMap.Sum.{sum, sum-put, sum-delete}
use lachesis.Bpf.{FlowKey, FlowMetrics, FlowKey-discrete}
use lachesis.State
use lachesis.State.{GlobalState, Counter, added, resolved, add_metrics}
use lachesis.State.Exposure.{Meter, bytes, packets, read_flow}
use lachesis.Unresolved.{
  FlowEvictor, Buffer, Entry, Bounds, back, drop, fold_to_unknown, evict_entry, evict_back,
  evict_over_cap, recapture, capture_entry, capture, sweep_entry, sweep_entries, sweep, unknown_key,
  resolve_entry, resolve,
}
use lachesis.Unresolved.Order.{IsBuffer}

abbrev pub buffered : Meter → FlowKey → Entry → ℕ
buffered meter k e = read_flow meter e.total

abbrev pub stored : Meter → FlowKey → Counter → ℕ
stored meter k c = read_flow meter c.total

-- All that has been counted: in the buffer, and in the rows of the store.
unfoldable pub held : {E : FlowEvictor} → Meter → Buffer E → ℕ
held meter b = (sum (buffered meter) b.entries + sum (stored meter) b.state.counts) % u64_mod

abbrev pub growth_of : Meter → Entry → FlowMetrics → ℕ
growth_of meter e raw =
    if leb (read_flow meter e.last_raw) (read_flow meter raw)
    then read_flow meter raw - read_flow meter e.last_raw
    else read_flow meter raw

-- What `Capture` adds: the whole reading at first sight, then the growth since the last one, or
-- again the whole reading where the counter fell.
abbrev pub growth : Meter → Option Entry → FlowMetrics → ℕ
growth meter none raw = read_flow meter raw
growth meter (some e) raw = growth_of meter e raw

stored-add :
    (meter : Meter) (g : GlobalState) (key : FlowKey) (m : FlowMetrics)
    → sum (stored meter) (State.add g key m).counts % u64_mod
      ≡ (sum (stored meter) g.counts + read_flow meter m) % u64_mod
unfolding State.add
stored-add bytes g key m = ground (
  arith,
  sum-put FlowKey-discrete (stored bytes) g.counts key
      (added (get FlowKey-discrete g.counts key) m),
)
stored-add packets g key m = ground (
  arith,
  sum-put FlowKey-discrete (stored packets) g.counts key
      (added (get FlowKey-discrete g.counts key) m),
)

stored-resolve :
    (meter : Meter) (g : GlobalState) (key : FlowKey) (m last : FlowMetrics)
    → sum (stored meter) (State.resolve g key m last).counts % u64_mod
      ≡ (sum (stored meter) g.counts + read_flow meter m) % u64_mod
unfolding State.resolve
stored-resolve bytes g key m last = ground (
  arith,
  sum-put FlowKey-discrete (stored bytes) g.counts key
      (resolved (get FlowKey-discrete g.counts key) m last),
)
stored-resolve packets g key m last = ground (
  arith,
  sum-put FlowKey-discrete (stored packets) g.counts key
      (resolved (get FlowKey-discrete g.counts key) m last),
)

pub recapture-total :
    (meter : Meter) (e : Entry) (raw : FlowMetrics)
    → read_flow meter (recapture e raw).total
      ≡ (read_flow meter e.total + growth meter (some e) raw) % u64_mod
unfolding recapture
recapture-total meter e raw =
    elim meter
      as (λ m.
        read_flow m (recapture e raw).total ≡ (read_flow m e.total + growth_of m e raw) % u64_mod) [
          | bytes ↦ ground arith
          | packets ↦ ground arith
        ]

module _ {E : FlowEvictor} (meter : Meter) where
  held-fold_drop :
      (key : FlowKey) (e : Entry) (del : Bool) (b : Buffer E)
      → get FlowKey-discrete b.entries key ≡ some e
      → held meter (drop key del (fold_to_unknown key e.total b)) ≡ held meter b
  unfolding held drop fold_to_unknown
  held-fold_drop key e del b there = ground (
    arith,
    sum-delete FlowKey-discrete (buffered meter) b.entries key,
    stored-add meter b.state (unknown_key key) e.total,
  )

  held-evict_entry :
      (key : FlowKey) (o : Option Entry) (b : Buffer E)
      → get FlowKey-discrete b.entries key ≡ o
      → held meter (evict_entry key o b) ≡ held meter b
  unfolding evict_entry
  held-evict_entry key none b e = refl
  held-evict_entry key (some x) b e = held-fold_drop key x true b e

  held-evict_back : (o : Option FlowKey) (b : Buffer E) → held meter (evict_back o b) ≡ held meter b
  unfolding evict_back
  held-evict_back none b = refl
  held-evict_back (some key) b = held-evict_entry key (get FlowKey-discrete b.entries key) b refl

  held-evict_over_cap :
      (fuel : ℕ) (bounds : Bounds) (b : Buffer E)
      → held meter (evict_over_cap fuel bounds b) ≡ held meter b
  unfolding evict_over_cap
  held-evict_over_cap zero bounds b = refl
  held-evict_over_cap (suc fuel) bounds b = elim (Bool-cases (ltb bounds.cap (length b.entries))) [
    | inl over ↦ rw over (
        held-evict_over_cap fuel bounds (evict_back (back b.order) b)
        ∙ held-evict_back (back b.order) b)
    | inr within ↦ rw within refl
  ]

  held-capture_entry :
      (o : Option Entry) (bounds : Bounds) (now : ℕ) (key : FlowKey) (raw : FlowMetrics)
      (b : Buffer E)
      → get FlowKey-discrete b.entries key ≡ o
      → held meter (capture_entry o bounds now key raw b)
        ≡ (held meter b + growth meter o raw) % u64_mod
  unfolding capture_entry
  held-capture_entry none bounds now key raw b e =
      let x : Entry = record { total = raw; last_raw = raw; first_seen = now } in
      let m = put FlowKey-discrete b.entries key x in
      held-evict_over_cap (length m) bounds (record b { entries = m; order = key ∷ b.order })
      ∙ unfold held in ground (arith, e, sum-put FlowKey-discrete (buffered meter) b.entries key x)
  held-capture_entry (some x) bounds now key raw b e =
      unfold held in
      ground (
        arith,
        e,
        recapture-total meter x raw,
        sum-put FlowKey-discrete (buffered meter) b.entries key (recapture x raw),
      )

  -- What the buffer and the store hold together, bytes or packets, grows under `Capture` by what
  -- the reading grew by, modulo 2^64: an eviction that it causes loses nothing.
  pub held-capture :
      (bounds : Bounds) (now : ℕ) (key : FlowKey) (raw : FlowMetrics) (b : Buffer E)
      → held meter (capture bounds now key raw b)
        ≡ (held meter b + growth meter (get FlowKey-discrete b.entries key) raw) % u64_mod
  unfolding capture
  held-capture bounds now key raw b =
      held-capture_entry (get FlowKey-discrete b.entries key) bounds now key raw b refl

  HoldsRows-sweep_entry :
      (bounds : Bounds) (now : ℕ) (force : Bool) (key : FlowKey) (e : Entry) (s : Buffer E × ℕ)
      (rows : GoMap FlowKey Entry)
      → get FlowKey-discrete rows key ≡ none
      → HoldsRows FlowKey-discrete s.0.entries rows
      → HoldsRows FlowKey-discrete (sweep_entry bounds now force key e s).0.entries rows
  unfolding sweep_entry fold_to_unknown drop
  HoldsRows-sweep_entry bounds now force key e s rows once h =
      elim (Bool-cases (not force && ltb now (e.first_seen + bounds.ttl))) [
        | inl young ↦ rw young h
        | inr over ↦ rw over (HoldsRows-delete FlowKey-discrete s.0.entries rows key once h)
      ]

  held-sweep_entry :
      (bounds : Bounds) (now : ℕ) (force : Bool) (key : FlowKey) (e : Entry) (s : Buffer E × ℕ)
      → get FlowKey-discrete s.0.entries key ≡ some e
      → held meter (sweep_entry bounds now force key e s).0 ≡ held meter s.0
  unfolding sweep_entry
  held-sweep_entry bounds now force key e s there =
      elim (Bool-cases (not force && ltb now (e.first_seen + bounds.ttl))) [
        | inl young ↦ rw young refl
        | inr over ↦ rw over (held-fold_drop key e (not force) s.0 there)
      ]

  held-sweep_entries :
      (bounds : Bounds) (now : ℕ) (force : Bool) (rows : GoMap FlowKey Entry) (s : Buffer E × ℕ)
      → HoldsRows FlowKey-discrete s.0.entries rows
      → Distinct FlowKey-discrete rows
      → held meter (sweep_entries bounds now force rows s).0 ≡ held meter s.0
  unfolding sweep_entries
  held-sweep_entries bounds now force [] s h d = refl
  held-sweep_entries bounds now force ((key, e) ∷ rows) s h d =
      held-sweep_entries bounds now force rows (sweep_entry bounds now force key e s)
        (HoldsRows-sweep_entry bounds now force key e s rows d.0 h.1) d.1
      ∙ held-sweep_entry bounds now force key e s h.0

  -- On a buffer whose list and entries are in step, `Sweep`, forced or not, loses and invents
  -- nothing: what the buffer and the store hold together, bytes or packets, modulo 2^64, is what
  -- they held before.
  pub held-sweep :
      (bounds : Bounds) (now : ℕ) (force : Bool) (b : Buffer E)
      → IsBuffer b
      → held meter (sweep bounds now force b).0 ≡ held meter b
  unfolding sweep
  held-sweep bounds now force b h =
      held-sweep_entries bounds now force b.entries (b, 0)
        (HoldsRows-self FlowKey-discrete b.entries h.distinct) h.distinct

  held-resolve_entry :
      (key : FlowKey) (o : Option Entry) (b : Buffer E)
      → get FlowKey-discrete b.entries key ≡ o
      → held meter (resolve_entry o key b).1 ≡ held meter b
  unfolding resolve_entry held drop
  held-resolve_entry key none b e = refl
  held-resolve_entry key (some x) b e = ground (
    arith,
    e,
    sum-delete FlowKey-discrete (buffered meter) b.entries key,
    stored-resolve meter b.state key x.total x.last_raw,
  )

  -- Late binding moves an entry to the store and loses nothing: what the buffer and the store hold
  -- together, bytes or packets, modulo 2^64, is what they held before.
  pub held-resolve : (key : FlowKey) (b : Buffer E) → held meter (resolve key b).1 ≡ held meter b
  unfolding resolve
  held-resolve key b = held-resolve_entry key (get FlowKey-discrete b.entries key) b refl
