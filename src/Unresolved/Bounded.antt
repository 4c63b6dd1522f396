-- ===== src/Unresolved/Bounded.antt =====
-- internal/unresolved/buffer.go: the buffer keeps its invariant and its cap.
use lachesis.Base.{
  ℕ, zero, suc, ◌+◌, ◌≤◌, ◌<◌, ◌≡◌, ◌≢◌, refl, ◌∙◌, true, Option, none, some, ◌∷◌, arith,
  Bool-cases, inl, inr, ltb,
}
use lachesis.Base.GoMap.{
  get, put, length, get-put, put-Distinct, length-delete, length-put_old, held_key,
}
use lachesis.Bpf.{FlowKey, FlowMetrics, FlowKey-discrete}
use lachesis.Unresolved.{
  FlowEvictor, Buffer, Entry, Bounds, take_out, back, drop, fold_to_unknown, evict_entry,
  evict_back, evict_over_cap, recapture, capture_entry, capture,
}
use lachesis.Unresolved.Order.{
  occurs, IsBuffer, occurs-take_out_self, occurs-take_out_ne, occurs-back, occurs-back_none,
  drop-IsBuffer,
}

module _ {E : FlowEvictor} where
  fold-IsBuffer :
      (k : FlowKey) (m : FlowMetrics) (b : Buffer E) → IsBuffer b → IsBuffer (fold_to_unknown k m b)
  unfolding fold_to_unknown
  fold-IsBuffer k m b h = record { distinct = h.distinct; listed = h.listed }

  evict_entry-IsBuffer :
      (k : FlowKey) (o : Option Entry) (b : Buffer E)
      → get FlowKey-discrete b.entries k ≡ o
      → IsBuffer b
      → IsBuffer (evict_entry k o b)
  unfolding evict_entry
  evict_entry-IsBuffer k none b e h = h
  evict_entry-IsBuffer k (some x) b e h =
      drop-IsBuffer k x true (fold_to_unknown k x.total b) (unfold fold_to_unknown in e)
        (fold-IsBuffer k x.total b h)

  evict_back-IsBuffer : (o : Option FlowKey) (b : Buffer E) → IsBuffer b → IsBuffer (evict_back o b)
  unfolding evict_back
  evict_back-IsBuffer none b h = h
  evict_back-IsBuffer (some k) b h =
      evict_entry-IsBuffer k (get FlowKey-discrete b.entries k) b refl h

  evict_over_cap-IsBuffer :
      (fuel : ℕ) (bounds : Bounds) (b : Buffer E)
      → IsBuffer b
      → IsBuffer (evict_over_cap fuel bounds b)
  unfolding evict_over_cap
  evict_over_cap-IsBuffer zero bounds b h = h
  evict_over_cap-IsBuffer (suc fuel) bounds b h =
      elim (Bool-cases (ltb bounds.cap (length b.entries))) [
        | inl over ↦ rw over (
            evict_over_cap-IsBuffer fuel bounds (evict_back (back b.order) b)
              (evict_back-IsBuffer (back b.order) b h))
        | inr within ↦ rw within h
      ]

  evict_entry-length :
      (k : FlowKey) (o : Option Entry) (b : Buffer E)
      → get FlowKey-discrete b.entries k ≡ o
      → o ≢ none
      → suc (length (evict_entry k o b).entries) ≡ length b.entries
  unfolding evict_entry drop fold_to_unknown
  evict_entry-length k none b e ne = absurd (ne refl)
  evict_entry-length k (some x) b e ne = length-delete FlowKey-discrete b.entries k x e

  -- A round on a buffer that is not empty removes one entry.
  evict_back-length :
      (o : Option FlowKey) (b : Buffer E)
      → back b.order ≡ o
      → IsBuffer b
      → 0 < length b.entries
      → suc (length (evict_back o b).entries) ≡ length b.entries
  unfolding evict_back
  evict_back-length none b e h some_entry =
      let (k, v, held) = held_key FlowKey-discrete b.entries some_entry in
      absurd (ground (arith, held, h.listed k, occurs-back_none b.order k e))
  evict_back-length (some k) b e h some_entry =
      evict_entry-length k (get FlowKey-discrete b.entries k) b refl
        (λ absent. occurs-back b.order k e (h.listed k ∙ rw absent refl))

  evict_over_cap-length :
      (fuel : ℕ) (bounds : Bounds) (b : Buffer E)
      → IsBuffer b
      → length b.entries ≤ fuel + bounds.cap
      → length (evict_over_cap fuel bounds b).entries ≤ bounds.cap
  unfolding evict_over_cap
  evict_over_cap-length zero bounds b h le = omega arith
  evict_over_cap-length (suc fuel) bounds b h le =
      elim (Bool-cases (ltb bounds.cap (length b.entries))) [
        | inl over ↦
            let shorter = evict_back-length (back b.order) b refl h (ground arith) in
            rw over (
              evict_over_cap-length fuel bounds (evict_back (back b.order) b)
                (evict_back-IsBuffer (back b.order) b h) (omega arith))
        | inr within ↦ rw within (ground arith)
      ]

  fresh : Bounds → ℕ → FlowKey → FlowMetrics → Buffer E → Buffer E
  fresh bounds now key raw b = record b {
    entries =
        put FlowKey-discrete b.entries key
          (record { total = raw; last_raw = raw; first_seen = now });
    order = key ∷ b.order;
  }

  fresh-IsBuffer :
      (bounds : Bounds) (now : ℕ) (key : FlowKey) (raw : FlowMetrics) (b : Buffer E)
      → get FlowKey-discrete b.entries key ≡ none
      → IsBuffer b
      → IsBuffer (fresh bounds now key raw b)
  unfolding fresh
  fresh-IsBuffer bounds now key raw b new h =
      let e : Entry = record { total = raw; last_raw = raw; first_seen = now } in
      record {
        distinct = put-Distinct FlowKey-discrete b.entries key e h.distinct;
        listed = λ q.
            unfold occurs in
            ground (arith, h.listed q, h.listed key, get-put FlowKey-discrete b.entries key q e);
      }

  touched-IsBuffer :
      (key : FlowKey) (e e' : Entry) (b : Buffer E)
      → get FlowKey-discrete b.entries key ≡ some e
      → IsBuffer b
      → IsBuffer (record b {
        entries = put FlowKey-discrete b.entries key e';
        order = key ∷ take_out key b.order;
      })
  touched-IsBuffer key e e' b old h = record {
    distinct = put-Distinct FlowKey-discrete b.entries key e' h.distinct;
    listed = λ q.
        unfold occurs in
        ground (
          arith,
          h.listed q,
          h.listed key,
          get-put FlowKey-discrete b.entries key q e',
          occurs-take_out_self key b.order,
          occurs-take_out_ne key q b.order,
        );
  }

  capture_entry-IsBuffer :
      (o : Option Entry) (bounds : Bounds) (now : ℕ) (key : FlowKey) (raw : FlowMetrics)
      (b : Buffer E)
      → get FlowKey-discrete b.entries key ≡ o
      → IsBuffer b
      → IsBuffer (capture_entry o bounds now key raw b)
        × (length b.entries ≤ bounds.cap
            → length (capture_entry o bounds now key raw b).entries ≤ bounds.cap)
  unfolding capture_entry fresh
  capture_entry-IsBuffer none bounds now key raw b e h =
      let b' = fresh bounds now key raw b in
      let h' = fresh-IsBuffer bounds now key raw b e h in
      (
        evict_over_cap-IsBuffer (length b'.entries) bounds b' h',
        λ within. evict_over_cap-length (length b'.entries) bounds b' h' (omega arith),
      )
  capture_entry-IsBuffer (some x) bounds now key raw b e h = (
    touched-IsBuffer key x (recapture x raw) b e h,
    λ within. rw (length-put_old FlowKey-discrete b.entries key (recapture x raw) x e) within,
  )

  -- On a buffer whose list and entries are in step, `Capture` keeps them so, and a buffer within
  -- its cap stays within it: as many rounds as there are entries are enough for `evictOverCap` to
  -- finish.
  pub capture-IsBuffer :
      (bounds : Bounds) (now : ℕ) (key : FlowKey) (raw : FlowMetrics) (b : Buffer E)
      → IsBuffer b
      → IsBuffer (capture bounds now key raw b)
        × (length b.entries ≤ bounds.cap
            → length (capture bounds now key raw b).entries ≤ bounds.cap)
  unfolding capture
  capture-IsBuffer bounds now key raw b h =
      capture_entry-IsBuffer (get FlowKey-discrete b.entries key) bounds now key raw b refl h
