-- ===== src/Unresolved.antt =====
-- internal/unresolved: the buffer of flows whose MAC is not known yet (buffer.go), and the routing of
-- each drained reading (classifier.go). The scrape goroutine owns the buffer, so a call is a function
-- from state to state. `container/list` with its element pointers is a list of keys, and the element
-- of an entry is the one that holds the entry's key.
pub mod Order
pub mod Bounded
pub mod Conserved
pub mod Late
use mathlib.Core.Logic.{ite}
use lachesis.Base.{
  ℕ, zero, suc, ◌+◌, Bool, true, false, not, ◌&&◌, Option, none, some, List, [], ◌∷◌, ◌++◌,
  if◌then◌else◌, ltb, ◌==◌,
}
use lachesis.Base.GoMap.{GoMap, get, put, delete, length}
use lachesis.Bpf.{FlowKey, FlowMetrics, FlowKey-discrete, zero_mac}
use lachesis.State
use lachesis.State.{GlobalState, add_delta, raise_to}
use lachesis.Metadata.{TenantMeta, ShardedMetadataMap, vm_mac, lookup}

-- `entry`
pub record Entry : Type 0 where
  pub total : FlowMetrics
  pub last_raw : FlowMetrics
  pub first_seen : ℕ

-- `UnresolvedTTL` and `UnresolvedCap` of the live tunables
pub record Bounds : Type 0 where
  pub ttl : ℕ
  pub cap : ℕ

-- `FlowEvictor`: the kernel's `telemetry_map`, and `Delete`, which may fail; a failure is logged
pub record FlowEvictor : Type 1 where
  pub Kernel : Type 0
  pub evict : Kernel → FlowKey → Bool × Kernel

-- The buffer, with the store and the kernel's map that it writes to. `order` has the most recently
-- captured key at its front.
pub record Buffer (E : FlowEvictor) : Type 0 where
  pub entries : GoMap FlowKey Entry
  pub order : List FlowKey
  pub state : GlobalState
  pub kernel : E.Kernel

-- `order.Remove(e.elem)`
unfoldable pub take_out : FlowKey → List FlowKey → List FlowKey
take_out k [] = []
take_out k (j ∷ order) = ite (FlowKey-discrete j k) order (j ∷ take_out k order)

-- `order.Back()`
unfoldable pub back : List FlowKey → Option FlowKey
back [] = none
back (k ∷ []) = some k
back (k ∷ k' ∷ order) = back (k' ∷ order)

-- The synthetic key of `foldToUnknown`
abbrev pub unknown_key : FlowKey → FlowKey
unknown_key key = record key { src_mac = zero_mac; dst_mac = zero_mac }

-- `Capture` on an entry that is there
unfoldable pub recapture : Entry → FlowMetrics → Entry
unfolding add_delta
recapture e raw =
    let (bytes, last_bytes) = add_delta e.total.bytes e.last_raw.bytes raw.bytes in
    let (packets, last_packets) = add_delta e.total.packets e.last_raw.packets raw.packets in
    record e {
      total = record (e.total) {
        bytes = bytes;
        packets = packets;
        last_seen_ns = raise_to raw.last_seen_ns e.total.last_seen_ns;
      };
      last_raw = record (e.last_raw) {
        bytes = last_bytes;
        packets = last_packets;
        last_seen_ns = raw.last_seen_ns;
      };
    }

module _ {E : FlowEvictor} where
  -- `foldToUnknown`
  unfoldable pub fold_to_unknown : FlowKey → FlowMetrics → Buffer E → Buffer E
  unfolding State.add
  fold_to_unknown key total b = record b { state = State.add b.state (unknown_key key) total }

  -- `drop`
  unfoldable pub drop : FlowKey → Bool → Buffer E → Buffer E
  unfolding take_out
  drop key del_kernel b = record b {
    entries = delete FlowKey-discrete b.entries key;
    order = take_out key b.order;
    kernel = if del_kernel then (E.evict b.kernel key).1 else b.kernel;
  }

  -- One round of `evictOverCap` on the victim; a key that `order` alone holds would be a nil entry
  pub evict_entry : FlowKey → Option Entry → Buffer E → Buffer E
  unfolding fold_to_unknown drop
  evict_entry key none b = b
  evict_entry key (some e) b = drop key true (fold_to_unknown key e.total b)

  pub evict_back : Option FlowKey → Buffer E → Buffer E
  unfolding evict_entry
  evict_back none b = b
  evict_back (some key) b = evict_entry key (get FlowKey-discrete b.entries key) b

  -- `evictOverCap`, on fuel for its rounds
  unfoldable pub evict_over_cap : ℕ → Bounds → Buffer E → Buffer E
  unfolding evict_back
  evict_over_cap zero bounds b = b
  evict_over_cap (suc fuel) bounds b =
      let rest = evict_over_cap fuel bounds (evict_back (back b.order) b) in
      if ltb bounds.cap (length b.entries) then rest else b

  -- `Capture`
  pub capture_entry : Option Entry → Bounds → ℕ → FlowKey → FlowMetrics → Buffer E → Buffer E
  unfolding recapture evict_over_cap
  capture_entry none bounds now key raw b =
      let b' = record b {
        entries =
            put FlowKey-discrete b.entries key
              (record { total = raw; last_raw = raw; first_seen = now });
        order = key ∷ b.order;
      } in
      evict_over_cap (length b'.entries) bounds b'
  capture_entry (some e) bounds now key raw b = record b {
    entries = put FlowKey-discrete b.entries key (recapture e raw);
    order = key ∷ take_out key b.order;
  }

  unfoldable pub capture : Bounds → ℕ → FlowKey → FlowMetrics → Buffer E → Buffer E
  unfolding capture_entry
  capture bounds now key raw b =
      capture_entry (get FlowKey-discrete b.entries key) bounds now key raw b

  -- One round of `Sweep`: `now.Sub(e.firstSeen) < ttl` is `now < firstSeen + ttl`
  unfoldable pub sweep_entry : Bounds → ℕ → Bool → FlowKey → Entry → Buffer E × ℕ → Buffer E × ℕ
  unfolding fold_to_unknown drop
  sweep_entry bounds now force key e (b, expired) =
      if not force && ltb now (e.first_seen + bounds.ttl)
      then (b, expired)
      else (drop key (not force) (fold_to_unknown key e.total b), suc expired)

  unfoldable pub sweep_entries :
      Bounds → ℕ → Bool → GoMap FlowKey Entry → Buffer E × ℕ → Buffer E × ℕ
  unfolding sweep_entry
  sweep_entries bounds now force [] s = s
  sweep_entries bounds now force ((key, e) ∷ rows) s =
      sweep_entries bounds now force rows (sweep_entry bounds now force key e s)

  -- `Sweep`: the new buffer, and the entries that expired
  unfoldable pub sweep : Bounds → ℕ → Bool → Buffer E → Buffer E × ℕ
  unfolding sweep_entries
  sweep bounds now force b = sweep_entries bounds now force b.entries (b, 0)

  pub resolve_entry : Option Entry → FlowKey → Buffer E → Bool × Buffer E
  unfolding drop State.resolve
  resolve_entry none key b = (false, b)
  resolve_entry (some e) key b =
      (true, drop key false (record b { state = State.resolve b.state key e.total e.last_raw }))

  -- `Buffer.Resolve`
  unfoldable pub resolve : FlowKey → Buffer E → Bool × Buffer E
  unfolding resolve_entry
  resolve key b = resolve_entry (get FlowKey-discrete b.entries key) key b

  pub absorb_known : FlowKey → FlowMetrics → Buffer E → Buffer E
  unfolding resolve State.apply_delta
  absorb_known key raw b =
      let (_, b') = resolve key b in record b' { state = State.apply_delta b'.state key raw }

  -- `Classifier.Absorb` on what the metadata map holds for the flow's MAC
  pub absorb_entry : Option TenantMeta → Bounds → ℕ → FlowKey → FlowMetrics → Buffer E → Buffer E
  unfolding absorb_known capture
  absorb_entry (some _) bounds now key raw b = absorb_known key raw b
  absorb_entry none bounds now key raw b = capture bounds now key raw b

  -- `Classifier.Absorb`
  unfoldable pub absorb :
      ShardedMetadataMap → Bounds → ℕ → FlowKey → FlowMetrics → Buffer E → Buffer E
  unfolding absorb_entry
  absorb meta bounds now key raw b = absorb_entry (lookup meta (vm_mac key)) bounds now key raw b
