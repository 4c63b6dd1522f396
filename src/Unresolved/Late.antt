-- ===== src/Unresolved/Late.antt =====
-- internal/unresolved: a flow is buffered, its MAC becomes known, and `Absorb` hands it over
-- (classifier.go). What its row in the store then holds.
use lachesis.Base.{
  ℕ, ◌+◌, ◌%◌, ◌≤◌, ◌<◌, ◌≡◌, ◌≢◌, refl, ap, ◌∙◌, none, some, List, [], ◌∷◌, ◌++◌, arith,
  if◌then◌else◌, leb,
}
use lachesis.Base.Word.{u64_mod}
use lachesis.Base.GoMap.{get, get-put_self}
use lachesis.Bpf.{FlowKey, FlowMetrics, FlowKey-discrete}
use lachesis.State
use lachesis.State.{GlobalState, Counter, integrate, observe, resolved}
use lachesis.State.Exposure.{Meter, bytes, packets, read_flow}
use lachesis.Metadata.{ShardedMetadataMap, lookup, vm_mac, TenantMeta}
use lachesis.Unresolved.{
  FlowEvictor, Buffer, Entry, Bounds, drop, recapture, absorb_known, absorb_entry, absorb,
  resolve_entry, resolve, capture, capture_entry,
}

-- While the stamp stays, an entry's counters do not fall.
abbrev pub SameStamp : FlowMetrics → List FlowMetrics → Type 0
SameStamp last [] = Unit
SameStamp last (r ∷ readings) =
    (r.created_ns ≡ last.created_ns)
    × (last.bytes ≤ r.bytes)
    × (last.packets ≤ r.packets)
    × SameStamp r readings

-- The entry of a first capture.
abbrev pub first_entry : FlowMetrics → ℕ → Entry
first_entry r now = record { total = r; last_raw = r; first_seen = now }

-- The entry after the captures of `readings`.
unfoldable pub recapture_all : Entry → List FlowMetrics → Entry
unfolding recapture
recapture_all e [] = e
recapture_all e (r ∷ readings) = recapture_all (recapture e r) readings

-- The buffer after the captures of `readings` at the drains of one unknown flow.
unfoldable pub capture_all :
    {E : FlowEvictor} → Bounds → ℕ → FlowKey → Buffer E → List FlowMetrics → Buffer E
unfolding capture
capture_all bounds now key b [] = b
capture_all bounds now key b (r ∷ readings) =
    capture_all bounds now key (capture bounds now key r b) readings

-- The total of the row that `Absorb` leaves, with what the kernel counted before its entry.
absorbed : Entry → FlowMetrics → Counter
absorbed e raw = integrate (record { total = e.total; last_ebpf_raw = e.last_raw }) raw

module _ {E : FlowEvictor} (bounds : Bounds) (now : ℕ) (key : FlowKey) where
  get-capture :
      (raw : FlowMetrics) (b : Buffer E) (e : Entry)
      → get FlowKey-discrete b.entries key ≡ some e
      → get FlowKey-discrete (capture bounds now key raw b).entries key ≡ some (recapture e raw)
  unfolding capture capture_entry
  get-capture raw b e kept =
      ap (λ o. get FlowKey-discrete (capture_entry o bounds now key raw b).entries key) kept
      ∙ get-put_self FlowKey-discrete b.entries key _

  state-capture :
      (raw : FlowMetrics) (b : Buffer E) (e : Entry)
      → get FlowKey-discrete b.entries key ≡ some e
      → (capture bounds now key raw b).state ≡ b.state
  unfolding capture capture_entry
  state-capture raw b e kept = ap (λ o. (capture_entry o bounds now key raw b).state) kept

  get-capture_all :
      (readings : List FlowMetrics) (b : Buffer E) (e : Entry)
      → get FlowKey-discrete b.entries key ≡ some e
      → get FlowKey-discrete (capture_all bounds now key b readings).entries key
        ≡ some (recapture_all e readings)
  unfolding capture_all recapture_all
  get-capture_all [] b e kept = kept
  get-capture_all (r ∷ readings) b e kept =
      get-capture_all readings (capture bounds now key r b) (recapture e r) (get-capture r b e kept)

  state-capture_all :
      (readings : List FlowMetrics) (b : Buffer E) (e : Entry)
      → get FlowKey-discrete b.entries key ≡ some e
      → (capture_all bounds now key b readings).state ≡ b.state
  unfolding capture_all
  state-capture_all [] b e kept = refl
  state-capture_all (r ∷ readings) b e kept =
      state-capture_all readings (capture bounds now key r b) (recapture e r)
        (get-capture r b e kept)
      ∙ state-capture r b e kept

  module _ (meta : ShardedMetadataMap) (raw : FlowMetrics) (m : TenantMeta)
      (known : lookup meta (vm_mac key) ≡ some m) where
    get-resolve :
        (b : Buffer E) (e : Entry)
        → get FlowKey-discrete b.entries key ≡ some e
        → get FlowKey-discrete b.state.counts key ≡ none
        → get FlowKey-discrete (resolve key b).1.state.counts key
          ≡ some (record { total = e.total; last_ebpf_raw = e.last_raw })
    unfolding resolve resolve_entry drop State.resolve resolved
    get-resolve b e kept new =
        ap (λ o. get FlowKey-discrete (resolve_entry o key b).1.state.counts key) kept
        ∙ get-put_self FlowKey-discrete b.state.counts key _
        ∙ ap (λ o. some (resolved o e.total e.last_raw)) new

    get-absorb :
        (b : Buffer E) (e : Entry)
        → get FlowKey-discrete b.entries key ≡ some e
        → get FlowKey-discrete b.state.counts key ≡ none
        → get FlowKey-discrete (absorb meta bounds now key raw b).state.counts key
          ≡ some (absorbed e raw)
    unfolding absorb absorb_entry absorb_known State.apply_delta observe absorbed
    get-absorb b e kept new =
        ap (λ o. get FlowKey-discrete (absorb_entry o bounds now key raw b).state.counts key) known
        ∙ get-put_self FlowKey-discrete (resolve key b).1.state.counts key _
        ∙ ap (λ o. some (observe o raw)) (get-resolve b e kept new)

    get-absorb_late :
        (b : Buffer E) (e : Entry) (readings : List FlowMetrics)
        → get FlowKey-discrete b.entries key ≡ some e
        → get FlowKey-discrete b.state.counts key ≡ none
        → get FlowKey-discrete
            (absorb meta bounds now key raw (capture_all bounds now key b readings)).state.counts
            key
          ≡ some (absorbed (recapture_all e readings) raw)
    get-absorb_late b e readings kept new =
        get-absorb (capture_all bounds now key b readings) (recapture_all e readings)
          (get-capture_all readings b e kept)
          (ap (λ (g : GlobalState). get FlowKey-discrete g.counts key)
              (state-capture_all readings b e kept)
            ∙ new)

last-recapture_all :
    (meter : Meter) (e : Entry) (readings : List FlowMetrics) (r raw : FlowMetrics)
    → e.last_raw.created_ns ≡ r.created_ns
    → read_flow meter e.last_raw ≡ read_flow meter r
    → read_flow meter e.total ≡ read_flow meter r % u64_mod
    → SameStamp r (readings ++ (raw ∷ []))
    → ((recapture_all e readings).last_raw.created_ns ≡ raw.created_ns)
      × (read_flow meter (recapture_all e readings).last_raw ≤ read_flow meter raw)
      × (read_flow meter (recapture_all e readings).total
          ≡ read_flow meter (recapture_all e readings).last_raw % u64_mod)
unfolding recapture_all recapture
last-recapture_all bytes e [] r raw h hl ht k = ground arith
last-recapture_all packets e [] r raw h hl ht k = ground arith
last-recapture_all bytes e (r' ∷ readings) r raw h hl ht k =
    last-recapture_all bytes (recapture e r') readings r' raw (ground arith) (ground arith)
      (ground arith) k.3
last-recapture_all packets e (r' ∷ readings) r raw h hl ht k =
    last-recapture_all packets (recapture e r') readings r' raw (ground arith) (ground arith)
      (ground arith) k.3

absorbed-same :
    (meter : Meter) (e : Entry) (raw : FlowMetrics)
    → e.last_raw.created_ns ≡ raw.created_ns
    → read_flow meter e.last_raw ≤ read_flow meter raw
    → read_flow meter e.total ≡ read_flow meter e.last_raw % u64_mod
    → read_flow meter (absorbed e raw).total ≡ read_flow meter raw % u64_mod
unfolding absorbed integrate
absorbed-same bytes e raw h hl ht = ground arith
absorbed-same packets e raw h hl ht = ground arith

absorbed-recreated :
    (meter : Meter) (r0 r1 raw : FlowMetrics) (seen : ℕ)
    → r0.created_ns ≢ 0
    → r1.created_ns ≢ r0.created_ns
    → raw.created_ns ≡ r1.created_ns
    → read_flow meter (absorbed (recapture (first_entry r0 seen) r1) raw).total
      ≡ ((if leb (read_flow meter r0) (read_flow meter r1)
            then read_flow meter r1
            else read_flow meter r0 + read_flow meter r1)
          + read_flow meter raw)
        % u64_mod
unfolding absorbed integrate recapture
absorbed-recreated bytes r0 r1 raw seen h ne e = ground arith
absorbed-recreated packets r0 r1 raw seen h ne e = ground arith

-- A flow is buffered with the reading `r` and has no row; it is captured again at `readings`, and then
-- its MAC is known and `Absorb` gets `raw`. If all readings carry one stamp and their counters never
-- fall, the row that `Absorb` leaves holds the last reading, modulo 2^64, for bytes and for packets,
-- and its baseline is the last reading.
pub absorb-late :
    {E : FlowEvictor} (bounds : Bounds) (now seen : ℕ) (key : FlowKey) (meta : ShardedMetadataMap)
    (r raw : FlowMetrics) (m : TenantMeta) (readings : List FlowMetrics) (b : Buffer E)
    → lookup meta (vm_mac key) ≡ some m
    → get FlowKey-discrete b.entries key ≡ some (first_entry r seen)
    → get FlowKey-discrete b.state.counts key ≡ none
    → r.bytes < u64_mod
    → r.packets < u64_mod
    → SameStamp r (readings ++ (raw ∷ []))
    → (c : Counter) × (get FlowKey-discrete
          (absorb meta bounds now key raw (capture_all bounds now key b readings)).state.counts
          key
        ≡ some c)
      × (c.total.bytes ≡ raw.bytes % u64_mod)
      × (c.total.packets ≡ raw.packets % u64_mod)
      × (c.last_ebpf_raw ≡ raw)
unfolding absorbed integrate
absorb-late bounds now seen key meta r raw m readings b known kept new hb hp k =
    let e = recapture_all (first_entry r seen) readings in
    let ends = λ (meter : Meter) (lt : read_flow meter r ≡ read_flow meter r % u64_mod).
      last-recapture_all meter (first_entry r seen) readings r raw refl refl lt k in
    let at_bytes = ends bytes (omega arith) in
    let at_packets = ends packets (omega arith) in
    (
      absorbed e raw,
      get-absorb_late bounds now key meta raw m known b (first_entry r seen) readings kept new,
      absorbed-same bytes e raw at_bytes.0 at_bytes.1 at_bytes.2,
      absorbed-same packets e raw at_packets.0 at_packets.1 at_packets.2,
      refl,
    )

-- The same flow, where the kernel's entry was recreated while it was buffered: captured at `r0`, then at
-- `r1` under another stamp, then absorbed at `raw` under `r1`'s stamp. The row holds `raw` and `r1`, and
-- `r0` too where `r1` is smaller, modulo 2^64: `r1` is counted on top of `raw`, which contains it.
pub absorb-recreated :
    {E : FlowEvictor} (meter : Meter) (bounds : Bounds) (now seen : ℕ) (key : FlowKey)
    (meta : ShardedMetadataMap) (r0 r1 raw : FlowMetrics) (m : TenantMeta) (b : Buffer E)
    → lookup meta (vm_mac key) ≡ some m
    → get FlowKey-discrete b.entries key ≡ some (first_entry r0 seen)
    → get FlowKey-discrete b.state.counts key ≡ none
    → r0.created_ns ≢ 0
    → r1.created_ns ≢ r0.created_ns
    → raw.created_ns ≡ r1.created_ns
    → (c : Counter) × (get FlowKey-discrete
          (absorb meta bounds now key raw (capture bounds now key r1 b)).state.counts
          key
        ≡ some c)
      × (read_flow meter c.total
          ≡ ((if leb (read_flow meter r0) (read_flow meter r1)
                then read_flow meter r1
                else read_flow meter r0 + read_flow meter r1)
              + read_flow meter raw)
            % u64_mod)
unfolding capture_all recapture_all
absorb-recreated meter bounds now seen key meta r0 r1 raw m b known kept new h ne same = (
  absorbed (recapture (first_entry r0 seen) r1) raw,
  get-absorb_late bounds now key meta raw m known b (first_entry r0 seen) (r1 ∷ []) kept new,
  absorbed-recreated meter r0 r1 raw seen h ne same,
)
