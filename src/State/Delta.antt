-- ===== src/State/Delta.antt =====
-- `ApplyDelta`, `Add` and `Resolve` of internal/state/state.go: what a stream of kernel readings of one
-- flow adds up to.
use lachesis.Base.{
  ℕ, ◌+◌, ◌%◌, ◌≤◌, ◌<◌, ◌≡◌, ◌≢◌, refl, ◌∙◌, ap, none, some, List, [], ◌∷◌, arith, if◌then◌else◌,
  ◌==◌,
}
use lachesis.Base.Word.{u64_mod}
use lachesis.Base.GoMap.{get, get-put_self, get-put_ne}
use lachesis.Bpf.{FlowKey, FlowMetrics, FlowKey-discrete}
use lachesis.State.{GlobalState, Counter, integrate, observe, apply_delta}
use lachesis.State.Exposure.{Meter, bytes, packets, read_flow}

-- What the kernel counted for one flow over the drains: the last reading of each entry that held the
-- flow's key, an entry being told from the next by its stamp. `last` is the reading before.
unfoldable pub peaks : Meter → FlowMetrics → List FlowMetrics → ℕ
peaks meter last [] = read_flow meter last
peaks meter last (r ∷ readings) =
    (if r.created_ns == last.created_ns then 0 else read_flow meter last) + peaks meter r readings

-- The kernel's side: an entry has a stamp, and while the stamp stays its counters do not fall.
abbrev pub FromKernel : FlowMetrics → List FlowMetrics → Type 0
FromKernel last [] = Unit
FromKernel last (r ∷ readings) =
    (r.created_ns ≢ 0)
    × (r.created_ns ≡ last.created_ns → last.bytes ≤ r.bytes)
    × (r.created_ns ≡ last.created_ns → last.packets ≤ r.packets)
    × FromKernel r readings

-- The drains of one flow.
unfoldable pub drain : FlowKey → GlobalState → List FlowMetrics → GlobalState
unfolding apply_delta
drain key g [] = g
drain key g (r ∷ readings) = drain key (apply_delta g key r) readings

unfoldable pub integrate_all : Counter → List FlowMetrics → Counter
integrate_all c [] = c
integrate_all c (r ∷ readings) = integrate_all (integrate c r) readings

-- The last reading.
unfoldable pub last_of : FlowMetrics → List FlowMetrics → FlowMetrics
last_of r [] = r
last_of r (r' ∷ readings) = last_of r' readings

last-integrate_all :
    (c : Counter) (readings : List FlowMetrics)
    → (integrate_all c readings).last_ebpf_raw ≡ last_of c.last_ebpf_raw readings
unfolding integrate_all integrate last_of
last-integrate_all c [] = refl
last-integrate_all c (r ∷ readings) = last-integrate_all (integrate c r) readings

-- While the baseline has a stamp, a total that is the kernel's count stays the kernel's count.
integrate-total :
    (meter : Meter) (c : Counter) (r : FlowMetrics) (before : ℕ)
    → c.last_ebpf_raw.created_ns ≢ 0
    → (r.created_ns ≡ c.last_ebpf_raw.created_ns → c.last_ebpf_raw.bytes ≤ r.bytes)
    → (r.created_ns ≡ c.last_ebpf_raw.created_ns → c.last_ebpf_raw.packets ≤ r.packets)
    → read_flow meter c.total ≡ (before + read_flow meter c.last_ebpf_raw) % u64_mod
    → read_flow meter (integrate c r).total
      ≡ (before
          + (if r.created_ns == c.last_ebpf_raw.created_ns
              then 0
              else read_flow meter c.last_ebpf_raw)
          + read_flow meter r)
        % u64_mod
unfolding integrate
integrate-total bytes c r before h hb hp e = ground arith
integrate-total packets c r before h hb hp e = ground arith

integrate_all-total :
    (meter : Meter) (c : Counter) (readings : List FlowMetrics) (before : ℕ)
    → c.last_ebpf_raw.created_ns ≢ 0
    → FromKernel c.last_ebpf_raw readings
    → read_flow meter c.total ≡ (before + read_flow meter c.last_ebpf_raw) % u64_mod
    → read_flow meter (integrate_all c readings).total
      ≡ (before + peaks meter c.last_ebpf_raw readings) % u64_mod
unfolding integrate_all integrate peaks
integrate_all-total meter c [] before h k e = e
integrate_all-total meter c (r ∷ readings) before h k e =
    let past =
      (if r.created_ns == c.last_ebpf_raw.created_ns then 0 else read_flow meter c.last_ebpf_raw) in
    integrate_all-total meter (integrate c r) readings (before + past) (unfold integrate in k.0)
      (unfold integrate in k.3) (integrate-total meter c r before h k.1 k.2 e)
    ∙ ap (λ n. n % u64_mod) (unfold integrate in omega arith)

get-drain :
    (key : FlowKey) (g : GlobalState) (readings : List FlowMetrics) (c : Counter)
    → get FlowKey-discrete g.counts key ≡ some c
    → get FlowKey-discrete (drain key g readings).counts key ≡ some (integrate_all c readings)
unfolding drain integrate_all
get-drain key g [] c e = e
get-drain key g (r ∷ readings) c e =
    get-drain key (apply_delta g key r) readings (integrate c r)
      (get-put_self FlowKey-discrete g.counts key _ ∙ ap (λ o. some (observe o r)) e)

get-apply_delta_ne :
    (g : GlobalState) (key q : FlowKey) (r : FlowMetrics)
    → key ≢ q
    → get FlowKey-discrete (apply_delta g key r).counts q ≡ get FlowKey-discrete g.counts q
unfolding apply_delta
get-apply_delta_ne g key q r ne = get-put_ne FlowKey-discrete g.counts key q _ ne

get-drain_ne :
    (key q : FlowKey) (g : GlobalState) (readings : List FlowMetrics)
    → key ≢ q
    → get FlowKey-discrete (drain key g readings).counts q ≡ get FlowKey-discrete g.counts q
unfolding drain
get-drain_ne key q g [] ne = refl
get-drain_ne key q g (r ∷ readings) ne =
    get-drain_ne key q (apply_delta g key r) readings ne ∙ get-apply_delta_ne g key q r ne

-- A flow is first seen at the reading `r`, and drained again at `readings`. If every stamp is set and
-- an entry's counters do not fall while its stamp stays, then the flow's row holds, modulo 2^64, the
-- sum of the last readings of the kernel entries that carried the flow, for bytes and for packets;
-- its baseline is the last reading; and the rows of all other flows are as they were.
pub drain-counts :
    (key : FlowKey) (g : GlobalState) (r : FlowMetrics) (readings : List FlowMetrics)
    → get FlowKey-discrete g.counts key ≡ none
    → r.created_ns ≢ 0
    → r.bytes < u64_mod
    → r.packets < u64_mod
    → FromKernel r readings
    → (c : Counter) × (get FlowKey-discrete (drain key g (r ∷ readings)).counts key ≡ some c)
      × (c.total.bytes ≡ peaks bytes r readings % u64_mod)
      × (c.total.packets ≡ peaks packets r readings % u64_mod)
      × (c.last_ebpf_raw ≡ last_of r readings)
      × ((q : FlowKey)
          → key ≢ q
          → get FlowKey-discrete (drain key g (r ∷ readings)).counts q
            ≡ get FlowKey-discrete g.counts q)
unfolding drain
drain-counts key g r readings new stamped hb hp k =
    let c : Counter = record { total = r; last_ebpf_raw = r } in
    (
      integrate_all c readings,
      get-drain key (apply_delta g key r) readings c
          (get-put_self FlowKey-discrete g.counts key _ ∙ ap (λ o. some (observe o r)) new),
      integrate_all-total bytes c readings 0 stamped k (omega arith)
          ∙ ap (λ n. n % u64_mod) (omega arith),
      integrate_all-total packets c readings 0 stamped k (omega arith)
          ∙ ap (λ n. n % u64_mod) (omega arith),
      last-integrate_all c readings,
      λ q ne.
          get-drain_ne key q (apply_delta g key r) readings ne ∙ get-apply_delta_ne g key q r ne,
    )
