-- ===== src/Tests/Buffers.antt =====
-- The theorems on the buffer of unknown flows, at a buffer with one flow.
use native.Mathlib.Decide.{ℕ_discrete}
use lachesis.Base.{◌+◌, ◌%◌, ◌≡◌, ◌≤◌, refl, arith, false, some, [], ◌∷◌, leb, if◌then◌else◌}
use lachesis.Base.Word.{u64_mod}
use lachesis.Base.GoMap.{get, put, length}
use lachesis.Bpf.{FlowKey-discrete, Mac-discrete, mac_key}
use lachesis.State.{Counter}
use lachesis.State.Exposure.{bytes}
use lachesis.Metadata.{lookup, vm_mac, insert}
use lachesis.Unresolved.{capture, sweep, absorb}
use lachesis.Unresolved.Order.{IsBuffer}
use lachesis.Unresolved.Bounded.{capture-IsBuffer}
use lachesis.Unresolved.Conserved.{held, growth, held-capture, held-sweep}
use lachesis.Unresolved.Late.{capture_all, absorb-late, absorb-recreated}
use lachesis.Tests.Data.{sent, received, reading, known, ghost, waiting, waiting-IsBuffer, bounds}

capture-IsBuffer_example :
    IsBuffer (capture bounds 3 received (reading 8 5) waiting)
    × (length waiting.entries ≤ bounds.cap
        → length (capture bounds 3 received (reading 8 5) waiting).entries ≤ bounds.cap)
capture-IsBuffer_example = capture-IsBuffer bounds 3 received (reading 8 5) waiting waiting-IsBuffer

held-capture_example :
    held bytes (capture bounds 3 received (reading 8 5) waiting)
    ≡ (held bytes waiting
        + growth bytes (get FlowKey-discrete waiting.entries received) (reading 8 5))
      % u64_mod
held-capture_example = held-capture bytes bounds 3 received (reading 8 5) waiting

held-sweep_example : held bytes (sweep bounds 90 false waiting).0 ≡ held bytes waiting
held-sweep_example = held-sweep bytes bounds 90 false waiting waiting-IsBuffer

sent-known : lookup known (vm_mac sent) ≡ some ghost
unfolding lookup vm_mac mac_key get put insert ℕ_discrete
sent-known = refl

sent-waiting :
    get FlowKey-discrete waiting.entries sent
    ≡ some (record { total = reading 40 5; last_raw = reading 40 5; first_seen = 1 })
unfolding get FlowKey-discrete Mac-discrete ℕ_discrete
sent-waiting = refl

absorb-late_example :
    (c : Counter) × (get FlowKey-discrete
        (absorb known bounds 9 sent
          (reading 80 5)
          (capture_all bounds 9 sent waiting (reading 50 5 ∷ []))).state.counts
        sent
      ≡ some c)
    × (c.total.bytes ≡ 80 % u64_mod)
    × (c.total.packets ≡ 1 % u64_mod)
    × (c.last_ebpf_raw ≡ reading 80 5)
absorb-late_example =
    absorb-late bounds 9 1 sent known (reading 40 5) (reading 80 5) ghost (reading 50 5 ∷ [])
      waiting sent-known sent-waiting (unfold get in refl) (omega arith) (omega arith)
      (refl, omega arith, omega arith, (refl, omega arith, omega arith, tt))

-- The kernel's entry counts 40, is recreated, and counts 100 and then 110: 150 in all. The row says 210.
absorb-recreated_example :
    (c : Counter) × (get FlowKey-discrete
        (absorb known bounds 9 sent
          (reading 110 8)
          (capture bounds 9 sent (reading 100 8) waiting)).state.counts
        sent
      ≡ some c)
    × (c.total.bytes ≡ ((if leb 40 100 then 100 else 40 + 100) + 110) % u64_mod)
absorb-recreated_example =
    absorb-recreated bytes bounds 9 1 sent known (reading 40 5) (reading 100 8) (reading 110 8)
      ghost waiting sent-known sent-waiting (unfold get in refl) (omega arith) (omega arith) refl
