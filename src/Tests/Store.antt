-- ===== src/Tests/Store.antt =====
-- The theorems on the store, at the two rows.
use lachesis.Base.{◌%◌, ◌≡◌, ◌≢◌, refl, arith, some, [], ◌∷◌}
use lachesis.Base.Word.{u64_mod}
use lachesis.Base.GoMap.{get}
use lachesis.Bpf.{FlowKey, FlowKey-discrete}
use lachesis.State
use lachesis.State.{
  GlobalState, Counter, Owner, TenantSettledKey, ServerSettledKey, TotalSettledKey, settle,
  settle_evict, settle_rebase, tenant_key, server_key, TenantSettledKey-discrete,
}
use lachesis.State.Exposure.{bytes, packets, tenant_exposed, server_exposed, server_key?}
use lachesis.State.Settle.{settle-exposed}
use lachesis.State.Rows.{get-settle, settled_row}
use lachesis.State.Delta.{drain, drain-counts, peaks, last_of}
use lachesis.Tests.Data.{sent, received, reading, two_rows, two_rows-IsStore, red, to_red}

settle-exposed_example :
    ((q : TenantSettledKey)
      → tenant_exposed bytes
          (λ k. some (tenant_key red k))
          (settle settle_rebase to_red two_rows).0
          q
        ≡ tenant_exposed bytes (λ k. some (tenant_key red k)) two_rows q)
    × ((q : ServerSettledKey)
        → server_exposed bytes (λ k. server_key? red k) (settle settle_rebase to_red two_rows).0 q
          ≡ server_exposed bytes (λ k. server_key? red k) two_rows q)
    × ((settle settle_rebase to_red two_rows).0.total_settled ≡ two_rows.total_settled)
settle-exposed_example =
    settle-exposed settle_rebase to_red two_rows two_rows-IsStore.counts
      (λ k. some (tenant_key red k)) (λ k. server_key? red k) (λ k o e. (cc, cc)) bytes

get-settle_example :
    get FlowKey-discrete (settle settle_evict to_red two_rows).0.counts received
    ≡ settled_row settle_evict (some red) (get FlowKey-discrete two_rows.counts received)
get-settle_example = get-settle settle_evict to_red received two_rows two_rows-IsStore.counts

drain-counts_example :
    (c : Counter) × (get FlowKey-discrete
        (drain sent State.new (reading 40 5 ∷ reading 60 5 ∷ reading 10 8 ∷ [])).counts
        sent
      ≡ some c)
    × (c.total.bytes ≡ peaks bytes (reading 40 5) (reading 60 5 ∷ reading 10 8 ∷ []) % u64_mod)
    × (c.total.packets ≡ peaks packets (reading 40 5) (reading 60 5 ∷ reading 10 8 ∷ []) % u64_mod)
    × (c.last_ebpf_raw ≡ last_of (reading 40 5) (reading 60 5 ∷ reading 10 8 ∷ []))
    × ((q : FlowKey)
        → sent ≢ q
        → get FlowKey-discrete
            (drain sent State.new (reading 40 5 ∷ reading 60 5 ∷ reading 10 8 ∷ [])).counts
            q
          ≡ get FlowKey-discrete State.new.counts q)
drain-counts_example =
    drain-counts sent State.new (reading 40 5) (reading 60 5 ∷ reading 10 8 ∷ [])
      (unfold get in refl) (omega arith) (omega arith) (omega arith)
      (
        omega arith,
        λ e. omega arith,
        λ e. omega arith,
        (omega arith, λ e. absurd (omega arith), λ e. omega arith, tt),
      )

-- The two readings of the first entry count 60, and those of the second 10.
peaks_test : peaks bytes (reading 40 5) (reading 60 5 ∷ reading 10 8 ∷ []) ≡ 70
unfolding peaks
peaks_test = refl
