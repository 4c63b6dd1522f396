-- ===== src/Tests/Sweeps.antt =====
-- The theorems on the ghost sweep, at a ghost whose grace is over.
use native.Mathlib.Decide.{ℕ_discrete}
use lachesis.Base.GoMap.{get, put}
use lachesis.Base.{ℕ, ◌≡◌, ◌≢◌, ◌⊎◌, refl, none, some, arith}
use lachesis.Bpf.{mac_key}
use lachesis.Metadata.{lookup, insert, range, rows_below}
use lachesis.Gc.Ghost.{sweep, classify, delete_kernel_macs}
use lachesis.Gc.Ghost.Kernel.{IsExpired, sweep-IsExpired, sweep-superset}
use lachesis.Tests.Data.{
  vm, ghost, known, known-IsSharded, no_routers, macs, InMacs, macs-IsEvictor, mac_flows, world,
}

sweep-IsExpired_example :
    (lookup (sweep macs mac_flows no_routers 200 world).0.meta (mac_key vm)
      ≡ lookup known (mac_key vm))
    ⊎ ((lookup (sweep macs mac_flows no_routers 200 world).0.meta (mac_key vm) ≡ none)
        × IsExpired known 200 (mac_key vm))
sweep-IsExpired_example =
    sweep-IsExpired macs mac_flows no_routers 200 world known-IsSharded (mac_key vm)

vm-ghost : lookup known (mac_key vm) ≡ some ghost
unfolding lookup insert get put mac_key ℕ_discrete
vm-ghost = refl

vm-only : (mac : ℕ) → InMacs world.kernel mac → mac ≡ mac_key vm
vm-only mac there = ground arith

vm-known : (mac : ℕ) → InMacs world.kernel mac → lookup known mac ≢ none
vm-known mac there unknown = cc (vm-only mac there, vm-ghost)

vm-kept : InMacs (sweep macs mac_flows no_routers 50 world).0.kernel (mac_key vm)
unfolding sweep classify delete_kernel_macs range rows_below insert get put mac_key ℕ_discrete
vm-kept = refl

sweep-superset_example :
    lookup (sweep macs mac_flows no_routers 50 world).0.meta (mac_key vm) ≢ none
sweep-superset_example =
    sweep-superset macs mac_flows no_routers 50 world known-IsSharded InMacs macs-IsEvictor vm-known
      (mac_key vm) vm-kept
