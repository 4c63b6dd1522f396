-- ===== src/Tests/Passes.antt =====
-- The theorems on a reconcile pass: one VM of another tenant, one that came back, and one new.
use native.Mathlib.Decide.{ℕ_discrete}
use lachesis.Base.{ℕ, ◌≡◌, ◌≢◌, refl, arith, ◌==◌, none, [], ◌∷◌, ◌+◌}
use lachesis.Base.GoMap.{GoMap, get, put, Distinct}
use lachesis.Bpf.{mac_key}
use lachesis.State.Exposure.{bytes}
use lachesis.Metadata
use lachesis.Metadata.{TenantMeta, lookup, insert, same_attribution, TenantMeta-discrete}
use lachesis.Metadata.Interner
use lachesis.Metadata.Sharded.{lookup-insert}
use lachesis.Series.{SameSeries}
use lachesis.Reconcile.{World, reconcile_macs, learn_macs, learn_rows, learn_mac, insert_mac}
use lachesis.Reconcile.Macs.{reconciled, lookup-reconcile_macs}
use lachesis.Reconcile.Billing.{RowsKnown, reconcile_macs-SameSeries}
use lachesis.Reconcile.Settled.{reconcile_macs-repeated}
use lachesis.Reconcile.Kernel.{reconcile_macs-known}
use lachesis.Tests.Data.{
  vm, peer, ghost, known, known-IsSharded, two_rows, two_rows-IsStore, no_routers, mac_set,
  InMacSet, mac_set-IsMacMap,
}

abbrev blue : TenantMeta
blue = record ghost { project_id = "blue"; delete_at = 0 }

-- The VM has another tenant; the peer is gone.
abbrev wanted : GoMap ℕ TenantMeta
wanted = (mac_key vm, blue) ∷ []

wanted-Distinct : Distinct ℕ_discrete wanted
unfolding get
wanted-Distinct = (refl, tt)

abbrev pub before : World mac_set
before = record {
  meta = known;
  state = two_rows;
  interner = Interner.new;
  kernel = λ mac. mac == mac_key vm;
}

pub rows-RowsKnown : RowsKnown wanted known two_rows
unfolding get
rows-RowsKnown k c row here = ground (
  arith,
  lookup-insert (insert Metadata.new (mac_key vm) ghost) (mac_key peer)
      (record ghost { delete_at = 0 }) (Metadata.vm_mac k),
  lookup-insert Metadata.new (mac_key vm) ghost (Metadata.vm_mac k),
)

lookup-reconcile_macs_example :
    lookup (reconcile_macs mac_set no_routers 7 60 wanted before).0.meta (mac_key peer)
    ≡ reconciled (7 + 60) (get ℕ_discrete wanted (mac_key peer)) (lookup known (mac_key peer))
lookup-reconcile_macs_example =
    lookup-reconcile_macs mac_set no_routers 7 60 wanted before known-IsSharded wanted-Distinct
      (mac_key peer)

reconcile_macs-SameSeries_example :
    SameSeries bytes no_routers known two_rows
      (reconcile_macs mac_set no_routers 7 60 wanted before).0.meta
      (reconcile_macs mac_set no_routers 7 60 wanted before).0.state
reconcile_macs-SameSeries_example =
    reconcile_macs-SameSeries mac_set no_routers 7 60 wanted before two_rows-IsStore rows-RowsKnown
      bytes

reconcile_macs-repeated_example :
    reconcile_macs mac_set no_routers 8 60 wanted
      (reconcile_macs mac_set no_routers 7 60 wanted before).0
    ≡ (
      (reconcile_macs mac_set no_routers 7 60 wanted before).0,
      record { inserted = 0; changed = 0; ghosted = 0 },
    )
reconcile_macs-repeated_example =
    reconcile_macs-repeated mac_set no_routers 7 60 wanted before known-IsSharded wanted-Distinct 8
      60 (omega arith)

pub kernel-known : (q : ℕ) → InMacSet before.kernel q → lookup known q ≢ none
kernel-known q there = ground (
  arith,
  lookup-insert (insert Metadata.new (mac_key vm) ghost) (mac_key peer)
      (record ghost { delete_at = 0 }) q,
  lookup-insert Metadata.new (mac_key vm) ghost q,
)

vm-there : InMacSet (reconcile_macs mac_set no_routers 7 60 wanted before).0.kernel (mac_key vm)
unfolding reconcile_macs learn_macs learn_rows learn_mac insert_mac lookup insert get put mac_key
    ℕ_discrete same_attribution TenantMeta-discrete
vm-there = refl

reconcile_macs-known_example :
    lookup (reconcile_macs mac_set no_routers 7 60 wanted before).0.meta (mac_key vm) ≢ none
reconcile_macs-known_example =
    reconcile_macs-known mac_set InMacSet mac_set-IsMacMap no_routers 7 60 wanted before
      kernel-known (mac_key vm) vm-there
