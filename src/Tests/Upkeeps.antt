-- ===== src/Tests/Upkeeps.antt =====
-- The theorems on whole passes of the background work, at the snapshot of Tests.Rounds.
use native.Mathlib.Decide.{ℕ_discrete}
use text.Mathlib.Text.{◌==◌ as str_eq}
use lachesis.Base.{ℕ, ◌≡◌, ◌≢◌, refl, arith, true, none, some, List, [], ◌∷◌, sym, ap, ◌∙◌}
use lachesis.Base.Text.{String-discrete}
use lachesis.Base.Among.{for_each, append_each, sort}
use lachesis.Base.GoMap.{get, put}
use lachesis.Neutron.{is_vm_port}
use lachesis.Neutron.External.{external_network_by_port}
use lachesis.Neutron.Octavia.{amphora_owner_by_port}
use lachesis.State.{Counter}
use lachesis.Metadata
use lachesis.Metadata.{insert}
use lachesis.Metadata.Sharded.{lookup-insert}
use lachesis.Bpf.{FlowKey, FlowKey-discrete, mac_key, zone_external}
use lachesis.State.{GlobalState}
use lachesis.State.Exposure.{bytes}
use lachesis.State.Rows.{IsStore}
use lachesis.Metadata.{RouterMacs, lookup}
use lachesis.Trie.{TrieMap}
use lachesis.AmphoraMap.{AmphoraKey, AmphoraMap}
use lachesis.Series.{SameShown, owners}
use lachesis.Reconcile.Desired.{desired_macs}
use lachesis.Reconcile.Routers.{reconcile_router_macs}
use lachesis.Reconcile.Routers.Billing.{reconcile_router_macs-SameShown}
use lachesis.Reconcile.Once.{SyncResult, Env}
use lachesis.Upkeep.{
  Node, Agent, reconciled, swept, folded, Steps, stays, goes, reconciles, sweeps, folds,
}
use lachesis.Upkeep.Runs.{IsAgent, SameTotals, Steps-SameTotals}
use lachesis.Tests.Data.{
  vm, peer, sent, two_rows, two_rows-IsStore, known-IsSharded, no_routers, macs, InMacs,
  macs-IsEvictor, mac_flows, reading, ghost, mac_set, mac_set-IsMacMap, known,
}
use lachesis.Tests.Passes.{before, kernel-known}
use lachesis.Tests.Rounds.{addresses, site}
use lachesis.Tests.Tries.{tries, entry, empty, same}

-- A flow to the outside, through a router whose network changes.
abbrev outbound : GlobalState
outbound = record two_rows {
  counts =
      (
        record sent { dst_zone = zone_external },
        record { total = reading 900 5; last_ebpf_raw = reading 500 5 },
      )
      ∷ [];
}

outbound-IsStore : IsStore outbound
unfolding get
outbound-IsStore = record { counts = (refl, tt); tenant = (refl, tt); server = tt; total = tt }

abbrev to_wan : RouterMacs
to_wan = some ((mac_key peer, "wan") ∷ [])

abbrev relabelled : RouterMacs × GlobalState
relabelled = (reconcile_router_macs ((mac_key peer, "dmz") ∷ []) known to_wan outbound).0

reconcile_router_macs-SameShown_example :
    SameShown bytes (owners known to_wan) outbound (owners known relabelled.0) relabelled.1
reconcile_router_macs-SameShown_example =
    reconcile_router_macs-SameShown ((mac_key peer, "dmz") ∷ []) known to_wan outbound
      outbound-IsStore bytes

abbrev amphora_set : AmphoraMap
amphora_set = record { Kernel = List AmphoraKey; update = λ k key. (true, key ∷ k) }

abbrev env : TrieMap → Env
env trie = record {
  ip = addresses;
  equal_fold = str_eq;
  native_endian = same;
  trie = trie;
  macs = mac_set;
  amphorae = amphora_set;
}

abbrev synced : SyncResult
synced = record {
  snapshot = site;
  servers = "i7" ∷ [];
  projects = "red" ∷ [];
  entries = entry ∷ [];
}

abbrev node : Node
node = record { env = env tries; evict = macs.evict; flow_evictor = mac_flows }

abbrev idle : Agent node
idle = record {
  reconciler = record {
    committed = [];
    trie = empty;
    world = before;
    routers = no_routers;
    amphorae = [];
  };
  flows = 0;
}

abbrev passed : Agent node
passed = reconciled node 7 60 (some synced) idle

-- The MACs of the snapshot are known.
site-known :
    (q : ℕ) → get ℕ_discrete (desired_macs addresses str_eq site) q ≢ none → lookup known q ≢ none
unfolding desired_macs for_each external_network_by_port amphora_owner_by_port is_vm_port get put
    sort append_each String-discrete mac_key
site-known q want = ground (
  arith,
  lookup-insert (insert Metadata.new (mac_key vm) ghost) (mac_key peer)
      (record ghost { delete_at = 0 }) q,
  lookup-insert Metadata.new (mac_key vm) ghost q,
)

ready :
    (r : SyncResult)
    → some synced ≡ some r
    → (k : FlowKey) (c : Counter) → get FlowKey-discrete two_rows.counts k ≡ some c
    → get ℕ_discrete (desired_macs addresses str_eq r.snapshot) (Metadata.vm_mac k) ≢ none
    → lookup known (Metadata.vm_mac k) ≢ none
ready r e k c here want = site-known (Metadata.vm_mac k) (λ absent. want (
    ap (λ s. get ℕ_discrete (desired_macs addresses str_eq s) (Metadata.vm_mac k))
      (sym (snapshot_of e))
    ∙ absent))
  where
    snapshot_of : some synced ≡ some r → site ≡ r.snapshot
    snapshot_of p = cc p

a_round : Steps node idle (folded node (swept node 200 passed))
a_round =
    goes (goes (goes stays (reconciles idle 7 60 (some synced) ready)) (sweeps passed 200))
      (folds (swept node 200 passed))

Steps-SameTotals_example :
    SameTotals node InMacs idle (folded node (swept node 200 passed))
    × IsAgent node InMacs (folded node (swept node 200 passed))
Steps-SameTotals_example =
    Steps-SameTotals node InMacs (record { updates = mac_set-IsMacMap; deletes = macs-IsEvictor })
      a_round (record { known = (known-IsSharded, kernel-known); store = two_rows-IsStore })
