-- ===== src/Tests/Data.antt =====
-- A metadata map with a live VM and a ghost, a store with two rows, and kernels that are lists.
use native.Mathlib.Decide.{ℕ_discrete}
use lachesis.Base.{ℕ, ◌≡◌, refl, arith, if◌then◌else◌, ◌==◌, Bool, true, false, none, some, [], ◌∷◌}
use lachesis.Base.GoMap.{GoMap, get, delete, length}
use lachesis.Bpf.{Mac, FlowKey, FlowMetrics, FlowKey-discrete, Mac-discrete, mac_key}
use lachesis.State
use lachesis.State.{GlobalState, Owner, Resolve}
use lachesis.State.Rows.{IsStore}
use lachesis.Metadata
use lachesis.Metadata.{TenantMeta, ShardedMetadataMap, RouterMacs, insert}
use lachesis.Metadata.Sharded.{IsSharded, insert-IsSharded}
use lachesis.KernelMap.{MacMap, IsMacMap}
use lachesis.Gc.Ghost.{MacEvictor, MacFlowEvictor, World}
use lachesis.Gc.Ghost.Kernel.{IsEvictor}
use lachesis.Unresolved.{FlowEvictor, Buffer, Bounds}
use lachesis.Unresolved.Order.{IsBuffer, occurs}
use lachesis.Unresolved.Late.{first_entry}

abbrev pub vm : Mac
vm = record { b0 = 2; b1 = 0; b2 = 0; b3 = 0; b4 = 0; b5 = 7 }

abbrev pub peer : Mac
peer = record { b0 = 2; b1 = 0; b2 = 0; b3 = 0; b4 = 0; b5 = 9 }

-- A flow that the VM sends, and one that it receives.
abbrev pub sent : FlowKey
sent = record {
  src_mac = vm;
  dst_mac = peer;
  eth_proto = 2048;
  direction = 0;
  dst_zone = 0;
  l4_proto = 6;
}

abbrev pub received : FlowKey
received = record sent { src_mac = peer; dst_mac = vm; direction = 1 }

abbrev pub reading : ℕ → ℕ → FlowMetrics
reading n stamp = record { bytes = n; packets = 1; last_seen_ns = n; created_ns = stamp }

abbrev pub two_rows : GlobalState
two_rows = record {
  counts =
      (sent, record { total = reading 900 5; last_ebpf_raw = reading 500 5 })
      ∷ (received, record { total = reading 70 5; last_ebpf_raw = reading 70 5 })
      ∷ [];
  tenant_settled =
      (
        record { tenant = "red"; ext_net = "wan"; zone = 0; dir = 0 },
        record { bytes = 11; packets = 1 },
      )
      ∷ [];
  server_settled = [];
  total_settled = [];
}

pub two_rows-IsStore : IsStore two_rows
unfolding get FlowKey-discrete Mac-discrete ℕ_discrete
two_rows-IsStore = record {
  counts = (refl, (refl, tt));
  tenant = (refl, tt);
  server = tt;
  total = tt;
}

-- Each flow belongs to the tenant `red`.
abbrev pub red : Owner
red = record { tenant = "red"; ext_net = "wan"; server = "web" }

abbrev pub to_red : Resolve
to_red k = some red

abbrev pub ghost : TenantMeta
ghost = record {
  project_id = "red";
  server_id = "web";
  port_id = "p1";
  external_network = "wan";
  is_amphora = false;
  delete_at = 100;
}

pub new-IsSharded : IsSharded Metadata.new
unfolding get
new-IsSharded = record { distinct = λ i. tt; placed = λ i mac ne. refl }

abbrev pub known : ShardedMetadataMap
known =
    insert (insert Metadata.new (mac_key vm) ghost) (mac_key peer) (record ghost { delete_at = 0 })

pub known-IsSharded : IsSharded known
known-IsSharded =
    insert-IsSharded (insert Metadata.new (mac_key vm) ghost) (mac_key peer)
      (record ghost { delete_at = 0 })
      (insert-IsSharded Metadata.new (mac_key vm) ghost new-IsSharded)

abbrev pub no_routers : RouterMacs
no_routers = none

-- A kernel that is a set of MACs, whose deletions succeed.
abbrev pub without : (ℕ → Bool) → ℕ → ℕ → Bool
without k mac q = if q == mac then false else k q

abbrev pub macs : MacEvictor
macs = record { Kernel = ℕ → Bool; evict = λ k mac. (true, without k mac) }

abbrev pub InMacs : (ℕ → Bool) → ℕ → Type 0
InMacs k mac = k mac ≡ true

pub macs-IsEvictor : IsEvictor macs InMacs
macs-IsEvictor = record { deleted = λ k mac e. ground arith; kept = λ k mac q. ground arith }

-- A kernel that reports one flow for each MAC.
abbrev pub mac_flows : MacFlowEvictor
mac_flows = record { Flows = ℕ; delete_flows_for_macs = λ flows swept. (length swept, flows) }

abbrev pub world : World macs mac_flows
world = record { meta = known; state = two_rows; kernel = λ mac. mac == mac_key vm; flows = 0 }

-- A kernel that is a list of flows.
abbrev pub flows : FlowEvictor
flows = record { Kernel = GoMap FlowKey ℕ; evict = λ k key. (true, delete FlowKey-discrete k key) }

-- One buffered flow.
abbrev pub waiting : Buffer flows
waiting = record {
  entries = (sent, first_entry (reading 40 5) 1) ∷ [];
  order = sent ∷ [];
  state = State.new;
  kernel = (sent, 40) ∷ [];
}

pub waiting-IsBuffer : IsBuffer waiting
unfolding get occurs
waiting-IsBuffer = record { distinct = (refl, tt); listed = λ k. ground arith }

abbrev pub bounds : Bounds
bounds = record { ttl = 60; cap = 1 }

-- A kernel that is a set of MACs, whose writes succeed.
abbrev pub mac_set : MacMap
mac_set = record {
  Kernel = ℕ → Bool;
  update = λ k mac v. (true, λ q. if mac == q then true else k q);
}

abbrev pub InMacSet : (ℕ → Bool) → ℕ → Type 0
InMacSet k mac = k mac ≡ true

pub mac_set-IsMacMap : IsMacMap mac_set InMacSet
mac_set-IsMacMap = record { brought = λ k mac v q. ground arith }
