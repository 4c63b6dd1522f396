-- ===== src/Reconcile/Once.antt =====
-- `reconcileOnce` of internal/reconcile/reconcile.go: one full pass, with every writer and the settler wired.
-- Gauges, metrics and logs are left out.
pub mod Total
pub mod Known
use lachesis.Base.{ℕ, String, Bool, true, false, Option, none, some, List, [], ◌∷◌, if◌then◌else◌}
use lachesis.Base.Text.{String-discrete}
use lachesis.Base.Among.{for_each}
use lachesis.Base.GoMap.{GoMap, put}
use lachesis.State.{GlobalState}
use lachesis.State.Prune.{Alive, prune_server_settled, prune_tenant_settled}
use lachesis.Metadata.{RouterMacs, unknown_tenant_id}
use lachesis.Trie.{TrieMap, TrieEntry, apply_trie_delta}
use lachesis.KernelMap.{MacMap}
use lachesis.AmphoraMap.{AmphoraMap, write_amphora_base_ips}
use lachesis.Neutron.{Netip, Snapshot}
use lachesis.Neutron.External.{router_ext_macs}
use lachesis.Neutron.Octavia.{amphora_base_ips}
use lachesis.Reconcile.{World, reconcile_macs}
use lachesis.Reconcile.Desired.{desired_macs}
use lachesis.Reconcile.Routers.{reconcile_router_macs}

-- `SyncResult`, with the ids of the servers and the projects in the snapshot.
pub record SyncResult : Type 0 where
  pub snapshot : Snapshot
  pub servers : List String
  pub projects : List String
  pub entries : List TrieEntry

-- `resultOK`, `resultSyncError` and `resultApplyError`
pub data Run : Type 0 where
  run_ok sync_error apply_error : Run

abbrev pub add_alive : String → Alive → Alive
add_alive id alive = put String-discrete alive id tt

-- `pruneServerSettled`
unfoldable pub prune_servers_of : List String → GlobalState → GlobalState
unfolding for_each
prune_servers_of [] g = g
prune_servers_of (id ∷ ids) g = (prune_server_settled (for_each add_alive (id ∷ ids) []) g).0

-- `pruneTenantSettled`
unfoldable pub prune_tenants_of : List String → GlobalState → GlobalState
unfolding for_each
prune_tenants_of [] g = g
prune_tenants_of (id ∷ ids) g =
    (prune_tenant_settled (add_alive unknown_tenant_id (for_each add_alive (id ∷ ids) [])) g).0

-- What a pass depends on: the parsers, the machine's byte order, and the kernel's maps.
pub record Env : Type 1 where
  pub ip : Netip
  pub equal_fold : String → String → Bool
  pub native_endian : ℕ → ℕ
  pub trie : TrieMap
  pub macs : MacMap
  pub amphorae : AmphoraMap

-- What a pass works on; `committed` is `src.Trie()`.
pub record Reconciler (E : Env) : Type 0 where
  pub committed : List TrieEntry
  pub trie : E.trie.Kernel
  pub world : World E.macs
  pub routers : RouterMacs
  pub amphorae : E.amphorae.Kernel

module _ (E : Env) where
  -- The pass after `applyTrie`.
  unfoldable pub apply_rest : ℕ → ℕ → SyncResult → Reconciler E → Reconciler E
  unfolding prune_servers_of prune_tenants_of
  apply_rest now grace r s =
      let desired = desired_macs E.ip E.equal_fold r.snapshot in
      let (world, delta) = reconcile_macs E.macs s.routers now grace desired s.world in
      let ((routers, settled), changed) =
        reconcile_router_macs (router_ext_macs E.ip r.snapshot) world.meta s.routers world.state in
      let written =
        write_amphora_base_ips E.amphorae E.native_endian
          (amphora_base_ips E.ip E.equal_fold r.snapshot) world.interner s.amphorae in
      record s {
        committed = r.entries;
        world = record world {
          state = prune_tenants_of r.projects (prune_servers_of r.servers settled);
          interner = written.interner;
        };
        routers = routers;
        amphorae = written.kernel;
      }

  -- The pass after `fetch`.
  unfoldable pub apply_result : ℕ → ℕ → SyncResult → Reconciler E → Run × Reconciler E
  unfolding apply_rest
  apply_result now grace r s =
      let (pass, interner) =
        apply_trie_delta E.trie E.native_endian s.committed r.entries s.world.interner s.trie in
      let s' : Reconciler E = record s {
        trie = pass.kernel;
        world = record (s.world) { interner = interner };
      } in
      if pass.failed then (apply_error, s') else (run_ok, apply_rest now grace r s')

  -- `reconcileOnce`, on what `Sync` returned, with `none` for an error
  unfoldable pub reconcile_once : ℕ → ℕ → Option SyncResult → Reconciler E → Run × Reconciler E
  unfolding apply_result
  reconcile_once now grace none s = (sync_error, s)
  reconcile_once now grace (some r) s = apply_result now grace r s
