-- ===== src/State/Prune/Stores.antt =====
-- internal/state/state.go: the prunes keep the store's maps without a key that stands twice.
use lachesis.Base.{ℕ, ◌≡◌, refl, Option, none, some, [], ◌∷◌}
use lachesis.Base.Text.{String-discrete}
use lachesis.Base.GoMap.{GoMap, get, delete-Distinct, put-Distinct}
use lachesis.State.{
  GlobalState, TenantSettledKey, ServerSettledKey, SettledTotal, TenantSettledKey-discrete,
  ServerSettledKey-discrete, TotalSettledKey-discrete, credit,
}
use lachesis.State.Rows.{IsStore}
use lachesis.State.Prune.{
  Alive, total_key, prune_server, prune_servers, prune_server_settled, prune_tenant, prune_tenants,
  prune_tenant_settled,
}

prune_server-IsStore :
    (o : Option (Unit {0})) (k : ServerSettledKey) (s : GlobalState × ℕ)
    → IsStore s.0
    → IsStore (prune_server o k s).0
unfolding prune_server
prune_server-IsStore (some u) k s h = h
prune_server-IsStore none k s h = record {
  counts = h.counts;
  tenant = h.tenant;
  server = delete-Distinct ServerSettledKey-discrete s.0.server_settled k h.server;
  total = h.total;
}

prune_servers-IsStore :
    (alive : Alive) (rows : GoMap ServerSettledKey SettledTotal) (s : GlobalState × ℕ)
    → IsStore s.0
    → IsStore (prune_servers alive rows s).0
unfolding prune_servers
prune_servers-IsStore alive [] s h = h
prune_servers-IsStore alive ((k, t) ∷ rows) s h =
    prune_servers-IsStore alive rows (prune_server (get String-discrete alive k.server_id) k s)
      (prune_server-IsStore (get String-discrete alive k.server_id) k s h)

pub prune_server_settled-IsStore :
    (alive : Alive) (g : GlobalState) → IsStore g → IsStore (prune_server_settled alive g).0
unfolding prune_server_settled
prune_server_settled-IsStore alive g = prune_servers-IsStore alive g.server_settled (g, 0)

prune_tenant-IsStore :
    (o : Option (Unit {0})) (k : TenantSettledKey) (t : SettledTotal) (s : GlobalState × ℕ)
    → IsStore s.0
    → IsStore (prune_tenant o k t s).0
unfolding prune_tenant credit
prune_tenant-IsStore (some u) k t s h = h
prune_tenant-IsStore none k t s h = record {
  counts = h.counts;
  tenant = delete-Distinct TenantSettledKey-discrete s.0.tenant_settled k h.tenant;
  server = h.server;
  total = put-Distinct TotalSettledKey-discrete s.0.total_settled (total_key k) _ h.total;
}

prune_tenants-IsStore :
    (alive : Alive) (rows : GoMap TenantSettledKey SettledTotal) (s : GlobalState × ℕ)
    → IsStore s.0
    → IsStore (prune_tenants alive rows s).0
unfolding prune_tenants
prune_tenants-IsStore alive [] s h = h
prune_tenants-IsStore alive ((k, t) ∷ rows) s h =
    prune_tenants-IsStore alive rows (prune_tenant (get String-discrete alive k.tenant) k t s)
      (prune_tenant-IsStore (get String-discrete alive k.tenant) k t s h)

pub prune_tenant_settled-IsStore :
    (alive : Alive) (g : GlobalState) → IsStore g → IsStore (prune_tenant_settled alive g).0
unfolding prune_tenant_settled
prune_tenant_settled-IsStore alive g = prune_tenants-IsStore alive g.tenant_settled (g, 0)

-- The two states differ in the server tier at most.
pub record SameButServers (g g' : GlobalState) : Type 0 where
  pub counts : g'.counts ≡ g.counts
  pub tenant : g'.tenant_settled ≡ g.tenant_settled
  pub total : g'.total_settled ≡ g.total_settled

prune_server-SameButServers :
    (o : Option (Unit {0})) (k : ServerSettledKey) (s : GlobalState × ℕ) (g : GlobalState)
    → SameButServers g s.0
    → SameButServers g (prune_server o k s).0
unfolding prune_server
prune_server-SameButServers (some u) k s g h = h
prune_server-SameButServers none k s g h = record {
  counts = h.counts;
  tenant = h.tenant;
  total = h.total;
}

prune_servers-SameButServers :
    (alive : Alive) (rows : GoMap ServerSettledKey SettledTotal) (s : GlobalState × ℕ)
    (g : GlobalState)
    → SameButServers g s.0
    → SameButServers g (prune_servers alive rows s).0
unfolding prune_servers
prune_servers-SameButServers alive [] s g h = h
prune_servers-SameButServers alive ((k, t) ∷ rows) s g h =
    prune_servers-SameButServers alive rows
      (prune_server (get String-discrete alive k.server_id) k s) g
      (prune_server-SameButServers (get String-discrete alive k.server_id) k s g h)

-- Releasing server buckets touches nothing else.
pub prune_server_settled-SameButServers :
    (alive : Alive) (g : GlobalState) → SameButServers g (prune_server_settled alive g).0
unfolding prune_server_settled
prune_server_settled-SameButServers alive g =
    prune_servers-SameButServers alive g.server_settled (g, 0) g
      (record { counts = refl; tenant = refl; total = refl })
