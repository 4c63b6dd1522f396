-- ===== src/State/Prune.antt =====
-- `PruneServerSettled` and `PruneTenantSettled` of internal/state/state.go: buckets whose owner is gone
-- are released, a tenant's into the total absorber.
pub mod Total
pub mod Stores
use lachesis.Base.{ℕ, ◌+◌, String, Option, none, some, [], ◌∷◌}
use lachesis.Base.Text.{String-discrete}
use lachesis.Base.GoMap.{GoMap, get, delete}
use lachesis.State.{
  GlobalState, TenantSettledKey, ServerSettledKey, TotalSettledKey, SettledTotal, bump, credit,
}
use lachesis.State.{TenantSettledKey-discrete, ServerSettledKey-discrete, TotalSettledKey-discrete}

-- `map[string]struct{}`
abbrev pub Alive : Type 0
Alive = GoMap String (Unit {0})

abbrev pub total_key : TenantSettledKey → TotalSettledKey
total_key k = record { ext_net = k.ext_net; zone = k.zone; dir = k.dir }

-- One round of `PruneServerSettled`: `_, ok := alive[k.ServerID]`
unfoldable pub prune_server :
    Option (Unit {0}) → ServerSettledKey → GlobalState × ℕ → GlobalState × ℕ
prune_server (some _) k (g, dropped) = (g, dropped)
prune_server none k (g, dropped) =
    (record g { server_settled = delete ServerSettledKey-discrete g.server_settled k }, dropped + 1)

unfoldable pub prune_servers :
    Alive → GoMap ServerSettledKey SettledTotal → GlobalState × ℕ → GlobalState × ℕ
unfolding prune_server
prune_servers alive [] s = s
prune_servers alive ((k, t) ∷ rows) s =
    prune_servers alive rows (prune_server (get String-discrete alive k.server_id) k s)

-- `PruneServerSettled`: the new state, and the buckets dropped
unfoldable pub prune_server_settled : Alive → GlobalState → GlobalState × ℕ
unfolding prune_servers
prune_server_settled alive g = prune_servers alive g.server_settled (g, 0)

-- One round of `PruneTenantSettled`
unfoldable pub prune_tenant :
    Option (Unit {0}) → TenantSettledKey → SettledTotal → GlobalState × ℕ → GlobalState × ℕ
unfolding credit
prune_tenant (some _) k t (g, dropped) = (g, dropped)
prune_tenant none k t (g, dropped) = (
  record g {
    total_settled = credit TotalSettledKey-discrete g.total_settled (total_key k) t.bytes t.packets;
    tenant_settled = delete TenantSettledKey-discrete g.tenant_settled k;
  },
  dropped + 1,
)

unfoldable pub prune_tenants :
    Alive → GoMap TenantSettledKey SettledTotal → GlobalState × ℕ → GlobalState × ℕ
unfolding prune_tenant
prune_tenants alive [] s = s
prune_tenants alive ((k, t) ∷ rows) s =
    prune_tenants alive rows (prune_tenant (get String-discrete alive k.tenant) k t s)

-- `PruneTenantSettled`: the new state, and the buckets dropped
unfoldable pub prune_tenant_settled : Alive → GlobalState → GlobalState × ℕ
unfolding prune_tenants
prune_tenant_settled alive g = prune_tenants alive g.tenant_settled (g, 0)
