-- ===== src/Flush.antt =====
-- `settleLingeringGhosts` of internal/agent/walflush.go: before the last flush to the log, the rows of
-- the ghosts are folded under their owners.
pub mod Exposed
use native.Mathlib.Decide.{ℕ_discrete}
use lachesis.Base.{ℕ, Option, none, some, [], ◌∷◌, if◌then◌else◌, ◌==◌}
use lachesis.Base.GoMap.{GoMap, get, put}
use lachesis.Bpf.{FlowKey}
use lachesis.State.{GlobalState, settle, settle_rebase}
use lachesis.Metadata.{TenantMeta, ShardedMetadataMap, RouterMacs, range, vm_mac, settle_resolver}

-- One call of the callback of `Range`.
unfoldable pub add_ghost : ℕ → TenantMeta → GoMap ℕ TenantMeta → GoMap ℕ TenantMeta
add_ghost mac meta ghosts = if meta.delete_at == 0 then ghosts else put ℕ_discrete ghosts mac meta

unfoldable pub collect_ghosts : GoMap ℕ TenantMeta → GoMap ℕ TenantMeta → GoMap ℕ TenantMeta
unfolding add_ghost
collect_ghosts [] ghosts = ghosts
collect_ghosts ((mac, meta) ∷ rows) ghosts = collect_ghosts rows (add_ghost mac meta ghosts)

-- The fold under the ghosts that were found.
unfoldable pub settle_ghosts : RouterMacs → GoMap ℕ TenantMeta → GlobalState → GlobalState × ℕ
settle_ghosts routers [] g = (g, 0)
settle_ghosts routers (row ∷ ghosts) g =
    settle settle_rebase (settle_resolver routers (λ k. get ℕ_discrete (row ∷ ghosts) (vm_mac k))) g

-- `settleLingeringGhosts`: the store after it, and the rows that folded
unfoldable pub settle_lingering_ghosts :
    RouterMacs → ShardedMetadataMap → GlobalState → GlobalState × ℕ
unfolding settle_ghosts collect_ghosts
settle_lingering_ghosts routers m g = settle_ghosts routers (collect_ghosts (range m) []) g
