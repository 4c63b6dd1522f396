-- ===== src/Flush/Exposed.antt =====
-- What the fold of internal/agent/walflush.go does to the series.
use native.Mathlib.Decide.{ℕ_discrete}
use lachesis.Base.{ℕ, ◌≡◌, some, [], ◌∷◌, arith}
use lachesis.Base.GoMap.{GoMap, get, get-put}
use lachesis.Base.GoMap.Range.{AllRows}
use lachesis.State.{GlobalState, settle_rebase}
use lachesis.State.Exposure.{Meter}
use lachesis.State.Rows.{IsStore, settle-IsStore}
use lachesis.Metadata.{TenantMeta, ShardedMetadataMap, RouterMacs, lookup, range, vm_mac}
use lachesis.Metadata.Sharded.{IsSharded, range-AllRows}
use lachesis.Series.{SameSeries, SameSeries-refl, settle-SameSeries}
use lachesis.Flush.{add_ghost, collect_ghosts, settle_ghosts, settle_lingering_ghosts}

-- Every entry of the map is the one that is known of its MAC.
abbrev Known : ShardedMetadataMap → GoMap ℕ TenantMeta → Type 0
Known m ghosts = (q : ℕ) (x : TenantMeta) → get ℕ_discrete ghosts q ≡ some x → lookup m q ≡ some x

add_ghost-Known :
    (m : ShardedMetadataMap) (mac : ℕ) (meta : TenantMeta) (ghosts : GoMap ℕ TenantMeta)
    → lookup m mac ≡ some meta
    → Known m ghosts
    → Known m (add_ghost mac meta ghosts)
unfolding add_ghost
add_ghost-Known m mac meta ghosts e h q x there =
    ground (arith, get-put ℕ_discrete ghosts mac q meta, h q x)

collect_ghosts-Known :
    (m : ShardedMetadataMap) (rows ghosts : GoMap ℕ TenantMeta)
    → AllRows (λ mac meta. lookup m mac ≡ some meta) rows
    → Known m ghosts
    → Known m (collect_ghosts rows ghosts)
unfolding collect_ghosts
collect_ghosts-Known m [] ghosts a h = h
collect_ghosts-Known m ((mac, meta) ∷ rows) ghosts a h =
    collect_ghosts-Known m rows (add_ghost mac meta ghosts) a.1
      (add_ghost-Known m mac meta ghosts a.0 h)

settle_ghosts-SameSeries :
    (routers : RouterMacs) (m : ShardedMetadataMap) (ghosts : GoMap ℕ TenantMeta) (g : GlobalState)
    → Known m ghosts
    → IsStore g
    → (meter : Meter) → SameSeries meter routers m g m (settle_ghosts routers ghosts g).0
unfolding settle_ghosts
settle_ghosts-SameSeries routers m [] g known store meter = SameSeries-refl meter routers m g
settle_ghosts-SameSeries routers m (row ∷ ghosts) g known store meter =
    settle-SameSeries meter routers m g settle_rebase
      (λ k. get ℕ_discrete (row ∷ ghosts) (vm_mac k)) store (λ k meta. known (vm_mac k) meta)

-- If the metadata map is well sharded and no map of the store holds a key twice, folding the lingering
-- ghosts before a flush moves no tenant, server or total series, for bytes or for packets.
pub settle_lingering_ghosts-SameSeries :
    (routers : RouterMacs) (m : ShardedMetadataMap) (g : GlobalState)
    → IsSharded m
    → IsStore g
    → (meter : Meter) → SameSeries meter routers m g m (settle_lingering_ghosts routers m g).0
unfolding settle_lingering_ghosts
settle_lingering_ghosts-SameSeries routers m g sharded store meter =
    settle_ghosts-SameSeries routers m (collect_ghosts (range m) []) g
      (collect_ghosts-Known m (range m) [] (range-AllRows m sharded) (λ q x e. unfold get in cc))
      store meter

-- The store stays without a key that stands twice.
pub settle_lingering_ghosts-IsStore :
    (routers : RouterMacs) (m : ShardedMetadataMap) (g : GlobalState)
    → IsStore g
    → IsStore (settle_lingering_ghosts routers m g).0
unfolding settle_lingering_ghosts
settle_lingering_ghosts-IsStore routers m g store = by_ghosts (collect_ghosts (range m) [])
  where
    by_ghosts : (ghosts : GoMap ℕ TenantMeta) → IsStore (settle_ghosts routers ghosts g).0
    by_ghosts [] = unfold settle_ghosts in store
    by_ghosts (row ∷ ghosts) = unfold settle_ghosts in settle-IsStore settle_rebase _ g store
