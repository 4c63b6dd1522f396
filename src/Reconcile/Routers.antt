-- ===== src/Reconcile/Routers.antt =====
-- internal/reconcile/routers.go: the map from the MACs of router interfaces to external networks is replaced,
-- and the flows whose label changes are folded first. What the snapshot wants is an argument, `desired`.
pub mod Changes
pub mod Billing
use native.Mathlib.Decide.{ℕ_discrete}
use text.Mathlib.Text.{◌==◌ as str_eq}
use text.Mathlib.TextEquality.{eq_iff}
use lachesis.Base.{
  ℕ, ◌≡◌, ◌≢◌, refl, sym, ap, ◌∙◌, String, Bool, true, false, not, ◌||◌, Option, none, some, [],
  ◌∷◌, if◌then◌else◌, ◌==◌, arith, Bool-cases, Option-cases, ◌⊎◌, inl, inr,
}
use lachesis.Base.GoMap.{GoMap, get, put, length, get-put_self, get-put_ne}
use lachesis.Base.GoMap.Range.{get-row_self, get-row_ne}
use lachesis.Bpf.{FlowKey, FlowKey-discrete, zone_external}
use lachesis.State.{GlobalState, Counter, Owner, settle, settle_rebase}
use lachesis.State.Exposure.{Meter}
use lachesis.State.Rows.{IsStore, get-settle, settle-IsStore}
use lachesis.Metadata.{
  TenantMeta, ShardedMetadataMap, RouterMacs, lookup, vm_mac, peer_mac, resolve, settle_resolver,
  flow_external_label, router_lookup, attribute,
}
use lachesis.Series.{
  SameShown, SameShown-trans, SameShown-relabel, owners, settle-SameSeries, IsSpent,
}
use lachesis.Reconcile.Learning.{settled_row-IsSpent}

-- `map[uint64]bool`, of which only `true` is written
abbrev pub Changed : Type 0
Changed = GoMap ℕ (Unit {0})

-- `!ok || oldExt != ext`
abbrev pub label_changed : Option String → String → Bool
label_changed none ext = true
label_changed (some old) ext = not (str_eq old ext)

-- The loop over the wanted labels.
unfoldable pub changed_labels : GoMap ℕ String → GoMap ℕ String → Changed → Changed
changed_labels old [] changed = changed
changed_labels old ((mac, ext) ∷ desired) changed =
    changed_labels old desired (
      if label_changed (get ℕ_discrete old mac) ext then put ℕ_discrete changed mac tt else changed)

abbrev pub add_gone_label : Option String → ℕ → Changed → Changed
add_gone_label none mac changed = put ℕ_discrete changed mac tt
add_gone_label (some ext) mac changed = changed

-- The loop over the published ones.
unfoldable pub gone_labels : GoMap ℕ String → GoMap ℕ String → Changed → Changed
gone_labels desired [] changed = changed
gone_labels desired ((mac, ext) ∷ old) changed =
    gone_labels desired old (add_gone_label (get ℕ_discrete desired mac) mac changed)

unfoldable pub changed_macs : GoMap ℕ String → GoMap ℕ String → Changed
unfolding changed_labels gone_labels
changed_macs desired old = gone_labels desired old (changed_labels old desired [])

abbrev pub pick_if : Option (Unit {0}) → Option TenantMeta → Option TenantMeta
pick_if none meta = none
pick_if (some there) meta = meta

-- The closure that picks the flows to fold.
abbrev pub pick_changed : Changed → ShardedMetadataMap → FlowKey → Option TenantMeta
pick_changed changed m k =
    if not (k.dst_zone == zone_external)
    then none
    else pick_if (get ℕ_discrete changed (peer_mac k)) (lookup m (vm_mac k))

-- `reconcileRouterMACs` on the changed MACs, with the settler wired.
unfoldable pub fold_routers :
    Changed
    → GoMap ℕ String
    → GoMap ℕ String
    → ShardedMetadataMap
    → GlobalState
    → RouterMacs × GlobalState
fold_routers [] desired old m g = (some old, g)
fold_routers (row ∷ changed) desired old m g = (
  some desired,
  (settle settle_rebase (settle_resolver (some old) (pick_changed (row ∷ changed) m)) g).0,
)

-- `reconcileRouterMACs`: the published map, the store, and the number of changed MACs
unfoldable pub reconcile_router_macs :
    GoMap ℕ String → ShardedMetadataMap → RouterMacs → GlobalState → (RouterMacs × GlobalState) × ℕ
unfolding changed_macs fold_routers
reconcile_router_macs desired m none g = ((none, g), 0)
reconcile_router_macs desired m (some old) g =
    let changed = changed_macs desired old in (fold_routers changed desired old m g, length changed)
