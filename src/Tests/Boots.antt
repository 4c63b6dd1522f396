-- ===== src/Tests/Boots.antt =====
-- A boot after the VM of the two rows went to another tenant while the agent was down.
use lachesis.Base.{ℕ, ◌≡◌, ◌≢◌, refl, sym, ap, ◌∙◌, none, some, arith, Option-cases, inl, inr}
use lachesis.Base.GoMap.{get}
use lachesis.Bpf.{FlowKey, FlowKey-discrete, mac_key}
use lachesis.State.{Counter}
use lachesis.State.Exposure.{bytes}
use lachesis.Metadata
use lachesis.Metadata.{
  TenantMeta, ShardedMetadataMap, lookup, insert, vm_mac, settle_resolver, complete,
}
use lachesis.Metadata.Sharded.{lookup-insert}
use lachesis.Series.{SameSeries}
use lachesis.Restart.{owner_resolver, flushed, seeded}
use lachesis.Restart.Changed.{Named}
use lachesis.Restart.Kept.{seeded-SameSeries}
use lachesis.Tests.Data.{
  vm, peer, ghost, red, known, two_rows, two_rows-IsStore, no_routers, sent, received,
}
use lachesis.Tests.Logs.{json, text_ne}

-- The VM belongs to the tenant `blue`.
abbrev moved : ShardedMetadataMap
moved = insert known (mac_key vm) (record ghost { project_id = "blue"; delete_at = 0 })

new-empty : (q : ℕ) → lookup Metadata.new q ≡ none
unfolding lookup get
new-empty q = refl

sent-vm : vm_mac sent ≡ mac_key vm
unfolding vm_mac
sent-vm = refl

received-vm : vm_mac received ≡ mac_key vm
unfolding vm_mac
received-vm = refl

known-red :
    (k : FlowKey) (meta : TenantMeta)
    → lookup known (vm_mac k) ≡ some meta
    → meta.project_id ≡ red.tenant
known-red k meta e = ground (
  arith,
  lookup-insert (insert Metadata.new (mac_key vm) ghost) (mac_key peer)
      (record ghost { delete_at = 0 }) (vm_mac k),
  lookup-insert Metadata.new (mac_key vm) ghost (vm_mac k),
  new-empty (vm_mac k),
)

known-Named : Named (owner_resolver no_routers known)
unfolding owner_resolver settle_resolver
known-Named k o e bad = elim (Option-cases (lookup known (vm_mac k))) [
  | inl miss ↦ cc (ap (complete no_routers k) miss, e)
  | inr (meta, hit) ↦ text_ne (
      sym (known-red k meta hit) ∙ own_tenant meta (sym (ap (complete no_routers k) hit) ∙ e) ∙ bad)
]
  where
    own_tenant :
        (meta : TenantMeta)
        → complete no_routers k (some meta) ≡ some o
        → meta.project_id ≡ o.tenant
    own_tenant meta same = cc same

rows-seen :
    (k : FlowKey) (c : Counter)
    → get FlowKey-discrete two_rows.counts k ≡ some c
    → lookup known (vm_mac k) ≢ none
unfolding get
rows-seen k c row = ground (
  arith,
  lookup-insert (insert Metadata.new (mac_key vm) ghost) (mac_key peer)
      (record ghost { delete_at = 0 }) (vm_mac k),
  lookup-insert Metadata.new (mac_key vm) ghost (vm_mac k),
  sent-vm,
  received-vm,
  ap vm_mac {x = sent} {y = k},
  ap vm_mac {x = received} {y = k},
)

rows-unseen :
    (k : FlowKey) (c : Counter)
    → get FlowKey-discrete two_rows.counts k ≡ some c
    → owner_resolver no_routers known k ≡ none
    → owner_resolver no_routers moved k ≡ none
unfolding owner_resolver settle_resolver
rows-unseen k c row e = elim (Option-cases (lookup known (vm_mac k))) [
  | inl miss ↦ absurd (rows-seen k c row miss)
  | inr (meta, hit) ↦ absurd (some_ne meta (sym (ap (complete no_routers k) hit) ∙ e))
]
  where
    some_ne : (meta : TenantMeta) → complete no_routers k (some meta) ≢ none
    some_ne meta same = cc same

seeded-SameSeries_example : SameSeries bytes no_routers known two_rows moved (
    seeded json (owner_resolver no_routers moved) (record {
      snapshot = flushed (owner_resolver no_routers known) two_rows;
      counters_reset_at = 1;
    }))
seeded-SameSeries_example =
    seeded-SameSeries no_routers known moved two_rows two_rows-IsStore bytes json 1 known-Named
      rows-unseen
