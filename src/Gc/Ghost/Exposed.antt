-- ===== src/Gc/Ghost/Exposed.antt =====
-- internal/gc/ghost.go: a sweep deletes rows and metadata, and moves no series.
use native.Mathlib.Decide.{ℕ_discrete}
use lachesis.Base.{
  ℕ, ◌≡◌, ◌≢◌, refl, sym, ◌∙◌, ap, Option, none, some, [], ◌∷◌, arith, ◌⊎◌, Option-cases, inl, inr,
}
use lachesis.Base.GoMap.{GoMap, get, get-put}
use lachesis.Bpf.{FlowKey, FlowKey-discrete}
use lachesis.State.{
  GlobalState, Counter, TenantSettledKey, ServerSettledKey, TenantSettledKey-discrete,
  ServerSettledKey-discrete, settle, settle_evict, tenant_key,
}
use lachesis.State.Exposure.{Meter, tenant_exposed, server_exposed, exposed-relabel, server_key?}
use lachesis.State.Settle.{settle-exposed}
use lachesis.State.Rows.{IsStore, get-settle, settle-IsStore}
use lachesis.Metadata.{
  TenantMeta, ShardedMetadataMap, RouterMacs, lookup, remove, range, vm_mac, resolve, attribute,
  settle_resolver,
}
use lachesis.Metadata.Sharded.{IsSharded, lookup-remove_ne, lookup-remove_self, remove-IsSharded}
use lachesis.Metadata.Labels.{owner_of, tenant_label, server_label, settle_resolver-labels}
use lachesis.Gc.Ghost.{
  MacSet, MacEvictor, MacFlowEvictor, World, collect_meta, collect_metas, settle_swept,
  delete_userspace, sweep, classify, delete_kernel_macs,
}

-- Every collected entry is the one that the metadata map holds.
abbrev Known : ShardedMetadataMap → GoMap ℕ TenantMeta → Type 0
Known m metas =
    (q : ℕ) (meta : TenantMeta) → get ℕ_discrete metas q ≡ some meta → lookup m q ≡ some meta

module _ (m : ShardedMetadataMap) where
  collect_meta-Known :
      (o : Option TenantMeta) (mac : ℕ) (metas : GoMap ℕ TenantMeta)
      → lookup m mac ≡ o
      → Known m metas
      → Known m (collect_meta o mac metas)
  unfolding collect_meta
  collect_meta-Known none mac metas e h = h
  collect_meta-Known (some found) mac metas e h =
      λ q meta p. ground (arith, h q meta, get-put ℕ_discrete metas mac q found)

  collect_metas-Known :
      (swept : MacSet) (metas : GoMap ℕ TenantMeta)
      → Known m metas
      → Known m (collect_metas m swept metas)
  unfolding collect_metas
  collect_metas-Known [] metas h = h
  collect_metas-Known ((mac, u) ∷ swept) metas h =
      collect_metas-Known swept (collect_meta (lookup m mac) mac metas)
        (collect_meta-Known (lookup m mac) mac metas refl h)

  collect_meta-none :
      (o : Option TenantMeta) (mac q : ℕ) (metas : GoMap ℕ TenantMeta)
      → lookup m mac ≡ o
      → get ℕ_discrete (collect_meta o mac metas) q ≡ none
      → (get ℕ_discrete metas q ≡ none) × ((mac ≢ q) ⊎ (lookup m q ≡ none))
  unfolding collect_meta
  collect_meta-none none mac q metas e h = elim (ℕ_discrete mac q) [
    | yes same ↦ (h, inr (rw same at e))
    | no other ↦ (h, inl other)
  ]
  collect_meta-none (some found) mac q metas e h =
      let moved = get-put ℕ_discrete metas mac q found in
      (ground (arith, moved), inl (λ same. ground (arith, moved)))

  -- A MAC that was not collected was not swept, or is not known.
  collect_metas-none :
      (swept : MacSet) (metas : GoMap ℕ TenantMeta) (q : ℕ)
      → get ℕ_discrete (collect_metas m swept metas) q ≡ none
      → (get ℕ_discrete metas q ≡ none) × ((get ℕ_discrete swept q ≡ none) ⊎ (lookup m q ≡ none))
  unfolding collect_metas get
  collect_metas-none [] metas q h = (h, inl refl)
  collect_metas-none ((mac, u) ∷ swept) metas q h =
      let (before, rest) = collect_metas-none swept (collect_meta (lookup m mac) mac metas) q h in
      let (first, here) = collect_meta-none (lookup m mac) mac q metas refl before in
      (first, ground arith)

pub delete_userspace-absent :
    (swept : MacSet) (m : ShardedMetadataMap) (q : ℕ)
    → get ℕ_discrete swept q ≡ none
    → lookup (delete_userspace swept m) q ≡ lookup m q
unfolding delete_userspace get
delete_userspace-absent [] m q h = refl
delete_userspace-absent ((mac, u) ∷ swept) m q h =
    ground (arith, delete_userspace-absent swept (remove m mac) q, lookup-remove_ne m mac q)

pub delete_userspace-unknown :
    (swept : MacSet) (m : ShardedMetadataMap) (q : ℕ)
    → IsSharded m
    → lookup m q ≡ none
    → lookup (delete_userspace swept m) q ≡ none
unfolding delete_userspace
delete_userspace-unknown [] m q s h = h
delete_userspace-unknown ((mac, u) ∷ swept) m q s h =
    delete_userspace-unknown swept (remove m mac) q (remove-IsSharded m mac s)
      (ground (arith, lookup-remove_ne m mac q, lookup-remove_self m mac s))

-- Where the sweep collected nothing for a MAC, it leaves what is known of that MAC.
delete_userspace-uncollected :
    (swept : MacSet) (m : ShardedMetadataMap) (q : ℕ)
    → IsSharded m
    → get ℕ_discrete (collect_metas m swept []) q ≡ none
    → lookup (delete_userspace swept m) q ≡ lookup m q
delete_userspace-uncollected swept m q s h = elim ((collect_metas-none m swept [] q h).1) [
  | inl absent ↦ delete_userspace-absent swept m q absent
  | inr unknown ↦ delete_userspace-unknown swept m q s unknown ∙ sym unknown
]

module _ (routers : RouterMacs) (m : ShardedMetadataMap) (swept : MacSet) (g : GlobalState)
    (sharded : IsSharded m) (store : IsStore g) where
  unfoldable pub pick : FlowKey → Option TenantMeta
  pick k = get ℕ_discrete (collect_metas m swept []) (vm_mac k)

  pub pick-known :
      (k : FlowKey) (meta : TenantMeta) → pick k ≡ some meta → lookup m (vm_mac k) ≡ some meta
  unfolding pick
  pick-known k meta = collect_metas-Known m swept [] (λ q x e. unfold get in cc) (vm_mac k) meta

  unfoldable pub settled : GlobalState
  settled = (settle settle_evict (settle_resolver routers pick) g).0

  unfoldable pub after : ShardedMetadataMap
  after = delete_userspace swept m

  -- A row that is left after the fold is labelled as before.
  pub relabelled :
      (k : FlowKey) (c : Counter)
      → get FlowKey-discrete settled.counts k ≡ some c
      → owner_of (resolve after routers k) ≡ owner_of (resolve m routers k)
  unfolding settled after resolve settle_resolver pick
  relabelled k c row =
      let left = get-settle settle_evict (settle_resolver routers pick) k g store.counts in
      elim (Option-cases (get ℕ_discrete (collect_metas m swept []) (vm_mac k))) [
        | inl e ↦
            ap (λ o. owner_of (attribute routers k o))
              (delete_userspace-uncollected swept m (vm_mac k) sharded e)
        | inr (meta, e) ↦ absurd (ground (arith, left, e))
      ]

  resettled :
      (meter : Meter)
      → ((q : TenantSettledKey)
          → tenant_exposed meter (tenant_label after routers) settled q
            ≡ tenant_exposed meter (tenant_label m routers) g q)
        × ((q : ServerSettledKey)
            → server_exposed meter (server_label after routers) settled q
              ≡ server_exposed meter (server_label m routers) g q)
  resettled meter =
      let distinct = (settle-IsStore settle_evict (settle_resolver routers pick) g store).counts in
      let kept =
        settle-exposed settle_evict (settle_resolver routers pick) g store.counts
          (tenant_label m routers) (server_label m routers)
          (settle_resolver-labels m routers pick pick-known) meter in
      (
        λ q.
            exposed-relabel TenantSettledKey-discrete meter (tenant_label m routers)
              (tenant_label after routers) settled.counts settled.tenant_settled q
              (unfold settled in distinct)
              (λ k c row. ap (λ o. some (tenant_key o k)) (relabelled k c row))
            ∙ unfold settled in kept.0 q,
        λ q.
            exposed-relabel ServerSettledKey-discrete meter (server_label m routers)
              (server_label after routers) settled.counts settled.server_settled q
              (unfold settled in distinct)
              (λ k c row. ap (λ o. server_key? o k) (relabelled k c row))
            ∙ unfold settled in kept.1 q,
      )

swept_exposed :
    (routers : RouterMacs) (m : ShardedMetadataMap) (swept : MacSet) (g : GlobalState)
    → IsSharded m
    → IsStore g
    → (meter : Meter)
    → ((q : TenantSettledKey)
        → tenant_exposed meter
            (tenant_label (delete_userspace swept m) routers)
            (settle_swept routers m swept g).0
            q
          ≡ tenant_exposed meter (tenant_label m routers) g q)
      × ((q : ServerSettledKey)
          → server_exposed meter
              (server_label (delete_userspace swept m) routers)
              (settle_swept routers m swept g).0
              q
            ≡ server_exposed meter (server_label m routers) g q)
unfolding settle_swept settled after pick
swept_exposed routers m [] g sharded store meter = unfold delete_userspace in (λ q. refl, λ q. refl)
swept_exposed routers m ((mac, u) ∷ swept) g sharded store meter =
    resettled routers m ((mac, u) ∷ swept) g sharded store meter

-- A sweep of the ghosts moves no series: if the metadata map is well sharded and no map of the
-- store holds a key twice, then, whatever the kernel's maps answer, each tenant series and each
-- server series, bytes and packets, resolved against the metadata that is left, has after the
-- sweep the value that it had before.
pub sweep-exposed :
    (E : MacEvictor) (F : MacFlowEvictor) (routers : RouterMacs) (now : ℕ) (w : World E F)
    → IsSharded w.meta
    → IsStore w.state
    → (meter : Meter)
    → ((q : TenantSettledKey)
        → tenant_exposed meter
            (tenant_label (sweep E F routers now w).0.meta routers)
            (sweep E F routers now w).0.state
            q
          ≡ tenant_exposed meter (tenant_label w.meta routers) w.state q)
      × ((q : ServerSettledKey)
          → server_exposed meter
              (server_label (sweep E F routers now w).0.meta routers)
              (sweep E F routers now w).0.state
              q
            ≡ server_exposed meter (server_label w.meta routers) w.state q)
unfolding sweep
sweep-exposed E F routers now w sharded store meter =
    swept_exposed routers w.meta
      (delete_kernel_macs E (classify now (range w.meta)).0 ([], w.kernel)).0 w.state sharded store
      meter
