-- ===== src/Reconcile/Macs.antt =====
-- internal/reconcile/mac.go: what is known of a MAC after a pass.
use native.Mathlib.Decide.{ℕ_discrete}
use mathlib.Core.Logic.{ite, if_pos, if_neg}
use lachesis.Base.{
  ℕ, ◌+◌, ◌≡◌, refl, ap, sym, ◌∙◌, Option, none, some, List, [], ◌∷◌, ◌++◌, Bool, true, false, ◌||◌,
  ◌&&◌, if◌then◌else◌, ◌==◌, arith, Bool-cases, ◌⊎◌, inl, inr,
}
use lachesis.Base.GoMap.{GoMap, get, Distinct}
use lachesis.Base.GoMap.Range.{AllRows}
use lachesis.Metadata.{
  TenantMeta, ShardedMetadataMap, RouterMacs, lookup, insert, mark_delete, range, same_attribution,
}
use lachesis.Metadata.Sharded.{
  IsSharded, lookup-insert, insert-IsSharded, mark_delete-IsSharded, lookup-mark_delete, ghosted,
  get-range, range-AllRows,
}
use lachesis.KernelMap.{MacMap}
use lachesis.Reconcile.{
  World, Learned, insert_mac, learn_mac, learn_rows, learn_macs, add_gone, gone_macs, mark_all,
  ghost_gone_macs, reconcile_macs,
}

-- The entry without a deadline.
abbrev pub live : TenantMeta → TenantMeta
live m = record m { delete_at = 0 }

pub same_attribution-live : (m o : TenantMeta) → same_attribution m o ≡ true → live m ≡ live o
unfolding same_attribution
same_attribution-live m o e = ground arith

-- The known entry is what the snapshot wants already.
abbrev pub stays : TenantMeta → Option TenantMeta → Bool
stays want none = false
stays want (some cur) = same_attribution cur want && (cur.delete_at == 0)

stays-eq :
    (want : TenantMeta) (cur : Option TenantMeta) → stays want cur ≡ true → cur ≡ some (live want)
stays-eq want none e = cc
stays-eq want (some cur) e = ground (arith, same_attribution-live cur want)

abbrev pub or_known : Option TenantMeta → Option TenantMeta → Option TenantMeta
or_known none cur = cur
or_known (some want) cur = some (live want)

module _ (T : MacMap) (routers : RouterMacs) where
  pub meta-learn_mac :
      (mac : ℕ) (want : TenantMeta) (cur : Option TenantMeta) (s : Learned T)
      → (learn_mac T routers mac want cur s).world.meta
        ≡ (if stays want cur then s.world.meta else insert s.world.meta mac (live want))
  unfolding learn_mac insert_mac
  meta-learn_mac mac want none s = refl
  meta-learn_mac mac want (some cur) s = elim (Bool-cases (same_attribution cur want)) [
    | inl same ↦ elim (Bool-cases (cur.delete_at == 0)) [
      | inl alive ↦ rw (same, alive) refl
      | inr dying ↦ rw (same, dying) refl
    ]
    | inr other ↦ rw other refl
  ]

  pub lookup-learn_mac :
      (mac : ℕ) (want : TenantMeta) (s : Learned T) (q : ℕ)
      → lookup (learn_mac T routers mac want (lookup s.world.meta mac) s).world.meta q
        ≡ ite (ℕ_discrete mac q) (some (live want)) (lookup s.world.meta q)
  lookup-learn_mac mac want s q = rw (meta-learn_mac mac want (lookup s.world.meta mac) s) (
      ground (
        arith,
        stays-eq want (lookup s.world.meta mac),
        lookup-insert s.world.meta mac (live want) q,
      ))

  learn_mac-IsSharded :
      (mac : ℕ) (want : TenantMeta) (cur : Option TenantMeta) (s : Learned T)
      → IsSharded s.world.meta
      → IsSharded (learn_mac T routers mac want cur s).world.meta
  learn_mac-IsSharded mac want cur s h =
      rw (meta-learn_mac mac want cur s) (elim (Bool-cases (stays want cur)) [
        | inl e ↦ rw e h
        | inr e ↦ rw e (insert-IsSharded s.world.meta mac (live want) h)
      ])

  pub learn_rows-IsSharded :
      (desired : GoMap ℕ TenantMeta) (s : Learned T)
      → IsSharded s.world.meta
      → IsSharded (learn_rows T routers desired s).world.meta
  unfolding learn_rows
  learn_rows-IsSharded [] s h = h
  learn_rows-IsSharded ((mac, want) ∷ desired) s h =
      learn_rows-IsSharded desired (learn_mac T routers mac want (lookup s.world.meta mac) s)
        (learn_mac-IsSharded mac want (lookup s.world.meta mac) s h)

  -- What the loop leaves for a MAC: the entry that the snapshot wants, or the one before.
  pub lookup-learn_rows :
      (desired : GoMap ℕ TenantMeta) (s : Learned T) (q : ℕ)
      → Distinct ℕ_discrete desired
      → lookup (learn_rows T routers desired s).world.meta q
        ≡ or_known (get ℕ_discrete desired q) (lookup s.world.meta q)
  unfolding learn_rows get
  lookup-learn_rows [] s q d = refl
  lookup-learn_rows ((mac, want) ∷ desired) s q d = ground (
    arith,
    lookup-learn_mac mac want s q,
    lookup-learn_rows desired (learn_mac T routers mac want (lookup s.world.meta mac) s) q d.1,
  )

abbrev pub contains : List ℕ → ℕ → Bool
contains [] q = false
contains (x ∷ xs) q = (x == q) || contains xs q

contains-append_one :
    (xs : List ℕ) (x q : ℕ) → contains (xs ++ (x ∷ [])) q ≡ (contains xs q || (x == q))
contains-append_one [] x q = ground arith
contains-append_one (y ∷ xs) x q = ground (arith, contains-append_one xs x q)

lookup-mark_all :
    (at : ℕ) (gone : List ℕ) (m : ShardedMetadataMap) (q : ℕ)
    → lookup (mark_all at gone m) q
      ≡ (if contains gone q then ghosted at (lookup m q) else lookup m q)
unfolding mark_all
lookup-mark_all at [] m q = refl
lookup-mark_all at (mac ∷ gone) m q =
    ground
      (arith, lookup-mark_delete m mac at q, lookup-mark_all at gone (mark_delete m mac at).0 q)

-- The entry is live, and the snapshot does not want it.
abbrev pub is_gone : GoMap ℕ TenantMeta → ℕ → Option TenantMeta → Bool
is_gone desired mac none = false
is_gone desired mac (some m) =
    (m.delete_at == 0) && elim (get ℕ_discrete desired mac) [ none ↦ true | some w ↦ false ]

AllRows-get :
    (m : ShardedMetadataMap) (rows : GoMap ℕ TenantMeta) (q : ℕ)
    → AllRows (λ mac meta. lookup m mac ≡ some meta) rows
    → (get ℕ_discrete rows q ≡ none) ⊎ (get ℕ_discrete rows q ≡ lookup m q)
unfolding get
AllRows-get m [] q a = inl refl
AllRows-get m ((mac, meta) ∷ rows) q a = elim (ℕ_discrete mac q) [
  | yes same ↦ inr (rw (← same) (if_pos (ℕ_discrete mac mac) refl _ _ ∙ sym a.0))
  | no other ↦ rw (if_neg (ℕ_discrete mac q) other _ _) (AllRows-get m rows q a.1)
]

module _ (desired : GoMap ℕ TenantMeta) (m : ShardedMetadataMap) where
  -- One round of `gone_macs`.
  abbrev visited : ℕ → TenantMeta → List ℕ × ℕ → List ℕ × ℕ
  visited mac meta (gone, n) =
      if meta.delete_at == 0
      then (add_gone (get ℕ_discrete desired mac) mac gone, n + 1)
      else (gone, n)

  contains-visited :
      (mac : ℕ) (meta : TenantMeta) (s : List ℕ × ℕ) (q : ℕ)
      → contains (visited mac meta s).0 q
        ≡ (contains s.0 q || ((mac == q) && is_gone desired mac (some meta)))
  contains-visited mac meta (gone, n) q = ground (arith, contains-append_one gone mac q)

  contains-gone_macs :
      (rows : GoMap ℕ TenantMeta) (s : List ℕ × ℕ) (q : ℕ)
      → AllRows (λ mac meta. lookup m mac ≡ some meta) rows
      → contains (gone_macs desired rows s).0 q
        ≡ (contains s.0 q || is_gone desired q (get ℕ_discrete rows q))
  unfolding gone_macs get
  contains-gone_macs [] s q a = ground arith
  contains-gone_macs ((mac, meta) ∷ rows) (gone, n) q a =
      contains-gone_macs rows (visited mac meta (gone, n)) q a.1
      ∙ ground (arith, contains-visited mac meta (gone, n) q, AllRows-get m rows q a.1, a.0)

  -- The gone MACs are the live entries that the snapshot does not want.
  pub contains-gone :
      (q : ℕ)
      → IsSharded m
      → contains (gone_macs desired (range m) ([], 0)).0 q ≡ is_gone desired q (lookup m q)
  contains-gone q h =
      rw (← get-range m q h) (contains-gone_macs (range m) ([], 0) q (range-AllRows m h))

  pub lookup-ghost_gone_macs :
      (now grace q : ℕ)
      → IsSharded m
      → lookup (ghost_gone_macs now grace desired m).0 q ≡ (
          if is_gone desired q (lookup m q) then ghosted (now + grace) (lookup m q) else lookup m q)
  unfolding ghost_gone_macs
  lookup-ghost_gone_macs now grace q h =
      lookup-mark_all (now + grace) (gone_macs desired (range m) ([], 0)).0 m q
      ∙ ap (λ b. if b then ghosted (now + grace) (lookup m q) else lookup m q) (contains-gone q h)

-- What a pass at `now` leaves for a MAC, from what the snapshot wants and what was known.
abbrev pub reconciled : ℕ → Option TenantMeta → Option TenantMeta → Option TenantMeta
reconciled at (some want) cur = some (live want)
reconciled at none none = none
reconciled at none (some m) = some (if m.delete_at == 0 then record m { delete_at = at } else m)

-- After a pass every MAC that the snapshot wants is known with that attribution and no deadline; a live
-- entry that it does not want has the deadline `now + grace`; an entry that was deleted keeps its
-- deadline, unless the snapshot wants it; and no other MAC is known. The metadata map is well sharded
-- and the snapshot wants one entry for a MAC at most; whether writes to the kernel fail is of no effect.
pub lookup-reconcile_macs :
    (T : MacMap) (routers : RouterMacs) (now grace : ℕ) (desired : GoMap ℕ TenantMeta) (w : World T)
    → IsSharded w.meta
    → Distinct ℕ_discrete desired
    → (mac : ℕ)
    → lookup (reconcile_macs T routers now grace desired w).0.meta mac
      ≡ reconciled (now + grace) (get ℕ_discrete desired mac) (lookup w.meta mac)
unfolding reconcile_macs learn_macs
lookup-reconcile_macs T routers now grace desired w sharded distinct mac =
    let start : Learned T = record { world = w; inserted = 0; changed = 0 } in
    lookup-ghost_gone_macs desired (learn_rows T routers desired start).world.meta now grace mac
      (learn_rows-IsSharded T routers desired start sharded)
    ∙ ground (arith, lookup-learn_rows T routers desired start mac distinct)

pub mark_all-IsSharded :
    (at : ℕ) (gone : List ℕ) (m : ShardedMetadataMap) → IsSharded m → IsSharded (mark_all at gone m)
unfolding mark_all
mark_all-IsSharded at [] m h = h
mark_all-IsSharded at (mac ∷ gone) m h =
    mark_all-IsSharded at gone (mark_delete m mac at).0 (mark_delete-IsSharded m mac at h)

-- A pass keeps the metadata map well sharded.
pub reconcile_macs-IsSharded :
    (T : MacMap) (routers : RouterMacs) (now grace : ℕ) (desired : GoMap ℕ TenantMeta) (w : World T)
    → IsSharded w.meta
    → IsSharded (reconcile_macs T routers now grace desired w).0.meta
unfolding reconcile_macs learn_macs ghost_gone_macs
reconcile_macs-IsSharded T routers now grace desired w h =
    let start : Learned T = record { world = w; inserted = 0; changed = 0 } in
    let s = learn_rows T routers desired start in
    mark_all-IsSharded (now + grace) (gone_macs desired (range s.world.meta) ([], 0)).0 s.world.meta
      (learn_rows-IsSharded T routers desired start h)
