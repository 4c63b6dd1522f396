-- ===== src/Metadata/Sharded.antt =====
-- internal/metadata/metadata.go: the sharded map behaves as one map.
use native.Mathlib.Decide.{ℕ_discrete}
use mathlib.Core.Logic.{ite}
use lachesis.Base.{
  ℕ, zero, suc, ◌<◌, ◌≤◌, ◌≡◌, ◌≢◌, refl, Option, none, some, [], ◌∷◌, ◌++◌, arith, Option-cases,
  inl, inr,
}
use lachesis.Base.GoMap.{
  GoMap, get, Distinct, get-put_self, get-put_ne, get-delete_self, get-delete_ne, put-Distinct,
  delete-Distinct, get-put,
}
use lachesis.Base.GoMap.Range.{AllRows, AllRows-append, AllRows-HoldsRows, HoldsRows-self}
use lachesis.Metadata.{
  TenantMeta, ShardedMetadataMap, num_shards, shard_for, lookup, insert, remove, mark_delete,
  rows_below, range,
}

-- Every shard is a map, and a key stands only in the shard that its low bits name.
pub record IsSharded (s : ShardedMetadataMap) : Type 0 where
  pub distinct : (i : ℕ) → Distinct ℕ_discrete (s.shards i)
  pub placed : (i mac : ℕ) → shard_for mac ≢ i → get ℕ_discrete (s.shards i) mac ≡ none

module _ (s : ShardedMetadataMap) (mac : ℕ) where
  -- `Insert` replaces the entry of its MAC and no other.
  pub lookup-insert :
      (meta : TenantMeta) (q : ℕ)
      → lookup (insert s mac meta) q ≡ ite (ℕ_discrete mac q) (some meta) (lookup s q)
  unfolding lookup insert
  lookup-insert meta q = ground (
    arith,
    get-put_self ℕ_discrete (s.shards (shard_for mac)) mac meta,
    get-put_ne ℕ_discrete (s.shards (shard_for mac)) mac q meta,
  )

  pub lookup-remove_ne : (q : ℕ) → mac ≢ q → lookup (remove s mac) q ≡ lookup s q
  unfolding lookup remove
  lookup-remove_ne q ne = ground (arith, get-delete_ne ℕ_discrete (s.shards (shard_for mac)) mac q)

  pub lookup-remove_self : IsSharded s → lookup (remove s mac) mac ≡ none
  unfolding lookup remove
  lookup-remove_self h = ground (
    arith,
    get-delete_self ℕ_discrete (s.shards (shard_for mac)) mac (h.distinct (shard_for mac)),
  )

  pub insert-IsSharded : (meta : TenantMeta) → IsSharded s → IsSharded (insert s mac meta)
  unfolding insert
  insert-IsSharded meta h = record {
    distinct = λ i. ground (
      arith,
      h.distinct i,
      put-Distinct ℕ_discrete (s.shards (shard_for mac)) mac meta (h.distinct (shard_for mac)),
    );
    placed = λ i q ne.
        ground (arith, h.placed i q, get-put_ne ℕ_discrete (s.shards (shard_for mac)) mac q meta);
  }

  pub remove-IsSharded : IsSharded s → IsSharded (remove s mac)
  unfolding remove
  remove-IsSharded h = record {
    distinct = λ i. ground (
      arith,
      h.distinct i,
      delete-Distinct ℕ_discrete (s.shards (shard_for mac)) mac (h.distinct (shard_for mac)),
    );
    placed = λ i q ne.
        ground (arith, h.placed i q, get-delete_ne ℕ_discrete (s.shards (shard_for mac)) mac q);
  }

pub mark_delete-IsSharded :
    (s : ShardedMetadataMap) (mac at : ℕ) → IsSharded s → IsSharded (mark_delete s mac at).0
unfolding mark_delete
mark_delete-IsSharded s mac at h =
    elim (Option-cases (get ℕ_discrete (s.shards (shard_for mac)) mac)) [
      | inl e ↦ rw e h
      | inr (m, e) ↦ rw e (unfold insert in insert-IsSharded s mac (record m { delete_at = at }) h)
    ]

abbrev pub ghosted : ℕ → Option TenantMeta → Option TenantMeta
ghosted at none = none
ghosted at (some m) = some (record m { delete_at = at })

-- `MarkDelete` on a known MAC gives it a deadline and changes no other entry; on an unknown one it
-- changes nothing.
pub lookup-mark_delete :
    (s : ShardedMetadataMap) (mac at q : ℕ)
    → lookup (mark_delete s mac at).0 q
      ≡ ite (ℕ_discrete mac q) (ghosted at (lookup s q)) (lookup s q)
unfolding lookup mark_delete
lookup-mark_delete s mac at q =
    elim (Option-cases (get ℕ_discrete (s.shards (shard_for mac)) mac)) [
      | inl e ↦ ground (arith, e)
      | inr (m, e) ↦ ground (
        arith,
        e,
        get-put ℕ_discrete (s.shards (shard_for mac)) mac q (record m { delete_at = at }),
      )
    ]

-- The rows that `Range` visits, as a map.
append-get :
    (m n : GoMap ℕ TenantMeta) (k : ℕ)
    → get ℕ_discrete (m ++ n) k
      ≡ (elim (get ℕ_discrete m k) [ none ↦ get ℕ_discrete n k | some v ↦ some v ])
unfolding get
append-get [] n k = refl
append-get ((j, v) ∷ m) n k = ground (arith, append-get m n k)

get-rows_below_ge :
    (s : ShardedMetadataMap) (n mac : ℕ)
    → IsSharded s
    → n ≤ shard_for mac
    → get ℕ_discrete (rows_below n s) mac ≡ none
unfolding rows_below get
get-rows_below_ge s zero mac h le = refl
get-rows_below_ge s (suc n) mac h le =
    rw (append-get (rows_below n s) (s.shards n) mac, get-rows_below_ge s n mac h (omega arith))
      (h.placed n mac (omega arith))

get-rows_below :
    (s : ShardedMetadataMap) (n mac : ℕ)
    → IsSharded s
    → shard_for mac < n
    → get ℕ_discrete (rows_below n s) mac ≡ lookup s mac
unfolding rows_below lookup
get-rows_below s zero mac h lt = absurd (omega arith)
get-rows_below s (suc n) mac h lt = elim (ℕ_discrete (shard_for mac) n) [
  | yes e ↦
      rw (append-get (rows_below n s) (s.shards n) mac, get-rows_below_ge s n mac h (omega arith))
        (rw e refl)
  | no ne ↦
      rw (append-get (rows_below n s) (s.shards n) mac)
        (ground (arith, get-rows_below s n mac h, h.placed n mac))
]

-- On a well sharded map, `Range` visits for each MAC the entry that `Lookup` finds, and no other.
pub get-range :
    (s : ShardedMetadataMap) (mac : ℕ) → IsSharded s → get ℕ_discrete (range s) mac ≡ lookup s mac
unfolding range
get-range s mac h = get-rows_below s num_shards mac h (omega arith)

rows_below-AllRows :
    (s : ShardedMetadataMap) (n : ℕ)
    → IsSharded s
    → AllRows (λ mac meta. lookup s mac ≡ some meta) (rows_below n s)
unfolding rows_below lookup
rows_below-AllRows s zero h = tt
rows_below-AllRows s (suc n) h =
    AllRows-append (λ mac meta. get ℕ_discrete (s.shards (shard_for mac)) mac ≡ some meta)
      (rows_below n s) (s.shards n) (rows_below-AllRows s n h)
      (AllRows-HoldsRows ℕ_discrete
        (λ mac meta. get ℕ_discrete (s.shards (shard_for mac)) mac ≡ some meta) (s.shards n)
        (s.shards n) (HoldsRows-self ℕ_discrete (s.shards n) (h.distinct n))
        (λ mac meta e. elim (ℕ_discrete (shard_for mac) n) [
          | yes same ↦ rw same e
          | no other ↦ cc (h.placed n mac other)
        ]))

-- Every entry that `Range` visits is the one that `Lookup` finds for its MAC.
pub range-AllRows :
    (s : ShardedMetadataMap)
    → IsSharded s
    → AllRows (λ mac meta. lookup s mac ≡ some meta) (range s)
unfolding range
range-AllRows s h = rows_below-AllRows s num_shards h
