-- ===== src/Base/GoMap/Sum.antt =====
-- The sum of a weight over the rows of a map, under writes and deletions.
use Prim.Native.Nat.{ℕ, ◌+◌}
use mathlib.Core.Path.{◌≡◌, refl}
use mathlib.Core.Option.{Option, none, some}
use mathlib.Core.List.{[], ◌∷◌}
use native.Mathlib.Omega.{arith}
use lachesis.Base.GoMap.{GoMap, get, put, delete, Distinct}
use lachesis.Base.GoMap.Range.{HoldsRows, HoldsRows-self}

module _ {ℓ} {K V : Type ℓ} where
  unfoldable pub sum : (K → V → ℕ) → GoMap K V → ℕ
  sum w [] = 0
  sum w ((k, v) ∷ m) = w k v + sum w m

  -- The weight of the row that may be there.
  abbrev pub weight : (K → V → ℕ) → K → Option V → ℕ
  weight w k none = 0
  weight w k (some v) = w k v

module _ {ℓ} {K V : Type ℓ} (dec : Discrete K) (w : K → V → ℕ) where
  pub sum-put :
      (m : GoMap K V) (k : K) (v : V)
      → sum w (put dec m k v) + weight w k (get dec m k) ≡ sum w m + w k v
  unfolding sum get put
  sum-put [] k v = omega arith
  sum-put ((j, u) ∷ m) k v = ground (arith, sum-put m k v)

  pub sum-delete :
      (m : GoMap K V) (k : K) → sum w (delete dec m k) + weight w k (get dec m k) ≡ sum w m
  unfolding sum get delete
  sum-delete [] k = omega arith
  sum-delete ((j, u) ∷ m) k = ground (arith, sum-delete m k)

module _ {ℓ} {K V : Type ℓ} (dec : Discrete K) (w w' : K → V → ℕ) where
  sum_congr_rows :
      (m rows : GoMap K V)
      → HoldsRows dec m rows
      → ((k : K) (v : V) → get dec m k ≡ some v → w k v ≡ w' k v)
      → sum w rows ≡ sum w' rows
  unfolding sum
  sum_congr_rows m [] h same = refl
  sum_congr_rows m ((k, v) ∷ rows) h same =
      omega (arith, same k v h.0, sum_congr_rows m rows h.1 same)

  -- Weights that agree on the rows of a map have one sum.
  pub sum_congr :
      (m : GoMap K V)
      → Distinct dec m
      → ((k : K) (v : V) → get dec m k ≡ some v → w k v ≡ w' k v)
      → sum w m ≡ sum w' m
  sum_congr m d same = sum_congr_rows m m (HoldsRows-self dec m d) same
