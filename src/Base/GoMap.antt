-- ===== src/Base/GoMap.antt =====
-- Go's `map`: an association list whose order stands for the order of iteration.
pub mod Range
pub mod Sum
pub mod Append
use Prim.Native.Nat.{ℕ, suc, ◌<◌}
use mathlib.Core.Path.{◌≡◌, refl}
use mathlib.Core.Logic.{◌≢◌, ite, if_pos, if_neg}
use mathlib.Core.Option.{Option, none, some}
use mathlib.Core.List.{List, [], ◌∷◌}
use native.Mathlib.Omega.{arith}

abbrev pub GoMap {ℓ} : Type ℓ → Type ℓ → Type ℓ
GoMap K V = List (K × V)

-- `len(m)`
abbrev pub length {ℓ} : {A : Type ℓ} → List A → ℕ
length [] = 0
length (x ∷ xs) = suc (length xs)

module _ {ℓ} {K V : Type ℓ} (dec : Discrete K) where
  -- `v, ok := m[k]`
  unfoldable pub get : GoMap K V → K → Option V
  get [] k = none
  get ((j, v) ∷ m) k = ite (dec j k) (some v) (get m k)

  -- `m[k] = v`
  unfoldable pub put : GoMap K V → K → V → GoMap K V
  put [] k v = (k, v) ∷ []
  put ((j, w) ∷ m) k v = ite (dec j k) ((j, v) ∷ m) ((j, w) ∷ put m k v)

  -- `delete(m, k)`
  unfoldable pub delete : GoMap K V → K → GoMap K V
  delete [] k = []
  delete ((j, w) ∷ m) k = ite (dec j k) m ((j, w) ∷ delete m k)

  -- No key stands twice.
  abbrev pub Distinct : GoMap K V → Type ℓ
  Distinct [] = Unit
  Distinct ((k, _) ∷ m) = (get m k ≡ none) × Distinct m

  pub get-put_self : (m : GoMap K V) (k : K) (v : V) → get (put m k v) k ≡ some v
  unfolding get put
  get-put_self [] k v = ground arith
  get-put_self ((j, w) ∷ m) k v = ground (arith, get-put_self m k v)

  pub get-put_ne : (m : GoMap K V) (k q : K) (v : V) → k ≢ q → get (put m k v) q ≡ get m q
  unfolding get put
  get-put_ne [] k q v h = ground arith
  get-put_ne ((j, w) ∷ m) k q v h = ground (arith, get-put_ne m k q v)

  pub get-put :
      (m : GoMap K V) (k q : K) (v : V) → get (put m k v) q ≡ ite (dec k q) (some v) (get m q)
  get-put m k q v = ground (arith, get-put_self m k v, get-put_ne m k q v)

  pub get-delete_ne : (m : GoMap K V) (k q : K) → k ≢ q → get (delete m k) q ≡ get m q
  unfolding get delete
  get-delete_ne [] k q h = ground arith
  get-delete_ne ((j, w) ∷ m) k q h = ground (arith, get-delete_ne m k q)

  pub get-delete_self : (m : GoMap K V) (k : K) → Distinct m → get (delete m k) k ≡ none
  unfolding get delete
  get-delete_self [] k d = ground arith
  get-delete_self ((j, w) ∷ m) k d = ground (arith, get-delete_self m k)

  pub get-delete :
      (m : GoMap K V) (k q : K) → Distinct m → get (delete m k) q ≡ ite (dec k q) none (get m q)
  get-delete m k q d = ground (arith, get-delete_self m k d, get-delete_ne m k q)

  pub put-Distinct : (m : GoMap K V) (k : K) (v : V) → Distinct m → Distinct (put m k v)
  unfolding get put
  put-Distinct [] k v d = (refl, tt)
  put-Distinct ((j, w) ∷ m) k v d = elim (dec j k) [
    | yes p ↦ rw (if_pos _ p) d
    | no p ↦ rw (if_neg _ p) (ground (arith, get-put_ne m k j v), put-Distinct m k v d.1)
  ]

  pub delete-Distinct : (m : GoMap K V) (k : K) → Distinct m → Distinct (delete m k)
  unfolding get delete
  delete-Distinct [] k d = tt
  delete-Distinct ((j, w) ∷ m) k d = elim (dec j k) [
    | yes p ↦ rw (if_pos _ p) d.1
    | no p ↦ rw (if_neg _ p) (ground (arith, get-delete_ne m k j), delete-Distinct m k d.1)
  ]

  pub length-delete :
      (m : GoMap K V) (k : K) (v : V) → get m k ≡ some v → suc (length (delete m k)) ≡ length m
  unfolding get delete
  length-delete [] k v h = ground arith
  length-delete ((j, w) ∷ m) k v h = ground (arith, length-delete m k v)

  pub length-put_old :
      (m : GoMap K V) (k : K) (v w : V) → get m k ≡ some w → length (put m k v) ≡ length m
  unfolding get put
  length-put_old [] k v w h = ground arith
  length-put_old ((j, u) ∷ m) k v w h = ground (arith, length-put_old m k v w)

  -- A map that is not empty holds something.
  pub held_key : (m : GoMap K V) → 0 < length m → (k : K) × (v : V) × (get m k ≡ some v)
  unfolding get
  held_key [] h = absurd (omega arith)
  held_key ((k, v) ∷ m) h = (k, v, if_pos (dec k k) refl _ _)
