-- ===== src/Base/GoMap/Append.antt =====
-- A map that is built up by writes to new keys holds the rows in the order of the writes.
use mathlib.Core.Path.{◌≡◌, refl, ap}
use mathlib.Core.Logic.{◌≢◌, if_neg}
use mathlib.Core.Option.{none}
use mathlib.Core.List.{[], ◌∷◌, ◌++◌}
use native.Mathlib.Omega.{arith}
use lachesis.Base.GoMap.{GoMap, get, put, Distinct}

module _ {ℓ} {K V : Type ℓ} (dec : Discrete K) where
  get-middle : (m rows : GoMap K V) (k : K) (v : V) → get dec (m ++ ((k, v) ∷ rows)) k ≢ none
  unfolding get
  get-middle [] rows k v = ground arith
  get-middle ((j, w) ∷ m) rows k v = ground (arith, get-middle m rows k v)

  pub put-new :
      (m rows : GoMap K V) (k : K) (v : V)
      → Distinct dec (m ++ ((k, v) ∷ rows))
      → put dec m k v ≡ m ++ ((k, v) ∷ [])
  unfolding get put
  put-new [] rows k v d = refl
  put-new ((j, w) ∷ m) rows k v d = elim (dec j k) [
    | yes e ↦ absurd (get-middle m rows k v (rw e at d.0))
    | no ne ↦ rw (if_neg (dec j k) ne) (ap (λ l. (j, w) ∷ l) (put-new m rows k v d.1))
  ]
