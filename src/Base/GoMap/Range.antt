-- ===== src/Base/GoMap/Range.antt =====
-- Facts for loops over the rows of a map that write to that map while they run.
use mathlib.Core.Path.{◌≡◌, refl, sym, ◌∙◌, subst}
use mathlib.Core.Logic.{◌≢◌, ◌⊎◌, inl, inr, if_pos, if_neg}
use mathlib.Core.Option.{none, some}
use mathlib.Core.List.{[], ◌∷◌, ◌++◌}
use native.Mathlib.Omega.{arith}
use lachesis.Base.GoMap.{GoMap, get, put, delete, Distinct, get-put_self, get-put_ne, get-delete_ne}

module _ {ℓ} {K V : Type ℓ} (dec : Discrete K) where
  -- Every row of `rows` is what the map holds under the row's key.
  abbrev pub HoldsRows : GoMap K V → GoMap K V → Type ℓ
  HoldsRows m [] = Unit
  HoldsRows m ((k, v) ∷ rows) = (get dec m k ≡ some v) × HoldsRows m rows

  pub ne_of_get :
      (m : GoMap K V) (j k : K) (v : V) → get dec m j ≡ none → get dec m k ≡ some v → j ≢ k
  ne_of_get m j k v a b p = ground arith

  pub HoldsRows-cons :
      (m rows : GoMap K V) (j : K) (w : V)
      → get dec m j ≡ none
      → HoldsRows m rows
      → HoldsRows ((j, w) ∷ m) rows
  unfolding get
  HoldsRows-cons m [] j w h r = tt
  HoldsRows-cons m ((k, v) ∷ rows) j w h r =
      (ground (arith, ne_of_get m j k v), HoldsRows-cons m rows j w h r.1)

  pub HoldsRows-self : (m : GoMap K V) → Distinct dec m → HoldsRows m m
  unfolding get
  HoldsRows-self [] d = tt
  HoldsRows-self ((k, v) ∷ m) d =
      (if_pos (dec k k) refl _ _, HoldsRows-cons m m k v d.0 (HoldsRows-self m d.1))

  pub get-ne_row :
      (rows : GoMap K V) (k j : K) (v : V)
      → get dec ((j, v) ∷ rows) k ≡ none
      → (k ≢ j) × (get dec rows k ≡ none)
  unfolding get
  get-ne_row rows k j v h = ground arith

  pub HoldsRows-put :
      (m rows : GoMap K V) (k : K) (v : V)
      → get dec rows k ≡ none
      → HoldsRows m rows
      → HoldsRows (put dec m k v) rows
  HoldsRows-put m [] k v h r = tt
  HoldsRows-put m ((j, w) ∷ rows) k v h r =
      let (ne, rest) = get-ne_row rows k j w h in
      (get-put_ne dec m k j v ne ∙ r.0, HoldsRows-put m rows k v rest r.1)

  pub HoldsRows-delete :
      (m rows : GoMap K V) (k : K)
      → get dec rows k ≡ none
      → HoldsRows m rows
      → HoldsRows (delete dec m k) rows
  HoldsRows-delete m [] k h r = tt
  HoldsRows-delete m ((j, w) ∷ rows) k h r =
      let (ne, rest) = get-ne_row rows k j w h in
      (get-delete_ne dec m k j ne ∙ r.0, HoldsRows-delete m rows k rest r.1)

  pub get-row_self : (rows : GoMap K V) (k : K) (v : V) → get dec ((k, v) ∷ rows) k ≡ some v
  unfolding get
  get-row_self rows k v = if_pos (dec k k) refl _ _

  pub get-row_ne :
      (rows : GoMap K V) (k j : K) (v : V) → j ≢ k → get dec rows k ≡ get dec ((j, v) ∷ rows) k
  unfolding get
  get-row_ne rows k j v ne = ground arith

module _ {ℓ} {K V : Type ℓ} where
  abbrev pub AllRows : (K → V → Type ℓ) → GoMap K V → Type ℓ
  AllRows P [] = Unit
  AllRows P ((k, v) ∷ rows) = P k v × AllRows P rows

  pub AllRows-append :
      (P : K → V → Type ℓ) (m n : GoMap K V) → AllRows P m → AllRows P n → AllRows P (m ++ n)
  AllRows-append P [] n a b = b
  AllRows-append P ((k, v) ∷ m) n a b = (a.0, AllRows-append P m n a.1 b)

module _ {ℓ} {K V : Type ℓ} (dec : Discrete K) where
  pub AllRows-HoldsRows :
      (P : K → V → Type ℓ) (m rows : GoMap K V)
      → HoldsRows dec m rows
      → ((k : K) (v : V) → get dec m k ≡ some v → P k v)
      → AllRows P rows
  AllRows-HoldsRows P m [] h step = tt
  AllRows-HoldsRows P m ((k, v) ∷ rows) h step = (step k v h.0, AllRows-HoldsRows P m rows h.1 step)

module _ {ℓ} {K V : Type ℓ} (dec : Discrete K) where
  -- What holds of every row and of a new one holds after it is written.
  pub AllRows-put :
      (P : K → V → Type ℓ) (m : GoMap K V) (k : K) (v : V)
      → AllRows P m
      → ((j : K) → j ≡ k → P j v)
      → AllRows P (put dec m k v)
  unfolding put
  AllRows-put P [] k v a h = (h k refl, tt)
  AllRows-put P ((j, w) ∷ m) k v a h = elim (dec j k) [
    | yes own ↦ rw (if_pos (dec j k) own _ _) (h j own, a.1)
    | no other ↦ rw (if_neg (dec j k) other _ _) (a.0, AllRows-put P m k v a.1 h)
  ]

  -- A key that is there stays there, and so does the one that is written.
  pub put_present :
      (m : GoMap K V) (k q : K) (v : V)
      → (k ≡ q) ⊎ (get dec m q ≢ none)
      → get dec (put dec m k v) q ≢ none
  put_present m k q v h absent = elim (dec k q) [
    | yes own ↦ cc (get-put_self dec m k v, own, absent)
    | no other ↦ elim h [
      | inl own ↦ other own
      | inr old ↦ old (sym (get-put_ne dec m k q v other) ∙ absent)
    ]
  ]

  -- What holds of every row holds of what a look-up finds.
  pub AllRows-found :
      (P : K → V → Type ℓ) (m : GoMap K V) (k : K) (v : V)
      → AllRows P m
      → get dec m k ≡ some v
      → P k v
  unfolding get
  AllRows-found P [] k v a e = cc e
  AllRows-found P ((j, w) ∷ m) k v a e = elim (dec j k) [
    | yes own ↦
        subst (λ x. P x v) own
          (subst (P j) (some_injective (sym (if_pos (dec j k) own _ _) ∙ e)) a.0)
    | no other ↦ AllRows-found P m k v a.1 (sym (if_neg (dec j k) other _ _) ∙ e)
  ]
    where
      some_injective : {x y : V} → some x ≡ some y → x ≡ y
      some_injective h = cc h
