-- ===== src/Base/Among.antt =====
-- Lists as Go's slices: membership, loops that append, and sorting.
use mathlib.Core.Path.{◌≡◌, refl, ap, subst}
use mathlib.Core.Logic.{◌⊎◌, inl, inr}
use mathlib.Core.Bool.{Bool}
use mathlib.Core.List.{List, [], ◌∷◌, ◌++◌, map}
use lachesis.Base.Tests.{if◌then◌else◌, Bool-cases}

module _ {A : Type 0} where
  abbrev pub Among : A → List A → Type 0
  Among x [] = ⊥
  Among x (y ∷ ys) = (x ≡ y) ⊎ Among x ys

  pub Among-append_left : (x : A) (xs ys : List A) → Among x xs → Among x (xs ++ ys)
  Among-append_left x [] ys h = elim h [ ]
  Among-append_left x (y ∷ xs) ys (inl e) = inl e
  Among-append_left x (y ∷ xs) ys (inr h) = inr (Among-append_left x xs ys h)

  pub Among-append_right : (x : A) (xs ys : List A) → Among x ys → Among x (xs ++ ys)
  Among-append_right x [] ys h = h
  Among-append_right x (y ∷ xs) ys h = inr (Among-append_right x xs ys h)

  pub Among-append : (x : A) (xs ys : List A) → Among x (xs ++ ys) → Among x xs ⊎ Among x ys
  Among-append x [] ys h = inr h
  Among-append x (y ∷ xs) ys (inl e) = inl (inl e)
  Among-append x (y ∷ xs) ys (inr h) = elim (Among-append x xs ys h) [
    | inl a ↦ inl (inr a)
    | inr a ↦ inr a
  ]

  -- `sort.Slice` and `sort.Strings`, by insertion: what `less` does not tell apart keeps its order
  unfoldable pub place : (A → A → Bool) → A → List A → List A
  place less x [] = x ∷ []
  place less x (y ∷ ys) = let rest = place less x ys in if less y x then y ∷ rest else x ∷ y ∷ ys

  unfoldable pub sort : (A → A → Bool) → List A → List A
  unfolding place
  sort less [] = []
  sort less (x ∷ xs) = place less x (sort less xs)

  Among-place :
      (less : A → A → Bool) (q x : A) (xs : List A)
      → Among q (place less x xs)
      → (q ≡ x) ⊎ Among q xs
  unfolding place
  Among-place less q x [] = λ h. h
  Among-place less q x (y ∷ ys) = elim (Bool-cases (less y x)) [
    | inl e ↦ rw e (λ h. elim h [
      | inl p ↦ inr (inl p)
      | inr rest ↦ elim (Among-place less q x ys rest) [ inl p ↦ inl p | inr r ↦ inr (inr r) ]
    ])
    | inr e ↦ rw e (λ h. h)
  ]

  Among-place_new :
      (less : A → A → Bool) (q x : A) (xs : List A)
      → (q ≡ x) ⊎ Among q xs
      → Among q (place less x xs)
  unfolding place
  Among-place_new less q x [] h = h
  Among-place_new less q x (y ∷ ys) h = elim (Bool-cases (less y x)) [
    | inl e ↦ rw e (elim h [
      | inl p ↦ inr (Among-place_new less q x ys (inl p))
      | inr (inl p) ↦ inl p
      | inr (inr r) ↦ inr (Among-place_new less q x ys (inr r))
    ])
    | inr e ↦ rw e h
  ]

  -- Sorting loses nothing and adds nothing.
  pub Among-sort : (less : A → A → Bool) (q : A) (xs : List A) → Among q (sort less xs) → Among q xs
  unfolding sort
  Among-sort less q [] h = h
  Among-sort less q (x ∷ xs) h = elim (Among-place less q x (sort less xs) h) [
    | inl p ↦ inl p
    | inr r ↦ inr (Among-sort less q xs r)
  ]

  pub Among-sorted :
      (less : A → A → Bool) (q : A) (xs : List A) → Among q xs → Among q (sort less xs)
  unfolding sort
  Among-sorted less q [] h = h
  Among-sorted less q (x ∷ xs) (inl p) = Among-place_new less q x (sort less xs) (inl p)
  Among-sorted less q (x ∷ xs) (inr r) =
      Among-place_new less q x (sort less xs) (inr (Among-sorted less q xs r))

module _ {A B : Type 0} where
  -- `for _, x := range xs { s = f(x, s) }`
  unfoldable pub for_each : (A → B → B) → List A → B → B
  for_each f [] s = s
  for_each f (x ∷ xs) s = for_each f xs (f x s)

  -- What each round keeps, the loop keeps.
  pub for_each_induction :
      (P : B → Type 0) (f : A → B → B) (xs : List A) (s : B)
      → ((x : A) (t : B) → Among x xs → P t → P (f x t))
      → P s
      → P (for_each f xs s)
  unfolding for_each
  for_each_induction P f [] s step h = h
  for_each_induction P f (x ∷ xs) s step h =
      for_each_induction P f xs (f x s) (λ y t there. step y t (inr there)) (step x s (inl refl) h)

  -- What one round makes, and the later ones keep, holds after the loop.
  pub for_each_made :
      (P : B → Type 0) (f : A → B → B) (xs : List A) (s : B) (x : A)
      → Among x xs
      → ((t : B) → P (f x t))
      → ((y : A) (t : B) → P t → P (f y t))
      → P (for_each f xs s)
  unfolding for_each
  for_each_made P f [] s x h make keep = absurd h
  for_each_made P f (y ∷ xs) s x (inl same) make keep =
      for_each_induction P f xs (f y s) (λ z t there. keep z t)
        (subst (λ z. P (f z s)) same (make s))
  for_each_made P f (y ∷ xs) s x (inr h) make keep = for_each_made P f xs (f y s) x h make keep

  -- `for _, x := range xs { out = append(out, f(x)...) }`
  unfoldable pub append_each : (A → List B) → List A → List B → List B
  append_each f [] out = out
  append_each f (x ∷ xs) out = append_each f xs (out ++ f x)

  -- What such a loop collects was there, or comes from an element.
  pub Among-append_each :
      (f : A → List B) (b : B) (xs : List A) (out : List B)
      → Among b (append_each f xs out)
      → Among b out ⊎ ((a : A) × Among a xs × Among b (f a))
  unfolding append_each
  Among-append_each f b [] out h = inl h
  Among-append_each f b (x ∷ xs) out h = elim (Among-append_each f b xs (out ++ f x) h) [
    | inl old ↦ elim (Among-append b out (f x) old) [
      | inl before ↦ inl before
      | inr new ↦ inr (x, inl refl, new)
    ]
    | inr (a, there, new) ↦ inr (a, inr there, new)
  ]

  pub Among-append_each_old :
      (f : A → List B) (b : B) (xs : List A) (out : List B)
      → Among b out
      → Among b (append_each f xs out)
  unfolding append_each
  Among-append_each_old f b [] out h = h
  Among-append_each_old f b (x ∷ xs) out h =
      Among-append_each_old f b xs (out ++ f x) (Among-append_left b out (f x) h)

  pub Among-append_each_new :
      (f : A → List B) (a : A) (b : B) (xs : List A) (out : List B)
      → Among a xs
      → Among b (f a)
      → Among b (append_each f xs out)
  unfolding append_each
  Among-append_each_new f a b [] out h new = elim h [ ]
  Among-append_each_new f a b (x ∷ xs) out (inl e) new =
      Among-append_each_old f b xs (out ++ f x)
        (Among-append_right b out (f x) (subst (λ y. Among b (f y)) e new))
  Among-append_each_new f a b (x ∷ xs) out (inr h) new =
      Among-append_each_new f a b xs (out ++ f x) h new

module _ {A B : Type 0} where
  pub Among-map :
      (f : A → B) (b : B) (xs : List A) → Among b (map f xs) → (a : A) × Among a xs × (b ≡ f a)
  Among-map f b [] h = elim h [ ]
  Among-map f b (x ∷ xs) (inl e) = (x, inl refl, e)
  Among-map f b (x ∷ xs) (inr h) = let (a, there, e) = Among-map f b xs h in (a, inr there, e)

  pub Among-map_new : (f : A → B) (a : A) (xs : List A) → Among a xs → Among (f a) (map f xs)
  Among-map_new f a [] h = elim h [ ]
  Among-map_new f a (x ∷ xs) (inl e) = inl (ap f e)
  Among-map_new f a (x ∷ xs) (inr h) = inr (Among-map_new f a xs h)
