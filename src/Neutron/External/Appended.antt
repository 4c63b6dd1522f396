-- ===== src/Neutron/External/Appended.antt =====
-- internal/neutron/externalnet.go: what the loops that append at a key collect there.
use mathlib.Core.Path.{subst}
use mathlib.Core.Logic.{ite, if_pos, if_neg}
use lachesis.Base.{◌≡◌, refl, sym, ◌∙◌, String, List, [], ◌∷◌, ◌++◌, arith, ◌⊎◌, inl, inr}
use lachesis.Base.Text.{String-discrete}
use lachesis.Base.Among.{Among, for_each, Among-append, Among-append_left, Among-append_right}
use lachesis.Base.GoMap.{GoMap, get-put}
use lachesis.Neutron.Topology.{at}
use lachesis.Neutron.External.{append_at, append_rows}

abbrev Lists : Type 0
Lists = GoMap String (List String)

at-append_at :
    (k v : String) (m : Lists) (q : String)
    → at (append_at (k, v) m) q ≡ ite (String-discrete k q) (at m k ++ (v ∷ [])) (at m q)
unfolding append_at
at-append_at k v m q = ground (arith, get-put String-discrete m k q (at m k ++ (v ∷ [])))

append_at_sound :
    (row : String × String) (m : Lists) (q l : String)
    → Among l (at (append_at row m) q)
    → Among l (at m q) ⊎ (row ≡ (q, l))
append_at_sound (k, v) m q l h = elim (String-discrete k q) [
  | yes own ↦
      elim (Among-append l (at m k) (v ∷ [])
        (subst (Among l) (at-append_at k v m q ∙ if_pos (String-discrete k q) own _ _) h)) [
          | inl before ↦ inl (subst (λ x. Among l (at m x)) own before)
          | inr (inl same) ↦ inr (cc (own, same))
          | inr (inr never) ↦ absurd never
        ]
  | no other ↦
      inl (subst (Among l) (at-append_at k v m q ∙ if_neg (String-discrete k q) other _ _) h)
]

append_at-old :
    (row : String × String) (m : Lists) (q l : String)
    → Among l (at m q)
    → Among l (at (append_at row m) q)
append_at-old (k, v) m q l h = elim (String-discrete k q) [
  | yes own ↦
      subst (Among l) (sym (at-append_at k v m q ∙ if_pos (String-discrete k q) own _ _))
        (Among-append_left l (at m k) (v ∷ []) (subst (λ x. Among l (at m x)) (sym own) h))
  | no other ↦
      subst (Among l) (sym (at-append_at k v m q ∙ if_neg (String-discrete k q) other _ _)) h
]

append_at-new : (m : Lists) (q l : String) → Among l (at (append_at (q, l) m) q)
append_at-new m q l =
    subst (Among l) (sym (at-append_at q l m q ∙ if_pos (String-discrete q q) refl _ _))
      (Among-append_right l (at m q) (l ∷ []) (inl refl))

-- The inner loop.
append_each_at-sound :
    (rows : List (String × String)) (m : Lists) (q l : String)
    → Among l (at (for_each append_at rows m) q)
    → Among l (at m q) ⊎ Among (q, l) rows
unfolding for_each
append_each_at-sound [] m q l h = inl h
append_each_at-sound (row ∷ rows) m q l h =
    elim (append_each_at-sound rows (append_at row m) q l h) [
      | inl now ↦ elim (append_at_sound row m q l now) [
        | inl before ↦ inl before
        | inr same ↦ inr (inl (sym same))
      ]
      | inr there ↦ inr (inr there)
    ]

append_each_at-old :
    (rows : List (String × String)) (m : Lists) (q l : String)
    → Among l (at m q)
    → Among l (at (for_each append_at rows m) q)
unfolding for_each
append_each_at-old [] m q l h = h
append_each_at-old (row ∷ rows) m q l h =
    append_each_at-old rows (append_at row m) q l (append_at-old row m q l h)

append_each_at-new :
    (rows : List (String × String)) (m : Lists) (q l : String)
    → Among (q, l) rows
    → Among l (at (for_each append_at rows m) q)
unfolding for_each
append_each_at-new [] m q l h = absurd h
append_each_at-new (row ∷ rows) m q l (inl same) =
    append_each_at-old rows (append_at row m) q l
      (subst (λ r. Among l (at (append_at r m) q)) same (append_at-new m q l))
append_each_at-new (row ∷ rows) m q l (inr h) = append_each_at-new rows (append_at row m) q l h

module _ {A : Type 0} (rows : A → List (String × String)) where
  -- What stands at a key was there, or some element gave it.
  pub append_rows-sound :
      (xs : List A) (m : Lists) (q l : String)
      → Among l (at (append_rows rows xs m) q)
      → Among l (at m q) ⊎ ((x : A) × Among x xs × Among (q, l) (rows x))
  unfolding append_rows for_each
  append_rows-sound [] m q l h = inl h
  append_rows-sound (x ∷ xs) m q l h =
      elim (append_rows-sound xs (for_each append_at (rows x) m) q l h) [
        | inl now ↦ elim (append_each_at-sound (rows x) m q l now) [
          | inl before ↦ inl before
          | inr given ↦ inr (x, inl refl, given)
        ]
        | inr (y, there, given) ↦ inr (y, inr there, given)
      ]

  append_rows-old :
      (xs : List A) (m : Lists) (q l : String)
      → Among l (at m q)
      → Among l (at (append_rows rows xs m) q)
  unfolding append_rows for_each
  append_rows-old [] m q l h = h
  append_rows-old (x ∷ xs) m q l h =
      append_rows-old xs (for_each append_at (rows x) m) q l (append_each_at-old (rows x) m q l h)

  pub append_rows-new :
      (xs : List A) (m : Lists) (x : A) (q l : String)
      → Among x xs
      → Among (q, l) (rows x)
      → Among l (at (append_rows rows xs m) q)
  unfolding append_rows for_each
  append_rows-new [] m x q l h given = absurd h
  append_rows-new (y ∷ xs) m x q l (inl same) given =
      append_rows-old xs (for_each append_at (rows y) m) q l
        (append_each_at-new (rows y) m q l (subst (λ z. Among (q, l) (rows z)) same given))
  append_rows-new (y ∷ xs) m x q l (inr h) given =
      append_rows-new xs (for_each append_at (rows y) m) x q l h given
