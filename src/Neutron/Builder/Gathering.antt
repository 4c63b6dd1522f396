-- ===== src/Neutron/Builder/Gathering.antt =====
-- internal/neutron/trie.go: the loops that collect prefixes without duplicates lose none and add none.
use mathlib.Core.Path.{subst}
use mathlib.Core.Logic.{if_neg}
use lachesis.Base.{◌≡◌, ◌≢◌, refl, sym, ap, ◌∙◌, Option, none, some, List, [], ◌∷◌, ◌⊎◌, inl, inr}
use lachesis.Base.Among.{Among, for_each, Among-append, Among-append_left, Among-append_right}
use lachesis.Base.GoMap.{get, get-put}
use lachesis.Trie.{Prefix, Prefix-discrete}
use lachesis.Neutron.Builder.{Collected, collect_as, collect, collect?}

-- Every prefix that is marked as seen is in the list.
abbrev pub IsCollected : Collected → Type 0
IsCollected c = (p : Prefix) → get Prefix-discrete c.seen p ≢ none → Among p c.out

-- A step that adds the prefixes with a property, and no others.
pub record Gathers (f : Collected → Collected) (P : Prefix → Type 0) : Type 0 where
  pub kept : (c : Collected) → IsCollected c → IsCollected (f c)
  pub old : (c : Collected) (p : Prefix) → Among p c.out → Among p (f c).out
  pub new : (c : Collected) (p : Prefix) → IsCollected c → P p → Among p (f c).out
  pub source : (c : Collected) (p : Prefix) → Among p (f c).out → Among p c.out ⊎ P p

pub skip-Gathers : (P : Prefix → Type 0) → ((p : Prefix) → ¬ P p) → Gathers (λ c. c) P
skip-Gathers P empty = record {
  kept = λ c h. h;
  old = λ c p h. h;
  new = λ c p h x. absurd (empty p x);
  source = λ c p h. inl h;
}

module _ (p : Prefix) (c : Collected) where
  collect_as-IsCollected :
      (found : Option (Unit {0})) → IsCollected c → IsCollected (collect_as p c found)
  unfolding collect_as
  collect_as-IsCollected none h q seen = elim (Prefix-discrete p q) [
    | yes same ↦ Among-append_right q c.out (p ∷ []) (inl (sym same))
    | no other ↦ Among-append_left q c.out (p ∷ []) (
        h q (λ absent. seen (
          get-put Prefix-discrete c.seen p q tt ∙ if_neg (Prefix-discrete p q) other _ _ ∙ absent)))
  ]
  collect_as-IsCollected (some u) h q seen = h q seen

  collect_as-old :
      (found : Option (Unit {0})) (q : Prefix) → Among q c.out → Among q (collect_as p c found).out
  unfolding collect_as
  collect_as-old none q h = Among-append_left q c.out (p ∷ []) h
  collect_as-old (some u) q h = h

  collect_as-new :
      (found : Option (Unit {0}))
      → get Prefix-discrete c.seen p ≡ found
      → IsCollected c
      → Among p (collect_as p c found).out
  unfolding collect_as
  collect_as-new none e h = Among-append_right p c.out (p ∷ []) (inl refl)
  collect_as-new (some u) e h = h p (λ absent. cc)

  collect_as-source :
      (found : Option (Unit {0})) (q : Prefix)
      → Among q (collect_as p c found).out
      → Among q c.out ⊎ (q ≡ p)
  unfolding collect_as
  collect_as-source none q h = elim (Among-append q c.out (p ∷ []) h) [
    | inl before ↦ inl before
    | inr (inl same) ↦ inr same
    | inr (inr none_left) ↦ absurd none_left
  ]
  collect_as-source (some u) q h = inl h

some_injective : {x y : Prefix} → some x ≡ some y → x ≡ y
some_injective e = cc

pub collect?-Gathers : (o : Option Prefix) → Gathers (collect? o) (λ p. o ≡ some p)
unfolding collect
collect?-Gathers none = skip-Gathers (λ p. none ≡ some p) (λ p e. cc)
collect?-Gathers (some p) = record {
  kept = λ c h. collect_as-IsCollected p c (get Prefix-discrete c.seen p) h;
  old = λ c q h. collect_as-old p c (get Prefix-discrete c.seen p) q h;
  new = λ c q h e.
      subst (λ x. Among x (collect p c).out) (some_injective e)
        (collect_as-new p c (get Prefix-discrete c.seen p) refl h);
  source = λ c q h. elim (collect_as-source p c (get Prefix-discrete c.seen p) q h) [
    | inl before ↦ inl before
    | inr same ↦ inr (ap some (sym same))
  ];
}

for_each_new :
    {A : Type 0} (f : A → Collected → Collected) (P : A → Prefix → Type 0)
    → ((a : A) → Gathers (f a) (P a))
    → (xs : List A) → Gathers (for_each f xs) (λ p. (a : A) × Among a xs × P a p)
    → (x : A) (c : Collected) (p : Prefix) → IsCollected c
    → (a : A) → (a ≡ x) ⊎ Among a xs
    → P a p
    → Among p (for_each f xs (f x c)).out
for_each_new f P each xs rest x c p h a (inl same) fits =
    rest.old (f x c) p ((each x).new c p h (subst (λ y. P y p) same fits))
for_each_new f P each xs rest x c p h a (inr there) fits =
    rest.new (f x c) p ((each x).kept c h) (a, there, fits)

-- A loop gathers what its rounds gather.
pub for_each-Gathers :
    {A : Type 0} (f : A → Collected → Collected) (P : A → Prefix → Type 0)
    → ((a : A) → Gathers (f a) (P a))
    → (xs : List A) → Gathers (for_each f xs) (λ p. (a : A) × Among a xs × P a p)
unfolding for_each
for_each-Gathers {A} f P each [] = skip-Gathers (λ p. (a : A) × ⊥ × P a p) (λ p h. h.1)
for_each-Gathers {A} f P each (x ∷ xs) =
    let rest = for_each-Gathers f P each xs in
    record {
      kept = λ c h. rest.kept (f x c) ((each x).kept c h);
      old = λ c p h. rest.old (f x c) p ((each x).old c p h);
      new = λ c p h found. for_each_new f P each xs rest x c p h found.0 found.1 found.2;
      source = λ c p h. elim (rest.source (f x c) p h) [
        | inl now ↦ elim ((each x).source c p now) [
          | inl before ↦ inl before
          | inr here ↦ inr (x, inl refl, here)
        ]
        | inr (a, there, fits) ↦ inr (a, inr there, fits)
      ];
    }
