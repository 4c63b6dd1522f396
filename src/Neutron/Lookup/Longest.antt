-- ===== src/Neutron/Lookup/Longest.antt =====
-- internal/neutron/lookup.go: the entry that `LookupZone` finds is the longest one of its pass.
use mathlib.Core.Path.{subst}
use text.Mathlib.Text.{◌==◌ as str_eq}
use text.Mathlib.TextEquality.{eq_iff}
use lachesis.Base.{
  ℕ, ◌≤◌, ◌≡◌, ◌≢◌, refl, sym, ap, String, true, not, Option, none, some, List, [], ◌∷◌, arith, ltb,
  if◌then◌else◌, Bool-cases, Option-cases, ◌⊎◌, inl, inr,
}
use lachesis.Base.Among.{Among}
use lachesis.Trie.{TrieEntry}
use lachesis.Neutron.{Addr}
use lachesis.Neutron.Lookup.{
  holds, longer, longest, longest_prefix_for_tenant, Pass, tenant, global, global_zone, lookup_zone,
}

-- The row is one of the tenant's, and its prefix contains the address.
pub record Matches (ip : Addr) (id : String) (e : TrieEntry) : Type 0 where
  pub own : e.tenant_id ≡ id
  pub inside : holds e.prefix ip ≡ true

-- The row is the longest of those of the tenant that contain the address.
pub record IsLongest (ip : Addr) (id : String) (entries : List TrieEntry) (b : TrieEntry)
    : Type 0 where
  pub there : Among b entries
  pub fits : Matches ip id b
  pub most : (e : TrieEntry) → Among e entries → Matches ip id e → e.prefix.bits ≤ b.prefix.bits

-- No row of the tenant contains the address.
abbrev pub IsUnmatched : Addr → String → List TrieEntry → Type 0
IsUnmatched ip id entries = (e : TrieEntry) → Among e entries → ¬ Matches ip id e

abbrev AtMost : Option TrieEntry → ℕ → Type 0
AtMost none n = ⊥
AtMost (some b) n = n ≤ b.prefix.bits

module _ (ip : Addr) (id : String) where
  -- One round of the loop.
  abbrev step : TrieEntry → Option TrieEntry → Option TrieEntry
  step e best =
      if not (str_eq e.tenant_id id)
      then best
      else if not (holds e.prefix ip)
      then best
      else longer e best

  step-AtMost :
      (e : TrieEntry) (best : Option TrieEntry) (n : ℕ) → AtMost best n → AtMost (step e best) n
  step-AtMost e none n h = elim h [ ]
  step-AtMost e (some b) n h = ground arith

  step-new :
      (e : TrieEntry) (best : Option TrieEntry)
      → Matches ip id e
      → AtMost (step e best) e.prefix.bits
  step-new e none m = rw ((eq_iff e.tenant_id id).1 m.own, m.inside, AtMost) (omega arith)
  step-new e (some b) m = ground (arith, (eq_iff e.tenant_id id).1 m.own, m.inside)

  step-source :
      (e : TrieEntry) (best : Option TrieEntry) (b : TrieEntry)
      → step e best ≡ some b
      → (best ≡ some b) ⊎ ((b ≡ e) × Matches ip id e)
  step-source e best b h = elim (Bool-cases (str_eq e.tenant_id id)) [
    | inl own ↦ elim (Bool-cases (holds e.prefix ip)) [
      | inl inside ↦
          let m : Matches ip id e = record {
            own = (eq_iff e.tenant_id id).0 own;
            inside = inside;
          } in
          longer_source e best b m (rw (own, inside) at h)
      | inr outside ↦ inl (rw (own, outside) at h)
    ]
    | inr other ↦ inl (rw other at h)
  ]
    where
      longer_source :
          (e : TrieEntry) (best : Option TrieEntry) (b : TrieEntry)
          → Matches ip id e
          → longer e best ≡ some b
          → (best ≡ some b) ⊎ ((b ≡ e) × Matches ip id e)
      longer_source e none b m h = inr (cc, m)
      longer_source e (some x) b m h = elim (Bool-cases (ltb x.prefix.bits e.prefix.bits)) [
        | inl lt ↦ inr (ground arith, m)
        | inr ge ↦ inl (ground arith)
      ]

  longest-AtMost :
      (entries : List TrieEntry) (best : Option TrieEntry) (n : ℕ)
      → AtMost best n
      → AtMost (longest ip id entries best) n
  unfolding longest
  longest-AtMost [] best n h = h
  longest-AtMost (e ∷ entries) best n h =
      longest-AtMost entries (step e best) n (step-AtMost e best n h)

  longest-new :
      (entries : List TrieEntry) (best : Option TrieEntry) (e : TrieEntry)
      → Among e entries
      → Matches ip id e
      → AtMost (longest ip id entries best) e.prefix.bits
  unfolding longest
  longest-new [] best e h m = elim h [ ]
  longest-new (x ∷ entries) best e (inl same) m =
      rw (ap (λ (y : TrieEntry). y.prefix.bits) same)
        (longest-AtMost entries (step x best) x.prefix.bits (step-new x best (rw same at m)))
  longest-new (x ∷ entries) best e (inr h) m = longest-new entries (step x best) e h m

  longest-source :
      (entries : List TrieEntry) (best : Option TrieEntry) (b : TrieEntry)
      → longest ip id entries best ≡ some b
      → (best ≡ some b) ⊎ (Among b entries × Matches ip id b)
  unfolding longest
  longest-source [] best b h = inl h
  longest-source (e ∷ entries) best b h = elim (longest-source entries (step e best) b h) [
    | inl now ↦ elim (step-source e best b now) [
      | inl before ↦ inl before
      | inr (same, m) ↦ inr (inl same, subst (Matches ip id) (sym same) m)
    ]
    | inr (there, m) ↦ inr (inr there, m)
  ]

  longest_prefix_for_tenant-IsLongest :
      (entries : List TrieEntry) (b : TrieEntry)
      → longest_prefix_for_tenant entries ip id ≡ some b
      → IsLongest ip id entries b
  unfolding longest_prefix_for_tenant
  longest_prefix_for_tenant-IsLongest entries b h = elim (longest-source entries none b h) [
    | inl impossible ↦ cc
    | inr (there, fits) ↦ record {
      there = there;
      fits = fits;
      most =
          λ e among m. subst (λ o. AtMost o e.prefix.bits) h (longest-new entries none e among m);
    }
  ]

  longest_prefix_for_tenant-IsUnmatched :
      (entries : List TrieEntry)
      → longest_prefix_for_tenant entries ip id ≡ none
      → IsUnmatched ip id entries
  unfolding longest_prefix_for_tenant
  longest_prefix_for_tenant-IsUnmatched entries h e among m =
      subst (λ o. AtMost o e.prefix.bits) h (longest-new entries none e among m)

-- What a look-up says of the rows.
abbrev pub IsZone : List TrieEntry → Addr → String → Option (TrieEntry × Pass) → Type 0
IsZone entries ip id none = IsUnmatched ip id entries × IsUnmatched ip "" entries
IsZone entries ip id (some (e, tenant)) = (id ≢ "") × IsLongest ip id entries e
IsZone entries ip id (some (e, global)) =
    ((id ≡ "") ⊎ IsUnmatched ip id entries) × IsLongest ip "" entries e

global_zone-IsZone :
    (entries : List TrieEntry) (ip : Addr) (id : String)
    → (id ≡ "") ⊎ IsUnmatched ip id entries
    → (found : Option TrieEntry) → longest_prefix_for_tenant entries ip "" ≡ found
    → IsZone entries ip id (global_zone found)
global_zone-IsZone entries ip id (inl empty) none h =
    let nobody = longest_prefix_for_tenant-IsUnmatched ip "" entries h in
    (subst (λ t. IsUnmatched ip t entries) (sym empty) nobody, nobody)
global_zone-IsZone entries ip id (inr nobody) none h =
    (nobody, longest_prefix_for_tenant-IsUnmatched ip "" entries h)
global_zone-IsZone entries ip id own (some b) h =
    (own, longest_prefix_for_tenant-IsLongest ip "" entries b h)

-- The look-up of an address for a tenant finds, of the tenant's rows that contain the address, one with
-- the longest prefix; where there is none, or no tenant is given, it finds such a row among the global
-- ones; and where none of these contains it either, it finds nothing.
pub lookup_zone-IsZone :
    (entries : List TrieEntry) (ip : Addr) (id : String)
    → IsZone entries ip id (lookup_zone entries ip id)
unfolding lookup_zone
lookup_zone-IsZone entries ip id = elim (Bool-cases (str_eq id "")) [
  | inl empty ↦
      rw (empty, IsZone)
        (global_zone-IsZone entries ip id (inl ((eq_iff id "").0 empty))
          (longest_prefix_for_tenant entries ip "") refl)
  | inr named ↦ elim (Option-cases (longest_prefix_for_tenant entries ip id)) [
    | inl miss ↦
        rw (named, miss, IsZone)
          (global_zone-IsZone entries ip id
            (inr (longest_prefix_for_tenant-IsUnmatched ip id entries miss))
            (longest_prefix_for_tenant entries ip "") refl)
    | inr (b, found) ↦
        rw (named, found, IsZone)
          (
            λ e. absurd (ground (arith, eq_iff id "")),
            longest_prefix_for_tenant-IsLongest ip id entries b found,
          )
  ]
]
