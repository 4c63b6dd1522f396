-- ===== src/Neutron/Lookup/Found.antt =====
-- internal/neutron/lookup.go on the rows of internal/neutron/trie.go: a healthy trie answers.
use mathlib.Core.Path.{subst}
use lachesis.Base.{
  ℕ, ◌<◌, ◌^◌, ◌≡◌, refl, String, true, none, some, List, arith, Option-cases, inl, inr,
}
use lachesis.Base.Among.{Among}
use lachesis.Bpf.{zone_external}
use lachesis.Trie.{TrieEntry}
use lachesis.Neutron.{v4, Netip, Snapshot, catchall, contains_v4}
use lachesis.Neutron.Builder.{build_trie}
use lachesis.Neutron.Builder.Tenants.{IsTenant}
use lachesis.Neutron.Builder.Rows.{IsRow, row, everything}
use lachesis.Neutron.Builder.Rows.Sound.{build_trie-IsRow}
use lachesis.Neutron.Builder.Rows.Complete.{IsRow-build_trie}
use lachesis.Neutron.Lookup.{holds, Pass, tenant, global, lookup_zone}
use lachesis.Neutron.Lookup.Longest.{IsZone, lookup_zone-IsZone}

catchall-contains : (a : ℕ) → a < 2 ^ 32 → holds catchall (v4 a) ≡ true
unfolding holds contains_v4
catchall-contains a h = ground arith

-- The row that a look-up found is among the rows.
found-Among :
    (entries : List TrieEntry) (a : ℕ) (id : String) (e : TrieEntry) (pass : Pass)
    → IsZone entries (v4 a) id (some (e, pass))
    → Among e entries
found-Among entries a id e tenant h = h.1.there
found-Among entries a id e global h = h.1.there

module _ (ip : Netip) (snap : Snapshot) (max_hops : ℕ) where
  -- If a tenant owns something in the snapshot, then the look-up of any IPv4 address, for any tenant or for
  -- none, finds a row of the built trie, and this row has its reason in the snapshot.
  pub lookup_zone-build_trie :
      (owner : String)
      → IsTenant snap owner
      → (a : ℕ) → a < 2 ^ 32
      → (id : String)
      → (e : TrieEntry) × (pass : Pass) × (lookup_zone
            (build_trie ip snap max_hops).entries
            (v4 a)
            id
          ≡ some (e, pass))
        × IsRow ip snap max_hops e
  lookup_zone-build_trie owner owns a bound id =
      let entries = (build_trie ip snap max_hops).entries in
      elim (Option-cases (lookup_zone entries (v4 a) id)) [
        | inl miss ↦
            let nothing : IsZone entries (v4 a) id none =
              subst (IsZone entries (v4 a) id) miss (lookup_zone-IsZone entries (v4 a) id) in
            absurd (
              nothing.1 (row "" catchall zone_external)
                (IsRow-build_trie ip snap max_hops (row "" catchall zone_external)
                  (everything owner owns refl))
                (record { own = refl; inside = catchall-contains a bound }))
        | inr ((e, pass), found) ↦
            let h : IsZone entries (v4 a) id (some (e, pass)) =
              subst (IsZone entries (v4 a) id) found (lookup_zone-IsZone entries (v4 a) id) in
            (
              e,
              pass,
              found,
              build_trie-IsRow ip snap max_hops e (found-Among entries a id e pass h),
            )
      ]
