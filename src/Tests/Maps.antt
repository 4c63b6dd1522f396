-- ===== src/Tests/Maps.antt =====
-- The theorems on the metadata map and the tenants' numbers, at small maps.
use lachesis.Base.{ℕ, ◌≡◌, ◌≢◌, arith, String, some}
use lachesis.Metadata.Interner
use lachesis.Metadata.Interner.{
  TenantInterner, intern, IsInterner, intern-IsInterner, intern_lem, new-IsInterner, reverse,
}

abbrev project : String
project = "red"

abbrev no_project : String
no_project = ""

red-not_empty : project ≢ no_project
red-not_empty e = cc

intern_lem_example :
    (Interner.lookup (intern Interner.new "red").1 "red" ≡ some (intern Interner.new "red").0)
    × (intern (intern Interner.new "red").1 "red" ≡ intern Interner.new "red")
    × (reverse (intern Interner.new "red").1 (intern Interner.new "red").0 ≡ some "red")
    × ((q : String) (id : ℕ)
        → Interner.lookup Interner.new q ≡ some id
        → Interner.lookup (intern Interner.new "red").1 q ≡ some id)
intern_lem_example = intern_lem Interner.new "red" (omega arith) new-IsInterner red-not_empty
