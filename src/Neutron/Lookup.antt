-- ===== src/Neutron/Lookup.antt =====
-- internal/neutron/lookup.go: the zone of an address for a tenant, as the kernel looks it up.
pub mod Longest
pub mod Found
use text.Mathlib.Text.{◌==◌ as str_eq}
use lachesis.Base.{
  ℕ, String, Bool, true, false, not, Option, none, some, List, [], ◌∷◌, ltb, if◌then◌else◌,
}
use lachesis.Trie.{Prefix, TrieEntry}
use lachesis.Neutron.{Addr, v4, v6, contains_v4}

-- `Prefix.Contains` of an IPv4 prefix
unfoldable pub holds : Prefix → Addr → Bool
unfolding contains_v4
holds p (v4 ip) = contains_v4 p ip
holds p (v6 ip) = false

-- `if e.Prefix.Bits() > bestBits`; without a best entry, `bestBits` is -1
abbrev pub longer : TrieEntry → Option TrieEntry → Option TrieEntry
longer e none = some e
longer e (some best) = if ltb best.prefix.bits e.prefix.bits then some e else some best

-- The loop of `longestPrefixForTenant`
unfoldable pub longest : Addr → String → List TrieEntry → Option TrieEntry → Option TrieEntry
unfolding holds
longest ip tenant [] best = best
longest ip tenant (e ∷ entries) best = longest ip tenant entries (
    if not (str_eq e.tenant_id tenant)
    then best
    else if not (holds e.prefix ip)
    then best
    else longer e best)

-- `longestPrefixForTenant`
unfoldable pub longest_prefix_for_tenant : List TrieEntry → Addr → String → Option TrieEntry
unfolding longest
longest_prefix_for_tenant entries ip tenant = longest ip tenant entries none

-- Which pass of `LookupZone` matched.
pub data Pass : Type 0 where
  tenant global : Pass

abbrev pub global_zone : Option TrieEntry → Option (TrieEntry × Pass)
global_zone none = none
global_zone (some hit) = some (hit, global)

-- `LookupZone`; the text that names the pass is a constructor
unfoldable pub lookup_zone : List TrieEntry → Addr → String → Option (TrieEntry × Pass)
unfolding longest_prefix_for_tenant
lookup_zone entries ip id =
    let everyone = global_zone (longest_prefix_for_tenant entries ip "") in
    if not (str_eq id "")
    then elim (longest_prefix_for_tenant entries ip id) [
      | none ↦ everyone
      | some hit ↦ some (hit, tenant)
    ]
    else everyone
