-- ===== src/Neutron/Builder/Rows/Exact.antt =====
-- internal/neutron/trie.go: the rows of the trie, exactly.
use lachesis.Base.{ℕ, ◌↔◌}
use lachesis.Base.Among.{Among}
use lachesis.Trie.{TrieEntry}
use lachesis.Neutron.{Netip, Snapshot}
use lachesis.Neutron.Builder.{build_trie}
use lachesis.Neutron.Builder.Rows.{IsRow}
use lachesis.Neutron.Builder.Rows.Sound.{build_trie-IsRow}
use lachesis.Neutron.Builder.Rows.Complete.{IsRow-build_trie}

-- A row is in the trie exactly if the snapshot gives a reason for it. If a tenant owns something, the
-- reasons for everybody are the catch-all, EXTERNAL; each IPv4 subnet of a network that is shared and not
-- external, SHARED; and each IPv4 address of an infrastructure port, each IPv4 gateway and the metadata
-- service, INFRA. The reasons for one tenant are each IPv4 subnet of a network that it owns and that is
-- neither shared nor external, SAME_TENANT, and each IPv4 static route of a router that it owns, with the
-- zone that the resolver returns.
pub Among-build_trie :
    (ip : Netip) (snap : Snapshot) (max_hops : ℕ) (e : TrieEntry)
    → Among e (build_trie ip snap max_hops).entries ↔ IsRow ip snap max_hops e
Among-build_trie ip snap max_hops e =
    (build_trie-IsRow ip snap max_hops e, IsRow-build_trie ip snap max_hops e)
