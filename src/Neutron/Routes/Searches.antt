-- ===== src/Neutron/Routes/Searches.antt =====
-- internal/neutron/resolve.go: the searches for a nexthop's subnet and for a route find what they look for.
use lachesis.Base.{
  ℕ, ◌≤◌, ◌≡◌, refl, String, true, Option, none, some, List, [], ◌∷◌, arith, Bool-cases,
  Option-cases, inl, inr, ltb, ◌==◌, not, ◌||◌,
}
use lachesis.Base.Text.{String-discrete}
use lachesis.Base.Among.{Among}
use lachesis.Base.GoMap.{get}
use lachesis.Trie.{Prefix}
use lachesis.Neutron.{NetPrefix, Netip, contains, Subnet, Route, Router}
use lachesis.Neutron.Topology.{ResolveIndex, anchor, at}
use lachesis.Neutron.Routes.{
  bits_of, supernet, supernet_of, keep_longer, longest_route, lpm_match_route,
}
use lachesis.Neutron.Routes.Reached.{Covers, IsAttached}

supernet_sound :
    (ip : Netip) (o : Option NetPrefix) (dst : Prefix) (p : NetPrefix)
    → supernet ip o dst ≡ some p
    → (o ≡ some p) × (bits_of p ≤ dst.bits) × (contains p dst.addr ≡ true)
unfolding supernet
supernet_sound ip none dst p e = cc
supernet_sound ip (some q) dst p e =
    elim (Bool-cases (ltb dst.bits (bits_of q) || not (contains q dst.addr))) [
      | inl narrow ↦ absurd (ground arith)
      | inr wide ↦ (ground arith, ground arith, ground arith)
    ]

module _ (ip : Netip) (destination : Prefix) where
  pub supernet_of-Covers :
      (cidr : String) (p : NetPrefix)
      → supernet_of ip cidr destination ≡ some p
      → Covers ip destination cidr
  unfolding supernet_of
  supernet_of-Covers cidr p e =
      let (parses, wide, holds) = supernet_sound ip (ip.parse_prefix cidr) destination p e in
      record { prefix = p; parses = parses; wide = wide; holds = holds }

  pub Covers-supernet_of :
      (cidr : String) (c : Covers ip destination cidr)
      → supernet_of ip cidr destination ≡ some c.prefix
  unfolding supernet_of supernet
  Covers-supernet_of cidr c = rw c.parses (ground (arith, c.wide, c.holds))

  -- A candidate of `lpmMatchRoute` is a route of the router, and covers the destination.
  module _ (next : Router) where
    abbrev IsCandidate : Option (Route × ℕ) → Type 0
    IsCandidate best =
        (r : Route) (bits : ℕ)
        → best ≡ some (r, bits)
        → Among r next.routes × Covers ip destination r.destination

    keep_longer-IsCandidate :
        (r : Route) (o : Option NetPrefix) (best : Option (Route × ℕ))
        → supernet_of ip r.destination destination ≡ o
        → Among r next.routes
        → IsCandidate best
        → IsCandidate (keep_longer ip r o best)
    keep_longer-IsCandidate r none best e here h = h
    keep_longer-IsCandidate r (some p) none e here h = λ x bits same.
        let own : r ≡ x = cc same in rw (← own) (here, supernet_of-Covers r.destination p e)
    keep_longer-IsCandidate r (some p) (some (b, n)) e here h =
        elim (Bool-cases (ltb n (bits_of p))) [
          | inl longer ↦ rw longer (λ x bits same.
              let own : r ≡ x = cc same in rw (← own) (here, supernet_of-Covers r.destination p e))
          | inr shorter ↦ rw shorter h
        ]

    longest_route-IsCandidate :
        (routes : List Route) (best : Option (Route × ℕ))
        → ((x : Route) → Among x routes → Among x next.routes)
        → IsCandidate best
        → IsCandidate (longest_route ip routes destination best)
    unfolding longest_route
    longest_route-IsCandidate [] best within h = h
    longest_route-IsCandidate (r ∷ routes) best within h =
        longest_route-IsCandidate routes
          (keep_longer ip r (supernet_of ip r.destination destination) best)
          (λ x there. within x (inr there))
          (keep_longer-IsCandidate r (supernet_of ip r.destination destination) best refl
            (within r (inl refl)) h)

    pub lpm_match_route-Covers :
        (r : Route)
        → lpm_match_route ip next.routes destination ≡ some r
        → Among r next.routes × Covers ip destination r.destination
    unfolding lpm_match_route
    lpm_match_route-Covers r e =
        elim (Option-cases (longest_route ip next.routes destination none)) [
          | inl absent ↦ cc (rw (absent, lpm_match_route) at e)
          | inr ((x, bits), found) ↦
              let own : x ≡ r = cc (rw (found, lpm_match_route) at e) in
              rw (← own) (
                longest_route-IsCandidate next.routes none (λ y there. there) (λ y n never. cc) x
                  bits found)
        ]

module _ (ip : Netip) (ri : ResolveIndex) (id : String) (nexthop : ℕ) (s : Subnet) where
  -- What `anchorSubnet` finds is a subnet of the router that holds the nexthop.
  pub anchor-IsAttached :
      (sids : List String)
      → ((x : String) → Among x sids → Among x (at ri.router_subnets id))
      → anchor ip ri sids nexthop ≡ some s
      → IsAttached ri id s
        × ((p : NetPrefix) × (ip.parse_prefix s.cidr ≡ some p) × (contains p nexthop ≡ true))
  unfolding anchor
  anchor-IsAttached [] within = λ e. cc e
  anchor-IsAttached (sid ∷ sids) within =
      let again = anchor-IsAttached sids (λ x there. within x (inr there)) in
      elim (Option-cases (get String-discrete ri.subnets sid)) [
        | inl absent ↦ rw (absent, anchor) again
        | inr (t, indexed) ↦ elim (Bool-cases (t.ip_version == 4)) [
          | inr other ↦ rw (indexed, other, anchor) again
          | inl ipv4 ↦ elim (Option-cases (ip.parse_prefix t.cidr)) [
            | inl bad ↦ rw (indexed, ipv4, bad, anchor) again
            | inr (p, parses) ↦ elim (Bool-cases (contains p nexthop)) [
              | inr outside ↦ rw (indexed, ipv4, parses, outside, anchor) again
              | inl holds ↦
                  rw (indexed, ipv4, parses, holds, anchor)
                    (λ e.
                      let own : t ≡ s = cc e in
                      rw (← own) (
                        record {
                          id = sid;
                          listed = within sid (inl refl);
                          indexed = indexed;
                          ipv4 = ground (arith, ipv4);
                        },
                        (p, parses, holds),
                      ))
            ]
          ]
        ]
      ]
