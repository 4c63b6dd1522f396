-- ===== src/Neutron/Routes/Matches.antt =====
-- internal/neutron/resolve.go: what `resolveAtNextRouter` finds behind a router.
use text.Mathlib.Text.{◌==◌ as str_eq}
use text.Mathlib.TextEquality.{eq_iff}
use lachesis.Base.{
  ◌≡◌, refl, String, true, false, Option, none, some, List, [], ◌∷◌, arith, Bool-cases,
  Option-cases, inl, inr, ltb, ◌==◌, not, ◌||◌,
}
use lachesis.Base.Text.{String-discrete}
use lachesis.Base.Among.{Among, Among-append_left, Among-append_right}
use lachesis.Base.GoMap.{get, length}
use lachesis.Trie.{Prefix}
use lachesis.Neutron.{Netip, Network, Subnet, Router}
use lachesis.Neutron.Topology.{ResolveIndex, at}
use lachesis.Neutron.Routes.{
  Matched, supernet_of, contains_string, add_match, visit_subnet, visit_subnets,
}
use lachesis.Neutron.Routes.Reached.{IsMatch}
use lachesis.Neutron.Routes.Searches.{supernet_of-Covers, Covers-supernet_of}

-- What the loop of `resolveAtNextRouter` has found: the first network is of a match, and its owner is listed.
module _ (ip : Netip) (ri : ResolveIndex) (next : Router) (entered : Subnet)
    (destination : Prefix) where
  pub record IsFound (c : Matched) : Type 0 where
    pub first :
        (n : Network)
        → c.first ≡ some n
        → ((s : Subnet) × IsMatch ip ri next entered destination s n) × Among n.project_id c.owners

  contains_string-Among : (xs : List String) (v : String) → contains_string xs v ≡ true → Among v xs
  unfolding contains_string
  contains_string-Among [] v e = cc
  contains_string-Among (x ∷ xs) v e = elim (Bool-cases (str_eq x v)) [
    | inl same ↦ inl ((eq_iff v x).0 (cc ((eq_iff x v).0 same, (eq_iff v v).1 refl)))
    | inr other ↦ inr (contains_string-Among xs v (rw other at e))
  ]

  owners-add_match :
      (n : Network) (c : Matched) (v : String) → Among v c.owners → Among v (add_match n c).owners
  unfolding add_match
  owners-add_match n c v h = elim (Bool-cases (contains_string c.owners n.project_id)) [
    | inl old ↦ rw old h
    | inr new ↦ rw new (Among-append_left v c.owners (n.project_id ∷ []) h)
  ]

  add_match-listed : (n : Network) (c : Matched) → Among n.project_id (add_match n c).owners
  unfolding add_match
  add_match-listed n c = elim (Bool-cases (contains_string c.owners n.project_id)) [
    | inl old ↦ rw old (contains_string-Among c.owners n.project_id old)
    | inr new ↦ rw new (Among-append_right n.project_id c.owners (n.project_id ∷ []) (inl refl))
  ]

  add_match-IsFound :
      (s : Subnet) (n : Network) (c : Matched)
      → IsMatch ip ri next entered destination s n
      → IsFound c
      → IsFound (add_match n c)
  unfolding add_match
  add_match-IsFound s n c here h = record {
    first = λ m e. elim (Option-cases c.first) [
      | inl new ↦ let own : n ≡ m = cc (rw new at e) in rw (← own) ((s, here), add_match-listed n c)
      | inr (old, e') ↦
          let own : old ≡ m = cc (rw e' at e) in
          let (found, listed) = h.first old e' in
          rw (← own) (found, owners-add_match n c old.project_id listed)
    ];
  }

  visit_subnet-IsFound :
      (sid : String) (found : Option Subnet) (c : Matched)
      → get String-discrete ri.subnets sid ≡ found
      → Among sid (at ri.router_subnets next.id)
      → IsFound c
      → IsFound (visit_subnet ip ri entered destination found c)
  unfolding visit_subnet
  visit_subnet-IsFound sid none c indexed listed h = h
  visit_subnet-IsFound sid (some s) c indexed listed h =
      elim (Bool-cases (not (s.ip_version == 4) || str_eq s.network_id entered.network_id)) [
        | inl skip ↦ rw skip h
        | inr kept ↦ elim (Option-cases (supernet_of ip s.cidr destination)) [
          | inl e ↦ rw (kept, e) h
          | inr (p, e) ↦ elim (Option-cases (get String-discrete ri.networks s.network_id)) [
            | inl e' ↦ rw (kept, e, e') h
            | inr (n, e') ↦
                rw (kept, e, e')
                  (add_match-IsFound s n c
                    (record {
                      attached = record {
                        id = sid;
                        listed = listed;
                        indexed = indexed;
                        ipv4 = ground arith;
                      };
                      apart = λ same. ground (arith, eq_iff s.network_id entered.network_id);
                      covers = supernet_of-Covers ip destination s.cidr p e;
                      indexed = e';
                    })
                    h)
          ]
        ]
      ]

  visit_subnets-IsFound :
      (sids : List String) (c : Matched)
      → ((x : String) → Among x sids → Among x (at ri.router_subnets next.id))
      → IsFound c
      → IsFound (visit_subnets ip ri entered destination sids c)
  unfolding visit_subnets
  visit_subnets-IsFound [] c within h = h
  visit_subnets-IsFound (sid ∷ sids) c within h =
      visit_subnets-IsFound sids
        (visit_subnet ip ri entered destination (get String-discrete ri.subnets sid) c)
        (λ x there. within x (inr there))
        (visit_subnet-IsFound sid (get String-discrete ri.subnets sid) c refl
          (within sid (inl refl)) h)

  -- A listed owner stays listed, and the owner of every match is listed.
  owners-visit_subnet :
      (found : Option Subnet) (c : Matched) (v : String)
      → Among v c.owners
      → Among v (visit_subnet ip ri entered destination found c).owners
  unfolding visit_subnet
  owners-visit_subnet none c v h = h
  owners-visit_subnet (some s) c v h =
      elim (Bool-cases (not (s.ip_version == 4) || str_eq s.network_id entered.network_id)) [
        | inl skip ↦ rw skip h
        | inr kept ↦ elim (Option-cases (supernet_of ip s.cidr destination)) [
          | inl e ↦ rw (kept, e) h
          | inr (p, e) ↦ elim (Option-cases (get String-discrete ri.networks s.network_id)) [
            | inl e' ↦ rw (kept, e, e') h
            | inr (n, e') ↦ rw (kept, e, e') (owners-add_match n c v h)
          ]
        ]
      ]

  owners-visit_subnets :
      (sids : List String) (c : Matched) (v : String)
      → Among v c.owners
      → Among v (visit_subnets ip ri entered destination sids c).owners
  unfolding visit_subnets
  owners-visit_subnets [] c v h = h
  owners-visit_subnets (sid ∷ sids) c v h =
      owners-visit_subnets sids
        (visit_subnet ip ri entered destination (get String-discrete ri.subnets sid) c) v
        (owners-visit_subnet (get String-discrete ri.subnets sid) c v h)

  visit_subnet-listed :
      (s : Subnet) (n : Network) (c : Matched)
      → IsMatch ip ri next entered destination s n
      → Among n.project_id (visit_subnet ip ri entered destination (some s) c).owners
  unfolding visit_subnet
  visit_subnet-listed s n c h =
      let kept : (not (s.ip_version == 4) || str_eq s.network_id entered.network_id) ≡ false =
        ground (arith, h.attached.ipv4, h.apart, eq_iff s.network_id entered.network_id) in
      rw (kept, Covers-supernet_of ip destination s.cidr h.covers, h.indexed) (add_match-listed n c)

  visit_subnets-listed :
      (sids : List String) (s : Subnet) (n : Network) (c : Matched)
      → (h : IsMatch ip ri next entered destination s n) → Among h.attached.id sids
      → Among n.project_id (visit_subnets ip ri entered destination sids c).owners
  unfolding visit_subnets
  visit_subnets-listed [] s n c h there = absurd there
  visit_subnets-listed (sid ∷ sids) s n c h (inl own) =
      owners-visit_subnets sids
        (visit_subnet ip ri entered destination (get String-discrete ri.subnets sid) c) n.project_id
        (rw (← own, h.attached.indexed) (visit_subnet-listed s n c h))
  visit_subnets-listed (sid ∷ sids) s n c h (inr there) =
      visit_subnets-listed sids s n
        (visit_subnet ip ri entered destination (get String-discrete ri.subnets sid) c) h there

  -- What the whole loop has found at the router.
  abbrev pub matched : Matched
  matched =
      visit_subnets ip ri entered destination (at ri.router_subnets next.id)
        (record { first = none; owners = [] })

  pub matched-IsFound : IsFound matched
  matched-IsFound =
      visit_subnets-IsFound (at ri.router_subnets next.id) (record { first = none; owners = [] })
        (λ x there. there) (record { first = λ n e. cc e })

  pub matched-listed :
      (s : Subnet) (n : Network)
      → IsMatch ip ri next entered destination s n
      → Among n.project_id matched.owners
  matched-listed s n h =
      visit_subnets-listed (at ri.router_subnets next.id) s n (record { first = none; owners = [] })
        h h.attached.listed

pub same_owner :
    (xs : List String) (a b : String) → ltb 1 (length xs) ≡ false → Among a xs → Among b xs → a ≡ b
same_owner [] a b few ha hb = absurd ha
same_owner (x ∷ []) a b few ha hb = elim ha [
  | inl e ↦ elim hb [ inl e' ↦ cc (e, e') | inr never ↦ absurd never ]
  | inr never ↦ absurd never
]
same_owner (x ∷ y ∷ xs) a b few ha hb = absurd (ground arith)
