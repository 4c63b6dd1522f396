-- ===== src/Neutron/Builder/Subnets.antt =====
-- internal/neutron/trie.go: the IPv4 subnets of each network.
use mathlib.Core.Path.{subst}
use mathlib.Core.List.{append-nil}
use mathlib.Core.Logic.{ite, if_pos, if_neg}
use text.Mathlib.Text.{◌==◌ as str_eq}
use text.Mathlib.TextEquality.{eq_iff}
use lachesis.Base.{
  ℕ, ◌≡◌, ◌≢◌, refl, sym, ap, ◌∙◌, String, true, false, not, List, [], ◌∷◌, ◌++◌, arith, Bool-cases,
  inl, inr, if◌then◌else◌, ◌==◌,
}
use lachesis.Base.Text.{String-discrete}
use lachesis.Base.Among.{Among, append_each, Among-append_each, Among-append_each_new}
use lachesis.Base.GoMap.{GoMap, get, put, get-put}
use lachesis.Neutron.{Subnet, Snapshot}
use lachesis.Neutron.Topology.{at}
use lachesis.Neutron.Builder.{group_subnets}

at-put :
    {V : Type 0} (m : GoMap String (List V)) (k q : String) (l : List V)
    → at (put String-discrete m k l) q ≡ ite (String-discrete k q) l (at m q)
at-put m k q l = ground (arith, get-put String-discrete m k q l)

-- An IPv4 subnet of the network.
pub record IsSubnetOf (snap : Snapshot) (id : String) (s : Subnet) : Type 0 where
  pub there : Among s snap.subnets
  pub of_network : s.network_id ≡ id
  pub ipv4 : s.ip_version ≡ 4

other_text : (a b : String) → a ≢ b → str_eq a b ≡ false
other_text a b ne = ground (arith, eq_iff a b)

-- What a subnet adds to the list of a network.
abbrev own_subnet : String → Subnet → List Subnet
own_subnet id s = if s.ip_version == 4 then if str_eq s.network_id id then s ∷ [] else [] else []

-- One round of `group_subnets`.
abbrev grouped : Subnet → GoMap String (List Subnet) → GoMap String (List Subnet)
grouped s out =
    if not (s.ip_version == 4)
    then out
    else put String-discrete out s.network_id (at out s.network_id ++ (s ∷ []))

at-grouped :
    (s : Subnet) (out : GoMap String (List Subnet)) (id : String)
    → at (grouped s out) id ≡ at out id ++ own_subnet id s
at-grouped s out id = elim (Bool-cases (s.ip_version == 4)) [
  | inl v ↦
      rw (v, at-put out s.network_id id (at out s.network_id ++ (s ∷ [])))
        (elim (String-discrete s.network_id id) [
          | yes same ↦
              rw
                (if_pos (String-discrete s.network_id id) same _ _, (eq_iff s.network_id id).1 same)
                (ap (λ k. at out k ++ (s ∷ [])) same)
          | no other ↦
              rw
                (
                  if_neg (String-discrete s.network_id id) other _ _,
                  other_text s.network_id id other,
                )
                (sym (append-nil (at out id)))
        ])
  | inr other ↦ rw other (sym (append-nil (at out id)))
]

at-group_subnets :
    (subnets : List Subnet) (out : GoMap String (List Subnet)) (id : String)
    → at (group_subnets subnets out) id ≡ append_each (own_subnet id) subnets (at out id)
unfolding group_subnets append_each
at-group_subnets [] out id = refl
at-group_subnets (s ∷ subnets) out id =
    at-group_subnets subnets (grouped s out) id
    ∙ ap (append_each (own_subnet id) subnets) (at-grouped s out id)

is_four : (n : ℕ) → n ≡ 4 → (n == 4) ≡ true
is_four n e = ground arith

own_subnet-IsSubnetOf :
    (snap : Snapshot) (id : String) (q s : Subnet)
    → Among s snap.subnets
    → Among q (own_subnet id s)
    → IsSubnetOf snap id q
own_subnet-IsSubnetOf snap id q s there = elim (Bool-cases (s.ip_version == 4)) [
  | inl v ↦ elim (Bool-cases (str_eq s.network_id id)) [
    | inl same ↦
        rw (v, same)
          (λ h. elim h [
            | inl e ↦ subst (IsSubnetOf snap id) (sym e) (record {
              there = there;
              of_network = (eq_iff s.network_id id).0 same;
              ipv4 = ground arith;
            })
            | inr none_left ↦ absurd none_left
          ])
    | inr other ↦ rw (v, other) (λ h. absurd h)
  ]
  | inr other ↦ rw other (λ h. absurd h)
]

-- The list that the builder keeps for a network holds its IPv4 subnets.
pub Among-group_subnets :
    (snap : Snapshot) (id : String) (s : Subnet)
    → Among s (at (group_subnets snap.subnets []) id)
    → IsSubnetOf snap id s
unfolding get
Among-group_subnets snap id s h =
    elim (Among-append_each (own_subnet id) s snap.subnets []
      (subst (Among s) (at-group_subnets snap.subnets [] id) h)) [
        | inl none_there ↦ absurd none_there
        | inr (x, there, own) ↦ own_subnet-IsSubnetOf snap id s x there own
      ]

pub IsSubnetOf-Among :
    (snap : Snapshot) (id : String) (s : Subnet)
    → IsSubnetOf snap id s
    → Among s (at (group_subnets snap.subnets []) id)
unfolding get
IsSubnetOf-Among snap id s h = subst (Among s) (sym (at-group_subnets snap.subnets [] id)) (
    Among-append_each_new (own_subnet id) s s snap.subnets [] h.there
      (rw (is_four s.ip_version h.ipv4, (eq_iff s.network_id id).1 h.of_network) (inl refl)))
