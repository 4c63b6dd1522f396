-- ===== src/Neutron/External/Candidates.antt =====
-- internal/neutron/externalnet.go: the candidates of a port are the labels that it can leave through.
use lachesis.Base.{◌≢◌, ◌↔◌, refl, String, List, [], ◌∷◌, ◌⊎◌, inl, inr}
use lachesis.Base.Among.{
  Among, append_each, Among-append_each, Among-append_each_new, Among-sort, Among-sorted,
}
use lachesis.Base.GoMap.{get}
use lachesis.Neutron.{FixedIp, Port, Snapshot}
use lachesis.Neutron.Topology.{at}
use lachesis.Neutron.Builder.{keys, add_tenants, text_lt}
use lachesis.Neutron.Builder.Tenants.{Among-keys, keys-Among, get-add_tenants, add_tenants-new}
use lachesis.Neutron.External.{
  any_exts, gateway_exts, or_else, subnet_ext, floating_exts, dedupe, raw_candidates,
}
use lachesis.Neutron.External.Exits.{
  IsFloatingExit, IsRouterExit, Anywhere, AtGateway, Among-any_exts, Among-gateway_exts,
  Among-floating_exts,
}

-- A router that holds the subnet's gateway counts; without one, any router of the subnet.
abbrev pub IsSubnetExit : Snapshot → String → String → Type 0
IsSubnetExit snap sid l =
    IsRouterExit snap (AtGateway snap) sid l
    ⊎ (((x : String) → ¬ IsRouterExit snap (AtGateway snap) sid x)
        × IsRouterExit snap Anywhere sid l)

-- A floating IP of the port counts; without one, the subnets of the port's addresses.
abbrev pub IsExit : Snapshot → Port → String → Type 0
IsExit snap p l =
    IsFloatingExit snap p.id l
    ⊎ (((x : String) → ¬ IsFloatingExit snap p.id x)
        × ((f : FixedIp) × Among f p.fixed_ips × IsSubnetExit snap f.subnet_id l))

-- The labels of the first list count; without one, those of the second.
or_else_iff :
    (l : String) (xs ys : List String) (P Q : String → Type 0)
    → ((x : String) → Among x xs ↔ P x)
    → ((x : String) → Among x ys ↔ Q x)
    → Among l (or_else xs ys) ↔ (P l ⊎ (((x : String) → ¬ P x) × Q l))
or_else_iff l [] ys P Q p q = (
  λ h. inr (λ x there. (p x).1 there, (q l).0 h),
  λ h. elim h [ inl first ↦ absurd ((p l).1 first) | inr rest ↦ (q l).1 rest.1 ],
)
or_else_iff l (y ∷ xs) ys P Q p q = (
  λ h. inl ((p l).0 h),
  λ h. elim h [ inl first ↦ (p l).1 first | inr rest ↦ absurd (rest.0 y ((p y).0 (inl refl))) ],
)

Among-subnet_ext :
    (snap : Snapshot) (sid l : String) → Among l (subnet_ext snap sid) ↔ IsSubnetExit snap sid l
unfolding subnet_ext
Among-subnet_ext snap sid l =
    or_else_iff l (at (gateway_exts snap) sid) (at (any_exts snap) sid)
      (IsRouterExit snap (AtGateway snap) sid) (IsRouterExit snap Anywhere sid)
      (Among-gateway_exts snap sid) (Among-any_exts snap sid)

Among-subnets :
    (snap : Snapshot) (p : Port) (l : String)
    → Among l (append_each (λ (f : FixedIp). subnet_ext snap f.subnet_id) p.fixed_ips [])
      ↔ ((f : FixedIp) × Among f p.fixed_ips × IsSubnetExit snap f.subnet_id l)
Among-subnets snap p l = (
  λ h. elim (Among-append_each (λ (f : FixedIp). subnet_ext snap f.subnet_id) l p.fixed_ips [] h) [
    | inl never ↦ absurd never
    | inr (f, there, given) ↦ (f, there, (Among-subnet_ext snap f.subnet_id l).0 given)
  ],
  λ (f, there, exit).
      Among-append_each_new (λ (g : FixedIp). subnet_ext snap g.subnet_id) f l p.fixed_ips [] there
        ((Among-subnet_ext snap f.subnet_id l).1 exit),
)

-- The candidates of a port are its exits.
pub Among-raw_candidates :
    (snap : Snapshot) (p : Port) (l : String) → Among l (raw_candidates snap p) ↔ IsExit snap p l
unfolding raw_candidates
Among-raw_candidates snap p l =
    or_else_iff l (at (floating_exts snap) p.id)
      (append_each (λ (f : FixedIp). subnet_ext snap f.subnet_id) p.fixed_ips [])
      (IsFloatingExit snap p.id)
      (λ x. (f : FixedIp) × Among f p.fixed_ips × IsSubnetExit snap f.subnet_id x)
      (Among-floating_exts snap p.id) (Among-subnets snap p)

pub Among-dedupe : (l : String) (xs : List String) → Among l (dedupe xs) ↔ ((l ≢ "") × Among l xs)
unfolding dedupe get
Among-dedupe l xs = (
  λ h.
      elim (get-add_tenants xs [] l
        (Among-keys (add_tenants xs []) l (Among-sort text_lt l (keys (add_tenants xs [])) h))) [
          | inl empty ↦ absurd (empty refl)
          | inr known ↦ known
        ],
  λ (named, there).
      Among-sorted text_lt l (keys (add_tenants xs []))
        (keys-Among (add_tenants xs []) l (add_tenants-new xs [] l named there)),
)
