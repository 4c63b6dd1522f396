-- ===== src/Wal/Loaded.antt =====
-- internal/wal/wal.go: what was saved is loaded.
use text.Mathlib.Text.{◌==◌ as str_eq}
use text.Mathlib.TextEquality.{eq_iff}
use lachesis.Base.{ℕ, ◌≡◌, ◌≢◌, refl, ap, String, List, [], ◌∷◌, map, arith, Bool-cases, inl, inr}
use lachesis.State.{
  Owner, Record, SettledRecord, TenantSettledKey, ServerSettledKey, TotalSettledKey,
}
use lachesis.State.Snapshot.{WalSnapshot}
use lachesis.Wal.{
  found, envelope, to_wire, from_wire, owner_wire, from_owner_wire, gated, to_tenant_wire,
  from_tenant_wire, to_server_wire, from_server_wire, to_total_wire, from_total_wire,
  from_tenant_settled,
}

-- An owner without a tenant is the zero value.
abbrev pub IsOwner : Owner → Type 0
IsOwner o = o.tenant ≡ "" → (o.ext_net ≡ "") × (o.server ≡ "")

abbrev pub Each : {A : Type 0} → (A → Type 0) → List A → Type 0
Each P [] = Unit
Each P (x ∷ xs) = P x × Each P xs

-- What the store hands to the log: owners are whole or zero, and every bucket has a label of an external
-- network, which may be the sentinel.
pub record IsWritable (s : WalSnapshot) : Type 0 where
  pub owners : Each (λ (r : Record). IsOwner r.owner) s.flows
  pub tenant : Each (λ (r : SettledRecord TenantSettledKey). r.key.ext_net ≢ "") s.tenant
  pub server : Each (λ (r : SettledRecord ServerSettledKey). r.key.ext_net ≢ "") s.server
  pub total : Each (λ (r : SettledRecord TotalSettledKey). r.key.ext_net ≢ "") s.total

map-inverse :
    {A B : Type 0} (to : A → B) (from : B → A) (P : A → Type 0)
    → ((a : A) → P a → from (to a) ≡ a)
    → (xs : List A) → Each P xs
    → map from (map to xs) ≡ xs
map-inverse to from P back [] h = refl
map-inverse to from P back (x ∷ xs) h = cc (back x h.0, map-inverse to from P back xs h.1)

gated-label : (ext : String) → ext ≢ "" → gated ext ≡ ext
gated-label ext ne = ground (arith, eq_iff ext "")

from_owner_wire-owner_wire : (o : Owner) → IsOwner o → from_owner_wire (owner_wire o) ≡ o
unfolding owner_wire
from_owner_wire-owner_wire o h = elim (Bool-cases (str_eq o.tenant "")) [
  | inl empty ↦
      let named = (eq_iff o.tenant "").0 empty in
      let rest = h named in rw empty (cc (named, rest.0, rest.1))
  | inr named ↦ rw named refl
]

from_wire-to_wire : (r : Record) → IsOwner r.owner → from_wire (to_wire r) ≡ r
unfolding to_wire
from_wire-to_wire r h = ap (λ o. record r { owner = o }) (from_owner_wire-owner_wire r.owner h)

from_tenant_settled-envelope :
    (agent_build : String) (now : ℕ) (s : WalSnapshot) (at : ℕ)
    → IsWritable s
    → from_tenant_settled (envelope agent_build now s at) ≡ s.tenant
unfolding from_tenant_settled envelope
from_tenant_settled-envelope agent_build now s at h = by_list s.tenant h.tenant
  where
    by_list :
        (xs : List (SettledRecord TenantSettledKey))
        → Each (λ (r : SettledRecord TenantSettledKey). r.key.ext_net ≢ "") xs
        → (elim (map to_tenant_wire xs) [ [] ↦ [] | w ∷ rest ↦ map from_tenant_wire (w ∷ rest) ])
          ≡ xs
    by_list [] e = refl
    by_list (x ∷ xs) e =
        map-inverse to_tenant_wire from_tenant_wire
          (λ (r : SettledRecord TenantSettledKey). r.key.ext_net ≢ "")
          (λ r ne.
            ap (λ x. record r { key = record (r.key) { ext_net = x } })
              (gated-label r.key.ext_net ne))
          (x ∷ xs) e

-- The envelope of a snapshot gives the snapshot back.
pub found-envelope :
    (agent_build : String) (now : ℕ) (s : WalSnapshot) (at : ℕ)
    → IsWritable s
    → found (envelope agent_build now s at) ≡ record { snapshot = s; counters_reset_at = at }
unfolding found envelope
found-envelope agent_build now s at h = cc (
  map-inverse to_wire from_wire (λ (r : Record). IsOwner r.owner) from_wire-to_wire s.flows
      h.owners,
  from_tenant_settled-envelope agent_build now s at h,
  map-inverse to_server_wire from_server_wire
      (λ (r : SettledRecord ServerSettledKey). r.key.ext_net ≢ "")
      (λ r ne.
        ap (λ x. record r { key = record (r.key) { ext_net = x } }) (gated-label r.key.ext_net ne))
      s.server h.server,
  map-inverse to_total_wire from_total_wire
      (λ (r : SettledRecord TotalSettledKey). r.key.ext_net ≢ "")
      (λ r ne.
        ap (λ x. record r { key = record (r.key) { ext_net = x } }) (gated-label r.key.ext_net ne))
      s.total h.total,
)
