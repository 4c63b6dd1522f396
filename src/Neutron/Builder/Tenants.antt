-- ===== src/Neutron/Builder/Tenants.antt =====
-- internal/neutron/trie.go: the tenants of a snapshot.
use mathlib.Core.Path.{subst}
use mathlib.Core.Logic.{if_neg}
use text.Mathlib.Text.{◌==◌ as str_eq}
use text.Mathlib.TextEquality.{eq_iff}
use lachesis.Base.{
  ◌≡◌, ◌≢◌, refl, sym, ◌∙◌, String, none, List, [], ◌∷◌, map, arith, Bool-cases, ◌⊎◌, inl, inr,
}
use lachesis.Base.Text.{String-discrete}
use lachesis.Base.Among.{Among, for_each, Among-map, Among-map_new, Among-sort, Among-sorted}
use lachesis.Base.GoMap.{GoMap, get, get-put}
use lachesis.Neutron.{Network, Port, Router, Snapshot}
use lachesis.Neutron.Builder.{keys, add_tenant, add_tenants, collect_tenants, text_lt}

-- The project owns a network, a port or a router.
pub record IsTenant (snap : Snapshot) (t : String) : Type 0 where
  pub named : t ≢ ""
  pub owner :
      ((n : Network) × Among n snap.networks × (t ≡ n.project_id))
      ⊎ ((p : Port) × Among p snap.ports × (t ≡ p.project_id))
      ⊎ ((r : Router) × Among r snap.routers × (t ≡ r.project_id))

pub Among-keys :
    {V : Type 0} (m : GoMap String V) (k : String)
    → Among k (keys m)
    → get String-discrete m k ≢ none
unfolding get
Among-keys [] k h absent = h
Among-keys ((j, v) ∷ m) k (inl e) absent = ground (arith)
Among-keys ((j, v) ∷ m) k (inr h) absent = ground (arith, Among-keys m k h)

pub keys-Among :
    {V : Type 0} (m : GoMap String V) (k : String)
    → get String-discrete m k ≢ none
    → Among k (keys m)
unfolding get
keys-Among [] k h = h refl
keys-Among ((j, v) ∷ m) k h = elim (String-discrete j k) [
  | yes same ↦ inl (sym same)
  | no other ↦ inr (keys-Among m k (λ absent. h (if_neg (String-discrete j k) other _ _ ∙ absent)))
]

abbrev Tenants : Type 0
Tenants = GoMap String (Unit {0})

get-add_tenant :
    (id : String) (set : Tenants) (t : String)
    → get String-discrete (add_tenant id set) t ≢ none
    → (get String-discrete set t ≢ none) ⊎ ((t ≢ "") × (t ≡ id))
get-add_tenant id set t = elim (Bool-cases (str_eq id "")) [
  | inl empty ↦ rw empty (λ h. inl h)
  | inr named ↦ rw named (λ h. elim (String-discrete id t) [
    | yes same ↦ inr (λ e. absurd (ground (arith, eq_iff id "")), sym same)
    | no other ↦ inl (λ absent.
        h (get-put String-discrete set id t tt ∙ if_neg (String-discrete id t) other _ _ ∙ absent))
  ])
]

pub get-add_tenants :
    (ids : List String) (set : Tenants) (t : String)
    → get String-discrete (add_tenants ids set) t ≢ none
    → (get String-discrete set t ≢ none) ⊎ ((t ≢ "") × Among t ids)
unfolding add_tenants for_each
get-add_tenants [] set t h = inl h
get-add_tenants (id ∷ ids) set t h = elim (get-add_tenants ids (add_tenant id set) t h) [
  | inl now ↦ elim (get-add_tenant id set t now) [
    | inl before ↦ inl before
    | inr (named, same) ↦ inr (named, inl same)
  ]
  | inr (named, there) ↦ inr (named, inr there)
]

add_tenant-old :
    (id : String) (set : Tenants) (t : String)
    → get String-discrete set t ≢ none
    → get String-discrete (add_tenant id set) t ≢ none
add_tenant-old id set t h absent = ground (arith, get-put String-discrete set id t tt)

add_tenants-old :
    (ids : List String) (set : Tenants) (t : String)
    → get String-discrete set t ≢ none
    → get String-discrete (add_tenants ids set) t ≢ none
unfolding add_tenants for_each
add_tenants-old [] set t h = h
add_tenants-old (id ∷ ids) set t h =
    add_tenants-old ids (add_tenant id set) t (add_tenant-old id set t h)

pub add_tenants-new :
    (ids : List String) (set : Tenants) (t : String)
    → t ≢ ""
    → Among t ids
    → get String-discrete (add_tenants ids set) t ≢ none
unfolding add_tenants for_each
add_tenants-new [] set t named h = absurd h
add_tenants-new (id ∷ ids) set t named (inl same) =
    add_tenants-old ids (add_tenant id set) t
      (λ absent. ground (arith, eq_iff id "", get-put String-discrete set id t tt))
add_tenants-new (id ∷ ids) set t named (inr h) = add_tenants-new ids (add_tenant id set) t named h

-- The list of tenants holds the projects that own something.
pub Among-collect_tenants :
    (snap : Snapshot) (t : String)
    → Among t (collect_tenants snap.networks snap.ports snap.routers)
    → IsTenant snap t
unfolding collect_tenants get
Among-collect_tenants snap t h =
    let networks = map (λ (n : Network). n.project_id) snap.networks in
    let ports = map (λ (p : Port). p.project_id) snap.ports in
    let routers = map (λ (r : Router). r.project_id) snap.routers in
    let of_networks = add_tenants networks [] in
    let of_ports = add_tenants ports of_networks in
    elim (get-add_tenants routers of_ports t (
      Among-keys (add_tenants routers of_ports) t
        (Among-sort text_lt t (keys (add_tenants routers of_ports)) h))) [
          | inl before ↦ elim (get-add_tenants ports of_networks t before) [
            | inl first ↦ elim (get-add_tenants networks [] t first) [
              | inl empty ↦ absurd (empty refl)
              | inr (named, there) ↦ record {
                named = named;
                owner = inl (Among-map (λ (n : Network). n.project_id) t snap.networks there);
              }
            ]
            | inr (named, there) ↦ record {
              named = named;
              owner = inr (inl (Among-map (λ (p : Port). p.project_id) t snap.ports there));
            }
          ]
          | inr (named, there) ↦ record {
            named = named;
            owner = inr (inr (Among-map (λ (r : Router). r.project_id) t snap.routers there));
          }
        ]

pub IsTenant-Among :
    (snap : Snapshot) (t : String)
    → IsTenant snap t
    → Among t (collect_tenants snap.networks snap.ports snap.routers)
unfolding collect_tenants
IsTenant-Among snap t h =
    let networks = map (λ (n : Network). n.project_id) snap.networks in
    let ports = map (λ (p : Port). p.project_id) snap.ports in
    let routers = map (λ (r : Router). r.project_id) snap.routers in
    let of_networks = add_tenants networks [] in
    let of_ports = add_tenants ports of_networks in
    Among-sorted text_lt t (keys (add_tenants routers of_ports)) (
      keys-Among (add_tenants routers of_ports) t (elim h.owner [
        | inl (n, there, e) ↦ add_tenants-old routers of_ports t (
            add_tenants-old ports of_networks t (
              add_tenants-new networks [] t h.named (
                subst (λ x. Among x networks) (sym e)
                  (Among-map_new (λ (n : Network). n.project_id) n snap.networks there))))
        | inr (inl (p, there, e)) ↦ add_tenants-old routers of_ports t (
            add_tenants-new ports of_networks t h.named (
              subst (λ x. Among x ports) (sym e)
                (Among-map_new (λ (p : Port). p.project_id) p snap.ports there)))
        | inr (inr (r, there, e)) ↦ add_tenants-new routers of_ports t h.named (
            subst (λ x. Among x routers) (sym e)
              (Among-map_new (λ (r : Router). r.project_id) r snap.routers there))
      ]))
