-- ===== src/Neutron/Routes/Hops.antt =====
-- internal/neutron/resolve.go: the trace of a static route ends by itself.
use mathlib.Core.Logic.{if_pos, if_neg}
use text.Mathlib.Text.{◌==◌ as str_eq}
use lachesis.Base.{
  ℕ, zero, suc, ◌+◌, ◌<◌, ◌≤◌, ◌≡◌, refl, ap, sym, ◌∙◌, String, Option, none, some, [], ◌∷◌, arith,
  Bool-cases, Option-cases, inl, inr,
}
use lachesis.Base.Text.{String-discrete}
use lachesis.Base.GoMap.{GoMap, get, put, length, get-put}
use lachesis.Trie.{Prefix}
use lachesis.Neutron.{
  v4, v6, Netip, Network, Subnet, Port, Route, Router, is_compute_port,
  device_owner_router_interface,
}
use lachesis.Neutron.Topology.{ResolveIndex, anchor_subnet, port_at}
use lachesis.Neutron.Routes.{
  Round, done, onward, external, lpm_match_route, resolve_at_next_router, follow, enter,
  meet_router, meet_vm, meet, round, trace, resolve_static_route_zone,
}

abbrev Visited : Type 0
Visited = GoMap String (Unit {0})

abbrev unseen : Option (Unit {0}) → ℕ
unseen none = 1
unseen (some _) = 0

-- How many of the rows hold a router that was not visited.
abbrev fresh : Visited → GoMap String Router → ℕ
fresh visited [] = 0
fresh visited ((k, r) ∷ rows) = unseen (get String-discrete visited r.id) + fresh visited rows

fresh-le : (visited : Visited) (rows : GoMap String Router) → fresh visited rows ≤ length rows
fresh-le visited [] = omega arith
fresh-le visited ((k, r) ∷ rows) = ground (arith, fresh-le visited rows)

fresh-put-le :
    (visited : Visited) (id : String) (rows : GoMap String Router)
    → fresh (put String-discrete visited id tt) rows ≤ fresh visited rows
fresh-put-le visited id [] = omega arith
fresh-put-le visited id ((k, r) ∷ rows) =
    ground (arith, fresh-put-le visited id rows, get-put String-discrete visited id r.id tt)

some_injective : {A : Type 0} {x y : A} → some x ≡ some y → x ≡ y
some_injective e = cc

-- A visit of a router of the index, which was not visited, leaves fewer.
fresh-put-lt :
    (visited : Visited) (rows : GoMap String Router) (k : String) (r : Router)
    → get String-discrete rows k ≡ some r
    → get String-discrete visited r.id ≡ none
    → fresh (put String-discrete visited r.id tt) rows < fresh visited rows
unfolding get
fresh-put-lt visited [] k r e new = cc
fresh-put-lt visited ((j, x) ∷ rows) k r e new = elim (String-discrete j k) [
  | yes same ↦
      let own : x ≡ r = some_injective (sym (if_pos (String-discrete j k) same _ _) ∙ e) in
      ground (
        arith,
        ap (λ (y : Router). y.id) own,
        new,
        fresh-put-le visited r.id rows,
        get-put String-discrete visited r.id x.id tt,
      )
  | no other ↦ ground (
    arith,
    fresh-put-lt visited rows k r (sym (if_neg (String-discrete j k) other _ _) ∙ e) new,
    get-put String-discrete visited r.id x.id tt,
  )
]

module _ (ip : Netip) (ri : ResolveIndex) (r : Router) (destination : Prefix) where
  -- Where a round goes on, it goes to a router of the index that was not visited, and marks it.
  abbrev Advances : Visited → Round → Type 0
  Advances visited (done o) = Unit
  Advances visited (onward next nh visited') = fresh visited' ri.routers < fresh visited ri.routers

  follow-Advances :
      (visited visited' : Visited) (next : Router) (route : Option Route)
      → fresh visited' ri.routers < fresh visited ri.routers
      → Advances visited (follow ip next visited' route)
  unfolding follow
  follow-Advances visited visited' next none lt = tt
  follow-Advances visited visited' next (some route) lt =
      elim (ip.parse_addr route.nexthop)
        as (λ a. Advances visited (elim a [
          | none ↦ done external
          | some (v6 x) ↦ done external
          | some (v4 nh) ↦ onward next nh visited'
        ])) [ none ↦ tt | some (v6 a) ↦ tt | some (v4 nh) ↦ lt ]

  enter-Advances :
      (visited visited' : Visited) (next : Router) (iface : Subnet)
      → fresh visited' ri.routers < fresh visited ri.routers
      → Advances visited (enter ip ri next iface destination r.project_id visited')
  unfolding enter
  enter-Advances visited visited' next iface lt =
      elim (Option-cases (resolve_at_next_router ip ri next iface destination r.project_id)) [
        | inl e ↦
            rw (e, Advances)
              (follow-Advances visited visited' next (lpm_match_route ip next.routes destination)
                lt)
        | inr (o, e) ↦ rw (e, Advances) tt
      ]

  meet_router-Advances :
      (visited : Visited) (iface : Subnet) (device : String) (found : Option Router)
      → get String-discrete ri.routers device ≡ found
      → Advances visited (meet_router ip ri r destination visited iface found)
  unfolding meet_router
  meet_router-Advances visited iface device none e = tt
  meet_router-Advances visited iface device (some next) e =
      elim (Option-cases (get String-discrete visited next.id)) [
        | inl new ↦
            rw (new, Advances)
              (enter-Advances visited (put String-discrete visited next.id tt) next iface
                (fresh-put-lt visited ri.routers device next e new))
        | inr (u, seen) ↦ rw (seen, Advances) tt
      ]

  meet_vm-Advances :
      (visited : Visited) (port : Port) (found : Option Network)
      → Advances visited (meet_vm r port found)
  unfolding meet_vm
  meet_vm-Advances visited port none = tt
  meet_vm-Advances visited port (some n) = tt

  meet-Advances :
      (visited : Visited) (iface : Subnet) (found : Option Port)
      → Advances visited (meet ip ri r destination visited iface found)
  unfolding meet
  meet-Advances visited iface none = tt
  meet-Advances visited iface (some port) =
      elim (Bool-cases (str_eq port.device_owner device_owner_router_interface)) [
        | inl e ↦
            rw (e, Advances)
              (meet_router-Advances visited iface port.device_id
                (get String-discrete ri.routers port.device_id) refl)
        | inr e ↦ elim (Bool-cases (is_compute_port port.device_owner)) [
          | inl vm ↦
              rw (e, vm)
                (meet_vm-Advances visited port (get String-discrete ri.networks iface.network_id))
          | inr other ↦ rw (e, other) tt
        ]
      ]

  round-Advances :
      (current : Router) (nexthop : ℕ) (visited : Visited)
      → Advances visited (round ip ri r destination current nexthop visited)
  unfolding round
  round-Advances current nexthop visited =
      elim (Option-cases (anchor_subnet ip ri current.id nexthop)) [
        | inl e ↦ rw (e, Advances) tt
        | inr (iface, e) ↦
            rw (e, Advances)
              (meet-Advances visited iface (port_at ri iface.id (ip.addr_string nexthop)))
      ]

  trace_round :
      (hops hops' : ℕ) (visited : Visited) (o : Round)
      → ((next : Router) (nh : ℕ) (v : Visited)
          → fresh v ri.routers < hops
          → fresh v ri.routers < hops'
          → trace ip ri r destination hops next nh v ≡ trace ip ri r destination hops' next nh v)
      → fresh visited ri.routers < suc hops
      → fresh visited ri.routers < suc hops'
      → Advances visited o
      → (elim o [ done x ↦ x | onward next nh v ↦ trace ip ri r destination hops next nh v ])
        ≡ (elim o [ done x ↦ x | onward next nh v ↦ trace ip ri r destination hops' next nh v ])
  trace_round hops hops' visited (done x) again lt lt' a = refl
  trace_round hops hops' visited (onward next nh v) again lt lt' a =
      again next nh v (omega arith) (omega arith)

  -- With more hops than fresh routers, the number of hops is of no effect.
  trace-hops :
      (hops hops' : ℕ) (current : Router) (nexthop : ℕ) (visited : Visited)
      → fresh visited ri.routers < hops
      → fresh visited ri.routers < hops'
      → trace ip ri r destination hops current nexthop visited
        ≡ trace ip ri r destination hops' current nexthop visited
  unfolding trace
  trace-hops zero hops' current nexthop visited lt lt' = absurd (omega arith)
  trace-hops (suc hops) zero current nexthop visited lt lt' = absurd (omega arith)
  trace-hops (suc hops) (suc hops') current nexthop visited lt lt' =
      trace_round hops hops' visited (round ip ri r destination current nexthop visited)
        (trace-hops hops hops') lt lt' (round-Advances current nexthop visited)

-- The trace of a static route ends by itself: if the limit exceeds the number of routers in the index,
-- then the loop returns the same zone and incidents under any other limit that exceeds it, so that the
-- branch of the exceeded limit decides nothing.
pub resolve_static_route_zone-trace :
    (ip : Netip) (ri : ResolveIndex) (r : Router) (destination : Prefix) (nexthop hops : ℕ)
    → length ri.routers < ri.max_hops
    → length ri.routers < hops
    → trace ip ri r destination hops r nexthop (put String-discrete [] r.id tt)
      ≡ resolve_static_route_zone ip ri r destination nexthop
unfolding resolve_static_route_zone
resolve_static_route_zone-trace ip ri r destination nexthop hops lt lt' =
    let visited : Visited = put String-discrete [] r.id tt in
    trace-hops ip ri r destination hops ri.max_hops r nexthop visited
      (omega (arith, fresh-le visited ri.routers)) (omega (arith, fresh-le visited ri.routers))
