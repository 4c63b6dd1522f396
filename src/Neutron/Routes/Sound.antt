-- ===== src/Neutron/Routes/Sound.antt =====
-- internal/neutron/resolve.go: what a zone of the resolver rests on.
use text.Mathlib.Text.{◌==◌ as str_eq}
use text.Mathlib.TextEquality.{eq_iff}
use lachesis.Base.{
  ℕ, zero, suc, ◌<◌, ◌≡◌, refl, String, true, false, Option, none, some, List, [], arith,
  Bool-cases, Option-cases, ◌⊎◌, inl, inr, ltb, ◌∙◌,
}
use lachesis.Base.Text.{String-discrete}
use lachesis.Base.GoMap.{GoMap, get, put, length}
use lachesis.Bpf.{zone_external, zone_same_tenant}
use lachesis.Trie.{Prefix}
use lachesis.Neutron.{
  v4, v6, Netip, Network, Subnet, Port, Route, Router, is_compute_port,
  device_owner_router_interface,
}
use lachesis.Neutron.Topology.{ResolveIndex, anchor, anchor_subnet, port_at, at}
use lachesis.Neutron.Routes.Reached.{IsNexthop, IsMet, Reached, starts, crosses, IsPrivate, IsMatch}
use lachesis.Neutron.Routes.Searches.{lpm_match_route-Covers, anchor-IsAttached}
use lachesis.Neutron.Routes.Matches.{matched, matched-IsFound, matched-listed, same_owner}
use lachesis.Neutron.Routes.{
  Outcome, Round, done, onward, external, AmbiguityHit, CycleHit, lpm_match_route, zone_for,
  verdict, resolve_at_next_router, follow, enter, meet_router, meet_vm, meet, round, trace,
  resolve_static_route_zone,
}

-- The trace of a static route ends behind a router that it meets: a subnet of that router holds the
-- destination, its network is private and the tenant's, and so is the owner of every other such network.
pub record IsBehind (ip : Netip) (ri : ResolveIndex) (r : Router) (destination : Prefix)
    (nexthop : ℕ) : Type 0 where
  pub current : Router
  pub last : ℕ
  pub reached : Reached ip ri r destination nexthop current last
  pub iface : Subnet
  pub next : Router
  pub met : IsMet ip ri current last iface next
  pub subnet : Subnet
  pub network : Network
  pub matches : IsMatch ip ri next iface destination subnet network
  pub hidden : IsPrivate ri subnet.network_id network
  pub owner : network.project_id ≡ r.project_id
  pub sole :
      (s : Subnet) (n : Network)
      → IsMatch ip ri next iface destination s n
      → n.project_id ≡ r.project_id

-- The trace of a static route ends at a VM of the tenant, at the last nexthop, in a private network.
pub record IsAtVm (ip : Netip) (ri : ResolveIndex) (r : Router) (destination : Prefix) (nexthop : ℕ)
    : Type 0 where
  pub current : Router
  pub last : ℕ
  pub reached : Reached ip ri r destination nexthop current last
  pub iface : Subnet
  pub port : Port
  pub address : IsNexthop ip ri current last iface port
  pub vm : is_compute_port port.device_owner ≡ true
  pub owner : port.project_id ≡ r.project_id
  pub network : Network
  pub hidden : IsPrivate ri iface.network_id network

pub record IsSound (ip : Netip) (ri : ResolveIndex) (r : Router) (destination : Prefix)
    (nexthop : ℕ) (o : Outcome) : Type 0 where
  pub ambiguous :
      (h : AmbiguityHit) → o.ambiguity ≡ some h → (o.zone ≡ zone_external) × (1 < length h.owners)
  pub cyclic : (h : CycleHit) → o.cycle ≡ some h → o.zone ≡ zone_external
  pub own :
      o.zone ≡ zone_same_tenant
      → IsBehind ip ri r destination nexthop ⊎ IsAtVm ip ri r destination nexthop

zone_for-same :
    (owner tenant : String) (n : Network)
    → zone_for owner tenant n ≡ zone_same_tenant
    → (n.is_external ≡ false) × (n.shared ≡ false) × (owner ≡ tenant)
unfolding zone_for
zone_for-same owner tenant n e = ground (arith, eq_iff owner tenant)

module _ (ip : Netip) (ri : ResolveIndex) (r : Router) (destination : Prefix) (nexthop : ℕ) where
  abbrev Ends : Outcome → Type 0
  Ends o = IsSound ip ri r destination nexthop o

  abbrev At : Router → ℕ → Type 0
  At current nh = Reached ip ri r destination nexthop current nh

  -- What a round returns is sound, and where it goes on is a step further.
  abbrev Sound : Round → Type 0
  Sound (done o) = Ends o
  Sound (onward next nh visited) = At next nh

  nowhere : Ends external
  nowhere = record { ambiguous = λ h e. cc; cyclic = λ h e. cc; own = λ e. absurd (omega arith) }

  module _ (current : Router) (last : ℕ) (reached : At current last) (iface : Subnet) where
    module _ (next : Router) (met : IsMet ip ri current last iface next) where
      verdict-IsSound :
          (found : Option Network) (owners : List String)
          → matched ip ri next iface destination ≡ record { first = found; owners = owners }
          → (o : Outcome) → verdict next destination r.project_id found owners ≡ some o
          → Ends o
      verdict-IsSound none owners h o e = cc
      verdict-IsSound (some n) owners h o e = elim (Bool-cases (ltb 1 (length owners))) [
        | inl many ↦ record {
          ambiguous = λ a e'. (ground arith, ground arith);
          cyclic = λ a e'. ground arith;
          own = λ e'. absurd (ground arith);
        }
        | inr single ↦ record {
          ambiguous = λ a e'. absurd (ground arith);
          cyclic = λ a e'. absurd (ground arith);
          own = λ e'.
              let ((s, matches), listed) =
                (matched-IsFound ip ri next iface destination).first n (cc h) in
              let (inside, unshared, same) =
                zone_for-same n.project_id r.project_id n (ground arith) in
              inl (record {
                current = current;
                last = last;
                reached = reached;
                iface = iface;
                next = next;
                met = met;
                subnet = s;
                network = n;
                matches = matches;
                hidden = record { indexed = matches.indexed; inside = inside; unshared = unshared };
                owner = same;
                sole = λ t m other.
                    let own_listed = rw h at listed in
                    let other_listed =
                      rw h at (matched-listed ip ri next iface destination t m other) in
                    same_owner owners m.project_id n.project_id single other_listed own_listed
                    ∙ same;
              });
        }
      ]

      follow-Sound :
          (visited : GoMap String (Unit {0})) (route : Option Route)
          → lpm_match_route ip next.routes destination ≡ route
          → Sound (follow ip next visited route)
      unfolding follow
      follow-Sound visited none found = nowhere
      follow-Sound visited (some route) found = elim (Option-cases (ip.parse_addr route.nexthop)) [
        | inl e ↦ rw (e, Sound) nowhere
        | inr (v4 a, e) ↦
            let (listed, covers) = lpm_match_route-Covers ip destination next route found in
            rw (e, Sound) (crosses reached iface next route a met listed covers e)
        | inr (v6 a, e) ↦ rw (e, Sound) nowhere
      ]

      enter-Sound :
          (visited : GoMap String (Unit {0}))
          → Sound (enter ip ri next iface destination r.project_id visited)
      unfolding enter resolve_at_next_router
      enter-Sound visited =
          let c = matched ip ri next iface destination in
          elim (Option-cases (verdict next destination r.project_id c.first c.owners)) [
            | inl e ↦
                rw (e, Sound)
                  (follow-Sound visited (lpm_match_route ip next.routes destination) refl)
            | inr (o, e) ↦ rw (e, Sound) (verdict-IsSound c.first c.owners refl o e)
          ]

    module _ (port : Port) (here : IsNexthop ip ri current last iface port) where
      meet_router-Sound :
          port.device_owner ≡ device_owner_router_interface
          → (visited : GoMap String (Unit {0})) (found : Option Router)
          → get String-discrete ri.routers port.device_id ≡ found
          → Sound (meet_router ip ri r destination visited iface found)
      unfolding meet_router
      meet_router-Sound interface visited none e = nowhere
      meet_router-Sound interface visited (some next) e =
          elim (Option-cases (get String-discrete visited next.id)) [
            | inl new ↦
                rw (new, Sound)
                  (enter-Sound next
                    (record { port = port; address = here; interface = interface; router = e })
                    (put String-discrete visited next.id tt))
            | inr (u, seen) ↦
                rw (seen, Sound)
                  (record {
                    ambiguous = λ h e. cc;
                    cyclic = λ h e. refl;
                    own = λ e. absurd (omega arith);
                  })
          ]

      meet_vm-Sound :
          is_compute_port port.device_owner ≡ true
          → (found : Option Network) → get String-discrete ri.networks iface.network_id ≡ found
          → Sound (meet_vm r port found)
      unfolding meet_vm
      meet_vm-Sound vm none e = nowhere
      meet_vm-Sound vm (some n) e = record {
        ambiguous = λ h e. cc;
        cyclic = λ h e. cc;
        own = λ e'.
            let (inside, unshared, same) = zone_for-same port.project_id r.project_id n e' in
            inr (record {
              current = current;
              last = last;
              reached = reached;
              iface = iface;
              port = port;
              address = here;
              vm = vm;
              owner = same;
              network = n;
              hidden = record { indexed = e; inside = inside; unshared = unshared };
            });
      }

    meet-Sound :
        (visited : GoMap String (Unit {0})) (found : Option Port)
        → ((p : Port) → found ≡ some p → IsNexthop ip ri current last iface p)
        → Sound (meet ip ri r destination visited iface found)
    unfolding meet
    meet-Sound visited none here = nowhere
    meet-Sound visited (some port) here =
        elim (Bool-cases (str_eq port.device_owner device_owner_router_interface)) [
          | inl e ↦
              rw (e, Sound)
                (meet_router-Sound port (here port refl)
                  ((eq_iff port.device_owner device_owner_router_interface).0 e) visited
                  (get String-discrete ri.routers port.device_id) refl)
          | inr e ↦ elim (Bool-cases (is_compute_port port.device_owner)) [
            | inl vm ↦
                rw (e, vm, Sound)
                  (meet_vm-Sound port (here port refl) vm
                    (get String-discrete ri.networks iface.network_id) refl)
            | inr other ↦ rw (e, other, Sound) nowhere
          ]
        ]

  round-Sound :
      (current : Router) (last : ℕ) (visited : GoMap String (Unit {0}))
      → At current last
      → Sound (round ip ri r destination current last visited)
  unfolding round anchor_subnet
  round-Sound current last visited reached =
      let sids = at ri.router_subnets current.id in
      elim (Option-cases (anchor ip ri sids last)) [
        | inl e ↦ rw (e, Sound) nowhere
        | inr (iface, e) ↦
            let (attached, (p, parses, holds)) =
              anchor-IsAttached ip ri current.id last iface sids (λ x there. there) e in
            rw (e, Sound)
              (meet-Sound current last reached iface visited
                (port_at ri iface.id (ip.addr_string last))
                (λ port there. record {
                  attached = attached;
                  prefix = p;
                  parses = parses;
                  holds = holds;
                  there = there;
                }))
      ]

  trace-IsSound :
      (hops : ℕ) (current : Router) (last : ℕ) (visited : GoMap String (Unit {0}))
      → At current last
      → Ends (trace ip ri r destination hops current last visited)
  unfolding trace
  trace-IsSound zero current last visited reached = nowhere
  trace-IsSound (suc hops) current last visited reached =
      trace_on hops (round ip ri r destination current last visited) (trace-IsSound hops)
        (round-Sound current last visited reached)
    where
      trace_on :
          (hops : ℕ) (o : Round)
          → ((next : Router) (nh : ℕ) (v : GoMap String (Unit {0}))
              → At next nh
              → Ends (trace ip ri r destination hops next nh v))
          → Sound o
          → Ends
              (elim o [ done x ↦ x | onward next nh v ↦ trace ip ri r destination hops next nh v ])
      trace_on hops (done x) again h = h
      trace_on hops (onward next nh v) again h = again next nh v h

-- What the resolver of a static route returns: the zone is SAME_TENANT only if the trace of the route, router
-- by router from the route's own along routes that cover the destination, ends behind a router with a
-- subnet that holds the destination, where every network of such a subnet is the tenant's and the first is
-- neither external nor shared; or at a VM of the tenant in a network that is neither. An ambiguity comes
-- with EXTERNAL and two owners at least, and a cycle comes with EXTERNAL.
pub resolve_static_route_zone-IsSound :
    (ip : Netip) (ri : ResolveIndex) (r : Router) (destination : Prefix) (nexthop : ℕ)
    → IsSound ip ri r destination nexthop (resolve_static_route_zone ip ri r destination nexthop)
unfolding resolve_static_route_zone
resolve_static_route_zone-IsSound ip ri r destination nexthop =
    trace-IsSound ip ri r destination nexthop ri.max_hops r nexthop (put String-discrete [] r.id tt)
      starts
