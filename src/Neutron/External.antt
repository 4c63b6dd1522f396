-- ===== src/Neutron/External.antt =====
-- internal/neutron/externalnet.go: the external network that the traffic of a port leaves through. The loop
-- that fills two maps is two folds here, since neither map reads the other.
pub mod Appended
pub mod Rows
pub mod Exits
pub mod Candidates
pub mod Attributed
use native.Mathlib.Decide.{ℕ_discrete}
use text.Mathlib.Text.{◌==◌ as str_eq}
use lachesis.Base.{
  ℕ, String, Bool, true, false, not, ◌||◌, ◌&&◌, Option, none, some, List, [], ◌∷◌, ◌++◌, map, ltb,
  if◌then◌else◌,
}
use lachesis.Base.Text.{String-discrete}
use lachesis.Base.Among.{for_each, append_each, sort}
use lachesis.Base.GoMap.{GoMap, get, put, length}
use lachesis.Bpf.{mac_key}
use lachesis.Neutron.{
  Netip, Network, Subnet, FixedIp, Port, Router, FloatingIp, Snapshot, is_vm_port,
  device_owner_router_interface,
}
use lachesis.Neutron.Topology.{at, by_id}
use lachesis.Neutron.Builder.{keys, add_tenants, text_lt}

-- `m[k]` of a map of texts, with the empty text for a key that is not there
abbrev pub text_at : GoMap String String → String → String
text_at m k = elim (get String-discrete m k) [ none ↦ "" | some s ↦ s ]

-- `m[k] = append(m[k], v)`
unfoldable pub append_at : String × String → GoMap String (List String) → GoMap String (List String)
append_at (k, v) m = put String-discrete m k (at m k ++ (v ∷ []))

-- A loop whose rounds append `v` at `k`, for the pairs that `rows` gives.
unfoldable pub append_rows :
    {A : Type 0}
    → (A → List (String × String))
    → List A
    → GoMap String (List String)
    → GoMap String (List String)
unfolding append_at for_each
append_rows rows xs m = for_each (λ x. for_each append_at (rows x)) xs m

abbrev pub label_of : Network → String
label_of n = if not (str_eq n.name "") then n.name else n.id

abbrev pub name_network : Network → GoMap String String → GoMap String String
name_network n m = put String-discrete m n.id (label_of n)

-- `netLabel`
unfoldable pub net_labels : List Network → GoMap String String
unfolding for_each
net_labels networks = for_each name_network networks []

abbrev pub add_router_ext : GoMap String String → Router → GoMap String String → GoMap String String
add_router_ext net_label r m =
    if not (str_eq r.external_network_id "")
    then put String-discrete m r.id (text_at net_label r.external_network_id)
    else m

-- `routerExt`
unfoldable pub router_exts : Snapshot → GoMap String String
unfolding for_each net_labels
router_exts snap = for_each (add_router_ext (net_labels snap.networks)) snap.routers []

abbrev pub add_gateway : Subnet → GoMap String String → GoMap String String
add_gateway s m = put String-discrete m s.id s.gateway_ip

-- `subnetGateway`
unfoldable pub subnet_gateways : List Subnet → GoMap String String
unfolding for_each
subnet_gateways subnets = for_each add_gateway subnets []

-- What a port appends to `anyExt`, on what `routerExt` holds.
abbrev pub any_rows : Option String → List FixedIp → List (String × String)
any_rows none fips = []
any_rows (some ext) fips = map (λ (f : FixedIp). (f.subnet_id, ext)) fips

-- `gw != "" && fip.IPAddress == gw`
abbrev pub is_gateway : GoMap String String → FixedIp → Bool
is_gateway gateways f =
    let gw = text_at gateways f.subnet_id in not (str_eq gw "") && str_eq f.ip_address gw

abbrev pub gateway_row : GoMap String String → String → FixedIp → List (String × String)
gateway_row gateways ext f = if is_gateway gateways f then (f.subnet_id, ext) ∷ [] else []

-- What a port appends to `gwExt`.
abbrev pub gateway_rows :
    GoMap String String → Option String → List FixedIp → List (String × String)
gateway_rows gateways none fips = []
gateway_rows gateways (some ext) fips = append_each (gateway_row gateways ext) fips []

-- `if p.DeviceOwner != DeviceOwnerRouterInterface { continue }` before it
abbrev pub of_interface : (Port → List (String × String)) → Port → List (String × String)
of_interface rows p =
    if not (str_eq p.device_owner device_owner_router_interface) then [] else rows p

-- `anyExt`
unfoldable pub any_exts : Snapshot → GoMap String (List String)
unfolding append_rows router_exts
any_exts snap =
    let exts = router_exts snap in
    append_rows
      (of_interface (λ (p : Port). any_rows (get String-discrete exts p.device_id) p.fixed_ips))
      snap.ports []

-- `gwExt`
unfoldable pub gateway_exts : Snapshot → GoMap String (List String)
unfolding append_rows router_exts subnet_gateways append_each
gateway_exts snap =
    let exts = router_exts snap in
    let gateways = subnet_gateways snap.subnets in
    append_rows
      (of_interface
        (λ (p : Port). gateway_rows gateways (get String-discrete exts p.device_id) p.fixed_ips))
      snap.ports []

abbrev pub or_else : List String → List String → List String
or_else [] ys = ys
or_else (x ∷ xs) ys = x ∷ xs

-- `subnetExt`
unfoldable pub subnet_ext : Snapshot → String → List String
unfolding any_exts gateway_exts
subnet_ext snap sid = or_else (at (gateway_exts snap) sid) (at (any_exts snap) sid)

abbrev pub floating_rows : GoMap String String → FloatingIp → List (String × String)
floating_rows net_label f =
    if str_eq f.port_id "" || str_eq f.floating_network_id ""
    then []
    else (f.port_id, text_at net_label f.floating_network_id) ∷ []

-- `fipExt`
unfoldable pub floating_exts : Snapshot → GoMap String (List String)
unfolding append_rows net_labels
floating_exts snap = append_rows (floating_rows (net_labels snap.networks)) snap.floating_ips []

-- `dedupe`: its loop over `in` is that of `add_tenants`
unfoldable pub dedupe : List String → List String
unfolding add_tenants
dedupe xs = sort text_lt (keys (add_tenants xs []))

-- `raw` of a VM port
unfoldable pub raw_candidates : Snapshot → Port → List String
unfolding floating_exts subnet_ext append_each
raw_candidates snap p =
    or_else (at (floating_exts snap) p.id)
      (append_each (λ (f : FixedIp). subnet_ext snap f.subnet_id) p.fixed_ips [])

-- `portCandidates`
pub record PortCandidates : Type 0 where
  pub candidates : List String
  pub picked : String

abbrev pub add_candidates :
    Port → List String → GoMap String PortCandidates → GoMap String PortCandidates
add_candidates p [] m = m
add_candidates p (c ∷ cs) m =
    put String-discrete m p.id (record { candidates = c ∷ cs; picked = c })

abbrev pub visit_port : Snapshot → Port → GoMap String PortCandidates → GoMap String PortCandidates
visit_port snap p m =
    if not (is_vm_port p.device_owner)
    then m
    else add_candidates p (dedupe (raw_candidates snap p)) m

-- `externalCandidatesByPort`
unfoldable pub external_candidates_by_port : Snapshot → GoMap String PortCandidates
unfolding for_each dedupe raw_candidates
external_candidates_by_port snap = for_each (visit_port snap) snap.ports []

abbrev pub pick_each : GoMap String PortCandidates → GoMap String String → GoMap String String
pick_each [] out = out
pick_each ((id, c) ∷ rows) out = pick_each rows (put String-discrete out id c.picked)

-- `ExternalNetworkByPort`
unfoldable pub external_network_by_port : Snapshot → GoMap String String
unfolding external_candidates_by_port
external_network_by_port snap = pick_each (external_candidates_by_port snap) []

module _ (ip : Netip) where
  abbrev pub add_router_mac : GoMap String String → Port → GoMap ℕ String → GoMap ℕ String
  add_router_mac exts p m =
      if not (str_eq p.device_owner device_owner_router_interface)
      then m
      else elim (get String-discrete exts p.device_id) [
        | none ↦ m
        | some ext ↦ elim (ip.parse_mac p.mac_address) [
          | none ↦ m
          | some hw ↦ put ℕ_discrete m (mac_key hw) ext
        ]
      ]

  -- `RouterExtMACs`
  unfoldable pub router_ext_macs : Snapshot → GoMap ℕ String
  unfolding for_each router_exts
  router_ext_macs snap = for_each (add_router_mac (router_exts snap)) snap.ports []
