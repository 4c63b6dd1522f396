-- ===== src/Neutron/External/Exits.antt =====
-- internal/neutron/externalnet.go: the external networks that a port's traffic can leave through.
use mathlib.Core.Path.{subst}
use lachesis.Base.{◌≡◌, ◌≢◌, ◌↔◌, String, true, Option, some, List, [], inl, inr}
use lachesis.Base.Text.{String-discrete}
use lachesis.Base.Among.{Among}
use lachesis.Base.GoMap.{get}
use lachesis.Neutron.{FixedIp, Port, FloatingIp, Snapshot, device_owner_router_interface}
use lachesis.Neutron.Topology.{at}
use lachesis.Neutron.External.{
  text_at, net_labels, router_exts, subnet_gateways, any_rows, is_gateway, gateway_rows,
  of_interface, any_exts, gateway_exts, floating_rows, floating_exts, append_rows,
}
use lachesis.Neutron.External.Appended.{append_rows-sound, append_rows-new}
use lachesis.Neutron.External.Rows.{
  at-empty, of_interface_sound, of_interface-new, any_rows_sound, any_rows-new, gateway_rows_sound,
  gateway_rows-new, floating_rows_sound, floating_rows-new,
}

-- A floating IP is bound to the port, out of a network with this label.
pub record IsFloatingExit (snap : Snapshot) (port_id l : String) : Type 0 where
  pub floating : FloatingIp
  pub there : Among floating snap.floating_ips
  pub named : floating.port_id ≢ ""
  pub network : floating.floating_network_id ≢ ""
  pub bound : floating.port_id ≡ port_id
  pub label : l ≡ text_at (net_labels snap.networks) floating.floating_network_id

-- A router with a gateway of this label has an interface in the subnet, at an address that `P` holds of.
pub record IsRouterExit (snap : Snapshot) (P : FixedIp → Type 0) (sid l : String) : Type 0 where
  pub port : Port
  pub there : Among port snap.ports
  pub owner : port.device_owner ≡ device_owner_router_interface
  pub label : get String-discrete (router_exts snap) port.device_id ≡ some l
  pub address : FixedIp
  pub held : Among address port.fixed_ips
  pub subnet : address.subnet_id ≡ sid
  pub allowed : P address

abbrev pub Anywhere : FixedIp → Type 0
Anywhere f = Unit

-- The interface has the gateway's address of its subnet.
abbrev pub AtGateway : Snapshot → FixedIp → Type 0
AtGateway snap f = is_gateway (subnet_gateways snap.subnets) f ≡ true

-- What the interfaces append at a subnet, if the rows of an interface are its addresses that `P` holds of.
module _ (snap : Snapshot) (P : FixedIp → Type 0)
    (rows : Option String → List FixedIp → List (String × String))
    (sound : (ext : Option String) (fips : List FixedIp) (q l : String)
      → Among (q, l) (rows ext fips)
      → (ext ≡ some l) × ((f : FixedIp) × Among f fips × (f.subnet_id ≡ q) × P f))
    (new : (ext : Option String) (fips : List FixedIp) (f : FixedIp) (l : String)
      → ext ≡ some l
      → Among f fips
      → P f
      → Among (f.subnet_id, l) (rows ext fips)) where
  abbrev of_port : Port → List (String × String)
  of_port p = rows (get String-discrete (router_exts snap) p.device_id) p.fixed_ips

  Among-router_rows :
      (sid l : String)
      → Among l (at (append_rows (of_interface of_port) snap.ports []) sid)
        ↔ IsRouterExit snap P sid l
  Among-router_rows sid l = (
    λ h. elim (append_rows-sound (of_interface of_port) snap.ports [] sid l h) [
      | inl never ↦ absurd (at-empty sid l never)
      | inr (p, there, given) ↦
          let (own, row) = of_interface_sound of_port p (sid, l) given in
          let (label, (f, held, subnet, allowed)) =
            sound (get String-discrete (router_exts snap) p.device_id) p.fixed_ips sid l row in
          record {
            port = p;
            there = there;
            owner = own;
            label = label;
            address = f;
            held = held;
            subnet = subnet;
            allowed = allowed;
          }
    ],
    λ x. append_rows-new (of_interface of_port) snap.ports [] x.port sid l x.there (
        of_interface-new of_port x.port (sid, l) x.owner
          (subst (λ s. Among (s, l) (of_port x.port)) x.subnet
            (new (get String-discrete (router_exts snap) x.port.device_id) x.port.fixed_ips
              x.address l x.label x.held x.allowed))),
  )

-- `anyExt` and `gwExt` list, for each subnet, the labels of its routers.
pub Among-any_exts :
    (snap : Snapshot) (sid l : String)
    → Among l (at (any_exts snap) sid) ↔ IsRouterExit snap Anywhere sid l
unfolding any_exts
Among-any_exts snap sid l =
    Among-router_rows snap Anywhere any_rows any_rows_sound any_rows-new sid l

pub Among-gateway_exts :
    (snap : Snapshot) (sid l : String)
    → Among l (at (gateway_exts snap) sid) ↔ IsRouterExit snap (AtGateway snap) sid l
unfolding gateway_exts
Among-gateway_exts snap sid l =
    let gateways = subnet_gateways snap.subnets in
    Among-router_rows snap (AtGateway snap) (gateway_rows gateways) (gateway_rows_sound gateways)
      (gateway_rows-new gateways) sid l

-- `fipExt` lists, for each port, the labels of its floating IPs.
pub Among-floating_exts :
    (snap : Snapshot) (id l : String)
    → Among l (at (floating_exts snap) id) ↔ IsFloatingExit snap id l
unfolding floating_exts
Among-floating_exts snap id l =
    let net_label = net_labels snap.networks in
    let rows = floating_rows net_label in
    (
      λ h. elim (append_rows-sound rows snap.floating_ips [] id l h) [
        | inl never ↦ absurd (at-empty id l never)
        | inr (f, there, given) ↦
            let (named, network, bound, label) = floating_rows_sound net_label f id l given in
            record {
              floating = f;
              there = there;
              named = named;
              network = network;
              bound = bound;
              label = label;
            }
      ],
      λ x. append_rows-new rows snap.floating_ips [] x.floating id l x.there (
          subst (λ r. Among r (rows x.floating)) (cc (x.bound, x.label))
            (floating_rows-new net_label x.floating x.named x.network)),
    )
