-- ===== src/Neutron/External/Rows.antt =====
-- internal/neutron/externalnet.go: what one element of the snapshot appends, and where.
use mathlib.Core.Path.{subst}
use text.Mathlib.Text.{◌==◌ as str_eq}
use text.Mathlib.TextEquality.{eq_iff}
use lachesis.Base.{
  ◌≡◌, ◌≢◌, refl, ap, String, true, false, Option, none, some, List, [], arith, Bool-cases, inl,
  inr,
}
use lachesis.Base.Among.{Among, Among-append_each, Among-append_each_new, Among-map, Among-map_new}
use lachesis.Base.GoMap.{GoMap, get}
use lachesis.Neutron.{FixedIp, Port, FloatingIp, device_owner_router_interface}
use lachesis.Neutron.Topology.{at}
use lachesis.Neutron.External.{
  text_at, any_rows, is_gateway, gateway_row, gateway_rows, of_interface, floating_rows,
}

pub other_text : (a b : String) → a ≢ b → str_eq a b ≡ false
other_text a b ne = ground (arith, eq_iff a b)

pub at-empty : (q l : String) → ¬ Among l (at {V = String} [] q)
unfolding get
at-empty q l h = h

pub of_interface_sound :
    (rows : Port → List (String × String)) (p : Port) (r : String × String)
    → Among r (of_interface rows p)
    → (p.device_owner ≡ device_owner_router_interface) × Among r (rows p)
of_interface_sound rows p r =
    elim (Bool-cases (str_eq p.device_owner device_owner_router_interface)) [
      | inl own ↦ rw own (λ h. ((eq_iff p.device_owner device_owner_router_interface).0 own, h))
      | inr other ↦ rw other (λ h. absurd h)
    ]

pub of_interface-new :
    (rows : Port → List (String × String)) (p : Port) (r : String × String)
    → p.device_owner ≡ device_owner_router_interface
    → Among r (rows p)
    → Among r (of_interface rows p)
of_interface-new rows p r own h = rw ((eq_iff p.device_owner device_owner_router_interface).1 own) h

pub any_rows_sound :
    (ext : Option String) (fips : List FixedIp) (q l : String)
    → Among (q, l) (any_rows ext fips)
    → (ext ≡ some l) × ((f : FixedIp) × Among f fips × (f.subnet_id ≡ q) × Unit {0})
any_rows_sound none fips q l h = absurd h
any_rows_sound (some ext) fips q l h =
    let (f, there, e) = Among-map (λ (f : FixedIp). (f.subnet_id, ext)) (q, l) fips h in
    (cc e, (f, there, cc e, tt))

pub any_rows-new :
    (ext : Option String) (fips : List FixedIp) (f : FixedIp) (l : String)
    → ext ≡ some l
    → Among f fips
    → Unit {0}
    → Among (f.subnet_id, l) (any_rows ext fips)
any_rows-new none fips f l e h allowed = cc e
any_rows-new (some ext) fips f l e h allowed =
    subst (λ x. Among (f.subnet_id, x) (any_rows (some ext) fips)) (cc e)
      (Among-map_new (λ (g : FixedIp). (g.subnet_id, ext)) f fips h)

pub gateway_row_sound :
    (gateways : GoMap String String) (ext : String) (f : FixedIp) (q l : String)
    → Among (q, l) (gateway_row gateways ext f)
    → (is_gateway gateways f ≡ true) × (ext ≡ l) × (f.subnet_id ≡ q)
gateway_row_sound gateways ext f q l = elim (Bool-cases (is_gateway gateways f)) [
  | inl own ↦ rw own (λ h. elim h [ inl e ↦ (refl, cc e, cc e) | inr never ↦ absurd never ])
  | inr other ↦ rw other (λ h. absurd h)
]

pub gateway_rows_sound :
    (gateways : GoMap String String) (ext : Option String) (fips : List FixedIp) (q l : String)
    → Among (q, l) (gateway_rows gateways ext fips)
    → (ext ≡ some l)
      × ((f : FixedIp) × Among f fips × (f.subnet_id ≡ q) × (is_gateway gateways f ≡ true))
gateway_rows_sound gateways none fips q l h = absurd h
gateway_rows_sound gateways (some ext) fips q l h =
    elim (Among-append_each (gateway_row gateways ext) (q, l) fips [] h) [
      | inl never ↦ absurd never
      | inr (f, there, given) ↦
          let (own, same, subnet) = gateway_row_sound gateways ext f q l given in
          (ap some same, (f, there, subnet, own))
    ]

pub gateway_rows-new :
    (gateways : GoMap String String) (ext : Option String) (fips : List FixedIp) (f : FixedIp)
    (l : String)
    → ext ≡ some l
    → Among f fips
    → is_gateway gateways f ≡ true
    → Among (f.subnet_id, l) (gateway_rows gateways ext fips)
gateway_rows-new gateways none fips f l e h own = cc e
gateway_rows-new gateways (some ext) fips f l e h own =
    Among-append_each_new (gateway_row gateways ext) f (f.subnet_id, l) fips [] h
      (rw own (inl (cc e)))

pub floating_rows_sound :
    (net_label : GoMap String String) (f : FloatingIp) (q l : String)
    → Among (q, l) (floating_rows net_label f)
    → (f.port_id ≢ "")
      × (f.floating_network_id ≢ "")
      × (f.port_id ≡ q)
      × (l ≡ text_at net_label f.floating_network_id)
floating_rows_sound net_label f q l = elim (Bool-cases (str_eq f.port_id "")) [
  | inl unbound ↦ rw unbound (λ h. absurd h)
  | inr bound ↦ elim (Bool-cases (str_eq f.floating_network_id "")) [
    | inl nowhere ↦ rw (bound, nowhere) (λ h. absurd h)
    | inr somewhere ↦
        rw (bound, somewhere)
          (λ h. elim h [
            | inl e ↦ (
              λ p. cc ((eq_iff f.port_id "").1 p, bound),
              λ p. cc ((eq_iff f.floating_network_id "").1 p, somewhere),
              cc e,
              cc e,
            )
            | inr never ↦ absurd never
          ])
  ]
]

pub floating_rows-new :
    (net_label : GoMap String String) (f : FloatingIp)
    → f.port_id ≢ ""
    → f.floating_network_id ≢ ""
    → Among (f.port_id, text_at net_label f.floating_network_id) (floating_rows net_label f)
floating_rows-new net_label f bound somewhere =
    rw (other_text f.port_id "" bound, other_text f.floating_network_id "" somewhere) (inl refl)
