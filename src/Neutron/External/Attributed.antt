-- ===== src/Neutron/External/Attributed.antt =====
-- internal/neutron/externalnet.go: a port is attributed to a network that its traffic can leave through.
use mathlib.Core.Path.{subst}
use lachesis.Base.{
  ◌≡◌, ◌≢◌, ◌↔◌, refl, sym, ◌∙◌, String, true, none, some, List, [], ◌∷◌, Bool-cases, ◌⊎◌, ap,
  Option-cases, inl, inr,
}
use lachesis.Base.Text.{String-discrete}
use lachesis.Base.Among.{Among, for_each, for_each_induction, for_each_made}
use lachesis.Base.GoMap.{GoMap, get, put, get-put_self, get-put_ne}
use lachesis.Base.GoMap.Range.{AllRows, get-row_ne}
use lachesis.Neutron.{Port, Snapshot, is_vm_port}
use lachesis.Neutron.External.{
  dedupe, raw_candidates, PortCandidates, add_candidates, visit_port, external_candidates_by_port,
  pick_each, external_network_by_port,
}
use lachesis.Neutron.External.Candidates.{IsExit, Among-raw_candidates, Among-dedupe}
use lachesis.Base.GoMap.Range.{AllRows-put, put_present}

-- A VM port with this id has the label as an exit.
pub record IsAttributed (snap : Snapshot) (id l : String) : Type 0 where
  pub port : Port
  pub there : Among port snap.ports
  pub own : port.id ≡ id
  pub vm : is_vm_port port.device_owner ≡ true
  pub named : l ≢ ""
  pub exit : IsExit snap port l

abbrev Records : Type 0
Records = GoMap String PortCandidates

get-none : {V : Type 0} (id : String) → get {V = V} String-discrete [] id ≡ none
unfolding get
get-none id = refl

module _ (snap : Snapshot) where
  abbrev Recorded : Records → Type 0
  Recorded m = AllRows (λ id c. IsAttributed snap id c.picked) m

  add_candidates-Recorded :
      (p : Port) (cs : List String) (m : Records)
      → Among p snap.ports
      → is_vm_port p.device_owner ≡ true
      → ((l : String) → Among l cs → (l ≢ "") × IsExit snap p l)
      → Recorded m
      → Recorded (add_candidates p cs m)
  add_candidates-Recorded p [] m there vm exits a = a
  add_candidates-Recorded p (c ∷ cs) m there vm exits a =
      AllRows-put String-discrete (λ id c. IsAttributed snap id c.picked) m p.id
        (record { candidates = c ∷ cs; picked = c }) a
        (λ j own. record {
          port = p;
          there = there;
          own = sym own;
          vm = vm;
          named = (exits c (inl refl)).0;
          exit = (exits c (inl refl)).1;
        })

  exits_of :
      (p : Port) (l : String)
      → Among l (dedupe (raw_candidates snap p)) ↔ ((l ≢ "") × IsExit snap p l)
  exits_of p l = (
    λ h.
        let (named, raw) = (Among-dedupe l (raw_candidates snap p)).0 h in
        (named, (Among-raw_candidates snap p l).0 raw),
    λ (named, exit).
        (Among-dedupe l (raw_candidates snap p)).1 (named, (Among-raw_candidates snap p l).1 exit),
  )

  visit_port-Recorded :
      (p : Port) (m : Records) → Among p snap.ports → Recorded m → Recorded (visit_port snap p m)
  visit_port-Recorded p m there a = elim (Bool-cases (is_vm_port p.device_owner)) [
    | inl vm ↦ rw vm (
        add_candidates-Recorded p (dedupe (raw_candidates snap p)) m there vm
          (λ l. (exits_of p l).0) a)
    | inr other ↦ rw other a
  ]

  visit_ports-Recorded : Recorded (for_each (visit_port snap) snap.ports [])
  visit_ports-Recorded =
      for_each_induction Recorded (visit_port snap) snap.ports [] visit_port-Recorded tt

  pick_each_sound :
      (rows : Records) (out : GoMap String String) (id l : String)
      → Recorded rows
      → get String-discrete (pick_each rows out) id ≡ some l
      → (get String-discrete out id ≡ some l) ⊎ IsAttributed snap id l
  pick_each_sound [] out id l a e = inl e
  pick_each_sound ((j, c) ∷ rows) out id l a e =
      elim (pick_each_sound rows (put String-discrete out j c.picked) id l a.1 e) [
        | inl now ↦ elim (String-discrete j id) [
          | yes own ↦ inr (
              let same : c.picked ≡ l =
                cc (get-put_self String-discrete out j c.picked, own, now) in
              subst (λ x. IsAttributed snap id x) same
                (subst (λ x. IsAttributed snap x c.picked) own a.0))
          | no other ↦ inl (sym (get-put_ne String-discrete out j id c.picked other) ∙ now)
        ]
        | inr known ↦ inr known
      ]

  -- A record stays, and one is made for each VM port with an exit.
  add_candidates-old :
      (p : Port) (cs : List String) (m : Records) (id : String)
      → get String-discrete m id ≢ none
      → get String-discrete (add_candidates p cs m) id ≢ none
  add_candidates-old p [] m id ne = ne
  add_candidates-old p (c ∷ cs) m id ne = put_present String-discrete m p.id id _ (inr ne)

  add_candidates-new :
      (p : Port) (cs : List String) (m : Records) (l : String)
      → Among l cs
      → get String-discrete (add_candidates p cs m) p.id ≢ none
  add_candidates-new p [] m l h = absurd h
  add_candidates-new p (c ∷ cs) m l h = put_present String-discrete m p.id p.id _ (inl refl)

  visit_port-old :
      (p : Port) (m : Records) (id : String)
      → get String-discrete m id ≢ none
      → get String-discrete (visit_port snap p m) id ≢ none
  visit_port-old p m id ne = elim (Bool-cases (is_vm_port p.device_owner)) [
    | inl vm ↦ rw vm (add_candidates-old p (dedupe (raw_candidates snap p)) m id ne)
    | inr other ↦ rw other ne
  ]

  visit_ports-new :
      (p : Port) (l : String)
      → Among p snap.ports
      → is_vm_port p.device_owner ≡ true
      → l ≢ ""
      → IsExit snap p l
      → get String-discrete (for_each (visit_port snap) snap.ports []) p.id ≢ none
  visit_ports-new p l there vm named exit =
      for_each_made (λ m. get String-discrete m p.id ≢ none) (visit_port snap) snap.ports [] p there
        (λ m. rw vm (
          add_candidates-new p (dedupe (raw_candidates snap p)) m l
            ((exits_of p l).1 (named, exit))))
        (λ q m. visit_port-old q m p.id)

  pick_each-new :
      (rows : Records) (out : GoMap String String) (id : String)
      → (get String-discrete rows id ≢ none) ⊎ (get String-discrete out id ≢ none)
      → get String-discrete (pick_each rows out) id ≢ none
  pick_each-new [] out id (inl ne) = absurd (ne (get-none id))
  pick_each-new [] out id (inr ne) = ne
  pick_each-new ((j, c) ∷ rows) out id (inr ne) =
      pick_each-new rows (put String-discrete out j c.picked) id
        (inr (put_present String-discrete out j id c.picked (inr ne)))
  pick_each-new ((j, c) ∷ rows) out id (inl ne) = elim (String-discrete j id) [
    | yes own ↦
        pick_each-new rows (put String-discrete out j c.picked) id
          (inr (put_present String-discrete out j id c.picked (inl own)))
    | no other ↦
        pick_each-new rows (put String-discrete out j c.picked) id
          (inl (λ absent. ne (sym (get-row_ne String-discrete rows id j c other) ∙ absent)))
  ]

  external_network_by_port_both :
      ((id l : String)
        → get String-discrete (external_network_by_port snap) id ≡ some l
        → IsAttributed snap id l)
      × ((p : Port) (l : String)
          → Among p snap.ports
          → is_vm_port p.device_owner ≡ true
          → l ≢ ""
          → IsExit snap p l
          → get String-discrete (external_network_by_port snap) p.id ≢ none)
  unfolding external_network_by_port external_candidates_by_port
  external_network_by_port_both =
      let rows = for_each (visit_port snap) snap.ports [] in
      (
        λ id l e. elim (pick_each_sound rows [] id l visit_ports-Recorded e) [
          | inl never ↦ cc (get-none id, never)
          | inr known ↦ known
        ],
        λ p l there vm named exit.
            pick_each-new rows [] p.id (inl (visit_ports-new p l there vm named exit)),
      )

  -- An id either is attributed to a label that the traffic of a VM port with this id can leave through: a
  -- floating IP of it, else a router that holds the gateway of one of its subnets, else, for a subnet
  -- without one, any of its routers; or it is attributed to none, and no VM port with this id has such a
  -- label.
  pub external_network_by_port-IsExit :
      (id : String)
      → ((l : String) × (get String-discrete (external_network_by_port snap) id ≡ some l)
          × IsAttributed snap id l)
        ⊎ ((get String-discrete (external_network_by_port snap) id ≡ none)
            × (¬ ((l : String) × IsAttributed snap id l)))
  external_network_by_port-IsExit id =
      let (sound, made) = external_network_by_port_both in
      elim (Option-cases (get String-discrete (external_network_by_port snap) id)) [
        | inl absent ↦ inr (
          absent,
          (λ (l, a).
              made a.port l a.there a.vm a.named a.exit
                (ap (get String-discrete (external_network_by_port snap)) a.own ∙ absent)),
        )
        | inr (l, here) ↦ inl (l, here, sound id l here)
      ]
