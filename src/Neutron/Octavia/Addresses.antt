-- ===== src/Neutron/Octavia/Addresses.antt =====
-- internal/neutron/octavia.go: the addresses that an Amphora sends from.
use lachesis.Base.{◌≡◌, ◌↔◌, sym, ap, String, Bool, Option, none, some, List, [], inl, inr}
use lachesis.Base.Text.{String-discrete}
use lachesis.Base.Among.{Among, Among-append_each, Among-append_each_new}
use lachesis.Base.GoMap.{get}
use lachesis.Neutron.{Addr, v4, v6, Netip, FixedIp, Port, Snapshot}
use lachesis.Neutron.Octavia.{
  AmphoraBaseIp, amphora_owner_by_port, base_ip, base_ips_of, amphora_base_ips,
}

-- The address is a fixed IPv4 address of a port that bills to the project.
pub record IsBaseIp (ip : Netip) (equal_fold : String → String → Bool) (snap : Snapshot)
    (b : AmphoraBaseIp) : Type 0 where
  pub port : Port
  pub there : Among port snap.ports
  pub billed :
      get String-discrete (amphora_owner_by_port equal_fold snap) port.id ≡ some b.project_id
  pub address : FixedIp
  pub held : Among address port.fixed_ips
  pub parses : ip.parse_addr address.ip_address ≡ some (v4 b.addr)

base_ip_sound :
    (owner : String) (a : Option Addr) (b : AmphoraBaseIp)
    → Among b (base_ip owner a)
    → (b.project_id ≡ owner) × (a ≡ some (v4 b.addr))
base_ip_sound owner none b h = absurd h
base_ip_sound owner (some (v4 a)) b (inl e) = (cc e, cc e)
base_ip_sound owner (some (v4 a)) b (inr never) = absurd never
base_ip_sound owner (some (v6 a)) b h = absurd h

base_ips_of_sound :
    (ip : Netip) (equal_fold : String → String → Bool) (owner : Option String) (p : Port)
    (b : AmphoraBaseIp)
    → Among b (base_ips_of ip equal_fold owner p)
    → (owner ≡ some b.project_id)
      × ((f : FixedIp) × Among f p.fixed_ips × (ip.parse_addr f.ip_address ≡ some (v4 b.addr)))
base_ips_of_sound ip equal_fold none p b h = absurd h
base_ips_of_sound ip equal_fold (some owner) p b h =
    elim (Among-append_each (λ (f : FixedIp). base_ip owner (ip.parse_addr f.ip_address)) b
      p.fixed_ips [] h) [
        | inl never ↦ absurd never
        | inr (f, held, given) ↦
            let (own, parses) = base_ip_sound owner (ip.parse_addr f.ip_address) b given in
            (ap some (sym own), (f, held, parses))
      ]

base_ips_of-new :
    (ip : Netip) (equal_fold : String → String → Bool) (owner : Option String) (p : Port)
    (b : AmphoraBaseIp) (f : FixedIp)
    → owner ≡ some b.project_id
    → Among f p.fixed_ips
    → ip.parse_addr f.ip_address ≡ some (v4 b.addr)
    → Among b (base_ips_of ip equal_fold owner p)
base_ips_of-new ip equal_fold none p b f own held parses = cc own
base_ips_of-new ip equal_fold (some owner) p b f own held parses =
    Among-append_each_new (λ (g : FixedIp). base_ip owner (ip.parse_addr g.ip_address)) f b
      p.fixed_ips [] held (rw parses (inl (cc own)))

-- The addresses that the kernel takes for those of load balancers are exactly the fixed IPv4 addresses of the
-- ports that bill to the owner of a load balancer, each with that owner.
pub Among-amphora_base_ips :
    (ip : Netip) (equal_fold : String → String → Bool) (snap : Snapshot) (b : AmphoraBaseIp)
    → Among b (amphora_base_ips ip equal_fold snap) ↔ IsBaseIp ip equal_fold snap b
unfolding amphora_base_ips
Among-amphora_base_ips ip equal_fold snap b =
    let by_port = amphora_owner_by_port equal_fold snap in
    let rows : Port → List AmphoraBaseIp =
      λ p. base_ips_of ip equal_fold (get String-discrete by_port p.id) p in
    (
      λ h. elim (Among-append_each rows b snap.ports [] h) [
        | inl never ↦ absurd never
        | inr (p, there, given) ↦
            let (billed, (f, held, parses)) =
              base_ips_of_sound ip equal_fold (get String-discrete by_port p.id) p b given in
            record {
              port = p;
              there = there;
              billed = billed;
              address = f;
              held = held;
              parses = parses;
            }
      ],
      λ x. Among-append_each_new rows x.port b snap.ports [] x.there (
          base_ips_of-new ip equal_fold (get String-discrete by_port x.port.id) x.port b x.address
            x.billed x.held x.parses),
    )
