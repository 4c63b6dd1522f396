-- ===== src/Neutron/Builder/Prefixes.antt =====
-- internal/neutron/trie.go: the shared prefixes and the infrastructure's, in terms of the snapshot.
use text.Mathlib.Text.{◌==◌ as str_eq}
use lachesis.Base.{
  ◌≡◌, refl, String, Bool, true, false, not, ◌||◌, some, List, ◌⊎◌, inl, inr, if◌then◌else◌, ◌==◌,
}
use lachesis.Base.Among.{Among, for_each}
use lachesis.Base.GoMap.{GoMap, get}
use lachesis.Trie.{Prefix}
use lachesis.Neutron.{Netip, Network, Subnet, FixedIp, Port, is_infra_port}
use lachesis.Neutron.Topology.{at}
use lachesis.Neutron.Builder.{
  Collected, nothing_yet, collect?, parse_prefix_v4, parse_addr_v4_as_prefix, collect_subnets,
  collect_shared, build_shared_prefixes, collect_addresses, collect_port, collect_gateway,
  build_infra_prefixes,
}
use lachesis.Neutron.Builder.Gathering.{
  IsCollected, Gathers, skip-Gathers, collect?-Gathers, for_each-Gathers,
}

nothing_yet-IsCollected : IsCollected nothing_yet
unfolding get
nothing_yet-IsCollected p h = absurd (h refl)

-- A step that is made if a test holds.
if-Gathers :
    (skip : Bool) (f : Collected → Collected) (P : Prefix → Type 0)
    → Gathers f P
    → Gathers (λ c. if skip then c else f c) (λ p. (skip ≡ false) × P p)
if-Gathers true f P g = skip-Gathers (λ p. (true ≡ false) × P p) (λ p h. cc (h.0))
if-Gathers false f P g = record {
  kept = g.kept;
  old = g.old;
  new = λ c p h x. g.new c p h x.1;
  source = λ c p h. elim (g.source c p h) [ inl before ↦ inl before | inr x ↦ inr (refl, x) ];
}

module _ (ip : Netip) where
  abbrev pub FromSubnets : List Subnet → Prefix → Type 0
  FromSubnets subnets p = (s : Subnet) × Among s subnets × (parse_prefix_v4 ip s.cidr ≡ some p)

  collect_subnets-Gathers :
      (subnets : List Subnet) → Gathers (collect_subnets ip subnets) (FromSubnets subnets)
  unfolding collect_subnets
  collect_subnets-Gathers =
      for_each-Gathers (λ (s : Subnet). collect? (parse_prefix_v4 ip s.cidr))
        (λ s p. parse_prefix_v4 ip s.cidr ≡ some p)
        (λ s. collect?-Gathers (parse_prefix_v4 ip s.cidr))

  -- A prefix of a network that is shared and not external.
  abbrev pub FromShared : GoMap String (List Subnet) → List Network → Prefix → Type 0
  FromShared by_network networks p =
      (n : Network) × Among n networks
      × (((not n.shared || n.is_external) ≡ false) × FromSubnets (at by_network n.id) p)

  shared-Gathers :
      (by_network : GoMap String (List Subnet)) (networks : List Network)
      → Gathers (for_each (collect_shared ip by_network) networks) (FromShared by_network networks)
  shared-Gathers by_network =
      for_each-Gathers (collect_shared ip by_network)
        (λ n p. ((not n.shared || n.is_external) ≡ false) × FromSubnets (at by_network n.id) p)
        (λ n.
          if-Gathers (not n.shared || n.is_external) (collect_subnets ip (at by_network n.id))
            (FromSubnets (at by_network n.id)) (collect_subnets-Gathers (at by_network n.id)))

  pub Among-shared :
      (by_network : GoMap String (List Subnet)) (networks : List Network) (p : Prefix)
      → Among p (build_shared_prefixes ip networks by_network)
      → FromShared by_network networks p
  unfolding build_shared_prefixes
  Among-shared by_network networks p h =
      elim ((shared-Gathers by_network networks).source nothing_yet p h) [
        | inl none_there ↦ absurd none_there
        | inr x ↦ x
      ]

  pub shared-Among :
      (by_network : GoMap String (List Subnet)) (networks : List Network) (p : Prefix)
      → FromShared by_network networks p
      → Among p (build_shared_prefixes ip networks by_network)
  unfolding build_shared_prefixes
  shared-Among by_network networks p =
      (shared-Gathers by_network networks).new nothing_yet p nothing_yet-IsCollected

  -- An address of a port of the infrastructure.
  abbrev pub FromPorts : List Port → Prefix → Type 0
  FromPorts ports p =
      (q : Port) × Among q ports
      × ((not (is_infra_port q.device_owner) ≡ false)
          × ((f : FixedIp) × Among f q.fixed_ips
              × (parse_addr_v4_as_prefix ip f.ip_address ≡ some p)))

  addresses-Gathers :
      (fips : List FixedIp)
      → Gathers
          (collect_addresses ip fips)
          (λ p. (f : FixedIp) × Among f fips × (parse_addr_v4_as_prefix ip f.ip_address ≡ some p))
  unfolding collect_addresses
  addresses-Gathers =
      for_each-Gathers (λ (f : FixedIp). collect? (parse_addr_v4_as_prefix ip f.ip_address))
        (λ f p. parse_addr_v4_as_prefix ip f.ip_address ≡ some p)
        (λ f. collect?-Gathers (parse_addr_v4_as_prefix ip f.ip_address))

  ports-Gathers : (ports : List Port) → Gathers (for_each (collect_port ip) ports) (FromPorts ports)
  ports-Gathers =
      for_each-Gathers (collect_port ip)
        (λ q p.
          (not (is_infra_port q.device_owner) ≡ false)
          × ((f : FixedIp) × Among f q.fixed_ips
              × (parse_addr_v4_as_prefix ip f.ip_address ≡ some p)))
        (λ q.
          if-Gathers (not (is_infra_port q.device_owner)) (collect_addresses ip q.fixed_ips)
            (λ p.
              (f : FixedIp) × Among f q.fixed_ips
              × (parse_addr_v4_as_prefix ip f.ip_address ≡ some p))
            (addresses-Gathers q.fixed_ips))

  -- The gateway of an IPv4 subnet.
  abbrev pub FromGateways : List Subnet → Prefix → Type 0
  FromGateways subnets p =
      (s : Subnet) × Among s subnets
      × (((not (s.ip_version == 4) || str_eq s.gateway_ip "") ≡ false)
          × (parse_addr_v4_as_prefix ip s.gateway_ip ≡ some p))

  gateways-Gathers :
      (subnets : List Subnet)
      → Gathers (for_each (collect_gateway ip) subnets) (FromGateways subnets)
  gateways-Gathers =
      for_each-Gathers (collect_gateway ip)
        (λ s p.
          ((not (s.ip_version == 4) || str_eq s.gateway_ip "") ≡ false)
          × (parse_addr_v4_as_prefix ip s.gateway_ip ≡ some p))
        (λ s.
          if-Gathers (not (s.ip_version == 4) || str_eq s.gateway_ip "")
            (collect? (parse_addr_v4_as_prefix ip s.gateway_ip))
            (λ p. parse_addr_v4_as_prefix ip s.gateway_ip ≡ some p)
            (collect?-Gathers (parse_addr_v4_as_prefix ip s.gateway_ip)))

  pub Among-infra :
      (subnets : List Subnet) (ports : List Port) (p : Prefix)
      → Among p (build_infra_prefixes ip subnets ports)
      → FromPorts ports p ⊎ FromGateways subnets p
  unfolding build_infra_prefixes
  Among-infra subnets ports p h =
      elim ((gateways-Gathers subnets).source (for_each (collect_port ip) ports nothing_yet) p h) [
        | inl before ↦ elim ((ports-Gathers ports).source nothing_yet p before) [
          | inl none_there ↦ absurd none_there
          | inr x ↦ inl x
        ]
        | inr x ↦ inr x
      ]

  pub infra-Among :
      (subnets : List Subnet) (ports : List Port) (p : Prefix)
      → FromPorts ports p ⊎ FromGateways subnets p
      → Among p (build_infra_prefixes ip subnets ports)
  unfolding build_infra_prefixes
  infra-Among subnets ports p (inl x) =
      (gateways-Gathers subnets).old (for_each (collect_port ip) ports nothing_yet) p
        ((ports-Gathers ports).new nothing_yet p nothing_yet-IsCollected x)
  infra-Among subnets ports p (inr x) =
      (gateways-Gathers subnets).new (for_each (collect_port ip) ports nothing_yet) p
        ((ports-Gathers ports).kept nothing_yet nothing_yet-IsCollected) x
