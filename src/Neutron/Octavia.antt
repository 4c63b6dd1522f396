-- ===== src/Neutron/Octavia.antt =====
-- internal/neutron/octavia.go: the ports of Amphora instances, and the project that each bills to. The
-- comparison `strings.EqualFold` is a parameter.
pub mod Addresses
pub mod Billed
use text.Mathlib.Text.{◌==◌ as str_eq}
use lachesis.Base.{
  ℕ, String, Bool, true, false, not, ◌||◌, ◌&&◌, Option, none, some, List, [], ◌∷◌, ◌++◌,
  if◌then◌else◌,
}
use lachesis.Base.Text.{String-discrete}
use lachesis.Base.Among.{for_each, append_each}
use lachesis.Base.GoMap.{GoMap, get, put}
use lachesis.Neutron.{Addr, v4, v6, Netip, FixedIp, Port, LoadBalancer, Amphora, Snapshot}

abbrev pub provider_amphora : String
provider_amphora = "amphora"

abbrev pub provider_amphora_alias : String
provider_amphora_alias = "octavia"

abbrev pub amphora_status_deleted : String
amphora_status_deleted = "DELETED"

-- `amphoraBinding`
pub record AmphoraBinding : Type 0 where
  pub owner : String
  pub mgmt_ip : String

-- `AmphoraBaseIP`
pub record AmphoraBaseIp : Type 0 where
  pub project_id : String
  pub addr : ℕ

-- `portHasIP`, on the addresses of the port
unfoldable pub port_has_ip : List FixedIp → String → Bool
port_has_ip [] ip = false
port_has_ip (f ∷ fips) ip =
    let rest = port_has_ip fips ip in if str_eq f.ip_address ip then true else rest

-- `isManagementPort`
unfoldable pub is_management_port : AmphoraBinding → Port → Bool
unfolding port_has_ip
is_management_port b p = not (str_eq b.mgmt_ip "") && port_has_ip p.fixed_ips b.mgmt_ip

abbrev pub add_data_port : Option AmphoraBinding → Port → GoMap String String → GoMap String String
add_data_port none p out = out
add_data_port (some amp) p out =
    if is_management_port amp p then out else put String-discrete out p.id amp.owner

-- `amphoraDataPorts`
unfoldable pub amphora_data_ports : List Port → GoMap String AmphoraBinding → GoMap String String
unfolding for_each is_management_port
amphora_data_ports ports [] = []
amphora_data_ports ports (amp ∷ amps) =
    for_each (λ (p : Port). add_data_port (get String-discrete (amp ∷ amps) p.device_id) p) ports []

module _ (equal_fold : String → String → Bool) where
  -- `isAmphoraProvider`
  unfoldable pub is_amphora_provider : String → Bool
  is_amphora_provider provider =
      str_eq provider ""
      || equal_fold provider provider_amphora
      || equal_fold provider provider_amphora_alias

  unfoldable pub add_lb_owner : LoadBalancer → GoMap String String → GoMap String String
  unfolding is_amphora_provider
  add_lb_owner lb out =
      if str_eq lb.id "" || str_eq lb.project_id ""
      then out
      else if not (is_amphora_provider lb.provider)
      then out
      else put String-discrete out lb.id lb.project_id

  -- `amphoraLBOwners`
  unfoldable pub amphora_lb_owners : List LoadBalancer → GoMap String String
  unfolding for_each add_lb_owner
  amphora_lb_owners lbs = for_each add_lb_owner lbs []

  abbrev pub bind_amphora :
      Amphora → Option String → GoMap String AmphoraBinding → GoMap String AmphoraBinding
  bind_amphora a none out = out
  bind_amphora a (some owner) out =
      put String-discrete out a.compute_id (record { owner = owner; mgmt_ip = a.lb_network_ip })

  unfoldable pub add_binding :
      GoMap String String → Amphora → GoMap String AmphoraBinding → GoMap String AmphoraBinding
  add_binding owners a out =
      if str_eq a.compute_id "" || equal_fold a.status amphora_status_deleted
      then out
      else bind_amphora a (get String-discrete owners a.load_balancer_id) out

  -- `amphoraBindings`
  unfoldable pub amphora_bindings : List Amphora → GoMap String String → GoMap String AmphoraBinding
  unfolding for_each add_binding
  amphora_bindings amphorae [] = []
  amphora_bindings amphorae (owner ∷ owners) = for_each (add_binding (owner ∷ owners)) amphorae []

  -- `AmphoraOwnerByPort`
  unfoldable pub amphora_owner_by_port : Snapshot → GoMap String String
  unfolding amphora_lb_owners amphora_bindings amphora_data_ports
  amphora_owner_by_port snap =
      amphora_data_ports snap.ports
        (amphora_bindings snap.amphorae (amphora_lb_owners snap.load_balancers))

abbrev pub base_ip : String → Option Addr → List AmphoraBaseIp
base_ip owner none = []
base_ip owner (some (v4 a)) = record { project_id = owner; addr = a } ∷ []
base_ip owner (some (v6 a)) = []

module _ (ip : Netip) (equal_fold : String → String → Bool) where
  abbrev pub base_ips_of : Option String → Port → List AmphoraBaseIp
  base_ips_of none p = []
  base_ips_of (some owner) p =
      append_each (λ (f : FixedIp). base_ip owner (ip.parse_addr f.ip_address)) p.fixed_ips []

  -- `AmphoraBaseIPs`; without a port in the map, no port adds an address
  unfoldable pub amphora_base_ips : Snapshot → List AmphoraBaseIp
  unfolding append_each amphora_owner_by_port
  amphora_base_ips snap =
      let by_port = amphora_owner_by_port equal_fold snap in
      append_each (λ (p : Port). base_ips_of (get String-discrete by_port p.id) p) snap.ports []
