-- ===== src/Tests/Rounds.antt =====
-- The theorems on a snapshot and on whole passes, at a cloud with a VM, a router to the outside, and an Amphora.
use text.Mathlib.Text.{◌==◌ as str_eq}
use lachesis.Base.{String, ◌≡◌, ◌↔◌, ◌⊎◌, refl, true, false, none, some, [], ◌∷◌, if◌then◌else◌}
use lachesis.Base.Text.{String-discrete}
use lachesis.Base.Among.{Among, for_each, append_each, sort}
use lachesis.Base.GoMap.{get, put}
use lachesis.Neutron.{v4, Netip, Network, Subnet, Port, Snapshot, is_vm_port}
use lachesis.Neutron.External.{external_network_by_port}
use lachesis.Neutron.External.Attributed.{IsAttributed, external_network_by_port-IsExit}
use lachesis.Neutron.Octavia.{amphora_base_ips, AmphoraBaseIp}
use lachesis.Neutron.Octavia.Addresses.{IsBaseIp, Among-amphora_base_ips}
use lachesis.Tests.Data.{vm, peer}

abbrev vm_text : String
vm_text = "02:00:00:00:00:07"

abbrev peer_text : String
peer_text = "02:00:00:00:00:09"

abbrev pub addresses : Netip
addresses = record {
  parse_prefix = λ s. none;
  parse_addr = λ s. if str_eq s "10.0.0.9" then some (v4 0x0a00_0009) else none;
  parse_mac =
      λ s. if str_eq s vm_text then some vm else if str_eq s peer_text then some peer else none;
  addr_string = λ a. "";
  prefix_string = λ p. "";
}

abbrev inside : Network
inside = record { id = "n1"; project_id = "red"; name = "lan"; shared = false; is_external = false }

abbrev subnet : Subnet
subnet = record {
  id = "s1";
  network_id = "n1";
  project_id = "red";
  cidr = "10.0.0.0/24";
  gateway_ip = "10.0.0.1";
  ip_version = 4;
}

abbrev pub web : Port
web = record {
  id = "p7";
  network_id = "n1";
  project_id = "red";
  mac_address = vm_text;
  device_owner = "compute:nova";
  device_id = "i7";
  fixed_ips = record { subnet_id = "s1"; ip_address = "10.0.0.7" } ∷ [];
}

abbrev balancer_port : Port
balancer_port = record web {
  id = "p9";
  project_id = "service";
  mac_address = peer_text;
  device_id = "i9";
  fixed_ips = record { subnet_id = "s1"; ip_address = "10.0.0.9" } ∷ [];
}

abbrev gateway : Port
gateway = record web {
  id = "p1";
  mac_address = "";
  device_owner = "network:router_interface";
  device_id = "r1";
  fixed_ips = record { subnet_id = "s1"; ip_address = "10.0.0.1" } ∷ [];
}

abbrev pub site : Snapshot
site = record {
  networks = inside ∷ record inside { id = "n2"; name = "wan"; is_external = true } ∷ [];
  subnets = subnet ∷ [];
  ports = web ∷ balancer_port ∷ gateway ∷ [];
  routers =
      record {
        id = "r1";
        project_id = "red";
        name = "edge";
        external_network_id = "n2";
        routes = [];
      }
      ∷ [];
  floating_ips = [];
  load_balancers = record { id = "lb"; project_id = "red"; provider = "amphora" } ∷ [];
  amphorae =
      record {
        id = "a1";
        load_balancer_id = "lb";
        compute_id = "i9";
        lb_network_ip = "172.16.0.9";
        status = "ALLOCATED";
      }
      ∷ [];
}

-- The VM leaves through the router that holds the gateway.
web-labelled : get String-discrete (external_network_by_port site) "p7" ≡ some "wan"
unfolding external_network_by_port for_each append_each get put String-discrete sort is_vm_port
web-labelled = refl

external_network_by_port-IsExit_example :
    ((l : String) × (get String-discrete (external_network_by_port site) "p7" ≡ some l)
      × IsAttributed site "p7" l)
    ⊎ ((get String-discrete (external_network_by_port site) "p7" ≡ none)
        × (¬ ((l : String) × IsAttributed site "p7" l)))
external_network_by_port-IsExit_example = external_network_by_port-IsExit site "p7"

abbrev balancer : AmphoraBaseIp
balancer = record { project_id = "red"; addr = 0x0a00_0009 }

Among-amphora_base_ips_example :
    Among balancer (amphora_base_ips addresses str_eq site)
    ↔ IsBaseIp addresses str_eq site balancer
Among-amphora_base_ips_example = Among-amphora_base_ips addresses str_eq site balancer
