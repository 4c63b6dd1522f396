-- ===== src/Neutron.antt =====
-- The view of an OpenStack cloud: internal/neutron/types.go, schema.go and deviceowner.go. Texts are
-- parsed by Go's netip and net, which are a parameter (`Netip`); the parsed values stand here.
pub mod Topology
pub mod Routes
pub mod Builder
pub mod External
pub mod Octavia
pub mod Lookup
use text.Mathlib.Text.{◌==◌ as str_eq, starts_with}
use lachesis.Base.{
  ℕ, ◌-◌, ◌*◌, ◌/◌, ◌^◌, String, Bool, true, false, ◌||◌, Option, List, ◌==◌, if◌then◌else◌,
}
use lachesis.Bpf.{Mac}
use lachesis.Trie.{Prefix, TrieEntry}

-- `netip.Addr`: an IPv4 address, or one that `Is4` refuses
pub data Addr : Type 0 where
  v4 v6 : ℕ → Addr

-- `netip.Prefix`: of IPv4, or of an address that `Is4` refuses, with its number of bits
pub data NetPrefix : Type 0 where
  prefix_v4 : Prefix → NetPrefix
  prefix_v6 : ℕ → ℕ → NetPrefix

-- `netip.ParsePrefix`, `netip.ParseAddr` and `net.ParseMAC`, with `none` for an error and for a hardware
-- address that has not six bytes; and `String` of an IPv4 address and of an IPv4 prefix.
pub record Netip : Type 0 where
  pub parse_prefix : String → Option NetPrefix
  pub parse_addr : String → Option Addr
  pub parse_mac : String → Option Mac
  pub addr_string : ℕ → String
  pub prefix_string : Prefix → String

-- `Prefix.Contains` on IPv4: the leading bits are the same
unfoldable pub contains_v4 : Prefix → ℕ → Bool
contains_v4 p ip = p.addr / 2 ^ (32 - p.bits) == ip / 2 ^ (32 - p.bits)

-- `Prefix.Contains` of an IPv4 address: a prefix holds no address of the other family
unfoldable pub contains : NetPrefix → ℕ → Bool
unfolding contains_v4
contains (prefix_v4 p) ip = contains_v4 p ip
contains (prefix_v6 addr bits) ip = false

-- `Prefix.Masked`
unfoldable pub masked : Prefix → Prefix
masked p = record p { addr = p.addr / 2 ^ (32 - p.bits) * 2 ^ (32 - p.bits) }

pub record Network : Type 0 where
  pub id : String
  pub project_id : String
  pub name : String
  pub shared : Bool
  pub is_external : Bool

pub record Subnet : Type 0 where
  pub id : String
  pub network_id : String
  pub project_id : String
  pub cidr : String
  pub gateway_ip : String
  pub ip_version : ℕ

pub record FixedIp : Type 0 where
  pub subnet_id : String
  pub ip_address : String

pub record Port : Type 0 where
  pub id : String
  pub network_id : String
  pub project_id : String
  pub mac_address : String
  pub device_owner : String
  pub device_id : String
  pub fixed_ips : List FixedIp

pub record FloatingIp : Type 0 where
  pub id : String
  pub port_id : String
  pub floating_network_id : String

pub record LoadBalancer : Type 0 where
  pub id : String
  pub project_id : String
  pub provider : String

pub record Amphora : Type 0 where
  pub id : String
  pub load_balancer_id : String
  pub compute_id : String
  pub lb_network_ip : String
  pub status : String

pub record Route : Type 0 where
  pub destination : String
  pub nexthop : String

pub record Router : Type 0 where
  pub id : String
  pub project_id : String
  pub name : String
  pub external_network_id : String
  pub routes : List Route

-- The lists that attribution and the trie read; those of projects and servers only name things.
pub record Snapshot : Type 0 where
  pub networks : List Network
  pub subnets : List Subnet
  pub ports : List Port
  pub routers : List Router
  pub floating_ips : List FloatingIp
  pub load_balancers : List LoadBalancer
  pub amphorae : List Amphora

abbrev pub device_owner_network_prefix : String
device_owner_network_prefix = "network:"

abbrev pub device_owner_compute_prefix : String
device_owner_compute_prefix = "compute:"

abbrev pub device_owner_router_interface : String
device_owner_router_interface = "network:router_interface"

-- `IsInfraPort`
unfoldable pub is_infra_port : String → Bool
is_infra_port device_owner =
    if starts_with device_owner device_owner_network_prefix
    then if str_eq device_owner "network:floatingip" then false else true
    else false

-- `IsVMPort`
unfoldable pub is_vm_port : String → Bool
is_vm_port device_owner =
    if str_eq device_owner ""
    then false
    else if starts_with device_owner device_owner_network_prefix
    then false
    else true

-- `IsComputePort`
unfoldable pub is_compute_port : String → Bool
is_compute_port device_owner = starts_with device_owner device_owner_compute_prefix

abbrev pub default_max_static_route_hops : ℕ
default_max_static_route_hops = 16

-- 169.254.169.254/32
abbrev pub metadata_prefix : Prefix
metadata_prefix = record { addr = 0xa9fe_a9fe; bits = 32 }

-- 0.0.0.0/0
abbrev pub catchall : Prefix
catchall = record { addr = 0; bits = 0 }
