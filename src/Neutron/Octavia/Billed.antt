-- ===== src/Neutron/Octavia/Billed.antt =====
-- internal/neutron/octavia.go: who a port of an Amphora bills to.
use text.Mathlib.Text.{◌==◌ as str_eq}
use lachesis.Base.{◌≡◌, ◌≢◌, String, Bool, true, false}
use lachesis.Base.Among.{Among}
use lachesis.Base.GoMap.{GoMap}
use lachesis.Base.GoMap.Range.{AllRows}
use lachesis.Neutron.{Port, LoadBalancer, Amphora, Snapshot}
use lachesis.Neutron.Octavia.{
  AmphoraBinding, is_management_port, is_amphora_provider, amphora_status_deleted,
}

-- A load balancer on an Amphora provider belongs to the project.
pub record IsOwned (equal_fold : String → String → Bool) (snap : Snapshot) (id project : String)
    : Type 0 where
  pub lb : LoadBalancer
  pub there : Among lb snap.load_balancers
  pub named : project ≢ ""
  pub same : lb.id ≡ id
  pub owner : lb.project_id ≡ project
  pub provider : is_amphora_provider equal_fold lb.provider ≡ true

-- An Amphora that is not deleted runs on the instance, for such a load balancer.
pub record IsBound (equal_fold : String → String → Bool) (snap : Snapshot) (instance_id : String)
    (b : AmphoraBinding) : Type 0 where
  pub amphora : Amphora
  pub there : Among amphora snap.amphorae
  pub alive : equal_fold amphora.status amphora_status_deleted ≡ false
  pub same : amphora.compute_id ≡ instance_id
  pub mgmt : amphora.lb_network_ip ≡ b.mgmt_ip
  pub serves : IsOwned equal_fold snap amphora.load_balancer_id b.owner

-- A port of the instance with this id is not the management port.
pub record IsBilled (equal_fold : String → String → Bool) (snap : Snapshot) (id project : String)
    : Type 0 where
  pub port : Port
  pub there : Among port snap.ports
  pub same : port.id ≡ id
  pub binding : AmphoraBinding
  pub owner : binding.owner ≡ project
  pub bound : IsBound equal_fold snap port.device_id binding
  pub traffic : is_management_port binding port ≡ false

module _ (equal_fold : String → String → Bool) (snap : Snapshot) where
  abbrev Owned : GoMap String String → Type 0
  Owned m = AllRows (IsOwned equal_fold snap) m

  abbrev Bound : GoMap String AmphoraBinding → Type 0
  Bound m = AllRows (IsBound equal_fold snap) m

  abbrev Billed : GoMap String String → Type 0
  Billed m = AllRows (IsBilled equal_fold snap) m
