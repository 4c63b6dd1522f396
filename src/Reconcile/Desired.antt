-- ===== src/Reconcile/Desired.antt =====
-- `DesiredMACs` of internal/reconcile/mac.go: what the metadata map should hold, from a snapshot of the cloud.
pub mod Admitted
use native.Mathlib.Decide.{ℕ_discrete}
use text.Mathlib.Text.{◌==◌ as str_eq}
use lachesis.Base.{
  ℕ, String, Bool, true, false, not, ◌||◌, Option, none, some, [], ◌∷◌, if◌then◌else◌,
}
use lachesis.Base.Text.{String-discrete}
use lachesis.Base.Among.{for_each}
use lachesis.Base.GoMap.{GoMap, get, put}
use lachesis.Bpf.{Mac, mac_key}
use lachesis.Metadata.{TenantMeta}
use lachesis.Neutron.{Netip, Port, Snapshot, is_vm_port}
use lachesis.Neutron.External.{text_at, external_network_by_port}
use lachesis.Neutron.Octavia.{amphora_owner_by_port}

-- The entry of a port, on what `ampByPort` holds, with the label of `extByPort`.
abbrev pub meta_of : Option String → Port → String → TenantMeta
meta_of none p ext = record {
  project_id = p.project_id;
  server_id = p.device_id;
  port_id = p.id;
  external_network = ext;
  is_amphora = false;
  delete_at = 0;
}
meta_of (some owner) p ext = record {
  project_id = owner;
  server_id = p.device_id;
  port_id = p.id;
  external_network = ext;
  is_amphora = true;
  delete_at = 0;
}

abbrev pub record_mac : Option Mac → TenantMeta → GoMap ℕ TenantMeta → GoMap ℕ TenantMeta
record_mac none meta desired = desired
record_mac (some hw) meta desired = put ℕ_discrete desired (mac_key hw) meta

-- `!IsVMPort(p.DeviceOwner) || p.ProjectID == "" || p.MACAddress == ""`
abbrev pub is_skipped : Port → Bool
is_skipped p = not (is_vm_port p.device_owner) || str_eq p.project_id "" || str_eq p.mac_address ""

module _ (ip : Netip) (equal_fold : String → String → Bool) where
  -- What the loop reads of the snapshot for a port.
  abbrev pub attribution_of : Snapshot → Port → TenantMeta
  attribution_of snap p =
      meta_of (get String-discrete (amphora_owner_by_port equal_fold snap) p.id) p
        (text_at (external_network_by_port snap) p.id)

  abbrev pub add_desired : Snapshot → Port → GoMap ℕ TenantMeta → GoMap ℕ TenantMeta
  add_desired snap p desired =
      if is_skipped p
      then desired
      else record_mac (ip.parse_mac p.mac_address) (attribution_of snap p) desired

  -- `DesiredMACs`
  unfoldable pub desired_macs : Snapshot → GoMap ℕ TenantMeta
  unfolding for_each amphora_owner_by_port external_network_by_port
  desired_macs snap = for_each (add_desired snap) snap.ports []
