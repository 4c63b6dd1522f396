-- ===== src/Bpf.antt =====
-- The kernel-facing vocabulary: internal/bpf/schema.go and internal/bpf/abi.go. The generated types
-- are read off bpf/telemetry.c; the pad byte of `flow_key`, which is always zero, is left out.
pub mod Packing
use lachesis.Base.{ℕ, ◌+◌, ◌*◌, ◌^◌, Bool, if◌then◌else◌, ◌==◌, ◌≡◌}
use native.Mathlib.Decide.{ℕ_discrete}

-- `[6]uint8`, the most significant byte first
pub record Mac : Type 0 where
  pub b0 : ℕ
  pub b1 : ℕ
  pub b2 : ℕ
  pub b3 : ℕ
  pub b4 : ℕ
  pub b5 : ℕ

pub record FlowKey : Type 0 where
  pub src_mac : Mac
  pub dst_mac : Mac
  pub eth_proto : ℕ
  pub direction : ℕ
  pub dst_zone : ℕ
  pub l4_proto : ℕ

pub record FlowMetrics : Type 0 where
  pub bytes : ℕ
  pub packets : ℕ
  pub last_seen_ns : ℕ
  pub created_ns : ℕ

abbrev pub zone_external : ℕ
zone_external = 0

abbrev pub zone_same_tenant : ℕ
zone_same_tenant = 1

abbrev pub zone_other_tenant : ℕ
zone_other_tenant = 2

abbrev pub zone_infra : ℕ
zone_infra = 3

abbrev pub zone_miss : ℕ
zone_miss = 4

abbrev pub zone_shared : ℕ
zone_shared = 5

abbrev pub zone_multicast : ℕ
zone_multicast = 6

abbrev pub direction_ingress : ℕ
direction_ingress = 0

abbrev pub direction_egress : ℕ
direction_egress = 1

-- `var zero [6]uint8`
abbrev pub zero_mac : Mac
zero_mac = record { b0 = 0; b1 = 0; b2 = 0; b3 = 0; b4 = 0; b5 = 0 }

-- `FlowMetrics{}`
abbrev pub zero_metrics : FlowMetrics
zero_metrics = record { bytes = 0; packets = 0; last_seen_ns = 0; created_ns = 0 }

unfoldable pub Mac-discrete : Discrete Mac
Mac-discrete = hlevel ℕ_discrete

unfoldable pub FlowKey-discrete : Discrete FlowKey
unfolding Mac-discrete
FlowKey-discrete = hlevel (ℕ_discrete, Mac-discrete)

-- `MACKey`: the six bytes, shifted into place and joined; a byte is below 256, so `|` is `+`
unfoldable pub mac_key : Mac → ℕ
mac_key m = m.b0 * 2 ^ 40 + m.b1 * 2 ^ 32 + m.b2 * 2 ^ 24 + m.b3 * 2 ^ 16 + m.b4 * 2 ^ 8 + m.b5

abbrev pub tenant_amphora_flag : ℕ
tenant_amphora_flag = 0x8000_0000

abbrev pub tenant_id_mask : ℕ
tenant_id_mask = 0x7fff_ffff

abbrev pub lpm_key_tenant_bits : ℕ
lpm_key_tenant_bits = 32
