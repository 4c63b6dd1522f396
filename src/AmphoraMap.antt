-- ===== src/AmphoraMap.antt =====
-- `WriteAmphoraBaseIPs` of internal/kernelwriter/writer.go: the set of addresses that load balancers send
-- from, keyed by `AmphoraKeyForIP` (internal/bpf/abi.go).
use text.Mathlib.Text.{◌==◌ as str_eq}
use lachesis.Base.{ℕ, ◌+◌, Bool, false, not, ◌||◌, List, [], ◌∷◌, if◌then◌else◌}
use lachesis.Metadata.Interner.{TenantInterner, intern}
use lachesis.Neutron.Octavia.{AmphoraBaseIp}

pub record AmphoraKey : Type 0 where
  pub tenant_id : ℕ
  pub ip : ℕ

-- `MapUpdater`, on `amphora_base_ip`, whose values are always 1; a call may fail
pub record AmphoraMap : Type 1 where
  pub Kernel : Type 0
  pub update : Kernel → AmphoraKey → Bool × Kernel

-- The kernel's map, the interner, the count and `firstErr != nil` while the writes run.
pub record Progress (A : AmphoraMap) : Type 0 where
  pub kernel : A.Kernel
  pub interner : TenantInterner
  pub written : ℕ
  pub failed : Bool

module _ (A : AmphoraMap) (native_endian : ℕ → ℕ) where
  -- `AmphoraKeyForIP` on an IPv4 address
  abbrev pub amphora_key_for_ip : ℕ → ℕ → AmphoraKey
  amphora_key_for_ip tenant_id addr = record { tenant_id = tenant_id; ip = native_endian addr }

  -- After the call of `Update`.
  abbrev pub counted : TenantInterner → Bool × A.Kernel → Progress A → Progress A
  counted interner (ok, kernel) s = record {
    kernel = kernel;
    interner = interner;
    written = if ok then s.written + 1 else s.written;
    failed = s.failed || not ok;
  }

  -- One round of the loop.
  unfoldable pub write_base_ip : AmphoraBaseIp → Progress A → Progress A
  unfolding intern
  write_base_ip e s =
      let (tid, interner) = intern s.interner e.project_id in
      if str_eq e.project_id ""
      then s
      else counted interner (A.update s.kernel (amphora_key_for_ip tid e.addr)) s

  unfoldable pub write_base_ips : List AmphoraBaseIp → Progress A → Progress A
  unfolding write_base_ip
  write_base_ips [] s = s
  write_base_ips (e ∷ entries) s = write_base_ips entries (write_base_ip e s)

  -- `WriteAmphoraBaseIPs`
  unfoldable pub write_amphora_base_ips :
      List AmphoraBaseIp → TenantInterner → A.Kernel → Progress A
  unfolding write_base_ips
  write_amphora_base_ips entries interner kernel =
      write_base_ips entries
        (record { kernel = kernel; interner = interner; written = 0; failed = false })
