-- ===== src/State/Schema.antt =====
-- internal/state/schema.go: the values that the store keeps, emits and writes to the log.
use native.Mathlib.Decide.{ℕ_discrete}
use lachesis.Base.{ℕ, String}
use lachesis.Base.Text.{String-discrete}
use lachesis.Bpf.{FlowKey, FlowMetrics}

pub record Counter : Type 0 where
  pub total : FlowMetrics
  pub last_ebpf_raw : FlowMetrics

pub record Entry : Type 0 where
  pub key : FlowKey
  pub total : FlowMetrics

-- The zero value, with an empty tenant, means "did not resolve".
pub record Owner : Type 0 where
  pub tenant : String
  pub ext_net : String
  pub server : String

pub record Record : Type 0 where
  pub key : FlowKey
  pub counter : Counter
  pub owner : Owner

pub record TenantSettledKey : Type 0 where
  pub tenant : String
  pub ext_net : String
  pub zone : ℕ
  pub dir : ℕ

pub record ServerSettledKey : Type 0 where
  pub server_id : String
  pub tenant : String
  pub ext_net : String
  pub zone : ℕ
  pub dir : ℕ

pub record TotalSettledKey : Type 0 where
  pub ext_net : String
  pub zone : ℕ
  pub dir : ℕ

-- TenantSettledRecord, ServerSettledRecord and TotalSettledRecord differ in their key alone.
pub record SettledRecord (K : Type 0) : Type 0 where
  pub key : K
  pub bytes : ℕ
  pub packets : ℕ

-- `settledTotal` of state.go
pub record SettledTotal : Type 0 where
  pub bytes : ℕ
  pub packets : ℕ

pub data SettleMode : Type 0 where
  settle_evict settle_rebase : SettleMode

unfoldable pub TenantSettledKey-discrete : Discrete TenantSettledKey
unfolding String-discrete
TenantSettledKey-discrete = hlevel (ℕ_discrete, String-discrete)

unfoldable pub ServerSettledKey-discrete : Discrete ServerSettledKey
unfolding String-discrete
ServerSettledKey-discrete = hlevel (ℕ_discrete, String-discrete)

unfoldable pub TotalSettledKey-discrete : Discrete TotalSettledKey
unfolding String-discrete
TotalSettledKey-discrete = hlevel (ℕ_discrete, String-discrete)

unfoldable pub Owner-discrete : Discrete Owner
unfolding String-discrete
Owner-discrete = hlevel String-discrete
