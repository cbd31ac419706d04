-- ===== src/Core/Domain.antt =====
-- core/domain/execution.py, core/domain/approval.py and core/domain/agent_manifest.py: records and
-- their validation. Money is left out of an execution; times are in milliseconds, and the budget of
-- a manifest in cents, so that it is never negative.
use kitematic.Base.{
  ℕ, ◌-◌, String, is_empty, Bool, true, false, Option, some, List, [], ◌∷◌, ◌++◌, length, ltb, ◌==◌,
  if◌then◌else◌,
}

pub data RecordedStatus : Type 0 where
  pending running paused completed failed : RecordedStatus

pub record BudgetConsumed : Type 0 where
  pub tokens : ℕ
  pub time_ms : ℕ

pub record ExecutionStep : Type 0 where
  pub step_number : ℕ
  pub node_name : String
  pub runtime : String
  pub input_state_hash : Option String
  pub output_state_hash : Option String

pub record Execution : Type 0 where
  pub execution_id : String
  pub tenant_id : String
  pub agent_instance_id : String
  pub agent_manifest_version : String
  pub status : RecordedStatus
  pub goal : String
  pub steps : List ExecutionStep
  pub budget_consumed : BudgetConsumed
  pub started_at : Option ℕ
  pub completed_at : Option ℕ

abbrev needed : String → String → List String
needed field error = if is_empty field then error ∷ [] else []

unfoldable pub validate_execution : Execution → List String
validate_execution e =
    needed e.execution_id "execution_id is required"
    ++ needed e.agent_instance_id "agent_instance_id is required"
    ++ needed e.goal "goal is required"

unfoldable pub execution_is_valid : Execution → Bool
unfolding validate_execution
execution_is_valid e = length (validate_execution e) == 0

unfoldable pub step_count : Execution → ℕ
step_count e = length e.steps

unfoldable pub total_tokens : Execution → ℕ
total_tokens e = e.budget_consumed.tokens

-- The end is not before the start.
unfoldable pub duration_between : Option ℕ → Option ℕ → ℕ
duration_between (some start) (some end) = end - start
duration_between _ _ = 0

unfoldable pub duration_ms : Execution → ℕ
unfolding duration_between
duration_ms e = duration_between e.started_at e.completed_at

pub data ApprovalStatus : Type 0 where
  approval_pending approved rejected expired : ApprovalStatus

pub data RiskLevel : Type 0 where
  low medium high critical : RiskLevel

pub record ApprovalRequest : Type 0 where
  pub approval_id : String
  pub execution_id : String
  pub agent_instance_id : String
  pub action : String
  pub risk_level : RiskLevel
  pub status : ApprovalStatus
  pub reason : String
  pub payload : String
  pub approved_by : Option String
  pub rejection_reason : Option String
  pub expires_at : Option ℕ
  pub created_at : Option ℕ

unfoldable pub validate_approval : ApprovalRequest → List String
validate_approval a =
    needed a.approval_id "approval_id is required"
    ++ needed a.execution_id "execution_id is required"
    ++ needed a.action "action is required"

unfoldable pub approval_is_valid : ApprovalRequest → Bool
unfolding validate_approval
approval_is_valid a = length (validate_approval a) == 0

unfoldable pub decided_status : ApprovalStatus → Bool
decided_status approved = true
decided_status rejected = true
decided_status _ = false

unfoldable pub is_decided : ApprovalRequest → Bool
unfolding decided_status
is_decided a = decided_status a.status

unfoldable pub expired_by : Option ℕ → Option ℕ → (now : ℕ) → Bool
expired_by (some expires) (some created) now = ltb expires now
expired_by _ _ now = false

unfoldable pub approval_is_expired : (now : ℕ) → ApprovalRequest → Bool
unfolding expired_by
approval_is_expired now a = expired_by a.expires_at a.created_at now

pub record AgentIdentity : Type 0 where
  pub name : String
  pub role : String
  pub goal : String

pub record RuntimeDefinition : Type 0 where
  pub framework : String
  pub entrypoint : String
  pub runtime_contract_version : String

pub record AgentConstraints : Type 0 where
  pub max_budget_cents : ℕ
  pub max_loops : ℕ
  pub max_tokens_per_run : ℕ
  pub human_escalation_triggers : List String

pub record AgentManifest : Type 0 where
  pub agent_id : String
  pub version : String
  pub tenant_id : String
  pub identity : AgentIdentity
  pub runtime_definition : RuntimeDefinition
  pub allowed_tools : List String
  pub allowed_models : List String
  pub constraints : AgentConstraints
  pub policy_profile : String

unfoldable pub validate_agent : AgentManifest → List String
validate_agent m =
    needed m.agent_id "agent_id is required"
    ++ needed m.version "version is required"
    ++ needed m.tenant_id "tenant_id is required"
    ++ needed m.identity.name "identity.name is required"
    ++ needed m.runtime_definition.framework "runtime_definition.framework is required"
    ++ (if ltb m.constraints.max_loops 1 then "max_loops must be >= 1" ∷ [] else [])

unfoldable pub agent_is_valid : AgentManifest → Bool
unfolding validate_agent
agent_is_valid m = length (validate_agent m) == 0
