-- ===== src/Kernel/Errors.antt =====
-- The exceptions of kernel/exceptions.py, kernel/isolation.py and kernel/resources/, and their text.
use kitematic.Base.{String, ◌<>◌, ℕ, show, List, repr_list}

pub data Error : Type 0 where
  -- kernel/isolation.py
  missing_tenant_context : Error
  tenant_not_found : String → Error
  agent_not_in_tenant : (agent expected actual : String) → Error
  cross_tenant_access : (requesting target resource : String) → Error
  cross_agent_access : (requesting target resource : String) → Error
  resource_limit_exceeded : (tenant_id limit_type : String) (current max_val : ℕ) → Error
  -- kernel/exceptions.py
  orchestration_failed : (reason : String) → Error
  gateway_access : (tool reason : String) → Error
  checkpoint_persistence : (operation reason : String) → Error
  invalid_state_transition : (current target : String) (valid : List String) → Error
  -- kernel/resources/
  tool_not_found : String → Error
  tool_already_registered : String → Error
  tool_capability_mismatch : String → (required provided : List String) → Error
  budget_exhausted : (steps tokens max_steps max_tokens : ℕ) → Error
  -- Python's `ValueError`, and any other exception of a collaborator, with its text
  value_error : String → Error
  other : String → Error

-- `str(e)`
unfoldable pub message : Error → String
message missing_tenant_context = "No tenant context — execution denied"
message (tenant_not_found tenant_id) = "Tenant not found: " <> tenant_id
message (agent_not_in_tenant agent expected actual) =
    "Agent '" <> agent <> "' not in tenant '" <> expected <> "' (registered with '" <> actual
    <> "')"
message (cross_tenant_access requesting target resource) =
    "Cross-tenant access denied: tenant '" <> requesting <> "' cannot access '" <> resource
    <> "' in tenant '" <> target <> "'"
message (cross_agent_access requesting target resource) =
    "Cross-agent access denied: agent '" <> requesting <> "' cannot access '" <> resource
    <> "' owned by agent '" <> target <> "'"
message (resource_limit_exceeded tenant_id limit_type current max_val) =
    "Resource limit exceeded for tenant '"
    <> tenant_id
    <> "': "
    <> limit_type
    <> " = "
    <> show current
    <> " > "
    <> show max_val
message (orchestration_failed reason) = "Orchestration failed: " <> reason
message (gateway_access tool reason) = "Gateway access failed for tool '" <> tool <> "': " <> reason
message (checkpoint_persistence operation reason) =
    "Checkpoint " <> operation <> " failed: " <> reason
message (invalid_state_transition current target valid) =
    "Invalid transition: " <> current <> " → " <> target <> ". Valid: " <> repr_list valid
message (tool_not_found tool_id) = "Tool not found: " <> tool_id
message (tool_already_registered tool_id) = "Tool already registered: " <> tool_id
message (tool_capability_mismatch tool_id required provided) =
    "Tool '"
    <> tool_id
    <> "' requires capabilities "
    <> repr_list required
    <> ", agent has "
    <> repr_list provided
message (budget_exhausted steps tokens max_steps max_tokens) =
    "Budget exhausted: steps="
    <> show steps
    <> "/"
    <> show max_steps
    <> ", tokens="
    <> show tokens
    <> "/"
    <> show max_tokens
message (value_error text) = text
message (other text) = text
