-- ===== src/Kernel/Isolation.antt =====
-- kernel/isolation.py: the registered tenants and agents, ownership checks and execution counts.
-- The time at which an agent was registered is not modelled.
pub mod Counts
pub mod Ownership
use kitematic.Base.{
  ℕ, ◌+◌, ◌-◌, String, ◌<>◌, str_eq, repr_list, Bool, true, not, Option, none, some, List, [], map,
  select, get_or, leb, if◌then◌else◌, Outcome, returned, raised, ◌>>=◌, ◌>>◌, raise_if,
}
use kitematic.Base.Dict.{Dict, lookup, contains, insert, keys, values}
use kitematic.Kernel.Errors.{
  Error, missing_tenant_context, tenant_not_found, agent_not_in_tenant, cross_tenant_access,
  cross_agent_access, resource_limit_exceeded, value_error,
}
use kitematic.Kernel.Tenant.{
  TenantModel, TenantContext, validate_tenant, tenant_is_valid, context_is_valid,
}

pub record AgentRecord : Type 0 where
  pub agent_id : String
  pub tenant_id : String

pub record Isolation : Type 0 where
  pub tenants : Dict TenantModel
  pub agents : Dict AgentRecord
  pub execution_counts : Dict ℕ

abbrev pub new_isolation : Isolation
new_isolation = record { tenants = []; agents = []; execution_counts = [] }

module _ (b : Isolation) where
  unfoldable pub register_tenant : TenantModel → Outcome Error Isolation
  unfolding tenant_is_valid
  register_tenant t =
      if not (tenant_is_valid t)
      then raised (value_error ("Invalid tenant: " <> repr_list (validate_tenant t)))
      else returned (record b { tenants = insert t.tenant_id t b.tenants })

  unfoldable pub register_agent : String → String → Outcome Error Isolation
  register_agent agent_id tenant_id =
      if not (contains tenant_id b.tenants)
      then raised (tenant_not_found tenant_id)
      else returned (record b {
        agents = insert agent_id (record { agent_id = agent_id; tenant_id = tenant_id }) b.agents;
      })

  unfoldable pub get_tenant : String → Option TenantModel
  get_tenant tenant_id = lookup tenant_id b.tenants

  unfoldable pub get_agent_tenant : String → Option String
  get_agent_tenant agent_id = elim (lookup agent_id b.agents) [
    | none ↦ none
    | some r ↦ some r.tenant_id
  ]

  unfoldable pub list_tenants : List String
  list_tenants = keys b.tenants

  unfoldable pub list_agents : String → List String
  list_agents tenant_id =
      map (λ a. a.agent_id) (select (λ a. str_eq a.tenant_id tenant_id) (values b.agents))

  unfoldable pub validate_agent_scope : String → String → Outcome Error Bool
  validate_agent_scope agent_id tenant_id = elim (lookup agent_id b.agents) [
    | none ↦ raised (agent_not_in_tenant agent_id tenant_id "unregistered")
    | some r ↦
        if not (str_eq r.tenant_id tenant_id)
        then raised (agent_not_in_tenant agent_id tenant_id r.tenant_id)
        else returned true
  ]

  unfoldable pub validate_tenant_context : TenantContext → Outcome Error Bool
  unfolding validate_agent_scope
  validate_tenant_context c = do
    raise_if (not (context_is_valid c)) missing_tenant_context
    raise_if (not (contains c.tenant_id b.tenants)) (tenant_not_found c.tenant_id)
    _ ← validate_agent_scope c.agent_id c.tenant_id
    returned true

  unfoldable pub execution_count : String → ℕ
  execution_count tenant_id = get_or (lookup tenant_id b.execution_counts) 0

  unfoldable pub check_resource_limits : String → Outcome Error (Unit {0})
  unfolding execution_count
  check_resource_limits tenant_id = elim (lookup tenant_id b.tenants) [
    | none ↦ raised (tenant_not_found tenant_id)
    | some tenant ↦
        let current_count = execution_count tenant_id in
        let max_concurrent = tenant.resource_limits.max_concurrent_executions in
        raise_if (leb max_concurrent current_count)
          (resource_limit_exceeded tenant_id "concurrent_executions" current_count max_concurrent)
  ]

  unfoldable pub start_execution : String → Isolation
  unfolding execution_count
  start_execution tenant_id = record b {
    execution_counts = insert tenant_id (execution_count tenant_id + 1) b.execution_counts;
  }

  -- `max(0, current - 1)` is the truncated difference
  unfoldable pub end_execution : String → Isolation
  unfolding execution_count
  end_execution tenant_id = record b {
    execution_counts = insert tenant_id (execution_count tenant_id - 1) b.execution_counts;
  }

-- `kind` is the prefix of the resource's name in the error
abbrev validate_owner :
    String → (owner_tenant owner_agent request_tenant request_agent : String) → Outcome Error Bool
validate_owner kind owner_tenant owner_agent request_tenant request_agent = do
  raise_if (not (str_eq owner_tenant request_tenant))
      (cross_tenant_access request_tenant owner_tenant (kind <> owner_agent))
  raise_if (not (str_eq owner_agent request_agent))
      (cross_agent_access request_agent owner_agent (kind <> owner_agent))
  returned true

unfoldable pub validate_state_owner :
    (state_tenant state_agent request_tenant request_agent : String) → Outcome Error Bool
validate_state_owner = validate_owner "state:"

unfoldable pub validate_checkpoint_owner :
    (checkpoint_tenant checkpoint_agent request_tenant request_agent : String) → Outcome Error Bool
validate_checkpoint_owner = validate_owner "checkpoint:"
