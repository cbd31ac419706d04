-- ===== src/Kernel/Tenant.antt =====
-- kernel/tenant.py: tenants, their limits, and the context of an execution.
use kitematic.Base.{
  ℕ, String, is_empty, str_eq, Bool, List, [], ◌∷◌, ◌++◌, any, length, ◌==◌, if◌then◌else◌,
}

pub record ResourceLimits : Type 0 where
  pub max_agents : ℕ
  pub max_steps_per_agent : ℕ
  pub max_tokens_per_agent : ℕ
  pub max_concurrent_executions : ℕ
  pub max_checkpoints : ℕ

abbrev pub default_limits : ResourceLimits
default_limits = record {
  max_agents = 10;
  max_steps_per_agent = 10;
  max_tokens_per_agent = 100000;
  max_concurrent_executions = 5;
  max_checkpoints = 100;
}

-- The free-form `metadata` of a tenant is not modelled.
pub record TenantModel : Type 0 where
  pub tenant_id : String
  pub name : String
  pub policy_scope : String
  pub resource_limits : ResourceLimits
  pub allowed_capabilities : List String

-- `errors.append(text)` under `if not field`
abbrev pub require_field : String → String → List String
require_field field text = if is_empty field then text ∷ [] else []

unfoldable pub validate_tenant : TenantModel → List String
validate_tenant t =
    require_field t.tenant_id "tenant_id is required" ++ require_field t.name "name is required"

unfoldable pub tenant_is_valid : TenantModel → Bool
unfolding validate_tenant
tenant_is_valid t = length (validate_tenant t) == 0

pub record TenantContext : Type 0 where
  pub tenant_id : String
  pub agent_id : String
  pub allowed_capabilities : List String
  pub resource_limits : ResourceLimits

unfoldable pub validate_context : TenantContext → List String
validate_context c =
    require_field c.tenant_id "tenant_id is required"
    ++ require_field c.agent_id "agent_id is required"

unfoldable pub context_is_valid : TenantContext → Bool
unfolding validate_context
context_is_valid c = length (validate_context c) == 0

-- an empty set of capabilities restricts nothing
unfoldable pub has_capability : TenantContext → String → Bool
has_capability c capability =
    if length c.allowed_capabilities == 0
    then Bool.true
    else any (str_eq capability) c.allowed_capabilities
