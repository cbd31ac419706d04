-- ===== src/Kernel/Isolation/Ownership.antt =====
-- Who may act for a tenant, and who may read a state or a checkpoint (kernel/isolation.py).
use kitematic.Base.{
  String, ◌<>◌, eq_iff, ◌≡◌, ◌≢◌, ◌↔◌, inl, inr, true, none, some, arith, Option-cases, returned,
  raised,
}
use kitematic.Base.Dict.{lookup}
use kitematic.Kernel.Errors.{cross_tenant_access}
use kitematic.Kernel.Tenant.{TenantContext, context_is_valid}
use kitematic.Kernel.Isolation.{
  Isolation, get_agent_tenant, validate_tenant_context, validate_state_owner,
  validate_checkpoint_owner, get_tenant,
}

-- An owner check lets a request through exactly when it comes from the owning tenant and agent.
pub validate_checkpoint_owner_iff :
    (checkpoint_tenant checkpoint_agent request_tenant request_agent : String)
    → (validate_checkpoint_owner checkpoint_tenant checkpoint_agent request_tenant request_agent
        ≡ returned true)
      ↔ ((checkpoint_tenant ≡ request_tenant) × (checkpoint_agent ≡ request_agent))
unfolding validate_checkpoint_owner
validate_checkpoint_owner_iff t a t' a' = ground (arith, eq_iff t t', eq_iff a a')

pub validate_state_owner_iff :
    (state_tenant state_agent request_tenant request_agent : String)
    → (validate_state_owner state_tenant state_agent request_tenant request_agent ≡ returned true)
      ↔ ((state_tenant ≡ request_tenant) × (state_agent ≡ request_agent))
unfolding validate_state_owner
validate_state_owner_iff t a t' a' = ground (arith, eq_iff t t', eq_iff a a')

-- A request of another tenant is refused as such, whatever its agent.
pub cross_tenant_denied :
    (checkpoint_tenant checkpoint_agent request_tenant request_agent : String)
    → checkpoint_tenant ≢ request_tenant
    → validate_checkpoint_owner checkpoint_tenant checkpoint_agent request_tenant request_agent
      ≡ raised
          (cross_tenant_access request_tenant checkpoint_tenant ("checkpoint:" <> checkpoint_agent))
unfolding validate_checkpoint_owner
cross_tenant_denied t a t' a' n = ground (arith, eq_iff t t')

-- A context is accepted exactly when both its names are there, its tenant is registered and its
-- agent is registered with that tenant.
pub validate_tenant_context_iff :
    (b : Isolation) (c : TenantContext)
    → (validate_tenant_context b c ≡ returned true) ↔ (
        (context_is_valid c ≡ true)
        × (get_tenant b c.tenant_id ≢ none)
        × (get_agent_tenant b c.agent_id ≡ some c.tenant_id))
unfolding validate_tenant_context get_tenant get_agent_tenant
validate_tenant_context_iff b c = elim (Option-cases (lookup c.agent_id b.agents)) [
  | inl e ↦ ground arith
  | inr (a, e) ↦ ground (arith, eq_iff a.tenant_id c.tenant_id)
]
