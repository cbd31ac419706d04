-- ===== src/Kernel/Runtime/Slots/Chain.antt =====
-- What the chain of stages does to the runtime's own fields: it gives a slot back only on success.
use kitematic.Base.{
  String, refl, ◌≡◌, Bool, true, false, Option, if◌then◌else◌, Outcome, returned, raised,
}
use kitematic.Kernel.States.{validating, authorized, executing, checkpointing}
use kitematic.Kernel.Errors.{Error}
use kitematic.Kernel.Tenant.{TenantContext}
use kitematic.Kernel.Contracts.{Collaborators, Intent, ExecutionPath, ToolResult}
use kitematic.Kernel.Runtime.Defs.{Runtime, Moment, count, transition, transition_safe}
use kitematic.Kernel.Runtime.Stages.{
  Run, release_slot, finish, saved, checkpoint_stage, judged, accessed, tool_stage, routed,
  routing_stage, capable, capability_stage, permitted, policy_stage, execute_quota_guarded,
}

-- The runtime's own fields after a run from `r`: only a success changes the execution counts.
abbrev pub Keeps : {S : Type 0} → Option TenantContext → Runtime S → Run S → Type 0
Keeps tenant r (returned res, r') =
    (r'.isolation ≡ (if res.success then release_slot tenant r.isolation else r.isolation))
    × (r'.state ≡ r.state)
    × (r'.tenant_context ≡ r.tenant_context)
    × (r'.agents ≡ r.agents)
Keeps tenant r (raised e, r') = ⊥

module _ {S : Type 0} (ops : Collaborators S) (now : Moment) (intent : Intent)
    (tenant : Option TenantContext) where
  saved-Keeps :
      (t : ToolResult) (r : Runtime S) (o : Outcome Error String)
      → Keeps tenant r (saved ops now intent tenant t checkpointing r o)
  unfolding saved finish transition transition_safe count
  saved-Keeps t r (raised e) = (refl, refl, refl, refl)
  saved-Keeps t r (returned id) = (refl, refl, refl, refl)

  judged-Keeps :
      (t : ToolResult) (r : Runtime S) (b : Bool)
      → Keeps tenant r (judged ops now intent tenant t executing r b)
  unfolding judged checkpoint_stage transition transition_safe count
  judged-Keeps t r false = (refl, refl, refl, refl)
  judged-Keeps t r true = saved-Keeps t (record r { services = _ }) _

  accessed-Keeps :
      (r : Runtime S) (o : Outcome Error ToolResult)
      → Keeps tenant r (accessed ops now intent tenant executing r o)
  unfolding accessed transition_safe count
  accessed-Keeps r (raised e) = (refl, refl, refl, refl)
  accessed-Keeps r (returned t) = judged-Keeps t r t.success

  routed-Keeps :
      (r : Runtime S) (o : Outcome Error ExecutionPath)
      → Keeps tenant r (routed ops now intent tenant executing r o)
  unfolding routed tool_stage transition_safe count
  routed-Keeps r (raised e) = (refl, refl, refl, refl)
  routed-Keeps r (returned p) = accessed-Keeps (record r { services = _ }) _

  capable-Keeps :
      (r : Runtime S) (o : Outcome Error (Bool × Option String))
      → Keeps tenant r (capable ops now intent tenant authorized r o)
  unfolding capable routing_stage transition transition_safe count
  capable-Keeps r (raised e) = (refl, refl, refl, refl)
  capable-Keeps r (returned (false, reason)) = (refl, refl, refl, refl)
  capable-Keeps r (returned (true, reason)) = routed-Keeps (record r { services = _ }) _

  permitted-Keeps :
      (r : Runtime S) (o : Outcome Error (Bool × Option String))
      → Keeps tenant r (permitted ops now intent tenant validating r o)
  unfolding permitted capability_stage transition transition_safe count
  permitted-Keeps r (raised e) = (refl, refl, refl, refl)
  permitted-Keeps r (returned (false, reason)) = (refl, refl, refl, refl)
  permitted-Keeps r (returned (true, reason)) = capable-Keeps (record r { services = _ }) _

  -- The chain gives the tenant's slot back exactly when it succeeds, and leaves the runtime's
  -- state, tenant context and hosted agents as they were.
  pub execute_quota_guarded-Keeps :
      (r : Runtime S) → Keeps tenant r (execute_quota_guarded ops now intent tenant r)
  unfolding execute_quota_guarded policy_stage transition count
  execute_quota_guarded-Keeps r = permitted-Keeps (record r { services = _; metrics = _ }) _
