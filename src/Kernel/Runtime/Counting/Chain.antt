-- ===== src/Kernel/Runtime/Counting/Chain.antt =====
-- The chain of stages closes the gap that it opens.
use kitematic.Base.{String, refl, Bool, true, false, Option, [], ◌∷◌, Outcome, returned, raised}
use kitematic.Kernel.States.{validating, authorized, executing, checkpointing}
use kitematic.Kernel.Errors.{Error}
use kitematic.Kernel.Tenant.{TenantContext}
use kitematic.Kernel.Contracts.{Collaborators, Intent, ExecutionPath, ToolResult}
use kitematic.Kernel.Runtime.Defs.{Runtime, Moment, count, count_each, transition, transition_safe}
use kitematic.Kernel.Runtime.Stages.{
  Run, finish, saved, checkpoint_stage, judged, accessed, tool_stage, routed, routing_stage,
  capable, capability_stage, permitted, policy_stage, execute_quota_guarded,
}
use kitematic.Kernel.Runtime.Counting.Gap.{
  IsBalanced, Gap, completed, Gap-begin, Gap-completed, Gap-fail, Gap-duration,
}

-- A run whose last runtime has balanced counters.
abbrev pub Balances : {S : Type 0} → Run S → Type 0
Balances run = IsBalanced run.1

module _ {S : Type 0} (ops : Collaborators S) (now : Moment) (intent : Intent)
    (tenant : Option TenantContext) where
  saved-Balances :
      (t : ToolResult) (r : Runtime S) (o : Outcome Error String)
      → Gap 1 r.metrics
      → Balances (saved ops now intent tenant t checkpointing r o)
  unfolding saved finish transition transition_safe count
  saved-Balances t r (raised e) h =
      Gap-fail ("runtime.checkpoint.error" ∷ []) r.metrics ((refl, refl, refl), tt) h
  saved-Balances t r (returned id) h =
      Gap-duration _ (count_each (completed ∷ []) r.metrics) (Gap-completed r.metrics h)

  judged-Balances :
      (t : ToolResult) (r : Runtime S) (b : Bool)
      → Gap 1 r.metrics
      → Balances (judged ops now intent tenant t executing r b)
  unfolding judged checkpoint_stage transition transition_safe count
  judged-Balances t r false h = Gap-fail [] r.metrics tt h
  judged-Balances t r true h = saved-Balances t _ _ h

  accessed-Balances :
      (r : Runtime S) (o : Outcome Error ToolResult)
      → Gap 1 r.metrics
      → Balances (accessed ops now intent tenant executing r o)
  unfolding accessed transition_safe count
  accessed-Balances r (raised e) h =
      Gap-fail ("runtime.gateway.error" ∷ []) r.metrics ((refl, refl, refl), tt) h
  accessed-Balances r (returned t) h = judged-Balances t r t.success h

  routed-Balances :
      (r : Runtime S) (o : Outcome Error ExecutionPath)
      → Gap 1 r.metrics
      → Balances (routed ops now intent tenant executing r o)
  unfolding routed tool_stage transition_safe count
  routed-Balances r (raised e) h = Gap-fail [] r.metrics tt h
  routed-Balances r (returned p) h = accessed-Balances _ _ h

  capable-Balances :
      (r : Runtime S) (o : Outcome Error (Bool × Option String))
      → Gap 1 r.metrics
      → Balances (capable ops now intent tenant authorized r o)
  unfolding capable routing_stage transition transition_safe count
  capable-Balances r (raised e) h = Gap-fail [] r.metrics tt h
  capable-Balances r (returned (false, reason)) h =
      Gap-fail ("runtime.capability.denied" ∷ []) r.metrics ((refl, refl, refl), tt) h
  capable-Balances r (returned (true, reason)) h = routed-Balances _ _ h

  permitted-Balances :
      (r : Runtime S) (o : Outcome Error (Bool × Option String))
      → Gap 1 r.metrics
      → Balances (permitted ops now intent tenant validating r o)
  unfolding permitted capability_stage transition transition_safe count
  permitted-Balances r (raised e) h = Gap-fail [] r.metrics tt h
  permitted-Balances r (returned (false, reason)) h =
      Gap-fail ("runtime.policy.rejected" ∷ []) r.metrics ((refl, refl, refl), tt) h
  permitted-Balances r (returned (true, reason)) h = capable-Balances _ _ h

  pub execute_quota_guarded-Balances :
      (r : Runtime S) → IsBalanced r → Balances (execute_quota_guarded ops now intent tenant r)
  unfolding execute_quota_guarded policy_stage transition count
  execute_quota_guarded-Balances r h = permitted-Balances _ _ (Gap-begin r.metrics h)
