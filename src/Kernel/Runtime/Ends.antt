-- ===== src/Kernel/Runtime/Ends.antt =====
-- How an execution ends: `_execute_quota_guarded` and `execute_intent` of kernel/runtime.py.
use kitematic.Base.{
  String, ◌≡◌, ◌⊎◌, Bool, true, false, Option, none, is_some, arith, Outcome, returned, raised,
}
use kitematic.Kernel.States.{
  ExecutionState, created, validating, authorized, executing, checkpointing, completed, failed,
  halted,
}
use kitematic.Kernel.States.Flow.{
  ◌⟶◌, ◌⟶*◌, here, then, begin, authorize, execute, checkpoint, complete, reject, deny, break,
  halt_policy, halt_execution, halt_checkpoint,
}
use kitematic.Kernel.Errors.{Error}
use kitematic.Kernel.Tenant.{TenantContext}
use kitematic.Kernel.Contracts.{Collaborators, Intent, ExecutionPath, ToolResult, ExecutionResult}
use kitematic.Kernel.Runtime.Defs.{Runtime, Moment, transition, transition_safe}
use kitematic.Kernel.Runtime.Stages.{
  Run, finish, saved, checkpoint_stage, judged, accessed, tool_stage, routed, routing_stage,
  capable, capability_stage, permitted, policy_stage, execute_quota_guarded,
}

-- What a result says of itself: it succeeded, is complete and has a checkpoint, or it failed or was
-- halted, has none, and gives an error.
abbrev pub IsVerdict : ExecutionResult → Type 0
IsVerdict res =
    ((res.success ≡ true)
      × (res.state ≡ completed)
      × (is_some res.checkpoint_id ≡ true)
      × (res.error ≡ none))
    ⊎ ((res.success ≡ false)
        × ((res.state ≡ failed) ⊎ (res.state ≡ halted))
        × (res.checkpoint_id ≡ none)
        × (is_some res.error ≡ true))

-- The run returns, with a verdict, in a state that legal transitions lead to from `s`.
abbrev pub EndsFrom : {S : Type 0} → ExecutionState → Run S → Type 0
EndsFrom s (returned res, r) = (s ⟶* res.state) × IsVerdict res
EndsFrom s (raised e, r) = ⊥

EndsFrom-then :
    {S : Type 0} {s t : ExecutionState} → s ⟶ t → (x : Run S) → EndsFrom t x → EndsFrom s x
EndsFrom-then e (returned res, r) h = (then e h.0, h.1)
EndsFrom-then e (raised x, r) h = h

module _ {S : Type 0} (ops : Collaborators S) (now : Moment) (intent : Intent)
    (tenant : Option TenantContext) where
  saved-EndsFrom :
      (t : ToolResult) (r : Runtime S) (o : Outcome Error String)
      → EndsFrom checkpointing (saved ops now intent tenant t checkpointing r o)
  unfolding saved finish transition transition_safe
  saved-EndsFrom t r (raised e) = (then halt_checkpoint here, ground arith)
  saved-EndsFrom t r (returned id) = (then complete here, ground arith)

  checkpoint_stage-EndsFrom :
      (t : ToolResult) (r : Runtime S)
      → EndsFrom checkpointing (checkpoint_stage ops now intent tenant t checkpointing r)
  unfolding checkpoint_stage
  checkpoint_stage-EndsFrom t r = saved-EndsFrom t _ _

  judged-EndsFrom :
      (t : ToolResult) (r : Runtime S) (b : Bool)
      → EndsFrom executing (judged ops now intent tenant t executing r b)
  unfolding judged transition transition_safe
  judged-EndsFrom t r false = (then break here, ground arith)
  judged-EndsFrom t r true = EndsFrom-then checkpoint _ (checkpoint_stage-EndsFrom t r)

  tool_stage-EndsFrom :
      (p : ExecutionPath) (r : Runtime S)
      → EndsFrom executing (tool_stage ops now intent tenant p executing r)
  unfolding tool_stage
  tool_stage-EndsFrom p r = accessed-EndsFrom _ (ops.access_tool p intent r.services).0
    where
      accessed-EndsFrom :
          (q : Runtime S) (o : Outcome Error ToolResult)
          → EndsFrom executing (accessed ops now intent tenant executing q o)
      accessed-EndsFrom q (raised e) = unfold transition_safe in (then break here, ground arith)
      accessed-EndsFrom q (returned t) = judged-EndsFrom t q t.success

  routed-EndsFrom :
      (r : Runtime S) (o : Outcome Error ExecutionPath)
      → EndsFrom executing (routed ops now intent tenant executing r o)
  unfolding routed transition_safe
  routed-EndsFrom r (raised e) = (then halt_execution here, ground arith)
  routed-EndsFrom r (returned p) = tool_stage-EndsFrom p r

  capable-EndsFrom :
      (r : Runtime S) (o : Outcome Error (Bool × Option String))
      → EndsFrom authorized (capable ops now intent tenant authorized r o)
  unfolding capable routing_stage transition transition_safe
  capable-EndsFrom r (raised e) = (then deny here, ground arith)
  capable-EndsFrom r (returned (false, reason)) = (then deny here, ground arith)
  capable-EndsFrom r (returned (true, reason)) = EndsFrom-then execute _ (routed-EndsFrom _ _)

  permitted-EndsFrom :
      (r : Runtime S) (o : Outcome Error (Bool × Option String))
      → EndsFrom validating (permitted ops now intent tenant validating r o)
  unfolding permitted capability_stage transition transition_safe
  permitted-EndsFrom r (raised e) = (then halt_policy here, ground arith)
  permitted-EndsFrom r (returned (false, reason)) = (then reject here, ground arith)
  permitted-EndsFrom r (returned (true, reason)) = EndsFrom-then authorize _ (capable-EndsFrom _ _)

  -- Whatever the collaborators answer or raise, the chain itself raises nothing: it returns a
  -- result in a terminal state that legal transitions lead to from CREATED, and the result has a
  -- checkpoint and no error exactly when it reports success in COMPLETED.
  pub execute_quota_guarded-EndsFrom :
      (r : Runtime S) → EndsFrom created (execute_quota_guarded ops now intent tenant r)
  unfolding execute_quota_guarded policy_stage transition
  execute_quota_guarded-EndsFrom r = EndsFrom-then begin _ (permitted-EndsFrom _ _)
