-- ===== src/Kernel/Runtime/Stages.antt =====
-- `_execute_quota_guarded` of kernel/runtime.py, one function for each stage of the chain, each
-- calling the next: policy, capability, routing, tool, checkpoint.
use kitematic.Base.{
  ℕ, ◌-◌, String, ◌<>◌, Bool, true, false, Option, none, some, List, [], ◌∷◌, ◌++◌, Outcome,
  returned, raised,
}
use kitematic.Base.Dict.{Dict}
use kitematic.Kernel.Values.{Value, text, dict_value}
use kitematic.Kernel.States.{
  ExecutionState, created, validating, authorized, executing, checkpointing, completed, failed,
  halted,
}
use kitematic.Kernel.Errors.{Error, message}
use kitematic.Kernel.Tenant.{TenantContext}
use kitematic.Kernel.Isolation.{Isolation, end_execution}
use kitematic.Kernel.Metrics.{Metrics, record_value}
use kitematic.Kernel.Contracts.{
  Collaborators, Intent, ExecutionPath, ToolResult, ExecutionResult, or_text,
}
use kitematic.Kernel.Runtime.Defs.{Runtime, Moment, count, transition, transition_safe}

-- What a stage gives: the result of the whole call, or an exception that escapes it.
abbrev pub Run : Type 0 → Type 0
Run S = Outcome Error ExecutionResult × Runtime S

-- `state = self._transition(state, target)`, and the rest of the function
abbrev pub enter :
    {S : Type 0} → Outcome Error ExecutionState → Runtime S → (ExecutionState → Run S) → Run S
enter (returned state) r rest = rest state
enter (raised e) r rest = (raised e, r)

-- the keys of `checkpoint_state`
abbrev pub tenant_entry : Option TenantContext → Dict Value
tenant_entry none = []
tenant_entry (some c) = ("tenant_id", text c.tenant_id) ∷ []

abbrev pub release_slot : Option TenantContext → Option Isolation → Option Isolation
release_slot (some c) (some b) = some (end_execution b c.tenant_id)
release_slot _ b = b

abbrev pub record_duration : ℕ → Option Metrics → Option Metrics
record_duration elapsed none = none
record_duration elapsed (some m) = some (record_value m "runtime.execution.duration_ms" elapsed)

module _ {S : Type 0} (ops : Collaborators S) (now : Moment) (intent : Intent)
    (tenant : Option TenantContext) where
  -- `return ExecutionResult(success=False, ...)`, after counting `names`
  abbrev pub fail : List String → String → ExecutionState → Runtime S → Run S
  fail names error state r = (
    returned (record {
      success = false;
      execution_id = now.execution_id;
      checkpoint_id = none;
      result_data = [];
      error = some error;
      state = state;
    }),
    count (names ++ "runtime.executions.failed" ∷ []) r,
  )

  abbrev pub checkpoint_state : ToolResult → Dict Value
  checkpoint_state tool_result =
      ("execution_id", text now.execution_id)
      ∷ ("intent_action", text intent.action)
      ∷ ("intent_agent", text intent.agent_id)
      ∷ ("tool_result", dict_value tool_result.result_data)
      ∷ ("timestamp", text now.timestamp)
      ∷ tenant_entry tenant

  -- the end of a successful execution
  unfoldable pub finish : ToolResult → String → ExecutionState → Runtime S → Run S
  finish tool_result checkpoint_id state r =
      let r' =
        count ("runtime.executions.completed" ∷ [])
          (record r { isolation = release_slot tenant r.isolation }) in
      (
        returned (record {
          success = true;
          execution_id = now.execution_id;
          checkpoint_id = some checkpoint_id;
          result_data = tool_result.result_data;
          error = none;
          state = state;
        }),
        record r' { metrics = record_duration (now.ended - now.started) r'.metrics },
      )

  unfoldable pub saved : ToolResult → ExecutionState → Runtime S → Outcome Error String → Run S
  saved tool_result state r (raised e) =
      fail ("runtime.checkpoint.error" ∷ []) ("Checkpoint save error: " <> message e)
        (transition_safe state halted) r
  saved tool_result state r (returned checkpoint_id) =
      enter (transition state completed) r (λ state'. finish tool_result checkpoint_id state' r)

  -- the checkpoint
  unfoldable pub checkpoint_stage : ToolResult → ExecutionState → Runtime S → Run S
  unfolding saved
  checkpoint_stage tool_result state r =
      let (outcome, s) = ops.save now.execution_id (checkpoint_state tool_result) r.services in
      saved tool_result state (record r { services = s }) outcome

  unfoldable pub judged : ToolResult → ExecutionState → Runtime S → Bool → Run S
  judged tool_result state r false =
      fail [] (or_text tool_result.error "Tool execution failed") (transition_safe state failed) r
  judged tool_result state r true =
      enter (transition state checkpointing) r (λ state'. checkpoint_stage tool_result state' r)

  unfoldable pub accessed : ExecutionState → Runtime S → Outcome Error ToolResult → Run S
  accessed state r (raised e) =
      fail ("runtime.gateway.error" ∷ []) ("Gateway access error: " <> message e)
        (transition_safe state failed) r
  accessed state r (returned tool_result) = judged tool_result state r tool_result.success

  -- the gateway
  unfoldable pub tool_stage : ExecutionPath → ExecutionState → Runtime S → Run S
  unfolding accessed judged
  tool_stage path state r =
      let (outcome, s) = ops.access_tool path intent r.services in
      accessed state (record r { services = s }) outcome

  unfoldable pub routed : ExecutionState → Runtime S → Outcome Error ExecutionPath → Run S
  routed state r (raised e) =
      fail [] ("Orchestration error: " <> message e) (transition_safe state halted) r
  routed state r (returned path) = tool_stage path state r

  -- the orchestrator
  unfoldable pub routing_stage : ExecutionState → Runtime S → Run S
  unfolding routed
  routing_stage state r =
      let (outcome, s) = ops.route_intent intent r.services in
      routed state (record r { services = s }) outcome

  unfoldable pub capable : ExecutionState → Runtime S → Outcome Error (Bool × Option String) → Run S
  capable state r (raised e) =
      fail [] ("Capability check error: " <> message e) (transition_safe state failed) r
  capable state r (returned (false, reason)) =
      fail ("runtime.capability.denied" ∷ [])
        (or_text reason ("Capability not allowed for action: " <> intent.action))
        (transition_safe state failed) r
  capable state r (returned (true, reason)) =
      enter (transition state executing) r (λ state'. routing_stage state' r)

  -- the capability check
  unfoldable pub capability_stage : ExecutionState → Runtime S → Run S
  unfolding capable
  capability_stage state r =
      let (outcome, s) = ops.check_capability intent.action intent.agent_id r.services in
      capable state (record r { services = s }) outcome

  unfoldable pub permitted :
      ExecutionState → Runtime S → Outcome Error (Bool × Option String) → Run S
  permitted state r (raised e) =
      fail [] ("Policy evaluation error: " <> message e) (transition_safe state halted) r
  permitted state r (returned (false, reason)) =
      fail ("runtime.policy.rejected" ∷ []) (or_text reason "Policy rejected intent")
        (transition_safe state failed) r
  permitted state r (returned (true, reason)) =
      enter (transition state authorized) r (λ state'. capability_stage state' r)

  -- the policy
  unfoldable pub policy_stage : ExecutionState → Runtime S → Run S
  unfolding permitted
  policy_stage state r =
      let (outcome, s) = ops.evaluate_intent intent r.services in
      permitted state (record r { services = s }) outcome

  -- `_execute_quota_guarded`
  unfoldable pub execute_quota_guarded : Runtime S → Run S
  execute_quota_guarded r =
      let r' = count ("runtime.executions.total" ∷ []) r in
      enter (transition created validating) r' (λ state. policy_stage state r')
