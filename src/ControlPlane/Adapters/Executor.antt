-- ===== src/ControlPlane/Adapters/Executor.antt =====
-- `RuntimeExecutorAdapter` of control_plane/adapters/to_runtime/runtime.py, over any engine that
-- executes steps. A remaining budget, a float, is counted in thousandths, as the coordinator has it:
-- the engine is given the whole tokens in it.
pub mod Reports
pub mod Progress
use kitematic.Base.{
  ℕ, ◌/◌, String, is_empty, Bool, true, false, Option, none, some, List, [], if◌then◌else◌, Outcome,
  returned, raised,
}
use kitematic.Base.Dict.{Dict}
use kitematic.Kernel.Values.{Value}
use kitematic.Kernel.Execution.{
  pos, StepStatus, StepRequest, StepResponse, ExecutionContext, ExecutionRuntime, context_builder,
}
use kitematic.Kernel.Execution as Execution
use kitematic.ControlPlane.StateMachine.{
  StateMachine, StateTransition, LifecycleError, failed, can_transition, transition,
}
use kitematic.ControlPlane.Coordinator.{StepPlan, StepAction, plan_step, is_execute}

-- `int(budget_remaining)`
abbrev pub whole_tokens : ℕ → ℕ
whole_tokens budget_remaining = budget_remaining / 1000

abbrev pub is_failed : StepStatus → Bool
is_failed Execution.failed = true
is_failed _ = false

-- the machine after a transition, which does not raise where it was tested first
abbrev pub machine_of :
    StateMachine → Outcome LifecycleError (StateTransition × StateMachine) → StateMachine
machine_of m (raised e) = m
machine_of m (returned (step, m')) = m'

-- `if sm.can_transition(FAILED): sm.transition(FAILED, reason, "runtime_adapter")`
unfoldable pub report_failure : StateMachine → (reason : String) → StateMachine
unfolding can_transition transition
report_failure m reason =
    if can_transition m failed
    then machine_of m (transition m failed reason "runtime_adapter" [])
    else m

abbrev pub failed_response : String → StepResponse
failed_response error = record {
  status = Execution.failed;
  updated_state = [];
  output = "";
  requested = none;
  error_message = error;
  tokens_consumed = 0;
}

-- the reason of a failed response
abbrev pub reason_of : String → String
reason_of error = if is_empty error then "step_execution_failed" else error

module _ {T : Type 0} where
  unfoldable pub after_response :
      StateMachine
      → Outcome String StepResponse × ExecutionContext × T
      → Outcome String StepResponse × StateMachine × T
  unfolding report_failure
  after_response m (raised error, context, t) =
      (returned (failed_response error), report_failure m error, t)
  after_response m (returned response, context, t) = (
    returned response,
    (if is_failed response.status then report_failure m (reason_of response.error_message) else m),
    t,
  )

  module _ (runtime : ExecutionRuntime T) (execution_id agent_id goal : String) where
    -- the call of the engine, on the context that was built
    unfoldable pub called :
        (step_number : ℕ) (state : Dict Value) (budget_remaining : ℕ) (allowed_tools : List String)
        → StateMachine
        → T
        → Outcome String ExecutionContext
        → Outcome String StepResponse × StateMachine × T
    unfolding after_response
    called step_number state budget_remaining allowed_tools m t (raised error) =
        (raised error, m, t)
    called step_number state budget_remaining allowed_tools m t (returned context) =
        after_response m (
          runtime.execute_step
            (record {
              execution_id = execution_id;
              agent_id = agent_id;
              goal = goal;
              state = state;
              allowed_tools = allowed_tools;
            })
            (record context {
              step_number = step_number;
              state = state;
              budget_remaining = pos (whole_tokens budget_remaining);
              allowed_tools = allowed_tools;
            })
            t)

    unfoldable pub execute_step :
        (step_number : ℕ) (state : Dict Value) (budget_remaining : ℕ) (allowed_tools : List String)
        → StateMachine
        → T
        → Outcome String StepResponse × StateMachine × T
    unfolding called
    execute_step step_number state budget_remaining allowed_tools m t =
        called step_number state budget_remaining allowed_tools m t
          (context_builder execution_id agent_id)

    abbrev pub with_plan :
        StepPlan
        → Outcome String StepResponse × StateMachine × T
        → Outcome String (StepPlan × Option StepResponse) × StateMachine × T
    with_plan plan (raised error, m, t) = (raised error, m, t)
    with_plan plan (returned response, m, t) = (returned (plan, some response), m, t)

    unfoldable pub plan_and_execute :
        (max_steps step_number : ℕ) (state : Dict Value) (budget_remaining : ℕ)
        (allowed_tools : List String)
        → StateMachine
        → T
        → Outcome String (StepPlan × Option StepResponse) × StateMachine × T
    unfolding execute_step
    plan_and_execute max_steps step_number state budget_remaining allowed_tools m t =
        let plan = plan_step max_steps execution_id step_number budget_remaining allowed_tools in
        if is_execute plan.action
        then with_plan plan (execute_step plan.step_number state budget_remaining allowed_tools m t)
        else (returned (plan, none), m, t)
