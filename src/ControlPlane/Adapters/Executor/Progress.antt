-- ===== src/ControlPlane/Adapters/Executor/Progress.antt =====
-- That planned steps make progress: the executor adapter
-- (control_plane/adapters/to_runtime/runtime.py) over the engine of kernel/execution/in_memory.py.
use kitematic.Base.{
  ℕ, ◌+◌, ◌<◌, ◌≤◌, String, is_empty, ◌≡◌, refl, false, [], none, some, List, length, leb, arith,
  returned,
}
use kitematic.Base.Dict.{Dict}
use kitematic.Kernel.Values.{Value}
use kitematic.Kernel.Execution.{
  pos, StepRequest, StepResponse, ExecutionContext, context_builder, request_errors,
  validate_request, check_budget, is_positive, prepared, run_step, saved_step, step_response,
  in_memory_runtime, counted, completed,
}
use kitematic.Kernel.Execution as Execution
use kitematic.Kernel.Execution.Step.{HasSeen, step_response-HasSeen}
use kitematic.ControlPlane.StateMachine.{StateMachine}
use kitematic.ControlPlane.Coordinator.{plan_step, plan_step_iff}
use kitematic.ControlPlane.Adapters.Executor.{
  whole_tokens, after_response, called, execute_step, plan_and_execute,
}

module _ (type_text : Value → String) where
  prepared-returned :
      (request : StepRequest) (context : ExecutionContext) (budget steps : ℕ)
      → is_empty request.execution_id ≡ false
      → is_empty request.agent_id ≡ false
      → is_empty request.goal ≡ false
      → context.budget_remaining ≡ pos budget
      → 0 < budget
      → counted type_text request.state ≡ returned steps
      → prepared type_text request context ≡ returned steps
  unfolding prepared validate_request request_errors check_budget is_positive
  prepared-returned request context budget steps a b c d e f =
      let left : leb budget 0 ≡ false = ground arith in rw (a, b, c, d, left, f) refl

  module _ (execution_id agent_id goal : String) where
    abbrev request_for : Dict Value → List String → StepRequest
    request_for state allowed_tools = record {
      execution_id = execution_id;
      agent_id = agent_id;
      goal = goal;
      state = state;
      allowed_tools = allowed_tools;
    }

    abbrev context_for : (step_number : ℕ) → Dict Value → ℕ → List String → ExecutionContext
    context_for step_number state budget_remaining allowed_tools = record {
      execution_id = execution_id;
      agent_id = agent_id;
      step_number = step_number;
      state = state;
      budget_remaining = pos (whole_tokens budget_remaining);
      tokens_per_step = 10;
      allowed_tools = allowed_tools;
      metadata = [];
      tokens_consumed = 0;
    }

    -- A step that the coordinator plans to execute, with a budget of one token at least, completes
    -- on the engine in memory that has no checkpoint store: with the names given, steps left, some
    -- tool allowed, and a state that counts its steps, the response is a completed one, its state
    -- has seen one step more, and the state machine stays where it is.
    pub plan_and_execute-completed :
        (checkpoint_id : String) {R : Type 0} (max_steps step_number : ℕ) (state : Dict Value)
        (budget_remaining : ℕ) (allowed_tools : List String) (m : StateMachine) (r : R) (seen : ℕ)
        → is_empty execution_id ≡ false
        → is_empty agent_id ≡ false
        → is_empty goal ≡ false
        → step_number < max_steps
        → 1000 ≤ budget_remaining
        → 0 < length allowed_tools
        → HasSeen type_text seen state
        → (response : StepResponse) × (plan_and_execute
              (in_memory_runtime type_text none checkpoint_id)
              execution_id
              agent_id
              goal
              max_steps
              step_number
              state
              budget_remaining
              allowed_tools
              m
              r
            ≡ (
              returned (
                plan_step max_steps execution_id step_number budget_remaining allowed_tools,
                some response,
              ),
              m,
              r,
            ))
          × (response.status ≡ completed)
          × HasSeen type_text (seen + 1) response.updated_state
    unfolding plan_and_execute execute_step called context_builder Execution.execute_step run_step
        saved_step after_response
    plan_and_execute-completed checkpoint_id max_steps step_number state budget_remaining
          allowed_tools m r seen a b c d e f g =
        let planned =
          (plan_step_iff max_steps execution_id step_number budget_remaining allowed_tools).1
            (d, omega arith, f) in
        let number =
          (plan_step max_steps execution_id step_number budget_remaining
            allowed_tools).step_number in
        let request = request_for state allowed_tools in
        let context = context_for number state budget_remaining allowed_tools in
        let ready =
          prepared-returned request context (whole_tokens budget_remaining) (seen + 1) a b c refl
            (omega arith) g in
        (
          step_response type_text request context (seen + 1),
          rw (planned, a, b, ready) refl,
          refl,
          step_response-HasSeen type_text request context (seen + 1),
        )
