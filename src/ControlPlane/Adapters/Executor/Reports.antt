-- ===== src/ControlPlane/Adapters/Executor/Reports.antt =====
-- What the executor adapter tells the state machine
-- (control_plane/adapters/to_runtime/runtime.py).
use kitematic.Base.{
  ℕ, ◌/◌, String, str_eq_cases, ◌≡◌, ◌≢◌, refl, ◌⊎◌, inl, inr, Bool, true, false, Option, none,
  some, List, [], if◌then◌else◌, Outcome, returned, raised,
}
use kitematic.Base.Dict.{Dict}
use kitematic.Kernel.Values.{Value}
use kitematic.Kernel.Execution.{
  pos, StepStatus, StepRequest, StepResponse, ExecutionContext, ExecutionRuntime, context_builder,
}
use kitematic.Kernel.Execution as Execution
use kitematic.ControlPlane.StateMachine.{
  StateMachine, failed, can_transition, transition, step_to, moved,
}
use kitematic.ControlPlane.Coordinator.{StepPlan, plan_step, is_execute}
use kitematic.ControlPlane.Adapters.Executor.{
  failed_response, is_failed, report_failure, reason_of, after_response, called, execute_step,
  plan_and_execute, with_plan,
}

-- A failure moves the machine to FAILED, where that is legal, and nothing else moves it.
abbrev pub HasFailed : (reason : String) → StateMachine → StateMachine → Type 0
HasFailed reason m m' =
    ((can_transition m failed ≡ true)
      × (m' ≡ moved m (step_to m failed reason "runtime_adapter" [])))
    ⊎ ((can_transition m failed ≡ false) × (m' ≡ m))

report_failure-HasFailed :
    (m : StateMachine) (reason : String) → HasFailed reason m (report_failure m reason)
unfolding report_failure transition
report_failure-HasFailed m reason = by_test (can_transition m failed) refl
  where
    by_test :
        (b : Bool) → can_transition m failed ≡ b → HasFailed reason m (report_failure m reason)
    by_test true e = inl (e, rw e refl)
    by_test false e = inr (e, rw e refl)

module _ {T : Type 0} (runtime : ExecutionRuntime T) (execution_id agent_id goal : String)
    (state : Dict Value) (budget_remaining : ℕ) (allowed_tools : List String) where
  -- the request and the context that the engine is given for a step
  abbrev pub request_for : StepRequest
  request_for = record {
    execution_id = execution_id;
    agent_id = agent_id;
    goal = goal;
    state = state;
    allowed_tools = allowed_tools;
  }

  abbrev pub context_for : (step_number : ℕ) → ExecutionContext
  context_for step_number = record {
    execution_id = execution_id;
    agent_id = agent_id;
    step_number = step_number;
    state = state;
    budget_remaining = pos (budget_remaining / 1000);
    tokens_per_step = 10;
    allowed_tools = allowed_tools;
    metadata = [];
    tokens_consumed = 0;
  }

  -- The engine has returned the response, and a failed one moves the machine, for the reason in its
  -- message, or for a reason of the adapter's where that is empty.
  abbrev pub Answered : StateMachine → StepResponse → StateMachine → Type 0
  Answered m response m' =
      ((response.status ≡ Execution.failed)
        × (((response.error_message ≡ "") × HasFailed "step_execution_failed" m m')
            ⊎ ((response.error_message ≢ "") × HasFailed response.error_message m m')))
      ⊎ ((response.status ≢ Execution.failed) × (m' ≡ m))

  -- The response is the engine's, or a failed one for its exception; `t'` is what the call left.
  abbrev pub IsReported :
      (step_number : ℕ) → StateMachine → T → StepResponse → StateMachine → T → Type 0
  IsReported step_number m t response m' t' =
      (context' : ExecutionContext) × (((runtime.execute_step request_for (context_for step_number)
              t
            ≡ (returned response, context', t'))
          × Answered m response m')
        ⊎ ((error : String) × (runtime.execute_step request_for (context_for step_number) t
              ≡ (raised error, context', t'))
            × (response ≡ failed_response error)
            × HasFailed error m m'))

  -- What a step gives: an exception before the engine is called, or a response that is reported.
  abbrev pub StepReported :
      (step_number : ℕ) → StateMachine → T → Outcome String StepResponse × StateMachine × T → Type 0
  StepReported step_number m t (raised error, m', t') =
      ((execution_id ≡ "") ⊎ (agent_id ≡ "")) × (m' ≡ m) × (t' ≡ t)
  StepReported step_number m t (returned response, m', t') =
      (execution_id ≢ "") × (agent_id ≢ "") × IsReported step_number m t response m' t'

  by_status :
      (status : StepStatus) (m : StateMachine) (error : String)
      → ((status ≡ Execution.failed)
          × (((error ≡ "")
                × HasFailed "step_execution_failed" m
                    (if is_failed status then report_failure m (reason_of error) else m))
              ⊎ ((error ≢ "")
                  × HasFailed error m
                      (if is_failed status then report_failure m (reason_of error) else m))))
        ⊎ ((status ≢ Execution.failed)
            × ((if is_failed status then report_failure m (reason_of error) else m) ≡ m))
  by_status Execution.failed m error = elim (str_eq_cases error "") [
    | inl (b, e) ↦ inl (refl, inl (e, rw b (report_failure-HasFailed m "step_execution_failed")))
    | inr (b, n) ↦ inl (refl, inr (n, rw b (report_failure-HasFailed m error)))
  ]
  by_status Execution.completed m error = inr (λ e. cc, refl)
  by_status Execution.tool_request m error = inr (λ e. cc, refl)
  by_status Execution.approval_required m error = inr (λ e. cc, refl)
  by_status Execution.checkpoint_required m error = inr (λ e. cc, refl)

  after_response-StepReported :
      (step_number : ℕ) (m : StateMachine) (t : T)
      (run : Outcome String StepResponse × ExecutionContext × T)
      → execution_id ≢ ""
      → agent_id ≢ ""
      → runtime.execute_step request_for (context_for step_number) t ≡ run
      → StepReported step_number m t (after_response m run)
  unfolding after_response
  after_response-StepReported step_number m t (raised error, context', t') a b e =
      (a, b, (context', inr (error, e, refl, report_failure-HasFailed m error)))
  after_response-StepReported step_number m t (returned response, context', t') a b e =
      (a, b, (context', inl (e, by_status response.status m response.error_message)))

  execute_step-StepReported :
      (step_number : ℕ) (m : StateMachine) (t : T)
      → StepReported step_number m t (
          execute_step runtime execution_id agent_id goal step_number state budget_remaining
            allowed_tools m t)
  unfolding execute_step called context_builder
  execute_step-StepReported step_number m t = elim (str_eq_cases execution_id "") [
    | inl (b, e) ↦ rw b (inl e, refl, refl)
    | inr (b, n) ↦ elim (str_eq_cases agent_id "") [
      | inl (c, e) ↦ rw (b, c) (inr e, refl, refl)
      | inr (c, k) ↦ rw (b, c) (after_response-StepReported step_number m t _ n k refl)
    ]
  ]

  -- What planning and executing a step gives.
  abbrev pub PlanReported :
      StepPlan
      → StateMachine
      → T
      → Outcome String (StepPlan × Option StepResponse) × StateMachine × T
      → Type 0
  PlanReported plan m t (raised error, m', t') =
      (is_execute plan.action ≡ true)
      × ((execution_id ≡ "") ⊎ (agent_id ≡ ""))
      × (m' ≡ m)
      × (t' ≡ t)
  PlanReported plan m t (returned (plan', none), m', t') =
      (is_execute plan.action ≡ false) × (plan' ≡ plan) × (m' ≡ m) × (t' ≡ t)
  PlanReported plan m t (returned (plan', some response), m', t') =
      (is_execute plan.action ≡ true)
      × (plan' ≡ plan)
      × IsReported plan.step_number m t response m' t'

  with_plan-PlanReported :
      (plan : StepPlan) (m : StateMachine) (t : T)
      (run : Outcome String StepResponse × StateMachine × T)
      → is_execute plan.action ≡ true
      → StepReported plan.step_number m t run
      → PlanReported plan m t (with_plan runtime execution_id agent_id goal plan run)
  with_plan-PlanReported plan m t (raised error, m', t') e (h, k, l) = (e, h, k, l)
  with_plan-PlanReported plan m t (returned response, m', t') e (_, _, h) = (e, refl, h)

  -- Whatever the engine is: a plan other than to execute is returned with no response, and nothing
  -- changes. A plan to execute gives the engine's response to a request and a context with the
  -- names, the goal, the state, the tools, the step's number and the whole tokens of the budget, or
  -- a failed response for the engine's exception. Only a failed response moves the state machine,
  -- to FAILED where that is legal, with the exception's text, or with the response's message, or
  -- with "step_execution_failed" where that is empty. An exception leaves the adapter only if the
  -- execution or the agent has the empty name, and then nothing has changed.
  pub plan_and_execute-PlanReported :
      (max_steps step_number : ℕ) (m : StateMachine) (t : T)
      → PlanReported
          (plan_step max_steps execution_id step_number budget_remaining allowed_tools)
          m
          t
          (plan_and_execute runtime execution_id agent_id goal max_steps step_number state
            budget_remaining allowed_tools m t)
  unfolding plan_and_execute
  plan_and_execute-PlanReported max_steps step_number m t =
      by_action (plan_step max_steps execution_id step_number budget_remaining allowed_tools) _ refl
    where
      by_action :
          (plan : StepPlan) (b : Bool)
          → is_execute plan.action ≡ b
          → PlanReported plan m t (
              if b
              then with_plan runtime execution_id agent_id goal plan (
                  execute_step runtime execution_id agent_id goal plan.step_number state
                    budget_remaining allowed_tools m t)
              else (returned (plan, none), m, t))
      by_action plan true e =
          with_plan-PlanReported plan m t _ e (execute_step-StepReported plan.step_number m t)
      by_action plan false e = (e, refl, refl, refl)
