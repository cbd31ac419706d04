-- ===== src/Kernel/Loop/Run.antt =====
-- `run_intent` and `run_multi_step` of kernel/lifecycle.py. The event log is a local variable of
-- `run_intent`; `run_logged` returns it too.
use kitematic.Base.{
  ℕ, String, is_empty, Bool, true, false, Option, none, some, List, [], ◌∷◌, ◌++◌, if◌then◌else◌,
  Outcome, returned, raised,
}
use kitematic.Kernel.Values.{Value, null, text}
use kitematic.Kernel.States.{state_value, halted, RuntimeState, running}
use kitematic.Kernel.Errors.{Error}
use kitematic.Kernel.Budget.{Budget, start, is_exhausted, consume_step, to_dict}
use kitematic.Kernel.Events.{
  EventLog, new_log, emit, loop_started, budget_checked, step_completed, loop_terminated,
  loop_failed, loop_halted, timeout_occurred,
}
use kitematic.Kernel.Events
use kitematic.Kernel.Contracts.{Collaborators, Intent, ExecutionResult, or_text}
use kitematic.Kernel.Runtime.{execute_intent, Runtime}
use kitematic.Kernel.Runtime.Defs.{count_each}
use kitematic.Kernel.Loop.Classify.{
  LoopTermination, completed, budget_exhausted, timeout, exception, classify_failure,
}
use kitematic.Kernel.Loop.Defs.{
  LoopResult, LoopError, budget_limit, time_limit, failure, Controller, Clock, check_budget,
  loop_message,
}

-- `value` of a termination reason
unfoldable pub termination_value : LoopTermination → String
termination_value completed = "COMPLETED"
termination_value LoopTermination.policy_denied = "POLICY_DENIED"
termination_value LoopTermination.capability_missing = "CAPABILITY_MISSING"
termination_value LoopTermination.capability_denied = "CAPABILITY_DENIED"
termination_value LoopTermination.gateway_failed = "GATEWAY_FAILED"
termination_value LoopTermination.tool_failed = "TOOL_FAILED"
termination_value LoopTermination.checkpoint_failed = "CHECKPOINT_FAILED"
termination_value LoopTermination.orchestration_failed = "ORCHESTRATION_FAILED"
termination_value budget_exhausted = "BUDGET_EXHAUSTED"
termination_value timeout = "TIMEOUT"
termination_value exception = "EXCEPTION"

abbrev optional_text : Option String → Value
optional_text none = null
optional_text (some t) = text t

-- What a call gives: its result, the controller, and its event log.
abbrev pub Logged : Type 0 → Type 0
Logged S = LoopResult × Controller S × EventLog

abbrev pub count_loop : {S : Type 0} → String → Controller S → Controller S
count_loop name c = record c { metrics = count_each (name ∷ []) c.metrics }

-- the termination reason of a runtime's result
abbrev pub termination_of : ExecutionResult → LoopTermination
termination_of res = if res.success then completed else classify_failure (or_text res.error "")

abbrev pub checkpoints_of : Option String → List String
checkpoints_of none = []
checkpoints_of (some checkpoint_id) = if is_empty checkpoint_id then [] else checkpoint_id ∷ []

-- the events of a runtime's result
unfoldable pub result_events : ExecutionResult → EventLog → EventLog
unfolding termination_value
result_events res log =
    if res.success
    then emit loop_terminated "COMPLETED" (("termination_reason", text "COMPLETED") ∷ []) none (
        emit step_completed (state_value res.state)
          (("execution_id", text res.execution_id)
            ∷ ("checkpoint_id", optional_text res.checkpoint_id)
            ∷ [])
          none log)
    else emit loop_failed (state_value res.state)
        (("termination_reason", text (termination_value (classify_failure (or_text res.error ""))))
          ∷ [])
        res.error log

module _ {S : Type 0} (ops : Collaborators S) (isoformat seconds_text : ℕ → String) (clock : Clock)
    (intent : Intent) where
  -- `LoopResult(success=False, ..., final_state=HALTED, history=[])`
  abbrev pub stopped_result : LoopTermination → String → Controller S → LoopResult
  stopped_result reason error c = record {
    success = false;
    execution_id = clock.execution_id;
    steps_executed = c.budget.current_steps;
    tokens_consumed = c.budget.tokens_consumed;
    checkpoints = [];
    final_state = halted;
    termination_reason = reason;
    error = some error;
    history = [];
  }

  -- the three `except` clauses
  unfoldable pub handle : LoopError → Controller S → EventLog → Logged S
  handle (budget_limit steps tokens) c log =
      let error = loop_message seconds_text (budget_limit steps tokens) in
      (
        stopped_result budget_exhausted error c,
        count_loop "runtime.loop.budget_exhausted" c,
        emit Events.budget_exhausted "HALTED" [] (some error) log,
      )
  handle (time_limit elapsed limit) c log =
      let error = loop_message seconds_text (time_limit elapsed limit) in
      (
        stopped_result timeout error c,
        count_loop "runtime.loop.timeout" c,
        emit timeout_occurred "HALTED" [] (some error) log,
      )
  handle (failure e) c log =
      let error = loop_message seconds_text (failure e) in
      (
        stopped_result exception error c,
        count_loop "runtime.loop.exception" c,
        emit loop_halted "HALTED" [] (some error) log,
      )

  -- the result of a call whose step was consumed
  abbrev pub loop_result : ExecutionResult → Budget → LoopResult
  loop_result res b = record {
    success = res.success;
    execution_id = clock.execution_id;
    steps_executed = b.current_steps;
    tokens_consumed = b.tokens_consumed;
    checkpoints = checkpoints_of res.checkpoint_id;
    final_state = res.state;
    termination_reason = termination_of res;
    error = res.error;
    history = res ∷ [];
  }

  unfoldable pub consumed :
      ExecutionResult → Controller S → EventLog → Outcome Error Budget → Logged S
  unfolding handle
  consumed res c log (raised e) = handle (failure e) c log
  consumed res c log (returned b) = (loop_result res b, record c { budget = b }, log)

  -- after the runtime: the history, the events and counters, and the step of the budget
  unfoldable pub executed :
      Controller S → EventLog → Outcome Error ExecutionResult × Runtime S → Logged S
  unfolding handle consumed
  executed c log (raised e, r) = handle (failure e) (record c { runtime = r }) log
  executed c log (returned res, r) =
      let c' =
        count_loop (if res.success then "runtime.loop.completed" else "runtime.loop.failed")
          (record c { runtime = r; history = c.history ++ res ∷ [] }) in
      consumed res c' (result_events res log) (consume_step c.budget clock.at_consume 0)

  unfoldable pub checked : Controller S → EventLog → Outcome LoopError (Unit {0}) → Logged S
  unfolding handle executed
  checked c log (raised e) = handle e c log
  checked c log (returned _) =
      executed c
        (emit budget_checked "CREATED" (to_dict isoformat clock.at_report c.budget) none log)
        (execute_intent ops clock.moment intent c.runtime)

  unfoldable pub by_loop_state : RuntimeState → Controller S → Logged S
  unfolding checked
  by_loop_state running c =
      let c' =
        count_loop "runtime.loop.started" (record c { budget = start c.budget clock.at_start }) in
      checked c'
        (emit loop_started "CREATED"
          (("agent_id", text intent.agent_id) ∷ ("action", text intent.action) ∷ []) none
          (new_log clock.execution_id))
        (check_budget c'.budget clock)
  by_loop_state other c =
      (stopped_result exception "Loop is shutting down" c, c, new_log clock.execution_id)

  unfoldable pub run_logged : Controller S → Logged S
  unfolding by_loop_state
  run_logged c = by_loop_state c.state c

  unfoldable pub run_intent : Controller S → LoopResult × Controller S
  unfolding run_logged
  run_intent c = let (res, c', log) = run_logged c in (res, c')

-- One step of `run_multi_step`: its intent, the clock before it, and the clock in it.
pub record Step : Type 0 where
  pub intent : Intent
  pub before : ℕ
  pub clock : Clock

-- after one step: what came before it, its result, the controller after it, and the rest's results
unfoldable pub next_step :
    {S : Type 0}
    → (exhausted success : Bool) → Controller S
    → LoopResult × Controller S
    → List LoopResult × Controller S
    → List LoopResult × Controller S
next_step true success c (res, c') (results, c'') = ([], c)
next_step false true c (res, c') (results, c'') = (res ∷ results, c'')
next_step false false c (res, c') (results, c'') = (res ∷ [], c')

module _ {S : Type 0} (ops : Collaborators S) (isoformat seconds_text : ℕ → String) where
  unfoldable pub run_multi_step : List Step → Controller S → List LoopResult × Controller S
  unfolding next_step
  run_multi_step [] c = ([], c)
  run_multi_step (step ∷ steps) c =
      let this = run_intent ops isoformat seconds_text step.clock step.intent c in
      let rest = run_multi_step steps this.1 in
      next_step (is_exhausted c.budget step.before) this.0.success c this rest
