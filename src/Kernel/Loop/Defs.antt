-- ===== src/Kernel/Loop/Defs.antt =====
-- The results, the exceptions and the fields of `LoopController` of kernel/lifecycle.py.
use kitematic.Base.{
  ℕ, ◌-◌, String, ◌<>◌, show, Bool, Option, none, some, List, [], if◌then◌else◌, Outcome, returned,
  raised,
}
use kitematic.Kernel.States.{ExecutionState, RuntimeState, running, stopped}
use kitematic.Kernel.Errors.{Error, message}
use kitematic.Kernel.Tenant.{TenantContext}
use kitematic.Kernel.Budget.{Budget, is_exhausted, is_timeout}
use kitematic.Kernel.Metrics.{Metrics}
use kitematic.Kernel.Contracts.{ExecutionResult}
use kitematic.Kernel.Runtime.{Runtime, Moment, set_tenant_context}
use kitematic.Kernel.Loop.Classify.{LoopTermination}

pub record LoopResult : Type 0 where
  pub success : Bool
  pub execution_id : String
  pub steps_executed : ℕ
  pub tokens_consumed : ℕ
  pub checkpoints : List String
  pub final_state : ExecutionState
  pub termination_reason : LoopTermination
  pub error : Option String
  pub history : List ExecutionResult

-- `LoopBudgetExhaustedError`, `LoopTimeoutError`, and any other exception
pub data LoopError : Type 0 where
  budget_limit : (steps tokens : ℕ) → LoopError
  time_limit : (elapsed timeout_seconds : ℕ) → LoopError
  failure : Error → LoopError

-- `str(e)`; `seconds_text` prints a number of microseconds as seconds with one decimal.
unfoldable pub loop_message : (seconds_text : ℕ → String) → LoopError → String
loop_message seconds_text (budget_limit steps tokens) =
    "Loop budget exhausted: steps=" <> show steps <> ", tokens=" <> show tokens
loop_message seconds_text (time_limit elapsed timeout_seconds) =
    "Loop timeout: " <> seconds_text elapsed <> "s > " <> show timeout_seconds <> "s"
loop_message seconds_text (failure e) = message e

-- Without a logger. `metrics` is the loop's own reference to a registry.
pub record Controller (S : Type 0) : Type 0 where
  pub runtime : Runtime S
  pub budget : Budget
  pub history : List ExecutionResult
  pub metrics : Option Metrics
  pub state : RuntimeState

-- What one call of `run_intent` reads from the clock, in its order, and from `uuid4`.
pub record Clock : Type 0 where
  pub execution_id : String
  pub at_start : ℕ
  pub at_exhausted : ℕ
  pub at_timeout : ℕ
  pub at_elapsed : ℕ
  pub at_report : ℕ
  pub moment : Moment
  pub at_consume : ℕ

abbrev with_context : {S : Type 0} → Runtime S → Option TenantContext → Outcome Error (Runtime S)
with_context r none = returned r
with_context r (some c) = set_tenant_context r c

abbrev controller_of :
    {S : Type 0}
    → Budget
    → Option Metrics
    → Outcome Error (Runtime S)
    → Outcome Error (Controller S)
controller_of budget metrics (raised e) = raised e
controller_of budget metrics (returned r) =
    returned
      (record { runtime = r; budget = budget; history = []; metrics = metrics; state = running })

-- the constructor
unfoldable pub new_controller :
    {S : Type 0}
    → Runtime S
    → Budget
    → Option TenantContext
    → Option Metrics
    → Outcome Error (Controller S)
new_controller r budget context metrics = controller_of budget metrics (with_context r context)

shutdown_state : RuntimeState → RuntimeState
shutdown_state running = stopped
shutdown_state other = other

unfoldable pub shutdown : {S : Type 0} → Controller S → Controller S
unfolding shutdown_state
shutdown c = record c { state = shutdown_state c.state }

-- the clock minus the start, or 0.0 if the budget was not started
abbrev elapsed_since : Option ℕ → ℕ → ℕ
elapsed_since none now = 0
elapsed_since (some started) now = now - started

-- the two tests of `_check_budget`, each with its own reading of the clock
unfoldable pub check_budget : Budget → Clock → Outcome LoopError (Unit {0})
check_budget b clock =
    if is_exhausted b clock.at_exhausted
    then raised (budget_limit b.current_steps b.tokens_consumed)
    else if is_timeout b clock.at_timeout
    then raised (time_limit (elapsed_since b.started_at clock.at_elapsed) b.timeout_seconds)
    else returned tt
