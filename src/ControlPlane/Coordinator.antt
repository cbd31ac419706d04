-- ===== src/ControlPlane/Coordinator.antt =====
-- control_plane/orchestrator/coordinator.py. The remaining budget is a float, counted in thousandths:
-- what is below 0 counts as 0.
use kitematic.Base.{
  ℕ, ◌<◌, ◌≡◌, ◌↔◌, ◌⊎◌, String, ◌<>◌, str_eq, Bool, true, false, not, ◌||◌, leb, List, length,
  if◌then◌else◌, arith, eq_iff, ◌==◌,
}

pub data StepAction : Type 0 where
  execute pause_for_approval checkpoint complete fail : StepAction

pub record StepPlan : Type 0 where
  pub action : StepAction
  pub execution_id : String
  pub step_number : ℕ
  pub reason : String

abbrev plan : StepAction → String → ℕ → String → StepPlan
plan action execution_id step_number reason = record {
  action = action;
  execution_id = execution_id;
  step_number = step_number;
  reason = reason;
}

-- `plan_step`; the goal is not read
unfoldable pub plan_step :
    (max_steps : ℕ) (execution_id : String) (step_number budget_remaining : ℕ)
    (allowed_tools : List String)
    → StepPlan
plan_step max_steps execution_id step_number budget_remaining allowed_tools =
    if leb max_steps step_number
    then plan complete execution_id step_number "max_steps_reached"
    else if leb budget_remaining 0
    then plan pause_for_approval execution_id step_number "budget_exceeded"
    else if length allowed_tools == 0
    then plan complete execution_id step_number "no_tools_available"
    else plan execute execution_id step_number "ready_to_execute"

unfoldable pub validate_step_prerequisites :
    (current_state : String) (step_number max_steps : ℕ) → Bool × String
validate_step_prerequisites current_state step_number max_steps =
    if not (str_eq current_state "RUNNING" || str_eq current_state "RESUMING")
    then (false, "Cannot execute step in state: " <> current_state)
    else if leb max_steps step_number
    then (false, "Step limit exceeded")
    else (true, "prerequisites_met")

-- A step may be taken exactly when the execution runs or resumes, and its number is below the limit.
pub validate_step_prerequisites_iff :
    (current_state : String) (step_number max_steps : ℕ)
    → ((validate_step_prerequisites current_state step_number max_steps).0 ≡ true)
      ↔ (((current_state ≡ "RUNNING") ⊎ (current_state ≡ "RESUMING")) × (step_number < max_steps))
unfolding validate_step_prerequisites
validate_step_prerequisites_iff current_state step_number max_steps =
    ground (arith, eq_iff current_state "RUNNING", eq_iff current_state "RESUMING")

abbrev pub is_execute : StepAction → Bool
is_execute execute = true
is_execute _ = false

-- A step is planned to be executed exactly when its number is below the limit, some budget is left
-- and some tool is allowed.
pub plan_step_iff :
    (max_steps : ℕ) (execution_id : String) (step_number budget_remaining : ℕ)
    (allowed_tools : List String)
    → (is_execute
          (plan_step max_steps execution_id step_number budget_remaining allowed_tools).action
        ≡ true)
      ↔ ((step_number < max_steps) × (0 < budget_remaining) × (0 < length allowed_tools))
unfolding plan_step
plan_step_iff max_steps execution_id step_number budget_remaining allowed_tools = ground arith
