-- ===== src/ControlPlane/StateMachine.antt =====
-- control_plane/orchestrator/state_machine.py. The time of a transition is not modelled.
use kitematic.Base.{
  String, Bool, true, false, not, List, [], ◌∷◌, ◌++◌, any, if◌then◌else◌, Outcome, returned,
  raised,
}
use kitematic.Base.Dict.{Dict}

pub data ExecutionStatus : Type 0 where
  pending running paused resuming completed failed : ExecutionStatus

-- the `value` of the enumeration
unfoldable pub status_value : ExecutionStatus → String
status_value pending = "PENDING"
status_value running = "RUNNING"
status_value paused = "PAUSED"
status_value resuming = "RESUMING"
status_value completed = "COMPLETED"
status_value failed = "FAILED"

abbrev pub same_status : ExecutionStatus → ExecutionStatus → Bool
same_status pending pending = true
same_status running running = true
same_status paused paused = true
same_status resuming resuming = true
same_status completed completed = true
same_status failed failed = true
same_status _ _ = false

-- `LEGAL_TRANSITIONS`
unfoldable pub legal_transitions : ExecutionStatus → List ExecutionStatus
legal_transitions pending = running ∷ failed ∷ []
legal_transitions running = paused ∷ completed ∷ failed ∷ []
legal_transitions paused = resuming ∷ failed ∷ []
legal_transitions resuming = running ∷ failed ∷ []
legal_transitions completed = []
legal_transitions failed = []

pub record StateTransition : Type 0 where
  pub from_state : ExecutionStatus
  pub to_state : ExecutionStatus
  pub reason : String
  pub actor : String
  pub metadata : Dict String

-- The exceptions of the control plane's lifecycle.
pub data LifecycleError : Type 0 where
  invalid_transition : (from_state to_state : ExecutionStatus) → LifecycleError
  instance_not_found : String → LifecycleError

pub record StateMachine : Type 0 where
  pub current_state : ExecutionStatus
  pub history : List StateTransition

unfoldable pub new_machine : ExecutionStatus → StateMachine
new_machine initial_state = record { current_state = initial_state; history = [] }

-- whether `target` is among the legal targets of `current`
unfoldable pub is_legal : (current target : ExecutionStatus) → Bool
unfolding legal_transitions
is_legal current target = any (same_status target) (legal_transitions current)

module _ (m : StateMachine) where
  unfoldable pub can_transition : ExecutionStatus → Bool
  can_transition target = is_legal m.current_state target

  -- the record of a transition, and the machine after it
  abbrev pub step_to :
      (target : ExecutionStatus) (reason actor : String) (metadata : Dict String) → StateTransition
  step_to target reason actor metadata = record {
    from_state = m.current_state;
    to_state = target;
    reason = reason;
    actor = actor;
    metadata = metadata;
  }

  abbrev pub moved : StateTransition → StateMachine
  moved step = record { current_state = step.to_state; history = m.history ++ step ∷ [] }

  unfoldable pub transition :
      (target : ExecutionStatus) (reason actor : String) (metadata : Dict String)
      → Outcome LifecycleError (StateTransition × StateMachine)
  unfolding can_transition
  transition target reason actor metadata =
      let step = step_to target reason actor metadata in
      if not (can_transition target)
      then raised (invalid_transition m.current_state target)
      else returned (step, moved step)
