-- ===== src/ControlPlane/Lifecycle.antt =====
-- control_plane/lifecycle/manager.py. The registry of agents is a function from an instance's
-- identifier to what it holds of it; the texts of times are left out of the printed history.
pub mod Moves
pub mod Reachable
pub mod Effects
use kitematic.Base.{
  String, ◌<>◌, ◌||◌, Bool, true, false, Option, none, some, List, [], ◌∷◌, map, if◌then◌else◌,
  get_or, Outcome, returned, raised, ◌>>=◌,
}
use kitematic.Base.Dict.{Dict, lookup, insert}
use kitematic.ControlPlane.StateMachine.{
  ExecutionStatus, pending, running, paused, resuming, completed, failed, status_value, same_status,
  StateTransition, LifecycleError, instance_not_found, StateMachine, new_machine, can_transition,
  transition,
}

pub record Manager : Type 0 where
  pub machines : Dict StateMachine

abbrev pub new_manager : Manager
new_manager = record { machines = [] }

-- `_get_state_machine` gives the machine of an execution, and stores it if it is new; every
-- operation stores what becomes of it.
unfoldable pub get_machine : String → Manager → StateMachine
get_machine execution_id manager =
    get_or (lookup execution_id manager.machines) (new_machine pending)

unfoldable pub store : String → StateMachine → Manager → Manager
store execution_id m manager = record { machines = insert execution_id m manager.machines }

abbrev after_transition :
    Outcome LifecycleError (StateTransition × StateMachine) → Outcome LifecycleError StateMachine
after_transition (returned (step, m)) = returned m
after_transition (raised e) = raised e

-- `if sm.can_transition(target): sm.transition(...)`
unfoldable pub try_transition :
    (target : ExecutionStatus) (reason actor : String) (metadata : Dict String)
    → StateMachine
    → Outcome LifecycleError StateMachine
try_transition target reason actor metadata m =
    if can_transition m target
    then after_transition (transition m target reason actor metadata)
    else returned m

-- An operation on the machine of one execution.
unfoldable pub change :
    String
    → (StateMachine → Outcome LifecycleError StateMachine)
    → Manager
    → Outcome LifecycleError Manager
change execution_id f manager = do
  m ← f (get_machine execution_id manager)
  returned (store execution_id m manager)

unfoldable pub stop_machine : StateMachine → Outcome LifecycleError StateMachine
unfolding try_transition
stop_machine m =
    if same_status m.current_state completed || same_status m.current_state failed
    then returned m
    else try_transition failed "user_stopped" "lifecycle_manager" [] m

unfoldable pub pause_machine : StateMachine → Outcome LifecycleError StateMachine
unfolding try_transition
pause_machine = try_transition paused "user_paused" "lifecycle_manager" []

unfoldable pub resume_machine : StateMachine → Outcome LifecycleError StateMachine
unfolding try_transition
resume_machine m = do
  m' ← try_transition resuming "user_resumed" "lifecycle_manager" [] m
  try_transition running "step_execution_started" "orchestrator" [] m'

unfoldable pub start_machine :
    (instance_id goal : String) → StateMachine → Outcome LifecycleError StateMachine
unfolding try_transition
start_machine instance_id goal =
    try_transition running "user_started" "lifecycle_manager"
      (("instance_id", instance_id) ∷ ("goal", goal) ∷ [])

unfoldable pub start_execution :
    {I : Type 0} (get_instance : String → Option I) (instance_id goal : String)
    → Manager
    → Outcome LifecycleError (String × Manager)
unfolding change
start_execution get_instance instance_id goal manager = elim (get_instance instance_id) [
  | none ↦ raised (instance_not_found instance_id)
  | some _ ↦ do
    let execution_id = "exec-" <> instance_id
    manager' ← change execution_id (start_machine instance_id goal) manager
    returned (execution_id, manager')
]

unfoldable pub stop_execution : String → Manager → Outcome LifecycleError Manager
unfolding change
stop_execution execution_id = change execution_id stop_machine

unfoldable pub pause_execution : String → Manager → Outcome LifecycleError Manager
unfolding change
pause_execution execution_id = change execution_id pause_machine

unfoldable pub resume_execution : String → Manager → Outcome LifecycleError Manager
unfolding change
resume_execution execution_id = change execution_id resume_machine

unfoldable pub get_execution_status : String → Manager → String × Manager
unfolding get_machine
get_execution_status execution_id manager =
    let m = get_machine execution_id manager in
    (status_value m.current_state, store execution_id m manager)

abbrev printed : StateTransition → Dict String
printed t =
    ("from_state", status_value t.from_state)
    ∷ ("to_state", status_value t.to_state)
    ∷ ("reason", t.reason)
    ∷ ("actor", t.actor)
    ∷ []

unfoldable pub get_transition_history : String → Manager → List (Dict String) × Manager
unfolding get_machine
get_transition_history execution_id manager =
    let m = get_machine execution_id manager in
    (map printed m.history, store execution_id m manager)
