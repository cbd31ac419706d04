-- ===== src/Kernel/States.antt =====
-- kernel/state.py: the states of the runtime and of one execution, and the legal transitions.
pub mod Flow
use kitematic.Base.{String, Bool, List, [], ◌∷◌, map, any}

pub data RuntimeState : Type 0 where
  running draining stopped : RuntimeState

pub data ExecutionState : Type 0 where
  created validating authorized executing checkpointing completed failed halted : ExecutionState

pub ExecutionState-discrete : Discrete ExecutionState
ExecutionState-discrete = hlevel

-- the `value` of the enumeration
unfoldable pub state_value : ExecutionState → String
state_value created = "CREATED"
state_value validating = "VALIDATING"
state_value authorized = "AUTHORIZED"
state_value executing = "EXECUTING"
state_value checkpointing = "CHECKPOINTING"
state_value completed = "COMPLETED"
state_value failed = "FAILED"
state_value halted = "HALTED"

abbrev pub same_state : ExecutionState → ExecutionState → Bool
same_state created created = Bool.true
same_state validating validating = Bool.true
same_state authorized authorized = Bool.true
same_state executing executing = Bool.true
same_state checkpointing checkpointing = Bool.true
same_state completed completed = Bool.true
same_state failed failed = Bool.true
same_state halted halted = Bool.true
same_state _ _ = Bool.false

-- `VALID_TRANSITIONS`
unfoldable pub get_valid_transitions : ExecutionState → List ExecutionState
get_valid_transitions created = validating ∷ []
get_valid_transitions validating = authorized ∷ failed ∷ halted ∷ []
get_valid_transitions authorized = executing ∷ failed ∷ halted ∷ []
get_valid_transitions executing = checkpointing ∷ failed ∷ halted ∷ []
get_valid_transitions checkpointing = completed ∷ halted ∷ []
get_valid_transitions completed = []
get_valid_transitions failed = []
get_valid_transitions halted = []

unfoldable pub is_valid_transition : ExecutionState → ExecutionState → Bool
unfolding get_valid_transitions
is_valid_transition current target = any (same_state target) (get_valid_transitions current)
