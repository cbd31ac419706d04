-- ===== src/Storage/Checkpoints.antt =====
-- core/domain/checkpoint.py and infrastructure/storage/checkpoint/in_memory.py. The times of
-- checkpoints are not modelled. A set of identifiers is a list without repetitions; copies are the
-- values themselves.
pub mod Index
use kitematic.Base.{
  codes, ℕ, String, str_eq, is_empty, Bool, true, false, ◌&&◌, ◌||◌, not, Option, none, some, List,
  [], ◌∷◌, ◌++◌, any, length, ◌==◌, ltb, leb, get_or, if◌then◌else◌, Outcome, returned, raised,
}
use kitematic.Base.Dict.{Dict, lookup, insert}
use kitematic.Kernel.Values.{Value}
use kitematic.Storage.Indexed.{add_to_set, fetch_all, sort_ordered}

pub data CheckpointTrigger : Type 0 where
  step_complete before_tool_call after_tool_call error_recovery pause_request before_irreversible :
      CheckpointTrigger

-- A version is a natural number: the check that it is not negative always passes.
pub record Checkpoint : Type 0 where
  pub checkpoint_id : String
  pub execution_id : String
  pub version : ℕ
  pub trigger_reason : CheckpointTrigger
  pub checkpoint_hash : String
  pub schema_version : String
  pub parent_checkpoint_id : Option String
  pub agent_state_ref : Option String
  pub memory_refs : List String
  pub tool_history : List (Dict Value)

abbrev require_field : String → String → List String
require_field field text = if is_empty field then text ∷ [] else []

unfoldable pub validate_checkpoint : Checkpoint → List String
validate_checkpoint c =
    require_field c.checkpoint_id "checkpoint_id is required"
    ++ require_field c.execution_id "execution_id is required"
    ++ require_field c.checkpoint_hash "checkpoint_hash is required"

unfoldable pub checkpoint_is_valid : Checkpoint → Bool
unfolding validate_checkpoint
checkpoint_is_valid c = length (validate_checkpoint c) == 0

pub record CheckpointStore : Type 0 where
  pub store : Dict Checkpoint
  pub execution_index : Dict (List String)

abbrev pub new_store : CheckpointStore
new_store = record { store = []; execution_index = [] }

unfoldable pub save : Checkpoint → CheckpointStore → Checkpoint × CheckpointStore
save c s = (
  c,
  record {
    store = insert c.checkpoint_id c s.store;
    execution_index =
        insert c.execution_id
          (add_to_set c.checkpoint_id (get_or (lookup c.execution_id s.execution_index) []))
          s.execution_index;
  },
)

unfoldable pub get : String → CheckpointStore → Option Checkpoint
get checkpoint_id s = lookup checkpoint_id s.store

unfoldable pub ids_of : String → CheckpointStore → List String
ids_of execution_id s = get_or (lookup execution_id s.execution_index) []

-- `s <= t`, on codes
unfoldable pub codes_le : List ℕ → List ℕ → Bool
codes_le [] t = true
codes_le (c ∷ s) [] = false
codes_le (c ∷ s) (d ∷ t) = ltb c d || (c == d && codes_le s t)

-- the order of the pairs of version and identifier
unfoldable pub before : Checkpoint → Checkpoint → Bool
unfolding codes_le
before c d =
    ltb c.version d.version
    || (c.version == d.version && codes_le (codes c.checkpoint_id) (codes d.checkpoint_id))

unfoldable pub sort_checkpoints : List Checkpoint → List Checkpoint
unfolding sort_ordered before
sort_checkpoints cs = sort_ordered before cs

abbrev pub sorted_of : Outcome String (List Checkpoint) → Outcome String (List Checkpoint)
sorted_of (raised missing) = raised missing
sorted_of (returned cs) = returned (sort_checkpoints cs)

unfoldable pub list_by_execution : String → CheckpointStore → Outcome String (List Checkpoint)
unfolding ids_of fetch_all
list_by_execution execution_id s = sorted_of (fetch_all (ids_of execution_id s) s.store)

-- `max(..., key=version)`: of several, the first that the set gives
unfoldable pub latest_from : Checkpoint → List Checkpoint → Checkpoint
latest_from c [] = c
latest_from c (d ∷ ds) = latest_from (if ltb c.version d.version then d else c) ds

unfoldable pub latest_of : Outcome String (List Checkpoint) → Outcome String (Option Checkpoint)
latest_of (raised missing) = raised missing
latest_of (returned []) = returned none
latest_of (returned (c ∷ cs)) = returned (some (latest_from c cs))

unfoldable pub get_latest : String → CheckpointStore → Outcome String (Option Checkpoint)
unfolding ids_of fetch_all latest_of latest_from
get_latest execution_id s = latest_of (fetch_all (ids_of execution_id s) s.store)
