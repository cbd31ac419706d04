-- ===== src/ControlPlane/Adapters/Checkpoints.antt =====
-- `CheckpointPersistenceAdapter` of control_plane/adapters/to_kernel/checkpoint.py, over any
-- repository. `dumps` and `loads` are those of Python's `json`, where `dumps` writes a dict in its
-- order, `loads` reads it in that of the text and raises a `JSONDecodeError` with its text, and
-- `digest` is the first digits of the SHA-256 hash of a text. States hold JSON values only, so that
-- `default=str` is never asked.
pub mod Saved
use kitematic.Base.{
  ℕ, ◌+◌, String, ◌<>◌, repr_list, is_empty, Bool, true, false, Option, none, some, List, [], ◌∷◌,
  get_or, Outcome, returned, raised,
}
use kitematic.Base.Dict.{Dict, lookup, insert}
use kitematic.Kernel.Values.{Value}
use kitematic.Kernel.Errors.{Error, checkpoint_persistence, message}
use kitematic.Storage.Checkpoints.{Checkpoint, step_complete, validate_checkpoint}
use kitematic.Storage.Documents.{sort_entry}
use kitematic.Storage.Repository.{Repository}

pub record Adapter (R : Type 0) : Type 0 where
  pub repo : R
  pub version_counter : Dict ℕ

pub record Json : Type 0 where
  pub dumps : Dict Value → String
  pub loads : String → Outcome String (Dict Value)
  pub digest : String → String

-- every exception but `CheckpointPersistenceError` is wrapped in one
unfoldable pub as_save_error : Error → Error
as_save_error (checkpoint_persistence operation reason) = checkpoint_persistence operation reason
as_save_error e = checkpoint_persistence "save" (message e)

unfoldable pub as_restore_error : Error → Error
as_restore_error (checkpoint_persistence operation reason) = checkpoint_persistence operation reason
as_restore_error e = checkpoint_persistence "restore" (message e)

module _ {R : Type 0} (repository : Repository R) (json : Json) where
  -- the checkpoint of a state
  abbrev pub checkpoint_of :
      (checkpoint_id execution_id : String) (version : ℕ) (state_json : String) → Checkpoint
  checkpoint_of checkpoint_id execution_id version state_json = record {
    checkpoint_id = checkpoint_id;
    execution_id = execution_id;
    version = version;
    trigger_reason = step_complete;
    checkpoint_hash = json.digest state_json;
    schema_version = "1.0";
    parent_checkpoint_id = none;
    agent_state_ref = some state_json;
    memory_refs = [];
    tool_history = [];
  }

  unfoldable pub after_save :
      String → Adapter R → Outcome Error Checkpoint × R → Outcome Error String × Adapter R
  unfolding as_save_error
  after_save checkpoint_id a (raised e, r) = (raised (as_save_error e), record a { repo = r })
  after_save checkpoint_id a (returned c, r) = (returned checkpoint_id, record a { repo = r })

  unfoldable pub save_valid :
      (errors : List String) → Checkpoint → Adapter R → Outcome Error String × Adapter R
  unfolding after_save
  save_valid [] c a = after_save c.checkpoint_id a (repository.save_checkpoint c a.repo)
  save_valid (error ∷ errors) c a = (
    raised (checkpoint_persistence "save" ("Invalid checkpoint: " <> repr_list (error ∷ errors))),
    a,
  )

  -- `checkpoint_id` is the fresh identifier; the text has the keys of every dict sorted
  unfoldable pub save_state :
      (checkpoint_id execution_id : String) (state : Dict Value)
      → Adapter R
      → Outcome Error String × Adapter R
  unfolding save_valid sort_entry
  save_state checkpoint_id execution_id state a =
      let version = get_or (lookup execution_id a.version_counter) 0 + 1 in
      let c = checkpoint_of checkpoint_id execution_id version (json.dumps (sort_entry state)) in
      save_valid (validate_checkpoint c) c
        (record a { version_counter = insert execution_id version a.version_counter })

  unfoldable pub decoded : String → Outcome String (Dict Value) → Outcome Error (Dict Value)
  decoded checkpoint_id (returned state) = returned state
  decoded checkpoint_id (raised e) = raised (
      checkpoint_persistence "restore"
        ("Corrupted state in checkpoint '" <> checkpoint_id <> "': " <> e))

  unfoldable pub state_of : String → Option String → Outcome Error (Dict Value)
  unfolding decoded
  state_of checkpoint_id none =
      raised (
        checkpoint_persistence "restore" ("Checkpoint '" <> checkpoint_id <> "' contains no state"))
  state_of checkpoint_id (some state_json) = decoded checkpoint_id (json.loads state_json)

  unfoldable pub after_get : String → Outcome Error (Option Checkpoint) → Outcome Error (Dict Value)
  unfolding state_of as_restore_error
  after_get checkpoint_id (raised e) = raised (as_restore_error e)
  after_get checkpoint_id (returned none) =
      raised (checkpoint_persistence "restore" ("Checkpoint not found: " <> checkpoint_id))
  after_get checkpoint_id (returned (some c)) = state_of checkpoint_id c.agent_state_ref

  unfoldable pub restore_state : String → Adapter R → Outcome Error (Dict Value)
  unfolding after_get
  restore_state checkpoint_id a =
      after_get checkpoint_id (repository.get_checkpoint checkpoint_id a.repo)
