-- ===== src/Storage/Documents.antt =====
-- infrastructure/storage/checkpoint/file_system.py: the JSON document of a checkpoint. It holds
-- values of the annotated types, and no times. `json.dump` sorts the keys of every dict.
pub mod RoundTrip
use kitematic.Base.{
  ◌<>◌, codes, ℕ, String, str_eq, Bool, Option, none, some, List, [], ◌∷◌, map, get_or,
  if◌then◌else◌, Outcome, returned, raised, ◌>>=◌,
}
use kitematic.Base.Dict.{Dict}
use kitematic.Kernel.Values.{
  Value, Values, Fields, null, flag, number, text, items, object, nil, cons, end, field,
}
use kitematic.Storage.Indexed.{sort_ordered}
use kitematic.Storage.Checkpoints.{
  Checkpoint, CheckpointTrigger, step_complete, before_tool_call, after_tool_call, error_recovery,
  pause_request, before_irreversible, codes_le,
}

unfoldable pub trigger_value : CheckpointTrigger → String
trigger_value step_complete = "STEP_COMPLETE"
trigger_value before_tool_call = "BEFORE_TOOL_CALL"
trigger_value after_tool_call = "AFTER_TOOL_CALL"
trigger_value error_recovery = "ERROR_RECOVERY"
trigger_value pause_request = "PAUSE_REQUEST"
trigger_value before_irreversible = "BEFORE_IRREVERSIBLE"

-- What reading a document raises: a `KeyError` with its key, or a `ValueError` with its text.
pub data ReadError : Type 0 where
  key_error not_valid : String → ReadError

-- `CheckpointTrigger(value)`
unfoldable pub trigger_of : String → Outcome ReadError CheckpointTrigger
trigger_of value =
    if str_eq value "STEP_COMPLETE"
    then returned step_complete
    else if str_eq value "BEFORE_TOOL_CALL"
    then returned before_tool_call
    else if str_eq value "AFTER_TOOL_CALL"
    then returned after_tool_call
    else if str_eq value "ERROR_RECOVERY"
    then returned error_recovery
    else if str_eq value "PAUSE_REQUEST"
    then returned pause_request
    else if str_eq value "BEFORE_IRREVERSIBLE"
    then returned before_irreversible
    else raised (not_valid ("'" <> value <> "' is not a valid CheckpointTrigger"))

-- The fields that a document has. A parent and a state that are null are the same as missing ones.
pub record Document : Type 0 where
  pub checkpoint_id : Option String
  pub execution_id : Option String
  pub version : Option ℕ
  pub trigger_reason : Option String
  pub checkpoint_hash : Option String
  pub schema_version : Option String
  pub parent_checkpoint_id : Option String
  pub agent_state_ref : Option String
  pub memory_refs : Option (List String)
  pub tool_history : Option (List (Dict Value))

unfoldable pub checkpoint_to_dict : Checkpoint → Document
unfolding trigger_value
checkpoint_to_dict c = record {
  checkpoint_id = some c.checkpoint_id;
  execution_id = some c.execution_id;
  version = some c.version;
  trigger_reason = some (trigger_value c.trigger_reason);
  checkpoint_hash = some c.checkpoint_hash;
  schema_version = some c.schema_version;
  parent_checkpoint_id = c.parent_checkpoint_id;
  agent_state_ref = c.agent_state_ref;
  memory_refs = some c.memory_refs;
  tool_history = some c.tool_history;
}

-- `data[key]`
unfoldable pub required_key : {A : Type 0} → String → Option A → Outcome ReadError A
required_key key none = raised (key_error key)
required_key key (some a) = returned a

unfoldable pub dict_to_checkpoint : Document → Outcome ReadError Checkpoint
unfolding required_key trigger_of
dict_to_checkpoint fields = required_key "checkpoint_id" fields.checkpoint_id >>= λ id.
    required_key "execution_id" fields.execution_id >>= λ execution.
    required_key "version" fields.version >>= λ number.
    required_key "trigger_reason" fields.trigger_reason >>= λ value. trigger_of value >>= λ trigger.
    required_key "checkpoint_hash" fields.checkpoint_hash >>= λ hash. returned (record {
      checkpoint_id = id;
      execution_id = execution;
      version = number;
      trigger_reason = trigger;
      checkpoint_hash = hash;
      schema_version = get_or fields.schema_version "1.0";
      parent_checkpoint_id = fields.parent_checkpoint_id;
      agent_state_ref = fields.agent_state_ref;
      memory_refs = get_or fields.memory_refs [];
      tool_history = get_or fields.tool_history [];
    })

-- the order of keys
unfoldable pub key_before : {V : Type 0} → String × V → String × V → Bool
unfolding codes_le
key_before e f = codes_le (codes e.0) (codes f.0)

-- A dict with its keys sorted.
unfoldable pub sort_keys : {V : Type 0} → Dict V → Dict V
unfolding sort_ordered key_before
sort_keys d = sort_ordered key_before d

unfoldable pub insert_field : String → Value → Fields → Fields
unfolding codes_le
insert_field k v end = field k v end
insert_field k v (field j w fs) =
    let rest = insert_field k v fs in
    if codes_le (codes k) (codes j) then field k v (field j w fs) else field j w rest

unfoldable mutual
  unfolding insert_field

  -- A value with the keys of every dict in it sorted.
  pub sort_value : Value → Value
  sort_value null = null
  sort_value (flag b) = flag b
  sort_value (number n) = number n
  sort_value (text s) = text s
  sort_value (items vs) = items (sort_items vs)
  sort_value (object fs) = object (sort_fields fs)

  pub sort_items : Values → Values
  sort_items nil = nil
  sort_items (cons v vs) = cons (sort_value v) (sort_items vs)

  pub sort_fields : Fields → Fields
  sort_fields end = end
  sort_fields (field k v fs) = insert_field k (sort_value v) (sort_fields fs)

unfoldable pub sort_entry : Dict Value → Dict Value
unfolding sort_value sort_keys
sort_entry d = sort_keys (map (λ e. (e.0, sort_value e.1)) d)

-- What is written and read again has sorted keys, which Python's equality of dicts ignores.
unfoldable pub sorted_history : Checkpoint → Checkpoint
unfolding sort_entry
sorted_history c = record c { tool_history = map sort_entry c.tool_history }
