-- ===== src/ControlPlane/Tests/Adapters.antt =====
-- The adapters of the control plane, and what they do with concrete data.
use kitematic.Base.{
  ℕ, ◌≡◌, refl, arith, String, Bool, false, none, some, List, [], ◌∷◌, ◌<>◌, str_eq, if◌then◌else◌,
  Outcome, returned, raised,
}
use kitematic.Base.Dict.{Dict, lookup, insert}
use kitematic.Kernel.Values.{Value, text}
use kitematic.Kernel.Contracts.{Intent, ExecutionPath}
use kitematic.Kernel.Tools.Named.{add, changes}
use kitematic.Kernel.Tools.{
  new_registry, register, register_if, tool_is_valid, validate_tool, get_tool,
}
use kitematic.Kernel.Execution.{
  StepResponse, in_memory_runtime, counted, steps_before, plus_one, field_of, runtime_meta,
}
use kitematic.Kernel.Execution as Execution
use kitematic.Kernel.Execution.Step.{HasSeen}
use kitematic.Storage.Checkpoints.{CheckpointStore, new_store, validate_checkpoint}
use kitematic.Storage.Documents.{sort_entry}
use kitematic.Storage.Repository.{in_memory}
use kitematic.ControlPlane.StateMachine as Machine
use kitematic.ControlPlane.StateMachine.{StateMachine, new_machine}
use kitematic.ControlPlane.Coordinator.{plan_step}
use kitematic.ControlPlane.Policy.Rules.{PolicyRule, allow, active}
use kitematic.ControlPlane.Policy.Engine.{Engine}
use kitematic.ControlPlane.Adapters.Router.{path_of, route_intent, by_exact}
use kitematic.ControlPlane.Adapters.Routes.{LeadsToTool, route_intent-LeadsToTool}
use kitematic.ControlPlane.Adapters.Checkpoints.{
  Json, Adapter, save_state, restore_state, save_valid, after_save,
}
use kitematic.ControlPlane.Adapters.Checkpoints.Saved.{restore_state-save_state}
use kitematic.ControlPlane.Adapters.Executor.{plan_and_execute}
use kitematic.ControlPlane.Adapters.Executor.Reports.{PlanReported, plan_and_execute-PlanReported}
use kitematic.ControlPlane.Adapters.Executor.Progress.{plan_and_execute-completed}
use kitematic.Kernel.Tests.Gateway.{disk}

abbrev pub read_disk : Intent
read_disk = record { agent_id = "a1"; action = "disk"; parameters = [] }

-- no pattern matches
abbrev pub none_match : String → String → Bool
none_match pattern name = false

abbrev disk_path : ExecutionPath
disk_path = path_of disk read_disk

route_intent-LeadsToTool_example : LeadsToTool (changes (add disk ∷ []) new_registry) disk_path
unfolding changes register register_if tool_is_valid validate_tool route_intent by_exact get_tool
    lookup insert
route_intent-LeadsToTool_example =
    route_intent-LeadsToTool none_match (add disk ∷ []) read_disk disk_path refl

abbrev may_read : PolicyRule
may_read = record {
  policy_id = "p1";
  tenant_id = "default";
  name = "read";
  target = "disk";
  effect = allow;
  condition = none;
  priority = 100;
  status = active;
  required_capabilities = [];
}

abbrev pub open_engine : Engine ℕ
open_engine = record { policies = ("p1", may_read) ∷ []; capability_registry = none; cache = [] }

abbrev pub no_key : List String → String
no_key capabilities = ""

abbrev pub adapter : Adapter CheckpointStore
adapter = record { repo = new_store; version_counter = [] }

-- the keys of a dict in their order, and its texts
abbrev keys_text : Dict Value → String
keys_text [] = "}"
keys_text ((k, text s) ∷ d) = k <> ":" <> s <> "," <> keys_text d
keys_text ((k, v) ∷ d) = k <> "," <> keys_text d

-- A JSON library that can read the texts of some states, those of other texts are no JSON.
abbrev read_among : List (Dict Value) → String → Outcome String (Dict Value)
read_among [] t = raised "Expecting value"
read_among (d ∷ ds) t =
    let rest = read_among ds t in if str_eq (keys_text d) t then returned d else rest

abbrev pub json_of : Dict Value → Json
json_of state = record {
  dumps = keys_text;
  loads = read_among ([] ∷ sort_entry state ∷ []);
  digest = λ t. "h";
}

abbrev small_state : Dict Value
small_state = ("goal", text "tidy up") ∷ ("agent", text "a1") ∷ []

restore_state-save_state_example :
    restore_state in_memory
      (json_of small_state)
      "c1"
      (save_state in_memory (json_of small_state) "c1" "e1" small_state adapter).1
    ≡ returned (sort_entry small_state)
unfolding sort_entry save_state save_valid after_save validate_checkpoint lookup insert
restore_state-save_state_example =
    restore_state-save_state in_memory (json_of small_state) "c1" "e1" small_state adapter "c1" refl
      refl

abbrev no_text : Value → String
no_text v = ""

-- a state that has seen three steps
abbrev small_seen : Dict Value
small_seen = ("_runtime", runtime_meta no_text 3 1) ∷ []

plan_and_execute-PlanReported_example :
    PlanReported
      (in_memory_runtime no_text (some in_memory) "c1")
      "e1"
      "a1"
      "tidy up"
      []
      5500
      ("disk" ∷ [])
      (plan_step 9 "e1" 2 5500 ("disk" ∷ []))
      (new_machine Machine.running)
      new_store
      (plan_and_execute
        (in_memory_runtime no_text (some in_memory) "c1")
        "e1"
        "a1"
        "tidy up"
        9
        2
        []
        5500
        ("disk" ∷ [])
        (new_machine Machine.running)
        new_store)
plan_and_execute-PlanReported_example =
    plan_and_execute-PlanReported (in_memory_runtime no_text (some in_memory) "c1") "e1" "a1"
      "tidy up" [] 5500 ("disk" ∷ []) 9 2 (new_machine Machine.running) new_store

plan_and_execute-completed_example :
    (response : StepResponse) × (plan_and_execute
        (in_memory_runtime no_text none "c1")
        "e1"
        "a1"
        "tidy up"
        9
        2
        small_seen
        5500
        ("disk" ∷ [])
        (new_machine Machine.running)
        new_store
      ≡ (
        returned (plan_step 9 "e1" 2 5500 ("disk" ∷ []), some response),
        new_machine Machine.running,
        new_store,
      ))
    × (response.status ≡ Execution.completed)
    × HasSeen no_text 4 response.updated_state
unfolding counted steps_before plus_one field_of lookup
plan_and_execute-completed_example =
    plan_and_execute-completed no_text "e1" "a1" "tidy up" "c1" 9 2 small_seen 5500 ("disk" ∷ [])
      (new_machine Machine.running) new_store 3 refl refl refl (omega arith) (omega arith)
      (omega arith) refl
