-- ===== src/Kernel/Contracts.antt =====
-- The contracts at the top of kernel/runtime.py: intents, results, and the four collaborators that
-- the runtime calls. A collaborator is a function on a state `S` that the runtime only passes on.
use kitematic.Base.{String, is_empty, Bool, Option, none, some, if◌then◌else◌, Outcome}
use kitematic.Base.Dict.{Dict}
use kitematic.Kernel.Values.{Value}
use kitematic.Kernel.States.{ExecutionState}
use kitematic.Kernel.Errors.{Error}

-- The creation time of an intent is not modelled.
pub record Intent : Type 0 where
  pub agent_id : String
  pub action : String
  pub parameters : Dict Value

pub record ExecutionResult : Type 0 where
  pub success : Bool
  pub execution_id : String
  pub checkpoint_id : Option String
  pub result_data : Dict Value
  pub error : Option String
  pub state : ExecutionState

pub record ToolResult : Type 0 where
  pub success : Bool
  pub result_data : Dict Value
  pub error : Option String

pub record ExecutionPath : Type 0 where
  pub tool : String
  pub adapter : String
  pub parameters : Dict Value

-- `text or default`
abbrev pub or_text : Option String → String → String
or_text none default = default
or_text (some text) default = if is_empty text then default else text

-- A call that may raise, on the collaborators' state.
abbrev pub Call : Type 0 → Type 0 → Type 0
Call S A = S → Outcome Error A × S

-- The part of a quota manager that the runtime calls (`retry_after` as it is printed).
pub record QuotaCalls (S : Type 0) : Type 0 where
  pub check_concurrent : String → S → Bool
  pub check_and_consume_rate : String → S → Bool × S
  pub retry_after : String → S → String × S
  pub start_execution : String → String → S → S
  pub end_execution : String → String → S → S

-- `PolicyEvaluator`, `IntentRouter`, `ToolGateway`, `StatePersistence` and the quota manager;
-- `repr` is Python's `repr` of a text.
pub record Collaborators (S : Type 0) : Type 0 where
  pub evaluate_intent : Intent → Call S (Bool × Option String)
  pub check_capability : String → String → Call S (Bool × Option String)
  pub route_intent : Intent → Call S ExecutionPath
  pub access_tool : ExecutionPath → Intent → Call S ToolResult
  pub save : String → Dict Value → Call S String
  pub restore : String → Call S (Dict Value)
  pub quota_manager : Option (QuotaCalls S)
  pub repr : String → String
