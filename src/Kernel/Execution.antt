-- ===== src/Kernel/Execution.antt =====
-- kernel/execution/ and the contracts core/contracts/step_request.py and step_response.py: one step
-- of an execution, in memory. References to a memory store are carried and never used, and are left
-- out, as are the limits of a request, which nothing reads. `type_text` is the text of Python's
-- exception when a value of the state is not of the type that the code expects.
pub mod Step
pub mod Steps
use kitematic.Base.{
  ℕ, ◌+◌, ◌-◌, String, ◌<>◌, show, str_eq, is_empty, Bool, true, false, Option, none, some, List,
  [], ◌∷◌, ◌++◌, leb, get_or, if◌then◌else◌, Outcome, returned, raised, ◌>>=◌, ◌>>◌,
}
use kitematic.Base.Dict.{Dict, lookup, insert}
use kitematic.Kernel.Values.{
  Value, null, flag, number, text, items, object, Fields, end, field, dict_value,
}
use kitematic.Kernel.Errors.{Error, message}
use kitematic.Storage.Checkpoints.{Checkpoint, step_complete}
use kitematic.Storage.Repository.{Repository}

pub data StepStatus : Type 0 where
  completed tool_request approval_required checkpoint_required failed : StepStatus

pub record ToolRequest : Type 0 where
  pub mcp_server : String
  pub tool_name : String
  pub arguments : Dict Value

pub record StepRequest : Type 0 where
  pub execution_id : String
  pub agent_id : String
  pub goal : String
  pub state : Dict Value
  pub allowed_tools : List String

pub record StepResponse : Type 0 where
  pub status : StepStatus
  pub updated_state : Dict Value
  pub output : String
  pub requested : Option ToolRequest
  pub error_message : String
  pub tokens_consumed : ℕ

-- An integer: a budget may fall below 0.
pub data ℤ : Type 0 where
  pos negsuc : ℕ → ℤ

-- `b - n` of natural numbers
unfoldable pub difference : (b n : ℕ) → ℤ
difference b n = if leb n b then pos (b - n) else negsuc (n - b - 1)

unfoldable pub minus : ℤ → ℕ → ℤ
unfolding difference
minus (pos b) n = difference b n
minus (negsuc b) n = negsuc (b + n)

unfoldable pub is_positive : ℤ → Bool
is_positive (pos b) = if leb b 0 then false else true
is_positive (negsuc b) = false

pub record ExecutionContext : Type 0 where
  pub execution_id : String
  pub agent_id : String
  pub step_number : ℕ
  pub state : Dict Value
  pub budget_remaining : ℤ
  pub tokens_per_step : ℕ
  pub allowed_tools : List String
  pub metadata : Dict Value
  pub tokens_consumed : ℕ

-- `ContextBuilder(...)`: the empty context of an execution and an agent
unfoldable pub context_builder : (execution_id agent_id : String) → Outcome String ExecutionContext
context_builder execution_id agent_id =
    if is_empty execution_id
    then raised "execution_id is required"
    else if is_empty agent_id
    then raised "agent_id is required"
    else returned (record {
      execution_id = execution_id;
      agent_id = agent_id;
      step_number = 0;
      state = [];
      budget_remaining = pos 0;
      tokens_per_step = 10;
      allowed_tools = [];
      metadata = [];
      tokens_consumed = 0;
    })

-- The engines that execute a step: a request on a context, with the response or the text of an
-- exception, the context afterwards and the state `T` of the engine.
pub record ExecutionRuntime (T : Type 0) : Type 0 where
  pub execute_step :
      StepRequest → ExecutionContext → T → Outcome String StepResponse × ExecutionContext × T

abbrev pub join_errors : List String → String
join_errors [] = ""
join_errors (e ∷ []) = e
join_errors (e ∷ f ∷ es) = e <> "; " <> join_errors (f ∷ es)

abbrev required_field : String → String → List String
required_field value error = if is_empty value then error ∷ [] else []

unfoldable pub request_errors : StepRequest → List String
request_errors request =
    required_field request.execution_id "execution_id is required"
    ++ required_field request.agent_id "agent_id is required"
    ++ required_field request.goal "goal is required"

abbrev pub validated : List String → Outcome String (Unit {0})
validated [] = returned tt
validated (e ∷ es) = raised ("Invalid step request: " <> join_errors (e ∷ es))

-- `_validate_request`
unfoldable pub validate_request : StepRequest → Outcome String (Unit {0})
unfolding request_errors
validate_request request = validated (request_errors request)

-- `_check_budget`
unfoldable pub check_budget : ExecutionContext → Outcome String (Unit {0})
unfolding is_positive
check_budget context =
    if is_positive context.budget_remaining then returned tt else raised "Budget exceeded: 0 > 0"

-- the value of a key of a dict, or of the default
unfoldable pub field_of : String → Fields → Option Value
field_of key end = none
field_of key (field k v rest) =
    let later = field_of key rest in if str_eq key k then some v else later

module _ (type_text : Value → String) where
  -- `runtime_meta.get("steps_executed", 0)`
  unfoldable pub steps_before : Value → Outcome String Value
  unfolding field_of
  steps_before (object meta) = returned (get_or (field_of "steps_executed" meta) (number 0))
  steps_before other = raised (type_text other)

  -- `steps_before + 1`
  unfoldable pub plus_one : Value → Outcome String ℕ
  plus_one (number n) = returned (n + 1)
  plus_one (flag true) = returned 2
  plus_one (flag false) = returned 1
  plus_one other = raised (type_text other)

  -- the number of steps that a state has seen, this one included
  unfoldable pub counted : Dict Value → Outcome String ℕ
  unfolding steps_before plus_one
  counted state = do
    before ← steps_before (get_or (lookup "_runtime" state) (object end))
    plus_one before

  abbrev pub runtime_meta : (steps step_number : ℕ) → Value
  runtime_meta steps step_number =
      dict_value
        (("steps_executed", number steps) ∷ ("last_node", text ("step-" <> show step_number)) ∷ [])

  -- the context after a step
  abbrev pub charged : ExecutionContext → ExecutionContext
  charged context = record context {
    tokens_consumed = context.tokens_consumed + context.tokens_per_step;
    budget_remaining = minus context.budget_remaining context.tokens_per_step;
  }

  abbrev pub step_response : StepRequest → ExecutionContext → (steps : ℕ) → StepResponse
  step_response request context steps = record {
    status = completed;
    updated_state = insert "_runtime" (runtime_meta steps context.step_number) request.state;
    output = "Step " <> show context.step_number <> " executed for goal: " <> request.goal;
    requested = none;
    error_message = "";
    tokens_consumed = context.tokens_per_step;
  }

  -- the checks, and the count of the steps
  unfoldable pub prepared : StepRequest → ExecutionContext → Outcome String ℕ
  unfolding validate_request check_budget counted
  prepared request context = do
    validate_request request
    check_budget context
    counted request.state

  module _ {R : Type 0} (repository : Option (Repository R)) (checkpoint_id : String) where
    -- the checkpoint after a step
    abbrev pub step_checkpoint : ExecutionContext → Checkpoint
    step_checkpoint context = record {
      checkpoint_id = checkpoint_id;
      execution_id = context.execution_id;
      version = context.step_number;
      trigger_reason = step_complete;
      checkpoint_hash = "auto";
      schema_version = "1.0";
      parent_checkpoint_id = none;
      agent_state_ref = none;
      memory_refs = [];
      tool_history = [];
    }

    abbrev pub after_checkpoint :
        StepResponse
        → ExecutionContext
        → Outcome Error Checkpoint × R
        → Outcome String StepResponse × ExecutionContext × R
    after_checkpoint response context (raised e, r) = (raised (message e), context, r)
    after_checkpoint response context (returned c, r) = (returned response, context, r)

    unfoldable pub saved_step :
        Option (Repository R)
        → StepResponse
        → ExecutionContext
        → R
        → Outcome String StepResponse × ExecutionContext × R
    saved_step none response context r = (returned response, context, r)
    saved_step (some repo) response context r =
        after_checkpoint response context (repo.save_checkpoint (step_checkpoint context) r)

    unfoldable pub run_step :
        StepRequest
        → ExecutionContext
        → R
        → Outcome String ℕ
        → Outcome String StepResponse × ExecutionContext × R
    unfolding saved_step minus
    run_step request context r (raised e) = (raised e, context, r)
    run_step request context r (returned steps) =
        saved_step repository (step_response request context steps) (charged context) r

    -- `InMemoryRuntime`
    unfoldable pub execute_step :
        StepRequest → ExecutionContext → R → Outcome String StepResponse × ExecutionContext × R
    unfolding prepared run_step
    execute_step request context r = run_step request context r (prepared request context)

    abbrev pub in_memory_runtime : ExecutionRuntime R
    in_memory_runtime = record { execute_step = execute_step }
