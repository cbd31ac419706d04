-- ===== src/Kernel/Tests/Gateway.antt =====
-- Concrete accesses, steps and events.
use kitematic.Base.{
  In, ℕ, ◌+◌, ◌≡◌, refl, String, true, none, some, List, [], ◌∷◌, ◌++◌, map, Outcome, returned,
  arith,
}
use kitematic.Base.Dict.{Dict, lookup, insert}
use kitematic.Kernel.Values.{Value}
use kitematic.Kernel.Errors.{Error}
use kitematic.Kernel.Contracts.{Intent, ExecutionPath, ToolResult}
use kitematic.Kernel.Tools.{ToolDefinition}
use kitematic.Kernel.Gateway.{Gateway, CallTimes}
use kitematic.Kernel.Gateway.Trail.{told, happened, access_all, access_all-happened}
use kitematic.Kernel.Execution.{
  pos, StepRequest, ExecutionContext, counted, steps_before, plus_one, runtime_meta, execute_step,
  run_step, saved_step, prepared, validate_request, request_errors, check_budget, is_positive,
  field_of, minus, difference,
}
use kitematic.Kernel.Execution.Steps.{Accounts, run_steps, after_step, run_steps-Accounts}
use kitematic.Storage.Repository.{in_memory}
use kitematic.Storage.Checkpoints.{new_store, save}
use kitematic.Kernel.Publisher.{
  PublishedEvent, event, plain_dict, publish, publish_dict, new_publisher, subscribe,
}
use kitematic.Kernel.Publisher.Tenants.{Fits}
use kitematic.Kernel.Publisher.Isolation.{
  Command, subscribing, publishing, sending, closing_all, Sent, QueueFits, run_command,
  run_commands, subscribe-Fits,
}
use kitematic.Kernel.Tests.{read_it}

abbrev pub disk : ToolDefinition
disk = record {
  tool_id = "disk";
  mcp_server = "files";
  description = "";
  input_schema = [];
  output_schema = [];
  required_capabilities = "io" ∷ [];
  tags = [];
  metadata = [];
}

-- A client answers, and the calls are counted.
abbrev pub client_call : ℕ → String → Dict Value → ℕ → Outcome Error (Dict Value) × ℕ
client_call client tool parameters calls = (returned [], calls + 1)

abbrev pub with_disk : Gateway ℕ ℕ
with_disk = record {
  registry = record { tools = ("disk", disk) ∷ [] };
  clients = ("files", 1) ∷ [];
  audit_log = [];
  event_log = none;
  metrics = none;
  world = 0;
}

abbrev pub morning : CallTimes
morning = record { start = 1; audited = 3; finished = 4 }

abbrev to_disk : ExecutionPath
to_disk = record { tool = "disk"; adapter = "files"; parameters = [] }

abbrev to_tape : ExecutionPath
to_tape = record { tool = "tape"; adapter = "files"; parameters = [] }

abbrev nothing_read : ToolResult
nothing_read = record { success = true; result_data = []; error = none }

abbrev accesses : List (CallTimes × ExecutionPath × Intent)
accesses = (morning, to_disk, read_it) ∷ (morning, to_tape, read_it) ∷ []

access_all-happened_example :
    map told (access_all client_call accesses with_disk).audit_log
    ≡ map told with_disk.audit_log ++ happened client_call accesses with_disk
access_all-happened_example = access_all-happened client_call accesses with_disk

abbrev no_text : Value → String
no_text v = ""

abbrev first_request : StepRequest
first_request = record {
  execution_id = "e1";
  agent_id = "a1";
  goal = "tidy up";
  state = ("_runtime", runtime_meta no_text 2 7) ∷ [];
  allowed_tools = [];
}

abbrev small_context : ExecutionContext
small_context = record {
  execution_id = "e1";
  agent_id = "a1";
  step_number = 1;
  state = [];
  budget_remaining = pos 15;
  tokens_per_step = 10;
  allowed_tools = [];
  metadata = [];
  tokens_consumed = 0;
}

abbrev three_steps : List (String × String)
three_steps = ("read", "c1") ∷ ("sort", "c2") ∷ ("write", "c3") ∷ []

-- the budget of 15 tokens lasts for two steps of 10
two_completed :
    (run_steps no_text
      (some in_memory)
      three_steps
      first_request
      small_context
      new_store).completed_steps
    ≡ 2
unfolding run_steps after_step execute_step run_step saved_step prepared validate_request
    request_errors check_budget is_positive counted steps_before plus_one field_of minus difference
    save lookup insert
two_completed = refl

run_steps-Accounts_example :
    Accounts no_text
      (some in_memory)
      2
      small_context
      (run_steps no_text (some in_memory) three_steps first_request small_context new_store)
unfolding counted steps_before plus_one field_of lookup
run_steps-Accounts_example =
    run_steps-Accounts no_text (some in_memory) three_steps 2 first_request small_context new_store
      (omega arith) refl

abbrev of_acme : PublishedEvent
of_acme = record { execution_id = "e1"; tenant_id = "acme"; body = [] }

abbrev sent_before : List Command
sent_before = subscribing "e1" "other" ∷ []

abbrev sent_after : List Command
sent_after = publishing of_acme ∷ sending "e1" [] ∷ sending "e2" [] ∷ closing_all ∷ []

subscribe-Fits_example :
    QueueFits
      (sent_before ++ sent_after)
      1
      "e1"
      "acme"
      (run_commands sent_after (subscribe "e1" "acme" (run_commands sent_before new_publisher)).1)
    × ((e : PublishedEvent)
        → Fits (Sent []) "e1" "acme" (event e)
        → In
            (1, event e)
            (publish e
              (subscribe "e1" "acme" (run_commands sent_before new_publisher)).1).delivered)
    × ((d : Dict Value)
        → In
            (1, plain_dict d)
            (publish_dict "e1" d
              (subscribe "e1" "acme" (run_commands sent_before new_publisher)).1).delivered)
unfolding run_commands run_command subscribe
subscribe-Fits_example = subscribe-Fits sent_before sent_after "e1" "acme"
