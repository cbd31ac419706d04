-- ===== src/Kernel/Tests/Loop.antt =====
-- Concrete calls of the loop, the tenants' checks and the registries.
use kitematic.Kernel.Tools.{ToolDefinition}
use kitematic.Base.{ℕ, ◌≤◌, String, none, List, [], ◌∷◌, length}
use kitematic.Kernel.States.{running}
use kitematic.Kernel.Budget.{default_budget, steps_remaining}
use kitematic.Kernel.Loop.{run_multi_step}
use kitematic.Kernel.Loop.Defs.{Controller, Clock}
use kitematic.Kernel.Loop.Run.{Step}
use kitematic.Kernel.Loop.Steps.{StopsAtFailure, run_multi_step_lem}
use kitematic.Kernel.Tests.{office, noon, read_it, drop_it, alone}

abbrev print : ℕ → String
print n = ""

abbrev tick : Clock
tick = record {
  execution_id = "x1";
  at_start = 1;
  at_exhausted = 2;
  at_timeout = 3;
  at_elapsed = 4;
  at_report = 5;
  moment = noon;
  at_consume = 6;
}

abbrev looping : Controller ℕ
looping = record {
  runtime = alone;
  budget = default_budget;
  history = [];
  metrics = none;
  state = running;
}

abbrev three_steps : List Step
three_steps =
    record { intent = read_it; before = 0; clock = tick }
    ∷ record { intent = drop_it; before = 0; clock = tick }
    ∷ record { intent = read_it; before = 0; clock = tick }
    ∷ []

run_multi_step_lem_example :
    (length (run_multi_step office print print three_steps looping).0
      ≤ steps_remaining default_budget)
    × StopsAtFailure (run_multi_step office print print three_steps looping).0
run_multi_step_lem_example = run_multi_step_lem office print print three_steps looping

abbrev disk : ToolDefinition
disk = record {
  tool_id = "disk";
  mcp_server = "files";
  description = "";
  input_schema = [];
  output_schema = [];
  required_capabilities = "io" ∷ [];
  tags = [];
  metadata = [];
}
