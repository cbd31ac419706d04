-- ===== src/Kernel/Tests.antt =====
-- Concrete collaborators, a tenant and its runtime, and what the kernel does with them.
mod Loop
pub mod Gateway
use kitematic.Base.{
  ◌≢◌, eq_iff, ℕ, ◌+◌, ◌≤◌, ◌<>◌, arith, String, str_eq, Bool, true, false, Option, none, some,
  List, [], ◌∷◌, ◌≡◌, refl, Outcome, returned, raised, if◌then◌else◌, not, inl, inr, is_some,
}
use kitematic.Base.Dict.{Dict, lookup}
use kitematic.Kernel.States.{created, validating, authorized, running, draining, completed}
use kitematic.Kernel.Errors.{Error, cross_tenant_access}
use kitematic.Kernel.Tenant.{TenantContext, TenantModel, ResourceLimits, default_limits}
use kitematic.Kernel.Isolation.{Isolation, execution_count}
use kitematic.Kernel.Isolation.Counts.{limit}
use kitematic.Kernel.Metrics.{Metrics, new_metrics, get_counter}
use kitematic.Kernel.Contracts.{Collaborators, Intent, ExecutionPath, ToolResult}
use kitematic.Kernel.Runtime.{
  Runtime, Moment, execute_quota_guarded, execute_intent, drain, restore_from_checkpoint,
}
use kitematic.Kernel.Runtime.Governance.{succeeds, success_iff-agrees}
use kitematic.Kernel.Runtime.Defs.{wrap, drain_state}
use kitematic.Kernel.Runtime.Ends.{EndsFrom, execute_quota_guarded-EndsFrom}
use kitematic.Kernel.Runtime.Counting.{IsBalanced, execute_intent-IsBalanced}
use kitematic.Kernel.Runtime.Slots.Calls.{Accounts, execute_intent-Accounts}
use kitematic.Kernel.Runtime.Slots.History.{Holds, failures, execute_all, failures_use_up_slots}
use kitematic.Kernel.Runtime.Shutdown.{
  Event, drain_it, stop_it, call, successes, shutdown_idempotent, no_success_after_shutdown,
}
use kitematic.Kernel.Runtime.Restore.{Guarded, restore_from_checkpoint-Guarded}
use kitematic.Kernel.Runtime.Refusal.{policy_refusal_stops, capability_refusal_stops}

-- The collaborators' state is the number of checkpoints. The action "drop" is forbidden, and the
-- agent "guest" may do nothing.
abbrev allow : Bool → ℕ → Outcome Error (Bool × Option String) × ℕ
allow ok n = (returned (ok, none), n)

abbrev pub office : Collaborators ℕ
office = record {
  evaluate_intent = λ intent n. allow (not (str_eq intent.action "drop")) n;
  check_capability = λ action agent_id n. allow (not (str_eq agent_id "guest")) n;
  route_intent =
      λ intent n. (returned (record { tool = "disk"; adapter = "file"; parameters = [] }), n);
  access_tool =
      λ path intent n. (returned (record { success = true; result_data = []; error = none }), n);
  save = λ execution_id d n. (returned "cp-1", n + 1);
  restore = λ checkpoint_id n. (returned [], n);
  quota_manager = none;
  repr = λ s. s;
}

abbrev pub noon : Moment
noon = record { execution_id = "e1"; timestamp = "12:00"; started = 5; ended = 9 }

abbrev pub read_it : Intent
read_it = record { agent_id = "a1"; action = "read"; parameters = [] }

abbrev pub drop_it : Intent
drop_it = record { agent_id = "a1"; action = "drop"; parameters = [] }

abbrev pub guest_reads : Intent
guest_reads = record { agent_id = "guest"; action = "read"; parameters = [] }

-- a tenant with two slots
abbrev pub acme : TenantModel
acme = record {
  tenant_id = "acme";
  name = "Acme";
  policy_scope = "";
  resource_limits = record default_limits { max_concurrent_executions = 2 };
  allowed_capabilities = [];
}

abbrev pub acme_office : TenantContext
acme_office = record {
  tenant_id = "acme";
  agent_id = "a1";
  allowed_capabilities = [];
  resource_limits = default_limits;
}

abbrev pub boundary : Isolation
boundary = record {
  tenants = ("acme", acme) ∷ [];
  agents = ("a1", record { agent_id = "a1"; tenant_id = "acme" }) ∷ [];
  execution_counts = [];
}

abbrev pub alone : Runtime ℕ
alone = record {
  services = 0;
  isolation = none;
  metrics = some new_metrics;
  agents = [];
  state = running;
  tenant_context = none;
}

abbrev pub at_acme : Runtime ℕ
at_acme = record alone { isolation = some boundary; tenant_context = some acme_office }

success_iff-agrees_example :
    (succeeds (execute_quota_guarded office noon read_it none alone) ≡ true)
    × ((execute_quota_guarded office noon read_it none alone).1.services ≡ 1)
success_iff-agrees_example =
    (success_iff-agrees office noon read_it none alone 1).1
      (none, 0, refl, (none, 0, refl, (_, 0, refl, (_, 0, refl, refl, ("cp-1", refl)))))

execute_quota_guarded-EndsFrom_example :
    EndsFrom created (execute_quota_guarded office noon drop_it none alone)
execute_quota_guarded-EndsFrom_example =
    execute_quota_guarded-EndsFrom office noon drop_it none alone

execute_intent-Accounts_example :
    Accounts boundary acme_office at_acme (execute_intent office noon drop_it at_acme)
execute_intent-Accounts_example =
    execute_intent-Accounts office noon drop_it boundary acme_office at_acme refl refl

-- two failing calls of a tenant with two slots, and a third one
abbrev three_calls : List (Moment × Intent)
three_calls = (noon, drop_it) ∷ (noon, drop_it) ∷ (noon, read_it) ∷ []

failures_use_up_slots_example :
    Holds boundary acme_office
      (failures office three_calls at_acme)
      (execute_all office three_calls at_acme)
    × (execution_count boundary "acme" + failures office three_calls at_acme
        ≤ limit boundary "acme")
unfolding execution_count limit lookup
failures_use_up_slots_example =
    failures_use_up_slots office acme_office three_calls boundary at_acme refl refl (omega arith)

no_success_after_shutdown_example :
    successes office (stop_it ∷ call noon read_it ∷ []) (drain at_acme) ≡ 0
unfolding drain drain_state
no_success_after_shutdown_example =
    no_success_after_shutdown office (stop_it ∷ call noon read_it ∷ []) (drain at_acme) (λ e. cc e)

restore_from_checkpoint-Guarded_example :
    Guarded office "cp-1" "other" "a9" at_acme
      (restore_from_checkpoint office "cp-1" "other" "a9" at_acme)
restore_from_checkpoint-Guarded_example =
    restore_from_checkpoint-Guarded office "cp-1" "other" "a9" at_acme
