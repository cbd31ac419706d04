-- ===== src/ControlPlane/Tests/Assembly.antt =====
-- A concrete assembly of runtime and control plane, and an intent that it executes.
use kitematic.Base.{ℕ, ◌≡◌, refl, String, same_list, true, none, some, [], returned}
use kitematic.Base.Dict.{Dict, lookup, insert, values}
use kitematic.Kernel.Values.{Value}
use kitematic.Kernel.States.{running, completed}
use kitematic.Kernel.Contracts.{ExecutionResult}
use kitematic.Kernel.Tools.{get_tool}
use kitematic.Kernel.Runtime.{
  Runtime, execute_quota_guarded, execute_intent, restore_from_checkpoint,
}
use kitematic.Kernel.Runtime.Governance.{succeeds}
use kitematic.Kernel.States.{is_valid_transition}
use kitematic.Kernel.Runtime.Defs.{transition, count}
use kitematic.Kernel.Runtime.Stages.{
  policy_stage, permitted, capability_stage, capable, routing_stage, routed, tool_stage, accessed,
  judged, checkpoint_stage, saved, finish,
}
use kitematic.ControlPlane.Policy.Rules.{
  applies, is_active, target_matches, codes_match, wildcard_prefix, sort_by_priority,
  insert_by_priority, decision_of,
}
use kitematic.ControlPlane.Policy.Cache.{get_cached, set_cached}
use kitematic.ControlPlane.Policy.Engine.{evaluate, make_cache_key}
use kitematic.ControlPlane.Adapters.Policies.{verdict, verdict_of}
use kitematic.Kernel.Tools.{match_pattern}
use kitematic.Kernel.Gateway.{access_tool, found, resolved, answered, record_audit}
use kitematic.Api.Quotas.{
  quota_calls, check_concurrent, concurrent_count, concurrent_executions, get_config,
  check_and_consume_rate, consume, get_bucket, take_token, take_if, refill, start_execution,
  end_execution,
}
use kitematic.Storage.Checkpoints.{CheckpointStore, validate_checkpoint}
use kitematic.Storage.Documents.{sort_entry}
use kitematic.Storage.Repository.{in_memory}
use kitematic.ControlPlane.Policy.Rules.{allow, decide}
use kitematic.ControlPlane.Adapters.Router.{route_intent, by_exact}
use kitematic.ControlPlane.Adapters.Policies.{evaluate_intent, check_capability}
use kitematic.ControlPlane.Adapters.Checkpoints.{save_state, save_valid, after_save}
use kitematic.ControlPlane.System.{Services, Outside, Readings, collaborators}
use kitematic.ControlPlane.System.Granted.{Delivers, success-Delivers}
use kitematic.ControlPlane.System.Restorable.{saved_state, restore-execute_intent}
use kitematic.Kernel.Tests.{noon, acme_office}
use kitematic.Kernel.Runtime.Execute.{
  by_tenant, quota_stage, by_quota, concurrency_checked, rate_checked, admitted, by_state,
}
use kitematic.Kernel.Tests.Gateway.{with_disk, client_call, morning}
use kitematic.ControlPlane.Tests.Adapters.{
  read_disk, none_match, open_engine, no_key, adapter, json_of,
}

abbrev outside : Dict Value → Outside ℕ ℕ CheckpointStore
outside state = record {
  call_tool = client_call;
  repository = in_memory;
  json = json_of state;
  capabilities_key = no_key;
  matches = none_match;
  seconds_text = λ n. "";
  repr = λ s. s;
}

abbrev readings : Readings
readings = record {
  policy_get = 1;
  policy_set = 2;
  capability_get = 3;
  capability_set = 4;
  call = morning;
  checkpoint_id = "c1";
  quota_now = 5;
}

abbrev assembled : Runtime (Services ℕ ℕ ℕ CheckpointStore)
assembled = record {
  services = record {
    engine = open_engine;
    gateway = with_disk;
    checkpoints = adapter;
    quotas = record {
      rate_limiter = record { max_tokens = 5000000; refill_rate = 1; buckets = [] };
      concurrent = [];
      configs = [];
    };
  };
  isolation = none;
  metrics = none;
  agents = [];
  state = running;
  tenant_context = none;
}

-- the chain of the assembled runtime runs to its end
chain_succeeds :
    (state : Dict Value)
    → succeeds (
        execute_quota_guarded
          (collaborators (outside state) readings)
          noon
          read_disk
          none
          assembled)
      ≡ true
unfolding execute_quota_guarded policy_stage permitted capability_stage capable routing_stage routed
    tool_stage accessed judged checkpoint_stage saved finish transition is_valid_transition count
    evaluate_intent check_capability verdict verdict_of evaluate make_cache_key get_cached
    set_cached decide applies is_active target_matches codes_match sort_by_priority
    insert_by_priority decision_of same_list wildcard_prefix route_intent by_exact match_pattern
    access_tool found resolved answered record_audit get_tool save_state save_valid after_save
    validate_checkpoint lookup insert
chain_succeeds state = refl

success-Delivers_example :
    ((decide (values open_engine.policies) "disk").decision ≡ allow)
    × Delivers (outside []) readings read_disk with_disk
unfolding lookup
success-Delivers_example =
    success-Delivers (outside []) readings noon read_disk none assembled refl (chain_succeeds [])

abbrev for_acme : Runtime (Services ℕ ℕ ℕ CheckpointStore)
for_acme = record assembled { tenant_context = some acme_office }

abbrev disk_read : ExecutionResult
disk_read = record {
  success = true;
  execution_id = "e1";
  checkpoint_id = some "c1";
  result_data = [];
  error = none;
  state = completed;
}

-- what the execution of the intent for this tenant saves
abbrev saved_for_acme : Dict Value
saved_for_acme =
    saved_state (collaborators {K = ℕ} (outside []) readings) noon read_disk (some acme_office)
      disk_read

intent_executed :
    (execute_intent (collaborators (outside saved_for_acme) readings) noon read_disk for_acme).0
    ≡ returned disk_read
unfolding execute_intent by_tenant quota_stage by_quota concurrency_checked rate_checked admitted
    by_state quota_calls check_concurrent concurrent_count concurrent_executions get_config
    check_and_consume_rate consume get_bucket take_token take_if refill start_execution
    end_execution execute_quota_guarded policy_stage permitted capability_stage capable
    routing_stage routed tool_stage accessed judged checkpoint_stage saved finish transition
    is_valid_transition count evaluate_intent check_capability verdict verdict_of evaluate
    make_cache_key get_cached set_cached decide applies is_active target_matches codes_match
    sort_by_priority insert_by_priority decision_of same_list wildcard_prefix route_intent by_exact
    match_pattern access_tool found resolved answered record_audit get_tool save_state save_valid
    after_save validate_checkpoint lookup insert
intent_executed = refl

restore-execute_intent_example :
    (id : String) × (some "c1" ≡ some id)
    × ((restore_from_checkpoint
          (collaborators (outside saved_for_acme) readings)
          id
          ""
          ""
          (execute_intent
            (collaborators (outside saved_for_acme) readings)
            noon
            read_disk
            for_acme).1).0
        ≡ returned (sort_entry saved_for_acme))
unfolding sort_entry
restore-execute_intent_example =
    restore-execute_intent (outside saved_for_acme) readings noon read_disk for_acme disk_read
      intent_executed refl refl
