-- ===== src/Kernel/Runtime/Defs.antt =====
-- The runtime's fields, its setters, its lifecycle, its transitions and the restore operation.
use kitematic.Base.{
  ℕ, String, is_empty, Bool, true, not, ◌&&◌, Option, none, some, List, [], ◌∷◌, map, if◌then◌else◌,
  Outcome, returned, raised, ◌>>=◌, ◌>>◌, raise_if,
}
use kitematic.Base.Dict.{Dict, lookup, insert, keys}
use kitematic.Kernel.Values.{Value}
use kitematic.Kernel.States.{
  RuntimeState, running, draining, stopped, ExecutionState, halted, same_state, state_value,
  get_valid_transitions, is_valid_transition,
}
use kitematic.Kernel.Errors.{
  Error, missing_tenant_context, invalid_state_transition, checkpoint_persistence, message,
}
use kitematic.Kernel.Tenant.{TenantContext, context_is_valid}
use kitematic.Kernel.Isolation.{Isolation, validate_tenant_context, validate_checkpoint_owner}
use kitematic.Kernel.Metrics.{Metrics, increment}
use kitematic.Kernel.Contracts.{Collaborators}

-- The time at which an agent was hosted, and the settings, which no method reads, are not modelled.
pub record Runtime (S : Type 0) : Type 0 where
  pub services : S
  pub isolation : Option Isolation
  pub metrics : Option Metrics
  pub agents : Dict (List String)
  pub state : RuntimeState
  pub tenant_context : Option TenantContext

-- What one call takes from `uuid4` and the clock (in milliseconds).
pub record Moment : Type 0 where
  pub execution_id : String
  pub timestamp : String
  pub started : ℕ
  pub ended : ℕ

unfoldable pub new_runtime : {S : Type 0} → S → Option Isolation → Option Metrics → Runtime S
new_runtime services isolation metrics = record {
  services = services;
  isolation = isolation;
  metrics = metrics;
  agents = [];
  state = running;
  tenant_context = none;
}

abbrev validate_boundary : Option Isolation → TenantContext → Outcome Error Bool
validate_boundary none c = returned true
validate_boundary (some b) c = validate_tenant_context b c

unfoldable pub set_tenant_context :
    {S : Type 0} → Runtime S → TenantContext → Outcome Error (Runtime S)
set_tenant_context r c = do
  raise_if (not (context_is_valid c)) missing_tenant_context
  _ ← validate_boundary r.isolation c
  returned (record r { tenant_context = some c })

unfoldable pub host_agent : {S : Type 0} → Runtime S → String → List String → Runtime S
host_agent r agent_id capabilities = record r { agents = insert agent_id capabilities r.agents }

unfoldable pub get_agent : {S : Type 0} → Runtime S → String → Option (List String)
get_agent r agent_id = lookup agent_id r.agents

unfoldable pub list_agents : {S : Type 0} → Runtime S → List String
list_agents r = keys r.agents

-- `if self._metrics: self._metrics.increment(name)`, for each name
abbrev pub count_each : List String → Option Metrics → Option Metrics
count_each names none = none
count_each [] (some m) = some m
count_each (name ∷ names) (some m) = count_each names (some (increment m name))

unfoldable pub count : {S : Type 0} → List String → Runtime S → Runtime S
count names r = record r { metrics = count_each names r.metrics }

unfoldable pub drain_state : RuntimeState → RuntimeState
drain_state running = draining
drain_state other = other

unfoldable pub drain : {S : Type 0} → Runtime S → Runtime S
unfolding drain_state
drain r = record r { state = drain_state r.state }

-- nothing changes once the runtime has stopped, its metrics neither
unfoldable pub stop_from : {S : Type 0} → RuntimeState → Runtime S → Runtime S
unfolding count
stop_from stopped r = r
stop_from other r = count ("runtime.shutdown.count" ∷ []) (record r { state = stopped })

unfoldable pub stop : {S : Type 0} → Runtime S → Runtime S
unfolding stop_from
stop r = stop_from r.state r

-- `_transition`
unfoldable pub transition : (current target : ExecutionState) → Outcome Error ExecutionState
unfolding is_valid_transition
transition current target =
    if not (is_valid_transition current target)
    then raised (
        invalid_state_transition (state_value current) (state_value target)
          (map state_value (get_valid_transitions current)))
    else returned target

-- `_transition_safe`
unfoldable pub transition_safe : (current target : ExecutionState) → ExecutionState
unfolding is_valid_transition
transition_safe current target =
    if is_valid_transition current target
    then target
    else if not (same_state current halted) && is_valid_transition current halted
    then halted
    else current

abbrev pub check_owner :
    Option TenantContext
    → Option Isolation
    → (checkpoint_tenant checkpoint_agent : String) → Outcome Error Bool
check_owner none b checkpoint_tenant checkpoint_agent = returned true
check_owner (some c) none checkpoint_tenant checkpoint_agent = returned true
check_owner (some c) (some b) checkpoint_tenant checkpoint_agent =
    if not (is_empty checkpoint_tenant) && not (is_empty checkpoint_agent)
    then validate_checkpoint_owner checkpoint_tenant checkpoint_agent c.tenant_id c.agent_id
    else returned true

-- every exception but `CheckpointPersistenceError` is wrapped in one
unfoldable pub as_persistence_error : Error → Error
as_persistence_error (checkpoint_persistence operation reason) =
    checkpoint_persistence operation reason
as_persistence_error e = checkpoint_persistence "restore" (message e)

module _ {S : Type 0} (ops : Collaborators S) where
  unfoldable pub wrap :
      Outcome Error (Dict Value) × S → Runtime S → Outcome Error (Dict Value) × Runtime S
  wrap (returned d, s) r = (returned d, record r { services = s })
  wrap (raised e, s) r = (raised (as_persistence_error e), record r { services = s })

  unfoldable pub restore_checked :
      Outcome Error Bool → String → Runtime S → Outcome Error (Dict Value) × Runtime S
  restore_checked (raised e) checkpoint_id r = (raised e, r)
  restore_checked (returned _) checkpoint_id r = wrap (ops.restore checkpoint_id r.services) r

  unfoldable pub restore_from_checkpoint :
      (checkpoint_id checkpoint_tenant checkpoint_agent : String)
      → Runtime S
      → Outcome Error (Dict Value) × Runtime S
  unfolding wrap restore_checked as_persistence_error
  restore_from_checkpoint checkpoint_id checkpoint_tenant checkpoint_agent r =
      restore_checked (check_owner r.tenant_context r.isolation checkpoint_tenant checkpoint_agent)
        checkpoint_id r
