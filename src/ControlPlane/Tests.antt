-- ===== src/ControlPlane/Tests.antt =====
-- Concrete executions, rules and requests, and what the control plane does with them.
mod Adapters
mod Assembly
mod Registry
use kitematic.Base.{codes, ◌++◌}
use kitematic.ControlPlane.Policy.Rules.{codes_match}
use kitematic.ControlPlane.Policy.Wildcard.{wildcard, codes_match_iff}
use kitematic.Base.{
  ℕ, ◌≤◌, ◌<◌, ◌≡◌, ◌↔◌, ◌⊎◌, inr, refl, arith, String, ◌<>◌, true, Option, none, some, List, [],
  ◌∷◌, length, select,
}
use kitematic.Base.Dict.{lookup, insert, values}
use kitematic.ControlPlane.StateMachine.{pending, running, failed, new_machine}
use kitematic.ControlPlane.Coordinator.{
  validate_step_prerequisites, validate_step_prerequisites_iff, plan_step, plan_step_iff,
  is_execute,
}
use kitematic.ControlPlane.Lifecycle.{
  Manager, new_manager, get_machine, stop_execution, pause_execution, resume_execution,
}
use kitematic.ControlPlane.Lifecycle.Moves.{IsSound}
use kitematic.ControlPlane.Lifecycle.Reachable.{
  start_it, stop_it, pause_it, resume_it, commands, commands-IsSound, over_for_good,
}
use kitematic.ControlPlane.Lifecycle.Effects.{
  Brings, after_stop, after_pause, after_resume, operations-Brings,
}
use kitematic.ControlPlane.Policy.Rules.{PolicyRule, allow, deny, active, applies, decide, Decision}
use kitematic.ControlPlane.Policy.Decisions.{IsDecision, decide-IsDecision}
use kitematic.ControlPlane.Policy.Cache.{set_cached, set_cached_le}
use kitematic.ControlPlane.Policy.Engine.{
  Engine, evaluate, evaluate_with_capabilities, create_policy, effect_of, denied, missing,
  make_cache_key,
}
use kitematic.ControlPlane.Policy.Fresh.{
  evaluate-create_policy, unregistered_capability, evaluate-same_key,
}

-- every instance is registered
abbrev anyone : String → Option ℕ
anyone instance_id = some 1

commands-IsSound_example : IsSound (
    get_machine "exec-i1" (
      commands anyone
        (start_it "i1" "tidy up" ∷ pause_it "exec-i1" ∷ resume_it "exec-i1" ∷ [])
        new_manager))
commands-IsSound_example =
    commands-IsSound anyone
      (start_it "i1" "tidy up" ∷ pause_it "exec-i1" ∷ resume_it "exec-i1" ∷ []) "exec-i1"

abbrev stopped_one : Manager
stopped_one = record { machines = ("e1", record { current_state = failed; history = [] }) ∷ [] }

over_for_good_example :
    get_machine "e1" (commands anyone (resume_it "e1" ∷ stop_it "e1" ∷ []) stopped_one)
    ≡ get_machine "e1" stopped_one
unfolding get_machine lookup
over_for_good_example =
    over_for_good anyone (resume_it "e1" ∷ stop_it "e1" ∷ []) "e1" stopped_one (inr refl)

operations-Brings_example :
    Brings "e1" (stop_execution "e1" new_manager) failed
    × Brings "e1" (pause_execution "e1" new_manager) pending
    × Brings "e1" (resume_execution "e1" new_manager) running
unfolding get_machine lookup new_machine after_stop after_pause after_resume
operations-Brings_example = operations-Brings "e1" new_manager

abbrev in_state : String
in_state = "RUNNING"

abbrev no_disk : PolicyRule
no_disk = record {
  policy_id = "p1";
  tenant_id = "default";
  name = "no disk";
  target = "disk.*";
  effect = deny;
  condition = none;
  priority = 100;
  status = active;
  required_capabilities = [];
}

decide-IsDecision_example :
    IsDecision (select (applies "disk.read") (no_disk ∷ [])) (decide (no_disk ∷ []) "disk.read")
decide-IsDecision_example = decide-IsDecision (no_disk ∷ []) "disk.read"

abbrev yes : Decision
yes = record { decision = allow; matched_rule = none; reason = "" }

-- the key of a set of capabilities
abbrev no_key : List String → String
no_key capabilities = ""

abbrev plain : Engine ℕ
plain = record { policies = []; capability_registry = some []; cache = [] }

abbrev one_rule : Engine ℕ
one_rule = record plain { policies = ("p1", no_disk) ∷ [] }

codes_match_iff_example : (codes_match (codes "disk" ++ wildcard) (codes "disk.read") ≡ true) ↔ (
    (codes "disk.read" ≡ codes "disk")
    ⊎ ((rest : List ℕ) × (codes "disk.read" ≡ codes "disk" ++ 46 ∷ rest)))
codes_match_iff_example = codes_match_iff (codes "disk") (codes "disk.read")
