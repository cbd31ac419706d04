-- ===== src/ControlPlane/Adapters/Policies.antt =====
-- `PolicyEngineAdapter` of control_plane/adapters/to_kernel/policy.py. The engine's answers have
-- all three keys, so that no default is read.
pub mod Verdicts
use kitematic.Base.{
  ℕ, String, ◌<>◌, is_empty, Bool, true, false, Option, none, some, List, Outcome, returned, raised,
  if◌then◌else◌,
}
use kitematic.Kernel.Errors.{Error}
use kitematic.Kernel.Contracts.{Intent}
use kitematic.ControlPlane.Policy.Rules.{PolicyEffect, allow, deny, require_approval, Decision}
use kitematic.ControlPlane.Policy.Engine.{Engine, evaluate}

-- `f"[{matched_rule}] {reason}"`, if there is a rule
abbrev pub with_rule : Option String → String → String
with_rule none reason = reason
with_rule (some rule) reason = if is_empty rule then reason else "[" <> rule <> "] " <> reason

unfoldable pub verdict_of : PolicyEffect → Decision → Bool × Option String
verdict_of allow d = (true, none)
verdict_of deny d = (false, some (with_rule d.matched_rule d.reason))
verdict_of require_approval d = (false, some (with_rule d.matched_rule d.reason))

unfoldable pub verdict : Decision → Bool × Option String
unfolding verdict_of
verdict d = verdict_of d.decision d

module _ {C : Type 0} (capabilities_key : List String → String) (at_get at_set : ℕ) where
  unfoldable pub evaluate_intent : Intent → Engine C → (Bool × Option String) × Engine C
  unfolding verdict
  evaluate_intent intent e =
      let (d, e') =
        evaluate capabilities_key intent.agent_id intent.action intent.action at_get at_set e in
      (verdict d, e')

  unfoldable pub check_capability :
      (action agent_id : String) → Engine C → (Bool × Option String) × Engine C
  unfolding verdict
  check_capability action agent_id e =
      let (d, e') = evaluate capabilities_key agent_id action action at_get at_set e in
      (verdict d, e')
