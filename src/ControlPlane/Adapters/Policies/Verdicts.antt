-- ===== src/ControlPlane/Adapters/Policies/Verdicts.antt =====
-- The two verdicts of control_plane/adapters/to_kernel/policy.py on one intent.
use kitematic.Base.{ℕ, ◌+◌, ◌*◌, ◌<◌, String, ◌≡◌, ◌∙◌, refl, sym, ap, true, none, List, []}
use kitematic.Base.Dict.{lookup, values}
use kitematic.Kernel.Contracts.{Intent}
use kitematic.ControlPlane.Policy.Rules.{
  PolicyEffect, allow, deny, require_approval, Decision, decide,
}
use kitematic.ControlPlane.Policy.Engine.{Engine, make_cache_key}
use kitematic.ControlPlane.Policy.Fresh.{evaluate-missed, evaluate-same_key}
use kitematic.ControlPlane.Adapters.Policies.{
  verdict_of, verdict, evaluate_intent, check_capability,
}

verdict_of-true :
    (effect : PolicyEffect) (d : Decision) → (verdict_of effect d).0 ≡ true → effect ≡ allow
unfolding verdict_of
verdict_of-true allow d h = refl
verdict_of-true deny d h = cc
verdict_of-true require_approval d h = cc

module _ {C : Type 0} (capabilities_key : List String → String) (intent : Intent) (e : Engine C)
    (uncached : lookup
        (make_cache_key capabilities_key intent.agent_id intent.action intent.action [])
        e.cache
      ≡ none) where
  pub evaluate_intent-decide :
      (at_get at_set : ℕ)
      → (evaluate_intent capabilities_key at_get at_set intent e).0
        ≡ verdict (decide (values e.policies) intent.action)
  unfolding evaluate_intent
  evaluate_intent-decide at_get at_set =
      ap (λ x. verdict x.0)
        (evaluate-missed capabilities_key intent.agent_id intent.action intent.action at_get at_set
          e uncached)

  -- An intent that is permitted, when no decision for it is in the cache, is one for which the rules
  -- decide ALLOW.
  pub evaluate_intent-allow :
      (at_get at_set : ℕ)
      → (evaluate_intent capabilities_key at_get at_set intent e).0.0 ≡ true
      → (decide (values e.policies) intent.action).decision ≡ allow
  unfolding verdict
  evaluate_intent-allow at_get at_set h =
      verdict_of-true _ _ (ap (λ v. v.0) (sym (evaluate_intent-decide at_get at_set)) ∙ h)

  -- The capability check after the policy check repeats its verdict: on the engine that a policy
  -- check of an uncached intent has left, it gives the verdict of that check, if it comes within
  -- five minutes.
  pub check_capability-evaluate_intent :
      (at_get at_set at_get' at_set' : ℕ)
      → at_get' < at_set + 300 * 1000000
      → (check_capability capabilities_key at_get' at_set' intent.action intent.agent_id
          (evaluate_intent capabilities_key at_get at_set intent e).1).0
        ≡ (evaluate_intent capabilities_key at_get at_set intent e).0
  unfolding evaluate_intent check_capability
  check_capability-evaluate_intent at_get at_set at_get' at_set' soon =
      ap verdict (
        evaluate-same_key capabilities_key intent.agent_id intent.action intent.action
          intent.agent_id intent.action intent.action at_get at_set at_get' at_set' e refl uncached
          soon)
      ∙ sym (evaluate_intent-decide at_get at_set)
