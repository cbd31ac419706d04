-- ===== src/ControlPlane/Policy/Engine.antt =====
-- `PolicyEngine` of control_plane/policy/engine.py. A capability registry is the dict of its
-- capabilities, of any type `C`. The key of a set of capabilities, the first digits of a SHA-256
-- hash, is a parameter, and the set is given in the order in which it is gone through. `at_get` and
-- `at_set` are the readings of the clock by the cache.
use kitematic.Base.{
  ℕ, String, ◌<>◌, str_eq, Option, none, some, List, [], ◌∷◌, length, ◌==◌, if◌then◌else◌, Outcome,
  returned, raised,
}
use kitematic.Base.Dict.{Dict, contains, insert, values}
use kitematic.ControlPlane.Policy.Rules.{
  PolicyEffect, allow, deny, require_approval, active, PolicyRule, applies, Decision, decide,
  decision_of, sort_by_priority,
}
use kitematic.ControlPlane.Policy.Cache.{Entries, get_cached, set_cached}

pub record Engine (C : Type 0) : Type 0 where
  pub policies : Dict PolicyRule
  pub capability_registry : Option (Dict C)
  pub cache : Entries

unfoldable pub new_engine : {C : Type 0} → Option (Dict C) → Engine C
new_engine registry = record { policies = []; capability_registry = registry; cache = [] }

-- `"|".join` of the four parts
unfoldable pub make_cache_key :
    (capabilities_key : List String → String) (agent_id action resource : String)
    (required_capabilities : List String)
    → String
make_cache_key capabilities_key agent_id action resource required_capabilities =
    agent_id
    <> "|"
    <> action
    <> "|"
    <> resource
    <> "|"
    <> (if length required_capabilities == 0 then "" else capabilities_key required_capabilities)

abbrev pub denied : String → Decision
denied reason = record { decision = deny; matched_rule = none; reason = reason }

-- the first capability that the registry does not hold
unfoldable pub missing : {C : Type 0} → Dict C → List String → Option String
missing registry [] = none
missing registry (capability ∷ rest) =
    let later = missing registry rest in
    if contains capability registry then later else some capability

-- a denial because of a capability that is not registered
abbrev pub unregistered : Option String → Option Decision
unregistered none = none
unregistered (some capability) = some (denied ("Capability not registered: " <> capability))

abbrev pub denial_of_required : {C : Type 0} → Option (Dict C) → List String → Option Decision
denial_of_required none required = none
denial_of_required (some registry) required = unregistered (missing registry required)

-- a rule's own capabilities, where it has any
abbrev pub denial_of_rule : {C : Type 0} → Option (Dict C) → List String → Option Decision
denial_of_rule registry [] = none
denial_of_rule none (capability ∷ rest) =
    some (denied "Capability registry not available for capability validation")
denial_of_rule (some registry) (capability ∷ rest) =
    unregistered (missing registry (capability ∷ rest))

abbrev pub or_denial :
    Option Decision → Outcome Decision (List PolicyRule) → Outcome Decision (List PolicyRule)
or_denial (some d) rules = raised d
or_denial none rules = rules

abbrev add_rule :
    PolicyRule → Outcome Decision (List PolicyRule) → Outcome Decision (List PolicyRule)
add_rule r (raised d) = raised d
add_rule r (returned rules) = returned (r ∷ rules)

-- the loop over the rules, which a denial leaves at once
unfoldable pub matching_rules :
    {C : Type 0} → Option (Dict C) → String → List PolicyRule → Outcome Decision (List PolicyRule)
matching_rules registry resource [] = returned []
matching_rules registry resource (r ∷ rules) =
    let rest = matching_rules registry resource rules in
    if applies resource r
    then or_denial (denial_of_rule registry r.required_capabilities) (add_rule r rest)
    else rest

-- `PolicyEffect(effect)`
unfoldable pub effect_of : String → Option PolicyEffect
effect_of effect =
    if str_eq effect "ALLOW"
    then some allow
    else if str_eq effect "DENY"
    then some deny
    else if str_eq effect "REQUIRE_APPROVAL"
    then some require_approval
    else none

module _ {C : Type 0} (capabilities_key : List String → String) where
  -- a decision that the cache has is not made again; a new one is stored
  abbrev pub decided :
      String → Decision → (at_set : ℕ) → Entries → Engine C → Option Decision → Decision × Engine C
  decided key new at_set cache e (some old) = (old, record e { cache = cache })
  decided key new at_set cache e none = (new, record e { cache = set_cached key new at_set cache })

  unfoldable pub evaluate :
      (agent_id action resource : String) (at_get at_set : ℕ) → Engine C → Decision × Engine C
  unfolding make_cache_key
  evaluate agent_id action resource at_get at_set e =
      let key = make_cache_key capabilities_key agent_id action resource [] in
      let (cached, cache) = get_cached key at_get e.cache in
      decided key (decide (values e.policies) resource) at_set cache e cached

  abbrev pub by_matching :
      String
      → (at_set : ℕ) → Entries
      → Engine C
      → Outcome Decision (List PolicyRule)
      → Decision × Engine C
  by_matching key at_set cache e (raised d) = (d, record e { cache = cache })
  by_matching key at_set cache e (returned matching) =
      decided key (decision_of (sort_by_priority matching)) at_set cache e none

  abbrev pub with_capabilities :
      String → String → (at_set : ℕ) → Engine C → Option Decision × Entries → Decision × Engine C
  with_capabilities key resource at_set e (some old, cache) = (old, record e { cache = cache })
  with_capabilities key resource at_set e (none, cache) =
      by_matching key at_set cache e
        (matching_rules e.capability_registry resource (values e.policies))

  unfoldable pub after_required :
      Option Decision
      → (resource : String) (required_capabilities : List String) (at_get at_set : ℕ) → Engine C
      → Decision × Engine C
  after_required (some d) resource required at_get at_set e = (d, e)
  after_required none resource required at_get at_set e =
      let key = make_cache_key capabilities_key "" "" resource required in
      with_capabilities key resource at_set e (get_cached key at_get e.cache)

  -- the agent and the action are not read
  unfoldable pub evaluate_with_capabilities :
      (agent_id action resource : String) (required_capabilities : List String) (at_get at_set : ℕ)
      → Engine C
      → Decision × Engine C
  unfolding after_required
  evaluate_with_capabilities agent_id action resource required at_get at_set e =
      after_required (denial_of_required e.capability_registry required) resource required at_get
        at_set e

abbrev pub created :
    {C : Type 0}
    → (policy_id name target effect : String) (condition : Option String) → Engine C
    → Option PolicyEffect
    → Outcome String (String × Engine C)
created policy_id name target effect condition e none =
    raised ("'" <> effect <> "' is not a valid PolicyEffect")
created policy_id name target effect condition e (some effect') = returned (
  policy_id,
  record e {
    policies =
        insert policy_id
          (record {
            policy_id = policy_id;
            tenant_id = "default";
            name = name;
            target = target;
            effect = effect';
            condition = condition;
            priority = 100;
            status = active;
            required_capabilities = [];
          })
          e.policies;
    cache = [];
  },
)

-- `policy_id` is the fresh identifier
unfoldable pub create_policy :
    {C : Type 0}
    → (policy_id name target effect : String) (condition : Option String) → Engine C
    → Outcome String (String × Engine C)
unfolding effect_of
create_policy policy_id name target effect condition e =
    created policy_id name target effect condition e (effect_of effect)
