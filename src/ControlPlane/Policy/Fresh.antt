-- ===== src/ControlPlane/Policy/Fresh.antt =====
-- When the engine's decisions are those of its rules (control_plane/policy/engine.py).
use mathlib.Core.Path.{subst}
use kitematic.Base.{
  sym, ap, ◌∙◌, ℕ, ◌+◌, ◌*◌, ◌<◌, ◌≡◌, refl, String, ◌<>◌, Option, none, some, List, [], arith,
  Outcome, returned, raised,
}
use kitematic.Base.Dict.{Dict, lookup, values, lookup-insert_self}
use kitematic.ControlPlane.Policy.Rules.{PolicyEffect, Decision, decide}
use kitematic.ControlPlane.Policy.Cache.{Entries, by_lookup, get_cached, set_cached}
use kitematic.ControlPlane.Policy.Engine.{
  Engine, make_cache_key, missing, denial_of_required, evaluate, after_required,
  evaluate_with_capabilities, create_policy, created, decided, effect_of, denied,
}

cache_of : {C : Type 0} → Outcome String (String × Engine C) → Entries
cache_of (returned (policy_id, e)) = e.cache
cache_of (raised _) = []

created-cache :
    {C : Type 0} (policy_id name target effect : String) (condition : Option String) (e : Engine C)
    (o : Option PolicyEffect)
    → cache_of (created policy_id name target effect condition e o) ≡ []
unfolding cache_of
created-cache policy_id name target effect condition e none = refl
created-cache policy_id name target effect condition e (some _) = refl

get_cached-set_cached :
    (key : String) (d : Decision) (at_set at_get : ℕ) (cache : Entries)
    → at_get < at_set + 300 * 1000000
    → (get_cached key at_get (set_cached key d at_set cache)).0 ≡ some d
unfolding get_cached set_cached
get_cached-set_cached key d at_set at_get cache h = rw lookup-insert_self (ground arith)

module _ {C : Type 0} (capabilities_key : List String → String) where
  -- A new policy takes effect at once: whatever the cache held, the first evaluation after it is
  -- the decision of the rules, the new one included.
  pub evaluate-create_policy :
      (policy_id name target effect : String) (condition : Option String) (e e' : Engine C)
      (agent_id action resource : String) (at_get at_set : ℕ)
      → create_policy policy_id name target effect condition e ≡ returned (policy_id, e')
      → (evaluate capabilities_key agent_id action resource at_get at_set e').0
        ≡ decide (values e'.policies) resource
  unfolding create_policy cache_of evaluate get_cached lookup
  evaluate-create_policy policy_id name target effect condition e e' agent_id action resource at_get
        at_set h =
      subst
        (λ cache.
          (let key = make_cache_key capabilities_key agent_id action resource [] in
            let cached = get_cached key at_get cache in
            decided capabilities_key key (decide (values e'.policies) resource) at_set cached.1 e'
              cached.0).0
          ≡ decide (values e'.policies) resource)
        (sym (created-cache policy_id name target effect condition e (effect_of effect))
          ∙ ap cache_of h)
        refl

  -- An intent that requires a capability which the registry does not hold is denied, whatever the
  -- rules and the cache say, and the engine stays as it is.
  pub unregistered_capability :
      (agent_id action resource : String) (required : List String) (at_get at_set : ℕ)
      (e : Engine C) (registry : Dict C) (capability : String)
      → e.capability_registry ≡ some registry
      → missing registry required ≡ some capability
      → evaluate_with_capabilities capabilities_key agent_id action resource required at_get at_set
          e
        ≡ (denied ("Capability not registered: " <> capability), e)
  unfolding evaluate_with_capabilities after_required
  unregistered_capability agent_id action resource required at_get at_set e registry capability h
        m =
      subst
        (λ found.
          after_required capabilities_key (denial_of_required found required) resource required
            at_get at_set e
          ≡ (denied ("Capability not registered: " <> capability), e))
        (sym h) (rw m refl)

  pub evaluate-missed :
      (agent_id action resource : String) (at_get at_set : ℕ) (e : Engine C)
      → lookup (make_cache_key capabilities_key agent_id action resource []) e.cache ≡ none
      → evaluate capabilities_key agent_id action resource at_get at_set e ≡ (
        decide (values e.policies) resource,
        record e {
          cache =
              set_cached
                (make_cache_key capabilities_key agent_id action resource [])
                (decide (values e.policies) resource)
                at_set
                e.cache;
        },
      )
  unfolding evaluate get_cached
  evaluate-missed agent_id action resource at_get at_set e h =
      let key = make_cache_key capabilities_key agent_id action resource [] in
      ap
        (λ found.
          let cached = by_lookup key at_get e.cache found in
          decided capabilities_key key (decide (values e.policies) resource) at_set cached.1 e
            cached.0)
        h

  evaluate-hit :
      (agent_id action resource : String) (at_get at_set : ℕ) (e : Engine C) (d : Decision)
      → (get_cached (make_cache_key capabilities_key agent_id action resource []) at_get e.cache).0
        ≡ some d
      → (evaluate capabilities_key agent_id action resource at_get at_set e).0 ≡ d
  unfolding evaluate
  evaluate-hit agent_id action resource at_get at_set e d h = rw h refl

  -- A decision that was not in the cache answers every request with the same key until five minutes
  -- after it was made, also for another resource.
  pub evaluate-same_key :
      (agent_id action resource agent_id' action' resource' : String)
      (at_get at_set at_get' at_set' : ℕ) (e : Engine C)
      → make_cache_key capabilities_key agent_id' action' resource' []
        ≡ make_cache_key capabilities_key agent_id action resource []
      → lookup (make_cache_key capabilities_key agent_id action resource []) e.cache ≡ none
      → at_get' < at_set + 300 * 1000000
      → (evaluate capabilities_key agent_id' action' resource' at_get' at_set'
          (evaluate capabilities_key agent_id action resource at_get at_set e).1).0
        ≡ decide (values e.policies) resource
  evaluate-same_key agent_id action resource agent_id' action' resource' at_get at_set at_get'
        at_set' e same h soon =
      rw (evaluate-missed agent_id action resource at_get at_set e h) (
        evaluate-hit agent_id' action' resource' at_get' at_set' _ _
          (rw same (get_cached-set_cached _ _ at_set at_get' e.cache soon)))
