-- ===== src/ControlPlane/System/Granted.antt =====
-- What a successful execution has been granted: kernel/runtime.py over the policy engine, the router
-- and the gateway.
use kitematic.Base.{String, ◌≡◌, ◌∙◌, sym, ap, Bool, true, Option, none, [], Outcome, returned}
use kitematic.Base.Dict.{lookup, values}
use mathlib.Core.Path.{subst}
use kitematic.Kernel.Errors.{Error}
use kitematic.Kernel.Tenant.{TenantContext}
use kitematic.Kernel.Contracts.{Intent, ExecutionPath, ToolResult}
use kitematic.Kernel.Gateway.{Gateway, access_tool}
use kitematic.Kernel.Gateway.Trail.{Works, access_tool_iff}
use kitematic.Kernel.Runtime.{Runtime, Moment, execute_quota_guarded}
use kitematic.Kernel.Runtime.Governance.{succeeds, success-agrees}
use kitematic.ControlPlane.Policy.Rules.{allow, decide}
use kitematic.ControlPlane.Policy.Engine.{make_cache_key}
use kitematic.ControlPlane.Adapters.Router.{route_intent}
use kitematic.ControlPlane.Adapters.Policies.Verdicts.{evaluate_intent-allow}
use kitematic.ControlPlane.System.{Services, Outside, Readings, collaborators}

-- the router finds a path, and the tool at its end works
abbrev pub Delivers : {C W R : Type 0} → Outside C W R → Readings → Intent → Gateway C W → Type 0
Delivers out at intent g =
    (path : ExecutionPath) × (tool_result : ToolResult) × (route_intent out.matches intent
        g.registry
      ≡ returned path)
    × Works out.call_tool at.call path intent g tool_result

permitted_eq :
    (v w : Bool × Option String)
    → ◌≡◌ {A = Outcome Error (Bool × Option String)} (returned v) (returned w)
    → v.0 ≡ w.0
permitted_eq v w h = cc

module _ {K C W R : Type 0} (out : Outside C W R) (at : Readings) (now : Moment)
    (intent : Intent) where
  -- An execution whose chain succeeds, when no decision for its intent was in the cache, is one that
  -- the rules decide with ALLOW, that the router finds a path for, and whose tool is registered, has
  -- a client for its server, and returned a result.
  pub success-Delivers :
      (tenant : Option TenantContext) (r : Runtime (Services K C W R))
      → lookup
          (make_cache_key out.capabilities_key intent.agent_id intent.action intent.action [])
          r.services.engine.cache
        ≡ none
      → succeeds (execute_quota_guarded (collaborators out at) now intent tenant r) ≡ true
      → ((decide (values r.services.engine.policies) intent.action).decision ≡ allow)
        × Delivers out at intent r.services.gateway
  success-Delivers tenant r uncached h =
      let (_, s, policy, (_, s', capability, (path, s'', routing, (tool_result, _, tool, _, _)))) =
        success-agrees (collaborators out at) now intent tenant r h in
      (
        evaluate_intent-allow out.capabilities_key intent r.services.engine uncached at.policy_get
            at.policy_set (permitted_eq _ _ (ap (λ x. x.0) policy)),
        subst (Delivers out at intent)
            (ap (λ x. x.1.gateway) (sym capability) ∙ ap (λ x. x.1.gateway) (sym policy))
            (
              path,
              tool_result,
              ap (λ x. x.0) routing,
              (access_tool_iff out.call_tool at.call path intent s'.gateway tool_result).0 (
                  ap (λ x. (access_tool out.call_tool at.call path intent x.1.gateway).0) routing
                  ∙ ap (λ x. x.0) tool),
            ),
      )
