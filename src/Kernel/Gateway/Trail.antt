-- ===== src/Kernel/Gateway/Trail.antt =====
-- The audit trail of kernel/gateway.py, and when an access succeeds.
use mathlib.Core.List.{map-append, append-nil, append_assoc}
use kitematic.Base.{
  String, ◌≡◌, ◌↔◌, ◌∙◌, refl, sym, ap, Bool, true, false, Option, none, some, List, [], ◌∷◌, ◌++◌,
  map, Outcome, returned, raised,
}
use kitematic.Base.Dict.{Dict, lookup}
use kitematic.Kernel.Values.{Value}
use kitematic.Kernel.Errors.{Error}
use kitematic.Kernel.Contracts.{Intent, ExecutionPath, ToolResult}
use kitematic.Kernel.Tools.{ToolDefinition, get_tool}
use kitematic.Kernel.Gateway.{
  GatewayAuditEntry, Gateway, CallTimes, record_audit, answered, resolved, found, access_tool,
}

-- What the trail says of one access: the tool, the agent, and whether a result was returned.
pub record Told : Type 0 where
  pub tool_id : String
  pub agent_id : String
  pub success : Bool

abbrev pub told : GatewayAuditEntry → Told
told entry = record { tool_id = entry.tool_id; agent_id = entry.agent_id; success = entry.success }

abbrev pub is_returned {ℓ} : {A : Type ℓ} → Outcome Error A → Bool
is_returned (returned a) = true
is_returned (raised e) = false

module _ {C W : Type 0} (call_tool : C → String → Dict Value → W → Outcome Error (Dict Value) × W)
    (times : CallTimes) (path : ExecutionPath) (intent : Intent) where
  -- The trail after a run is that of `g` and one entry more, which tells of the run; the registry
  -- and the clients are those of `g`.
  IsTold : Gateway C W → Outcome Error ToolResult × Gateway C W → Type 0
  IsTold g (outcome, g') =
      (entry : GatewayAuditEntry) × (g'.audit_log ≡ g.audit_log ++ entry ∷ [])
      × (told entry ≡ record {
        tool_id = path.tool;
        agent_id = intent.agent_id;
        success = is_returned outcome;
      })
      × (g'.registry ≡ g.registry)
      × (g'.clients ≡ g.clients)

  answered-IsTold :
      (t : ToolDefinition) (g : Gateway C W) (o : Outcome Error (Dict Value))
      → IsTold g (answered call_tool times path intent t g o)
  unfolding answered record_audit IsTold
  answered-IsTold t g (raised e) = (_, refl, refl, refl, refl)
  answered-IsTold t g (returned d) = (_, refl, refl, refl, refl)

  resolved-IsTold :
      (t : ToolDefinition) (g : Gateway C W) (o : Option C)
      → IsTold g (resolved call_tool times path intent t g o)
  unfolding resolved record_audit IsTold
  resolved-IsTold t g none = (_, refl, refl, refl, refl)
  resolved-IsTold t g (some c) = answered-IsTold t (record g { world = _ }) _

  found-IsTold :
      (g : Gateway C W) (o : Option ToolDefinition)
      → IsTold g (found call_tool times path intent g o)
  unfolding found record_audit IsTold
  found-IsTold g none = (_, refl, refl, refl, refl)
  found-IsTold g (some t) = resolved-IsTold t g _

  access_tool-IsTold : (g : Gateway C W) → IsTold g (access_tool call_tool times path intent g)
  unfolding access_tool
  access_tool-IsTold g = found-IsTold g _

  -- The tool is registered, its server has a client, and the client's call gives the result.
  abbrev pub Works : Gateway C W → ToolResult → Type 0
  Works g result =
      (t : ToolDefinition) × (client : C) × (d : Dict Value) × (get_tool path.tool g.registry
        ≡ some t)
      × (lookup t.mcp_server g.clients ≡ some client)
      × ((call_tool client path.tool path.parameters g.world).0 ≡ returned d)
      × (result ≡ record { success = true; result_data = d; error = none })

  module _ (g : Gateway C W) (result : ToolResult) where
    answered-Works :
        (t : ToolDefinition) (client : C) (g' : Gateway C W) (o : Outcome Error (Dict Value))
        → get_tool path.tool g.registry ≡ some t
        → lookup t.mcp_server g.clients ≡ some client
        → (call_tool client path.tool path.parameters g.world).0 ≡ o
        → (answered call_tool times path intent t g' o).0 ≡ returned result
        → Works g result
    unfolding answered
    answered-Works t client g' (raised x) e f k h = cc
    answered-Works t client g' (returned d) e f k h = (t, client, d, e, f, k, cc)

    resolved-Works :
        (t : ToolDefinition) (o : Option C)
        → get_tool path.tool g.registry ≡ some t
        → lookup t.mcp_server g.clients ≡ o
        → (resolved call_tool times path intent t g o).0 ≡ returned result
        → Works g result
    unfolding resolved
    resolved-Works t none e f h = cc
    resolved-Works t (some client) e f h = answered-Works t client _ _ e f refl h

    found-Works :
        (o : Option ToolDefinition)
        → get_tool path.tool g.registry ≡ o
        → (found call_tool times path intent g o).0 ≡ returned result
        → Works g result
    unfolding found
    found-Works none e h = cc
    found-Works (some t) e h = resolved-Works t _ e refl h

    -- An access returns a result exactly when the tool is registered, a client is there for its
    -- server, and the client's call returns; the result is then a success with what the call gave.
    pub access_tool_iff :
        ((access_tool call_tool times path intent g).0 ≡ returned result) ↔ Works g result
    unfolding access_tool found resolved answered
    access_tool_iff = (
      found-Works (get_tool path.tool g.registry) refl,
      λ (t, client, d, e, f, k, r). rw (e, f, k, r) refl,
    )

module _ {C W : Type 0}
    (call_tool : C → String → Dict Value → W → Outcome Error (Dict Value) × W) where
  -- Accesses one after the other.
  unfoldable pub access_all : List (CallTimes × ExecutionPath × Intent) → Gateway C W → Gateway C W
  access_all [] g = g
  access_all ((times, path, intent) ∷ calls) g =
      access_all calls (access_tool call_tool times path intent g).1

  -- What happened, told by the callers: which tool, which agent, and whether there was a result.
  unfoldable pub happened : List (CallTimes × ExecutionPath × Intent) → Gateway C W → List Told
  happened [] g = []
  happened ((times, path, intent) ∷ calls) g =
      let run = access_tool call_tool times path intent g in
      record { tool_id = path.tool; agent_id = intent.agent_id; success = is_returned run.0 }
      ∷ happened calls run.1

  -- The audit trail after any sequence of accesses is the trail before it and one entry for each
  -- access, in their order, with its tool, its agent and whether it returned a result.
  pub access_all-happened :
      (calls : List (CallTimes × ExecutionPath × Intent)) (g : Gateway C W)
      → map told (access_all calls g).audit_log ≡ map told g.audit_log ++ happened calls g
  unfolding access_all happened IsTold
  access_all-happened [] g = sym (append-nil _)
  access_all-happened ((times, path, intent) ∷ calls) g =
      let run = access_tool call_tool times path intent g in
      let (entry, e, tells, _, _) = access_tool-IsTold call_tool times path intent g in
      let rest = happened calls run.1 in
      access_all-happened calls run.1
      ∙ ap (λ log. map told log ++ rest) e
      ∙ ap (λ log. log ++ rest) (map-append told g.audit_log (entry ∷ []))
      ∙ append_assoc (map told g.audit_log) (told entry ∷ []) rest
      ∙ ap (λ t. map told g.audit_log ++ t ∷ rest) tells
