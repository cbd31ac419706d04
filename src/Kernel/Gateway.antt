-- ===== src/Kernel/Gateway.antt =====
-- `MCPToolGateway` of kernel/gateway.py, without a logger. A client of type `C` is called on the
-- state `W` of the tools behind it. Durations are in microseconds, before they are rounded.
pub mod Trail
use kitematic.Base.{
  ℕ, ◌-◌, String, ◌<>◌, Bool, true, false, Option, none, some, List, [], ◌∷◌, ◌++◌, Outcome,
  returned, raised,
}
use kitematic.Base.Dict.{Dict, lookup, insert}
use kitematic.Kernel.Values.{Value, flag, number, text}
use kitematic.Kernel.Errors.{Error, gateway_access, message}
use kitematic.Kernel.Metrics.{Metrics, increment, record_value}
use kitematic.Kernel.Events.{EventLog, emit, gateway_accessed}
use kitematic.Kernel.Contracts.{Intent, ExecutionPath, ToolResult}
use kitematic.Kernel.Tools.{ToolDefinition, ToolRegistry, get_tool}

pub record GatewayAuditEntry : Type 0 where
  pub timestamp : ℕ
  pub tool_id : String
  pub mcp_server : String
  pub agent_id : String
  pub success : Bool
  pub error : Option String
  pub duration : ℕ

pub record Gateway (C : Type 0) (W : Type 0) : Type 0 where
  pub registry : ToolRegistry
  pub clients : Dict C
  pub audit_log : List GatewayAuditEntry
  pub event_log : Option EventLog
  pub metrics : Option Metrics
  pub world : W

-- The clock at the start of a call, in the audit, and at the end.
pub record CallTimes : Type 0 where
  pub start : ℕ
  pub audited : ℕ
  pub finished : ℕ

unfoldable pub set_event_log : {C W : Type 0} → EventLog → Gateway C W → Gateway C W
set_event_log log g = record g { event_log = some log }

unfoldable pub register_client : {C W : Type 0} → String → C → Gateway C W → Gateway C W
register_client server_id client g = record g { clients = insert server_id client g.clients }

abbrev pub emitted : GatewayAuditEntry → Option EventLog → Option EventLog
emitted entry none = none
emitted entry (some log) = some (
    emit gateway_accessed "EXECUTING"
      (("tool", text entry.tool_id)
        ∷ ("mcp_server", text entry.mcp_server)
        ∷ ("agent_id", text entry.agent_id)
        ∷ ("success", flag entry.success)
        ∷ ("duration_ms", number entry.duration)
        ∷ [])
      entry.error log)

-- `_record_audit`
unfoldable pub record_audit : {C W : Type 0} → GatewayAuditEntry → Gateway C W → Gateway C W
record_audit entry g = record g {
  audit_log = g.audit_log ++ entry ∷ [];
  event_log = emitted entry g.event_log;
}

abbrev pub count_one : String → Option Metrics → Option Metrics
count_one name none = none
count_one name (some m) = some (increment m name)

abbrev pub count_success : ℕ → Option Metrics → Option Metrics
count_success elapsed none = none
count_success elapsed (some m) =
    some (record_value (increment m "gateway.tool.success") "gateway.tool.duration_ms" elapsed)

module _ {C W : Type 0} (call_tool : C → String → Dict Value → W → Outcome Error (Dict Value) × W)
    (times : CallTimes) (path : ExecutionPath) (intent : Intent) where
  abbrev pub entry_for :
      (mcp_server : String) (success : Bool) (error : Option String) → GatewayAuditEntry
  entry_for mcp_server success error = record {
    timestamp = times.start;
    tool_id = path.tool;
    mcp_server = mcp_server;
    agent_id = intent.agent_id;
    success = success;
    error = error;
    duration = times.audited - times.start;
  }

  -- an access that fails with `error`, which is audited and counted
  abbrev pub refuse :
      (mcp_server counter error : String) → Gateway C W → Outcome Error ToolResult × Gateway C W
  refuse mcp_server counter error g =
      let g' = record_audit (entry_for mcp_server false (some error)) g in
      (
        raised (gateway_access path.tool error),
        record g' { metrics = count_one counter g'.metrics },
      )

  -- the answer of the client
  unfoldable pub answered :
      ToolDefinition
      → Gateway C W
      → Outcome Error (Dict Value)
      → Outcome Error ToolResult × Gateway C W
  unfolding record_audit
  answered tool_def g (raised e) =
      refuse tool_def.mcp_server "gateway.tool.mcp_failure" ("MCP call failed: " <> message e) g
  answered tool_def g (returned result) =
      let g' = record_audit (entry_for tool_def.mcp_server true none) g in
      (
        returned (record { success = true; result_data = result; error = none }),
        record g' { metrics = count_success (times.finished - times.start) g'.metrics },
      )

  -- the client of the tool's server
  unfoldable pub resolved :
      ToolDefinition → Gateway C W → Option C → Outcome Error ToolResult × Gateway C W
  unfolding answered
  resolved tool_def g none =
      refuse tool_def.mcp_server "gateway.tool.client_miss"
        ("No MCP client for server: " <> tool_def.mcp_server) g
  resolved tool_def g (some client) =
      let (outcome, w) = call_tool client path.tool path.parameters g.world in
      answered tool_def (record g { world = w }) outcome

  -- the tool in the registry
  unfoldable pub found :
      Gateway C W → Option ToolDefinition → Outcome Error ToolResult × Gateway C W
  unfolding resolved
  found g none = refuse "" "gateway.tool.registry_miss" ("Tool not registered: " <> path.tool) g
  found g (some tool_def) = resolved tool_def g (lookup tool_def.mcp_server g.clients)

  unfoldable pub access_tool : Gateway C W → Outcome Error ToolResult × Gateway C W
  unfolding found
  access_tool g = found g (get_tool path.tool g.registry)
