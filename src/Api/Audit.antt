-- ===== src/Api/Audit.antt =====
-- api/audit/recorder.py: security events, and the log lines they make. The identifier of an event is
-- an argument; its time is left out.
use kitematic.Base.{String, is_empty, Option, none, some, List, [], ◌∷◌, ◌++◌, if◌then◌else◌}

pub data AuditEventType : Type 0 where
  auth_success auth_failure key_rotation tenant_denied websocket_deprecated : AuditEventType

unfoldable pub audit_event_value : AuditEventType → String
audit_event_value auth_success = "auth.success"
audit_event_value auth_failure = "auth.failure"
audit_event_value key_rotation = "auth.key_rotation"
audit_event_value tenant_denied = "tenant.denied"
audit_event_value websocket_deprecated = "websocket.deprecated_auth"

pub record AuditEvent : Type 0 where
  pub event_id : String
  pub event_type : AuditEventType
  pub tenant_id : String
  pub agent_id : String
  pub execution_id : String
  pub detail : String

-- What `RuntimeLogger.info` is called with.
pub record AuditLine : Type 0 where
  pub message : String
  pub audit_event_id : String
  pub audit_event_type : String
  pub tenant_id : String
  pub agent_id : String
  pub execution_id : String

-- The log of the recorder, or none without a logger.
abbrev pub Recorder : Type 0
Recorder = Option (List AuditLine)

abbrev pub text_or : String → String → String
text_or s default = if is_empty s then default else s

unfoldable pub line_of : AuditEvent → AuditLine
unfolding audit_event_value
line_of e = record {
  message = text_or e.detail (audit_event_value e.event_type);
  audit_event_id = e.event_id;
  audit_event_type = audit_event_value e.event_type;
  tenant_id = e.tenant_id;
  agent_id = e.agent_id;
  execution_id = e.execution_id;
}

unfoldable pub record_event : AuditEvent → Recorder → Recorder
unfolding line_of
record_event e none = none
record_event e (some lines) = some (lines ++ line_of e ∷ [])

abbrev recorded : AuditEvent → Recorder → AuditEvent × Recorder
recorded e r = (e, record_event e r)

unfoldable pub record_auth_failure :
    (event_id tenant_id detail : String) → Recorder → AuditEvent × Recorder
unfolding record_event
record_auth_failure event_id tenant_id detail = recorded (record {
  event_id = event_id;
  event_type = auth_failure;
  tenant_id = tenant_id;
  agent_id = "";
  execution_id = "";
  detail = text_or detail "Authentication failed";
})

unfoldable pub record_auth_success :
    (event_id tenant_id agent_id : String) → Recorder → AuditEvent × Recorder
unfolding record_event
record_auth_success event_id tenant_id agent_id = recorded (record {
  event_id = event_id;
  event_type = auth_success;
  tenant_id = tenant_id;
  agent_id = agent_id;
  execution_id = "";
  detail = "Authentication succeeded";
})

unfoldable pub record_key_rotation :
    (event_id tenant_id detail : String) → Recorder → AuditEvent × Recorder
unfolding record_event
record_key_rotation event_id tenant_id detail = recorded (record {
  event_id = event_id;
  event_type = key_rotation;
  tenant_id = tenant_id;
  agent_id = "";
  execution_id = "";
  detail = text_or detail "API key rotated";
})

unfoldable pub record_tenant_denied :
    (event_id tenant_id execution_id detail : String) → Recorder → AuditEvent × Recorder
unfolding record_event
record_tenant_denied event_id tenant_id execution_id detail = recorded (record {
  event_id = event_id;
  event_type = tenant_denied;
  tenant_id = tenant_id;
  agent_id = "";
  execution_id = execution_id;
  detail = text_or detail "Cross-tenant access denied";
})

unfoldable pub record_websocket_deprecated :
    (event_id tenant_id detail : String) → Recorder → AuditEvent × Recorder
unfolding record_event
record_websocket_deprecated event_id tenant_id detail = recorded (record {
  event_id = event_id;
  event_type = websocket_deprecated;
  tenant_id = tenant_id;
  agent_id = "";
  execution_id = "";
  detail = text_or detail "WebSocket deprecated auth method used";
})
