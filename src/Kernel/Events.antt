-- ===== src/Kernel/Events.antt =====
-- kernel/events/models.py: the event envelope and the append-only log of one execution. The time at
-- which an event is made is not modelled.
use kitematic.Base.{
  ℕ, ◌+◌, String, ◌<>◌, show, ltb, Bool, Option, none, some, List, [], ◌∷◌, ◌++◌, length, select,
  if◌then◌else◌,
}
use kitematic.Base.Dict.{Dict}
use kitematic.Kernel.Values.{Value}

pub data EventType : Type 0 where
  loop_started budget_checked policy_evaluated capability_checked intent_routed : EventType
  gateway_accessed tool_executed checkpoint_saved step_completed loop_terminated : EventType
  loop_failed loop_halted budget_exhausted timeout_occurred : EventType

pub EventType-discrete : Discrete EventType
EventType-discrete = hlevel

-- The fields of `payload` are fields of the record.
pub record ExecutionEvent : Type 0 where
  pub event_id : String
  pub execution_id : String
  pub tenant_id : String
  pub event_type : EventType
  pub state : String
  pub step_number : ℕ
  pub metadata : Dict Value
  pub error : Option String

pub record EventLog : Type 0 where
  pub execution_id : String
  pub events : List ExecutionEvent
  pub counter : ℕ

unfoldable pub new_log : String → EventLog
new_log execution_id = record { execution_id = execution_id; events = []; counter = 0 }

-- `f"{n:04d}"`
abbrev pub show_padded : ℕ → String
show_padded n =
    if ltb n 10
    then "000" <> show n
    else if ltb n 100
    then "00" <> show n
    else if ltb n 1000
    then "0" <> show n
    else show n

-- the event that `emit` makes and returns
unfoldable pub next_event :
    EventType → String → Dict Value → Option String → EventLog → ExecutionEvent
next_event event_type state metadata error log =
    let counter = log.counter + 1 in
    record {
      event_id = "evt-" <> log.execution_id <> "-" <> show_padded counter;
      execution_id = log.execution_id;
      tenant_id = "";
      event_type = event_type;
      state = state;
      step_number = counter;
      metadata = metadata;
      error = error;
    }

unfoldable pub emit : EventType → String → Dict Value → Option String → EventLog → EventLog
unfolding next_event
emit event_type state metadata error log = record log {
  events = log.events ++ next_event event_type state metadata error log ∷ [];
  counter = log.counter + 1;
}

unfoldable pub count : EventLog → ℕ
count log = length log.events

last : List ExecutionEvent → Option ExecutionEvent
last [] = none
last (e ∷ []) = some e
last (e ∷ f ∷ es) = last (f ∷ es)

unfoldable pub last_event : EventLog → Option ExecutionEvent
unfolding last
last_event log = last log.events

abbrev same_type : EventType → EventType → Bool
same_type a b = elim (EventType-discrete a b) [ yes _ ↦ Bool.true | no _ ↦ Bool.false ]

unfoldable pub get_events_by_type : EventType → EventLog → List ExecutionEvent
unfolding EventType-discrete
get_events_by_type event_type log = select (λ e. same_type e.event_type event_type) log.events
