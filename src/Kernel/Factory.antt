-- ===== src/Kernel/Factory.antt =====
-- kernel/events/factory.py: which publisher the settings ask for. That the redis package is there is
-- taken for granted.
use kitematic.Base.{
  String, ℕ, is_empty, lower, same_codes, ◌||◌, List, if◌then◌else◌, Outcome, returned, raised,
}

pub record EventSettings : Type 0 where
  pub event_backend : String
  pub redis_url : String
  pub event_channel_prefix : String

pub data ChosenPublisher : Type 0 where
  in_memory_publisher : ChosenPublisher
  redis_publisher stream_publisher : (redis_url prefix : String) → ChosenPublisher

-- the texts of the two `ValueError`s, the second with the backend in lower case
pub data FactoryError : Type 0 where
  redis_url_required : FactoryError
  unknown_backend : List ℕ → FactoryError

abbrev with_url :
    (String → String → ChosenPublisher) → EventSettings → Outcome FactoryError ChosenPublisher
with_url publisher s =
    if is_empty s.redis_url
    then raised redis_url_required
    else returned (publisher s.redis_url s.event_channel_prefix)

unfoldable pub create_event_publisher : EventSettings → Outcome FactoryError ChosenPublisher
unfolding lower same_codes
create_event_publisher s =
    let backend = lower s.event_backend in
    if same_codes "memory" backend
    then returned in_memory_publisher
    else if same_codes "redis" backend || same_codes "redis_pubsub" backend
    then with_url redis_publisher s
    else if same_codes "redis_streams" backend || same_codes "streams" backend
    then with_url stream_publisher s
    else raised (unknown_backend backend)
