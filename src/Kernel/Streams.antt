-- ===== src/Kernel/Streams.antt =====
-- `RedisStreamPublisher` of kernel/events/redis_streams.py. The Redis server is a parameter, with
-- its state. A local queue is a number, and what was put into the local queues is one list, in its
-- order; their readers are not modelled. A set of stream keys is a list without repetitions.
-- Connecting, the clock and blocking are left out: the time is an argument. So is what the server has
-- done when a call raises.
use kitematic.Base.{
  ◌<>◌, codes, contains_text, ℕ, ◌+◌, ◌&&◌, ◌==◌, length, String, str_eq, is_empty, Bool, not,
  Option, none, some, List, [], ◌∷◌, ◌++◌, map, select, get_or, if◌then◌else◌, Outcome, returned,
  raised, ◌>>=◌,
}
use kitematic.Base.Dict.{Dict, lookup, insert, erase, keys}
use kitematic.Kernel.Values.{Value, text}
use kitematic.Storage.Indexed.{add_to_set}

-- `ResponseError`, and any other exception of the client
pub data RedisError : Type 0 where
  response_error other_error : String → RedisError

-- An entry of a stream: its identifier and its fields.
abbrev pub Entry : Type 0
Entry = String × Dict Value

-- What `xreadgroup` gives for a stream: its name and its entries, each of which may be missing.
abbrev pub ReadItem : Type 0
ReadItem = Option String × Option (List Entry)

pub record Redis (R : Type 0) : Type 0 where
  pub xadd : (stream : String) → Dict Value → (maxlen : ℕ) → R → Outcome RedisError R
  pub xgroup_create : (stream group : String) → R → Outcome RedisError R
  pub xreadgroup :
      (group consumer : String)
      → (streams : List String) → (count : ℕ) → R
      → Outcome RedisError (Option (List ReadItem) × R)
  pub xrange :
      (stream start_id : String) → (count : ℕ) → R → Outcome RedisError (Option (List Entry))
  pub xack : (stream group msg_id : String) → R → Outcome RedisError R
  pub xtrim : (stream : String) → (maxlen : ℕ) → R → Outcome RedisError R

-- An event: what `publish` reads of it, and its `to_dict`.
pub record StreamEvent : Type 0 where
  pub execution_id : String
  pub tenant_id : String
  pub agent_id : Option String
  pub event_type : String
  pub dict : Dict Value

pub record Message : Type 0 where
  pub stream : String
  pub id : String
  pub fields : Dict Value

-- What is put into a local queue: the data of an event, or the end (`None`).
pub data LocalItem : Type 0 where
  event_fields : Dict Value → LocalItem
  ended : LocalItem

pub record Streams (R : Type 0) : Type 0 where
  pub prefix : String
  pub instance_id : String
  pub local_queues : Dict (List (ℕ × String))
  pub delivered : List (ℕ × LocalItem)
  pub next_queue : ℕ
  pub stream_keys : List String
  pub server : R

abbrev max_length : ℕ
max_length = 10000

unfoldable pub event_data : StreamEvent → (now : String) → Dict Value
event_data e now = insert "__timestamp__" (text now) (
    insert "__agent_id__" (text (get_or e.agent_id "")) (
      insert "__tenant_id__" (text e.tenant_id)
        (insert "__event_type__" (text e.event_type) e.dict)))

-- `sub_tenant and event_tenant and sub_tenant != event_tenant`
unfoldable pub is_skipped : (event_tenant sub_tenant : String) → Bool
is_skipped event_tenant sub_tenant =
    not (is_empty sub_tenant) && not (is_empty event_tenant) && not (str_eq sub_tenant event_tenant)

-- the loop over the local subscribers of an execution
unfoldable pub put_locally :
    Dict Value → (event_tenant : String) → List (ℕ × String) → List (ℕ × LocalItem)
unfolding is_skipped
put_locally fields event_tenant [] = []
put_locally fields event_tenant ((queue, sub_tenant) ∷ subs) =
    let rest = put_locally fields event_tenant subs in
    if is_skipped event_tenant sub_tenant then rest else (queue, event_fields fields) ∷ rest

abbrev messages_of : String → List Entry → List Message
messages_of stream entries = map (λ e. record { stream = stream; id = e.0; fields = e.1 }) entries

unfoldable pub read_item : ReadItem → List Message
read_item (none, entries) = []
read_item (some stream, none) = []
read_item (some stream, some entries) = messages_of stream entries

unfoldable pub read_items : List ReadItem → List Message
unfolding read_item
read_items [] = []
read_items (item ∷ items) = read_item item ++ read_items items

-- the streams that are read: a placeholder where there is none
unfoldable pub streams_to_read : String → List String → List String
streams_to_read prefix [] = (prefix <> ":s:placeholder") ∷ []
streams_to_read prefix (k ∷ ks) = k ∷ ks

unfoldable pub replayed :
    String → Outcome RedisError (Option (List Entry)) → Outcome RedisError (List Message)
replayed stream (raised (response_error reason)) = returned []
replayed stream (raised (other_error reason)) = raised (other_error reason)
replayed stream (returned none) = returned []
replayed stream (returned (some entries)) = returned (messages_of stream entries)

module _ {R : Type 0} where
  unfoldable pub stream_key : String → Streams R → String
  stream_key execution_id s = s.prefix <> ":s:" <> execution_id

  unfoldable pub group_name : String → Streams R → String
  group_name tenant_id s =
      s.prefix <> ":g:" <> (if is_empty tenant_id then "default" else tenant_id)

  unfoldable pub consumer_name : Streams R → String
  consumer_name s = s.prefix <> ":c:" <> s.instance_id

  unfoldable pub local_subscribers : String → Streams R → List (ℕ × String)
  local_subscribers execution_id s = get_or (lookup execution_id s.local_queues) []

  -- after `xadd`: the key, and the local subscribers
  unfoldable pub after_add :
      StreamEvent
      → (now : String) → Streams R
      → Outcome RedisError R
      → Outcome RedisError (Streams R)
  unfolding stream_key put_locally local_subscribers event_data
  after_add e now s (raised error) = raised error
  after_add e now s (returned r) = returned (record s {
    server = r;
    stream_keys = add_to_set (stream_key e.execution_id s) s.stream_keys;
    delivered =
        s.delivered
        ++ put_locally (event_data e now) e.tenant_id (local_subscribers e.execution_id s);
  })

  unfoldable pub subscribe_local : (execution_id tenant_id : String) → Streams R → ℕ × Streams R
  unfolding local_subscribers
  subscribe_local execution_id tenant_id s = (
    s.next_queue,
    record s {
      local_queues =
          insert execution_id (local_subscribers execution_id s ++ (s.next_queue, tenant_id) ∷ [])
            s.local_queues;
      next_queue = s.next_queue + 1;
    },
  )

  unfoldable pub unsubscribe_local : (execution_id : String) (queue : ℕ) → Streams R → Streams R
  unfolding local_subscribers
  unsubscribe_local execution_id queue s = record s {
    local_queues =
        insert execution_id (select (λ q. not (q.0 == queue)) (local_subscribers execution_id s))
          s.local_queues;
  }

  unfoldable pub close_stream : (execution_id : String) → Streams R → Streams R
  unfolding stream_key local_subscribers
  close_stream execution_id s = record s {
    stream_keys = select (λ k. not (str_eq k (stream_key execution_id s))) s.stream_keys;
    delivered = s.delivered ++ map (λ q. (q.0, ended)) (local_subscribers execution_id s);
    local_queues = erase execution_id s.local_queues;
  }

  unfoldable pub close_streams : List String → Streams R → Streams R
  unfolding close_stream
  close_streams [] s = s
  close_streams (execution_id ∷ rest) s = close_streams rest (close_stream execution_id s)

  unfoldable pub close_all_streams : Streams R → Streams R
  unfolding close_streams
  close_all_streams s = close_streams (keys s.local_queues) s

  unfoldable pub active_streams : Streams R → List String
  active_streams s = keys s.local_queues

  unfoldable pub local_subscriber_count : (execution_id : String) → Streams R → ℕ
  unfolding local_subscribers
  local_subscriber_count execution_id s = length (local_subscribers execution_id s)

  -- one `xgroup_create`: a group that is there already is kept
  unfoldable pub created_group : R → Outcome RedisError R → Outcome RedisError R
  unfolding contains_text
  created_group r (returned r') = returned r'
  created_group r (raised (response_error reason)) =
      if contains_text "BUSYGROUP" (codes reason)
      then returned r
      else raised (response_error reason)
  created_group r (raised (other_error reason)) = raised (other_error reason)

  unfoldable pub read_results :
      Streams R
      → Outcome RedisError (Option (List ReadItem) × R)
      → Outcome RedisError (List Message × Streams R)
  unfolding read_items
  read_results s (raised (response_error reason)) = returned ([], s)
  read_results s (raised (other_error reason)) = raised (other_error reason)
  read_results s (returned (none, r)) = returned ([], record s { server = r })
  read_results s (returned (some items, r)) = returned (read_items items, record s { server = r })

  unfoldable pub trimmed : Streams R → Outcome RedisError R → Outcome RedisError (Streams R)
  trimmed s (raised (response_error reason)) = returned s
  trimmed s (raised (other_error reason)) = raised (other_error reason)
  trimmed s (returned r) = returned (record s { server = r })

module _ {R : Type 0} (redis : Redis R) where
  unfoldable pub publish_event :
      StreamEvent → (now : String) → Streams R → Outcome RedisError (Streams R)
  unfolding after_add
  publish_event e now s =
      after_add e now s
        (redis.xadd (stream_key e.execution_id s) (event_data e now) max_length s.server)

  unfoldable pub create_groups : List String → (group : String) → R → Outcome RedisError R
  unfolding created_group
  create_groups [] group r = returned r
  create_groups (stream ∷ streams) group r =
      created_group r (redis.xgroup_create stream group r) >>= λ r'. create_groups streams group r'

  -- the name of the group, and the server
  unfoldable pub ensure_consumer_group :
      (tenant_id : String) → Streams R → Outcome RedisError (String × Streams R)
  unfolding create_groups group_name
  ensure_consumer_group tenant_id s =
      create_groups s.stream_keys (group_name tenant_id s) s.server >>= λ r.
      returned (group_name tenant_id s, record s { server = r })

  unfoldable pub read_messages :
      (tenant_id : String) (count : ℕ) → Streams R → Outcome RedisError (List Message × Streams R)
  unfolding read_results group_name consumer_name streams_to_read
  read_messages tenant_id count s = read_results s (
      redis.xreadgroup (group_name tenant_id s) (consumer_name s)
        (streams_to_read s.prefix s.stream_keys) count s.server)

  unfoldable pub acknowledge :
      (stream msg_id tenant_id : String) → Streams R → Outcome RedisError (Streams R)
  unfolding group_name
  acknowledge stream msg_id tenant_id s =
      redis.xack stream (group_name tenant_id s) msg_id s.server >>= λ r.
      returned (record s { server = r })

  unfoldable pub replay :
      (execution_id start_id : String) (count : ℕ) → Streams R → Outcome RedisError (List Message)
  unfolding replayed stream_key
  replay execution_id start_id count s =
      replayed (stream_key execution_id s)
        (redis.xrange (stream_key execution_id s) start_id count s.server)

  unfoldable pub trim :
      (execution_id : String) (maxlen : ℕ) → Streams R → Outcome RedisError (Streams R)
  unfolding trimmed stream_key
  trim execution_id maxlen s = trimmed s (redis.xtrim (stream_key execution_id s) maxlen s.server)
