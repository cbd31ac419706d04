-- ===== src/Kernel/Publisher.antt =====
-- `InMemoryEventPublisher` of kernel/events/memory.py. A queue is a number, and what was put into the
-- queues is one list, in its order; readers of the queues are not modelled. Of an event, the two
-- fields that the publisher reads stand by themselves.
pub mod Tenants
pub mod Isolation
use kitematic.Base.{
  ℕ, ◌+◌, String, str_eq, is_empty, Bool, true, false, not, ◌&&◌, ◌==◌, select, List, [], ◌∷◌, ◌++◌,
  map, length, get_or, if◌then◌else◌,
}
use kitematic.Base.Dict.{Dict, lookup, insert, erase, keys}
use kitematic.Kernel.Values.{Value}

pub record PublishedEvent : Type 0 where
  pub execution_id : String
  pub tenant_id : String
  pub body : Dict Value

-- What is put into a queue: an event, a dict of the older form of `publish`, or the end (`None`).
pub data Item : Type 0 where
  event : PublishedEvent → Item
  plain_dict : Dict Value → Item
  closed : Item

pub record Publisher : Type 0 where
  pub subscribers : Dict (List (ℕ × String))
  pub delivered : List (ℕ × Item)
  pub next_queue : ℕ

abbrev pub new_publisher : Publisher
new_publisher = record { subscribers = []; delivered = []; next_queue = 0 }

unfoldable pub subscribers_of : String → Publisher → List (ℕ × String)
subscribers_of execution_id p = get_or (lookup execution_id p.subscribers) []

unfoldable pub subscribe : (execution_id tenant_id : String) → Publisher → ℕ × Publisher
unfolding subscribers_of
subscribe execution_id tenant_id p = (
  p.next_queue,
  record p {
    subscribers =
        insert execution_id (subscribers_of execution_id p ++ (p.next_queue, tenant_id) ∷ [])
          p.subscribers;
    next_queue = p.next_queue + 1;
  },
)

unfoldable pub unsubscribe : (execution_id : String) (queue : ℕ) → Publisher → Publisher
unfolding subscribers_of
unsubscribe execution_id queue p = record p {
  subscribers =
      insert execution_id (select (λ s. not (s.0 == queue)) (subscribers_of execution_id p))
        p.subscribers;
}

-- whether an event of `event_tenant` is put into the queue of a subscriber of `sub_tenant`
unfoldable pub passes : (event_tenant sub_tenant : String) → Bool
passes event_tenant sub_tenant = not (
    not (is_empty sub_tenant)
    && not (is_empty event_tenant)
    && not (str_eq sub_tenant event_tenant))

-- `q.put_nowait(item)` for each subscriber
abbrev pub put_all : Item → List (ℕ × String) → List (ℕ × Item)
put_all item subs = map (λ s. (s.0, item)) subs

unfoldable pub publish : PublishedEvent → Publisher → Publisher
unfolding subscribers_of passes
publish e p = record p {
  delivered =
      p.delivered
      ++ put_all (event e) (select (λ s. passes e.tenant_id s.1) (subscribers_of e.execution_id p));
}

-- the older form, `publish(execution_id, event_dict)`
unfoldable pub publish_dict : (execution_id : String) → Dict Value → Publisher → Publisher
unfolding subscribers_of
publish_dict execution_id event_dict p = record p {
  delivered = p.delivered ++ put_all (plain_dict event_dict) (subscribers_of execution_id p);
}

unfoldable pub close : (execution_id : String) → Publisher → Publisher
unfolding subscribers_of
close execution_id p = record p {
  delivered = p.delivered ++ put_all closed (subscribers_of execution_id p);
  subscribers = erase execution_id p.subscribers;
}

unfoldable pub close_each : List String → Publisher → Publisher
unfolding close
close_each [] p = p
close_each (execution_id ∷ rest) p = close_each rest (close execution_id p)

unfoldable pub close_all : Publisher → Publisher
unfolding close_each
close_all p = close_each (keys p.subscribers) p

unfoldable pub active_executions : Publisher → List String
active_executions p = keys p.subscribers

unfoldable pub subscriber_count : (execution_id : String) → Publisher → ℕ
unfolding subscribers_of
subscriber_count execution_id p = length (subscribers_of execution_id p)
