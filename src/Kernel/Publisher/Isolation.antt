-- ===== src/Kernel/Publisher/Isolation.antt =====
-- The tenants of the in-memory publisher (kernel/events/memory.py) are kept apart.
use mathlib.Core.Path.{subst}
use kitematic.Base.{
  sym, true, get_or, In, In-kept, In-append_right, ap, eq_iff, inl, inr, ℕ, ◌<◌, ◌≤◌, String, ◌≡◌,
  refl, List, [], ◌∷◌, ◌++◌, ◌⊎◌, All, All-imp, arith,
}
use kitematic.Base.Dict.{lookup-insert_self, Dict, keys, lookup}
use kitematic.Kernel.Values.{Value}
use kitematic.Kernel.Publisher.{
  event, plain_dict, closed, passes, put_all, Item, PublishedEvent, Publisher, new_publisher,
  subscribers_of, subscribe, unsubscribe, publish, publish_dict, close, close_each, close_all,
}
use kitematic.Kernel.Publisher.Tenants.{
  Fits, Holds, subscribe-Holds, unsubscribe-Holds, publish-Holds, publish_dict-Holds, close-Holds,
  close_each-Holds,
}

-- The operations of a publisher.
pub data Command : Type 0 where
  subscribing : (execution_id tenant_id : String) → Command
  unsubscribing : (execution_id : String) (queue : ℕ) → Command
  publishing : PublishedEvent → Command
  sending : (execution_id : String) → Dict Value → Command
  closing : (execution_id : String) → Command
  closing_all : Command

unfoldable pub run_command : Command → Publisher → Publisher
run_command (subscribing execution_id tenant_id) p = (subscribe execution_id tenant_id p).1
run_command (unsubscribing execution_id queue) p = unsubscribe execution_id queue p
run_command (publishing e) p = publish e p
run_command (sending execution_id d) p = publish_dict execution_id d p
run_command (closing execution_id) p = close execution_id p
run_command closing_all p = close_all p

unfoldable pub run_commands : List Command → Publisher → Publisher
unfolding run_command
run_commands [] p = p
run_commands (c ∷ cs) p = run_commands cs (run_command c p)

close_each-next : (ids : List String) (p : Publisher) → (close_each ids p).next_queue ≡ p.next_queue
unfolding close_each close
close_each-next [] p = refl
close_each-next (id ∷ ids) p = close_each-next ids (close id p)

run_command-next : (c : Command) (p : Publisher) → p.next_queue ≤ (run_command c p).next_queue
unfolding run_command subscribe unsubscribe publish publish_dict close close_all
run_command-next (subscribing execution_id tenant_id) p = omega arith
run_command-next (unsubscribing execution_id queue) p = omega arith
run_command-next (publishing e) p = omega arith
run_command-next (sending execution_id d) p = omega arith
run_command-next (closing execution_id) p = omega arith
run_command-next closing_all p = omega (arith, close_each-next (keys p.subscribers) p)

-- What an operation sends to an execution besides events: a dict to its execution, or an end.
abbrev pub Sends : Command → String → Item → Type 0
Sends (sending e d) execution_id item = (e ≡ execution_id) × (item ≡ plain_dict d)
Sends (closing e) execution_id item = (e ≡ execution_id) × (item ≡ closed)
Sends closing_all execution_id item = item ≡ closed
Sends _ execution_id item = ⊥

-- One of the operations has sent it.
abbrev pub Sent : List Command → String → Item → Type 0
Sent [] execution_id item = ⊥
Sent (c ∷ cs) execution_id item = Sends c execution_id item ⊎ Sent cs execution_id item

Sent-append_left :
    (cs more : List Command) (execution_id : String) (item : Item)
    → Sent cs execution_id item
    → Sent (cs ++ more) execution_id item
Sent-append_left [] more execution_id item h = elim h [ ]
Sent-append_left (c ∷ cs) more execution_id item (inl h) = inl h
Sent-append_left (c ∷ cs) more execution_id item (inr h) =
    inr (Sent-append_left cs more execution_id item h)

Sent-append_right :
    (cs more : List Command) (execution_id : String) (item : Item)
    → Sent more execution_id item
    → Sent (cs ++ more) execution_id item
Sent-append_right [] more execution_id item h = h
Sent-append_right (c ∷ cs) more execution_id item h =
    inr (Sent-append_right cs more execution_id item h)

module _ (S : String → Item → Type 0) (P : ℕ → String → String → Type 0) where
  run_command-Holds :
      (c : Command) (p : Publisher)
      → ((e : String) (item : Item) → Sends c e item → S e item)
      → (p.next_queue < (run_command c p).next_queue
          → (execution_id tenant_id : String) → P p.next_queue execution_id tenant_id)
      → Holds S P p
      → Holds S P (run_command c p)
  unfolding run_command subscribe close_all
  run_command-Holds (subscribing execution_id tenant_id) p sent new h =
      subscribe-Holds S P execution_id tenant_id p (new (omega arith) execution_id tenant_id) h
  run_command-Holds (unsubscribing execution_id queue) p sent new h =
      unsubscribe-Holds S P execution_id queue p h
  run_command-Holds (publishing e) p sent new h = publish-Holds S P e p h
  run_command-Holds (sending execution_id d) p sent new h =
      publish_dict-Holds S P execution_id d p (sent execution_id (plain_dict d) (refl, refl)) h
  run_command-Holds (closing execution_id) p sent new h =
      close-Holds S P execution_id p (sent execution_id closed (refl, refl)) h
  run_command-Holds closing_all p sent new h =
      close_each-Holds S P (keys p.subscribers) p (λ id. sent id closed refl) h

-- Every queue that is used has been given out.
abbrev IsGiven : ℕ → ℕ → String → String → Type 0
IsGiven bound queue execution_id tenant_id = queue < bound

module _ (S : String → Item → Type 0) where
  Holds-imp :
      (P Q : ℕ → String → String → Type 0) (p : Publisher)
      → ((n : ℕ) (e t : String) → P n e t → Q n e t)
      → Holds S P p
      → Holds S Q p
  Holds-imp P Q p f (h, k) = (
    λ e. All-imp _ _ _ (λ s x. f s.0 e s.1 x) (h e),
    All-imp _ _ _ (λ d (e, t, x, fits). (e, t, f d.0 e t x, fits)) k,
  )

  run_commands-IsGiven :
      (cs : List Command) (p : Publisher)
      → ((e : String) (item : Item) → Sent cs e item → S e item)
      → Holds S (IsGiven p.next_queue) p
      → Holds S (IsGiven (run_commands cs p).next_queue) (run_commands cs p)
  unfolding run_commands
  run_commands-IsGiven [] p sent h = h
  run_commands-IsGiven (c ∷ cs) p sent h =
      run_commands-IsGiven cs (run_command c p) (λ e item x. sent e item (inr x))
        (run_command-Holds S (IsGiven (run_command c p).next_queue) c p
          (λ e item x. sent e item (inl x)) (λ lt e t. lt)
          (Holds-imp _ _ p (λ n e t lt. omega (arith, run_command-next c p)) h))

-- The queue is of this execution and this tenant.
abbrev IsOf : (queue : ℕ) (execution_id tenant_id : String) → ℕ → String → String → Type 0
IsOf queue execution_id tenant_id n e t = n ≡ queue → (e ≡ execution_id) × (t ≡ tenant_id)

run_commands-IsOf :
    (S : String → Item → Type 0) (queue : ℕ) (execution_id tenant_id : String) (cs : List Command)
    (p : Publisher)
    → ((e : String) (item : Item) → Sent cs e item → S e item)
    → queue < p.next_queue
    → Holds S (IsOf queue execution_id tenant_id) p
    → Holds S (IsOf queue execution_id tenant_id) (run_commands cs p)
unfolding run_commands
run_commands-IsOf S queue execution_id tenant_id [] p sent lt h = h
run_commands-IsOf S queue execution_id tenant_id (c ∷ cs) p sent lt h =
    run_commands-IsOf S queue execution_id tenant_id cs (run_command c p)
      (λ e item x. sent e item (inr x)) (omega (arith, run_command-next c p))
      (run_command-Holds S (IsOf queue execution_id tenant_id) c p (λ e item x. sent e item (inl x))
        (λ _ e t. λ same. ground arith) h)

new_publisher-Holds :
    (S : String → Item → Type 0) (P : ℕ → String → String → Type 0) → Holds S P new_publisher
unfolding subscribers_of lookup
new_publisher-Holds S P = (λ e. tt, tt)

In-put_all :
    (item : Item) (s : ℕ × String) (subs : List (ℕ × String))
    → In s subs
    → In (s.0, item) (put_all item subs)
In-put_all item s [] i = elim i [ ]
In-put_all item s (t ∷ subs) (inl e) = inl (ap (λ x. (x.0, item)) e)
In-put_all item s (t ∷ subs) (inr i) = inr (In-put_all item s subs i)

Fits-passes :
    (S : String → Item → Type 0) (e : PublishedEvent) (execution_id tenant_id : String)
    → Fits S execution_id tenant_id (event e)
    → passes e.tenant_id tenant_id ≡ true
unfolding passes
Fits-passes S e execution_id tenant_id (_, inl h) = rw h refl
Fits-passes S e execution_id tenant_id (_, inr (inl h)) = ground arith
Fits-passes S e execution_id tenant_id (_, inr (inr h)) =
    ground (arith, eq_iff tenant_id e.tenant_id)

In-subscribe :
    (execution_id tenant_id : String) (p : Publisher)
    → In
        (p.next_queue, tenant_id)
        (subscribers_of execution_id (subscribe execution_id tenant_id p).1)
unfolding subscribe subscribers_of
In-subscribe execution_id tenant_id p = rw lookup-insert_self (
    In-append_right (p.next_queue, tenant_id) (get_or (lookup execution_id p.subscribers) []) _
      (inl refl))

-- an event that fits is put into the queue of a subscriber
In-publish :
    (S : String → Item → Type 0) (execution_id : String) (s : ℕ × String) (p : Publisher)
    (e : PublishedEvent)
    → In s (subscribers_of execution_id p)
    → Fits S execution_id s.1 (event e)
    → In (s.0, event e) (publish e p).delivered
unfolding publish
In-publish S execution_id s p e i (same, fits) =
    In-append_right (s.0, event e) p.delivered _
      (In-put_all (event e) s _ (
        In-kept (λ x. passes e.tenant_id x.1) s (subscribers_of e.execution_id p)
          (subst (λ x. In s (subscribers_of x p)) (sym same) i)
          (Fits-passes S e execution_id s.1 (same, fits))))

-- a dict is put into the queue of every subscriber, whatever its tenant
In-publish_dict :
    (execution_id : String) (s : ℕ × String) (p : Publisher) (d : Dict Value)
    → In s (subscribers_of execution_id p)
    → In (s.0, plain_dict d) (publish_dict execution_id d p).delivered
unfolding publish_dict
In-publish_dict execution_id s p d i =
    In-append_right (s.0, plain_dict d) p.delivered _ (In-put_all (plain_dict d) s _ i)

-- Everything in the queue, given to a subscription, fits it.
abbrev pub QueueFits :
    (cs : List Command) (queue : ℕ) (execution_id tenant_id : String) → Publisher → Type 0
QueueFits cs queue execution_id tenant_id p =
    All (λ d. d.0 ≡ queue → Fits (Sent cs) execution_id tenant_id d.1) p.delivered

-- Whatever operations come before and after a subscription, each event in the queue that it gave
-- belongs to the execution it subscribed to, and if both the subscription and the event name a
-- tenant, it is the same one; each dict of the older form of `publish` in the queue was sent to
-- this execution, of whatever tenant, and each end belongs to a closing of this execution or of
-- all. And an event for which this holds, or a dict sent to this execution, is put into the queue
-- if it is published right after the subscription.
pub subscribe-Fits :
    (before after : List Command) (execution_id tenant_id : String)
    → QueueFits
        (before ++ after)
        (subscribe execution_id tenant_id (run_commands before new_publisher)).0
        execution_id
        tenant_id
        (run_commands after
          (subscribe execution_id tenant_id (run_commands before new_publisher)).1)
      × ((e : PublishedEvent)
          → Fits (Sent []) execution_id tenant_id (event e)
          → In
              ((subscribe execution_id tenant_id (run_commands before new_publisher)).0, event e)
              (publish e
                (subscribe execution_id tenant_id (run_commands before new_publisher)).1).delivered)
      × ((d : Dict Value)
          → In
              (
                (subscribe execution_id tenant_id (run_commands before new_publisher)).0,
                plain_dict d,
              )
              (publish_dict execution_id d
                (subscribe execution_id tenant_id (run_commands before new_publisher)).1).delivered)
unfolding subscribe
subscribe-Fits before after execution_id tenant_id =
    let p = run_commands before new_publisher in
    let S : String → Item → Type 0 = Sent (before ++ after) in
    let given =
      run_commands-IsGiven S before new_publisher (Sent-append_left before after)
        (new_publisher-Holds S _) in
    let old : Holds S (IsOf p.next_queue execution_id tenant_id) p =
      Holds-imp S _ _ p (λ n e t lt. λ same. ground arith) given in
    let later =
      run_commands-IsOf S p.next_queue execution_id tenant_id after
        (subscribe execution_id tenant_id p).1 (Sent-append_right before after) (omega arith)
        (subscribe-Holds S (IsOf p.next_queue execution_id tenant_id) execution_id tenant_id p
          (λ same. (refl, refl)) old) in
    (
      All-imp _ _ _
          (λ d (e, t, x, fits) same.
            let (of_execution, of_tenant) = x same in
            subst (λ t'. Fits S execution_id t' d.1) of_tenant
              (subst (λ e'. Fits S e' t d.1) of_execution fits))
          later.1,
      λ e fits.
          In-publish (Sent []) execution_id (p.next_queue, tenant_id)
            (subscribe execution_id tenant_id p).1 e (In-subscribe execution_id tenant_id p) fits,
      λ d.
          In-publish_dict execution_id (p.next_queue, tenant_id)
            (subscribe execution_id tenant_id p).1 d (In-subscribe execution_id tenant_id p),
    )
