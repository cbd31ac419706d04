-- ===== src/Kernel/Publisher/Tenants.antt =====
-- Which events reach a subscriber (kernel/events/memory.py).
use mathlib.Core.Path.{subst}
use kitematic.Base.{
  ℕ, String, is_empty, ◌≡◌, ◌⊎◌, inl, inr, refl, Bool, true, List, [], ◌∷◌, ◌++◌, select, All,
  All-append, All-imp, arith, eq_iff, str_eq_cases, Bool-cases,
}
use kitematic.Base.Dict.{Dict, insert, erase, lookup-insert, lookup-erase}
use kitematic.Kernel.Values.{Value}
use kitematic.Kernel.Publisher.{
  PublishedEvent, Item, event, plain_dict, closed, Publisher, subscribers_of, subscribe,
  unsubscribe, passes, put_all, publish, publish_dict, close, close_each,
}

-- What may stand in a queue of an execution and a tenant: of events, those of this execution, and
-- of this tenant if both name one; of dicts and ends, those that were sent to this execution, which
-- `Sent` tells.
abbrev pub Fits : (Sent : String → Item → Type 0) (execution_id tenant_id : String) → Item → Type 0
Fits Sent execution_id tenant_id (event e) =
    (e.execution_id ≡ execution_id)
    × ((is_empty tenant_id ≡ true) ⊎ (is_empty e.tenant_id ≡ true) ⊎ (e.tenant_id ≡ tenant_id))
Fits Sent execution_id tenant_id (plain_dict d) = Sent execution_id (plain_dict d)
Fits Sent execution_id tenant_id closed = Sent execution_id closed

passes-Fits :
    (Sent : String → Item → Type 0) (e : PublishedEvent) (tenant_id : String)
    → passes e.tenant_id tenant_id ≡ true
    → Fits Sent e.execution_id tenant_id (event e)
unfolding passes
passes-Fits Sent e tenant_id h = (refl, ground (arith, eq_iff tenant_id e.tenant_id))

module _ (Sent : String → Item → Type 0) (P : ℕ → String → String → Type 0) where
  -- `P` holds of every subscription, and of every item with one that it fits.
  abbrev pub SubscribersHold : Publisher → Type 0
  SubscribersHold p =
      (execution_id : String) → All (λ s. P s.0 execution_id s.1) (subscribers_of execution_id p)

  abbrev pub ItemHolds : ℕ × Item → Type 0
  ItemHolds d =
      (execution_id : String) × (tenant_id : String) × P d.0 execution_id tenant_id
      × Fits Sent execution_id tenant_id d.1

  put_all-Holds :
      (execution_id : String) (item : Item) (subs : List (ℕ × String))
      → All (λ s. P s.0 execution_id s.1 × Fits Sent execution_id s.1 item) subs
      → All ItemHolds (put_all item subs)
  put_all-Holds execution_id item [] h = tt
  put_all-Holds execution_id item (s ∷ subs) ((h, k), hs) =
      ((execution_id, s.1, h, k), put_all-Holds execution_id item subs hs)

  All-select :
      (Q : ℕ × String → Type 0) (test : ℕ × String → Bool) (subs : List (ℕ × String))
      → All Q subs
      → All (λ s. Q s × (test s ≡ true)) (select test subs)
  All-select Q test [] h = tt
  All-select Q test (s ∷ subs) (h, hs) = elim (Bool-cases (test s)) [
    | inl e ↦ rw e ((h, e), All-select Q test subs hs)
    | inr e ↦ rw e (All-select Q test subs hs)
  ]

  All-kept :
      (Q : ℕ × String → Type 0) (test : ℕ × String → Bool) (subs : List (ℕ × String))
      → All Q subs
      → All Q (select test subs)
  All-kept Q test subs h = All-imp _ _ _ (λ s (q, _). q) (All-select Q test subs h)

  insert-SubscribersHold :
      (p p' : Publisher) (execution_id : String) (subs : List (ℕ × String))
      → p'.subscribers ≡ insert execution_id subs p.subscribers
      → All (λ s. P s.0 execution_id s.1) subs
      → SubscribersHold p
      → SubscribersHold p'
  unfolding subscribers_of
  insert-SubscribersHold p p' execution_id subs same h hs e = elim (str_eq_cases execution_id e) [
    | inl (b, q) ↦ rw (same, lookup-insert, b) (subst (λ x. All (λ s. P s.0 x s.1) subs) q h)
    | inr (b, n) ↦ rw (same, lookup-insert, b) (hs e)
  ]

  erase-SubscribersHold :
      (p p' : Publisher) (execution_id : String)
      → p'.subscribers ≡ erase execution_id p.subscribers
      → SubscribersHold p
      → SubscribersHold p'
  unfolding subscribers_of
  erase-SubscribersHold p p' execution_id same hs e = elim (str_eq_cases execution_id e) [
    | inl (b, q) ↦ rw (same, lookup-erase, b) tt
    | inr (b, n) ↦ rw (same, lookup-erase, b) (hs e)
  ]

  abbrev pub Holds : Publisher → Type 0
  Holds p = SubscribersHold p × All ItemHolds p.delivered

  -- what is put to the subscribers of an execution
  put-Holds :
      (p : Publisher) (execution_id : String) (item : Item)
      → ((tenant_id : String) → Fits Sent execution_id tenant_id item)
      → Holds p
      → All ItemHolds (p.delivered ++ put_all item (subscribers_of execution_id p))
  put-Holds p execution_id item f (h, k) =
      All-append ItemHolds _ _ k
        (put_all-Holds execution_id item _ (All-imp _ _ _ (λ s q. (q, f s.1)) (h execution_id)))

  pub subscribe-Holds :
      (execution_id tenant_id : String) (p : Publisher)
      → P p.next_queue execution_id tenant_id
      → Holds p
      → Holds (subscribe execution_id tenant_id p).1
  unfolding subscribe
  subscribe-Holds execution_id tenant_id p new (h, k) = (
    insert-SubscribersHold p (subscribe execution_id tenant_id p).1 execution_id _ refl
        (All-append _ _ _ (h execution_id) (new, tt)) h,
    k,
  )

  pub unsubscribe-Holds :
      (execution_id : String) (queue : ℕ) (p : Publisher)
      → Holds p
      → Holds (unsubscribe execution_id queue p)
  unfolding unsubscribe
  unsubscribe-Holds execution_id queue p (h, k) = (
    insert-SubscribersHold p (unsubscribe execution_id queue p) execution_id _ refl
        (All-kept _ _ _ (h execution_id)) h,
    k,
  )

  pub publish-Holds : (e : PublishedEvent) (p : Publisher) → Holds p → Holds (publish e p)
  unfolding publish
  publish-Holds e p (h, k) = (
    h,
    All-append ItemHolds _ _ k (
        put_all-Holds e.execution_id (event e) _ (
          All-imp _ _ _ (λ s (q, t). (q, passes-Fits Sent e s.1 t))
            (All-select _ (λ s. passes e.tenant_id s.1) _ (h e.execution_id)))),
  )

  pub publish_dict-Holds :
      (execution_id : String) (d : Dict Value) (p : Publisher)
      → Sent execution_id (plain_dict d)
      → Holds p
      → Holds (publish_dict execution_id d p)
  unfolding publish_dict
  publish_dict-Holds execution_id d p sent h =
      (h.0, put-Holds p execution_id (plain_dict d) (λ _. sent) h)

  pub close-Holds :
      (execution_id : String) (p : Publisher)
      → Sent execution_id closed
      → Holds p
      → Holds (close execution_id p)
  unfolding close
  close-Holds execution_id p sent h = (
    erase-SubscribersHold p (close execution_id p) execution_id refl h.0,
    put-Holds p execution_id closed (λ _. sent) h,
  )

  pub close_each-Holds :
      (ids : List String) (p : Publisher)
      → ((id : String) → Sent id closed)
      → Holds p
      → Holds (close_each ids p)
  unfolding close_each
  close_each-Holds [] p sent h = h
  close_each-Holds (id ∷ ids) p sent h = close_each-Holds ids _ sent (close-Holds id p (sent id) h)
