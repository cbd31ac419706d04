-- ===== src/ControlPlane/Lifecycle/Reachable.antt =====
-- Sequences of operations of control_plane/lifecycle/manager.py, and what the machines of all
-- executions are after them.
use kitematic.Base.{
  ◌≡◌, inl, inr, sym, String, ◌<>◌, str_eq, str_eq_cases, Option, none, some, List, [], ◌∷◌, ◌>>=◌,
  Outcome, returned, raised, arith, if◌then◌else◌,
}
use kitematic.Base.Dict.{lookup, lookup-insert}
use kitematic.ControlPlane.StateMachine.{
  LifecycleError, instance_not_found, StateMachine, new_machine,
}
use kitematic.ControlPlane.Lifecycle.{
  Manager, new_manager, get_machine, store, change, start_execution, stop_execution,
  pause_execution, resume_execution, get_execution_status, get_transition_history, start_machine,
  stop_machine, pause_machine, resume_machine,
}
use kitematic.ControlPlane.Lifecycle.Moves.{
  ◌⇒◌, stay, ⇒-then, MovesTo, start_machine-MovesTo, pause_machine-MovesTo, stop_machine-MovesTo,
  resume_machine-MovesTo, IsOver, over-⇒, begin, IsSound, IsSound-⇒,
}

pub get_machine-store :
    (j k : String) (m : StateMachine) (manager : Manager)
    → get_machine k (store j m manager) ≡ (if str_eq j k then m else get_machine k manager)
unfolding get_machine store
get_machine-store j k m manager = rw lookup-insert (ground arith)

-- From one manager to another, every machine moves by recorded legal transitions.
abbrev pub AllMove : Manager → Manager → Type 0
AllMove a b = (k : String) → get_machine k a ⇒ get_machine k b

AllMove-store :
    (j : String) (m : StateMachine) (a : Manager) → get_machine j a ⇒ m → AllMove a (store j m a)
AllMove-store j m a h k = elim (str_eq_cases j k) [
  | inl (e, p) ↦ rw (get_machine-store, e) (rw (sym p) h)
  | inr (e, n) ↦ rw (get_machine-store, e) stay
]

-- An operation returns a manager to which every machine moves.
abbrev AllMoveTo : Manager → Outcome LifecycleError Manager → Type 0
AllMoveTo a (returned b) = AllMove a b
AllMoveTo a (raised e) = ⊥

change-AllMoveTo :
    (j : String) (f : StateMachine → Outcome LifecycleError StateMachine) (a : Manager)
    → MovesTo (get_machine j a) (f (get_machine j a))
    → AllMoveTo a (change j f a)
unfolding change
change-AllMoveTo j f a h = by_outcome (f (get_machine j a)) h
  where
    by_outcome :
        (o : Outcome LifecycleError StateMachine)
        → MovesTo (get_machine j a) o
        → AllMoveTo a (o >>= λ m. returned (store j m a))
    by_outcome (returned m) k = AllMove-store j m a k
    by_outcome (raised e) k = k

-- The operations that callers have.
pub data Command : Type 0 where
  start_it : (instance_id goal : String) → Command
  stop_it pause_it resume_it status_of history_of : (execution_id : String) → Command

-- an exception ends the operation and leaves the manager as it is
abbrev after : Manager → Outcome LifecycleError Manager → Manager
after a (returned b) = b
after a (raised e) = a

abbrev after_start : Manager → Outcome LifecycleError (String × Manager) → Manager
after_start a (returned (execution_id, b)) = b
after_start a (raised e) = a

after-AllMove :
    (a : Manager) (o : Outcome LifecycleError Manager) → AllMoveTo a o → AllMove a (after a o)
after-AllMove a (returned b) h = h
after-AllMove a (raised e) h = absurd h

module _ {I : Type 0} (get_instance : String → Option I) where
  unfoldable pub command : Command → Manager → Manager
  command (start_it instance_id goal) a =
      after_start a (start_execution get_instance instance_id goal a)
  command (stop_it execution_id) a = after a (stop_execution execution_id a)
  command (pause_it execution_id) a = after a (pause_execution execution_id a)
  command (resume_it execution_id) a = after a (resume_execution execution_id a)
  command (status_of execution_id) a = (get_execution_status execution_id a).1
  command (history_of execution_id) a = (get_transition_history execution_id a).1

  unfoldable pub commands : List Command → Manager → Manager
  commands [] a = a
  commands (c ∷ cs) a = commands cs (command c a)

  start_execution-AllMove :
      (instance_id goal : String) (a : Manager)
      → AllMove a (after_start a (start_execution get_instance instance_id goal a))
  unfolding start_execution
  start_execution-AllMove instance_id goal a = by_instance (get_instance instance_id)
    where
      by_change :
          (o : Outcome LifecycleError Manager)
          → AllMoveTo a o
          → AllMove a (after_start a (o >>= λ b. returned ("exec-" <> instance_id, b)))
      by_change (returned b) h = h
      by_change (raised e) h = absurd h

      by_instance :
          (found : Option I)
          → AllMove a (
              after_start a (elim found [
                | none ↦ raised (instance_not_found instance_id)
                | some _ ↦
                    change ("exec-" <> instance_id) (start_machine instance_id goal) a >>= λ b.
                    returned ("exec-" <> instance_id, b)
              ]))
      by_instance none = λ k. stay
      by_instance (some _) = by_change _ (
          change-AllMoveTo ("exec-" <> instance_id) (start_machine instance_id goal) a
            (start_machine-MovesTo instance_id goal _))

  command-AllMove : (c : Command) (a : Manager) → AllMove a (command c a)
  unfolding command stop_execution pause_execution resume_execution get_execution_status
      get_transition_history
  command-AllMove (start_it instance_id goal) a = start_execution-AllMove instance_id goal a
  command-AllMove (stop_it j) a =
      after-AllMove a _ (change-AllMoveTo j stop_machine a (stop_machine-MovesTo _))
  command-AllMove (pause_it j) a =
      after-AllMove a _ (change-AllMoveTo j pause_machine a (pause_machine-MovesTo _))
  command-AllMove (resume_it j) a =
      after-AllMove a _ (change-AllMoveTo j resume_machine a (resume_machine-MovesTo _))
  command-AllMove (status_of j) a = AllMove-store j _ a stay
  command-AllMove (history_of j) a = AllMove-store j _ a stay

  commands-AllMove : (cs : List Command) (a : Manager) → AllMove a (commands cs a)
  unfolding commands
  commands-AllMove [] a k = stay
  commands-AllMove (c ∷ cs) a k =
      ⇒-then (command-AllMove c a k) (commands-AllMove cs (command c a) k)

  -- Whatever operations come first, the history of every execution is a sequence of legal
  -- transitions from PENDING to its current state; and none is ever COMPLETED, since no operation
  -- of the manager completes an execution.
  pub commands-IsSound :
      (cs : List Command) (k : String) → IsSound (get_machine k (commands cs new_manager))
  commands-IsSound cs k =
      IsSound-⇒ (commands-AllMove cs new_manager k)
        (unfold get_machine lookup new_machine in (begin, ground arith))

  -- Once an execution is COMPLETED or FAILED, no operation changes its state or its history.
  pub over_for_good :
      (cs : List Command) (k : String) (a : Manager)
      → IsOver (get_machine k a)
      → get_machine k (commands cs a) ≡ get_machine k a
  over_for_good cs k a h = over-⇒ (commands-AllMove cs a k) h
