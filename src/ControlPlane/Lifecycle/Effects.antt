-- ===== src/ControlPlane/Lifecycle/Effects.antt =====
-- Where each operation of control_plane/lifecycle/manager.py leads from each state.
use kitematic.Base.{
  ◌≢◌, ◌≡◌, refl, String, eq_refl, eq_iff, List, Outcome, returned, raised, ◌>>=◌, arith,
}
use kitematic.ControlPlane.StateMachine.{
  ExecutionStatus, pending, running, paused, resuming, completed, failed, is_legal, StateTransition,
  LifecycleError, StateMachine, can_transition, transition,
}
use kitematic.ControlPlane.Lifecycle.{
  Manager, get_machine, store, change, stop_execution, pause_execution, resume_execution,
  try_transition, stop_machine, pause_machine, resume_machine,
}
use kitematic.ControlPlane.Lifecycle.Reachable.{get_machine-store}

-- The state after an operation, by the state before it.
unfoldable pub after_stop : ExecutionStatus → ExecutionStatus
after_stop completed = completed
after_stop _ = failed

unfoldable pub after_pause : ExecutionStatus → ExecutionStatus
after_pause running = paused
after_pause other = other

unfoldable pub after_resume : ExecutionStatus → ExecutionStatus
after_resume pending = running
after_resume paused = running
after_resume resuming = running
after_resume other = other

-- The operation `f` returns a machine in the state `t`.
abbrev LeadsTo :
    (StateMachine → Outcome LifecycleError StateMachine) → StateMachine → ExecutionStatus → Type 0
LeadsTo f m t = (m' : StateMachine) × (f m ≡ returned m') × (m'.current_state ≡ t)

stop_machine-LeadsTo :
    (s : ExecutionStatus) (h : List StateTransition)
    → LeadsTo stop_machine (record { current_state = s; history = h }) (after_stop s)
unfolding stop_machine try_transition transition can_transition is_legal after_stop
stop_machine-LeadsTo pending h = (_, refl, refl)
stop_machine-LeadsTo _ h = (_, refl, refl)

pause_machine-LeadsTo :
    (s : ExecutionStatus) (h : List StateTransition)
    → LeadsTo pause_machine (record { current_state = s; history = h }) (after_pause s)
unfolding pause_machine try_transition transition can_transition is_legal after_pause
pause_machine-LeadsTo pending h = (_, refl, refl)
pause_machine-LeadsTo _ h = (_, refl, refl)

resume_machine-LeadsTo :
    (s : ExecutionStatus) (h : List StateTransition)
    → LeadsTo resume_machine (record { current_state = s; history = h }) (after_resume s)
unfolding resume_machine try_transition transition can_transition is_legal after_resume
resume_machine-LeadsTo pending h = (_, refl, refl)
resume_machine-LeadsTo _ h = (_, refl, refl)

-- The operation returns a manager with the execution `j` in the state `t`.
abbrev pub Brings : String → Outcome LifecycleError Manager → ExecutionStatus → Type 0
Brings j o t = (b : Manager) × (o ≡ returned b) × ((get_machine j b).current_state ≡ t)

change-Brings :
    (j : String) (f : StateMachine → Outcome LifecycleError StateMachine) (a : Manager)
    (t : ExecutionStatus)
    → LeadsTo f (get_machine j a) t
    → Brings j (change j f a) t
unfolding change
change-Brings j f a t (m, e, s) = (store j m a, rw e refl, rw (get_machine-store, eq_refl) s)

-- Stopping, pausing and resuming an execution always return, and bring it from its state to the
-- state of the table: stopping ends it, pausing only stops a RUNNING one, and resuming also
-- starts one that is PENDING.
pub operations-Brings :
    (j : String) (a : Manager)
    → let s = (get_machine j a).current_state in
      Brings j (stop_execution j a) (after_stop s)
      × Brings j (pause_execution j a) (after_pause s)
      × Brings j (resume_execution j a) (after_resume s)
unfolding stop_execution pause_execution resume_execution
operations-Brings j a =
    let m = get_machine j a in
    (
      change-Brings j stop_machine a _ (stop_machine-LeadsTo m.current_state m.history),
      change-Brings j pause_machine a _ (pause_machine-LeadsTo m.current_state m.history),
      change-Brings j resume_machine a _ (resume_machine-LeadsTo m.current_state m.history),
    )

-- An operation on one execution leaves the machine of every other as it was.
pub change-others :
    (j k : String) (f : StateMachine → Outcome LifecycleError StateMachine) (a b : Manager)
    → j ≢ k
    → change j f a ≡ returned b
    → get_machine k b ≡ get_machine k a
unfolding change
change-others j k f a b n h = by_outcome (f (get_machine j a)) h
  where
    get_machine-store_ne : (m : StateMachine) → get_machine k (store j m a) ≡ get_machine k a
    get_machine-store_ne m = rw get_machine-store (ground (arith, eq_iff j k))

    by_outcome :
        (o : Outcome LifecycleError StateMachine)
        → (o >>= λ m. returned (store j m a)) ≡ returned b
        → get_machine k b ≡ get_machine k a
    by_outcome (raised e) h = cc
    by_outcome (returned m) h = cc (get_machine-store_ne m)
