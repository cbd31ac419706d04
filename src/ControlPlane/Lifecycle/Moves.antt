-- ===== src/ControlPlane/Lifecycle/Moves.antt =====
-- What an operation of control_plane/lifecycle/manager.py does to one machine.
use kitematic.Base.{
  ◌||◌, ◌>>=◌, ◌≢◌, ◌≡◌, ◌⊎◌, inl, inr, refl, String, true, false, List, [], ◌∷◌, ◌++◌, Outcome,
  returned, raised, Bool-cases,
}
use kitematic.Base.Dict.{Dict}
use kitematic.ControlPlane.StateMachine.{
  same_status, ExecutionStatus, pending, running, paused, resuming, completed, failed, is_legal,
  StateTransition, LifecycleError, StateMachine, can_transition, transition, step_to, moved,
  legal_transitions,
}
use kitematic.ControlPlane.Lifecycle.{
  try_transition, stop_machine, pause_machine, resume_machine, start_machine,
}

-- `m ⇒ m'`: from `m` to `m'` by recorded legal transitions, none of them to COMPLETED.
infix 40 ◌⇒◌
pub data ◌⇒◌ : StateMachine → StateMachine → Type 0 where
  stay : {m : StateMachine} → m ⇒ m
  move :
      {m m' : StateMachine} (step : StateTransition)
      → step.from_state ≡ m.current_state
      → is_legal m.current_state step.to_state ≡ true
      → step.to_state ≢ completed
      → moved m step ⇒ m'
      → m ⇒ m'

pub ⇒-then : {m m' m'' : StateMachine} → m ⇒ m' → m' ⇒ m'' → m ⇒ m''
⇒-then stay k = k
⇒-then (move step e l n h) k = move step e l n (⇒-then h k)

-- An outcome that returns, with a machine that `m` moves to.
abbrev pub MovesTo : StateMachine → Outcome LifecycleError StateMachine → Type 0
MovesTo m (returned m') = m ⇒ m'
MovesTo m (raised e) = ⊥

module _ (target : ExecutionStatus) (reason actor : String) (metadata : Dict String) where
  try_transition-MovesTo :
      (m : StateMachine)
      → target ≢ completed
      → MovesTo m (try_transition target reason actor metadata m)
  unfolding try_transition transition can_transition
  try_transition-MovesTo m n = elim (Bool-cases (is_legal m.current_state target)) [
    | inl e ↦ rw e (move (step_to m target reason actor metadata) refl e n stay)
    | inr e ↦ rw e stay
  ]

not_completed : (s : ExecutionStatus) → same_status s completed ≡ false → s ≢ completed
not_completed s h e = cc

pub start_machine-MovesTo :
    (instance_id goal : String) (m : StateMachine) → MovesTo m (start_machine instance_id goal m)
unfolding start_machine
start_machine-MovesTo instance_id goal m =
    try_transition-MovesTo running _ _ _ m (not_completed running refl)

pub pause_machine-MovesTo : (m : StateMachine) → MovesTo m (pause_machine m)
unfolding pause_machine
pause_machine-MovesTo m = try_transition-MovesTo paused _ _ _ m (not_completed paused refl)

pub stop_machine-MovesTo : (m : StateMachine) → MovesTo m (stop_machine m)
unfolding stop_machine
stop_machine-MovesTo m =
    elim (Bool-cases
      (same_status m.current_state completed || same_status m.current_state failed)) [
        | inl e ↦ rw e stay
        | inr e ↦ rw e (
            try_transition-MovesTo failed "user_stopped" "lifecycle_manager" [] m
              (not_completed failed refl))
      ]

resumed-MovesTo :
    (m : StateMachine) (o : Outcome LifecycleError StateMachine)
    → MovesTo m o
    → MovesTo m (o >>= try_transition running "step_execution_started" "orchestrator" [])
resumed-MovesTo m (raised e) h = h
resumed-MovesTo m (returned m') h = MovesTo-after m m' h _ (
    try_transition-MovesTo running "step_execution_started" "orchestrator" [] m'
      (not_completed running refl))
  where
    MovesTo-after :
        (m m' : StateMachine)
        → m ⇒ m'
        → (o : Outcome LifecycleError StateMachine) → MovesTo m' o
        → MovesTo m o
    MovesTo-after m m' h (returned m'') k = ⇒-then h k
    MovesTo-after m m' h (raised e) k = k

pub resume_machine-MovesTo : (m : StateMachine) → MovesTo m (resume_machine m)
unfolding resume_machine
resume_machine-MovesTo m = resumed-MovesTo m _ (
    try_transition-MovesTo resuming "user_resumed" "lifecycle_manager" [] m
      (not_completed resuming refl))

-- The states without a way out.
abbrev pub IsOver : StateMachine → Type 0
IsOver m = (m.current_state ≡ completed) ⊎ (m.current_state ≡ failed)

over_has_no_move : (s t : ExecutionStatus) → (s ≡ completed) ⊎ (s ≡ failed) → is_legal s t ≡ false
unfolding is_legal legal_transitions
over_has_no_move s t (inl e) = rw e refl
over_has_no_move s t (inr e) = rw e refl

pub over-⇒ : {m m' : StateMachine} → m ⇒ m' → IsOver m → m' ≡ m
over-⇒ stay h = refl
over-⇒ (move {m = m} step e l n k) h = cc (over_has_no_move m.current_state step.to_state h)

-- A history of legal transitions, each from the state that the one before it reached.
pub data IsTrace : ExecutionStatus → List StateTransition → ExecutionStatus → Type 0 where
  begin : {s : ExecutionStatus} → IsTrace s [] s
  next :
      {s t : ExecutionStatus} {history : List StateTransition} (step : StateTransition)
      → IsTrace s history t
      → step.from_state ≡ t
      → is_legal t step.to_state ≡ true
      → IsTrace s (history ++ step ∷ []) step.to_state

-- A machine that has come from PENDING by its recorded history, and is not COMPLETED.
abbrev pub IsSound : StateMachine → Type 0
IsSound m = IsTrace pending m.history m.current_state × (m.current_state ≢ completed)

pub IsSound-⇒ : {m m' : StateMachine} → m ⇒ m' → IsSound m → IsSound m'
IsSound-⇒ stay h = h
IsSound-⇒ (move step e l n k) (trace, _) = IsSound-⇒ k (next step trace e l, n)
