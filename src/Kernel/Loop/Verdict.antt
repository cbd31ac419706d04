-- ===== src/Kernel/Loop/Verdict.antt =====
-- What the termination reason of a loop's result says of the run (kernel/lifecycle.py).
use kitematic.Base.{
  ap, ◌∙◌, ℕ, String, lower, sym, if◌then◌else◌, ◌≡◌, ◌↔◌, refl, Bool, true, false, List, Outcome,
  returned, raised, arith,
}
use kitematic.Kernel.States.{RuntimeState, running, draining, stopped}
use kitematic.Kernel.Errors.{Error}
use kitematic.Kernel.Budget.{Budget}
use kitematic.Kernel.Events.{EventLog}
use kitematic.Kernel.Contracts.{Collaborators, Intent, ExecutionResult, or_text}
use kitematic.Kernel.Runtime.{Runtime}
use kitematic.Kernel.Loop.Classify.{LoopTermination, completed, classify_lower, classify_failure}
use kitematic.Kernel.Loop.Defs.{
  LoopResult, LoopError, budget_limit, time_limit, failure, Controller, Clock,
}
use kitematic.Kernel.Loop.Run.{
  handle, consumed, executed, checked, by_loop_state, run_logged, run_intent,
}

is_completed : LoopTermination → Bool
is_completed completed = true
is_completed other = false

is_completed_iff : (reason : LoopTermination) → is_completed reason ≡ true ↔ reason ≡ completed
unfolding is_completed
is_completed_iff completed = (λ h. refl, λ h. refl)
is_completed_iff other = (λ h. ground arith, λ h. ap is_completed h)

is_completed-classify_lower : (error : List ℕ) → is_completed (classify_lower error) ≡ false
unfolding classify_lower is_completed
is_completed-classify_lower error = ground arith

-- A result's success flag says whether its reason is the goal's.
Agrees : LoopResult → Type 0
Agrees res = res.success ≡ is_completed res.termination_reason

module _ {S : Type 0} (ops : Collaborators S) (isoformat seconds_text : ℕ → String) (clock : Clock)
    (intent : Intent) where
  handle-Agrees :
      (e : LoopError) (c : Controller S) (log : EventLog)
      → Agrees (handle ops isoformat seconds_text clock intent e c log).0
  unfolding handle is_completed Agrees
  handle-Agrees (budget_limit _ _) c log = refl
  handle-Agrees (time_limit _ _) c log = refl
  handle-Agrees (failure _) c log = refl

  loop_result-Agrees :
      (flag : Bool) (error : List ℕ)
      → flag ≡ is_completed (if flag then completed else classify_lower error)
  unfolding is_completed
  loop_result-Agrees true error = refl
  loop_result-Agrees false error = sym (is_completed-classify_lower error)

  consumed-Agrees :
      (res : ExecutionResult) (c : Controller S) (log : EventLog) (b : Outcome Error Budget)
      → Agrees (consumed ops isoformat seconds_text clock intent res c log b).0
  unfolding consumed Agrees classify_failure
  consumed-Agrees res c log (raised e) = handle-Agrees (failure e) c log
  consumed-Agrees res c log (returned b) =
      loop_result-Agrees res.success (lower (or_text res.error ""))

  executed-Agrees :
      (c : Controller S) (log : EventLog) (run : Outcome Error ExecutionResult × Runtime S)
      → Agrees (executed ops isoformat seconds_text clock intent c log run).0
  unfolding executed
  executed-Agrees c log (raised e, r) = handle-Agrees (failure e) (record c { runtime = r }) log
  executed-Agrees c log (returned res, r) = consumed-Agrees res _ _ _

  checked-Agrees :
      (c : Controller S) (log : EventLog) (check : Outcome LoopError (Unit {0}))
      → Agrees (checked ops isoformat seconds_text clock intent c log check).0
  unfolding checked
  checked-Agrees c log (raised e) = handle-Agrees e c log
  checked-Agrees c log (returned _) = executed-Agrees c _ _

  by_loop_state-Agrees :
      (state : RuntimeState) (c : Controller S)
      → Agrees (by_loop_state ops isoformat seconds_text clock intent state c).0
  unfolding by_loop_state Agrees is_completed
  by_loop_state-Agrees running c = checked-Agrees _ _ _
  by_loop_state-Agrees draining c = refl
  by_loop_state-Agrees stopped c = refl

  -- A call of `run_intent` reports success exactly when its termination reason is COMPLETED.
  pub success_iff-completed :
      (c : Controller S)
      → (run_intent ops isoformat seconds_text clock intent c).0.success ≡ true
        ↔ (run_intent ops isoformat seconds_text clock intent c).0.termination_reason ≡ completed
  unfolding run_intent run_logged Agrees
  success_iff-completed c =
      let e = by_loop_state-Agrees c.state c in
      let reason = is_completed_iff _ in (λ h. reason.0 (sym e ∙ h), λ h. e ∙ reason.1 h)
