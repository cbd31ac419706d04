-- ===== src/Kernel/Loop/Steps.antt =====
-- The steps of `run_multi_step` of kernel/lifecycle.py: how many there are, and when they end.
use kitematic.Base.{
  ℕ, ◌+◌, ◌≤◌, ◌<◌, String, ◌≡◌, refl, Bool, true, false, Option, none, some, List, [], ◌∷◌, length,
  Outcome, returned, raised, arith,
}
use kitematic.Kernel.States.{RuntimeState, running, draining, stopped}
use kitematic.Kernel.Errors.{Error}
use kitematic.Kernel.Budget.Limits.{OneStep, consume_step-OneStep}
use kitematic.Kernel.Budget.{
  Budget, start, start_from, is_exhausted, is_steps_exhausted, steps_remaining,
}
use kitematic.Kernel.Events.{EventLog}
use kitematic.Kernel.Contracts.{Collaborators, Intent, ExecutionResult}
use kitematic.Kernel.Runtime.{Runtime}
use kitematic.Kernel.Loop.Defs.{
  LoopResult, LoopError, budget_limit, time_limit, failure, Controller, Clock,
}
use kitematic.Kernel.Loop.Run.{
  handle, consumed, executed, checked, by_loop_state, run_logged, run_intent, Step, run_multi_step,
  next_step,
}

-- From the budget `b` before a call to its result `res` and the budget `b'`: the limits stay, the
-- steps grow by at most one, and a success takes one that was left.
StepTaken : Budget → LoopResult → Budget → Type 0
StepTaken b res b' =
    (b'.max_steps ≡ b.max_steps)
    × (b.current_steps ≤ b'.current_steps)
    × (res.success ≡ true
        → (b'.current_steps ≡ b.current_steps + 1) × (b.current_steps < b.max_steps))

failed-StepTaken : (b : Budget) (res : LoopResult) → res.success ≡ false → StepTaken b res b
unfolding StepTaken
failed-StepTaken b res h = (refl, ground arith, λ ok. ground arith)

module _ {S : Type 0} (ops : Collaborators S) (isoformat seconds_text : ℕ → String) (clock : Clock)
    (intent : Intent) where
  handle-StepTaken :
      (e : LoopError) (c : Controller S) (log : EventLog)
      → let (res, c', log') = handle ops isoformat seconds_text clock intent e c log in
        StepTaken c.budget res c'.budget
  unfolding handle
  handle-StepTaken (budget_limit _ _) c log = failed-StepTaken _ _ refl
  handle-StepTaken (time_limit _ _) c log = failed-StepTaken _ _ refl
  handle-StepTaken (failure _) c log = failed-StepTaken _ _ refl

  consumed-StepTaken :
      (res : ExecutionResult) (c : Controller S) (log : EventLog) (step : Outcome Error Budget)
      → OneStep c.budget 0 step
      → let (res', c', log') = consumed ops isoformat seconds_text clock intent res c log step in
        StepTaken c.budget res' c'.budget
  unfolding consumed OneStep StepTaken
  consumed-StepTaken res c log (raised e) h = handle-StepTaken (failure e) c log
  consumed-StepTaken res c log (returned b) (same, next, tokens, left) =
      (same, ground arith, λ ok. (next, left))

  executed-StepTaken :
      (c : Controller S) (log : EventLog) (run : Outcome Error ExecutionResult × Runtime S)
      → let (res', c', log') = executed ops isoformat seconds_text clock intent c log run in
        StepTaken c.budget res' c'.budget
  unfolding executed
  executed-StepTaken c log (raised e, r) =
      handle-StepTaken (failure e) (record c { runtime = r }) log
  executed-StepTaken c log (returned res, r) =
      consumed-StepTaken res _ _ _ (consume_step-OneStep c.budget clock.at_consume 0)

  checked-StepTaken :
      (c : Controller S) (log : EventLog) (check : Outcome LoopError (Unit {0}))
      → let (res', c', log') = checked ops isoformat seconds_text clock intent c log check in
        StepTaken c.budget res' c'.budget
  unfolding checked
  checked-StepTaken c log (raised e) = handle-StepTaken e c log
  checked-StepTaken c log (returned _) = executed-StepTaken c _ _

  start_from-StepTaken :
      (started : Option ℕ) (b : Budget) (now : ℕ) (res : LoopResult) (b' : Budget)
      → StepTaken (start_from started now b) res b'
      → StepTaken b res b'
  unfolding start_from StepTaken
  start_from-StepTaken none b now res b' h = h
  start_from-StepTaken (some _) b now res b' h = h

  by_loop_state-StepTaken :
      (state : RuntimeState) (c : Controller S)
      → let (res', c', log') = by_loop_state ops isoformat seconds_text clock intent state c in
        StepTaken c.budget res' c'.budget
  unfolding by_loop_state start
  by_loop_state-StepTaken running c =
      start_from-StepTaken c.budget.started_at c.budget clock.at_start _ _ (checked-StepTaken _ _ _)
  by_loop_state-StepTaken draining c = failed-StepTaken _ _ refl
  by_loop_state-StepTaken stopped c = failed-StepTaken _ _ refl

  run_intent-StepTaken :
      (c : Controller S)
      → let (res', c') = run_intent ops isoformat seconds_text clock intent c in
        StepTaken c.budget res' c'.budget
  unfolding run_intent run_logged
  run_intent-StepTaken c = by_loop_state-StepTaken c.state c

-- All results but the last are successes.
unfoldable pub StopsAtFailure : List LoopResult → Type 0
StopsAtFailure [] = Unit
StopsAtFailure (res ∷ []) = Unit
StopsAtFailure (res ∷ results) = (res.success ≡ true) × StopsAtFailure results

StopsAtFailure-cons :
    (res : LoopResult) (results : List LoopResult)
    → res.success ≡ true
    → StopsAtFailure results
    → StopsAtFailure (res ∷ results)
unfolding StopsAtFailure
StopsAtFailure-cons res [] ok h = tt
StopsAtFailure-cons res (r ∷ results) ok h = (ok, h)

-- The results stop at a failure, and there are at most `n` of them.
AllSteps : List LoopResult → ℕ → Type 0
AllSteps results n = StopsAtFailure results × (length results ≤ n)

module _ {S : Type 0} where
  next_step-AllSteps :
      (exhausted success : Bool) (c : Controller S) (this : LoopResult × Controller S)
      (rest : List LoopResult × Controller S)
      → this.0.success ≡ success
      → (exhausted ≡ false → c.budget.current_steps < c.budget.max_steps)
      → StepTaken c.budget this.0 this.1.budget
      → AllSteps rest.0 (steps_remaining this.1.budget)
      → AllSteps (next_step exhausted success c this rest).0 (steps_remaining c.budget)
  unfolding next_step AllSteps StepTaken StopsAtFailure steps_remaining
  next_step-AllSteps true success c (res, c') (results, c'') e some_left _ _ = (tt, omega arith)
  next_step-AllSteps false true c (res, c') (results, c'') e some_left (same, up, taken)
        (stops, few) =
      let (next, left) = taken e in (StopsAtFailure-cons res results e stops, omega arith)
  next_step-AllSteps false false c (res, c') (results, c'') e some_left taken all =
      let left = some_left refl in (tt, omega arith)

not_exhausted : (b : Budget) (now : ℕ) → is_exhausted b now ≡ false → b.current_steps < b.max_steps
unfolding is_exhausted is_steps_exhausted
not_exhausted b now h = ground arith

module _ {S : Type 0} (ops : Collaborators S) (isoformat seconds_text : ℕ → String) where
  -- the results of a run of several steps
  run_multi_step-AllSteps :
      (steps : List Step) (c : Controller S)
      → AllSteps (run_multi_step ops isoformat seconds_text steps c).0 (steps_remaining c.budget)
  unfolding run_multi_step
  run_multi_step-AllSteps [] c = unfold AllSteps StopsAtFailure in (tt, omega arith)
  run_multi_step-AllSteps (step ∷ steps) c =
      let this = run_intent ops isoformat seconds_text step.clock step.intent c in
      next_step-AllSteps _ _ c this (run_multi_step ops isoformat seconds_text steps this.1) refl
        (not_exhausted c.budget step.before)
        (run_intent-StepTaken ops isoformat seconds_text step.clock step.intent c)
        (run_multi_step-AllSteps steps this.1)

  -- `run_multi_step` returns at most as many results as the budget has steps left, and all of them
  -- but the last are successes.
  pub run_multi_step_lem :
      (steps : List Step) (c : Controller S)
      → let results = (run_multi_step ops isoformat seconds_text steps c).0 in
        (length results ≤ steps_remaining c.budget) × StopsAtFailure results
  unfolding AllSteps
  run_multi_step_lem steps c = let (stops, few) = run_multi_step-AllSteps steps c in (few, stops)
