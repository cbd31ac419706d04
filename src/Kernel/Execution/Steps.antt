-- ===== src/Kernel/Execution/Steps.antt =====
-- The steps of one execution on one context (kernel/execution/in_memory.py): their count in the
-- state, and the budget as their bound.
use kitematic.Base.{
  ℕ, ◌+◌, ◌*◌, ◌-◌, ◌<◌, ◌≤◌, inl, inr, String, ◌≡◌, ◌∙◌, refl, sym, Bool, true, false, Option,
  List, [], ◌∷◌, leb, arith, Outcome, returned, raised, if◌then◌else◌,
}
use mathlib.Core.Path.{subst}
use kitematic.Base.Dict.{Dict}
use kitematic.Kernel.Values.{Value}
use kitematic.Storage.Repository.{Repository}
use kitematic.Kernel.Execution.{
  ℤ, pos, negsuc, difference, minus, is_positive, StepRequest, StepResponse, ExecutionContext,
  charged, step_response, execute_step,
}
use kitematic.Kernel.Execution.Step.{
  HasSeen, step_response-HasSeen, Completes, Charges, prepared-ready, steps_eq,
  execute_step-Completes, execute_step-Charges,
}

-- What a sequence of steps ends with.
pub record Progress : Type 0 where
  pub completed_steps : ℕ
  pub state : Dict Value
  pub context : ExecutionContext

abbrev pub one_more : Progress → Progress
one_more p = record p { completed_steps = p.completed_steps + 1 }

module _ (type_text : Value → String) {R : Type 0} (repository : Option (Repository R)) where
  unfoldable pub after_step :
      (StepRequest → ExecutionContext → R → Progress)
      → StepRequest
      → Outcome String StepResponse × ExecutionContext × R
      → Progress
  after_step go request (raised e, context, r) = record {
    completed_steps = 0;
    state = request.state;
    context = context;
  }
  after_step go request (returned response, context, r) =
      one_more (go (record request { state = response.updated_state }) context r)

  -- Steps one after the other on one context, each with the goal and the identifier of a checkpoint
  -- that are listed, and on the state that the step before it gave, up to the first exception.
  unfoldable pub run_steps : List (String × String) → StepRequest → ExecutionContext → R → Progress
  unfolding after_step
  run_steps [] request context r = record {
    completed_steps = 0;
    state = request.state;
    context = context;
  }
  run_steps ((goal, checkpoint_id) ∷ steps) request context r =
      after_step (run_steps steps) request
        (execute_step type_text repository checkpoint_id (record request { goal = goal }) context r)

  -- What the budget allows: at least one token is left before each step.
  abbrev pub Allows : ℤ → (tokens_per_step completed_steps : ℕ) → Type 0
  Allows (pos b) tokens n = n * tokens < b + tokens
  Allows (negsuc b) tokens n = n ≡ 0

  Allows-suc :
      (budget : ℤ) (tokens n : ℕ)
      → is_positive budget ≡ true
      → Allows (minus budget tokens) tokens n
      → Allows budget tokens (n + 1)
  unfolding is_positive minus difference
  Allows-suc (pos b) tokens n positive h = by_test (leb tokens b) refl h
    where
      by_test :
          (test : Bool)
          → leb tokens b ≡ test
          → Allows (if test then pos (b - tokens) else negsuc (tokens - b - 1)) tokens n
          → (n + 1) * tokens < b + tokens
      by_test true e k = ground arith
      by_test false e k = rw k (ground arith)
  Allows-suc (negsuc b) tokens n positive h = cc

  -- What steps from a context and a state that has seen `seen` steps end with.
  abbrev pub Accounts : ℕ → ExecutionContext → Progress → Type 0
  Accounts seen context p =
      HasSeen type_text (seen + p.completed_steps) p.state
      × Allows context.budget_remaining context.tokens_per_step p.completed_steps
      × (p.completed_steps * context.tokens_per_step + context.tokens_consumed
          ≤ p.context.tokens_consumed)
      × (p.context.tokens_consumed
          ≤ (p.completed_steps + 1) * context.tokens_per_step + context.tokens_consumed)

  Allows-0 : (budget : ℤ) (tokens : ℕ) → 0 < tokens → Allows budget tokens 0
  Allows-0 (pos b) tokens h = ground arith
  Allows-0 (negsuc b) tokens h = refl

  -- the end of the steps, in the state `state` and with the context `context'`
  stopped-Accounts :
      (seen : ℕ) (context context' : ExecutionContext) (state : Dict Value)
      → 0 < context.tokens_per_step
      → HasSeen type_text seen state
      → Charges type_text context context'
      → Accounts seen context (record { completed_steps = 0; state = state; context = context' })
  stopped-Accounts seen context context' state h k (inl c) = (
    subst (λ n. HasSeen type_text n state) (omega arith) k,
    Allows-0 _ _ h,
    rw c (omega arith),
    rw c (omega arith),
  )
  stopped-Accounts seen context context' state h k (inr c) = (
    subst (λ n. HasSeen type_text n state) (omega arith) k,
    Allows-0 _ _ h,
    rw c (omega arith),
    rw c (omega arith),
  )

  -- one step more, before those that `p` tells of
  one_more-Accounts :
      (seen : ℕ) (context context' : ExecutionContext) (p : Progress)
      → is_positive context.budget_remaining ≡ true
      → context' ≡ charged type_text context
      → Accounts (seen + 1) context' p
      → Accounts seen context (one_more p)
  one_more-Accounts seen context context' p positive c h =
      let (state, budget, low, high) = subst (λ x. Accounts (seen + 1) x p) c h in
      (
        subst (λ n. HasSeen type_text n p.state) (omega arith) state,
        Allows-suc _ _ _ positive budget,
        ground arith,
        ground arith,
      )

  after_step-Accounts :
      (go : StepRequest → ExecutionContext → R → Progress) (goal : String) (seen : ℕ)
      (request : StepRequest) (context : ExecutionContext) (r : R)
      → 0 < context.tokens_per_step
      → HasSeen type_text seen request.state
      → ((seen' : ℕ) (request' : StepRequest) (context' : ExecutionContext) (r' : R)
          → 0 < context'.tokens_per_step
          → HasSeen type_text seen' request'.state
          → Accounts seen' context' (go request' context' r'))
      → (run : Outcome String StepResponse × ExecutionContext × R) → Charges type_text context run.1
      → ((response : StepResponse)
          → run.0 ≡ returned response
          → Completes type_text repository (record request { goal = goal }) context response run)
      → Accounts seen context (after_step go request run)
  unfolding after_step
  after_step-Accounts go goal seen request context r h k ih (raised e, context', r') c f =
      stopped-Accounts seen context context' request.state h k c
  after_step-Accounts go goal seen request context r h k ih (returned response, context', r') c f =
      let (steps, ready, same, left) = f response refl in
      let (positive, count) =
        prepared-ready type_text (record request { goal = goal }) context steps ready in
      let counted_once = steps_eq steps (seen + 1) (sym count ∙ k) in
      one_more-Accounts seen context context'
        (go (record request { state = response.updated_state }) context' r') positive left
        (ih (seen + 1) (record request { state = response.updated_state }) context' r' (rw left h)
          (subst (λ a. HasSeen type_text (seen + 1) a.updated_state) (sym same)
            (subst
              (λ n.
                HasSeen type_text n
                  (step_response type_text (record request { goal = goal }) context
                    steps).updated_state)
              counted_once
              (step_response-HasSeen type_text (record request { goal = goal }) context steps))))

  -- Steps on one context, up to the first exception, are counted in the state, each is charged to
  -- the context, which at most one failed save exceeds, and they end: only as many complete as the
  -- budget lasts for, the last of them perhaps with less than its tokens left.
  pub run_steps-Accounts :
      (steps : List (String × String)) (seen : ℕ) (request : StepRequest)
      (context : ExecutionContext) (r : R)
      → 0 < context.tokens_per_step
      → HasSeen type_text seen request.state
      → Accounts seen context (run_steps steps request context r)
  unfolding run_steps
  run_steps-Accounts [] seen request context r h k =
      stopped-Accounts seen context context request.state h k (inl refl)
  run_steps-Accounts ((goal, checkpoint_id) ∷ steps) seen request context r h k =
      after_step-Accounts (run_steps steps) goal seen request context r h k
        (run_steps-Accounts steps) _
        (execute_step-Charges type_text repository checkpoint_id (record request { goal = goal })
          context r)
        (execute_step-Completes type_text repository checkpoint_id (record request { goal = goal })
          context r)
