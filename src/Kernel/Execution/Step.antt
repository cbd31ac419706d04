-- ===== src/Kernel/Execution/Step.antt =====
-- What one step does (kernel/execution/in_memory.py).
use kitematic.Base.{
  ℕ, ◌+◌, ◌⊎◌, inl, inr, String, ◌≡◌, refl, sym, Bool, true, false, Option, none, some, Outcome,
  returned, raised, ◌>>◌, if◌then◌else◌,
}
use kitematic.Base.Dict.{Dict, lookup-insert_self}
use kitematic.Kernel.Values.{Value}
use kitematic.Kernel.Errors.{Error}
use kitematic.Storage.Checkpoints.{Checkpoint}
use kitematic.Storage.Repository.{Repository}
use kitematic.Kernel.Execution.{
  is_positive, StepRequest, StepResponse, ExecutionContext, validate_request, check_budget,
  steps_before, plus_one, counted, charged, step_response, prepared, after_checkpoint, saved_step,
  run_step, execute_step, field_of,
}

response_eq :
    (a b : StepResponse) → ◌≡◌ {A = Outcome String StepResponse} (returned a) (returned b) → a ≡ b
response_eq a b h = cc

pub steps_eq : (a b : ℕ) → ◌≡◌ {A = Outcome String ℕ} (returned a) (returned b) → a ≡ b
steps_eq a b h = cc

module _ (type_text : Value → String) where
  -- the state has seen `n` steps
  abbrev pub HasSeen : ℕ → Dict Value → Type 0
  HasSeen n state = counted type_text state ≡ returned (n + 1)

  pub step_response-HasSeen :
      (request : StepRequest) (context : ExecutionContext) (steps : ℕ)
      → HasSeen steps (step_response type_text request context steps).updated_state
  unfolding counted steps_before plus_one field_of
  step_response-HasSeen request context steps = rw lookup-insert_self refl

  module _ {R : Type 0} (repository : Option (Repository R)) where
    -- A step that returns a response was prepared, and charged to its context.
    abbrev pub Completes :
        StepRequest
        → ExecutionContext
        → StepResponse
        → Outcome String StepResponse × ExecutionContext × R
        → Type 0
    Completes request context response run =
        (steps : ℕ) × (prepared type_text request context ≡ returned steps)
        × (response ≡ step_response type_text request context steps)
        × (run.1 ≡ charged type_text context)

    module _ (checkpoint_id : String) (request : StepRequest) (context : ExecutionContext) (r : R)
        (response : StepResponse) where
      after_checkpoint-same :
          (a : StepResponse) (c : ExecutionContext) (run : Outcome Error Checkpoint × R)
          → (after_checkpoint type_text repository checkpoint_id a c run).0 ≡ returned response
          → (response ≡ a) × ((after_checkpoint type_text repository checkpoint_id a c run).1 ≡ c)
      after_checkpoint-same a c (raised e, s) h = cc
      after_checkpoint-same a c (returned k, s) h = (sym (response_eq _ _ h), refl)

      saved_step-same :
          (repo : Option (Repository R)) (a : StepResponse) (c : ExecutionContext)
          → (saved_step type_text repository checkpoint_id repo a c r).0 ≡ returned response
          → (response ≡ a) × ((saved_step type_text repository checkpoint_id repo a c r).1 ≡ c)
      unfolding saved_step
      saved_step-same none a c h = (sym (response_eq _ _ h), refl)
      saved_step-same (some repo) a c h = after_checkpoint-same a c _ h

      run_step-Completes :
          (ready : Outcome String ℕ)
          → prepared type_text request context ≡ ready
          → (run_step type_text repository checkpoint_id request context r ready).0
            ≡ returned response
          → Completes request context response
              (run_step type_text repository checkpoint_id request context r ready)
      unfolding run_step
      run_step-Completes (raised e) k h = cc
      run_step-Completes (returned steps) k h =
          let (same, left) = saved_step-same repository _ _ h in (steps, k, same, left)

      pub execute_step-Completes :
          (execute_step type_text repository checkpoint_id request context r).0 ≡ returned response
          → Completes request context response
              (execute_step type_text repository checkpoint_id request context r)
      unfolding execute_step
      execute_step-Completes h = run_step-Completes (prepared type_text request context) refl h

  -- Whether it returns or not, a step leaves its context as it was, or charged once.
  abbrev pub Charges : ExecutionContext → ExecutionContext → Type 0
  Charges context context' = (context' ≡ context) ⊎ (context' ≡ charged type_text context)

  module _ {R : Type 0} (repository : Option (Repository R)) (checkpoint_id : String)
      (request : StepRequest) (context : ExecutionContext) (r : R) where
    after_checkpoint-context :
        (a : StepResponse) (c : ExecutionContext) (run : Outcome Error Checkpoint × R)
        → (after_checkpoint type_text repository checkpoint_id a c run).1 ≡ c
    after_checkpoint-context a c (raised e, s) = refl
    after_checkpoint-context a c (returned k, s) = refl

    saved_step-context :
        (repo : Option (Repository R)) (a : StepResponse) (c : ExecutionContext)
        → (saved_step type_text repository checkpoint_id repo a c r).1 ≡ c
    unfolding saved_step
    saved_step-context none a c = refl
    saved_step-context (some repo) a c = after_checkpoint-context a c _

    run_step-Charges :
        (ready : Outcome String ℕ)
        → Charges context (run_step type_text repository checkpoint_id request context r ready).1
    unfolding run_step
    run_step-Charges (raised e) = inl refl
    run_step-Charges (returned steps) = inr (saved_step-context repository _ _)

    pub execute_step-Charges :
        Charges context (execute_step type_text repository checkpoint_id request context r).1
    unfolding execute_step
    execute_step-Charges = run_step-Charges (prepared type_text request context)

  pub prepared-ready :
      (request : StepRequest) (context : ExecutionContext) (steps : ℕ)
      → prepared type_text request context ≡ returned steps
      → (is_positive context.budget_remaining ≡ true)
        × (counted type_text request.state ≡ returned steps)
  unfolding prepared check_budget
  prepared-ready request context steps h =
      by_checks (validate_request request) (is_positive context.budget_remaining) h
    where
      by_checks :
          (valid : Outcome String (Unit {0})) (positive : Bool)
          → (valid
              >> ((if positive then returned tt else raised "Budget exceeded: 0 > 0")
                  >> counted type_text request.state))
            ≡ returned steps
          → (positive ≡ true) × (counted type_text request.state ≡ returned steps)
      by_checks (raised error) positive e = cc
      by_checks (returned u) false e = cc
      by_checks (returned u) true e = (refl, e)
