-- ===== src/Kernel/Budget/Limits.antt =====
-- The limits of kernel/resources/budget.py: a budget is never overrun by steps, and it ends.
use kitematic.Base.{
  leb, ◌||◌, inl, inr, Bool-cases, if◌then◌else◌, ℕ, ◌+◌, ◌<◌, ◌≡◌, refl, Bool, true, false, arith,
  Outcome, returned, raised,
}
use kitematic.Kernel.Errors.{Error, budget_exhausted}
use kitematic.Kernel.Budget.{
  Budget, steps_remaining, is_steps_exhausted, is_tokens_exhausted, is_timeout, is_exhausted,
  consume_step,
}

-- A step is consumed exactly when the budget is not exhausted; it then takes one step and the given
-- tokens, and an exhausted budget raises with its counters.
pub consume_step_lem :
    (b : Budget) (now tokens : ℕ)
    → (is_exhausted b now ≡ false
        → (b' : Budget) × (consume_step b now tokens ≡ returned b')
          × (steps_remaining b' + 1 ≡ steps_remaining b)
          × (b'.tokens_consumed ≡ b.tokens_consumed + tokens))
      × (is_exhausted b now ≡ true
          → consume_step b now tokens
            ≡ raised (budget_exhausted b.current_steps b.tokens_consumed b.max_steps b.max_tokens))
unfolding consume_step is_exhausted is_steps_exhausted is_tokens_exhausted is_timeout
    steps_remaining
consume_step_lem b now tokens = (
  λ h. (
    record b { current_steps = b.current_steps + 1; tokens_consumed = b.tokens_consumed + tokens },
    rw h refl,
    ground arith,
    refl,
  ),
  λ h. rw h refl,
)

-- A budget after a step: the limits stay, a step that was left is taken, and the tokens are added.
unfoldable pub OneStep : Budget → ℕ → Outcome Error Budget → Type 0
OneStep b tokens (raised e) = Unit
OneStep b tokens (returned b') =
    (b'.max_steps ≡ b.max_steps)
    × (b'.current_steps ≡ b.current_steps + 1)
    × (b'.tokens_consumed ≡ b.tokens_consumed + tokens)
    × (b.current_steps < b.max_steps)

OneStep-if :
    (b : Budget) (tokens : ℕ) (e : Error) (spent late : Bool)
    → OneStep b tokens (
        if leb b.max_steps b.current_steps || spent || late
        then raised e
        else returned (record b {
          current_steps = b.current_steps + 1;
          tokens_consumed = b.tokens_consumed + tokens;
        }))
unfolding OneStep
OneStep-if b tokens e spent late =
    elim (Bool-cases (leb b.max_steps b.current_steps || spent || late)) [
      | inl h ↦ rw h tt
      | inr h ↦ rw h (refl, refl, refl, ground arith)
    ]

pub consume_step-OneStep :
    (b : Budget) (now tokens : ℕ) → OneStep b tokens (consume_step b now tokens)
unfolding consume_step is_exhausted is_steps_exhausted
consume_step-OneStep b now tokens =
    OneStep-if b tokens
      (budget_exhausted b.current_steps b.tokens_consumed b.max_steps b.max_tokens)
      (is_tokens_exhausted b) (is_timeout b now)
