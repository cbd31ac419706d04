-- ===== src/Kernel/Budget.antt =====
-- kernel/resources/budget.py. A clock reading is an argument, in microseconds; the limits are
-- natural numbers.
pub mod Limits
use kitematic.Base.{
  ℕ, ◌+◌, ◌-◌, ◌*◌, Bool, false, ◌||◌, Option, none, some, ltb, leb, if◌then◌else◌, Outcome,
  returned, raised, String, [], ◌∷◌,
}
use kitematic.Base.Dict.{Dict}
use kitematic.Kernel.Values.{Value, null, flag, number, text}
use kitematic.Kernel.Errors.{Error, budget_exhausted}

pub record Budget : Type 0 where
  pub max_steps : ℕ
  pub max_tokens : ℕ
  pub timeout_seconds : ℕ
  pub current_steps : ℕ
  pub tokens_consumed : ℕ
  pub started_at : Option ℕ

abbrev pub default_budget : Budget
default_budget = record {
  max_steps = 10;
  max_tokens = 100000;
  timeout_seconds = 3600;
  current_steps = 0;
  tokens_consumed = 0;
  started_at = none;
}

unfoldable pub start_from : Option ℕ → ℕ → Budget → Budget
start_from none now b = record b { started_at = some now }
start_from (some _) now b = b

module _ (b : Budget) where
  unfoldable pub start : (now : ℕ) → Budget
  unfolding start_from
  start now = start_from b.started_at now b

  unfoldable pub steps_remaining : ℕ
  steps_remaining = b.max_steps - b.current_steps

  unfoldable pub tokens_remaining : ℕ
  tokens_remaining = b.max_tokens - b.tokens_consumed

  unfoldable pub is_steps_exhausted : Bool
  is_steps_exhausted = leb b.max_steps b.current_steps

  unfoldable pub is_tokens_exhausted : Bool
  is_tokens_exhausted = leb b.max_tokens b.tokens_consumed

  -- a clock that runs backwards gives an elapsed time below 0, which is no timeout either
  unfoldable pub is_timeout : (now : ℕ) → Bool
  is_timeout now = elim b.started_at [
    | none ↦ false
    | some started ↦ ltb (b.timeout_seconds * 1000000) (now - started)
  ]

  unfoldable pub is_exhausted : (now : ℕ) → Bool
  unfolding is_steps_exhausted is_tokens_exhausted is_timeout
  is_exhausted now = is_steps_exhausted || is_tokens_exhausted || is_timeout now

  unfoldable pub consume_step : (now tokens : ℕ) → Outcome Error Budget
  unfolding is_exhausted
  consume_step now tokens =
      if is_exhausted now
      then raised (budget_exhausted b.current_steps b.tokens_consumed b.max_steps b.max_tokens)
      else returned (record b {
        current_steps = b.current_steps + 1;
        tokens_consumed = b.tokens_consumed + tokens;
      })

  unfoldable pub reset : Budget
  reset = record b { current_steps = 0; tokens_consumed = 0; started_at = none }

-- `to_dict`, where `isoformat` prints a time
unfoldable pub to_dict : (isoformat : ℕ → String) (now : ℕ) → Budget → Dict Value
unfolding is_exhausted steps_remaining tokens_remaining
to_dict isoformat now b =
    ("max_steps", number b.max_steps)
    ∷ ("max_tokens", number b.max_tokens)
    ∷ ("timeout_seconds", number b.timeout_seconds)
    ∷ ("current_steps", number b.current_steps)
    ∷ ("tokens_consumed", number b.tokens_consumed)
    ∷ ("started_at", elim b.started_at [ none ↦ null | some t ↦ text (isoformat t) ])
    ∷ ("is_exhausted", flag (is_exhausted b now))
    ∷ ("steps_remaining", number (steps_remaining b))
    ∷ ("tokens_remaining", number (tokens_remaining b))
    ∷ []
