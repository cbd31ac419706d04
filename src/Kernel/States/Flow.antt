-- ===== src/Kernel/States/Flow.antt =====
-- The legal transitions of kernel/state.py as a relation: what an execution can go through.
use kitematic.Base.{◌+◌, ◌≤◌, ℕ, ◌≡◌, ◌↔◌, ◌⊎◌, inl, inr, refl, true, arith}
use kitematic.Kernel.States.{
  ExecutionState, created, validating, authorized, executing, checkpointing, completed, failed,
  halted, is_valid_transition,
}

-- One legal transition, and a sequence of them.
infix 40 ◌⟶◌ ◌⟶*◌
pub data ◌⟶◌ : ExecutionState → ExecutionState → Type 0 where
  begin : created ⟶ validating
  authorize : validating ⟶ authorized
  execute : authorized ⟶ executing
  checkpoint : executing ⟶ checkpointing
  complete : checkpointing ⟶ completed
  reject : validating ⟶ failed
  deny : authorized ⟶ failed
  break : executing ⟶ failed
  halt_policy : validating ⟶ halted
  halt_capability : authorized ⟶ halted
  halt_execution : executing ⟶ halted
  halt_checkpoint : checkpointing ⟶ halted

pub data ◌⟶*◌ : ExecutionState → ExecutionState → Type 0 where
  here : {s : ExecutionState} → s ⟶* s
  then : {s t u : ExecutionState} → s ⟶ t → t ⟶* u → s ⟶* u

pub ruleset edges = (
  begin, authorize, execute, checkpoint, complete, reject, deny, break, halt_policy,
  halt_capability, halt_execution, halt_checkpoint,
)

-- The states without a way out.
abbrev pub IsTerminal : ExecutionState → Type 0
IsTerminal s = (s ≡ completed) ⊎ (s ≡ failed) ⊎ (s ≡ halted)

valid-of-⟶ : {s t : ExecutionState} → s ⟶ t → is_valid_transition s t ≡ true
unfolding is_valid_transition
valid-of-⟶ begin = refl
valid-of-⟶ _ = refl

⟶-of-valid : (s t : ExecutionState) → is_valid_transition s t ≡ true → s ⟶ t
unfolding is_valid_transition
⟶-of-valid created validating h = begin
⟶-of-valid validating authorized h = authorize
⟶-of-valid validating failed h = reject
⟶-of-valid validating halted h = halt_policy
⟶-of-valid authorized executing h = execute
⟶-of-valid authorized failed h = deny
⟶-of-valid authorized halted h = halt_capability
⟶-of-valid executing checkpointing h = checkpoint
⟶-of-valid executing failed h = break
⟶-of-valid executing halted h = halt_execution
⟶-of-valid checkpointing completed h = complete
⟶-of-valid checkpointing halted h = halt_checkpoint
⟶-of-valid _ _ h = cc

-- The test of the table accepts exactly the twelve transitions of the diagram.
pub is_valid_transition_iff : (s t : ExecutionState) → (is_valid_transition s t ≡ true) ↔ (s ⟶ t)
is_valid_transition_iff s t = (⟶-of-valid s t, valid-of-⟶)

-- The length of the longest way from a state to the end.
abbrev pub rank : ExecutionState → ℕ
rank created = 5
rank validating = 4
rank authorized = 3
rank executing = 2
rank checkpointing = 1
rank _ = 0

pub ⟶-rank : {s t : ExecutionState} → s ⟶ t → rank t + 1 ≤ rank s
⟶-rank begin = omega arith
⟶-rank _ = omega arith

-- Every state has a way to `halted`, or is terminal: no execution is stuck.
pub halted_or_IsTerminal : (s : ExecutionState) → (s ⟶* halted) ⊎ IsTerminal s
halted_or_IsTerminal created = inl (then begin (then halt_policy here))
halted_or_IsTerminal completed = inr (inl refl)
halted_or_IsTerminal failed = inr (inr (inl refl))
halted_or_IsTerminal halted = inl here
halted_or_IsTerminal validating = inl (then halt_policy here)
halted_or_IsTerminal authorized = inl (then halt_capability here)
halted_or_IsTerminal executing = inl (then halt_execution here)
halted_or_IsTerminal checkpointing = inl (then halt_checkpoint here)
