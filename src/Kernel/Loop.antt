-- ===== src/Kernel/Loop.antt =====
-- `LoopController` of kernel/lifecycle.py.
pub mod Classify
pub mod Defs
pub mod Run
pub mod Verdict
pub mod Steps
pub use Classify.{
  LoopTermination, completed, policy_denied, capability_missing, capability_denied, gateway_failed,
  tool_failed, checkpoint_failed, orchestration_failed, budget_exhausted, timeout, exception,
}
unfoldable pub use Classify.{classify_lower, classify_failure}
pub use Defs.{LoopResult, LoopError, budget_limit, time_limit, failure, Controller, Clock}
unfoldable pub use Defs.{new_controller, shutdown, check_budget, loop_message}
unfoldable pub use Run.{run_intent, run_multi_step}
