-- ===== src/Kernel/Runtime.antt =====
-- `KitematicRuntime` of kernel/runtime.py. The state `S` is that of the collaborators. Without a
-- logger and a tracer, which only report; with the metrics registry, if there is one.
pub mod Defs
pub mod Stages
pub mod Execute
pub mod Ends
pub mod Saved
pub mod Chain
pub mod Counting
pub mod Slots
pub mod Governance
pub mod Refusal
pub mod Shutdown
pub mod Restore
pub use Defs.{Runtime, Moment}
unfoldable pub use Defs.{
  new_runtime, set_tenant_context, host_agent, get_agent, list_agents, drain, stop, count,
  transition, transition_safe, restore_from_checkpoint,
}
unfoldable pub use Stages.{execute_quota_guarded}
unfoldable pub use Execute.{execute_intent}
