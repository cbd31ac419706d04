-- ===== src/Kernel/Runtime/Counting.antt =====
-- The runtime's counters (kernel/runtime.py) over a whole call.
mod Gap
mod Chain
pub use Gap.{IsBalanced}
use Gap.{Gap-others}
use Chain.{Balances, execute_quota_guarded-Balances}
use kitematic.Base.{
  ℕ, zero, suc, ◌+◌, String, str_eq, ◌≡◌, refl, Bool, true, false, Option, none, some, List, [],
  ◌∷◌, ◌++◌, arith, All, Bool-cases, inl, inr, is_empty, Outcome, returned, raised,
}
use kitematic.Kernel.States.{
  ExecutionState, validating, authorized, executing, checkpointing, RuntimeState, running, draining,
  stopped,
}
use kitematic.Kernel.Errors.{Error}
use kitematic.Kernel.Tenant.{TenantContext}
use kitematic.Kernel.Isolation.{Isolation}
use kitematic.Kernel.Metrics.{Metrics, get_counter, increment}
use kitematic.Kernel.Metrics.Laws.{get_counter-increment, get_counter-record_value}
use kitematic.Kernel.Contracts.{Collaborators, QuotaCalls, Intent, ExecutionPath, ToolResult}
use kitematic.Kernel.Runtime.Defs.{Runtime, Moment, count, count_each, transition, transition_safe}
use kitematic.Kernel.Runtime.Stages.{
  Run, record_duration, finish, saved, checkpoint_stage, judged, accessed, tool_stage, routed,
  routing_stage, capable, capability_stage, permitted, policy_stage, execute_quota_guarded,
}
use kitematic.Kernel.Runtime.Execute.{
  quota_tenant, release_after, by_state, admitted, rate_checked, concurrency_checked, by_quota,
  quota_stage, limits_checked, by_tenant, execute_intent,
}

module _ {S : Type 0} (ops : Collaborators S) (now : Moment) (intent : Intent) where
  release_after-Balances :
      (held : Option (QuotaCalls S)) (tenant_id : String) (run : Run S)
      → Balances run
      → Balances (release_after ops now intent held tenant_id run)
  release_after-Balances none tenant_id (returned res, r) h = h
  release_after-Balances (some q) tenant_id (returned res, r) h = h
  release_after-Balances held tenant_id (raised e, r) h = h

  by_state-Balances :
      (s : RuntimeState) (tenant : Option TenantContext) (held : Option (QuotaCalls S))
      (r : Runtime S)
      → IsBalanced r
      → Balances (by_state ops now intent s tenant held r)
  unfolding by_state count
  by_state-Balances running tenant held r h =
      release_after-Balances held _ _ (execute_quota_guarded-Balances ops now intent tenant r h)
  by_state-Balances draining tenant none r h =
      Gap-others ("runtime.executions.rejected" ∷ []) r.metrics ((refl, refl, refl), tt) h
  by_state-Balances draining tenant (some q) r h =
      Gap-others ("runtime.executions.rejected" ∷ []) r.metrics ((refl, refl, refl), tt) h
  by_state-Balances stopped tenant none r h =
      Gap-others ("runtime.executions.rejected" ∷ []) r.metrics ((refl, refl, refl), tt) h
  by_state-Balances stopped tenant (some q) r h =
      Gap-others ("runtime.executions.rejected" ∷ []) r.metrics ((refl, refl, refl), tt) h

  rate_checked-Balances :
      (q : QuotaCalls S) (tenant : Option TenantContext) (r : Runtime S) (answer : Bool × S)
      → IsBalanced r
      → Balances (rate_checked ops now intent q tenant r answer)
  unfolding rate_checked admitted count
  rate_checked-Balances q tenant r (false, s) h =
      Gap-others ("resource.rate_limit.hit" ∷ []) r.metrics ((refl, refl, refl), tt) h
  rate_checked-Balances q tenant r (true, s) h = by_state-Balances r.state tenant (some q) _ h

  concurrency_checked-Balances :
      (q : QuotaCalls S) (tenant : Option TenantContext) (r : Runtime S) (free : Bool)
      → IsBalanced r
      → Balances (concurrency_checked ops now intent q tenant r free)
  unfolding concurrency_checked count
  concurrency_checked-Balances q tenant r false h =
      Gap-others ("resource.quota.exceeded" ∷ []) r.metrics ((refl, refl, refl), tt) h
  concurrency_checked-Balances q tenant r true h = rate_checked-Balances q tenant r _ h

  by_quota-Balances :
      (q : Option (QuotaCalls S)) (tenant : Option TenantContext) (r : Runtime S)
      → IsBalanced r
      → Balances (by_quota ops now intent q tenant r)
  unfolding by_quota admitted
  by_quota-Balances none tenant r h = by_state-Balances r.state tenant none r h
  by_quota-Balances (some q) tenant r h = elim (Bool-cases (is_empty (quota_tenant tenant))) [
    | inl e ↦ rw e (by_state-Balances r.state tenant none r h)
    | inr e ↦ rw e (concurrency_checked-Balances q tenant r _ h)
  ]

  limits_checked-Balances :
      (b : Isolation) (c : TenantContext) (r : Runtime S) (o : Outcome Error (Unit {0}))
      → IsBalanced r
      → Balances (limits_checked ops now intent b c r o)
  unfolding limits_checked quota_stage
  limits_checked-Balances b c r (raised e) h = h
  limits_checked-Balances b c r (returned _) h = by_quota-Balances ops.quota_manager (some c) _ h

  by_tenant-Balances :
      (b : Option Isolation) (c : Option TenantContext) (r : Runtime S)
      → IsBalanced r
      → Balances (by_tenant ops now intent b c r)
  unfolding by_tenant quota_stage
  by_tenant-Balances none tenant r h = by_quota-Balances ops.quota_manager tenant r h
  by_tenant-Balances (some b) none r h = h
  by_tenant-Balances (some b) (some c) r h = limits_checked-Balances b c r _ h

  -- On every path, exceptions included, `execute_intent` keeps the counter of all executions equal
  -- to the sum of the completed and the failed ones.
  pub execute_intent-IsBalanced :
      (r : Runtime S) → IsBalanced r → IsBalanced (execute_intent ops now intent r).1
  unfolding execute_intent
  execute_intent-IsBalanced r h = by_tenant-Balances r.isolation r.tenant_context r h
