-- ===== src/Kernel/Runtime/Chain.antt =====
-- A successful execution of kernel/runtime.py is a successful run of the chain, and what it has saved.
use kitematic.Base.{
  String, ◌≡◌, ◌⊎◌, inl, inr, ◌∙◌, refl, sym, ap, Bool, true, false, Option, none, some, is_empty,
  if◌then◌else◌, Outcome, returned, raised,
}
use kitematic.Kernel.States.{RuntimeState, running, draining, stopped}
use kitematic.Kernel.Errors.{Error}
use kitematic.Kernel.Tenant.{TenantContext}
use kitematic.Kernel.Isolation.{Isolation}
use kitematic.Kernel.Contracts.{Collaborators, QuotaCalls, Intent, ExecutionResult}
use kitematic.Kernel.Runtime.Defs.{Runtime, Moment}
use kitematic.Kernel.Runtime.Stages.{Run, execute_quota_guarded}
use kitematic.Kernel.Runtime.Execute.{
  quota_tenant, release_after, by_state, admitted, rate_checked, concurrency_checked, by_quota,
  quota_stage, limits_checked, by_tenant, execute_intent,
}
use kitematic.Kernel.Runtime.Saved.{HasSaved, chain-HasSaved}

module _ {S : Type 0} (ops : Collaborators S) (now : Moment) (intent : Intent) where
  -- what may be released: nothing, or a slot of the quota manager
  abbrev pub IsHeld : Option (QuotaCalls S) → Type 0
  IsHeld held = (held ≡ none) ⊎ (held ≡ ops.quota_manager)

  -- What the run leaves but for the release of the quota is what the chain leaves.
  abbrev pub HasRun : Option TenantContext → ExecutionResult → Run S → Type 0
  HasRun tenant result run =
      (held : Option (QuotaCalls S)) × (r : Runtime S) × IsHeld held
      × (run
          ≡ release_after ops now intent held (quota_tenant tenant)
              (execute_quota_guarded ops now intent tenant r))

  by_state-HasRun :
      (state : RuntimeState) (tenant : Option TenantContext) (held : Option (QuotaCalls S))
      (r : Runtime S) (result : ExecutionResult)
      → IsHeld held
      → (by_state ops now intent state tenant held r).0 ≡ returned result
      → result.success ≡ true
      → HasRun tenant result (by_state ops now intent state tenant held r)
  unfolding by_state
  by_state-HasRun running tenant held r result k h ok = (held, r, k, refl)
  by_state-HasRun draining tenant held r result k h ok = cc
  by_state-HasRun stopped tenant held r result k h ok = cc

  by_rate-HasRun :
      (q : QuotaCalls S) (tenant : Option TenantContext) (r : Runtime S) (checked : Bool × S)
      (result : ExecutionResult)
      → some q ≡ ops.quota_manager
      → (rate_checked ops now intent q tenant r checked).0 ≡ returned result
      → result.success ≡ true
      → HasRun tenant result (rate_checked ops now intent q tenant r checked)
  unfolding rate_checked admitted
  by_rate-HasRun q tenant r (false, s) result k h ok = cc
  by_rate-HasRun q tenant r (true, s) result k h ok =
      by_state-HasRun r.state tenant _ _ result (inr k) h ok

  by_concurrency-HasRun :
      (q : QuotaCalls S) (tenant : Option TenantContext) (r : Runtime S) (free : Bool)
      (result : ExecutionResult)
      → some q ≡ ops.quota_manager
      → (concurrency_checked ops now intent q tenant r free).0 ≡ returned result
      → result.success ≡ true
      → HasRun tenant result (concurrency_checked ops now intent q tenant r free)
  unfolding concurrency_checked
  by_concurrency-HasRun q tenant r false result k h ok = cc
  by_concurrency-HasRun q tenant r true result k h ok = by_rate-HasRun q tenant r _ result k h ok

  by_quota-HasRun :
      (quota : Option (QuotaCalls S)) (tenant : Option TenantContext) (r : Runtime S)
      (result : ExecutionResult)
      → quota ≡ ops.quota_manager
      → (by_quota ops now intent quota tenant r).0 ≡ returned result
      → result.success ≡ true
      → HasRun tenant result (by_quota ops now intent quota tenant r)
  unfolding by_quota admitted
  by_quota-HasRun none tenant r result k h ok =
      by_state-HasRun r.state tenant none r result (inl refl) h ok
  by_quota-HasRun (some q) tenant r result k h ok = by_named (is_empty (quota_tenant tenant)) h
    where
      by_named :
          (b : Bool)
          → (if b
              then admitted ops now intent tenant none r
              else concurrency_checked ops now intent q tenant r
                  (q.check_concurrent (quota_tenant tenant) r.services)).0
            ≡ returned result
          → HasRun tenant result (
              if b
              then admitted ops now intent tenant none r
              else concurrency_checked ops now intent q tenant r
                  (q.check_concurrent (quota_tenant tenant) r.services))
      by_named true e = by_state-HasRun r.state tenant none r result (inl refl) e ok
      by_named false e = by_concurrency-HasRun q tenant r _ result k e ok

  by_limits-HasRun :
      (b : Isolation) (c : TenantContext) (r : Runtime S) (checked : Outcome Error (Unit {0}))
      (result : ExecutionResult)
      → (limits_checked ops now intent b c r checked).0 ≡ returned result
      → result.success ≡ true
      → HasRun (some c) result (limits_checked ops now intent b c r checked)
  unfolding limits_checked quota_stage
  by_limits-HasRun b c r (raised e) result h ok = cc
  by_limits-HasRun b c r (returned _) result h ok =
      by_quota-HasRun ops.quota_manager (some c) _ result refl h ok

  by_tenant-HasRun :
      (isolation : Option Isolation) (tenant : Option TenantContext) (r : Runtime S)
      (result : ExecutionResult)
      → (by_tenant ops now intent isolation tenant r).0 ≡ returned result
      → result.success ≡ true
      → HasRun tenant result (by_tenant ops now intent isolation tenant r)
  unfolding by_tenant quota_stage
  by_tenant-HasRun none tenant r result h ok =
      by_quota-HasRun ops.quota_manager tenant r result refl h ok
  by_tenant-HasRun (some b) none r result h ok = cc
  by_tenant-HasRun (some b) (some c) r result h ok = by_limits-HasRun b c r _ result h ok

  -- A successful execution is a successful run of the chain, whatever stands in front of it.
  pub execute_intent-HasRun :
      (r : Runtime S) (result : ExecutionResult)
      → (execute_intent ops now intent r).0 ≡ returned result
      → result.success ≡ true
      → HasRun r.tenant_context result (execute_intent ops now intent r)
  unfolding execute_intent
  execute_intent-HasRun r result h ok = by_tenant-HasRun r.isolation r.tenant_context r result h ok

  -- What an execution leaves of the collaborators' state: that of the save, and after it only the
  -- release of a quota.
  abbrev pub released_by : Option (QuotaCalls S) → String → S → S
  released_by none tenant_id s = s
  released_by (some q) tenant_id s = q.end_execution tenant_id now.execution_id s

  pub execute_intent-HasSaved :
      (r : Runtime S) (result : ExecutionResult)
      → (execute_intent ops now intent r).0 ≡ returned result
      → result.success ≡ true
      → (held : Option (QuotaCalls S)) × (t : S) × IsHeld held
        × ((execute_intent ops now intent r).1.services
            ≡ released_by held (quota_tenant r.tenant_context) t)
        × HasSaved ops now intent r.tenant_context result t
  execute_intent-HasSaved r result h ok =
      let (held, r', k, e) = execute_intent-HasRun r result h ok in
      let (left, chain) = by_run held _ (ap (λ run. run.0) (sym e) ∙ h) in
      (
        held,
        (execute_quota_guarded ops now intent r.tenant_context r').1.services,
        k,
        ap (λ run. run.1.services) e ∙ left,
        chain-HasSaved ops now intent r.tenant_context r' result chain ok,
      )
    where
      by_run :
          (held : Option (QuotaCalls S)) (run : Run S)
          → (release_after ops now intent held (quota_tenant r.tenant_context) run).0
            ≡ returned result
          → ((release_after ops now intent held (quota_tenant r.tenant_context) run).1.services
              ≡ released_by held (quota_tenant r.tenant_context) run.1.services)
            × (run.0 ≡ returned result)
      by_run none (returned a, s) k = (refl, k)
      by_run (some q) (returned a, s) k = (refl, k)
      by_run held (raised x, s) k = cc
