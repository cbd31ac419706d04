-- ===== src/Kernel/Runtime/Execute.antt =====
-- `execute_intent` of kernel/runtime.py: the tenant check, the limits, the quota and the shutdown
-- check in front of the chain, and the release of the quota behind it.
use kitematic.Base.{
  String, ◌<>◌, is_empty, Bool, true, false, Option, none, some, [], ◌∷◌, if◌then◌else◌, Outcome,
  returned, raised,
}
use kitematic.Kernel.States.{RuntimeState, running, draining, stopped, created}
use kitematic.Kernel.Errors.{Error}
use kitematic.Kernel.Tenant.{TenantContext}
use kitematic.Kernel.Isolation.{Isolation, check_resource_limits, start_execution}
use kitematic.Kernel.Contracts.{Collaborators, QuotaCalls, Intent}
use kitematic.Kernel.Runtime.Defs.{Runtime, Moment, count}
use kitematic.Kernel.Runtime.Stages.{Run, execute_quota_guarded}

-- the tenant whose quota counts
abbrev pub quota_tenant : Option TenantContext → String
quota_tenant none = ""
quota_tenant (some c) = c.tenant_id

module _ {S : Type 0} (ops : Collaborators S) (now : Moment) (intent : Intent) where
  -- a result before the chain has begun
  abbrev pub refuse : String → Runtime S → Run S
  refuse error r = (
    returned (record {
      success = false;
      execution_id = now.execution_id;
      checkpoint_id = none;
      result_data = [];
      error = some error;
      state = created;
    }),
    r,
  )

  -- `_release_quota`: `held` is the quota manager if a slot was acquired
  abbrev pub release_quota : Option (QuotaCalls S) → String → Runtime S → Runtime S
  release_quota none tenant_id r = r
  release_quota (some q) tenant_id r = record r {
    services = q.end_execution tenant_id now.execution_id r.services;
  }

  abbrev pub release_after : Option (QuotaCalls S) → String → Run S → Run S
  release_after held tenant_id (returned result, r) =
      (returned result, release_quota held tenant_id r)
  release_after held tenant_id (raised e, r) = (raised e, r)

  -- the shutdown check, the chain, and the release
  unfoldable pub by_state :
      RuntimeState → Option TenantContext → Option (QuotaCalls S) → Runtime S → Run S
  by_state draining tenant held r =
      refuse "Runtime is draining"
        (count ("runtime.executions.rejected" ∷ []) (release_quota held (quota_tenant tenant) r))
  by_state stopped tenant held r =
      refuse "Runtime is stopped"
        (count ("runtime.executions.rejected" ∷ []) (release_quota held (quota_tenant tenant) r))
  by_state running tenant held r =
      release_after held (quota_tenant tenant) (execute_quota_guarded ops now intent tenant r)

  unfoldable pub admitted : Option TenantContext → Option (QuotaCalls S) → Runtime S → Run S
  unfolding by_state
  admitted tenant held r = by_state r.state tenant held r

  -- the rate limit, and the start of a quota slot
  unfoldable pub rate_checked : QuotaCalls S → Option TenantContext → Runtime S → Bool × S → Run S
  rate_checked q tenant r (false, s) =
      let (retry, s') = q.retry_after (quota_tenant tenant) s in
      refuse
        ("Rate limit exceeded for tenant "
          <> ops.repr (quota_tenant tenant)
          <> ". Retry after "
          <> retry
          <> "s")
        (count ("resource.rate_limit.hit" ∷ []) (record r { services = s' }))
  rate_checked q tenant r (true, s) =
      admitted tenant (some q)
        (record r { services = q.start_execution (quota_tenant tenant) now.execution_id s })

  unfoldable pub concurrency_checked :
      QuotaCalls S → Option TenantContext → Runtime S → Bool → Run S
  concurrency_checked q tenant r false =
      refuse ("Concurrent execution limit exceeded for tenant " <> ops.repr (quota_tenant tenant))
        (count ("resource.quota.exceeded" ∷ []) r)
  concurrency_checked q tenant r true =
      rate_checked q tenant r (q.check_and_consume_rate (quota_tenant tenant) r.services)

  unfoldable pub by_quota : Option (QuotaCalls S) → Option TenantContext → Runtime S → Run S
  by_quota none tenant r = admitted tenant none r
  by_quota (some q) tenant r =
      if is_empty (quota_tenant tenant)
      then admitted tenant none r
      else concurrency_checked q tenant r (q.check_concurrent (quota_tenant tenant) r.services)

  -- the quota check
  unfoldable pub quota_stage : Option TenantContext → Runtime S → Run S
  unfolding by_quota concurrency_checked rate_checked
  quota_stage tenant r = by_quota ops.quota_manager tenant r

  unfoldable pub limits_checked :
      Isolation → TenantContext → Runtime S → Outcome Error (Unit {0}) → Run S
  limits_checked b c r (raised e) = (raised e, r)
  limits_checked b c r (returned _) =
      quota_stage (some c) (record r { isolation = some (start_execution b c.tenant_id) })

  unfoldable pub by_tenant : Option Isolation → Option TenantContext → Runtime S → Run S
  by_tenant none tenant r = quota_stage tenant r
  by_tenant (some b) none r = refuse "No tenant context — execution denied" r
  by_tenant (some b) (some c) r = limits_checked b c r (check_resource_limits b c.tenant_id)

  unfoldable pub execute_intent : Runtime S → Run S
  unfolding by_tenant limits_checked
  execute_intent r = by_tenant r.isolation r.tenant_context r
