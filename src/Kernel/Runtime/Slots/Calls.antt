-- ===== src/Kernel/Runtime/Slots/Calls.antt =====
-- One call of `execute_intent` (kernel/runtime.py): the slot that it takes, and what it gives back.
use kitematic.Kernel.Runtime.Slots.Chain.{Keeps, execute_quota_guarded-Keeps}
use kitematic.Base.{
  ◌≤◌, ◌<◌, String, is_empty, ◌≡◌, refl, inl, inr, Bool, true, false, Option, none, some, arith,
  if◌then◌else◌, Bool-cases, Outcome, returned, raised, sym, ◌∙◌,
}
use mathlib.Core.Path.{subst₂}
use kitematic.Kernel.States.{RuntimeState, running, draining, stopped}
use kitematic.Kernel.Errors.{Error}
use kitematic.Kernel.Tenant.{TenantContext}
use kitematic.Kernel.Isolation.{
  Isolation, execution_count, check_resource_limits, start_execution, end_execution,
}
use kitematic.Kernel.Isolation.Counts.{limit, check_resource_limits_iff}
use kitematic.Kernel.Contracts.{Collaborators, QuotaCalls, Intent}
use kitematic.Kernel.Runtime.Defs.{Runtime, Moment, count}
use kitematic.Kernel.Runtime.Stages.{Run, release_slot}
use kitematic.Kernel.Runtime.Execute.{
  quota_tenant, release_after, by_state, admitted, rate_checked, concurrency_checked, by_quota,
  quota_stage, limits_checked, by_tenant, execute_intent,
}

-- The isolation boundary after a call that began with `b` and a free slot.
abbrev pub boundary_after : Isolation → String → Bool → Isolation
boundary_after b tenant_id success =
    if success
    then end_execution (start_execution b tenant_id) tenant_id
    else start_execution b tenant_id

module _ {S : Type 0} (ops : Collaborators S) (now : Moment) (intent : Intent)
    (tenant : Option TenantContext) where
  release_after-Keeps :
      (held : Option (QuotaCalls S)) (r : Runtime S) (run : Run S)
      → Keeps tenant r run
      → Keeps tenant r (release_after ops now intent held (quota_tenant tenant) run)
  release_after-Keeps none r (returned res, r') h = h
  release_after-Keeps (some q) r (returned res, r') h = h
  release_after-Keeps held r (raised e, r') h = h

  by_state-Keeps :
      (s : RuntimeState) (held : Option (QuotaCalls S)) (r : Runtime S)
      → Keeps tenant r (by_state ops now intent s tenant held r)
  unfolding by_state count
  by_state-Keeps running held r =
      release_after-Keeps held r _ (execute_quota_guarded-Keeps ops now intent tenant r)
  by_state-Keeps draining none r = (refl, refl, refl, refl)
  by_state-Keeps draining (some q) r = (refl, refl, refl, refl)
  by_state-Keeps stopped none r = (refl, refl, refl, refl)
  by_state-Keeps stopped (some q) r = (refl, refl, refl, refl)

  rate_checked-Keeps :
      (q : QuotaCalls S) (r : Runtime S) (answer : Bool × S)
      → Keeps tenant r (rate_checked ops now intent q tenant r answer)
  unfolding rate_checked admitted count
  rate_checked-Keeps q r (false, s) = (refl, refl, refl, refl)
  rate_checked-Keeps q r (true, s) = by_state-Keeps r.state (some q) (record r { services = _ })

  concurrency_checked-Keeps :
      (q : QuotaCalls S) (r : Runtime S) (free : Bool)
      → Keeps tenant r (concurrency_checked ops now intent q tenant r free)
  unfolding concurrency_checked count
  concurrency_checked-Keeps q r false = (refl, refl, refl, refl)
  concurrency_checked-Keeps q r true = rate_checked-Keeps q r _

  by_quota-Keeps :
      (q : Option (QuotaCalls S)) (r : Runtime S)
      → Keeps tenant r (by_quota ops now intent q tenant r)
  unfolding by_quota admitted
  by_quota-Keeps none r = by_state-Keeps r.state none r
  by_quota-Keeps (some q) r = elim (Bool-cases (is_empty (quota_tenant tenant))) [
    | inl e ↦ rw e (by_state-Keeps r.state none r)
    | inr e ↦ rw e (concurrency_checked-Keeps q r _)
  ]

  pub quota_stage-Keeps : (r : Runtime S) → Keeps tenant r (quota_stage ops now intent tenant r)
  unfolding quota_stage
  quota_stage-Keeps r = by_quota-Keeps ops.quota_manager r

-- What a call by the tenant of `c` leaves behind.
abbrev pub Accounts : {S : Type 0} → Isolation → TenantContext → Runtime S → Run S → Type 0
Accounts b c r (returned res, r') =
    (execution_count b c.tenant_id < limit b c.tenant_id)
    × (r'.isolation ≡ some (boundary_after b c.tenant_id res.success))
    × (r'.tenant_context ≡ r.tenant_context)
Accounts b c r (raised e, r') = (limit b c.tenant_id ≤ execution_count b c.tenant_id) × (r' ≡ r)

given_back :
    (success : Bool) (b : Isolation) (c : TenantContext)
    → (if success
        then release_slot (some c) (some (start_execution b c.tenant_id))
        else some (start_execution b c.tenant_id))
      ≡ some (boundary_after b c.tenant_id success)
given_back true b c = refl
given_back false b c = refl

Accounts-of-Keeps :
    {S : Type 0} (b : Isolation) (c : TenantContext) (r : Runtime S) (run : Run S)
    → execution_count b c.tenant_id < limit b c.tenant_id
    → Keeps (some c) (record r { isolation = some (start_execution b c.tenant_id) }) run
    → Accounts b c r run
Accounts-of-Keeps b c r (returned res, r') free h = (free, h.0 ∙ given_back res.success b c, h.2)
Accounts-of-Keeps b c r (raised e, r') free h = absurd h

module _ {S : Type 0} (ops : Collaborators S) (now : Moment) (intent : Intent) (b : Isolation)
    (c : TenantContext) where
  limits_checked-Accounts :
      (r : Runtime S) (o : Outcome Error (Unit {0}))
      → check_resource_limits b c.tenant_id ≡ o
      → Accounts b c r (limits_checked ops now intent b c r o)
  unfolding limits_checked
  limits_checked-Accounts r (raised e) h =
      (ground (arith, check_resource_limits_iff b c.tenant_id), refl)
  limits_checked-Accounts r (returned _) h =
      Accounts-of-Keeps b c r _ ((check_resource_limits_iff b c.tenant_id).0 h)
        (quota_stage-Keeps ops now intent (some c) _)

  -- With a tenant and an isolation boundary, a call either finds the tenant's slots used up,
  -- raises and changes nothing, or it finds a free slot and takes it, and gives it back only if it
  -- succeeds: after every failing result the slot stays taken.
  pub execute_intent-Accounts :
      (r : Runtime S)
      → r.isolation ≡ some b
      → r.tenant_context ≡ some c
      → Accounts b c r (execute_intent ops now intent r)
  unfolding execute_intent
  execute_intent-Accounts r e f =
      subst₂ (λ x y. Accounts b c r (by_tenant ops now intent x y r)) (sym e) (sym f)
        (limits_checked-Accounts r _ refl)
