-- ===== src/Kernel/Runtime/Slots/History.antt =====
-- A tenant's slots over a sequence of calls: what failing executions use up.
use kitematic.Base.{
  if◌then◌else◌, ℕ, ◌+◌, ◌≤◌, String, eq_refl, ◌≡◌, refl, ap, ◌∙◌, Bool, true, false, some, List,
  [], ◌∷◌, arith, returned, raised,
}
use kitematic.Kernel.Tenant.{TenantContext}
use kitematic.Kernel.Isolation.{Isolation, execution_count}
use kitematic.Kernel.Isolation.Counts.{
  limit, limit-start_execution, limit-end_execution, execution_count-start_execution,
  end_execution-start_execution,
}
use kitematic.Kernel.Contracts.{Collaborators, Intent}
use kitematic.Kernel.Runtime.Defs.{Runtime, Moment}
use kitematic.Kernel.Runtime.Stages.{Run}
use kitematic.Kernel.Runtime.Execute.{execute_intent}
use kitematic.Kernel.Runtime.Slots.Calls.{boundary_after, Accounts, execute_intent-Accounts}

-- 1 for a result that reports no success, 0 for a success and for an exception
abbrev failure : {S : Type 0} → Run S → ℕ
failure (returned res, r) = if res.success then 0 else 1
failure (raised e, r) = 0

module _ {S : Type 0} (ops : Collaborators S) where
  -- Calls one after the other; an exception ends only its own call.
  unfoldable pub execute_all : List (Moment × Intent) → Runtime S → Runtime S
  execute_all [] r = r
  execute_all ((now, intent) ∷ calls) r = execute_all calls (execute_intent ops now intent r).1

  -- How many of the calls return a result that reports no success.
  unfoldable pub failures : List (Moment × Intent) → Runtime S → ℕ
  failures [] r = 0
  failures ((now, intent) ∷ calls) r =
      let run = execute_intent ops now intent r in failure run + failures calls run.1

-- `b'` has the registered limits of `b` and `k` more executions of the tenant.
abbrev Taken : Isolation → String → ℕ → Isolation → Type 0
Taken b tenant_id k b' =
    (limit b' tenant_id ≡ limit b tenant_id)
    × (execution_count b' tenant_id ≡ execution_count b tenant_id + k)

boundary_after-Taken :
    (b : Isolation) (tenant_id : String) (success : Bool)
    → Taken b tenant_id (if success then 0 else 1) (boundary_after b tenant_id success)
boundary_after-Taken b tenant_id true = (
  limit-end_execution _ tenant_id tenant_id ∙ limit-start_execution b tenant_id tenant_id,
  omega (arith, end_execution-start_execution b tenant_id tenant_id),
)
boundary_after-Taken b tenant_id false = (
  limit-start_execution b tenant_id tenant_id,
  rw (execution_count-start_execution, eq_refl) refl,
)

-- `r'` still acts for the tenant of `c`, and holds `k` more of the tenant's slots than `b` did.
abbrev pub Holds : {S : Type 0} → Isolation → TenantContext → ℕ → Runtime S → Type 0
Holds b c k r' =
    (b' : Isolation) × (r'.isolation ≡ some b')
    × (r'.tenant_context ≡ some c)
    × (limit b' c.tenant_id ≡ limit b c.tenant_id)
    × (execution_count b' c.tenant_id ≡ execution_count b c.tenant_id + k)

module _ {S : Type 0} (b : Isolation) (c : TenantContext) (r : Runtime S)
    (boundary : r.isolation ≡ some b) (context : r.tenant_context ≡ some c) where
  Holds-of-Accounts : (run : Run S) → Accounts b c r run → Holds b c (failure run) run.1
  Holds-of-Accounts (returned res, r') (free, e, f) =
      let (same, more) = boundary_after-Taken b c.tenant_id res.success in
      (boundary_after b c.tenant_id res.success, e, f ∙ context, same, more)
  Holds-of-Accounts (raised x, r') (full, e) = (
    b,
    ap (λ (q : Runtime S). q.isolation) e ∙ boundary,
    ap (λ (q : Runtime S). q.tenant_context) e ∙ context,
    refl,
    omega arith,
  )

  fits-of-Accounts :
      (run : Run S)
      → Accounts b c r run
      → execution_count b c.tenant_id ≤ limit b c.tenant_id
      → execution_count b c.tenant_id + failure run ≤ limit b c.tenant_id
  fits-of-Accounts (returned res, r') (free, e, f) fits = ground arith
  fits-of-Accounts (raised x, r') (full, e) fits = omega arith

module _ {S : Type 0} (ops : Collaborators S) (c : TenantContext) where
  -- Over any sequence of calls the tenant's slots in use grow by exactly the number of calls that
  -- return a failing result, and never pass the tenant's limit. So at most as many calls as the
  -- limit has slots left ever return a failing result; what comes after them raises.
  pub failures_use_up_slots :
      (calls : List (Moment × Intent)) (b : Isolation) (r : Runtime S)
      → r.isolation ≡ some b
      → r.tenant_context ≡ some c
      → execution_count b c.tenant_id ≤ limit b c.tenant_id
      → Holds b c (failures ops calls r) (execute_all ops calls r)
        × (execution_count b c.tenant_id + failures ops calls r ≤ limit b c.tenant_id)
  unfolding failures execute_all
  failures_use_up_slots [] b r e f fits = ((b, e, f, refl, omega arith), omega arith)
  failures_use_up_slots ((now, intent) ∷ calls) b r e f fits =
      let run = execute_intent ops now intent r in
      let done = execute_intent-Accounts ops now intent b c r e f in
      let bound = fits-of-Accounts b c r e f run done fits in
      let (b', e', f', same, more) = Holds-of-Accounts b c r e f run done in
      let ((b'', e'', f'', same', more'), bound') =
        failures_use_up_slots calls b' run.1 e' f' (omega arith) in
      ((b'', e'', f'', same' ∙ same, omega arith), omega arith)
