-- ===== src/Kernel/Isolation/Counts.antt =====
-- The execution counts of kernel/isolation.py: one slot taken, one given back, and the limit.
use kitematic.Base.{
  eq_refl, ◌↔◌, ℕ, ◌+◌, ◌-◌, ◌<◌, String, str_eq, str_eq_cases, ◌≡◌, refl, inl, inr, none, some,
  arith, if◌then◌else◌, returned,
}
use kitematic.Base.Dict.{lookup, lookup-insert}
use kitematic.Kernel.Isolation.{
  Isolation, execution_count, check_resource_limits, start_execution, end_execution,
}

-- The limit of a registered tenant; 0 for any other.
unfoldable pub limit : Isolation → String → ℕ
limit b tenant_id = elim (lookup tenant_id b.tenants) [
  | none ↦ 0
  | some tenant ↦ tenant.resource_limits.max_concurrent_executions
]

pub limit-start_execution :
    (b : Isolation) (tenant_id j : String) → limit (start_execution b tenant_id) j ≡ limit b j
unfolding limit start_execution
limit-start_execution b tenant_id j = refl

pub limit-end_execution :
    (b : Isolation) (tenant_id j : String) → limit (end_execution b tenant_id) j ≡ limit b j
unfolding limit end_execution
limit-end_execution b tenant_id j = refl

module _ (b : Isolation) (tenant_id j : String) where
  -- Starting an execution adds one to the count of its tenant and to no other.
  pub execution_count-start_execution :
      execution_count (start_execution b tenant_id) j
      ≡ (if str_eq tenant_id j then execution_count b tenant_id + 1 else execution_count b j)
  unfolding execution_count start_execution
  execution_count-start_execution = rw lookup-insert (ground arith)

  pub execution_count-end_execution :
      execution_count (end_execution b tenant_id) j
      ≡ (if str_eq tenant_id j then execution_count b tenant_id - 1 else execution_count b j)
  unfolding execution_count end_execution
  execution_count-end_execution = rw lookup-insert (ground arith)

-- The end of an execution undoes its start, for every tenant.
pub end_execution-start_execution :
    (b : Isolation) (tenant_id j : String)
    → execution_count (end_execution (start_execution b tenant_id) tenant_id) j
      ≡ execution_count b j
end_execution-start_execution b tenant_id j = elim (str_eq_cases tenant_id j) [
  | inl (e, p) ↦
      rw (execution_count-end_execution, e, execution_count-start_execution, eq_refl)
        (rw p (omega arith))
  | inr (e, n) ↦ rw (execution_count-end_execution, e, execution_count-start_execution, e) refl
]

-- The check passes exactly when the tenant is registered and has a slot left.
pub check_resource_limits_iff :
    (b : Isolation) (tenant_id : String)
    → (check_resource_limits b tenant_id ≡ returned tt)
      ↔ (execution_count b tenant_id < limit b tenant_id)
unfolding check_resource_limits limit
check_resource_limits_iff b tenant_id = ground arith
