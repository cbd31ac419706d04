-- ===== src/Api/Quotas/Concurrent.antt =====
-- The concurrent executions of api/rest/quotas.py: a slot taken, a slot given back, and the limit.
use kitematic.Base.{
  ltb→lt, ◌+◌, ◌≤◌, ◌≡◌, refl, sym, ap, String, str_eq, str_eq_cases, Bool-cases, eq_refl, true,
  false, List, [], ◌∷◌, ◌++◌, any, length, length-append, arith, inl, inr, get_or,
}
use kitematic.Base.Dict.{lookup, lookup-insert, lookup-insert_self}
use kitematic.Api.Quotas.{
  QuotaManager, add_to_set, discard, concurrent_executions, concurrent_count, check_concurrent,
  get_config, start_execution, end_execution,
}

discard-append :
    (s : String) (set : List String) → any (str_eq s) set ≡ false → discard s (set ++ s ∷ []) ≡ set
discard-append s [] h = rw eq_refl refl
discard-append s (t ∷ set) h = elim (Bool-cases (str_eq s t)) [
  | inl e ↦ ground arith
  | inr e ↦ rw e (ap (λ rest. t ∷ rest) (discard-append s set (ground arith)))
]

discard-add_to_set :
    (s : String) (set : List String)
    → any (str_eq s) set ≡ false
    → discard s (add_to_set s set) ≡ set
discard-add_to_set s set h = rw h (discard-append s set h)

length-add_to_set-le : (s : String) (set : List String) → length (add_to_set s set) ≤ length set + 1
length-add_to_set-le s set = ground (arith, length-append set (s ∷ []))

module _ (tenant_id execution_id : String) (q : QuotaManager) where
  -- If the check for a free slot passes, the start that follows stays within the tenant's limit.
  pub start_execution_le :
      check_concurrent tenant_id q ≡ true
      → concurrent_count tenant_id (start_execution tenant_id execution_id q)
        ≤ (get_config tenant_id q).max_concurrent
  unfolding check_concurrent concurrent_count concurrent_executions start_execution get_config
  start_execution_le h = rw lookup-insert_self (
      omega (
        arith,
        length-add_to_set-le execution_id (get_or (lookup tenant_id q.concurrent) []),
        ltb→lt _ _ h,
      ))

  -- Ending a fresh execution undoes its start: every tenant has the executions that it had.
  pub start_execution_undone :
      (j : String)
      → any (str_eq execution_id) (concurrent_executions tenant_id q) ≡ false
      → concurrent_executions j
          (end_execution tenant_id execution_id (start_execution tenant_id execution_id q))
        ≡ concurrent_executions j q
  unfolding concurrent_executions start_execution end_execution
  start_execution_undone j h = elim (str_eq_cases tenant_id j) [
    | inl (e, same) ↦
        rw (lookup-insert_self, lookup-insert, e)
          (rw (sym same) (discard-add_to_set execution_id _ h))
    | inr (e, n) ↦ rw (lookup-insert_self, lookup-insert, e, lookup-insert, e) refl
  ]
