-- ===== src/Kernel/Runtime/Saved.antt =====
-- What a successful run of the chain of kernel/runtime.py has saved.
use kitematic.Base.{
  String, ◌≡◌, ◌∙◌, refl, sym, ap, true, Option, none, some, Outcome, returned, raised,
}
use kitematic.Kernel.States.{completed}
use kitematic.Kernel.Errors.{Error}
use kitematic.Kernel.Tenant.{TenantContext}
use kitematic.Kernel.Contracts.{Collaborators, Intent, ExecutionResult, ToolResult}
use kitematic.Kernel.Runtime.Defs.{Runtime, Moment, count, transition}
use kitematic.Kernel.Runtime.Stages.{
  Run, checkpoint_state, finish, checkpoint_stage, tool_stage, routing_stage, capability_stage,
  policy_stage, execute_quota_guarded,
}
use kitematic.Kernel.Runtime.Governance.{succeeds, PolicyAgrees, success-agrees}

module _ {S : Type 0} (ops : Collaborators S) (now : Moment) (intent : Intent) where
  -- The result of an execution with the state of the collaborators that it leaves: a checkpoint of
  -- this execution was saved last, under the identifier in the result.
  abbrev pub HasSaved : Option TenantContext → ExecutionResult → S → Type 0
  HasSaved tenant result t =
      (tool_result : ToolResult) × (id : String) × (s : S) × (ops.save now.execution_id
          (checkpoint_state ops now intent tenant tool_result) s
        ≡ (returned id, t))
      × (result ≡ record {
        success = true;
        execution_id = now.execution_id;
        checkpoint_id = some id;
        result_data = tool_result.result_data;
        error = none;
        state = completed;
      })

  pub result_eq :
      (a b : ExecutionResult)
      → ◌≡◌ {A = Outcome Error ExecutionResult} (returned a) (returned b)
      → a ≡ b
  result_eq a b h = cc

  agrees-HasSaved :
      (tenant : Option TenantContext) (r : Runtime S) (t : S) (result : ExecutionResult)
      → PolicyAgrees ops now intent tenant r.services t
      → (execute_quota_guarded ops now intent tenant r).0 ≡ returned result
      → HasSaved tenant result t
  unfolding execute_quota_guarded policy_stage capability_stage routing_stage tool_stage
      checkpoint_stage finish transition count
  agrees-HasSaved tenant r t result
        (
          _,
          _,
          policy,
          (_, _, capability, (_, _, routing, (tool_result, s, tool, ok, (id, checkpoint)))),
        )
        h =
      (
        tool_result,
        id,
        s,
        checkpoint,
        result_eq _ _ (sym h ∙ rw (policy, capability, routing, tool, ok, checkpoint) refl),
      )

  pub chain-HasSaved :
      (tenant : Option TenantContext) (r : Runtime S) (result : ExecutionResult)
      → (execute_quota_guarded ops now intent tenant r).0 ≡ returned result
      → result.success ≡ true
      → HasSaved tenant result (execute_quota_guarded ops now intent tenant r).1.services
  chain-HasSaved tenant r result h ok =
      agrees-HasSaved tenant r _ result
        (success-agrees ops now intent tenant r
          (by_outcome (execute_quota_guarded ops now intent tenant r) h))
        h
    where
      by_outcome : (run : Run S) → run.0 ≡ returned result → succeeds run ≡ true
      by_outcome (returned a, s) e = ap (λ x. x.success) (result_eq a result e) ∙ ok
      by_outcome (raised e', s) e = cc
