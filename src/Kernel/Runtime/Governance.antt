-- ===== src/Kernel/Runtime/Governance.antt =====
-- The governance chain of kernel/runtime.py: policy, capability, routing, tool and checkpoint, in
-- this order, each only after all before it have agreed.
use kitematic.Base.{String, ◌≡◌, ◌↔◌, refl, Bool, true, false, Option, Outcome, returned, raised}
use mathlib.Core.Path.{subst}
use kitematic.Kernel.States.{validating, authorized, executing, checkpointing}
use kitematic.Kernel.Errors.{Error}
use kitematic.Kernel.Tenant.{TenantContext}
use kitematic.Kernel.Contracts.{Collaborators, Intent, ExecutionPath, ToolResult}
use kitematic.Kernel.Runtime.Defs.{Runtime, Moment, count, transition}
use kitematic.Kernel.Runtime.Stages.{
  Run, checkpoint_state, finish, saved, checkpoint_stage, judged, accessed, tool_stage, routed,
  routing_stage, capable, capability_stage, permitted, policy_stage, execute_quota_guarded,
}

-- Whether a run returned a success.
abbrev pub succeeds : {S : Type 0} → Run S → Bool
succeeds (returned res, r) = res.success
succeeds (raised e, r) = false

module _ {S : Type 0} (ops : Collaborators S) (now : Moment) (intent : Intent)
    (tenant : Option TenantContext) where
  -- Each stage agrees on the collaborators' state `s`, and what comes after it leaves `t`.
  abbrev pub CheckpointAgrees : ToolResult → S → S → Type 0
  CheckpointAgrees tool_result s t =
      (checkpoint_id : String) × (ops.save now.execution_id
          (checkpoint_state ops now intent tenant tool_result) s
        ≡ (returned checkpoint_id, t))

  abbrev pub ToolAgrees : ExecutionPath → S → S → Type 0
  ToolAgrees path s t =
      (tool_result : ToolResult) × (s' : S) × (ops.access_tool path intent s
        ≡ (returned tool_result, s'))
      × (tool_result.success ≡ true)
      × CheckpointAgrees tool_result s' t

  abbrev pub RoutingAgrees : S → S → Type 0
  RoutingAgrees s t =
      (path : ExecutionPath) × (s' : S) × (ops.route_intent intent s ≡ (returned path, s'))
      × ToolAgrees path s' t

  abbrev pub CapabilityAgrees : S → S → Type 0
  CapabilityAgrees s t =
      (reason : Option String) × (s' : S) × (ops.check_capability intent.action intent.agent_id s
        ≡ (returned (true, reason), s'))
      × RoutingAgrees s' t

  -- All five calls in their order, each on the state that the one before it left.
  abbrev pub PolicyAgrees : S → S → Type 0
  PolicyAgrees s t =
      (reason : Option String) × (s' : S) × (ops.evaluate_intent intent s
        ≡ (returned (true, reason), s'))
      × CapabilityAgrees s' t

  checkpoint_stage-agrees :
      (tool_result : ToolResult) (r : Runtime S)
      → succeeds (checkpoint_stage ops now intent tenant tool_result checkpointing r) ≡ true
      → CheckpointAgrees tool_result r.services
          (checkpoint_stage ops now intent tenant tool_result checkpointing r).1.services
  unfolding checkpoint_stage transition finish count
  checkpoint_stage-agrees tool_result r =
      saved_agrees
        (ops.save now.execution_id (checkpoint_state ops now intent tenant tool_result) r.services)
        refl
    where
      saved_agrees :
          (x : Outcome Error String × S)
          → ops.save now.execution_id
              (checkpoint_state ops now intent tenant tool_result)
              r.services
            ≡ x
          → succeeds (
              saved ops now intent tenant tool_result checkpointing
                (record r { services = x.1 })
                x.0)
            ≡ true
          → CheckpointAgrees tool_result r.services
              (saved ops now intent tenant tool_result checkpointing
                (record r { services = x.1 })
                x.0).1.services
      saved_agrees (returned id, t) e h = (id, e)
      saved_agrees (raised x, t) e h = cc

  tool_stage-agrees :
      (path : ExecutionPath) (r : Runtime S)
      → succeeds (tool_stage ops now intent tenant path executing r) ≡ true
      → ToolAgrees path r.services (tool_stage ops now intent tenant path executing r).1.services
  unfolding tool_stage transition count
  tool_stage-agrees path r = accessed_agrees (ops.access_tool path intent r.services) refl
    where
      judged_agrees :
          (tool_result : ToolResult) (s' : S)
          → ops.access_tool path intent r.services ≡ (returned tool_result, s')
          → (b : Bool) → tool_result.success ≡ b
          → succeeds
              (judged ops now intent tenant tool_result executing (record r { services = s' }) b)
            ≡ true
          → ToolAgrees path r.services
              (judged ops now intent tenant tool_result executing
                (record r { services = s' })
                b).1.services
      judged_agrees tool_result s' e false b h = cc
      judged_agrees tool_result s' e true b h = (
        tool_result,
        s',
        e,
        b,
        checkpoint_stage-agrees tool_result (record r { services = s' }) h,
      )

      accessed_agrees :
          (x : Outcome Error ToolResult × S)
          → ops.access_tool path intent r.services ≡ x
          → succeeds (accessed ops now intent tenant executing (record r { services = x.1 }) x.0)
            ≡ true
          → ToolAgrees path r.services
              (accessed ops now intent tenant executing
                (record r { services = x.1 })
                x.0).1.services
      accessed_agrees (returned tool_result, s') e h =
          judged_agrees tool_result s' e tool_result.success refl h
      accessed_agrees (raised x, s') e h = cc

  routing_stage-agrees :
      (r : Runtime S)
      → succeeds (routing_stage ops now intent tenant executing r) ≡ true
      → RoutingAgrees r.services (routing_stage ops now intent tenant executing r).1.services
  unfolding routing_stage count
  routing_stage-agrees r = routed_agrees (ops.route_intent intent r.services) refl
    where
      routed_agrees :
          (x : Outcome Error ExecutionPath × S)
          → ops.route_intent intent r.services ≡ x
          → succeeds (routed ops now intent tenant executing (record r { services = x.1 }) x.0)
            ≡ true
          → RoutingAgrees r.services
              (routed ops now intent tenant executing (record r { services = x.1 }) x.0).1.services
      routed_agrees (returned path, s') e h =
          (path, s', e, tool_stage-agrees path (record r { services = s' }) h)
      routed_agrees (raised x, s') e h = cc

  capability_stage-agrees :
      (r : Runtime S)
      → succeeds (capability_stage ops now intent tenant authorized r) ≡ true
      → CapabilityAgrees r.services (capability_stage ops now intent tenant authorized r).1.services
  unfolding capability_stage transition count
  capability_stage-agrees r =
      capable_agrees (ops.check_capability intent.action intent.agent_id r.services) refl
    where
      capable_agrees :
          (x : Outcome Error (Bool × Option String) × S)
          → ops.check_capability intent.action intent.agent_id r.services ≡ x
          → succeeds (capable ops now intent tenant authorized (record r { services = x.1 }) x.0)
            ≡ true
          → CapabilityAgrees r.services
              (capable ops now intent tenant authorized
                (record r { services = x.1 })
                x.0).1.services
      capable_agrees (returned (true, reason), s') e h =
          (reason, s', e, routing_stage-agrees (record r { services = s' }) h)
      capable_agrees (returned (false, reason), s') e h = cc
      capable_agrees (raised x, s') e h = cc

  policy_stage-agrees :
      (r : Runtime S)
      → succeeds (policy_stage ops now intent tenant validating r) ≡ true
      → PolicyAgrees r.services (policy_stage ops now intent tenant validating r).1.services
  unfolding policy_stage transition count
  policy_stage-agrees r = permitted_agrees (ops.evaluate_intent intent r.services) refl
    where
      permitted_agrees :
          (x : Outcome Error (Bool × Option String) × S)
          → ops.evaluate_intent intent r.services ≡ x
          → succeeds (permitted ops now intent tenant validating (record r { services = x.1 }) x.0)
            ≡ true
          → PolicyAgrees r.services
              (permitted ops now intent tenant validating
                (record r { services = x.1 })
                x.0).1.services
      permitted_agrees (returned (true, reason), s') e h =
          (reason, s', e, capability_stage-agrees (record r { services = s' }) h)
      permitted_agrees (returned (false, reason), s') e h = cc
      permitted_agrees (raised x, s') e h = cc

  pub success-agrees :
      (r : Runtime S)
      → succeeds (execute_quota_guarded ops now intent tenant r) ≡ true
      → PolicyAgrees r.services (execute_quota_guarded ops now intent tenant r).1.services
  unfolding execute_quota_guarded transition count
  success-agrees r h = policy_stage-agrees (record r { metrics = _ }) h

  agrees-success :
      (r : Runtime S) (t : S)
      → PolicyAgrees r.services t
      → (succeeds (execute_quota_guarded ops now intent tenant r) ≡ true)
        × ((execute_quota_guarded ops now intent tenant r).1.services ≡ t)
  unfolding execute_quota_guarded policy_stage capability_stage routing_stage tool_stage
      checkpoint_stage finish transition count
  agrees-success r t
        (_, _, policy, (_, _, capability, (_, _, routing, (_, _, tool, ok, (_, checkpoint))))) =
      rw (policy, capability, routing, tool, ok, checkpoint) (refl, refl)

  -- The chain succeeds exactly when the policy, the capability check, the router, the tool and the
  -- checkpoint all agree, called in this order, each on the state that the one before it left; and
  -- then nothing else has touched the collaborators' state.
  pub success_iff-agrees :
      (r : Runtime S) (t : S)
      → ((succeeds (execute_quota_guarded ops now intent tenant r) ≡ true)
          × ((execute_quota_guarded ops now intent tenant r).1.services ≡ t))
        ↔ PolicyAgrees r.services t
  success_iff-agrees r t =
      (λ h. subst (PolicyAgrees r.services) h.1 (success-agrees r h.0), agrees-success r t)
