-- ===== src/ControlPlane/System/Restorable.antt =====
-- A successful execution can be restored: kernel/runtime.py over the checkpoint adapter of
-- control_plane/adapters/to_kernel/checkpoint.py.
use kitematic.Base.{
  String, ◌≡◌, ◌∙◌, refl, sym, ap, true, inl, inr, Option, none, some, Outcome, returned, raised,
}
use kitematic.Base.Dict.{Dict}
use kitematic.Kernel.Values.{Value}
use kitematic.Kernel.Errors.{Error}
use kitematic.Kernel.Tenant.{TenantContext}
use kitematic.Kernel.Isolation.{Isolation}
use kitematic.Kernel.Contracts.{Collaborators, QuotaCalls, Intent, ExecutionResult}
use kitematic.Kernel.Runtime.{Runtime, Moment, execute_intent, restore_from_checkpoint}
use kitematic.Kernel.Runtime.Defs.{check_owner, wrap, restore_checked}
use kitematic.Kernel.Runtime.Stages.{checkpoint_state}
use kitematic.Kernel.Runtime.Chain.{IsHeld, released_by, execute_intent-HasSaved}
use kitematic.Storage.Documents.{sort_entry}
use kitematic.ControlPlane.Adapters.Checkpoints.{restore_state}
use kitematic.ControlPlane.Adapters.Checkpoints.Saved.{restore_state-save_state}
use kitematic.ControlPlane.System.{Services, Outside, Readings, save_to, collaborators}

check_owner_default :
    (tenant : Option TenantContext) (b : Option Isolation)
    → check_owner tenant b "" "" ≡ returned true
check_owner_default none b = refl
check_owner_default (some c) none = refl
check_owner_default (some c) (some b) = refl

-- the state that a successful execution has saved
abbrev pub saved_state :
    {S : Type 0}
    → Collaborators S
    → Moment
    → Intent
    → Option TenantContext
    → ExecutionResult
    → Dict Value
saved_state ops now intent tenant result =
    checkpoint_state ops now intent tenant
      (record { success = true; result_data = result.result_data; error = none })

module _ {K C W R : Type 0} (out : Outside C W R) (at : Readings) (now : Moment)
    (intent : Intent) where
  save_to-Restorable :
      (execution_id : String) (state : Dict Value) (id : String) (s t : Services K C W R)
      → out.json.loads (out.json.dumps (sort_entry state)) ≡ returned (sort_entry state)
      → save_to out at execution_id state s ≡ (returned id, t)
      → restore_state out.repository out.json id t.checkpoints ≡ returned (sort_entry state)
  save_to-Restorable execution_id state id s t reads h =
      ap (λ x. restore_state out.repository out.json id x.1.checkpoints) (sym h)
      ∙ restore_state-save_state out.repository out.json at.checkpoint_id execution_id state
          s.checkpoints id reads (ap (λ x. x.0) h)

  -- the release of a quota keeps the checkpoints
  released-checkpoints :
      (held : Option (QuotaCalls (Services K C W R))) (tenant_id : String) (s : Services K C W R)
      → IsHeld (collaborators out at) now intent held
      → (released_by (collaborators out at) now intent held tenant_id s).checkpoints ≡ s.checkpoints
  released-checkpoints held tenant_id s (inl h) = rw h refl
  released-checkpoints held tenant_id s (inr h) = rw h refl

  wrap-returned :
      (o : Outcome Error (Dict Value) × Services K C W R) (r : Runtime (Services K C W R))
      (state : Dict Value)
      → o.0 ≡ returned state
      → (wrap (collaborators out at) o r).0 ≡ returned state
  unfolding wrap
  wrap-returned (returned d, s) r state h = h
  wrap-returned (raised e, s) r state h = cc

  restore_from_checkpoint-restored :
      (id : String) (r : Runtime (Services K C W R)) (state : Dict Value)
      → restore_state out.repository out.json id r.services.checkpoints ≡ returned state
      → (restore_from_checkpoint (collaborators out at) id "" "" r).0 ≡ returned state
  unfolding restore_from_checkpoint restore_checked
  restore_from_checkpoint-restored id r state h =
      rw (check_owner_default r.tenant_context r.isolation) (
        wrap-returned (restore_state out.repository out.json id r.services.checkpoints, r.services)
          r state h)

  -- After a successful execution, whatever its collaborators did, the runtime restores the
  -- checkpoint named in the result: it gives back the state of this execution with the result's
  -- data, with the keys of every dict sorted, if the JSON text of this sorted state reads back as it.
  pub restore-execute_intent :
      (r : Runtime (Services K C W R)) (result : ExecutionResult)
      → (execute_intent (collaborators out at) now intent r).0 ≡ returned result
      → result.success ≡ true
      → out.json.loads (
          out.json.dumps (
            sort_entry
              (saved_state (collaborators {K = K} out at) now intent r.tenant_context result)))
        ≡ returned (
            sort_entry
              (saved_state (collaborators {K = K} out at) now intent r.tenant_context result))
      → (id : String) × (result.checkpoint_id ≡ some id)
        × ((restore_from_checkpoint
              (collaborators out at)
              id
              ""
              ""
              (execute_intent (collaborators out at) now intent r).1).0
            ≡ returned (
                sort_entry
                  (saved_state (collaborators {K = K} out at) now intent r.tenant_context result)))
  restore-execute_intent r result h ok reads =
      let (held, t, k, left, (tool_result, id, s, saved, e)) =
        execute_intent-HasSaved (collaborators out at) now intent r result h ok in
      (
        id,
        ap (λ x. x.checkpoint_id) e,
        restore_from_checkpoint-restored id _ _ (
            ap (λ x. restore_state out.repository out.json id x.checkpoints) left
            ∙ ap (restore_state out.repository out.json id) (released-checkpoints held _ t k)
            ∙ save_to-Restorable now.execution_id _ id s t reads (
                ap
                  (λ d.
                    save_to out at now.execution_id
                      (checkpoint_state (collaborators {K = K} out at) now intent r.tenant_context
                        (record { success = true; result_data = d; error = none }))
                      s)
                  (ap (λ x. x.result_data) e)
                ∙ saved)),
      )
