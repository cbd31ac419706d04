-- ===== src/Kernel/Runtime/Refusal.antt =====
-- Where the chain of kernel/runtime.py stops: what runs after a refusal.
use kitematic.Base.{String, ◌≡◌, refl, Bool, true, false, Option, Outcome, returned, raised}
use kitematic.Kernel.States.{validating, authorized}
use kitematic.Kernel.Errors.{Error}
use kitematic.Kernel.Tenant.{TenantContext}
use kitematic.Kernel.Contracts.{Collaborators, Intent}
use kitematic.Kernel.Runtime.Defs.{Runtime, Moment, count, transition, transition_safe}
use kitematic.Kernel.Runtime.Stages.{
  capable, capability_stage, permitted, policy_stage, execute_quota_guarded,
}

-- Whether an answer of the policy evaluator allows: a refusal and an exception do not.
abbrev pub allows : Outcome Error (Bool × Option String) → Bool
allows (returned (allowed, reason)) = allowed
allows (raised e) = false

module _ {S : Type 0} (ops : Collaborators S) (now : Moment) (intent : Intent)
    (tenant : Option TenantContext) where
  permitted-stops :
      (r : Runtime S) (o : Outcome Error (Bool × Option String))
      → allows o ≡ false
      → (permitted ops now intent tenant validating r o).1.services ≡ r.services
  unfolding permitted transition_safe count
  permitted-stops r (returned (true, reason)) h = cc
  permitted-stops r (returned (false, reason)) h = refl
  permitted-stops r (raised e) h = refl

  capable-stops :
      (r : Runtime S) (o : Outcome Error (Bool × Option String))
      → allows o ≡ false
      → (capable ops now intent tenant authorized r o).1.services ≡ r.services
  unfolding capable transition_safe count
  capable-stops r (returned (true, reason)) h = cc
  capable-stops r (returned (false, reason)) h = refl
  capable-stops r (raised e) h = refl

  -- If the policy refuses the intent or raises, nothing else is called: the collaborators' state
  -- stays as the policy left it.
  pub policy_refusal_stops :
      (r : Runtime S) (o : Outcome Error (Bool × Option String)) (s : S)
      → ops.evaluate_intent intent r.services ≡ (o, s)
      → allows o ≡ false
      → (execute_quota_guarded ops now intent tenant r).1.services ≡ s
  unfolding execute_quota_guarded policy_stage transition count
  policy_refusal_stops r o s e h =
      rw e (permitted-stops (record r { services = s; metrics = _ }) o h)

  -- If the policy allows the intent and the capability check refuses or raises, nothing else is
  -- called: the collaborators' state stays as the capability check left it.
  pub capability_refusal_stops :
      (r : Runtime S) (reason : Option String) (s : S)
      → ops.evaluate_intent intent r.services ≡ (returned (true, reason), s)
      → (o : Outcome Error (Bool × Option String)) (s' : S)
      → ops.check_capability intent.action intent.agent_id s ≡ (o, s')
      → allows o ≡ false
      → (execute_quota_guarded ops now intent tenant r).1.services ≡ s'
  unfolding execute_quota_guarded policy_stage capability_stage transition count
  capability_refusal_stops r reason s e o s' f h =
      rw (e, f) (capable-stops (record r { services = s'; metrics = _ }) o h)
