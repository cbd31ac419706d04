-- ===== src/Kernel/Runtime/Restore.antt =====
-- `restore_from_checkpoint` of kernel/runtime.py: whose checkpoints a runtime reads.
use kitematic.Base.{
  String, ◌<>◌, str_eq_cases, Bool, true, ◌≡◌, ◌≢◌, ◌⊎◌, inl, inr, refl, Option, none, some,
  Outcome, returned, raised,
}
use kitematic.Kernel.Values.{Value}
use kitematic.Base.Dict.{Dict}
use kitematic.Kernel.Errors.{Error, cross_tenant_access, cross_agent_access}
use kitematic.Kernel.Tenant.{TenantContext}
use kitematic.Kernel.Isolation.{Isolation, validate_checkpoint_owner}
use kitematic.Kernel.Contracts.{Collaborators}
use kitematic.Kernel.Runtime.Defs.{
  Runtime, check_owner, wrap, restore_checked, restore_from_checkpoint,
}

-- The caller does not say whose checkpoint it is, there is nothing to compare with, or the
-- checkpoint is said to be of the runtime's own tenant and agent.
abbrev pub MayRead :
    (tenant : Option TenantContext) (boundary : Option Isolation)
    (checkpoint_tenant checkpoint_agent : String)
    → Type 0
MayRead tenant boundary checkpoint_tenant checkpoint_agent =
    (tenant ≡ none)
    ⊎ ((boundary ≡ none)
        ⊎ ((checkpoint_tenant ≡ "")
            ⊎ ((checkpoint_agent ≡ "")
                ⊎ ((c : TenantContext) × (tenant ≡ some c)
                    × (checkpoint_tenant ≡ c.tenant_id)
                    × (checkpoint_agent ≡ c.agent_id)))))

-- The checkpoint is said to be another tenant's, or another agent's of this tenant, and the
-- exception tells which.
abbrev pub IsForeign :
    (tenant : Option TenantContext) (boundary : Option Isolation)
    (checkpoint_tenant checkpoint_agent : String)
    → Error
    → Type 0
IsForeign tenant boundary checkpoint_tenant checkpoint_agent error =
    (c : TenantContext) × (tenant ≡ some c)
    × (boundary ≢ none)
    × (checkpoint_tenant ≢ "")
    × (checkpoint_agent ≢ "")
    × (((checkpoint_tenant ≢ c.tenant_id)
          × (error
              ≡ cross_tenant_access c.tenant_id checkpoint_tenant
                  ("checkpoint:" <> checkpoint_agent)))
        ⊎ ((checkpoint_tenant ≡ c.tenant_id)
            × (checkpoint_agent ≢ c.agent_id)
            × (error
                ≡ cross_agent_access c.agent_id checkpoint_agent
                    ("checkpoint:" <> checkpoint_agent))))

-- What the check of the owner gives.
abbrev Checks :
    (tenant : Option TenantContext) (boundary : Option Isolation)
    (checkpoint_tenant checkpoint_agent : String)
    → Outcome Error Bool
    → Type 0
Checks tenant boundary t a o =
    ((o ≡ returned true) × MayRead tenant boundary t a)
    ⊎ ((e : Error) × (o ≡ raised e) × IsForeign tenant boundary t a e)

check_owner-Checks :
    (tenant : Option TenantContext) (boundary : Option Isolation) (t a : String)
    → Checks tenant boundary t a (check_owner tenant boundary t a)
unfolding validate_checkpoint_owner
check_owner-Checks none boundary t a = inl (refl, inl refl)
check_owner-Checks (some c) none t a = inl (refl, inr (inl refl))
check_owner-Checks (some c) (some b) t a = elim (str_eq_cases t "") [
  | inl (e, p) ↦ rw e (inl (refl, inr (inr (inl p))))
  | inr (e, p) ↦ elim (str_eq_cases a "") [
    | inl (f, q) ↦ rw (e, f) (inl (refl, inr (inr (inr (inl q)))))
    | inr (f, q) ↦ elim (str_eq_cases t c.tenant_id) [
      | inr (g, n) ↦ rw (e, f, g) (inr (_, refl, (c, refl, (λ k. cc), p, q, inl (n, refl))))
      | inl (g, same) ↦ elim (str_eq_cases a c.agent_id) [
        | inr (h, n) ↦
            rw (e, f, g, h) (inr (_, refl, (c, refl, (λ k. cc), p, q, inr (same, n, refl))))
        | inl (h, own) ↦ rw (e, f, g, h) (inl (refl, inr (inr (inr (inr (c, refl, same, own))))))
      ]
    ]
  ]
]

module _ {S : Type 0} (ops : Collaborators S)
    (checkpoint_id checkpoint_tenant checkpoint_agent : String) (r : Runtime S) where
  -- The store is read, and its answer passed on, or the runtime stays as it is with an exception.
  abbrev pub Guarded : Outcome Error (Dict Value) × Runtime S → Type 0
  Guarded run =
      ((run ≡ wrap ops (ops.restore checkpoint_id r.services) r)
        × MayRead r.tenant_context r.isolation checkpoint_tenant checkpoint_agent)
      ⊎ ((e : Error) × (run ≡ (raised e, r))
          × IsForeign r.tenant_context r.isolation checkpoint_tenant checkpoint_agent e)

  -- A runtime reads the store for a checkpoint exactly if it has no tenant or no isolation boundary,
  -- the caller leaves the checkpoint's tenant or its agent out, or both are the runtime's own. In
  -- every other case it raises an exception that tells whether the tenant or, within the tenant,
  -- the agent is another one, and the store is not read.
  pub restore_from_checkpoint-Guarded :
      Guarded (restore_from_checkpoint ops checkpoint_id checkpoint_tenant checkpoint_agent r)
  unfolding restore_from_checkpoint restore_checked
  restore_from_checkpoint-Guarded =
      by_check (check_owner r.tenant_context r.isolation checkpoint_tenant checkpoint_agent)
        (check_owner-Checks r.tenant_context r.isolation checkpoint_tenant checkpoint_agent)
    where
      by_check :
          (o : Outcome Error Bool)
          → Checks r.tenant_context r.isolation checkpoint_tenant checkpoint_agent o
          → Guarded (restore_checked ops o checkpoint_id r)
      by_check o (inl (e, may)) = inl (rw e refl, may)
      by_check o (inr (e, p, foreign)) = inr (e, rw p refl, foreign)
