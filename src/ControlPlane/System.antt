-- ===== src/ControlPlane/System.antt =====
-- The runtime of kernel/runtime.py over the components that it is built for: the policy engine, the
-- tool registry behind router and gateway, the checkpoint adapter and the quota manager, each as its
-- adapter offers it. The repository leaves this assembly to the caller of `KitematicRuntime`.
pub mod Granted
pub mod Restorable
use kitematic.Base.{ℕ, String, Bool, true, false, Option, some, List, Outcome, returned, raised}
use kitematic.Base.Dict.{Dict}
use kitematic.Kernel.Values.{Value}
use kitematic.Kernel.Errors.{Error}
use kitematic.Kernel.Contracts.{Call, QuotaCalls, Collaborators, Intent, ExecutionPath, ToolResult}
use kitematic.Kernel.Gateway.{Gateway, CallTimes, access_tool}
use kitematic.Api.Quotas.{QuotaManager, quota_calls}
use kitematic.Storage.Repository.{Repository}
use kitematic.ControlPlane.Policy.Engine.{Engine}
use kitematic.ControlPlane.Adapters.Router.{route_intent}
use kitematic.ControlPlane.Adapters.Policies.{evaluate_intent, check_capability}
use kitematic.ControlPlane.Adapters.Checkpoints.{Adapter, Json, save_state, restore_state}

pub record Services (K : Type 0) (C : Type 0) (W : Type 0) (R : Type 0) : Type 0 where
  pub engine : Engine K
  pub gateway : Gateway C W
  pub checkpoints : Adapter R
  pub quotas : QuotaManager

-- What is given from outside: the clients of the tools, the repository of checkpoints, and the
-- libraries.
pub record Outside (C : Type 0) (W : Type 0) (R : Type 0) : Type 0 where
  pub call_tool : C → String → Dict Value → W → Outcome Error (Dict Value) × W
  pub repository : Repository R
  pub json : Json
  pub capabilities_key : List String → String
  pub matches : String → String → Bool
  pub seconds_text : ℕ → String
  pub repr : String → String

-- What one execution reads from the clocks, and its fresh identifier of a checkpoint.
pub record Readings : Type 0 where
  pub policy_get : ℕ
  pub policy_set : ℕ
  pub capability_get : ℕ
  pub capability_set : ℕ
  pub call : CallTimes
  pub checkpoint_id : String
  pub quota_now : ℕ

module _ {K C W R : Type 0} (out : Outside C W R) (at : Readings) where
  abbrev pub on_quotas : QuotaCalls QuotaManager → QuotaCalls (Services K C W R)
  on_quotas q = record {
    check_concurrent = λ tenant_id s. q.check_concurrent tenant_id s.quotas;
    check_and_consume_rate = λ tenant_id s.
        let (passed, m) = q.check_and_consume_rate tenant_id s.quotas in
        (passed, record s { quotas = m });
    retry_after = λ tenant_id s.
        let (wait, m) = q.retry_after tenant_id s.quotas in (wait, record s { quotas = m });
    start_execution = λ tenant_id execution_id s. record s {
      quotas = q.start_execution tenant_id execution_id s.quotas;
    };
    end_execution = λ tenant_id execution_id s. record s {
      quotas = q.end_execution tenant_id execution_id s.quotas;
    };
  }

  abbrev pub judge_intent : Intent → Call (Services K C W R) (Bool × Option String)
  judge_intent intent s =
      let (verdict, e) =
        evaluate_intent out.capabilities_key at.policy_get at.policy_set intent s.engine in
      (returned verdict, record s { engine = e })

  abbrev pub judge_capability : String → String → Call (Services K C W R) (Bool × Option String)
  judge_capability action agent_id s =
      let (verdict, e) =
        check_capability out.capabilities_key at.capability_get at.capability_set action agent_id
          s.engine in
      (returned verdict, record s { engine = e })

  abbrev pub route : Intent → Call (Services K C W R) ExecutionPath
  route intent s = (route_intent out.matches intent s.gateway.registry, s)

  abbrev pub access : ExecutionPath → Intent → Call (Services K C W R) ToolResult
  access path intent s =
      let (result, g) = access_tool out.call_tool at.call path intent s.gateway in
      (result, record s { gateway = g })

  abbrev pub save_to : String → Dict Value → Call (Services K C W R) String
  save_to execution_id state s =
      let (id, a) =
        save_state out.repository out.json at.checkpoint_id execution_id state s.checkpoints in
      (id, record s { checkpoints = a })

  abbrev pub restore_from : String → Call (Services K C W R) (Dict Value)
  restore_from checkpoint_id s =
      (restore_state out.repository out.json checkpoint_id s.checkpoints, s)

  abbrev pub collaborators : Collaborators (Services K C W R)
  collaborators = record {
    evaluate_intent = judge_intent;
    check_capability = judge_capability;
    route_intent = route;
    access_tool = access;
    save = save_to;
    restore = restore_from;
    quota_manager = some (on_quotas (quota_calls at.quota_now out.seconds_text));
    repr = out.repr;
  }
