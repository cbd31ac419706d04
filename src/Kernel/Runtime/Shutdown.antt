-- ===== src/Kernel/Runtime/Shutdown.antt =====
-- `drain` and `stop` of kernel/runtime.py: one way only, and no new call succeeds after them.
use kitematic.Base.{
  ℕ, ◌+◌, ◌≡◌, ◌≢◌, ◌∙◌, ap, sym, refl, Bool, true, false, Option, none, some, List, [], ◌∷◌,
  is_empty, arith, Outcome, returned, raised, if◌then◌else◌,
}
use kitematic.Kernel.States.{RuntimeState, running, draining, stopped}
use kitematic.Kernel.Errors.{Error}
use kitematic.Kernel.Tenant.{TenantContext}
use kitematic.Kernel.Isolation.{Isolation, check_resource_limits}
use kitematic.Kernel.Contracts.{Collaborators, QuotaCalls, Intent}
use kitematic.Kernel.Runtime.Defs.{Runtime, Moment, count, drain_state, drain, stop_from, stop}
use kitematic.Kernel.Runtime.Stages.{Run}
use kitematic.Kernel.Runtime.Governance.{succeeds}
use kitematic.Kernel.Runtime.Execute.{
  quota_tenant, by_state, admitted, rate_checked, concurrency_checked, by_quota, quota_stage,
  limits_checked, by_tenant, execute_intent,
}

drain_state_idem : (s : RuntimeState) → drain_state (drain_state s) ≡ drain_state s
unfolding drain_state
drain_state_idem running = refl
drain_state_idem _ = refl

stop_from_idem :
    {S : Type 0} (s : RuntimeState) (r : Runtime S) → r.state ≡ s → (stop_from s r).state ≡ stopped
unfolding stop_from count
stop_from_idem stopped r e = e
stop_from_idem _ r e = refl

stop-state : {S : Type 0} (r : Runtime S) → (stop r).state ≡ stopped
unfolding stop
stop-state r = stop_from_idem r.state r refl

stop_of_stopped : {S : Type 0} (s : RuntimeState) (r : Runtime S) → s ≡ stopped → stop_from s r ≡ r
unfolding stop_from
stop_of_stopped s r e = rw e refl

drain_of_stopped : (s : RuntimeState) → s ≡ stopped → drain_state s ≡ s
unfolding drain_state
drain_of_stopped s e = rw e refl

-- Draining twice is draining once, stopping twice is stopping once (its counter included), and
-- draining a stopped runtime changes nothing.
pub shutdown_idempotent :
    {S : Type 0} (r : Runtime S)
    → (drain (drain r) ≡ drain r) × (stop (stop r) ≡ stop r) × (drain (stop r) ≡ stop r)
shutdown_idempotent r = (
  unfold drain in ap (λ s. record r { state = s }) (drain_state_idem r.state),
  unfold stop in stop_of_stopped (stop r).state (stop r) (stop-state r),
  unfold drain in
      ap (λ s. record (stop r) { state = s }) (drain_of_stopped (stop r).state (stop-state r)),
)

-- What may happen to a runtime: its lifecycle commands, and calls of `execute_intent`.
pub data Event : Type 0 where
  drain_it stop_it : Event
  call : Moment → Intent → Event

-- A call whose run keeps the state of the runtime and does not succeed.
abbrev Refused : {S : Type 0} → Runtime S → Run S → Type 0
Refused r run = (succeeds run ≡ false) × (run.1.state ≡ r.state)

module _ {S : Type 0} (ops : Collaborators S) (now : Moment) (intent : Intent) where
  by_state-Refused :
      (s : RuntimeState) (tenant : Option TenantContext) (held : Option (QuotaCalls S))
      (r : Runtime S)
      → s ≢ running
      → Refused r (by_state ops now intent s tenant held r)
  unfolding by_state count
  by_state-Refused running tenant held r n = absurd (n refl)
  by_state-Refused draining tenant none r n = (refl, refl)
  by_state-Refused draining tenant (some q) r n = (refl, refl)
  by_state-Refused stopped tenant none r n = (refl, refl)
  by_state-Refused stopped tenant (some q) r n = (refl, refl)

  rate_checked-Refused :
      (q : QuotaCalls S) (tenant : Option TenantContext) (r : Runtime S) (answer : Bool × S)
      → r.state ≢ running
      → Refused r (rate_checked ops now intent q tenant r answer)
  unfolding rate_checked admitted count
  rate_checked-Refused q tenant r (false, s) n = (refl, refl)
  rate_checked-Refused q tenant r (true, s) n =
      by_state-Refused r.state tenant (some q) (record r { services = _ }) n

  by_quota-Refused :
      (q : Option (QuotaCalls S)) (tenant : Option TenantContext) (r : Runtime S)
      → r.state ≢ running
      → Refused r (by_quota ops now intent q tenant r)
  unfolding by_quota concurrency_checked admitted count
  by_quota-Refused none tenant r n = by_state-Refused r.state tenant none r n
  by_quota-Refused (some q) tenant r n = by_emptiness (is_empty (quota_tenant tenant)) refl
    where
      by_free : (free : Bool) → Refused r (concurrency_checked ops now intent q tenant r free)
      by_free true = rate_checked-Refused q tenant r _ n
      by_free false = (refl, refl)

      by_emptiness :
          (e : Bool)
          → is_empty (quota_tenant tenant) ≡ e
          → Refused r (by_quota ops now intent (some q) tenant r)
      by_emptiness true e = rw e (by_state-Refused r.state tenant none r n)
      by_emptiness false e = rw e (by_free (q.check_concurrent (quota_tenant tenant) r.services))

  by_tenant-Refused :
      (b : Option Isolation) (c : Option TenantContext) (r : Runtime S)
      → r.state ≢ running
      → Refused r (by_tenant ops now intent b c r)
  unfolding by_tenant quota_stage
  by_tenant-Refused none tenant r n = by_quota-Refused ops.quota_manager tenant r n
  by_tenant-Refused (some b) none r n = (refl, refl)
  by_tenant-Refused (some b) (some c) r n = by_limits (check_resource_limits b c.tenant_id)
    where
      by_limits : (o : Outcome Error (Unit {0})) → Refused r (limits_checked ops now intent b c r o)
      by_limits (raised e) = unfold limits_checked in (refl, refl)
      by_limits (returned _) =
          unfold limits_checked in
          by_quota-Refused ops.quota_manager (some c) (record r { isolation = _ }) n

module _ {S : Type 0} (ops : Collaborators S) where
  -- One event, with the number of successes that it brings.
  unfoldable pub happen : Event → Runtime S → ℕ × Runtime S
  happen drain_it r = (0, drain r)
  happen stop_it r = (0, stop r)
  happen (call now intent) r =
      let run = execute_intent ops now intent r in (if succeeds run then 1 else 0, run.1)

  -- The number of successes in a sequence of events.
  unfoldable pub successes : List Event → Runtime S → ℕ
  successes [] r = 0
  successes (e ∷ es) r = let (n, r') = happen e r in n + successes es r'

  drain-not_running : (r : Runtime S) → r.state ≢ running → (drain r).state ≢ running
  unfolding drain drain_state
  drain-not_running r n = ground arith

  call-Refused :
      (now : Moment) (intent : Intent) (r : Runtime S)
      → r.state ≢ running
      → Refused r (execute_intent ops now intent r)
  unfolding execute_intent
  call-Refused now intent r n = by_tenant-Refused ops now intent r.isolation r.tenant_context r n

  event_refused :
      (e : Event) (r : Runtime S)
      → r.state ≢ running
      → ((happen e r).0 ≡ 0) × ((happen e r).1.state ≢ running)
  unfolding happen
  event_refused drain_it r n = (refl, drain-not_running r n)
  event_refused stop_it r n = (refl, λ e. cc (stop-state r))
  event_refused (call now intent) r n =
      let (failed, kept) = call-Refused now intent r n in (rw failed refl, λ e. n (sym kept ∙ e))

  -- No call of `execute_intent` that begins while the runtime drains or after it has stopped
  -- succeeds, whatever calls and lifecycle commands follow one after the other. Calls that began
  -- before are not spoken of: they may still succeed.
  pub no_success_after_shutdown :
      (es : List Event) (r : Runtime S) → r.state ≢ running → successes es r ≡ 0
  unfolding successes
  no_success_after_shutdown [] r n = refl
  no_success_after_shutdown (e ∷ es) r n =
      let (none_now, later) = event_refused e r n in
      omega (arith, no_success_after_shutdown es (happen e r).1 later)
