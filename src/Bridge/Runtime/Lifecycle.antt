-- ===== src/Bridge/Runtime/Lifecycle.antt =====
-- agentpulse-bridge/src/runtime.rs: `start` and `stop` of the Runtime Host and of its adapters.
use agentpulse_rs.Common.{
  suc, Bool, true, false, not, List, [], ◌∷◌, ◌++◌, Option, none, some, Result, ok, err, any,
  if◌then◌else◌,
}
use agentpulse_rs.Common.Map.{insert}
use agentpulse_rs.Domain.Session.{Uuid}
use agentpulse_rs.Domain.Capability.{Flags}
use agentpulse_rs.Bridge.State.{AdapterError, Ports, Bridge}
use agentpulse_rs.Bridge.Subscription.{unsubscribe_channel}
use agentpulse_rs.Bridge.Runtime.State.{
  RuntimeHost, RuntimeAccessError, RuntimeHostState, RegisteredAdapter, RuntimeEndpointId, channel,
  ChannelSubscriptionScope, source_generation, AdapterLifecycleState, AdapterLifecyclePhase, Permit,
  revoke, revoke_opt,
}
use agentpulse_rs.Bridge.Runtime.Ingress.{IngressCall, call_all}

-- The Sources behind their traits: the calls that a callback makes through its handle, which may
-- depend on all that the handle lets it see, and what the callback answers; `none` is `Ok(())`.
pub record Sources : Type 0 where
  pub calls :
      RuntimeEndpointId
      → AdapterLifecyclePhase
      → List AdapterLifecyclePhase
      → Bridge
      → List IngressCall
  pub answer :
      RuntimeEndpointId
      → AdapterLifecyclePhase
      → List AdapterLifecyclePhase
      → Bridge
      → Option AdapterError

pub record AdapterLifecycleError : Type 0 where
  pub endpoint : RuntimeEndpointId
  pub phase : AdapterLifecyclePhase
  pub source : AdapterError

pub data AdapterLifecycleResult : Type 0 where
  succeeded : (endpoint : RuntimeEndpointId) → AdapterLifecycleResult
  skipped : (endpoint : RuntimeEndpointId) (state : AdapterLifecycleState) → AdapterLifecycleResult
  failed : AdapterLifecycleError → AdapterLifecycleResult

abbrev pub is_success : AdapterLifecycleResult → Bool
is_success (failed e) = false
is_success _ = true

pub data RuntimeLifecycleOutcome : Type 0 where
  started already_started stopped already_stopped stop_failed : RuntimeLifecycleOutcome

pub data RuntimeLifecycleOperation : Type 0 where
  start stop : RuntimeLifecycleOperation

pub record RuntimeLifecycleReport : Type 0 where
  pub operation : RuntimeLifecycleOperation
  pub outcome : RuntimeLifecycleOutcome
  pub adapters : List AdapterLifecycleResult

abbrev pub any_failed : List AdapterLifecycleResult → Bool
any_failed results = any (λ r. not (is_success r)) results

pub data RuntimeLifecycleError : Type 0 where
  cleanup_required : RuntimeLifecycleError
  bridge_access : RuntimeAccessError → RuntimeLifecycleError
  adapter_failures : (report : RuntimeLifecycleReport) → RuntimeLifecycleError

abbrev pub Lifecycle : Type 0
Lifecycle = Result RuntimeLifecycleError RuntimeLifecycleReport

-- `Err(AdapterFailures)` if a callback failed.
abbrev pub conclude : RuntimeLifecycleReport → Result RuntimeLifecycleError RuntimeLifecycleReport
conclude report = if any_failed report.adapters then err (adapter_failures report) else ok report

-- An adapter after a callback.
abbrev pub called_back :
    AdapterLifecyclePhase
    → AdapterLifecycleState
    → Option Permit
    → RegisteredAdapter
    → RegisteredAdapter
called_back phase state permit a = record a {
  state = state;
  permit = permit;
  callbacks = phase ∷ a.callbacks;
}

abbrev pub failure :
    RegisteredAdapter → AdapterLifecyclePhase → AdapterError → AdapterLifecycleResult
failure a phase x = failed (record { endpoint = a.endpoint; phase = phase; source = x })

-- `source_generation_channel`.
unfoldable pub source_generation_channel : RegisteredAdapter → Option Uuid
source_generation_channel a = scoped a.endpoint a.subscription_scope
  where
    scoped : RuntimeEndpointId → ChannelSubscriptionScope → Option Uuid
    scoped (channel id) source_generation = some id
    scoped _ _ = none

unfoldable pub revoke_all_ingress : List RegisteredAdapter → RuntimeHost → RuntimeHost
revoke_all_ingress [] h = h
revoke_all_ingress (a ∷ as') h = revoke_all_ingress as' (revoke_opt a.permit h)

abbrev pub unsubscribe_opt : Option Uuid → Bridge → Bridge
unsubscribe_opt none b = b
unsubscribe_opt (some id) b = (unsubscribe_channel id b).0

unfoldable pub clear_source_generation_subscriptions : List RegisteredAdapter → Bridge → Bridge
clear_source_generation_subscriptions [] b = b
clear_source_generation_subscriptions (a ∷ as') b =
    clear_source_generation_subscriptions as' (unsubscribe_opt (source_generation_channel a) b)

module _ (flags : Flags) (ports : Ports) (sources : Sources) where
  -- `RegisteredAdapter::start`.
  unfoldable pub start_adapter :
      RegisteredAdapter → RuntimeHost → RegisteredAdapter × AdapterLifecycleResult × RuntimeHost
  start_adapter a h =
      let permit = h.next_permit in
      let issued = record h { permits = insert permit true h.permits; next_permit = suc permit } in
      let calls = sources.calls a.endpoint AdapterLifecyclePhase.start a.callbacks h.bridge in
      let ran = call_all flags ports a.endpoint permit calls issued in
      elim (sources.answer a.endpoint AdapterLifecyclePhase.start a.callbacks h.bridge) [
        | none ↦ (
          called_back AdapterLifecyclePhase.start AdapterLifecycleState.running (some permit) a,
          succeeded a.endpoint,
          ran,
        )
        | some x ↦ (
          called_back AdapterLifecyclePhase.start AdapterLifecycleState.start_failed (some permit)
              a,
          failure a AdapterLifecyclePhase.start x,
          revoke permit ran,
        )
      ]

  abbrev pub call_opt :
      RuntimeEndpointId → Option Permit → List IngressCall → RuntimeHost → RuntimeHost
  call_opt endpoint none calls h = h
  call_opt endpoint (some permit) calls h = call_all flags ports endpoint permit calls h

  -- `RegisteredAdapter::stop`.
  unfoldable pub stop_adapter :
      RegisteredAdapter → RuntimeHost → RegisteredAdapter × AdapterLifecycleResult × RuntimeHost
  stop_adapter a h =
      let calls = sources.calls a.endpoint AdapterLifecyclePhase.stop a.callbacks h.bridge in
      let ran = call_opt a.endpoint a.permit calls (revoke_opt a.permit h) in
      elim (sources.answer a.endpoint AdapterLifecyclePhase.stop a.callbacks h.bridge) [
        | none ↦ (
          called_back AdapterLifecyclePhase.stop AdapterLifecycleState.stopped a.permit a,
          succeeded a.endpoint,
          ran,
        )
        | some x ↦ (
          called_back AdapterLifecyclePhase.stop AdapterLifecycleState.stop_failed a.permit a,
          failure a AdapterLifecyclePhase.stop x,
          ran,
        )
      ]

  -- `for adapter in &mut self.adapters` of `start`.
  unfoldable pub start_all :
      List RegisteredAdapter
      → RuntimeHost
      → List RegisteredAdapter × List AdapterLifecycleResult × RuntimeHost
  start_all [] h = ([], [], h)
  start_all (a ∷ as') h =
      let (a', r, h') = start_adapter a h in
      let (done, results, h'') = start_all as' h' in (a' ∷ done, r ∷ results, h'')

  -- The body of the loop of `stop`.
  unfoldable pub stop_one :
      RegisteredAdapter → RuntimeHost → RegisteredAdapter × AdapterLifecycleResult × RuntimeHost
  stop_one a h = by_state a.state
    where
      by_state : AdapterLifecycleState → RegisteredAdapter × AdapterLifecycleResult × RuntimeHost
      by_state AdapterLifecycleState.stopped =
          (a, skipped a.endpoint AdapterLifecycleState.stopped, h)
      by_state _ = stop_adapter a h

  -- `for adapter in self.adapters.iter_mut().rev()`: the later adapters first.
  unfoldable pub stop_all :
      List RegisteredAdapter
      → RuntimeHost
      → List RegisteredAdapter × List AdapterLifecycleResult × RuntimeHost
  stop_all [] h = ([], [], h)
  stop_all (a ∷ as') h =
      let (done, results, h') = stop_all as' h in
      let (a', r, h'') = stop_one a h' in (a' ∷ done, results ++ (r ∷ []), h'')

  abbrev pub report_of :
      RuntimeLifecycleOperation
      → RuntimeLifecycleOutcome
      → List AdapterLifecycleResult
      → RuntimeLifecycleReport
  report_of operation outcome results = record {
    operation = operation;
    outcome = outcome;
    adapters = results;
  }

  abbrev pub start_stopped : RuntimeHost → RuntimeHost × Lifecycle
  start_stopped h =
      let (adapters, results, h') = start_all h.adapters h in
      (
        record h' { adapters = adapters; state = RuntimeHostState.started },
        conclude
            (report_of RuntimeLifecycleOperation.start RuntimeLifecycleOutcome.started results),
      )

  unfoldable pub start_host :
      RuntimeHost → RuntimeHost × Result RuntimeLifecycleError RuntimeLifecycleReport
  start_host h = by_state h.state
    where
      by_state : RuntimeHostState → RuntimeHost × Lifecycle
      by_state RuntimeHostState.started = (
        h,
        ok (report_of RuntimeLifecycleOperation.start RuntimeLifecycleOutcome.already_started []),
      )
      by_state RuntimeHostState.stop_failed = (h, err cleanup_required)
      by_state RuntimeHostState.stopped = start_stopped h

  abbrev pub stop_active : RuntimeHost → RuntimeHost × Lifecycle
  stop_active h =
      let revoked = revoke_all_ingress h.adapters h in
      let bridge = clear_source_generation_subscriptions h.adapters revoked.bridge in
      let (adapters, results, h') = stop_all h.adapters (record revoked { bridge = bridge }) in
      if any_failed results
      then (
        record h' { adapters = adapters; state = RuntimeHostState.stop_failed },
        err (
            adapter_failures (
              report_of RuntimeLifecycleOperation.stop RuntimeLifecycleOutcome.stop_failed
                results)),
      )
      else (
        record h' { adapters = adapters; state = RuntimeHostState.stopped },
        ok (report_of RuntimeLifecycleOperation.stop RuntimeLifecycleOutcome.stopped results),
      )

  unfoldable pub stop_host :
      RuntimeHost → RuntimeHost × Result RuntimeLifecycleError RuntimeLifecycleReport
  stop_host h = by_state h.state
    where
      by_state : RuntimeHostState → RuntimeHost × Lifecycle
      by_state RuntimeHostState.stopped = (
        h,
        ok (report_of RuntimeLifecycleOperation.stop RuntimeLifecycleOutcome.already_stopped []),
      )
      by_state _ = stop_active h
