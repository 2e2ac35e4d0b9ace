-- ===== src/Bridge/Runtime/Host.antt =====
-- agentpulse-bridge/src/runtime.rs: what the owner of a Runtime Host asks of it beside its
-- lifecycle.
use agentpulse_rs.Common.{
  List, [], ◌∷◌, map, Option, none, some, Bool, false, Result, map_err, ◌==◌, if◌then◌else◌,
}
use agentpulse_rs.Domain.Session.{Uuid}
use agentpulse_rs.Domain.Capability.{Flags}
use agentpulse_rs.Bridge.State.{Ports}
use agentpulse_rs.Bridge.Subscription.{
  SubscriptionError, SubscribeOutcome, UnsubscribeOutcome, subscribe, unsubscribe,
}
use agentpulse_rs.Bridge.Runtime.State.{
  RuntimeHost, RuntimeAccessError, RuntimeEndpointId, provider, channel, RegisteredAdapter,
  AdapterLifecycleState,
}

pub data RuntimeSubscriptionError : Type 0 where
  bridge_access : RuntimeAccessError → RuntimeSubscriptionError
  subscription : SubscriptionError → RuntimeSubscriptionError

-- `==` of two endpoints.
abbrev same_endpoint : RuntimeEndpointId → RuntimeEndpointId → Bool
same_endpoint (provider a) (provider b) = a == b
same_endpoint (channel a) (channel b) = a == b
same_endpoint _ _ = false

abbrev state_among : RuntimeEndpointId → List RegisteredAdapter → Option AdapterLifecycleState
state_among endpoint [] = none
state_among endpoint (a ∷ as') =
    if same_endpoint a.endpoint endpoint then some a.state else state_among endpoint as'

unfoldable pub adapter_state : RuntimeEndpointId → RuntimeHost → Option AdapterLifecycleState
adapter_state endpoint h = state_among endpoint h.adapters

unfoldable pub adapter_states : RuntimeHost → List (RuntimeEndpointId × AdapterLifecycleState)
adapter_states h = map (λ a. (a.endpoint, a.state)) h.adapters

unfoldable pub unsubscribe_host :
    Uuid → Uuid → RuntimeHost → RuntimeHost × Result RuntimeSubscriptionError UnsubscribeOutcome
unsubscribe_host channel_id session_id h =
    let (b, r) = unsubscribe channel_id session_id h.bridge in
    (record h { bridge = b }, map_err subscription r)

unfoldable pub subscribe_host :
    Flags
    → Ports
    → Uuid
    → Uuid
    → RuntimeHost
    → RuntimeHost × Result RuntimeSubscriptionError SubscribeOutcome
subscribe_host flags ports channel_id session_id h =
    let (b, r) = subscribe flags ports channel_id session_id h.bridge in
    (record h { bridge = b }, map_err subscription r)
