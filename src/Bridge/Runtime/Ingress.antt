-- ===== src/Bridge/Runtime/Ingress.antt =====
-- agentpulse-bridge/src/runtime.rs: the ingress handles of Providers and Channels.
use agentpulse_rs.Common.{ℕ, List, [], ◌∷◌, Result, ok, err, map_err, if◌then◌else◌, ◌==◌, not}
use agentpulse_rs.Domain.Session.{Uuid}
use agentpulse_rs.Domain.Capability.{Flags}
use agentpulse_rs.Domain.Command.{AgentCommand}
use agentpulse_rs.Domain.Interaction.{InteractionResponse}
use agentpulse_rs.Domain.Event.{AgentEvent}
use agentpulse_rs.Bridge.State.{Ports, Bridge, ChannelDiscoverySnapshot, discovery_snapshot}
use agentpulse_rs.Bridge.Events.{ProviderEventError, ProviderEventReport, handle_provider_event}
use agentpulse_rs.Bridge.Actions.{ChannelActionError, handle_interaction_response, handle_command}
use agentpulse_rs.Bridge.Subscription.{
  SubscriptionError, SubscribeOutcome, UnsubscribeOutcome, subscribe, unsubscribe,
}
use agentpulse_rs.Bridge.Sync.{SessionSyncOutcome, sync_session}
use agentpulse_rs.Bridge.Runtime.State.{
  RuntimeHost, RuntimeAccessError, RuntimeEndpointId, provider, channel, Permit, enter,
}

pub data ProviderEventIngressError : Type 0 where
  provider_mismatch : (expected actual : Uuid) → ProviderEventIngressError
  inactive : (provider_id : Uuid) → ProviderEventIngressError
  host_dropped : (provider_id : Uuid) → ProviderEventIngressError
  bridge_access : RuntimeAccessError → ProviderEventIngressError
  bridge : ProviderEventError → ProviderEventIngressError

pub data ChannelActionIngressError : Type 0 where
  channel_mismatch : (expected actual : Uuid) → ChannelActionIngressError
  inactive : (channel_id : Uuid) → ChannelActionIngressError
  host_dropped : (channel_id : Uuid) → ChannelActionIngressError
  bridge_access : RuntimeAccessError → ChannelActionIngressError
  bridge : ChannelActionError → ChannelActionIngressError
  subscription : SubscriptionError → ChannelActionIngressError

-- A ProviderEventHandle or ChannelActionHandle: whose it is, and its permit.
pub record IngressHandle : Type 0 where
  pub id : Uuid
  pub permit : Permit

module _ (flags : Flags) (ports : Ports) where
  unfoldable pub publish_event_handle :
      IngressHandle
      → AgentEvent
      → RuntimeHost
      → RuntimeHost × Result ProviderEventIngressError ProviderEventReport
  publish_event_handle k e h =
      let (b, r) = handle_provider_event flags ports k.id e h.bridge in
      if enter k.permit h
      then (record h { bridge = b }, map_err ProviderEventIngressError.bridge r)
      else (h, err (ProviderEventIngressError.inactive k.id))

  unfoldable pub publish_event_sink :
      IngressHandle
      → Uuid
      → AgentEvent
      → RuntimeHost
      → RuntimeHost × Result ProviderEventIngressError ProviderEventReport
  publish_event_sink k provider_id e h =
      if not (provider_id == k.id)
      then (h, err (provider_mismatch k.id provider_id))
      else publish_event_handle k e h

-- `with_bridge_access`.
unfoldable pub with_bridge_access {ℓ} :
    {R : Type ℓ}
    → IngressHandle
    → (Bridge → Bridge × Result ChannelActionIngressError R)
    → RuntimeHost
    → RuntimeHost × Result ChannelActionIngressError R
with_bridge_access k operation h =
    let (b, r) = operation h.bridge in
    if enter k.permit h
    then (record h { bridge = b }, r)
    else (h, err (ChannelActionIngressError.inactive k.id))

abbrev pub translate {ℓ κ} :
    {E : Type κ} {R : Type ℓ}
    → (E → ChannelActionIngressError)
    → Bridge × Result E R
    → Bridge × Result ChannelActionIngressError R
translate f p = (p.0, map_err f p.1)

unfoldable pub discovery_snapshot_handle :
    IngressHandle
    → RuntimeHost
    → RuntimeHost × Result ChannelActionIngressError ChannelDiscoverySnapshot
discovery_snapshot_handle k = with_bridge_access k λ b. (b, ok (discovery_snapshot b))

unfoldable pub unsubscribe_handle :
    IngressHandle
    → Uuid
    → RuntimeHost
    → RuntimeHost × Result ChannelActionIngressError UnsubscribeOutcome
unsubscribe_handle k session_id =
    with_bridge_access k λ b. translate subscription (unsubscribe k.id session_id b)

module _ (flags : Flags) (ports : Ports) where
  unfoldable pub subscribe_handle :
      IngressHandle
      → Uuid
      → RuntimeHost
      → RuntimeHost × Result ChannelActionIngressError SubscribeOutcome
  subscribe_handle k session_id =
      with_bridge_access k λ b. translate subscription (subscribe flags ports k.id session_id b)

  unfoldable pub sync_session_handle :
      IngressHandle
      → Uuid
      → ℕ
      → ℕ
      → RuntimeHost
      → RuntimeHost × Result ChannelActionIngressError SessionSyncOutcome
  sync_session_handle k session_id after max_events =
      with_bridge_access k
        λ b. translate subscription (sync_session flags ports k.id session_id after max_events b)

  unfoldable pub submit_response_handle :
      IngressHandle
      → InteractionResponse
      → RuntimeHost
      → RuntimeHost × Result ChannelActionIngressError (Unit {0})
  submit_response_handle k r = with_bridge_access k λ b.
      translate ChannelActionIngressError.bridge (handle_interaction_response flags ports k.id r b)

  unfoldable pub submit_command_handle :
      IngressHandle
      → AgentCommand
      → RuntimeHost
      → RuntimeHost × Result ChannelActionIngressError (Unit {0})
  submit_command_handle k c =
      with_bridge_access k
        λ b. translate ChannelActionIngressError.bridge (handle_command flags ports k.id c b)

-- The calls that a Source can make through its handle.
pub data IngressCall : Type 0 where
  publish : AgentEvent → IngressCall
  subscribe_to : (session_id : Uuid) → IngressCall
  sync_with : (session_id : Uuid) (after max_events : ℕ) → IngressCall
  unsubscribe_from : (session_id : Uuid) → IngressCall
  respond : InteractionResponse → IngressCall
  submit : AgentCommand → IngressCall

module _ (flags : Flags) (ports : Ports) where
  -- The effect of a call on the Host. A Provider's handle offers `publish`, a Channel's the rest.
  unfoldable pub call_handle : RuntimeEndpointId → Permit → IngressCall → RuntimeHost → RuntimeHost
  call_handle (provider id) permit (publish e) h =
      (publish_event_handle flags ports (record { id = id; permit = permit }) e h).0
  call_handle (channel id) permit (subscribe_to s) h =
      (subscribe_handle flags ports (record { id = id; permit = permit }) s h).0
  call_handle (channel id) permit (sync_with s after n) h =
      (sync_session_handle flags ports (record { id = id; permit = permit }) s after n h).0
  call_handle (channel id) permit (unsubscribe_from s) h =
      (unsubscribe_handle (record { id = id; permit = permit }) s h).0
  call_handle (channel id) permit (respond r) h =
      (submit_response_handle flags ports (record { id = id; permit = permit }) r h).0
  call_handle (channel id) permit (submit c) h =
      (submit_command_handle flags ports (record { id = id; permit = permit }) c h).0
  call_handle _ permit _ h = h

  unfoldable pub call_all :
      RuntimeEndpointId → Permit → List IngressCall → RuntimeHost → RuntimeHost
  call_all endpoint permit [] h = h
  call_all endpoint permit (c ∷ cs) h =
      call_all endpoint permit cs (call_handle endpoint permit c h)
