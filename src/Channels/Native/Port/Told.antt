-- ===== src/Channels/Native/Port/Told.antt =====
-- What a delivery of the Bridge tells the client of agentpulse-channels/native: the messages of a
-- baseline and of a sync, with their contexts.
use agentpulse_rs.Common.{List, [], ◌∷◌, ◌++◌, map, Option, none, some, All}
use agentpulse_rs.Domain.Error.{Text}
use agentpulse_rs.Domain.Identifiers.{Formats}
use agentpulse_rs.Routing.{InteractionRoute, ChannelEventRoute, observe_only, interaction}
use agentpulse_rs.Bridge.State.{
  RoutedAgentEvent, RoutedInteractionRequest, ChannelSessionBaseline, ChannelSessionSync,
  ChannelDelivery, deliver_event, deliver_session, deliver_session_baseline, deliver_session_sync,
}
use agentpulse_rs.Protocol.Convert.{ProtocolMessage}
use agentpulse_rs.Protocol.RoundTrip.Envelope.{IsConstructed}
use agentpulse_rs.Channels.Native.Message.{
  NativeEventRoute, NativeDeliveryContext, NativeServerMessage,
}

abbrev pub native_route : ChannelEventRoute → NativeEventRoute
native_route observe_only = NativeEventRoute.route_observe_only
native_route (interaction InteractionRoute.read_only) = NativeEventRoute.route_read_only
native_route (interaction InteractionRoute.interactive) = NativeEventRoute.route_interactive

abbrev pub event_message : RoutedAgentEvent → NativeServerMessage
event_message r =
    NativeServerMessage.domain_message (NativeDeliveryContext.live_event (native_route r.route))
      (ProtocolMessage.agent_event r.event)

abbrev pub interaction_message : Text → RoutedInteractionRequest → NativeServerMessage
interaction_message request_id i =
    NativeServerMessage.domain_message
      (NativeDeliveryContext.subscription_interaction request_id
        (native_route (interaction i.route)))
      (ProtocolMessage.interaction_request i.request)

-- The session of a baseline and then what it still asks.
abbrev pub baseline_messages : Text → Option ChannelSessionBaseline → List NativeServerMessage
baseline_messages request_id none = []
baseline_messages request_id (some b) =
    NativeServerMessage.domain_message (NativeDeliveryContext.subscription_session request_id)
      (ProtocolMessage.agent_session b.session)
    ∷ map (interaction_message request_id) b.pending_interactions

abbrev pub sync_messages : Text → ChannelSessionSync → List NativeServerMessage
sync_messages request_id sync =
    map event_message sync.events ++ baseline_messages request_id sync.baseline

module _ (formats : Formats) where
  abbrev pub IsBaseline : ChannelSessionBaseline → Type 0
  IsBaseline b =
      IsConstructed formats (ProtocolMessage.agent_session b.session)
      × All (λ i. IsConstructed formats (ProtocolMessage.interaction_request i.request))
          b.pending_interactions

  abbrev pub IsBaselineIfSome : Option ChannelSessionBaseline → Type 0
  IsBaselineIfSome none = Unit {0}
  IsBaselineIfSome (some b) = IsBaseline b

  -- What the Bridge delivers is made by the constructors of the domain.
  abbrev pub IsMade : ChannelDelivery → Type 0
  IsMade (deliver_event event route) = IsConstructed formats (ProtocolMessage.agent_event event)
  IsMade (deliver_session session) = IsConstructed formats (ProtocolMessage.agent_session session)
  IsMade (deliver_session_baseline b) = IsBaseline b
  IsMade (deliver_session_sync sync) =
      All (λ r. IsConstructed formats (ProtocolMessage.agent_event r.event)) sync.events
      × IsBaselineIfSome sync.baseline
