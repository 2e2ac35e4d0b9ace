-- ===== src/Routing.antt =====
-- agentpulse-core/src/routing.rs: the centralized capability and correlation policy. The section's
-- parameter is what the program asks of the bitflags crate.
pub mod Agreement
use agentpulse_rs.Common.{
  ◌≡◌, Bool, true, false, not, ◌&&◌, Option, Result, ok, err, map_err, ◌>>=◌, ◌>>◌, ◌==◌,
  if◌then◌else◌,
}
use agentpulse_rs.Domain.Error.{DomainError}
use agentpulse_rs.Domain.Session.{Uuid, AgentSession}
use agentpulse_rs.Domain.Capability.{ProviderCapabilities, ChannelCapabilities, Flags}
use agentpulse_rs.Domain.Endpoint.{ProviderDescriptor, ChannelDescriptor}
use agentpulse_rs.Domain.Command.{
  AgentCommand, required_provider_capability, required_channel_capabilities,
}
use agentpulse_rs.Domain.Interaction.{InteractionRequest, InteractionResponse}
use agentpulse_rs.Domain.Interaction.Validate.{
  is_actionable, validate_response, required_provider_request_capability,
  required_provider_response_capability, required_channel_response_capability,
}
use agentpulse_rs.Domain.Event.{
  AgentEvent, AgentEventPayload, session_started, interaction_requested, event_capability,
}

pub data InteractionRoute : Type 0 where
  read_only interactive : InteractionRoute

pub data ChannelEventRoute : Type 0 where
  observe_only : ChannelEventRoute
  interaction : InteractionRoute → ChannelEventRoute

pub data CapabilityRouteError : Type 0 where
  provider_mismatch : (expected actual : Uuid) → CapabilityRouteError
  channel_mismatch : (expected actual : Uuid) → CapabilityRouteError
  session_mismatch : (expected actual : Uuid) → CapabilityRouteError
  missing_provider_capabilities : (required declared : ProviderCapabilities) → CapabilityRouteError
  missing_channel_capabilities : (required declared : ChannelCapabilities) → CapabilityRouteError
  invalid_interaction_response : (source : DomainError) → CapabilityRouteError

abbrev pub Check : Type 0
Check = Result CapabilityRouteError (Unit {0})

unfoldable pub validate_provider_session : ProviderDescriptor → AgentSession → Check
validate_provider_session provider session =
    if not (provider.id == session.provider_id)
    then err (provider_mismatch provider.id session.provider_id)
    else ok tt

unfoldable pub validate_session_id : Uuid → Uuid → Check
validate_session_id expected actual =
    if not (expected == actual) then err (session_mismatch expected actual) else ok tt

unfoldable pub validate_channel_id : Uuid → Uuid → Check
validate_channel_id expected actual =
    if not (expected == actual) then err (channel_mismatch expected actual) else ok tt

module _ (f : Flags) where
  unfoldable pub validate_provider_capabilities : ProviderDescriptor → ProviderCapabilities → Check
  validate_provider_capabilities provider required =
      if not (f.contains provider.capabilities required)
      then err (missing_provider_capabilities required provider.capabilities)
      else ok tt

  unfoldable pub validate_channel_capabilities : ChannelDescriptor → ChannelCapabilities → Check
  validate_channel_capabilities channel required =
      if not (f.contains channel.capabilities required)
      then err (missing_channel_capabilities required channel.capabilities)
      else ok tt

  -- The `if let` on an event that announces a session.
  abbrev validate_started : ProviderDescriptor → AgentEventPayload → Check
  validate_started provider (session_started session) = validate_provider_session provider session
  validate_started provider _ = ok tt

  unfoldable pub validate_provider_event : ProviderDescriptor → AgentSession → AgentEvent → Check
  validate_provider_event provider session event = do
    validate_provider_session provider session
    validate_session_id session.id event.session_id
    validate_started provider event.payload
    validate_provider_capabilities provider (event_capability event.payload)

  unfoldable pub interaction_route :
      ProviderDescriptor
      → ChannelDescriptor
      → AgentSession
      → InteractionRequest
      → Result CapabilityRouteError InteractionRoute
  interaction_route provider channel session request = do
    validate_provider_session provider session
    validate_session_id session.id request.session_id
    validate_provider_capabilities provider (required_provider_request_capability request.payload)
    let provider_accepts_response =
        f.contains provider.capabilities (required_provider_response_capability request.payload)
    let channel_collects_response =
        f.contains channel.capabilities (required_channel_response_capability request.payload)
    ok (
        if is_actionable request.payload && provider_accepts_response && channel_collects_response
        then interactive
        else read_only)

  -- The `match` of `channel_event_route`.
  abbrev payload_route :
      ProviderDescriptor
      → ChannelDescriptor
      → AgentSession
      → AgentEventPayload
      → Result CapabilityRouteError ChannelEventRoute
  payload_route provider channel session (interaction_requested request) = do
    route ← interaction_route provider channel session request
    ok (interaction route)
  payload_route provider channel session _ = ok observe_only

  unfoldable pub channel_event_route :
      ProviderDescriptor
      → ChannelDescriptor
      → AgentSession
      → AgentEvent
      → Result CapabilityRouteError ChannelEventRoute
  channel_event_route provider channel session event = do
    validate_provider_event provider session event
    payload_route provider channel session event.payload

  unfoldable pub validate_interaction_response :
      ProviderDescriptor
      → ChannelDescriptor
      → AgentSession
      → InteractionRequest
      → InteractionResponse
      → Check
  validate_interaction_response provider channel session request response = do
    validate_provider_session provider session
    validate_session_id session.id request.session_id
    validate_session_id session.id response.session_id
    validate_channel_id channel.id response.channel_id
    map_err invalid_interaction_response (validate_response request response)
    validate_provider_capabilities provider (required_provider_request_capability request.payload)
    validate_provider_capabilities provider (required_provider_response_capability request.payload)
    validate_channel_capabilities channel (required_channel_response_capability request.payload)

  unfoldable pub validate_command :
      ProviderDescriptor → ChannelDescriptor → AgentSession → AgentCommand → Check
  validate_command provider channel session command = do
    validate_provider_session provider session
    validate_session_id session.id command.session_id
    validate_channel_id channel.id command.channel_id
    validate_provider_capabilities provider (required_provider_capability command.payload)
    validate_channel_capabilities channel (required_channel_capabilities f command.payload)
