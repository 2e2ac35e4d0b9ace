-- ===== src/Protocol/Convert.antt =====
-- agentpulse-protocol/src/message.rs and v2/convert.rs: descriptors, events and the envelope.
pub mod Names
pub mod Scalars
pub mod Sessions
pub mod Requests
pub mod Responses
pub mod Commands
pub mod Capabilities
use agentpulse_rs.Common.{
  ℕ, Option, none, some, Result, ok, err, not, ◌==◌, ◌>>=◌, ◌>>◌, if◌then◌else◌,
}
use agentpulse_rs.Domain.Error.{Text}
use agentpulse_rs.Domain.Value.{Kind, new_kind}
use agentpulse_rs.Domain.Identifiers.{Formats}
use agentpulse_rs.Domain.Capability.{Flags}
use agentpulse_rs.Domain.Endpoint.{
  ProviderDescriptor, ChannelDescriptor, new_provider_descriptor, new_channel_descriptor,
  with_provider_version, with_channel_version,
}
use agentpulse_rs.Domain.Session.{AgentSession}
use agentpulse_rs.Domain.Command.{AgentCommand}
use agentpulse_rs.Domain.Interaction.{InteractionRequest, InteractionResponse}
use agentpulse_rs.Domain.Event.{AgentEventPayload, AgentEvent, new_event}
use agentpulse_rs.Protocol.Dto.Sessions.{ProviderDescriptorDto, ChannelDescriptorDto}
use agentpulse_rs.Protocol.Dto.{AgentEventPayloadDto, AgentEventDto, MessageDto, EnvelopeDto}
use agentpulse_rs.Protocol.Error.{ProtocolError, unsupported_protocol_version, v2_protocol_version}
use agentpulse_rs.Protocol.Convert.Scalars.{
  lift, decode_text, encode_optional_text, decode_counter, parse_id, encode_timestamp,
  decode_timestamp,
}
use agentpulse_rs.Protocol.Convert.Names.{
  encode_agent_state, decode_agent_state, encode_connection_state, decode_connection_state,
}
use agentpulse_rs.Protocol.Convert.Sessions.{
  with_optional, encode_session, decode_session, encode_message, decode_message,
  encode_tool_activity, decode_tool_activity, encode_plan, decode_plan, encode_progress,
  decode_progress, encode_session_outcome, decode_session_outcome,
}
use agentpulse_rs.Protocol.Convert.Requests.{encode_interaction_request, decode_interaction_request}
use agentpulse_rs.Protocol.Convert.Responses.{
  encode_interaction_response, decode_interaction_response, encode_interaction_closed,
  decode_interaction_closed,
}
use agentpulse_rs.Protocol.Convert.Commands.{encode_command, decode_command}
use agentpulse_rs.Protocol.Convert.Capabilities.{
  encode_provider_capabilities, decode_provider_capabilities, encode_channel_capabilities,
  decode_channel_capabilities,
}

pub data ProtocolMessage : Type 0 where
  provider_descriptor : ProviderDescriptor → ProtocolMessage
  channel_descriptor : ChannelDescriptor → ProtocolMessage
  agent_session : AgentSession → ProtocolMessage
  agent_event : AgentEvent → ProtocolMessage
  interaction_request : InteractionRequest → ProtocolMessage
  interaction_response : InteractionResponse → ProtocolMessage
  agent_command : AgentCommand → ProtocolMessage

module _ (flags : Flags) (formats : Formats) where
  unfoldable pub encode_provider_descriptor : ProviderDescriptor → ProviderDescriptorDto
  encode_provider_descriptor d = record {
    id = formats.print_uuid d.id;
    kind = d.kind.slug;
    display_name = d.display_name.text;
    version = encode_optional_text d.version;
    capabilities = encode_provider_capabilities flags d.capabilities;
  }

  unfoldable pub decode_provider_descriptor :
      ProviderDescriptorDto → Result ProtocolError ProviderDescriptor
  decode_provider_descriptor dto = do
    id ← parse_id formats "provider ID" dto.id
    kind ← lift (new_kind "provider kind" dto.kind)
    display_name ← decode_text dto.display_name
    capabilities ← decode_provider_capabilities flags dto.capabilities
    with_optional with_provider_version decode_text
        (new_provider_descriptor id kind display_name capabilities) dto.version

  unfoldable pub encode_channel_descriptor : ChannelDescriptor → ChannelDescriptorDto
  encode_channel_descriptor d = record {
    id = formats.print_uuid d.id;
    kind = d.kind.slug;
    display_name = d.display_name.text;
    version = encode_optional_text d.version;
    capabilities = encode_channel_capabilities flags d.capabilities;
  }

  unfoldable pub decode_channel_descriptor :
      ChannelDescriptorDto → Result ProtocolError ChannelDescriptor
  decode_channel_descriptor dto = do
    id ← parse_id formats "channel ID" dto.id
    kind ← lift (new_kind "channel kind" dto.kind)
    display_name ← decode_text dto.display_name
    capabilities ← decode_channel_capabilities flags dto.capabilities
    with_optional with_channel_version decode_text
        (new_channel_descriptor id kind display_name capabilities) dto.version

module _ (formats : Formats) where
  unfoldable pub encode_event_payload :
      AgentEventPayload → Result ProtocolError AgentEventPayloadDto
  encode_event_payload (AgentEventPayload.session_started session) = do
    dto ← encode_session formats session
    ok (AgentEventPayloadDto.session_started dto)
  encode_event_payload (AgentEventPayload.state_changed state) = do
    dto ← encode_agent_state state
    ok (AgentEventPayloadDto.state_changed dto)
  encode_event_payload (AgentEventPayload.connection_changed connection_state) = do
    dto ← encode_connection_state connection_state
    ok (AgentEventPayloadDto.connection_changed dto)
  encode_event_payload (AgentEventPayload.message message) = do
    dto ← encode_message message
    ok (AgentEventPayloadDto.message dto)
  encode_event_payload (AgentEventPayload.tool_activity activity) = do
    dto ← encode_tool_activity formats activity
    ok (AgentEventPayloadDto.tool_activity dto)
  encode_event_payload (AgentEventPayload.plan_updated plan) = do
    dto ← encode_plan formats plan
    ok (AgentEventPayloadDto.plan_updated dto)
  encode_event_payload (AgentEventPayload.progress_updated progress) = do
    dto ← encode_progress progress
    ok (AgentEventPayloadDto.progress_updated dto)
  encode_event_payload (AgentEventPayload.interaction_requested request) = do
    dto ← encode_interaction_request formats request
    ok (AgentEventPayloadDto.interaction_requested dto)
  encode_event_payload (AgentEventPayload.interaction_responded response) = do
    dto ← encode_interaction_response formats response
    ok (AgentEventPayloadDto.interaction_responded dto)
  encode_event_payload (AgentEventPayload.interaction_closed interaction) = do
    dto ← encode_interaction_closed formats interaction
    ok (AgentEventPayloadDto.interaction_closed dto)
  encode_event_payload (AgentEventPayload.command_issued command) = do
    dto ← encode_command formats command
    ok (AgentEventPayloadDto.command_issued dto)
  encode_event_payload (AgentEventPayload.session_ended outcome) = do
    dto ← encode_session_outcome outcome
    ok (AgentEventPayloadDto.session_ended dto)

  unfoldable pub decode_event_payload :
      AgentEventPayloadDto → Result ProtocolError AgentEventPayload
  decode_event_payload (AgentEventPayloadDto.session_started session) = do
    x ← decode_session formats session
    ok (AgentEventPayload.session_started x)
  decode_event_payload (AgentEventPayloadDto.state_changed state) =
      ok (AgentEventPayload.state_changed (decode_agent_state state))
  decode_event_payload (AgentEventPayloadDto.connection_changed connection_state) =
      ok (AgentEventPayload.connection_changed (decode_connection_state connection_state))
  decode_event_payload (AgentEventPayloadDto.message message) = do
    x ← decode_message message
    ok (AgentEventPayload.message x)
  decode_event_payload (AgentEventPayloadDto.tool_activity activity) = do
    x ← decode_tool_activity formats activity
    ok (AgentEventPayload.tool_activity x)
  decode_event_payload (AgentEventPayloadDto.plan_updated plan) = do
    x ← decode_plan formats plan
    ok (AgentEventPayload.plan_updated x)
  decode_event_payload (AgentEventPayloadDto.progress_updated progress) = do
    x ← decode_progress progress
    ok (AgentEventPayload.progress_updated x)
  decode_event_payload (AgentEventPayloadDto.interaction_requested request) = do
    x ← decode_interaction_request formats request
    ok (AgentEventPayload.interaction_requested x)
  decode_event_payload (AgentEventPayloadDto.interaction_responded response) = do
    x ← decode_interaction_response formats response
    ok (AgentEventPayload.interaction_responded x)
  decode_event_payload (AgentEventPayloadDto.interaction_closed interaction) = do
    x ← decode_interaction_closed formats interaction
    ok (AgentEventPayload.interaction_closed x)
  decode_event_payload (AgentEventPayloadDto.command_issued command) = do
    x ← decode_command formats command
    ok (AgentEventPayload.command_issued x)
  decode_event_payload (AgentEventPayloadDto.session_ended outcome) = do
    x ← decode_session_outcome outcome
    ok (AgentEventPayload.session_ended x)

  unfoldable pub encode_event : AgentEvent → Result ProtocolError AgentEventDto
  encode_event e = do
    occurred_at ← encode_timestamp formats e.occurred_at "event occurred_at"
    payload ← encode_event_payload e.payload
    ok (record {
      id = formats.print_uuid e.id;
      session_id = formats.print_uuid e.session_id;
      sequence = e.sequence;
      occurred_at = occurred_at;
      payload = payload;
    })

  unfoldable pub decode_event : AgentEventDto → Result ProtocolError AgentEvent
  decode_event dto = do
    id ← parse_id formats "event ID" dto.id
    session_id ← parse_id formats "session ID" dto.session_id
    sequence ← decode_counter "event sequence" dto.sequence
    occurred_at ← decode_timestamp formats dto.occurred_at "event occurred_at"
    payload ← decode_event_payload dto.payload
    lift (
        new_event (record {
          id = id;
          session_id = session_id;
          sequence = sequence;
          occurred_at = occurred_at;
          payload = payload;
        }))

module _ (flags : Flags) (formats : Formats) where
  -- The `match` on the message.
  unfoldable pub encode_body : ProtocolMessage → Result ProtocolError MessageDto
  encode_body (ProtocolMessage.provider_descriptor x) =
      ok (MessageDto.provider_descriptor (encode_provider_descriptor flags formats x))
  encode_body (ProtocolMessage.channel_descriptor x) =
      ok (MessageDto.channel_descriptor (encode_channel_descriptor flags formats x))
  encode_body (ProtocolMessage.agent_session x) = do
    dto ← encode_session formats x
    ok (MessageDto.agent_session dto)
  encode_body (ProtocolMessage.agent_event x) = do
    dto ← encode_event formats x
    ok (MessageDto.agent_event dto)
  encode_body (ProtocolMessage.interaction_request x) = do
    dto ← encode_interaction_request formats x
    ok (MessageDto.interaction_request dto)
  encode_body (ProtocolMessage.interaction_response x) = do
    dto ← encode_interaction_response formats x
    ok (MessageDto.interaction_response dto)
  encode_body (ProtocolMessage.agent_command x) = do
    dto ← encode_command formats x
    ok (MessageDto.agent_command dto)

  unfoldable pub decode_body : MessageDto → Result ProtocolError ProtocolMessage
  decode_body (MessageDto.provider_descriptor dto) = do
    x ← decode_provider_descriptor flags formats dto
    ok (ProtocolMessage.provider_descriptor x)
  decode_body (MessageDto.channel_descriptor dto) = do
    x ← decode_channel_descriptor flags formats dto
    ok (ProtocolMessage.channel_descriptor x)
  decode_body (MessageDto.agent_session dto) = do
    x ← decode_session formats dto
    ok (ProtocolMessage.agent_session x)
  decode_body (MessageDto.agent_event dto) = do
    x ← decode_event formats dto
    ok (ProtocolMessage.agent_event x)
  decode_body (MessageDto.interaction_request dto) = do
    x ← decode_interaction_request formats dto
    ok (ProtocolMessage.interaction_request x)
  decode_body (MessageDto.interaction_response dto) = do
    x ← decode_interaction_response formats dto
    ok (ProtocolMessage.interaction_response x)
  decode_body (MessageDto.agent_command dto) = do
    x ← decode_command formats dto
    ok (ProtocolMessage.agent_command x)

  unfoldable pub encode_envelope : ProtocolMessage → Result ProtocolError EnvelopeDto
  encode_envelope message = do
    body ← encode_body message
    ok (record { protocol_version = v2_protocol_version; message = body })

  unfoldable pub decode_envelope : EnvelopeDto → Result ProtocolError ProtocolMessage
  decode_envelope envelope =
      if not (envelope.protocol_version == v2_protocol_version)
      then err (unsupported_protocol_version envelope.protocol_version v2_protocol_version)
      else decode_body envelope.message
