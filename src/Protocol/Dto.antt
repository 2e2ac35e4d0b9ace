-- ===== src/Protocol/Dto.antt =====
-- agentpulse-protocol/src/v2/dto.rs: events and the envelope. The attributes of serde say how these
-- values are written as JSON; serde itself is not modelled.
pub mod Names
pub mod Sessions
pub mod Interactions
use agentpulse_rs.Common.{ℕ}
use agentpulse_rs.Domain.Error.{Text}
use agentpulse_rs.Protocol.Dto.Names.{AgentStateDto, ConnectionStateDto}
use agentpulse_rs.Protocol.Dto.Sessions.{
  ProviderDescriptorDto, ChannelDescriptorDto, AgentSessionDto, AgentMessageDto, ToolActivityDto,
  PlanSnapshotDto, ProgressSnapshotDto, SessionOutcomeDto,
}
use agentpulse_rs.Protocol.Dto.Interactions.{
  InteractionRequestDto, InteractionResponseDto, InteractionClosedDto, AgentCommandDto,
}

pub data AgentEventPayloadDto : Type 0 where
  session_started : (session : AgentSessionDto) → AgentEventPayloadDto
  state_changed : (state : AgentStateDto) → AgentEventPayloadDto
  connection_changed : (connection_state : ConnectionStateDto) → AgentEventPayloadDto
  message : (message : AgentMessageDto) → AgentEventPayloadDto
  tool_activity : (activity : ToolActivityDto) → AgentEventPayloadDto
  plan_updated : (plan : PlanSnapshotDto) → AgentEventPayloadDto
  progress_updated : (progress : ProgressSnapshotDto) → AgentEventPayloadDto
  interaction_requested : (request : InteractionRequestDto) → AgentEventPayloadDto
  interaction_responded : (response : InteractionResponseDto) → AgentEventPayloadDto
  interaction_closed : (interaction : InteractionClosedDto) → AgentEventPayloadDto
  command_issued : (command : AgentCommandDto) → AgentEventPayloadDto
  session_ended : (outcome : SessionOutcomeDto) → AgentEventPayloadDto

pub record AgentEventDto : Type 0 where
  pub id : Text
  pub session_id : Text
  pub sequence : ℕ
  pub occurred_at : Text
  pub payload : AgentEventPayloadDto

pub data MessageDto : Type 0 where
  provider_descriptor : ProviderDescriptorDto → MessageDto
  channel_descriptor : ChannelDescriptorDto → MessageDto
  agent_session : AgentSessionDto → MessageDto
  agent_event : AgentEventDto → MessageDto
  interaction_request : InteractionRequestDto → MessageDto
  interaction_response : InteractionResponseDto → MessageDto
  agent_command : AgentCommandDto → MessageDto

pub record EnvelopeDto : Type 0 where
  pub protocol_version : ℕ
  pub message : MessageDto
