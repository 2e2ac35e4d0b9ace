-- ===== src/Protocol/Dto/Sessions.antt =====
-- agentpulse-protocol/src/v2/dto.rs: endpoints, sessions, plans, progress and what is reported of
-- them. A DecimalU64 is its number; its text is in Protocol/Decimal.
use agentpulse_rs.Common.{ℕ, List, Option}
use agentpulse_rs.Domain.Error.{Text}
use agentpulse_rs.Protocol.Dto.Names.{
  ProviderCapabilityDto, ChannelCapabilityDto, AgentStateDto, ConnectionStateDto,
  AgentMessageRoleDto, AgentMessageLevelDto, ToolOutcomeDto, PlanItemStatusDto,
}

pub record ProviderDescriptorDto : Type 0 where
  pub id : Text
  pub kind : Text
  pub display_name : Text
  pub version : Option Text
  pub capabilities : List ProviderCapabilityDto

pub record ChannelDescriptorDto : Type 0 where
  pub id : Text
  pub kind : Text
  pub display_name : Text
  pub version : Option Text
  pub capabilities : List ChannelCapabilityDto

pub record WorkspaceRefDto : Type 0 where
  pub path : Text
  pub display_name : Option Text

pub record AgentSessionDto : Type 0 where
  pub id : Text
  pub provider_id : Text
  pub external_id : Option Text
  pub title : Option Text
  pub workspace : Option WorkspaceRefDto
  pub state : AgentStateDto
  pub connection_state : ConnectionStateDto
  pub revision : ℕ
  pub created_at : Text
  pub updated_at : Text

pub record AgentMessageDto : Type 0 where
  pub role : AgentMessageRoleDto
  pub level : AgentMessageLevelDto
  pub content : Text

pub data ToolActivityDto : Type 0 where
  started : (call_id name : Text) (summary : Option Text) → ToolActivityDto
  finished : (call_id : Text) (outcome : ToolOutcomeDto) (summary : Option Text) → ToolActivityDto

pub data SessionOutcomeDto : Type 0 where
  completed : (summary : Option Text) → SessionOutcomeDto
  failed : (error : Text) → SessionOutcomeDto
  cancelled : (reason : Option Text) → SessionOutcomeDto

pub record PlanItemDto : Type 0 where
  pub id : Text
  pub content : Text
  pub status : PlanItemStatusDto

pub record PlanSnapshotDto : Type 0 where
  pub revision : ℕ
  pub explanation : Option Text
  pub items : List PlanItemDto

pub data ProgressValueDto : Type 0 where
  indeterminate : ProgressValueDto
  determinate : (completed total : ℕ) → ProgressValueDto

pub record ProgressSnapshotDto : Type 0 where
  pub revision : ℕ
  pub value : ProgressValueDto
  pub message : Option Text
