-- ===== src/Protocol/Dto/Names.antt =====
-- agentpulse-protocol/src/v2/dto.rs: the enumerations without fields.

pub data AgentStateDto : Type 0 where
  initializing idle running waiting_for_interaction completed failed cancelled : AgentStateDto

pub data ConnectionStateDto : Type 0 where
  connected reconnecting disconnected : ConnectionStateDto

pub data AgentMessageRoleDto : Type 0 where
  user assistant system : AgentMessageRoleDto

pub data AgentMessageLevelDto : Type 0 where
  info warning error : AgentMessageLevelDto

pub data ToolOutcomeDto : Type 0 where
  succeeded failed cancelled : ToolOutcomeDto

pub data PlanItemStatusDto : Type 0 where
  pending in_progress completed blocked skipped : PlanItemStatusDto

pub data ApprovalCommandKindDto : Type 0 where
  command write_stdin : ApprovalCommandKindDto

pub data ApprovalFileChangeKindDto : Type 0 where
  add delete update : ApprovalFileChangeKindDto

pub data ApprovalDispositionDto : Type 0 where
  approve reject cancel : ApprovalDispositionDto

pub data InteractionCloseReasonDto : Type 0 where
  resolved_elsewhere provider_cancelled : InteractionCloseReasonDto

pub data PromptDeliveryDto : Type 0 where
  queue steer : PromptDeliveryDto

pub data QueueActionDto : Type 0 where
  pause resume clear : QueueActionDto

pub data ProviderCapabilityDto : Type 0 where
  session_state tool_events plan progress approval_request approval_response user_input_request
        user_input_response prompt_submit cancel control :
      ProviderCapabilityDto

pub data ChannelCapabilityDto : Type 0 where
  notification session_view tool_view plan_view progress_view rich_message approval choice_input
        text_input form_input realtime_sync remote_command :
      ChannelCapabilityDto
