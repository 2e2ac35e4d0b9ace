-- ===== src/Protocol/RoundTrip/Names.antt =====
-- Every enumeration without fields is read back as it was written.
use agentpulse_rs.Common.{◌≡◌, refl, ok, arith}
use agentpulse_rs.Domain.Session.{AgentState, ConnectionState}
use agentpulse_rs.Domain.Event.{AgentMessageRole, AgentMessageLevel, ToolOutcome}
use agentpulse_rs.Domain.Plan.{PlanItemStatus}
use agentpulse_rs.Domain.Interaction.{
  ApprovalCommandKind, ApprovalFileChangeKind, ApprovalDisposition, InteractionCloseReason,
}
use agentpulse_rs.Domain.Command.{PromptDelivery, QueueAction}
use agentpulse_rs.Protocol.Dto.Names.{
  AgentStateDto, ConnectionStateDto, AgentMessageRoleDto, AgentMessageLevelDto, ToolOutcomeDto,
  PlanItemStatusDto, ApprovalCommandKindDto, ApprovalFileChangeKindDto, ApprovalDispositionDto,
}
use agentpulse_rs.Protocol.Convert.Names.{
  encode_agent_state, decode_agent_state, encode_connection_state, decode_connection_state,
  encode_message_role, decode_message_role, encode_message_level, decode_message_level,
  encode_tool_outcome, decode_tool_outcome, encode_plan_item_status, decode_plan_item_status,
  encode_approval_command_kind, decode_approval_command_kind, encode_approval_file_change_kind,
  decode_approval_file_change_kind, encode_approval_disposition, decode_approval_disposition,
  encode_close_reason, decode_close_reason, encode_prompt_delivery, decode_prompt_delivery,
  encode_queue_action, decode_queue_action,
}

pub agent_state_back :
    (x : AgentState) (d : AgentStateDto) → encode_agent_state x ≡ ok d → decode_agent_state d ≡ x
unfolding encode_agent_state decode_agent_state
agent_state_back x d e = ground arith

pub connection_state_back :
    (x : ConnectionState) (d : ConnectionStateDto)
    → encode_connection_state x ≡ ok d
    → decode_connection_state d ≡ x
unfolding encode_connection_state decode_connection_state
connection_state_back x d e = ground arith

pub message_role_back :
    (x : AgentMessageRole) (d : AgentMessageRoleDto)
    → encode_message_role x ≡ ok d
    → decode_message_role d ≡ x
unfolding encode_message_role decode_message_role
message_role_back x d e = ground arith

pub message_level_back :
    (x : AgentMessageLevel) (d : AgentMessageLevelDto)
    → encode_message_level x ≡ ok d
    → decode_message_level d ≡ x
unfolding encode_message_level decode_message_level
message_level_back x d e = ground arith

pub tool_outcome_back :
    (x : ToolOutcome) (d : ToolOutcomeDto)
    → encode_tool_outcome x ≡ ok d
    → decode_tool_outcome d ≡ x
unfolding encode_tool_outcome decode_tool_outcome
tool_outcome_back x d e = ground arith

pub plan_item_status_back :
    (x : PlanItemStatus) (d : PlanItemStatusDto)
    → encode_plan_item_status x ≡ ok d
    → decode_plan_item_status d ≡ x
unfolding encode_plan_item_status decode_plan_item_status
plan_item_status_back x d e = ground arith

pub approval_command_kind_back :
    (x : ApprovalCommandKind) (d : ApprovalCommandKindDto)
    → encode_approval_command_kind x ≡ ok d
    → decode_approval_command_kind d ≡ x
unfolding encode_approval_command_kind decode_approval_command_kind
approval_command_kind_back x d e = ground arith

pub approval_file_change_kind_back :
    (x : ApprovalFileChangeKind) (d : ApprovalFileChangeKindDto)
    → encode_approval_file_change_kind x ≡ ok d
    → decode_approval_file_change_kind d ≡ x
unfolding encode_approval_file_change_kind decode_approval_file_change_kind
approval_file_change_kind_back x d e = ground arith

pub approval_disposition_back :
    (x : ApprovalDisposition) (d : ApprovalDispositionDto)
    → encode_approval_disposition x ≡ ok d
    → decode_approval_disposition d ≡ x
unfolding encode_approval_disposition decode_approval_disposition
approval_disposition_back x d e = ground arith

pub close_reason_back :
    (x : InteractionCloseReason) → decode_close_reason (encode_close_reason x) ≡ x
unfolding encode_close_reason decode_close_reason
close_reason_back InteractionCloseReason.resolved_elsewhere = refl
close_reason_back InteractionCloseReason.provider_cancelled = refl

pub prompt_delivery_back :
    (x : PromptDelivery) → decode_prompt_delivery (encode_prompt_delivery x) ≡ x
unfolding encode_prompt_delivery decode_prompt_delivery
prompt_delivery_back PromptDelivery.queue = refl
prompt_delivery_back PromptDelivery.steer = refl

pub queue_action_back : (x : QueueAction) → decode_queue_action (encode_queue_action x) ≡ x
unfolding encode_queue_action decode_queue_action
queue_action_back QueueAction.pause = refl
queue_action_back QueueAction.resume = refl
queue_action_back QueueAction.clear = refl
