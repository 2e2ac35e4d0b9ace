-- ===== src/Protocol/Convert/Names.antt =====
-- agentpulse-protocol/src/v2/convert.rs: the enumerations without fields. The source's last branch,
-- for variants that a later version of agentpulse-core may add, has no counterpart.
use agentpulse_rs.Common.{Result, ok}
use agentpulse_rs.Domain.Session.{AgentState, ConnectionState}
use agentpulse_rs.Domain.Event.{AgentMessageRole, AgentMessageLevel, ToolOutcome}
use agentpulse_rs.Domain.Plan.{PlanItemStatus}
use agentpulse_rs.Domain.Interaction.{
  ApprovalCommandKind, ApprovalFileChangeKind, ApprovalDisposition, InteractionCloseReason,
}
use agentpulse_rs.Domain.Command.{PromptDelivery, QueueAction}
use agentpulse_rs.Protocol.Dto.Names.{
  AgentStateDto, ConnectionStateDto, AgentMessageRoleDto, AgentMessageLevelDto, ToolOutcomeDto,
  PlanItemStatusDto, ApprovalCommandKindDto, ApprovalFileChangeKindDto, ApprovalDispositionDto,
  InteractionCloseReasonDto, PromptDeliveryDto, QueueActionDto,
}
use agentpulse_rs.Protocol.Error.{ProtocolError}

unfoldable pub encode_agent_state : AgentState → Result ProtocolError AgentStateDto
encode_agent_state AgentState.initializing = ok AgentStateDto.initializing
encode_agent_state AgentState.idle = ok AgentStateDto.idle
encode_agent_state AgentState.running = ok AgentStateDto.running
encode_agent_state AgentState.waiting_for_interaction = ok AgentStateDto.waiting_for_interaction
encode_agent_state AgentState.completed = ok AgentStateDto.completed
encode_agent_state AgentState.failed = ok AgentStateDto.failed
encode_agent_state AgentState.cancelled = ok AgentStateDto.cancelled

unfoldable pub decode_agent_state : AgentStateDto → AgentState
decode_agent_state AgentStateDto.initializing = AgentState.initializing
decode_agent_state AgentStateDto.idle = AgentState.idle
decode_agent_state AgentStateDto.running = AgentState.running
decode_agent_state AgentStateDto.waiting_for_interaction = AgentState.waiting_for_interaction
decode_agent_state AgentStateDto.completed = AgentState.completed
decode_agent_state AgentStateDto.failed = AgentState.failed
decode_agent_state AgentStateDto.cancelled = AgentState.cancelled

unfoldable pub encode_connection_state : ConnectionState → Result ProtocolError ConnectionStateDto
encode_connection_state ConnectionState.connected = ok ConnectionStateDto.connected
encode_connection_state ConnectionState.reconnecting = ok ConnectionStateDto.reconnecting
encode_connection_state ConnectionState.disconnected = ok ConnectionStateDto.disconnected

unfoldable pub decode_connection_state : ConnectionStateDto → ConnectionState
decode_connection_state ConnectionStateDto.connected = ConnectionState.connected
decode_connection_state ConnectionStateDto.reconnecting = ConnectionState.reconnecting
decode_connection_state ConnectionStateDto.disconnected = ConnectionState.disconnected

unfoldable pub encode_message_role : AgentMessageRole → Result ProtocolError AgentMessageRoleDto
encode_message_role AgentMessageRole.user = ok AgentMessageRoleDto.user
encode_message_role AgentMessageRole.assistant = ok AgentMessageRoleDto.assistant
encode_message_role AgentMessageRole.system = ok AgentMessageRoleDto.system

unfoldable pub decode_message_role : AgentMessageRoleDto → AgentMessageRole
decode_message_role AgentMessageRoleDto.user = AgentMessageRole.user
decode_message_role AgentMessageRoleDto.assistant = AgentMessageRole.assistant
decode_message_role AgentMessageRoleDto.system = AgentMessageRole.system

unfoldable pub encode_message_level : AgentMessageLevel → Result ProtocolError AgentMessageLevelDto
encode_message_level AgentMessageLevel.info = ok AgentMessageLevelDto.info
encode_message_level AgentMessageLevel.warning = ok AgentMessageLevelDto.warning
encode_message_level AgentMessageLevel.error = ok AgentMessageLevelDto.error

unfoldable pub decode_message_level : AgentMessageLevelDto → AgentMessageLevel
decode_message_level AgentMessageLevelDto.info = AgentMessageLevel.info
decode_message_level AgentMessageLevelDto.warning = AgentMessageLevel.warning
decode_message_level AgentMessageLevelDto.error = AgentMessageLevel.error

unfoldable pub encode_tool_outcome : ToolOutcome → Result ProtocolError ToolOutcomeDto
encode_tool_outcome ToolOutcome.succeeded = ok ToolOutcomeDto.succeeded
encode_tool_outcome ToolOutcome.failed = ok ToolOutcomeDto.failed
encode_tool_outcome ToolOutcome.cancelled = ok ToolOutcomeDto.cancelled

unfoldable pub decode_tool_outcome : ToolOutcomeDto → ToolOutcome
decode_tool_outcome ToolOutcomeDto.succeeded = ToolOutcome.succeeded
decode_tool_outcome ToolOutcomeDto.failed = ToolOutcome.failed
decode_tool_outcome ToolOutcomeDto.cancelled = ToolOutcome.cancelled

unfoldable pub encode_plan_item_status : PlanItemStatus → Result ProtocolError PlanItemStatusDto
encode_plan_item_status PlanItemStatus.pending = ok PlanItemStatusDto.pending
encode_plan_item_status PlanItemStatus.in_progress = ok PlanItemStatusDto.in_progress
encode_plan_item_status PlanItemStatus.completed = ok PlanItemStatusDto.completed
encode_plan_item_status PlanItemStatus.blocked = ok PlanItemStatusDto.blocked
encode_plan_item_status PlanItemStatus.skipped = ok PlanItemStatusDto.skipped

unfoldable pub decode_plan_item_status : PlanItemStatusDto → PlanItemStatus
decode_plan_item_status PlanItemStatusDto.pending = PlanItemStatus.pending
decode_plan_item_status PlanItemStatusDto.in_progress = PlanItemStatus.in_progress
decode_plan_item_status PlanItemStatusDto.completed = PlanItemStatus.completed
decode_plan_item_status PlanItemStatusDto.blocked = PlanItemStatus.blocked
decode_plan_item_status PlanItemStatusDto.skipped = PlanItemStatus.skipped

unfoldable pub encode_approval_command_kind :
    ApprovalCommandKind → Result ProtocolError ApprovalCommandKindDto
encode_approval_command_kind ApprovalCommandKind.command = ok ApprovalCommandKindDto.command
encode_approval_command_kind ApprovalCommandKind.write_stdin = ok ApprovalCommandKindDto.write_stdin

unfoldable pub decode_approval_command_kind : ApprovalCommandKindDto → ApprovalCommandKind
decode_approval_command_kind ApprovalCommandKindDto.command = ApprovalCommandKind.command
decode_approval_command_kind ApprovalCommandKindDto.write_stdin = ApprovalCommandKind.write_stdin

unfoldable pub encode_approval_file_change_kind :
    ApprovalFileChangeKind → Result ProtocolError ApprovalFileChangeKindDto
encode_approval_file_change_kind ApprovalFileChangeKind.add = ok ApprovalFileChangeKindDto.add
encode_approval_file_change_kind ApprovalFileChangeKind.delete = ok ApprovalFileChangeKindDto.delete
encode_approval_file_change_kind ApprovalFileChangeKind.update = ok ApprovalFileChangeKindDto.update

unfoldable pub decode_approval_file_change_kind : ApprovalFileChangeKindDto → ApprovalFileChangeKind
decode_approval_file_change_kind ApprovalFileChangeKindDto.add = ApprovalFileChangeKind.add
decode_approval_file_change_kind ApprovalFileChangeKindDto.delete = ApprovalFileChangeKind.delete
decode_approval_file_change_kind ApprovalFileChangeKindDto.update = ApprovalFileChangeKind.update

unfoldable pub encode_approval_disposition :
    ApprovalDisposition → Result ProtocolError ApprovalDispositionDto
encode_approval_disposition ApprovalDisposition.approve = ok ApprovalDispositionDto.approve
encode_approval_disposition ApprovalDisposition.reject = ok ApprovalDispositionDto.reject
encode_approval_disposition ApprovalDisposition.cancel = ok ApprovalDispositionDto.cancel

unfoldable pub decode_approval_disposition : ApprovalDispositionDto → ApprovalDisposition
decode_approval_disposition ApprovalDispositionDto.approve = ApprovalDisposition.approve
decode_approval_disposition ApprovalDispositionDto.reject = ApprovalDisposition.reject
decode_approval_disposition ApprovalDispositionDto.cancel = ApprovalDisposition.cancel

unfoldable pub encode_close_reason : InteractionCloseReason → InteractionCloseReasonDto
encode_close_reason InteractionCloseReason.resolved_elsewhere =
    InteractionCloseReasonDto.resolved_elsewhere
encode_close_reason InteractionCloseReason.provider_cancelled =
    InteractionCloseReasonDto.provider_cancelled

unfoldable pub decode_close_reason : InteractionCloseReasonDto → InteractionCloseReason
decode_close_reason InteractionCloseReasonDto.resolved_elsewhere =
    InteractionCloseReason.resolved_elsewhere
decode_close_reason InteractionCloseReasonDto.provider_cancelled =
    InteractionCloseReason.provider_cancelled

unfoldable pub encode_prompt_delivery : PromptDelivery → PromptDeliveryDto
encode_prompt_delivery PromptDelivery.queue = PromptDeliveryDto.queue
encode_prompt_delivery PromptDelivery.steer = PromptDeliveryDto.steer

unfoldable pub decode_prompt_delivery : PromptDeliveryDto → PromptDelivery
decode_prompt_delivery PromptDeliveryDto.queue = PromptDelivery.queue
decode_prompt_delivery PromptDeliveryDto.steer = PromptDelivery.steer

unfoldable pub encode_queue_action : QueueAction → QueueActionDto
encode_queue_action QueueAction.pause = QueueActionDto.pause
encode_queue_action QueueAction.resume = QueueActionDto.resume
encode_queue_action QueueAction.clear = QueueActionDto.clear

unfoldable pub decode_queue_action : QueueActionDto → QueueAction
decode_queue_action QueueActionDto.pause = QueueAction.pause
decode_queue_action QueueActionDto.resume = QueueAction.resume
decode_queue_action QueueActionDto.clear = QueueAction.clear
