-- ===== src/Protocol/Dto/Interactions.antt =====
-- agentpulse-protocol/src/v2/dto.rs: interactions and commands.
use agentpulse_rs.Common.{Bool, List, Option}
use agentpulse_rs.Domain.Error.{Text}
use agentpulse_rs.Protocol.Dto.Names.{
  ApprovalCommandKindDto, ApprovalFileChangeKindDto, ApprovalDispositionDto,
  InteractionCloseReasonDto, PromptDeliveryDto, QueueActionDto,
}

pub record ApprovalNetworkContextDto : Type 0 where
  pub host : Text
  pub protocol : Text

pub record ApprovalFileChangeDto : Type 0 where
  pub path : Text
  pub kind : ApprovalFileChangeKindDto
  pub diff : Text

pub data ApprovalSubjectDto : Type 0 where
  command_subject :
      (kind : ApprovalCommandKindDto) (command cwd reason : Option Text)
      (network : Option ApprovalNetworkContextDto)
      → ApprovalSubjectDto
  file_change :
      (changes : List ApprovalFileChangeDto) (grant_root reason : Option Text) → ApprovalSubjectDto

pub record ApprovalOptionDto : Type 0 where
  pub id : Text
  pub disposition : ApprovalDispositionDto
  pub label : Text
  pub description : Option Text

pub record ChoiceOptionDto : Type 0 where
  pub id : Text
  pub label : Text
  pub description : Option Text

pub record FormFieldDto : Type 0 where
  pub id : Text
  pub header : Text
  pub prompt : Text
  pub options : List ChoiceOptionDto
  pub allows_other : Bool
  pub sensitive : Bool

pub data InteractionRequestPayloadDto : Type 0 where
  approval :
      (subject : ApprovalSubjectDto) (options : List ApprovalOptionDto)
      (unavailable_reason : Option Text)
      → InteractionRequestPayloadDto
  choice : (options : List ChoiceOptionDto) (multiple : Bool) → InteractionRequestPayloadDto
  text : (placeholder : Option Text) (multiline : Bool) → InteractionRequestPayloadDto
  form : (fields : List FormFieldDto) (blocking : Bool) → InteractionRequestPayloadDto

pub record InteractionRequestDto : Type 0 where
  pub id : Text
  pub session_id : Text
  pub requested_at : Text
  pub expires_at : Option Text
  pub prompt : Text
  pub payload : InteractionRequestPayloadDto

pub data FormAnswerValueDto : Type 0 where
  choice : (option_id : Text) → FormAnswerValueDto
  text : (text : Text) → FormAnswerValueDto

pub record FormAnswerDto : Type 0 where
  pub field_id : Text
  pub value : FormAnswerValueDto

pub data InteractionResponsePayloadDto : Type 0 where
  approval : (option_id : Text) → InteractionResponsePayloadDto
  choice : (option_ids : List Text) → InteractionResponsePayloadDto
  text : (text : Text) → InteractionResponsePayloadDto
  form : (answers : List FormAnswerDto) → InteractionResponsePayloadDto

pub record InteractionResponseDto : Type 0 where
  pub request_id : Text
  pub session_id : Text
  pub channel_id : Text
  pub responded_at : Text
  pub payload : InteractionResponsePayloadDto

pub record InteractionClosedDto : Type 0 where
  pub request_id : Text
  pub session_id : Text
  pub reason : InteractionCloseReasonDto

pub data AgentCommandPayloadDto : Type 0 where
  submit_prompt : (text : Text) (delivery : PromptDeliveryDto) → AgentCommandPayloadDto
  cancel_session : (reason : Option Text) → AgentCommandPayloadDto
  list_models : AgentCommandPayloadDto
  select_model : (model : Text) (effort : Option Text) → AgentCommandPayloadDto
  set_plan_mode : (enabled : Bool) → AgentCommandPayloadDto
  list_threads : (cursor : Option Text) → AgentCommandPayloadDto
  resume_thread : (thread_id : Text) → AgentCommandPayloadDto
  start_thread : (cwd : Text) → AgentCommandPayloadDto
  compact : AgentCommandPayloadDto
  review : (instructions : Option Text) → AgentCommandPayloadDto
  rename : (name : Text) → AgentCommandPayloadDto
  fork : AgentCommandPayloadDto
  status : AgentCommandPayloadDto
  list_permission_profiles : AgentCommandPayloadDto
  select_permission_profile : (profile : Text) → AgentCommandPayloadDto
  queue : (action : QueueActionDto) → AgentCommandPayloadDto

pub record AgentCommandDto : Type 0 where
  pub id : Text
  pub session_id : Text
  pub channel_id : Text
  pub issued_at : Text
  pub payload : AgentCommandPayloadDto
