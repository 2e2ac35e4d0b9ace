-- ===== src/Protocol/Convert/Sessions.antt =====
-- agentpulse-protocol/src/v2/convert.rs: sessions and what Providers report of them.
use agentpulse_rs.Common.{Option, none, some, Result, ok, try_map, map_option, ◌>>=◌}
use agentpulse_rs.Domain.Error.{Text}
use agentpulse_rs.Domain.Value.{
  ExternalId, WorkspaceRef, new_external_id, new_workspace, with_display_name,
}
use agentpulse_rs.Domain.Session.{
  AgentSession, builder, build, with_external_id, with_title, with_workspace, with_state,
  with_connection_state, with_revision,
}
use agentpulse_rs.Domain.Identifiers.{Formats}
use agentpulse_rs.Domain.Plan.{PlanItem, PlanSnapshot, new_plan_snapshot, with_explanation}
use agentpulse_rs.Domain.Progress.{
  ProgressValue, indeterminate, determinate, ProgressSnapshot, new_determinate_progress,
  new_progress_snapshot, with_message,
}
use agentpulse_rs.Domain.Event.{AgentMessage, ToolActivity, SessionOutcome}
use agentpulse_rs.Protocol.Dto.Sessions.{
  WorkspaceRefDto, AgentSessionDto, AgentMessageDto, ToolActivityDto, SessionOutcomeDto,
  PlanItemDto, PlanSnapshotDto, ProgressValueDto, ProgressSnapshotDto,
}
use agentpulse_rs.Protocol.Error.{ProtocolError}
use agentpulse_rs.Protocol.Convert.Scalars.{
  lift, decode_text, decode_optional_text, encode_optional_text, decode_counter, parse_id,
  encode_timestamp, decode_timestamp,
}
use agentpulse_rs.Protocol.Convert.Names.{
  encode_agent_state, decode_agent_state, encode_connection_state, decode_connection_state,
  encode_message_role, decode_message_role, encode_message_level, decode_message_level,
  encode_tool_outcome, decode_tool_outcome, encode_plan_item_status, decode_plan_item_status,
}

abbrev pub encode_workspace : WorkspaceRef → WorkspaceRefDto
encode_workspace w = record {
  path = w.path.text;
  display_name = encode_optional_text w.display_name;
}

-- `match optional { Some(v) => Ok(x.with(decode(v)?)), None => Ok(x) }`.
abbrev pub with_optional {ℓ κ μ} :
    {A : Type ℓ} {B : Type κ} {C : Type μ}
    → (A → B → A)
    → (C → Result ProtocolError B)
    → A
    → Option C
    → Result ProtocolError A
with_optional set decode x none = ok x
with_optional set decode x (some v) = do y ← decode v; ok (set x y)

unfoldable pub decode_workspace : WorkspaceRefDto → Result ProtocolError WorkspaceRef
decode_workspace dto = do
  path ← decode_text dto.path
  with_optional with_display_name decode_text (new_workspace path) dto.display_name

unfoldable pub encode_message : AgentMessage → Result ProtocolError AgentMessageDto
encode_message m = do
  role ← encode_message_role m.role
  level ← encode_message_level m.level
  ok (record { role = role; level = level; content = m.content.text })

unfoldable pub decode_message : AgentMessageDto → Result ProtocolError AgentMessage
decode_message dto = do
  content ← decode_text dto.content
  ok (record {
    role = decode_message_role dto.role;
    level = decode_message_level dto.level;
    content = content;
  })

unfoldable pub encode_session_outcome : SessionOutcome → Result ProtocolError SessionOutcomeDto
encode_session_outcome (SessionOutcome.completed summary) =
    ok (SessionOutcomeDto.completed (encode_optional_text summary))
encode_session_outcome (SessionOutcome.failed error) = ok (SessionOutcomeDto.failed error.text)
encode_session_outcome (SessionOutcome.cancelled reason) =
    ok (SessionOutcomeDto.cancelled (encode_optional_text reason))

unfoldable pub decode_session_outcome : SessionOutcomeDto → Result ProtocolError SessionOutcome
decode_session_outcome (SessionOutcomeDto.completed summary) = do
  t ← decode_optional_text summary
  ok (SessionOutcome.completed t)
decode_session_outcome (SessionOutcomeDto.failed error) = do
  t ← decode_text error
  ok (SessionOutcome.failed t)
decode_session_outcome (SessionOutcomeDto.cancelled reason) = do
  t ← decode_optional_text reason
  ok (SessionOutcome.cancelled t)

unfoldable pub encode_progress_value : ProgressValue → Result ProtocolError ProgressValueDto
encode_progress_value indeterminate = ok ProgressValueDto.indeterminate
encode_progress_value (determinate p) = ok (ProgressValueDto.determinate p.completed p.total)

unfoldable pub decode_progress_value : ProgressValueDto → Result ProtocolError ProgressValue
decode_progress_value ProgressValueDto.indeterminate = ok indeterminate
decode_progress_value (ProgressValueDto.determinate completed total) = do
  p ← lift (new_determinate_progress completed total)
  ok (determinate p)

unfoldable pub encode_progress : ProgressSnapshot → Result ProtocolError ProgressSnapshotDto
encode_progress p = do
  value ← encode_progress_value p.value
  ok (record { revision = p.revision; value = value; message = encode_optional_text p.message })

unfoldable pub decode_progress : ProgressSnapshotDto → Result ProtocolError ProgressSnapshot
decode_progress dto = do
  revision ← decode_counter "revision" dto.revision
  value ← decode_progress_value dto.value
  with_optional with_message decode_text (new_progress_snapshot revision value) dto.message

module _ (formats : Formats) where
  unfoldable pub encode_session : AgentSession → Result ProtocolError AgentSessionDto
  encode_session s = do
    state ← encode_agent_state s.state
    connection_state ← encode_connection_state s.connection_state
    created_at ← encode_timestamp formats s.created_at "session created_at"
    updated_at ← encode_timestamp formats s.updated_at "session updated_at"
    ok (record {
      id = formats.print_uuid s.id;
      provider_id = formats.print_uuid s.provider_id;
      external_id = map_option (λ e. e.value.text) s.external_id;
      title = encode_optional_text s.title;
      workspace = map_option encode_workspace s.workspace;
      state = state;
      connection_state = connection_state;
      revision = s.revision;
      created_at = created_at;
      updated_at = updated_at;
    })

  -- The builder, up to the fields that are there in any case.
  unfoldable pub session_builder : AgentSessionDto → Result ProtocolError AgentSession
  session_builder dto = do
    created_at ← decode_timestamp formats dto.created_at "session created_at"
    updated_at ← decode_timestamp formats dto.updated_at "session updated_at"
    id ← parse_id formats "session ID" dto.id
    provider_id ← parse_id formats "provider ID" dto.provider_id
    revision ← decode_counter "revision" dto.revision
    let start = with_state (builder id provider_id created_at) (decode_agent_state dto.state)
    let connected = with_connection_state start (decode_connection_state dto.connection_state)
    ok (with_revision connected revision updated_at)

  unfoldable pub decode_external_id : Text → Result ProtocolError ExternalId
  decode_external_id value = lift (new_external_id value)

  unfoldable pub decode_session : AgentSessionDto → Result ProtocolError AgentSession
  decode_session dto = do
    start ← session_builder dto
    named ← with_optional with_external_id decode_external_id start dto.external_id
    titled ← with_optional with_title decode_text named dto.title
    placed ← with_optional with_workspace decode_workspace titled dto.workspace
    lift (build placed)

  unfoldable pub encode_tool_activity : ToolActivity → Result ProtocolError ToolActivityDto
  encode_tool_activity (ToolActivity.started call_id name summary) = ok (
      ToolActivityDto.started (formats.print_uuid call_id) name.text (encode_optional_text summary))
  encode_tool_activity (ToolActivity.finished call_id outcome summary) = do
    o ← encode_tool_outcome outcome
    ok (ToolActivityDto.finished (formats.print_uuid call_id) o (encode_optional_text summary))

  unfoldable pub decode_tool_activity : ToolActivityDto → Result ProtocolError ToolActivity
  decode_tool_activity (ToolActivityDto.started call_id name summary) = do
    id ← parse_id formats "tool call ID" call_id
    n ← decode_text name
    s ← decode_optional_text summary
    ok (ToolActivity.started id n s)
  decode_tool_activity (ToolActivityDto.finished call_id outcome summary) = do
    id ← parse_id formats "tool call ID" call_id
    s ← decode_optional_text summary
    ok (ToolActivity.finished id (decode_tool_outcome outcome) s)

  unfoldable pub encode_plan_item : PlanItem → Result ProtocolError PlanItemDto
  encode_plan_item i = do
    status ← encode_plan_item_status i.status
    ok (record { id = formats.print_uuid i.id; content = i.content.text; status = status })

  unfoldable pub decode_plan_item : PlanItemDto → Result ProtocolError PlanItem
  decode_plan_item dto = do
    id ← parse_id formats "plan item ID" dto.id
    content ← decode_text dto.content
    ok (record { id = id; content = content; status = decode_plan_item_status dto.status })

  unfoldable pub encode_plan : PlanSnapshot → Result ProtocolError PlanSnapshotDto
  encode_plan plan = do
    items ← try_map encode_plan_item plan.items
    ok (record {
      revision = plan.revision;
      explanation = encode_optional_text plan.explanation;
      items = items;
    })

  unfoldable pub decode_plan : PlanSnapshotDto → Result ProtocolError PlanSnapshot
  decode_plan dto = do
    items ← try_map decode_plan_item dto.items
    revision ← decode_counter "revision" dto.revision
    plan ← lift (new_plan_snapshot revision items)
    with_optional with_explanation decode_text plan dto.explanation
