-- ===== src/Protocol/RoundTrip/Sessions.antt =====
-- Sessions and what is reported of them are read back as they were written.
use agentpulse_rs.Common.{◌≡◌, none, ok, arith, try_map-try_map, map_option, map}
use agentpulse_rs.Domain.Value.{
  ExternalId, WorkspaceRef, new_external_id, new_workspace, with_display_name, new_text,
}
use agentpulse_rs.Domain.Unique.{find_duplicate-IsUnique}
use agentpulse_rs.Domain.Identifiers.{Formats, ReadsBack}
use agentpulse_rs.Domain.Session.{
  AgentSession, builder, build, with_external_id, with_title, with_workspace, with_state,
  with_connection_state, with_revision,
}
use agentpulse_rs.Domain.Plan.{PlanItem, PlanSnapshot, new_plan_snapshot, with_explanation}
use agentpulse_rs.Domain.Progress.{
  ProgressValue, indeterminate, determinate, ProgressSnapshot, new_determinate_progress,
  new_progress_snapshot, with_message,
}
use agentpulse_rs.Domain.Event.{AgentMessage, ToolActivity, SessionOutcome}
use agentpulse_rs.Domain.Constructed.{
  IsText, IsWorkspace, IsMessage, IsOutcome, IsProgressValue, IsProgress, IsSession, IsTool,
  IsPlanItem, IsPlan,
}
use agentpulse_rs.Protocol.Dto.Sessions.{
  AgentSessionDto, AgentMessageDto, ToolActivityDto, SessionOutcomeDto, PlanItemDto,
  PlanSnapshotDto, ProgressValueDto, ProgressSnapshotDto,
}
use agentpulse_rs.Protocol.Convert.Scalars.{decode_text, encode_text}
use agentpulse_rs.Protocol.Convert.Sessions.{
  encode_workspace, decode_workspace, encode_message, decode_message, encode_session_outcome,
  decode_session_outcome, encode_progress_value, decode_progress_value, encode_progress,
  decode_progress, encode_session, session_builder, decode_external_id, decode_session,
  encode_tool_activity, decode_tool_activity, encode_plan_item, decode_plan_item, encode_plan,
  decode_plan,
}
use agentpulse_rs.Protocol.RoundTrip.Names.{
  agent_state_back, connection_state_back, message_role_back, message_level_back, tool_outcome_back,
  plan_item_status_back,
}
use agentpulse_rs.Protocol.RoundTrip.Scalars.{
  text_back, optional_text_back, with_optional_back, counter_back, id_back, timestamp_back,
}

workspace_back : (w : WorkspaceRef) → IsWorkspace w → decode_workspace (encode_workspace w) ≡ ok w
unfolding decode_workspace with_display_name new_workspace
workspace_back w v = ground (
  arith,
  text_back w.path v.0,
  with_optional_back IsText with_display_name encode_text decode_text text_back
      (new_workspace w.path) w.display_name v.1,
)

pub message_back :
    (m : AgentMessage)
    → IsMessage m
    → (d : AgentMessageDto) → encode_message m ≡ ok d
    → decode_message d ≡ ok m
unfolding encode_message decode_message
message_back m v d e = ground (
  arith,
  text_back m.content v,
  message_role_back m.role d.role,
  message_level_back m.level d.level,
)

pub session_outcome_back :
    (o : SessionOutcome)
    → IsOutcome o
    → (d : SessionOutcomeDto) → encode_session_outcome o ≡ ok d
    → decode_session_outcome d ≡ ok o
unfolding encode_session_outcome decode_session_outcome
session_outcome_back (SessionOutcome.completed s) v d e = ground (arith, optional_text_back s v)
session_outcome_back (SessionOutcome.failed t) v d e = ground (arith, text_back t v)
session_outcome_back (SessionOutcome.cancelled s) v d e = ground (arith, optional_text_back s v)

progress_value_back :
    (p : ProgressValue)
    → IsProgressValue p
    → (d : ProgressValueDto) → encode_progress_value p ≡ ok d
    → decode_progress_value d ≡ ok p
unfolding encode_progress_value decode_progress_value new_determinate_progress
progress_value_back indeterminate v d e = ground arith
progress_value_back (determinate p) v d e = ground arith

pub progress_back :
    (p : ProgressSnapshot)
    → IsProgress p
    → (d : ProgressSnapshotDto) → encode_progress p ≡ ok d
    → decode_progress d ≡ ok p
unfolding encode_progress decode_progress with_message new_progress_snapshot
progress_back p v d e = ground (
  arith,
  counter_back "revision" p.revision v.0,
  progress_value_back p.value v.1 d.value,
  with_optional_back IsText with_message encode_text decode_text text_back
      (new_progress_snapshot p.revision p.value) p.message v.2,
)

module _ (formats : Formats) (back : ReadsBack formats) where
  pub tool_activity_back :
      (a : ToolActivity)
      → IsTool formats a
      → (d : ToolActivityDto) → encode_tool_activity formats a ≡ ok d
      → decode_tool_activity formats d ≡ ok a
  unfolding encode_tool_activity decode_tool_activity
  tool_activity_back (ToolActivity.started c n s) v d e =
      ground (
        arith,
        id_back formats back "tool call ID" c v.0,
        text_back n v.1,
        optional_text_back s v.2,
      )
  tool_activity_back (ToolActivity.finished c o s) v (ToolActivityDto.finished c' o' s') e =
      ground (
        arith,
        id_back formats back "tool call ID" c v.0,
        tool_outcome_back o o',
        optional_text_back s v.1,
      )
  tool_activity_back (ToolActivity.finished c o s) v (ToolActivityDto.started c' n' s') e =
      ground arith

  plan_item_back :
      (i : PlanItem)
      → IsPlanItem formats i
      → (d : PlanItemDto) → encode_plan_item formats i ≡ ok d
      → decode_plan_item formats d ≡ ok i
  unfolding encode_plan_item decode_plan_item
  plan_item_back i v d e = ground (
    arith,
    id_back formats back "plan item ID" i.id v.0,
    text_back i.content v.1,
    plan_item_status_back i.status d.status,
  )

  pub plan_back :
      (p : PlanSnapshot)
      → IsPlan formats p
      → (d : PlanSnapshotDto) → encode_plan formats p ≡ ok d
      → decode_plan formats d ≡ ok p
  unfolding encode_plan decode_plan new_plan_snapshot with_explanation
  plan_back p v d e =
      let items =
        try_map-try_map (IsPlanItem formats) (encode_plan_item formats) (decode_plan_item formats)
          plan_item_back p.items v.2 d.items in
      let fresh = (find_duplicate-IsUnique (map (λ i. i.id) p.items)).1 v.3 in
      let bare : PlanSnapshot = record {
        revision = p.revision;
        explanation = none;
        items = p.items;
      } in
      ground (
        arith,
        items,
        counter_back "revision" p.revision v.0,
        with_optional_back IsText with_explanation encode_text decode_text text_back bare
            p.explanation v.1,
      )

  external_id_back :
      (x : ExternalId) → IsText x.value → decode_external_id formats x.value.text ≡ ok x
  unfolding decode_external_id new_external_id decode_text new_text
  external_id_back x v = ground (arith, text_back x.value v)

  session_builder_back :
      (s : AgentSession)
      → IsSession formats s
      → (d : AgentSessionDto) → encode_session formats s ≡ ok d
      → session_builder formats d
        ≡ ok (record s { external_id = none; title = none; workspace = none })
  unfolding encode_session session_builder builder with_state with_connection_state with_revision
  session_builder_back s v d e = ground (
    arith,
    timestamp_back formats back "session created_at" s.created_at d.created_at,
    timestamp_back formats back "session updated_at" s.updated_at d.updated_at,
    id_back formats back "session ID" s.id v.id,
    id_back formats back "provider ID" s.provider_id v.provider_id,
    counter_back "revision" s.revision v.revision,
    agent_state_back s.state d.state,
    connection_state_back s.connection_state d.connection_state,
  )

  -- The fields that are written as they are.
  encode_session-optional :
      (s : AgentSession) (d : AgentSessionDto)
      → encode_session formats s ≡ ok d
      → (d.external_id ≡ map_option (λ (x : ExternalId). x.value.text) s.external_id)
        × (d.title ≡ map_option encode_text s.title)
        × (d.workspace ≡ map_option encode_workspace s.workspace)
  unfolding encode_session
  encode_session-optional s d e = ground arith

  pub session_back :
      (s : AgentSession)
      → IsSession formats s
      → (d : AgentSessionDto) → encode_session formats s ≡ ok d
      → decode_session formats d ≡ ok s
  unfolding decode_session with_external_id with_title with_workspace build
  session_back s v d e =
      let start = record s { external_id = none; title = none; workspace = none } in
      let named = record s { title = none; workspace = none } in
      let titled = record s { workspace = none } in
      let written = encode_session-optional s d e in
      ground (
        arith,
        session_builder_back s v d e,
        with_optional_back (λ (x : ExternalId). IsText x.value) with_external_id
            (λ (x : ExternalId). x.value.text) (decode_external_id formats) external_id_back start
            s.external_id v.external_id,
        with_optional_back IsText with_title encode_text decode_text text_back named s.title
            v.title,
        with_optional_back IsWorkspace with_workspace encode_workspace decode_workspace
            workspace_back titled s.workspace v.workspace,
      )
