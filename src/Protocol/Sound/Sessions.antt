-- ===== src/Protocol/Sound/Sessions.antt =====
-- Decoded sessions and reports are ones that the constructors allow.
use agentpulse_rs.Common.{
  ℕ, ◌≡◌, ◌<◌, sym, subst, none, ok, arith, try_map, try_map-All, List, map, bind-ok,
}
use agentpulse_rs.Domain.Error.{Text}
use agentpulse_rs.Domain.Value.{
  ExternalId, WorkspaceRef, new_external_id, new_workspace, with_display_name, new_text,
}
use agentpulse_rs.Domain.Unique.{IsUnique, find_duplicate-IsUnique}
use agentpulse_rs.Domain.Identifiers.{Formats, IsV7}
use agentpulse_rs.Domain.Session.{
  AgentSession, builder, build, with_external_id, with_title, with_workspace, with_state,
  with_connection_state, with_revision,
}
use agentpulse_rs.Domain.Plan.{PlanItem, PlanSnapshot, new_plan_snapshot, with_explanation}
use agentpulse_rs.Domain.Progress.{
  ProgressValue, indeterminate, determinate, ProgressSnapshot, new_determinate_progress,
  new_progress_snapshot, with_message,
}
use agentpulse_rs.Domain.Event.{AgentMessage, ToolActivity, SessionOutcome}
use agentpulse_rs.Domain.Constructed.{
  IsText, IsWorkspace, IsMessage, IsOutcome, IsProgressValue, IsProgress, IsSession, IsTool,
  IsPlanItem, IsPlan,
}
use agentpulse_rs.Protocol.Dto.Sessions.{
  WorkspaceRefDto, AgentSessionDto, AgentMessageDto, ToolActivityDto, SessionOutcomeDto,
  PlanItemDto, PlanSnapshotDto, ProgressValueDto, ProgressSnapshotDto,
}
use agentpulse_rs.Protocol.Convert.Scalars.{lift, decode_text, decode_counter}
use agentpulse_rs.Protocol.Convert.Sessions.{
  decode_workspace, decode_message, decode_session_outcome, decode_progress_value, decode_progress,
  session_builder, decode_external_id, decode_session, decode_tool_activity, decode_plan_item,
  decode_plan, with_optional,
}
use agentpulse_rs.Protocol.Sound.Scalars.{
  text-IsText, optional_text-IsText, counter_positive, id-IsV7, with_optional_inv,
}

pub decode_message-IsMessage :
    (d : AgentMessageDto) (m : AgentMessage) → decode_message d ≡ ok m → IsMessage m
unfolding decode_message
decode_message-IsMessage d m e = text-IsText d.content m.content (ground arith)

pub decode_session_outcome-IsOutcome :
    (d : SessionOutcomeDto) (o : SessionOutcome) → decode_session_outcome d ≡ ok o → IsOutcome o
unfolding decode_session_outcome
decode_session_outcome-IsOutcome (SessionOutcomeDto.completed s) (SessionOutcome.completed t) e =
    optional_text-IsText s t (ground arith)
decode_session_outcome-IsOutcome (SessionOutcomeDto.failed s) (SessionOutcome.failed t) e =
    text-IsText s t (ground arith)
decode_session_outcome-IsOutcome (SessionOutcomeDto.cancelled s) (SessionOutcome.cancelled t) e =
    optional_text-IsText s t (ground arith)
decode_session_outcome-IsOutcome (SessionOutcomeDto.completed s) o e = absurd (ground arith)
decode_session_outcome-IsOutcome (SessionOutcomeDto.failed s) o e = absurd (ground arith)
decode_session_outcome-IsOutcome (SessionOutcomeDto.cancelled s) o e = absurd (ground arith)

decode_workspace-IsWorkspace :
    (d : WorkspaceRefDto) (w : WorkspaceRef) → decode_workspace d ≡ ok w → IsWorkspace w
unfolding decode_workspace with_display_name new_workspace
decode_workspace-IsWorkspace d w e =
    let (path, p, e1) = bind-ok (decode_text d.path) _ w e in
    let (name, named, same) =
      with_optional_inv IsText with_display_name decode_text text-IsText (new_workspace path) w
        d.display_name e1 in
    let whole : w ≡ record { path = path; display_name = name } = ground arith in
    subst IsWorkspace (sym whole) (text-IsText d.path path p, named)

decode_progress_value-IsProgressValue :
    (d : ProgressValueDto) (p : ProgressValue) → decode_progress_value d ≡ ok p → IsProgressValue p
unfolding decode_progress_value new_determinate_progress
decode_progress_value-IsProgressValue d indeterminate e = tt
decode_progress_value-IsProgressValue ProgressValueDto.indeterminate (determinate p) e =
    absurd (ground arith)
decode_progress_value-IsProgressValue (ProgressValueDto.determinate c t) (determinate p) e =
    ground arith

pub decode_progress-IsProgress :
    (d : ProgressSnapshotDto) (p : ProgressSnapshot) → decode_progress d ≡ ok p → IsProgress p
unfolding decode_progress with_message new_progress_snapshot
decode_progress-IsProgress d p e =
    let (revision, r, e1) = bind-ok (decode_counter "revision" d.revision) _ p e in
    let (value, v, e2) = bind-ok (decode_progress_value d.value) _ p e1 in
    let bare = new_progress_snapshot revision value in
    let (name, named, same) =
      with_optional_inv IsText with_message decode_text text-IsText bare p d.message e2 in
    let whole : p ≡ record { revision = revision; value = value; message = name } = ground arith in
    subst IsProgress (sym whole) (
      counter_positive "revision" d.revision revision r,
      decode_progress_value-IsProgressValue d.value value v,
      named,
    )

module _ (formats : Formats) where
  pub decode_tool_activity-IsTool :
      (d : ToolActivityDto) (a : ToolActivity)
      → decode_tool_activity formats d ≡ ok a
      → IsTool formats a
  unfolding decode_tool_activity
  decode_tool_activity-IsTool (ToolActivityDto.started c n s) (ToolActivity.started c' n' s') e = (
    id-IsV7 formats "tool call ID" c c' (ground arith),
    text-IsText n n' (ground arith),
    optional_text-IsText s s' (ground arith),
  )
  decode_tool_activity-IsTool (ToolActivityDto.finished c o s) (ToolActivity.finished c' o' s') e =
      (id-IsV7 formats "tool call ID" c c' (ground arith), optional_text-IsText s s' (ground arith))
  decode_tool_activity-IsTool (ToolActivityDto.started c n s) a e = absurd (ground arith)
  decode_tool_activity-IsTool (ToolActivityDto.finished c o s) a e = absurd (ground arith)

  decode_plan_item-IsPlanItem :
      (d : PlanItemDto) (i : PlanItem) → decode_plan_item formats d ≡ ok i → IsPlanItem formats i
  unfolding decode_plan_item
  decode_plan_item-IsPlanItem d i e = (
    id-IsV7 formats "plan item ID" d.id i.id (ground arith),
    text-IsText d.content i.content (ground arith),
  )

  new_plan_snapshot-IsUnique :
      (revision : ℕ) (items : List PlanItem) (p : PlanSnapshot)
      → new_plan_snapshot revision items ≡ ok p
      → (p ≡ record { revision = revision; explanation = none; items = items })
        × IsUnique (map (λ i. i.id) items)
  unfolding new_plan_snapshot
  new_plan_snapshot-IsUnique revision items p e =
      (ground arith, (find_duplicate-IsUnique (map (λ i. i.id) items)).0 (ground arith))

  pub decode_plan-IsPlan :
      (d : PlanSnapshotDto) (p : PlanSnapshot) → decode_plan formats d ≡ ok p → IsPlan formats p
  unfolding decode_plan with_explanation
  decode_plan-IsPlan d p e =
      let (items, i, e1) = bind-ok (try_map (decode_plan_item formats) d.items) _ p e in
      let (revision, r, e2) = bind-ok (decode_counter "revision" d.revision) _ p e1 in
      let (bare, b, e3) = bind-ok (lift (new_plan_snapshot revision items)) _ p e2 in
      let (explanation, explained, same) =
        with_optional_inv IsText with_explanation decode_text text-IsText bare p d.explanation e3 in
      let (start, unique) = new_plan_snapshot-IsUnique revision items bare (ground arith) in
      let whole : p ≡ record { revision = revision; explanation = explanation; items = items } =
        ground arith in
      subst (IsPlan formats) (sym whole) (
        counter_positive "revision" d.revision revision r,
        explained,
        try_map-All (IsPlanItem formats) (decode_plan_item formats) decode_plan_item-IsPlanItem
            d.items items i,
        unique,
      )

  external_id-IsText :
      (s : Text) (x : ExternalId) → decode_external_id formats s ≡ ok x → IsText x.value
  unfolding decode_external_id new_external_id decode_text new_text
  external_id-IsText s x e = text-IsText s x.value (ground arith)

  session_builder-IsSession :
      (d : AgentSessionDto) (s : AgentSession)
      → session_builder formats d ≡ ok s
      → IsV7 formats s.id
        × IsV7 formats s.provider_id
        × (s.external_id ≡ none)
        × (s.title ≡ none)
        × (s.workspace ≡ none)
        × (0 < s.revision)
  unfolding session_builder builder with_state with_connection_state with_revision
  session_builder-IsSession d s e = (
    id-IsV7 formats "session ID" d.id s.id (ground arith),
    id-IsV7 formats "provider ID" d.provider_id s.provider_id (ground arith),
    ground arith,
    ground arith,
    ground arith,
    counter_positive "revision" d.revision s.revision (ground arith),
  )

  pub decode_session-IsSession :
      (d : AgentSessionDto) (s : AgentSession)
      → decode_session formats d ≡ ok s
      → IsSession formats s
  unfolding decode_session with_external_id with_title with_workspace build
  decode_session-IsSession d s e =
      let (b, h, e1) = bind-ok (session_builder formats d) _ s e in
      let (named, n, e2) =
        bind-ok (with_optional with_external_id (decode_external_id formats) b d.external_id) _ s
          e1 in
      let (titled, t, e3) = bind-ok (with_optional with_title decode_text named d.title) _ s e2 in
      let (placed, w, e4) =
        bind-ok (with_optional with_workspace decode_workspace titled d.workspace) _ s e3 in
      let start = session_builder-IsSession d b h in
      let (x, xs, nq) =
        with_optional_inv (λ (y : ExternalId). IsText y.value) with_external_id
          (decode_external_id formats) external_id-IsText b named d.external_id n in
      let (y, ys, tq) =
        with_optional_inv IsText with_title decode_text text-IsText named titled d.title t in
      let (z, zs, wq) =
        with_optional_inv IsWorkspace with_workspace decode_workspace decode_workspace-IsWorkspace
          titled placed d.workspace w in
      let whole : s ≡ record b { external_id = x; title = y; workspace = z } = ground arith in
      subst (IsSession formats) (sym whole) (record {
        id = start.0;
        provider_id = start.1;
        external_id = xs;
        title = ys;
        workspace = zs;
        revision = start.5;
        ordered = ground arith;
      })
