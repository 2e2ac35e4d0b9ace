-- ===== src/Aggregate/Projection.antt =====
-- What each part of the state of agentpulse-core/src/aggregate.rs says about the log: a description
-- that looks for the newest event that bears on the part, independent of the reducer.
pub mod Step
use agentpulse_rs.Common.{
  ℕ, suc, ◌+◌, ◌≡◌, refl, ap, ◌∙◌, sym, List, [], ◌∷◌, Option, none, some, ok, arith, ◌==◌,
  if◌then◌else◌, ltb,
}
use agentpulse_rs.Common.Map.{get}
use agentpulse_rs.Domain.Value.{Timestamp, Revision}
use agentpulse_rs.Domain.Session.{Uuid, AgentState, ConnectionState, initializing, connected, later}
use agentpulse_rs.Domain.Plan.{PlanSnapshot}
use agentpulse_rs.Domain.Progress.{ProgressSnapshot}
use agentpulse_rs.Domain.Interaction.{InteractionRequest}
use agentpulse_rs.Domain.Event.{
  AgentEvent, AgentEventPayload, SessionOutcome, completed, failed, cancelled, ToolActivity,
  started, finished, session_started, state_changed, connection_changed, tool_activity,
  plan_updated, progress_updated, interaction_requested, interaction_responded, interaction_closed,
  session_ended,
}
use agentpulse_rs.Aggregate.State.{SessionAggregate, ActiveToolCall}

-- What an event makes of each answer, given the answer of the older log.
abbrev pub opens : Uuid → AgentEventPayload → Option InteractionRequest → Option InteractionRequest
opens k (interaction_requested q) older = if q.id == k then some q else older
opens k (interaction_responded r) older = if r.request_id == k then none else older
opens k (interaction_closed c) older = if c.request_id == k then none else older
opens k (session_ended o) older = none
opens k _ older = older

abbrev runs : Uuid → ToolActivity → Timestamp → Option ActiveToolCall → Option ActiveToolCall
runs k (started id name summary) at older =
    if id == k
    then some (record { id = id; name = name; summary = summary; started_at = at })
    else older
runs k (finished id outcome summary) at older = if id == k then none else older

abbrev pub calls :
    Uuid → AgentEventPayload → Timestamp → Option ActiveToolCall → Option ActiveToolCall
calls k (tool_activity a) at older = runs k a at older
calls k (session_ended o) at older = none
calls k _ at older = older

abbrev pub plans : AgentEventPayload → Option PlanSnapshot → Option PlanSnapshot
plans (plan_updated p) older = some p
plans _ older = older

abbrev pub progresses : AgentEventPayload → Option ProgressSnapshot → Option ProgressSnapshot
progresses (progress_updated p) older = some p
progresses _ older = older

abbrev pub ends : AgentEventPayload → Option SessionOutcome → Option SessionOutcome
ends (session_ended o) older = some o
ends _ older = older

abbrev pub ended_state : SessionOutcome → AgentState
ended_state (completed _) = AgentState.completed
ended_state (failed _) = AgentState.failed
ended_state (cancelled _) = AgentState.cancelled

abbrev pub states : AgentEventPayload → AgentState → AgentState
states (session_started s) older = s.state
states (state_changed state) older = state
states (session_ended o) older = ended_state o
states _ older = older

abbrev pub connections : AgentEventPayload → ConnectionState → ConnectionState
connections (session_started s) older = s.connection_state
connections (connection_changed state) older = state
connections _ older = older

-- A session starts at the revision that its first event gives, and each event that changes the
-- session takes the next one.
abbrev pub revisions : AgentEventPayload → Revision → Revision
revisions (session_started s) older = s.revision
revisions (state_changed _) older = older + 1
revisions (connection_changed _) older = older + 1
revisions (session_ended _) older = older + 1
revisions _ older = older

abbrev pub times : AgentEventPayload → Timestamp → Timestamp → Timestamp
times (session_started s) at older = s.updated_at
times (state_changed _) at older = later older at
times (connection_changed _) at older = later older at
times (session_ended _) at older = later older at
times _ at older = older

-- The request that is open under an identifier at the end of a log.
abbrev pub open_request : Uuid → List AgentEvent → Option InteractionRequest
open_request k [] = none
open_request k (e ∷ log) = opens k e.payload (open_request k log)

-- The tool call that runs under an identifier.
abbrev pub running_call : Uuid → List AgentEvent → Option ActiveToolCall
running_call k [] = none
running_call k (e ∷ log) = calls k e.payload e.occurred_at (running_call k log)

abbrev pub latest_plan : List AgentEvent → Option PlanSnapshot
latest_plan [] = none
latest_plan (e ∷ log) = plans e.payload (latest_plan log)

abbrev pub latest_progress : List AgentEvent → Option ProgressSnapshot
latest_progress [] = none
latest_progress (e ∷ log) = progresses e.payload (latest_progress log)

abbrev pub last_end : List AgentEvent → Option SessionOutcome
last_end [] = none
last_end (e ∷ log) = ends e.payload (last_end log)

abbrev pub reported_state : List AgentEvent → AgentState
reported_state [] = initializing
reported_state (e ∷ log) = states e.payload (reported_state log)

abbrev pub reported_connection : List AgentEvent → ConnectionState
reported_connection [] = connected
reported_connection (e ∷ log) = connections e.payload (reported_connection log)

abbrev pub reported_revision : List AgentEvent → Revision
reported_revision [] = 0
reported_revision (e ∷ log) = revisions e.payload (reported_revision log)

abbrev pub reported_time : List AgentEvent → Timestamp
reported_time [] = 0
reported_time (e ∷ log) = times e.payload e.occurred_at (reported_time log)

-- The aggregate answers every question about its session as the log does.
pub record Projects (log : List AgentEvent) (s : SessionAggregate) : Type 0 where
  pub pending : (k : Uuid) → get k s.pending_interactions ≡ open_request k log
  pub active : (k : Uuid) → get k s.active_tool_calls ≡ running_call k log
  pub plan : s.plan ≡ latest_plan log
  pub progress : s.progress ≡ latest_progress log
  pub outcome : s.latest_outcome ≡ last_end log
  pub state : s.session.state ≡ reported_state log
  pub connection : s.session.connection_state ≡ reported_connection log
  pub revision : s.session.revision ≡ reported_revision log
  pub updated_at : s.session.updated_at ≡ reported_time log
