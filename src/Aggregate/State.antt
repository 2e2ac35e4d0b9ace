-- ===== src/Aggregate/State.antt =====
-- agentpulse-core/src/aggregate.rs: the aggregate, its settings and errors, and its start.
use agentpulse_rs.Common.{
  ℕ, Bool, true, false, not, ◌&&◌, List, [], ◌∷◌, Option, none, some, Result, ok, err, ◌==◌,
  if◌then◌else◌,
}
use agentpulse_rs.Common.Map.{Map}
use agentpulse_rs.Domain.Error.{DomainError}
use agentpulse_rs.Domain.Value.{NonEmptyText, Timestamp, EventSequence, Revision, first}
use agentpulse_rs.Domain.Session.{Uuid, AgentSession}
use agentpulse_rs.Domain.Plan.{PlanSnapshot}
use agentpulse_rs.Domain.Progress.{ProgressSnapshot}
use agentpulse_rs.Domain.Interaction.{InteractionRequest}
use agentpulse_rs.Domain.Event.{AgentEvent, AgentEventPayload, SessionOutcome, session_started}

pub data SnapshotKind : Type 0 where
  plan progress : SnapshotKind

pub data ReduceError : Type 0 where
  empty_replay : ReduceError
  invalid_initial_sequence : (actual : EventSequence) → ReduceError
  initial_event_not_session_started : ReduceError
  session_mismatch : (expected actual : Uuid) → ReduceError
  stale_sequence : (last actual : EventSequence) → ReduceError
  sequence_conflict :
      (sequence : EventSequence) (expected_event_id actual_event_id : Uuid) → ReduceError
  sequence_gap : (expected actual : EventSequence) → ReduceError
  sequence_exhausted : ReduceError
  unexpected_session_started : ReduceError
  stale_revision : (snapshot : SnapshotKind) (current incoming : Revision) → ReduceError
  session_revision_exhausted : ReduceError
  tool_already_active : (call_id : Uuid) → ReduceError
  tool_not_active : (call_id : Uuid) → ReduceError
  interaction_already_pending : (interaction_id : Uuid) → ReduceError
  interaction_not_pending : (interaction_id : Uuid) → ReduceError
  invalid_interaction_response : (interaction_id : Uuid) (source : DomainError) → ReduceError

pub data ApplyOutcome : Type 0 where
  applied already_applied : ApplyOutcome

pub record SessionAggregateConfig : Type 0 where
  pub recent_event_capacity : ℕ
  pub retain_all_events : Bool

abbrev pub with_capacity : ℕ → SessionAggregateConfig
with_capacity capacity = record { recent_event_capacity = capacity; retain_all_events = false }

abbrev pub retain_all : SessionAggregateConfig
retain_all = record { recent_event_capacity = 0; retain_all_events = true }

abbrev pub default_config : SessionAggregateConfig
default_config = with_capacity 256

pub record ActiveToolCall : Type 0 where
  pub id : Uuid
  pub name : NonEmptyText
  pub summary : Option NonEmptyText
  pub started_at : Timestamp

pub record SessionAggregate : Type 0 where
  pub config : SessionAggregateConfig
  pub session : AgentSession
  pub plan : Option PlanSnapshot
  pub progress : Option ProgressSnapshot
  pub active_tool_calls : Map ActiveToolCall
  pub pending_interactions : Map InteractionRequest
  pub latest_outcome : Option SessionOutcome
  pub last_event : AgentEvent
  pub recent_events : List AgentEvent  -- the front of the deque first

abbrev pub last_sequence : SessionAggregate → EventSequence
last_sequence s = s.last_event.sequence

-- Whether the configuration keeps no event at all.
abbrev pub keeps_none : SessionAggregateConfig → Bool
keeps_none c = not c.retain_all_events && c.recent_event_capacity == 0

-- The aggregate of an initial event that announces `session`.
abbrev pub fresh : AgentEvent → SessionAggregateConfig → AgentSession → SessionAggregate
fresh e config session = record {
  config = config;
  session = session;
  plan = none;
  progress = none;
  active_tool_calls = [];
  pending_interactions = [];
  latest_outcome = none;
  last_event = e;
  recent_events = if keeps_none config then [] else e ∷ [];
}

abbrev started_session : AgentEventPayload → Option AgentSession
started_session (session_started session) = some session
started_session _ = none

abbrev from_session :
    AgentEvent → SessionAggregateConfig → Option AgentSession → Result ReduceError SessionAggregate
from_session e config none = err initial_event_not_session_started
from_session e config (some session) = ok (fresh e config session)

unfoldable pub from_initial_event_with_config :
    AgentEvent → SessionAggregateConfig → Result ReduceError SessionAggregate
from_initial_event_with_config e config =
    if not (e.sequence == first)
    then err (invalid_initial_sequence e.sequence)
    else from_session e config (started_session e.payload)
