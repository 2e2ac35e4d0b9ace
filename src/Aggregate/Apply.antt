-- ===== src/Aggregate/Apply.antt =====
-- agentpulse-core/src/aggregate.rs: `apply`, which reduces one event. A method on `&mut self`
-- returns the aggregate that it leaves beside its result, also when it fails.
use agentpulse_rs.Common.{
  ℕ, Bool, true, false, not, List, [], ◌∷◌, ◌++◌, Option, none, some, Result, ok, err, ok_or,
  map_err, ltb, leb, ◌==◌, if◌then◌else◌, length,
}
use agentpulse_rs.Common.Map.{get, insert, remove, contains_key}
use agentpulse_rs.Domain.Value.{Timestamp, EventSequence, Revision, checked_next}
use agentpulse_rs.Domain.Session.{AgentState, observe_state, observe_connection_state}
use agentpulse_rs.Domain.Plan.{PlanSnapshot}
use agentpulse_rs.Domain.Progress.{ProgressSnapshot}
use agentpulse_rs.Domain.Interaction.Validate.{validate_response}
use agentpulse_rs.Domain.Event.{
  AgentEvent, AgentEventPayload, SessionOutcome, completed, failed, cancelled, ToolActivity,
  started, finished, session_started, state_changed, connection_changed, message, tool_activity,
  plan_updated, progress_updated, interaction_requested, interaction_responded, interaction_closed,
  command_issued, session_ended,
}
use agentpulse_rs.Domain.Event.Equality.{same_event}
use agentpulse_rs.Aggregate.State.{
  plan, progress, session_mismatch, stale_sequence, sequence_conflict, sequence_gap,
  sequence_exhausted, unexpected_session_started, stale_revision, session_revision_exhausted,
  tool_already_active, tool_not_active, interaction_already_pending, interaction_not_pending,
  invalid_interaction_response, applied, already_applied, SnapshotKind, ReduceError, ApplyOutcome,
  ActiveToolCall, SessionAggregate, last_sequence, keeps_none,
}

-- What a method on `&mut self` that may fail does.
abbrev pub Action : Type 0 → Type 0
Action A = SessionAggregate → SessionAggregate × Result ReduceError A

infixl 5 ◌>>=◌ ◌>>◌
abbrev ◌>>=◌ : {A B : Type 0} → Action A → (A → Action B) → Action B
◌>>=◌ m f s = let (s', r) = m s in elim r [ ok a ↦ f a s' | err e ↦ (s', err e) ]

abbrev ◌>>◌ : {A B : Type 0} → Action A → Action B → Action B
m >> k = m >>= λ _. k

-- A check that changes nothing.
abbrev check : {A : Type 0} → (SessionAggregate → Result ReduceError A) → Action A
check f s = (s, f s)

abbrev modify : (SessionAggregate → SessionAggregate) → Action (Unit {0})
modify f s = (f s, ok tt)

abbrev require : Bool → ReduceError → Result ReduceError (Unit {0})
require true e = ok tt
require false e = err e

unfoldable pub next_session_revision : SessionAggregate → Result ReduceError Revision
next_session_revision s = ok_or (checked_next s.session.revision) session_revision_exhausted

unfoldable pub validate_snapshot_revision :
    SnapshotKind → Option Revision → Revision → Result ReduceError (Unit {0})
validate_snapshot_revision kind none incoming = ok tt
validate_snapshot_revision kind (some current) incoming =
    if leb incoming current then err (stale_revision kind current incoming) else ok tt

abbrev pub plan_revision : Option PlanSnapshot → Option Revision
plan_revision none = none
plan_revision (some p) = some p.revision

abbrev pub progress_revision : Option ProgressSnapshot → Option Revision
progress_revision none = none
progress_revision (some p) = some p.revision

unfoldable pub apply_tool_activity : ToolActivity → Timestamp → Action (Unit {0})
apply_tool_activity (started id name summary) occurred_at = do
  check λ s. require (not (contains_key id s.active_tool_calls)) (tool_already_active id)
  let call : ActiveToolCall = record {
    id = id;
    name = name;
    summary = summary;
    started_at = occurred_at;
  }
  modify λ s. record s { active_tool_calls = insert id call s.active_tool_calls }
apply_tool_activity (finished id outcome summary) occurred_at = do
  check λ s. require (contains_key id s.active_tool_calls) (tool_not_active id)
  modify λ s. record s { active_tool_calls = remove id s.active_tool_calls }

unfoldable pub outcome_agent_state : SessionOutcome → AgentState
outcome_agent_state (completed _) = AgentState.completed
outcome_agent_state (failed _) = AgentState.failed
outcome_agent_state (cancelled _) = AgentState.cancelled

-- The `match` on the payload in `apply`.
unfoldable pub apply_payload : AgentEventPayload → Timestamp → Action (Unit {0})
unfolding next_session_revision apply_tool_activity validate_snapshot_revision outcome_agent_state
    observe_state observe_connection_state
apply_payload (session_started _) at = check λ s. err unexpected_session_started
apply_payload (state_changed state) at = do
  revision ← check next_session_revision
  modify λ s. record s { session = observe_state s.session state revision at }
apply_payload (connection_changed state) at = do
  revision ← check next_session_revision
  modify λ s. record s { session = observe_connection_state s.session state revision at }
apply_payload (message _) at = check λ s. ok tt
apply_payload (command_issued _) at = check λ s. ok tt
apply_payload (tool_activity activity) at = apply_tool_activity activity at
apply_payload (plan_updated p) at = do
  check λ s. validate_snapshot_revision plan (plan_revision s.plan) p.revision
  modify λ s. record s { plan = some p }
apply_payload (progress_updated p) at = do
  check λ s. validate_snapshot_revision progress (progress_revision s.progress) p.revision
  modify λ s. record s { progress = some p }
apply_payload (interaction_requested q) at = do
  check λ s.
      require (not (contains_key q.id s.pending_interactions)) (interaction_already_pending q.id)
  modify λ s. record s { pending_interactions = insert q.id q s.pending_interactions }
apply_payload (interaction_responded r) at = do
  q ←
      check
        λ s. ok_or (get r.request_id s.pending_interactions) (interaction_not_pending r.request_id)
  check λ s. map_err (invalid_interaction_response r.request_id) (validate_response q r)
  modify λ s. record s { pending_interactions = remove r.request_id s.pending_interactions }
apply_payload (interaction_closed c) at = do
  let found = λ (s : SessionAggregate). contains_key c.request_id s.pending_interactions
  known ← check λ s. ok (found s)
  modify λ s. record s { pending_interactions = remove c.request_id s.pending_interactions }
  check λ s. require known (interaction_not_pending c.request_id)
apply_payload (session_ended outcome) at = do
  revision ← check next_session_revision
  modify
      λ s. record s { session = observe_state s.session (outcome_agent_state outcome) revision at }
  modify λ s. record s {
    latest_outcome = some outcome;
    active_tool_calls = [];
    pending_interactions = [];
  }

-- Whether the event is an exact retry of the last one.
unfoldable pub validate_cursor : SessionAggregate → AgentEvent → Result ReduceError Bool
validate_cursor s e =
    if not (e.session_id == s.session.id)
    then err (session_mismatch s.session.id e.session_id)
    else if ltb e.sequence (last_sequence s)
    then err (stale_sequence (last_sequence s) e.sequence)
    else if e.sequence == last_sequence s
    then (if same_event e s.last_event
        then ok true
        else err (sequence_conflict e.sequence s.last_event.id e.id))
    else check_next (checked_next (last_sequence s))
  where
    check_next : Option EventSequence → Result ReduceError Bool
    check_next none = err sequence_exhausted
    check_next (some expected) =
        if not (e.sequence == expected) then err (sequence_gap expected e.sequence) else ok false

-- `while recent_events.len() > capacity { pop_front }`.
unfoldable pub evict : ℕ → List AgentEvent → List AgentEvent
evict capacity [] = []
evict capacity (e ∷ es) =
    let rest = evict capacity es in if ltb capacity (length (e ∷ es)) then rest else e ∷ es

unfoldable pub record_event : AgentEvent → SessionAggregate → SessionAggregate
record_event e s =
    let t = record s { last_event = e } in
    let pushed = t.recent_events ++ (e ∷ []) in
    if keeps_none t.config then t else record t {
      recent_events =
          if t.config.retain_all_events
          then pushed
          else evict t.config.recent_event_capacity pushed;
    }

abbrev apply_new : AgentEvent → Action ApplyOutcome
apply_new e = do
  apply_payload e.payload e.occurred_at
  modify (record_event e)
  check λ s. ok applied

abbrev after_cursor : AgentEvent → Bool → Action ApplyOutcome
after_cursor e true = check λ s. ok already_applied
after_cursor e false = apply_new e

unfoldable pub apply : AgentEvent → Action ApplyOutcome
apply e = do retry ← check λ s. validate_cursor s e; after_cursor e retry
