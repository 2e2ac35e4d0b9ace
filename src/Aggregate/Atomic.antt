-- ===== src/Aggregate/Atomic.antt =====
-- The aggregate under `apply` of agentpulse-core/src/aggregate.rs: which events it takes, and what
-- an event that it refuses leaves behind.
use agentpulse_rs.Common.{◌+◌, ◌<◌, ◌≡◌, ap, ◌↔◌, true, false, ok, err, arith}
use agentpulse_rs.Common.Map.{remove_absent}
use agentpulse_rs.Domain.Value.{checked_next, Timestamp, u64_end}
use agentpulse_rs.Domain.Event.{
  AgentEvent, AgentEventPayload, ToolActivity, started, finished, tool_activity, interaction_closed,
}
use agentpulse_rs.Domain.Event.Equality.{same_event_iff}
use agentpulse_rs.Aggregate.State.{
  ReduceError, SessionAggregate, last_sequence, applied, already_applied,
}
use agentpulse_rs.Aggregate.Apply.{
  apply, apply_payload, apply_tool_activity, validate_cursor, record_event,
}

apply_tool_activity_atomic :
    (a : ToolActivity) (at : Timestamp) (s : SessionAggregate) (x : ReduceError)
    → (apply_tool_activity a at s).1 ≡ err x
    → (apply_tool_activity a at s).0 ≡ s
unfolding apply_tool_activity
apply_tool_activity_atomic (started id name summary) at s x h = ground arith
apply_tool_activity_atomic (finished id outcome summary) at s x h = ground arith

apply_payload_atomic :
    (p : AgentEventPayload) (at : Timestamp) (s : SessionAggregate) (x : ReduceError)
    → (apply_payload p at s).1 ≡ err x
    → (apply_payload p at s).0 ≡ s
unfolding apply_payload
apply_payload_atomic (tool_activity a) at s x h = apply_tool_activity_atomic a at s x h
apply_payload_atomic (interaction_closed c) at s x h =
    ground (arith, remove_absent c.request_id s.pending_interactions)
apply_payload_atomic _ at s x h = ground arith

-- `apply` is atomic: an event that is refused leaves the aggregate exactly as it was.
pub apply_atomic :
    (e : AgentEvent) (s : SessionAggregate) (x : ReduceError)
    → (apply e s).1 ≡ err x
    → (apply e s).0 ≡ s
unfolding apply
apply_atomic e s x h = ground (arith, apply_payload_atomic e.payload e.occurred_at s x)

-- An event is taken as a retry exactly if it is the last event applied, of this session; it is
-- taken as new exactly if it is of this session and has the next sequence, below 2^64.
pub validate_cursor-ok :
    (s : SessionAggregate) (e : AgentEvent)
    → ((validate_cursor s e ≡ ok true) ↔ ((e.session_id ≡ s.session.id) × (e ≡ s.last_event)))
      × ((validate_cursor s e ≡ ok false) ↔ (
          (e.session_id ≡ s.session.id)
          × (e.sequence ≡ last_sequence s + 1)
          × (last_sequence s + 1 < u64_end)))
unfolding validate_cursor checked_next
validate_cursor-ok s e =
    let same = same_event_iff e s.last_event in
    let sequences = λ (p : e ≡ s.last_event). ap (λ (a : AgentEvent). a.sequence) p in
    (
      (λ h. ground (arith, same), λ h. ground (arith, same, sequences h.1)),
      (λ h. ground arith, λ h. ground arith),
    )

-- An applied event becomes the last one; a retry changes nothing.
pub apply_lem :
    (e : AgentEvent) (s t : SessionAggregate)
    → (apply e s ≡ (t, ok applied)
        → (validate_cursor s e ≡ ok false)
          × ((u : SessionAggregate) × (apply_payload e.payload e.occurred_at s ≡ (u, ok tt))
              × (t ≡ record_event e u)))
      × (apply e s ≡ (t, ok already_applied) → (validate_cursor s e ≡ ok true) × (t ≡ s))
unfolding apply
apply_lem e s t = (
  λ h. (ground arith, ((apply_payload e.payload e.occurred_at s).0, ground arith, ground arith)),
  λ h. ground arith,
)
