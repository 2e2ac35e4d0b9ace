-- ===== src/Aggregate/Frame.antt =====
-- What `apply` of agentpulse-core/src/aggregate.rs leaves alone whatever the payload.
use agentpulse_rs.Common.{◌≡◌, arith}
use agentpulse_rs.Domain.Value.{Timestamp}
use agentpulse_rs.Domain.Event.{AgentEventPayload, ToolActivity, started, finished, tool_activity}
use agentpulse_rs.Aggregate.State.{SessionAggregate}
use agentpulse_rs.Aggregate.Apply.{apply_payload, apply_tool_activity}

-- The parts of an aggregate that only `record_event` changes, and the session's identity.
abbrev pub SameFrame : SessionAggregate → SessionAggregate → Type 0
SameFrame t s =
    (t.config ≡ s.config)
    × (t.recent_events ≡ s.recent_events)
    × (t.last_event ≡ s.last_event)
    × (t.session.id ≡ s.session.id)
    × (t.session.provider_id ≡ s.session.provider_id)

apply_tool_activity_frame :
    (a : ToolActivity) (at : Timestamp) (s : SessionAggregate)
    → SameFrame (apply_tool_activity a at s).0 s
unfolding apply_tool_activity
apply_tool_activity_frame (started id name summary) at s = ground arith
apply_tool_activity_frame (finished id outcome summary) at s = ground arith

pub apply_payload_frame :
    (p : AgentEventPayload) (at : Timestamp) (s : SessionAggregate)
    → SameFrame (apply_payload p at s).0 s
unfolding apply_payload
apply_payload_frame (tool_activity a) at s = apply_tool_activity_frame a at s
apply_payload_frame _ at s = ground arith
