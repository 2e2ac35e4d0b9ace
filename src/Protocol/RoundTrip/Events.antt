-- ===== src/Protocol/RoundTrip/Events.antt =====
-- Events are read back as they were written.
use agentpulse_rs.Common.{ℕ, ◌≡◌, refl, Option, none, some, ok, arith, IfSome}
use agentpulse_rs.Domain.Identifiers.{Formats, ReadsBack}
use agentpulse_rs.Domain.Event.{
  AgentEventPayload, AgentEvent, new_event, embedded_session_id, check_embedded,
}
use agentpulse_rs.Domain.Constructed.{IsEventPayload, IsEvent}
use agentpulse_rs.Protocol.Dto.{AgentEventPayloadDto, AgentEventDto}
use agentpulse_rs.Protocol.Convert.{
  encode_event_payload, decode_event_payload, encode_event, decode_event,
}
use agentpulse_rs.Protocol.RoundTrip.Names.{agent_state_back, connection_state_back}
use agentpulse_rs.Protocol.RoundTrip.Scalars.{id_back, timestamp_back, counter_back}
use agentpulse_rs.Protocol.RoundTrip.Sessions.{
  session_back, message_back, tool_activity_back, plan_back, progress_back, session_outcome_back,
}
use agentpulse_rs.Protocol.RoundTrip.Requests.{interaction_request_back}
use agentpulse_rs.Protocol.RoundTrip.Responses.{
  interaction_response_back, interaction_closed_back, command_back,
}

embedded_back :
    (e : AgentEvent)
    → IfSome (λ k. k ≡ e.session_id) (embedded_session_id e.payload)
    → new_event e ≡ ok e
unfolding new_event
embedded_back e v = by_embedded (embedded_session_id e.payload) v
  where
    by_embedded : (o : Option ℕ) → IfSome (λ k. k ≡ e.session_id) o → check_embedded o e ≡ ok e
    by_embedded none v = refl
    by_embedded (some k) v = ground arith

module _ (formats : Formats) (back : ReadsBack formats) where
  event_payload_back :
      (p : AgentEventPayload)
      → IsEventPayload formats p
      → (d : AgentEventPayloadDto) → encode_event_payload formats p ≡ ok d
      → decode_event_payload formats d ≡ ok p
  unfolding encode_event_payload decode_event_payload
  event_payload_back (AgentEventPayload.session_started session) v
        (AgentEventPayloadDto.session_started d) e =
      ground (arith, session_back formats back session v d)
  event_payload_back (AgentEventPayload.state_changed state) v
        (AgentEventPayloadDto.state_changed d) e =
      ground (arith, agent_state_back state d)
  event_payload_back (AgentEventPayload.connection_changed state) v
        (AgentEventPayloadDto.connection_changed d) e =
      ground (arith, connection_state_back state d)
  event_payload_back (AgentEventPayload.message m) v (AgentEventPayloadDto.message d) e =
      ground (arith, message_back m v d)
  event_payload_back (AgentEventPayload.tool_activity a) v (AgentEventPayloadDto.tool_activity d)
        e =
      ground (arith, tool_activity_back formats back a v d)
  event_payload_back (AgentEventPayload.plan_updated p) v (AgentEventPayloadDto.plan_updated d) e =
      ground (arith, plan_back formats back p v d)
  event_payload_back (AgentEventPayload.progress_updated p) v
        (AgentEventPayloadDto.progress_updated d) e =
      ground (arith, progress_back p v d)
  event_payload_back (AgentEventPayload.interaction_requested r) v
        (AgentEventPayloadDto.interaction_requested d) e =
      ground (arith, interaction_request_back formats back r v d)
  event_payload_back (AgentEventPayload.interaction_responded r) v
        (AgentEventPayloadDto.interaction_responded d) e =
      ground (arith, interaction_response_back formats back r v d)
  event_payload_back (AgentEventPayload.interaction_closed c) v
        (AgentEventPayloadDto.interaction_closed d) e =
      ground (arith, interaction_closed_back formats back c v d)
  event_payload_back (AgentEventPayload.command_issued c) v (AgentEventPayloadDto.command_issued d)
        e =
      ground (arith, command_back formats back c v d)
  event_payload_back (AgentEventPayload.session_ended o) v (AgentEventPayloadDto.session_ended d)
        e =
      ground (arith, session_outcome_back o v d)
  event_payload_back (AgentEventPayload.session_started session) v d e = ground arith
  event_payload_back (AgentEventPayload.state_changed state) v d e = ground arith
  event_payload_back (AgentEventPayload.connection_changed state) v d e = ground arith
  event_payload_back (AgentEventPayload.message m) v d e = ground arith
  event_payload_back (AgentEventPayload.tool_activity a) v d e = ground arith
  event_payload_back (AgentEventPayload.plan_updated p) v d e = ground arith
  event_payload_back (AgentEventPayload.progress_updated p) v d e = ground arith
  event_payload_back (AgentEventPayload.interaction_requested r) v d e = ground arith
  event_payload_back (AgentEventPayload.interaction_responded r) v d e = ground arith
  event_payload_back (AgentEventPayload.interaction_closed c) v d e = ground arith
  event_payload_back (AgentEventPayload.command_issued c) v d e = ground arith
  event_payload_back (AgentEventPayload.session_ended o) v d e = ground arith

  pub event_back :
      (e : AgentEvent)
      → IsEvent formats e
      → (d : AgentEventDto) → encode_event formats e ≡ ok d
      → decode_event formats d ≡ ok e
  unfolding encode_event decode_event
  event_back e v d q = ground (
    arith,
    id_back formats back "event ID" e.id v.id,
    id_back formats back "session ID" e.session_id v.session_id,
    counter_back "event sequence" e.sequence v.sequence,
    timestamp_back formats back "event occurred_at" e.occurred_at d.occurred_at,
    event_payload_back e.payload v.payload d.payload,
    embedded_back e v.embedded,
  )
