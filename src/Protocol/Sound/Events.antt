-- ===== src/Protocol/Sound/Events.antt =====
-- Decoded events and messages are ones that the constructors allow.
use agentpulse_rs.Common.{ℕ, ◌≡◌, sym, subst, Option, none, some, ok, arith, IfSome, bind-ok}
use agentpulse_rs.Domain.Identifiers.{Formats}
use agentpulse_rs.Domain.Event.{
  AgentEventPayload, AgentEvent, new_event, embedded_session_id, check_embedded,
}
use agentpulse_rs.Domain.Constructed.{IsEventPayload, IsEvent}
use agentpulse_rs.Protocol.Dto.{AgentEventPayloadDto, AgentEventDto}
use agentpulse_rs.Protocol.Convert.Scalars.{parse_id, decode_counter, decode_timestamp}
use agentpulse_rs.Protocol.Convert.Names.{decode_agent_state, decode_connection_state}
use agentpulse_rs.Protocol.Convert.Sessions.{
  decode_session, decode_message, decode_tool_activity, decode_plan, decode_progress,
  decode_session_outcome,
}
use agentpulse_rs.Protocol.Convert.Requests.{decode_interaction_request}
use agentpulse_rs.Protocol.Convert.Responses.{
  decode_interaction_response, decode_interaction_closed,
}
use agentpulse_rs.Protocol.Convert.Commands.{decode_command}
use agentpulse_rs.Protocol.Convert.{decode_event_payload, decode_event}
use agentpulse_rs.Protocol.Sound.Scalars.{id-IsV7, counter_positive}
use agentpulse_rs.Protocol.Sound.Sessions.{
  decode_session-IsSession, decode_message-IsMessage, decode_tool_activity-IsTool,
  decode_plan-IsPlan, decode_progress-IsProgress, decode_session_outcome-IsOutcome,
}
use agentpulse_rs.Protocol.Sound.Requests.{decode_interaction_request-IsRequest}
use agentpulse_rs.Protocol.Sound.Responses.{
  decode_interaction_response-IsResponse, decode_interaction_closed-IsClosed,
}
use agentpulse_rs.Protocol.Sound.Commands.{decode_command-IsCommand}

new_event-embedded :
    (e x : AgentEvent)
    → new_event e ≡ ok x
    → (x ≡ e) × IfSome (λ k. k ≡ e.session_id) (embedded_session_id e.payload)
unfolding new_event
new_event-embedded e x q = by_embedded (embedded_session_id e.payload) q
  where
    by_embedded :
        (o : Option ℕ) → check_embedded o e ≡ ok x → (x ≡ e) × IfSome (λ k. k ≡ e.session_id) o
    by_embedded none q = (ground arith, tt)
    by_embedded (some k) q = (ground arith, ground arith)

module _ (formats : Formats) where
  decode_event_payload-IsEventPayload :
      (d : AgentEventPayloadDto) (p : AgentEventPayload)
      → decode_event_payload formats d ≡ ok p
      → IsEventPayload formats p
  unfolding decode_event_payload
  decode_event_payload-IsEventPayload (AgentEventPayloadDto.session_started d) p e =
      let (x, xq, e1) = bind-ok (decode_session formats d) _ p e in
      let whole : AgentEventPayload.session_started x ≡ p = ground arith in
      subst (IsEventPayload formats) whole (decode_session-IsSession formats d x xq)
  decode_event_payload-IsEventPayload (AgentEventPayloadDto.message d) p e =
      let (x, xq, e1) = bind-ok (decode_message d) _ p e in
      let whole : AgentEventPayload.message x ≡ p = ground arith in
      subst (IsEventPayload formats) whole (decode_message-IsMessage d x xq)
  decode_event_payload-IsEventPayload (AgentEventPayloadDto.tool_activity d) p e =
      let (x, xq, e1) = bind-ok (decode_tool_activity formats d) _ p e in
      let whole : AgentEventPayload.tool_activity x ≡ p = ground arith in
      subst (IsEventPayload formats) whole (decode_tool_activity-IsTool formats d x xq)
  decode_event_payload-IsEventPayload (AgentEventPayloadDto.plan_updated d) p e =
      let (x, xq, e1) = bind-ok (decode_plan formats d) _ p e in
      let whole : AgentEventPayload.plan_updated x ≡ p = ground arith in
      subst (IsEventPayload formats) whole (decode_plan-IsPlan formats d x xq)
  decode_event_payload-IsEventPayload (AgentEventPayloadDto.progress_updated d) p e =
      let (x, xq, e1) = bind-ok (decode_progress d) _ p e in
      let whole : AgentEventPayload.progress_updated x ≡ p = ground arith in
      subst (IsEventPayload formats) whole (decode_progress-IsProgress d x xq)
  decode_event_payload-IsEventPayload (AgentEventPayloadDto.interaction_requested d) p e =
      let (x, xq, e1) = bind-ok (decode_interaction_request formats d) _ p e in
      let whole : AgentEventPayload.interaction_requested x ≡ p = ground arith in
      subst (IsEventPayload formats) whole (decode_interaction_request-IsRequest formats d x xq)
  decode_event_payload-IsEventPayload (AgentEventPayloadDto.interaction_responded d) p e =
      let (x, xq, e1) = bind-ok (decode_interaction_response formats d) _ p e in
      let whole : AgentEventPayload.interaction_responded x ≡ p = ground arith in
      subst (IsEventPayload formats) whole (decode_interaction_response-IsResponse formats d x xq)
  decode_event_payload-IsEventPayload (AgentEventPayloadDto.interaction_closed d) p e =
      let (x, xq, e1) = bind-ok (decode_interaction_closed formats d) _ p e in
      let whole : AgentEventPayload.interaction_closed x ≡ p = ground arith in
      subst (IsEventPayload formats) whole (decode_interaction_closed-IsClosed formats d x xq)
  decode_event_payload-IsEventPayload (AgentEventPayloadDto.command_issued d) p e =
      let (x, xq, e1) = bind-ok (decode_command formats d) _ p e in
      let whole : AgentEventPayload.command_issued x ≡ p = ground arith in
      subst (IsEventPayload formats) whole (decode_command-IsCommand formats d x xq)
  decode_event_payload-IsEventPayload (AgentEventPayloadDto.session_ended d) p e =
      let (x, xq, e1) = bind-ok (decode_session_outcome d) _ p e in
      let whole : AgentEventPayload.session_ended x ≡ p = ground arith in
      subst (IsEventPayload formats) whole (decode_session_outcome-IsOutcome d x xq)
  decode_event_payload-IsEventPayload (AgentEventPayloadDto.state_changed d) p e =
      let whole : AgentEventPayload.state_changed (decode_agent_state d) ≡ p = ground arith in
      subst (IsEventPayload formats) whole tt
  decode_event_payload-IsEventPayload (AgentEventPayloadDto.connection_changed d) p e =
      let whole : AgentEventPayload.connection_changed (decode_connection_state d) ≡ p =
        ground arith in
      subst (IsEventPayload formats) whole tt

  pub decode_event-IsEvent :
      (d : AgentEventDto) (e : AgentEvent) → decode_event formats d ≡ ok e → IsEvent formats e
  unfolding decode_event
  decode_event-IsEvent d e q =
      let (id, idq, q1) = bind-ok (parse_id formats "event ID" d.id) _ e q in
      let (session_id, sq, q2) = bind-ok (parse_id formats "session ID" d.session_id) _ e q1 in
      let (sequence, nq, q3) = bind-ok (decode_counter "event sequence" d.sequence) _ e q2 in
      let (occurred_at, tq, q4) =
        bind-ok (decode_timestamp formats d.occurred_at "event occurred_at") _ e q3 in
      let (payload, pq, q5) = bind-ok (decode_event_payload formats d.payload) _ e q4 in
      let start : AgentEvent = record {
        id = id;
        session_id = session_id;
        sequence = sequence;
        occurred_at = occurred_at;
        payload = payload;
      } in
      let (same, embedded) = new_event-embedded start e (ground arith) in
      subst (IsEvent formats) (sym same) (record {
        id = id-IsV7 formats "event ID" d.id id idq;
        session_id = id-IsV7 formats "session ID" d.session_id session_id sq;
        sequence = counter_positive "event sequence" d.sequence sequence nq;
        embedded = embedded;
        payload = decode_event_payload-IsEventPayload d.payload payload pq;
      })
