-- ===== src/Aggregate/Projection/Step.antt =====
-- How one payload moves each part of the aggregate of agentpulse-core/src/aggregate.rs, and the
-- agreement of every aggregate with its log.
use agentpulse_rs.Common.{◌≡◌, ap, ◌∙◌, List, [], ◌∷◌, ok, arith, subst}
use agentpulse_rs.Common.Map.{get, get-insert, get-remove}
use agentpulse_rs.Domain.Value.{Timestamp, checked_next}
use agentpulse_rs.Domain.Session.{Uuid}
use agentpulse_rs.Domain.Event.{
  AgentEvent, AgentEventPayload, ToolActivity, started, finished, tool_activity,
  interaction_requested, interaction_responded, interaction_closed,
}
use agentpulse_rs.Aggregate.State.{
  SessionAggregate, SessionAggregateConfig, ActiveToolCall, from_initial_event_with_config,
}
use agentpulse_rs.Aggregate.Apply.{apply_payload, apply_tool_activity, record_event}
use agentpulse_rs.Aggregate.Log.{Reaches, Builds, starts, grows, Reaches-Builds}
use agentpulse_rs.Aggregate.Projection.{
  opens, calls, runs, plans, progresses, ends, states, connections, revisions, times, Projects,
}

module _ (at : Timestamp) (s : SessionAggregate) where
  apply_payload-opens :
      (k : Uuid) (p : AgentEventPayload)
      → (apply_payload p at s).1 ≡ ok tt
      → get k (apply_payload p at s).0.pending_interactions
        ≡ opens k p (get k s.pending_interactions)
  unfolding apply_payload apply_tool_activity get
  apply_payload-opens k (interaction_requested q) h =
      ground (arith, get-insert q.id k q s.pending_interactions)
  apply_payload-opens k (interaction_responded r) h =
      ground (arith, get-remove r.request_id k s.pending_interactions)
  apply_payload-opens k (interaction_closed c) h =
      ground (arith, get-remove c.request_id k s.pending_interactions)
  apply_payload-opens k (tool_activity (started id name summary)) h = ground arith
  apply_payload-opens k (tool_activity (finished id outcome summary)) h = ground arith
  apply_payload-opens k _ h = ground arith

  apply_tool_activity-runs :
      (k : Uuid) (a : ToolActivity)
      → (apply_tool_activity a at s).1 ≡ ok tt
      → get k (apply_tool_activity a at s).0.active_tool_calls
        ≡ runs k a at (get k s.active_tool_calls)
  unfolding apply_tool_activity
  apply_tool_activity-runs k (started id name summary) h =
      let call : ActiveToolCall = record {
        id = id;
        name = name;
        summary = summary;
        started_at = at;
      } in
      ground (arith, get-insert id k call s.active_tool_calls)
  apply_tool_activity-runs k (finished id outcome summary) h =
      ground (arith, get-remove id k s.active_tool_calls)

  apply_payload-calls :
      (k : Uuid) (p : AgentEventPayload)
      → (apply_payload p at s).1 ≡ ok tt
      → get k (apply_payload p at s).0.active_tool_calls ≡ calls k p at (get k s.active_tool_calls)
  unfolding apply_payload get
  apply_payload-calls k (tool_activity a) h = apply_tool_activity-runs k a h
  apply_payload-calls k _ h = ground arith

  apply_payload-latest :
      (p : AgentEventPayload)
      → (apply_payload p at s).1 ≡ ok tt
      → let u = (apply_payload p at s).0 in
        (u.plan ≡ plans p s.plan)
        × (u.progress ≡ progresses p s.progress)
        × (u.latest_outcome ≡ ends p s.latest_outcome)
  unfolding apply_payload apply_tool_activity
  apply_payload-latest (tool_activity (started id name summary)) h = ground arith
  apply_payload-latest (tool_activity (finished id outcome summary)) h = ground arith
  apply_payload-latest _ h = ground arith

  apply_payload-session :
      (p : AgentEventPayload)
      → (apply_payload p at s).1 ≡ ok tt
      → let u = (apply_payload p at s).0.session in
        (u.state ≡ states p s.session.state)
        × (u.connection_state ≡ connections p s.session.connection_state)
        × (u.revision ≡ revisions p s.session.revision)
        × (u.updated_at ≡ times p at s.session.updated_at)
  unfolding apply_payload apply_tool_activity checked_next
  apply_payload-session (tool_activity (started id name summary)) h = ground arith
  apply_payload-session (tool_activity (finished id outcome summary)) h = ground arith
  apply_payload-session _ h = ground arith

-- `record_event` leaves every answer as it is.
record_event-Projects :
    (log : List AgentEvent) (e : AgentEvent) (u : SessionAggregate)
    → Projects log u
    → Projects log (record_event e u)
unfolding record_event
record_event-Projects log e u p = record {
  pending = λ k. ground (arith, p.pending k);
  active = λ k. ground (arith, p.active k);
  plan = ground arith;
  progress = ground arith;
  outcome = ground arith;
  state = ground arith;
  connection = ground arith;
  revision = ground arith;
  updated_at = ground arith;
}

starts-Projects :
    (c : SessionAggregateConfig) (e : AgentEvent) (s : SessionAggregate)
    → from_initial_event_with_config e c ≡ ok s
    → Projects (e ∷ []) s
unfolding from_initial_event_with_config get
starts-Projects c e s h = record {
  pending = λ k. ground arith;
  active = λ k. ground arith;
  plan = ground arith;
  progress = ground arith;
  outcome = ground arith;
  state = ground arith;
  connection = ground arith;
  revision = ground arith;
  updated_at = ground arith;
}

grows-Projects :
    (log : List AgentEvent) (s u : SessionAggregate) (e : AgentEvent)
    → Projects log s
    → apply_payload e.payload e.occurred_at s ≡ (u, ok tt)
    → Projects (e ∷ log) u
grows-Projects log s u e p h =
    let done : (apply_payload e.payload e.occurred_at s).1 ≡ ok tt = ap (λ r. r.1) h in
    let moved : (apply_payload e.payload e.occurred_at s).0 ≡ u = ap (λ r. r.0) h in
    let latest = apply_payload-latest e.occurred_at s e.payload done in
    let session = apply_payload-session e.occurred_at s e.payload done in
    let before : Projects (e ∷ log) (apply_payload e.payload e.occurred_at s).0 = record {
      pending = λ k.
          apply_payload-opens e.occurred_at s k e.payload done
          ∙ ap (opens k e.payload) (p.pending k);
      active = λ k.
          apply_payload-calls e.occurred_at s k e.payload done
          ∙ ap (calls k e.payload e.occurred_at) (p.active k);
      plan = latest.0 ∙ ap (plans e.payload) p.plan;
      progress = latest.1 ∙ ap (progresses e.payload) p.progress;
      outcome = latest.2 ∙ ap (ends e.payload) p.outcome;
      state = session.0 ∙ ap (states e.payload) p.state;
      connection = session.1 ∙ ap (connections e.payload) p.connection;
      revision = session.2 ∙ ap (revisions e.payload) p.revision;
      updated_at = session.3 ∙ ap (times e.payload e.occurred_at) p.updated_at;
    } in
    subst (λ t. Projects (e ∷ log) t) moved before

Builds-Projects :
    {c : SessionAggregateConfig} {log : List AgentEvent} {s : SessionAggregate}
    → Builds c log s
    → Projects log s
Builds-Projects {c} (starts e s h) = starts-Projects c e s h
Builds-Projects {c} (grows {log = log} {s = s} e u b i q f h) =
    record_event-Projects (e ∷ log) e u (grows-Projects log s u e (Builds-Projects b) h)

-- Every aggregate that the operations produce agrees with its log: the pending interactions, the
-- running tool calls, the latest plan, progress and outcome, and the session's state, connection,
-- revision and time are those of the newest events that bear on them.
pub Reaches-Projects :
    {c : SessionAggregateConfig} {log : List AgentEvent} {s : SessionAggregate}
    → Reaches c log s
    → Projects log s
Reaches-Projects r = Builds-Projects (Reaches-Builds r)
