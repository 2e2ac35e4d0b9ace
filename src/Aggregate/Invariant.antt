-- ===== src/Aggregate/Invariant.antt =====
-- The well-formedness of the aggregates of agentpulse-core/src/aggregate.rs: the maps are ordered
-- and keyed by the identifiers of what they hold, and what they hold belongs to the session.
use agentpulse_rs.Common.{ℕ, ◌≡◌, refl, ap, ◌∙◌, sym, List, ok, arith, subst, All}
use agentpulse_rs.Common.Map.{
  IsSorted, Each, insert-IsSorted, remove-IsSorted, insert-Each, remove-Each,
}
use agentpulse_rs.Domain.Value.{Timestamp}
use agentpulse_rs.Domain.Session.{Uuid, AgentSession}
use agentpulse_rs.Domain.Interaction.{InteractionRequest}
use agentpulse_rs.Domain.Event.{
  AgentEvent, AgentEventPayload, ToolActivity, started, finished, session_started, tool_activity,
  interaction_requested, interaction_responded, interaction_closed, new_event, embedded_session_id,
}
use agentpulse_rs.Aggregate.State.{
  SessionAggregate, SessionAggregateConfig, ActiveToolCall, from_initial_event_with_config,
}
use agentpulse_rs.Aggregate.Apply.{apply_payload, apply_tool_activity, record_event}
use agentpulse_rs.Aggregate.Frame.{apply_payload_frame}
use agentpulse_rs.Aggregate.Log.{Reaches, Builds, starts, grows, Reaches-Builds}

-- An event that `AgentEvent::new` lets through.
abbrev pub IsWellFormed : AgentEvent → Type 0
IsWellFormed e = new_event e ≡ ok e

abbrev Calls : ℕ → ActiveToolCall → Type 0
Calls k c = c.id ≡ k

abbrev Requests : Uuid → ℕ → InteractionRequest → Type 0
Requests session_id k q = (q.id ≡ k) × (q.session_id ≡ session_id)

pub record IsValid (s : SessionAggregate) : Type 0 where
  pub calls_sorted : IsSorted s.active_tool_calls
  pub calls_keyed : Each Calls s.active_tool_calls
  pub pending_sorted : IsSorted s.pending_interactions
  pub pending_keyed : Each (Requests s.session.id) s.pending_interactions
  pub same_session : s.last_event.session_id ≡ s.session.id

-- The parts of the invariant that a payload can touch.
abbrev Holds : SessionAggregate → Type 0
Holds s =
    IsSorted s.active_tool_calls
    × Each Calls s.active_tool_calls
    × IsSorted s.pending_interactions
    × Each (Requests s.session.id) s.pending_interactions

module _ (at : Timestamp) (s : SessionAggregate) (v : IsValid s) where
  apply_tool_activity-Holds : (a : ToolActivity) → Holds (apply_tool_activity a at s).0
  unfolding apply_tool_activity
  apply_tool_activity-Holds (started id name summary) =
      let call : ActiveToolCall = record {
        id = id;
        name = name;
        summary = summary;
        started_at = at;
      } in
      ground (
        arith,
        insert-IsSorted id call s.active_tool_calls,
        insert-Each Calls id call s.active_tool_calls,
      )
  apply_tool_activity-Holds (finished id outcome summary) =
      ground
        (arith, remove-IsSorted id s.active_tool_calls, remove-Each Calls id s.active_tool_calls)

  apply_payload-Holds :
      (p : AgentEventPayload)
      → ((q : InteractionRequest) → p ≡ interaction_requested q → q.session_id ≡ s.session.id)
      → Holds (apply_payload p at s).0
  unfolding apply_payload
  apply_payload-Holds (interaction_requested q) h = ground (
    arith,
    h q refl,
    insert-IsSorted q.id q s.pending_interactions,
    insert-Each (Requests s.session.id) q.id q s.pending_interactions,
  )
  apply_payload-Holds (interaction_responded r) h = ground (
    arith,
    remove-IsSorted r.request_id s.pending_interactions,
    remove-Each (Requests s.session.id) r.request_id s.pending_interactions,
  )
  apply_payload-Holds (interaction_closed c) h = ground (
    arith,
    remove-IsSorted c.request_id s.pending_interactions,
    remove-Each (Requests s.session.id) c.request_id s.pending_interactions,
  )
  apply_payload-Holds (tool_activity a) h = apply_tool_activity-Holds a
  apply_payload-Holds _ h = ground arith

requested_here :
    (e : AgentEvent) (q : InteractionRequest)
    → IsWellFormed e
    → e.payload ≡ interaction_requested q
    → q.session_id ≡ e.session_id
unfolding new_event embedded_session_id
requested_here e q w h = ground arith

started_here :
    (e : AgentEvent) (session : AgentSession)
    → IsWellFormed e
    → e.payload ≡ session_started session
    → session.id ≡ e.session_id
unfolding new_event embedded_session_id
started_here e session w h = ground arith

starts-IsValid :
    (c : SessionAggregateConfig) (e : AgentEvent) (s : SessionAggregate)
    → IsWellFormed e
    → from_initial_event_with_config e c ≡ ok s
    → IsValid s
unfolding from_initial_event_with_config
starts-IsValid c e s w h = ground (arith, started_here e s.session)

record_event-IsValid :
    (e : AgentEvent) (u : SessionAggregate)
    → Holds u
    → e.session_id ≡ u.session.id
    → IsValid (record_event e u)
unfolding record_event
record_event-IsValid e u h i = ground arith

grows-IsValid :
    (s u : SessionAggregate) (e : AgentEvent)
    → IsWellFormed e
    → IsValid s
    → e.session_id ≡ s.session.id
    → apply_payload e.payload e.occurred_at s ≡ (u, ok tt)
    → IsValid (record_event e u)
grows-IsValid s u e w v i h =
    let moved : (apply_payload e.payload e.occurred_at s).0 ≡ u = ap (λ r. r.0) h in
    let held = apply_payload-Holds e.occurred_at s v e.payload λ q p. requested_here e q w p ∙ i in
    let frame = apply_payload_frame e.payload e.occurred_at s in
    let identity : e.session_id ≡ u.session.id =
      i ∙ sym frame.3 ∙ ap (λ (t : SessionAggregate). t.session.id) moved in
    record_event-IsValid e u (subst Holds moved held) identity

Builds-IsValid :
    {c : SessionAggregateConfig} {log : List AgentEvent} {s : SessionAggregate}
    → Builds c log s
    → All IsWellFormed log
    → IsValid s
Builds-IsValid {c} (starts e s h) w = starts-IsValid c e s w.0 h
Builds-IsValid {c} (grows {s = s} e u b i q f h) w =
    grows-IsValid s u e w.0 (Builds-IsValid b w.1) i h

-- An aggregate whose events all come from `AgentEvent::new` is well formed: its two maps are in key
-- order, each entry stands under its own identifier, and each pending request is of the session.
pub Reaches-IsValid :
    {c : SessionAggregateConfig} {log : List AgentEvent} {s : SessionAggregate}
    → Reaches c log s
    → All IsWellFormed log
    → IsValid s
Reaches-IsValid r = Builds-IsValid (Reaches-Builds r)
