-- ===== src/Bridge/Events/Advance.antt =====
-- How an accepted event of agentpulse-bridge/src/bridge.rs advances its session, and whose it is.
use agentpulse_rs.Common.{
  ◌≡◌, sym, ap, ◌∙◌, List, none, some, ok, arith, ◌⊎◌, inl, inr, Option-cases, Result-cases,
}
use agentpulse_rs.Common.Map.{get}
use agentpulse_rs.Domain.Session.{Uuid, AgentSession}
use agentpulse_rs.Domain.Capability.{Flags}
use agentpulse_rs.Domain.Event.{AgentEvent}
use agentpulse_rs.Routing.{validate_provider_event, validate_provider_session}
use agentpulse_rs.Aggregate.State.{SessionAggregate, applied, from_initial_event_with_config}
use agentpulse_rs.Aggregate.Apply.{apply, apply_payload}
use agentpulse_rs.Aggregate.Atomic.{apply_lem}
use agentpulse_rs.Aggregate.Frame.{apply_payload_frame}
use agentpulse_rs.Aggregate.Retention.{record_event_fields}
use agentpulse_rs.Bridge.State.{Bridge, RegisteredProvider}
use agentpulse_rs.Bridge.Events.{Route, routing_session, plan_routes}

-- How an event advances the sessions: `next` is the session's aggregate afterwards.
abbrev pub Advances : Bridge → AgentEvent → SessionAggregate → Type 0
Advances b e next =
    ((current : SessionAggregate) × (get e.session_id b.sessions ≡ some current)
      × (apply e current ≡ (next, ok applied)))
    ⊎ ((get e.session_id b.sessions ≡ none)
        × (from_initial_event_with_config e b.session_config ≡ ok next))

-- The session belongs to the Provider that is registered under `provider_id`.
abbrev pub Owns : Bridge → Uuid → AgentSession → Type 0
Owns b provider_id s =
    (provider : RegisteredProvider) × (get provider_id b.providers ≡ some provider)
    × (s.provider_id ≡ provider.descriptor.id)

-- An applied event does not change which session it is, nor whose.
pub apply-identity :
    (e : AgentEvent) (s t : SessionAggregate)
    → apply e s ≡ (t, ok applied)
    → (t.session.id ≡ s.session.id) × (t.session.provider_id ≡ s.session.provider_id)
apply-identity e s t h =
    let (taken, (u, done, now)) = (apply_lem e s t).0 h in
    let frame = apply_payload_frame e.payload e.occurred_at s in
    let moved : (apply_payload e.payload e.occurred_at s).0 ≡ u = ap (λ r. r.0) done in
    let same : t.session ≡ u.session =
      ap (λ (a : SessionAggregate). a.session) now ∙ (record_event_fields e u).2 in
    (
      ap (λ (a : AgentSession). a.id) same
          ∙ sym (ap (λ (a : SessionAggregate). a.session.id) moved)
          ∙ frame.3,
      ap (λ (a : AgentSession). a.provider_id) same
          ∙ sym (ap (λ (a : SessionAggregate). a.session.provider_id) moved)
          ∙ frame.4,
    )

Advances-provider :
    (b : Bridge) (e : AgentEvent) (next : SessionAggregate) (s : AgentSession)
    → Advances b e next
    → routing_session (get e.session_id b.sessions) e ≡ ok s
    → next.session.provider_id ≡ s.provider_id
unfolding routing_session from_initial_event_with_config
Advances-provider b e next s (inl (current, found, step)) h =
    ground (arith, apply-identity e current next)
Advances-provider b e next s (inr (absent, made)) h = ground arith

plan_routes-session :
    (flags : Flags) (provider_id : Uuid) (e : AgentEvent) (b : Bridge) (routes : List Route)
    → plan_routes flags provider_id e b ≡ ok routes
    → (s : AgentSession) × (routing_session (get e.session_id b.sessions) e ≡ ok s)
      × Owns b provider_id s
unfolding plan_routes validate_provider_event validate_provider_session
plan_routes-session flags provider_id e b routes h =
    elim (Option-cases (get provider_id b.providers)) [
      | inl absent ↦ ground arith
      | inr (provider, found) ↦
          elim (Result-cases (routing_session (get e.session_id b.sessions) e)) [
            | inl (s, here) ↦ (s, here, (provider, found, ground arith))
            | inr (y, failed) ↦ ground arith
          ]
    ]

-- The events of a Provider advance no other Provider's sessions.
pub plan_routes-Owns :
    (flags : Flags) (provider_id : Uuid) (e : AgentEvent) (b : Bridge) (routes : List Route)
    (next : SessionAggregate)
    → plan_routes flags provider_id e b ≡ ok routes
    → Advances b e next
    → Owns b provider_id next.session
plan_routes-Owns flags provider_id e b routes next h a =
    let (s, here, (provider, found, same)) = plan_routes-session flags provider_id e b routes h in
    (provider, found, Advances-provider b e next s a here ∙ same)
