-- ===== src/Bridge/Events/Planned.antt =====
-- The routes that `handle_provider_event` of agentpulse-bridge/src/bridge.rs decides before it changes
-- anything.
use agentpulse_rs.Common.{
  ◌≡◌, Bool, true, false, List, [], ◌∷◌, Option, ok, err, arith, Option-cases, Result-cases, inl,
  inr,
}
use agentpulse_rs.Common.Map.{get}
use agentpulse_rs.Domain.Session.{Uuid, AgentSession}
use agentpulse_rs.Domain.Capability.{Flags}
use agentpulse_rs.Domain.Endpoint.{ProviderDescriptor}
use agentpulse_rs.Domain.Event.{AgentEvent}
use agentpulse_rs.Aggregate.State.{SessionAggregate}
use agentpulse_rs.Bridge.State.{Bridge, session_subscribers}
use agentpulse_rs.Bridge.Events.{
  Route, ProviderEventError, channel_handoffs, routing_session, compute_routes, plan_routes,
}
use agentpulse_rs.Bridge.Events.Deliveries.{route_ids, AreRegistered, compute_routes-ids}

abbrev pub is_handoff_failure : ProviderEventError → Bool
is_handoff_failure (channel_handoffs r) = true
is_handoff_failure _ = false

module _ (flags : Flags) (provider_id : Uuid) (e : AgentEvent) (b : Bridge) where
  compute_routes-err :
      (provider : ProviderDescriptor) (s : AgentSession) (ids : List Uuid) (x : ProviderEventError)
      → compute_routes flags provider s e b.channels ids ≡ err x
      → is_handoff_failure x ≡ false
  unfolding compute_routes
  compute_routes-err provider s [] x h = ground arith
  compute_routes-err provider s (id ∷ ids) x h = ground (arith, compute_routes-err provider s ids x)

  routing_session-err :
      (o : Option SessionAggregate) (x : ProviderEventError)
      → routing_session o e ≡ err x
      → is_handoff_failure x ≡ false
  unfolding routing_session
  routing_session-err o x h = ground arith

  -- A plan that is refused is so before any delivery.
  pub plan_routes-err :
      (x : ProviderEventError)
      → plan_routes flags provider_id e b ≡ err x
      → is_handoff_failure x ≡ false
  unfolding plan_routes
  plan_routes-err x h = elim (Option-cases (get provider_id b.providers)) [
    | inl absent ↦ ground arith
    | inr (provider, found) ↦
        elim (Result-cases (routing_session (get e.session_id b.sessions) e)) [
          | inl (s, here) ↦ ground (
            arith,
            compute_routes-err provider.descriptor s (session_subscribers b e.session_id) x,
          )
          | inr (y, failed) ↦ ground (arith, routing_session-err (get e.session_id b.sessions) y)
        ]
  ]

  -- The planned routes are those of the subscribers, in order, all of them registered.
  pub plan_routes-ids :
      (routes : List Route)
      → plan_routes flags provider_id e b ≡ ok routes
      → (route_ids routes ≡ session_subscribers b e.session_id) × AreRegistered b.channels routes
  unfolding plan_routes
  plan_routes-ids routes h = elim (Option-cases (get provider_id b.providers)) [
    | inl absent ↦ ground arith
    | inr (provider, found) ↦
        elim (Result-cases (routing_session (get e.session_id b.sessions) e)) [
          | inl (s, here) ↦ ground (
            arith,
            compute_routes-ids flags provider.descriptor s e b.channels
                (session_subscribers b e.session_id) routes,
          )
          | inr (y, failed) ↦ ground arith
        ]
  ]
