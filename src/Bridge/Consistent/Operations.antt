-- ===== src/Bridge/Consistent/Operations.antt =====
-- That registrations and events of agentpulse-bridge/src/bridge.rs keep the Bridge consistent.
use agentpulse_rs.Common.{◌≡◌, refl, ◌∙◌, [], ◌∷◌, ok, arith, inl, inr, Bool-cases}
use agentpulse_rs.Common.Map.{insert, contains_key, get-Each, insert-Each, insert-IsSorted}
use agentpulse_rs.Domain.Session.{Uuid}
use agentpulse_rs.Domain.Capability.{Flags}
use agentpulse_rs.Domain.Endpoint.{ProviderDescriptor, ChannelDescriptor}
use agentpulse_rs.Domain.Event.{AgentEvent, new_event, embedded_session_id}
use agentpulse_rs.Aggregate.State.{SessionAggregate, from_initial_event_with_config}
use agentpulse_rs.Aggregate.Log.{begin, extend}
use agentpulse_rs.Aggregate.Invariant.{IsWellFormed}
use agentpulse_rs.Bridge.State.{
  Ports, Bridge, RegisteredChannel, RegisteredProvider, register_provider, register_channel,
}
use agentpulse_rs.Bridge.Events.{handle_provider_event}
use agentpulse_rs.Bridge.Events.Advance.{Advances, Owns, apply-identity}
use agentpulse_rs.Bridge.Events.Handled.{
  Handled, refused, repeated, accepted, handle_provider_event-Handled,
}
use agentpulse_rs.Bridge.Events.Deliveries.{Keyed}
use agentpulse_rs.Bridge.Consistent.{ProviderKeyed, Held, Has, IsConsistent, insert-Extends}
use agentpulse_rs.Bridge.Consistent.Registrations.{
  providers-IsConsistent, channels-IsConsistent, same_channels-IsConsistent, sessions-IsConsistent,
}

module _ (b : Bridge) (c : IsConsistent b) where
  pub register_provider-IsConsistent :
      (d : ProviderDescriptor) → IsConsistent (register_provider d b).0
  unfolding register_provider
  register_provider-IsConsistent d = elim (Bool-cases (contains_key d.id b.providers)) [
    | inl known ↦ rw known c
    | inr new ↦
        let p : RegisteredProvider = record { descriptor = d; received = [] } in
        rw new (providers-IsConsistent b c d.id p refl)
  ]

  pub register_channel-IsConsistent :
      (d : ChannelDescriptor) → IsConsistent (register_channel d b).0
  unfolding register_channel
  register_channel-IsConsistent d = elim (Bool-cases (contains_key d.id b.channels)) [
    | inl known ↦ rw known c
    | inr new ↦
        let p : RegisteredChannel = record { descriptor = d; received = [] } in
        rw new (
          channels-IsConsistent b c (insert d.id p b.channels)
            (insert-IsSorted d.id p b.channels c.channels_sorted)
            (insert-Each Keyed d.id p b.channels refl c.channels_keyed)
            (insert-Extends d.id p b.channels))
  ]

  module _ (provider_id : Uuid) (e : AgentEvent) (w : IsWellFormed e) where
    owned_Has :
        (a : SessionAggregate)
        → Owns b provider_id a.session
        → Has b.providers a.session.provider_id
    owned_Has a (p, found, same) =
        let keyed = get-Each ProviderKeyed provider_id b.providers p c.providers_keyed found in
        ground arith

    started_id :
        (next : SessionAggregate)
        → from_initial_event_with_config e b.session_config ≡ ok next
        → next.session.id ≡ e.session_id
    unfolding from_initial_event_with_config new_event embedded_session_id
    started_id next h = ground (arith, w)

    Advances-Held :
        (next : SessionAggregate)
        → Advances b e next
        → Owns b provider_id next.session
        → Held b.providers b.session_config e.session_id next
    Advances-Held next (inl (current, found, step)) o =
        let held =
          get-Each (Held b.providers b.session_config) e.session_id b.sessions current
            c.sessions_held found in
        record {
          keyed = (apply-identity e current next step).0 ∙ held.keyed;
          owned = owned_Has next o;
          events = e ∷ held.events;
          well_formed = (w, held.well_formed);
          reached = extend e next held.reached step;
        }
    Advances-Held next (inr (absent, made)) o = record {
      keyed = started_id next made;
      owned = owned_Has next o;
      events = e ∷ [];
      well_formed = (w, tt);
      reached = begin e next made;
    }

    Handled-IsConsistent :
        {flags : Flags} {ports : Ports} (p : Bridge × _)
        → Handled flags ports provider_id b e p
        → IsConsistent p.0
    Handled-IsConsistent p (refused x why n q) = rw q c
    Handled-IsConsistent p (repeated routes current planned found done q) = rw q c
    Handled-IsConsistent p
          (accepted routes next channels ds planned subscribers a o calls s same q) =
        let advanced = record b { sessions = insert e.session_id next b.sessions } in
        rw q (
          same_channels-IsConsistent advanced
            (sessions-IsConsistent b c e.session_id next (Advances-Held next a o)) channels same)

    pub handle_provider_event-IsConsistent :
        (flags : Flags) (ports : Ports)
        → IsConsistent (handle_provider_event flags ports provider_id e b).0
    handle_provider_event-IsConsistent flags ports =
        Handled-IsConsistent (handle_provider_event flags ports provider_id e b)
          (handle_provider_event-Handled flags ports provider_id e b c.sessions_sorted)
