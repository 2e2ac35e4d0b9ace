-- ===== src/Bridge/Events/FanOut.antt =====
-- The fan-out of `handle_provider_event` in agentpulse-bridge/src/bridge.rs, Channel by Channel.
use agentpulse_rs.Common.{
  ◌≡◌, refl, Bool, true, false, List, Option, none, some, Result, ok, err, arith, inl, inr, ◌⊎◌,
  Option-cases, Result-cases, Bool-cases,
}
use agentpulse_rs.Common.Map.{Map, get, contains_key, keys, IsSorted, get-Each}
use agentpulse_rs.Domain.Session.{Uuid, AgentSession}
use agentpulse_rs.Domain.Capability.{Flags}
use agentpulse_rs.Domain.Event.{AgentEvent}
use agentpulse_rs.Routing.{ChannelEventRoute, channel_event_route}
use agentpulse_rs.Aggregate.State.{from_initial_event_with_config}
use agentpulse_rs.Aggregate.Apply.{apply}
use agentpulse_rs.Bridge.State.{
  Ports, Bridge, RegisteredChannel, RegisteredProvider, IdSet, set_or_empty, subscriber_set,
  session_subscribers, is_subscribed,
}
use agentpulse_rs.Bridge.Events.{
  Route, ProviderEventOutcome, ProviderEventError, ProviderEventReport, channel_handoffs,
  routing_session, compute_routes, plan_routes, reduce_event, fan_out, commit, deliver_all,
  handle_provider_event, view_for,
}
use agentpulse_rs.Bridge.Events.Deliveries.{compute_routes-ids}
use agentpulse_rs.Bridge.Events.Received.{
  Gets, IsSorted-KeysRise, deliver_all-skips, deliver_all-Gets, compute_routes-route_of,
}
use agentpulse_rs.Bridge.Events.Planned.{plan_routes-err}
use agentpulse_rs.Bridge.Consistent.{Subscribes, IsConsistent}

-- Whether the event was applied, with or without failed deliveries.
abbrev pub is_applied : Result ProviderEventError ProviderEventReport → Bool
is_applied (ok r) = applies r.outcome
  where
    applies : ProviderEventOutcome → Bool
    applies ProviderEventOutcome.applied = true
    applies ProviderEventOutcome.already_applied = false
is_applied (err (channel_handoffs r)) = true
is_applied (err _) = false

-- A subscriber is called with the event and the route that the policy decides for it.
pub record IsCalled (flags : Flags) (b : Bridge) (provider_id : Uuid) (e : AgentEvent) (id : Uuid)
    (channels : Map RegisteredChannel) : Type 0 where
  pub provider : RegisteredProvider
  pub session : AgentSession
  pub before : RegisteredChannel
  pub after : RegisteredChannel
  pub route : ChannelEventRoute
  pub publisher : get provider_id b.providers ≡ some provider
  pub routed_by : routing_session (get e.session_id b.sessions) e ≡ ok session
  pub registered : get id b.channels ≡ some before
  pub decided : channel_event_route flags provider.descriptor before.descriptor session e ≡ ok route
  pub kept : get id channels ≡ some after
  pub got : Gets e route before after

module _ (ports : Ports) (e : AgentEvent) (b : Bridge) (routes : List Route) where
  commit-deliver_all :
      is_applied (commit ports e routes b).1 ≡ true
      → (view : Option AgentSession) × ((commit ports e routes b).0.channels
          ≡ (deliver_all ports e view routes b.channels).0)
  unfolding commit reduce_event fan_out
  commit-deliver_all h = elim (Option-cases (get e.session_id b.sessions)) [
    | inl absent ↦ elim (Result-cases (from_initial_event_with_config e b.session_config)) [
      | inr (x, failed) ↦ ground arith
      | inl (next, made) ↦ (view_for routes next, ground arith)
    ]
    | inr (current, found) ↦ elim (Result-cases (apply e current).1) [
      | inr (x, failed) ↦ ground arith
      | inl (outcome, done) ↦ (view_for routes (apply e current).0, ground arith)
    ]
  ]

subscribers-IsSorted :
    (b : Bridge) (c : IsConsistent b) (session_id : Uuid) (o : Option IdSet)
    → get session_id b.subscriptions ≡ o
    → IsSorted (set_or_empty o)
subscribers-IsSorted b c session_id none q = tt
subscribers-IsSorted b c session_id (some set) q =
    (get-Each (Subscribes b.sessions b.channels) session_id b.subscriptions set c.subscriptions_held
      q).ordered

plan_routes-parts :
    (flags : Flags) (provider_id : Uuid) (e : AgentEvent) (b : Bridge) (routes : List Route)
    → plan_routes flags provider_id e b ≡ ok routes
    → (provider : RegisteredProvider) × (s : AgentSession) × (get provider_id b.providers
        ≡ some provider)
      × (routing_session (get e.session_id b.sessions) e ≡ ok s)
      × (compute_routes flags provider.descriptor s e b.channels
            (keys (subscriber_set b e.session_id))
          ≡ ok routes)
unfolding plan_routes session_subscribers
plan_routes-parts flags provider_id e b routes h =
    elim (Option-cases (get provider_id b.providers)) [
      | inl absent ↦ ground arith
      | inr (provider, found) ↦
          elim (Result-cases (routing_session (get e.session_id b.sessions) e)) [
            | inr (y, failed) ↦ ground arith
            | inl (s, here) ↦ (provider, s, found, here, ground arith)
          ]
    ]

plan_routes_not_applied :
    (flags : Flags) (provider_id : Uuid) (e : AgentEvent) (b : Bridge) (x : ProviderEventError)
    → plan_routes flags provider_id e b ≡ err x
    → is_applied (err x) ≡ true
    → ⊥
plan_routes_not_applied flags provider_id e b x failed h =
    let refused = plan_routes-err flags provider_id e b x failed in ground arith

-- The deliveries over planned routes, for one Channel.
planned_IsCalled :
    (flags : Flags) (ports : Ports) (provider_id : Uuid) (e : AgentEvent) (b : Bridge) (id : Uuid)
    → IsConsistent b
    → (routes : List Route) (view : Option AgentSession)
    → plan_routes flags provider_id e b ≡ ok routes
    → let channels = (deliver_all ports e view routes b.channels).0 in
      ((is_subscribed b id e.session_id ≡ true) × IsCalled flags b provider_id e id channels)
      ⊎ ((is_subscribed b id e.session_id ≡ false) × (get id channels ≡ get id b.channels))
unfolding is_subscribed
planned_IsCalled flags ports provider_id e b id c routes view planned =
    let (provider, s, publisher, routed_by, computed) =
      plan_routes-parts flags provider_id e b routes planned in
    let set = subscriber_set b e.session_id in
    let sorted = subscribers-IsSorted b c e.session_id (get e.session_id b.subscriptions) refl in
    let registered =
      (compute_routes-ids flags provider.descriptor s e b.channels (keys set) routes computed).1 in
    let (rise, out, inside) =
      compute_routes-route_of flags provider.descriptor s e b.channels 0 id set routes
        (IsSorted-KeysRise set sorted) computed in
    elim (Bool-cases (contains_key id set)) [
      | inr absent ↦ inr (absent, deliver_all-skips ports e view id routes b.channels (out absent))
      | inl present ↦
          let (before, route, known, named, decided) = inside present in
          let (after, kept, got) =
            deliver_all-Gets ports e view id 0 routes b.channels before route rise registered named
              known in
          inl (
            present,
            record {
              provider = provider;
              session = s;
              before = before;
              after = after;
              route = route;
              publisher = publisher;
              routed_by = routed_by;
              registered = known;
              decided = decided;
              kept = kept;
              got = got;
            },
          )
    ]

-- When an event is applied to a consistent Bridge, every subscriber of its session is called with
-- the event, once, with the route that the policy decides for this Channel, before the view of the
-- session if that follows; and no other Channel is called at all.
pub handle_provider_event-IsCalled :
    (flags : Flags) (ports : Ports) (provider_id : Uuid) (e : AgentEvent) (b : Bridge) (id : Uuid)
    → IsConsistent b
    → is_applied (handle_provider_event flags ports provider_id e b).1 ≡ true
    → let channels = (handle_provider_event flags ports provider_id e b).0.channels in
      ((is_subscribed b id e.session_id ≡ true) × IsCalled flags b provider_id e id channels)
      ⊎ ((is_subscribed b id e.session_id ≡ false) × (get id channels ≡ get id b.channels))
unfolding handle_provider_event
handle_provider_event-IsCalled flags ports provider_id e b id c h =
    elim (Result-cases (plan_routes flags provider_id e b)) [
      | inr (x, failed) ↦
          absurd (plan_routes_not_applied flags provider_id e b x failed (ground arith))
      | inl (routes, planned) ↦
          let applied : is_applied (commit ports e routes b).1 ≡ true = ground arith in
          let (view, final) = commit-deliver_all ports e b routes applied in
          let all = planned_IsCalled flags ports provider_id e b id c routes view planned in
          rw (planned, handle_provider_event) (rw final all)
    ]
