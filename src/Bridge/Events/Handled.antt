-- ===== src/Bridge/Events/Handled.antt =====
-- What `handle_provider_event` of agentpulse-bridge/src/bridge.rs promises, on every path.
use agentpulse_rs.Common.{
  ◌≡◌, refl, ◌∙◌, subst, false, List, [], Option, none, some, Result, ok, err, arith, Option-cases,
  Result-cases, inl, inr,
}
use agentpulse_rs.Common.Map.{Map, get, insert, IsSorted}
use agentpulse_rs.Common.Map.Laws.{insert_same}
use agentpulse_rs.Domain.Session.{Uuid, AgentSession}
use agentpulse_rs.Domain.Capability.{Flags}
use agentpulse_rs.Domain.Event.{AgentEvent}
use agentpulse_rs.Aggregate.State.{
  ReduceError, SessionAggregate, ApplyOutcome, from_initial_event_with_config,
}
use agentpulse_rs.Aggregate.Apply.{apply}
use agentpulse_rs.Aggregate.Atomic.{apply_lem, apply_atomic}
use agentpulse_rs.Bridge.State.{Ports, RegisteredChannel, Bridge, session_subscribers}
use agentpulse_rs.Bridge.Events.{
  Route, ProviderEventOutcome, ProviderEventError, ProviderEventReport, ChannelDeliveryResult,
  plan_routes, reduce_event, fan_out, report, commit, reduce, view_for, handle_provider_event,
  deliver_all,
}
use agentpulse_rs.Bridge.Events.Advance.{Advances, Owns, plan_routes-Owns}
use agentpulse_rs.Bridge.Events.Planned.{is_handoff_failure, plan_routes-err, plan_routes-ids}
use agentpulse_rs.Bridge.Events.Attempts.{Attempts, Shows, deliver_all-Attempts, view_for-Shows}
use agentpulse_rs.Bridge.Events.Deliveries.{
  route_ids, delivery_ids, SameRegistrations, AreRegistered, deliver_all-ids,
  deliver_all-SameRegistrations,
}

-- Why an event is refused: its routes cannot be planned, or its session cannot be advanced by it or
-- begun with it.
pub data Refusal (flags : Flags) (provider_id : Uuid) (b : Bridge) (e : AgentEvent)
    (x : ProviderEventError) : Type 0 where
  unplanned : plan_routes flags provider_id e b ≡ err x → Refusal flags provider_id b e x
  not_advanced :
      (current : SessionAggregate) (y : ReduceError)
      → get e.session_id b.sessions ≡ some current
      → (apply e current).1 ≡ err y
      → x ≡ reduce y
      → Refusal flags provider_id b e x
  not_begun :
      (y : ReduceError)
      → get e.session_id b.sessions ≡ none
      → from_initial_event_with_config e b.session_config ≡ err y
      → x ≡ reduce y
      → Refusal flags provider_id b e x

-- The three ways in which an event can be handled.
pub data Handled (flags : Flags) (ports : Ports) (provider_id : Uuid) (b : Bridge) (e : AgentEvent)
    (p : Bridge × Result ProviderEventError ProviderEventReport) : Type 0 where
  -- A refused event changes nothing.
  refused :
      (x : ProviderEventError)
      → Refusal flags provider_id b e x
      → is_handoff_failure x ≡ false
      → p ≡ (b, err x)
      → Handled flags ports provider_id b e p
  -- A retry changes nothing and is delivered to nobody.
  repeated :
      (routes : List Route) (current : SessionAggregate)
      → plan_routes flags provider_id e b ≡ ok routes
      → get e.session_id b.sessions ≡ some current
      → (apply e current).1 ≡ ok ApplyOutcome.already_applied
      → p ≡ (b, ok (record { outcome = ProviderEventOutcome.already_applied; deliveries = [] }))
      → Handled flags ports provider_id b e p
  -- An accepted event advances the session. The planned routes, one for each subscriber in order,
  -- are attempted one after the other.
  accepted :
      (routes : List Route) (next : SessionAggregate) (channels : Map RegisteredChannel)
      (ds : List ChannelDeliveryResult)
      → plan_routes flags provider_id e b ≡ ok routes
      → route_ids routes ≡ session_subscribers b e.session_id
      → Advances b e next
      → Owns b provider_id next.session
      → Attempts ports e next.session routes b.channels channels ds
      → delivery_ids ds ≡ session_subscribers b e.session_id
      → SameRegistrations channels b.channels
      → p ≡ (
        record b { sessions = insert e.session_id next b.sessions; channels = channels },
        report ds,
      )
      → Handled flags ports provider_id b e p

module _ (flags : Flags) (provider_id : Uuid) (ports : Ports) (e : AgentEvent) (b : Bridge)
    (routes : List Route) where
  module _ (planned : plan_routes flags provider_id e b ≡ ok routes)
      (subscribers : route_ids routes ≡ session_subscribers b e.session_id)
      (registered : AreRegistered b.channels routes)
      (owns : (next : SessionAggregate) → Advances b e next → Owns b provider_id next.session) where
    fan_out-accepted :
        (next : SessionAggregate) (view : Option AgentSession)
        → Shows next.session view routes
        → Advances b e next
        → Handled flags ports provider_id b e (
            fan_out ports e routes view
              (record b { sessions = insert e.session_id next b.sessions }))
    unfolding fan_out
    fan_out-accepted next view shown a =
        let (ds, p, q) = deliver_all-ids ports e view routes b.channels registered in
        let attempts =
          deliver_all-Attempts ports e next.session view routes b.channels registered shown ds p in
        accepted routes next (deliver_all ports e view routes b.channels).0 ds planned subscribers a
          (owns next a) attempts (q ∙ subscribers)
          (deliver_all-SameRegistrations ports e view routes b.channels) (ground arith)

    commit_existing_ok :
        (current : SessionAggregate)
        → IsSorted b.sessions
        → get e.session_id b.sessions ≡ some current
        → (outcome : ApplyOutcome) → (apply e current).1 ≡ ok outcome
        → Handled flags ports provider_id b e (commit ports e routes b)
    unfolding commit reduce_event
    commit_existing_ok current s found ApplyOutcome.applied done =
        let next = (apply e current).0 in
        let step : apply e current ≡ (next, ok ApplyOutcome.applied) = ground arith in
        subst (Handled flags ports provider_id b e) (ground arith) (
          fan_out-accepted next (view_for routes next) (view_for-Shows routes next)
            (inl (current, found, step)))
    commit_existing_ok current s found ApplyOutcome.already_applied done =
        repeated routes current planned found done (
          ground (
            arith,
            (apply_lem e current (apply e current).0).1,
            insert_same e.session_id current b.sessions s found,
          ))

    commit_existing :
        (current : SessionAggregate)
        → IsSorted b.sessions
        → get e.session_id b.sessions ≡ some current
        → Handled flags ports provider_id b e (commit ports e routes b)
    unfolding commit reduce_event
    commit_existing current s found = elim (Result-cases (apply e current).1) [
      | inr (x, failed) ↦ refused (reduce x) (not_advanced current x found failed refl) refl (
          ground (
            arith,
            apply_atomic e current x failed,
            insert_same e.session_id current b.sessions s found,
          ))
      | inl (outcome, done) ↦ commit_existing_ok current s found outcome done
    ]

    commit_new :
        get e.session_id b.sessions ≡ none
        → Handled flags ports provider_id b e (commit ports e routes b)
    unfolding commit reduce_event
    commit_new absent = elim (Result-cases (from_initial_event_with_config e b.session_config)) [
      | inr (x, failed) ↦ refused (reduce x) (not_begun x absent failed refl) refl (ground arith)
      | inl (next, made) ↦ subst (Handled flags ports provider_id b e) (ground arith) (
          fan_out-accepted next (view_for routes next) (view_for-Shows routes next)
            (inr (absent, made)))
    ]

-- Every event is handled in one of three ways. If its routes cannot be planned, or if its session
-- cannot be advanced by it or begun with it, it is refused with this error, which is not that of a
-- failed delivery, and the whole Bridge stays as it was. A retry of the last event leaves it as it was
-- too, and calls no Channel.
-- An accepted event is of a session that belongs to its Provider. It moves this session as `apply`
-- or the creation says, changes no other session, no Provider, no registration and no
-- subscription. Each subscriber of the session is then called with the event, with the route
-- planned for it, in the order of their identifiers and whatever the Channels before answer; it is
-- called with the new session right after, if its route says so and it took the event. The result is
-- the report of what each answered last, and the Channels are changed by these calls alone.
-- The sessions of the Bridge are taken to be in key order.
pub handle_provider_event-Handled :
    (flags : Flags) (ports : Ports) (provider_id : Uuid) (e : AgentEvent) (b : Bridge)
    → IsSorted b.sessions
    → Handled flags ports provider_id b e (handle_provider_event flags ports provider_id e b)
unfolding handle_provider_event
handle_provider_event-Handled flags ports provider_id e b s =
    elim (Result-cases (plan_routes flags provider_id e b)) [
      | inr (x, failed) ↦
          refused x (unplanned failed) (plan_routes-err flags provider_id e b x failed)
            (ground arith)
      | inl (routes, planned) ↦
          let (subscribers, registered) = plan_routes-ids flags provider_id e b routes planned in
          let owns = λ (next : SessionAggregate).
            plan_routes-Owns flags provider_id e b routes next planned in
          let done : Handled flags ports provider_id b e (commit ports e routes b) =
            elim (Option-cases (get e.session_id b.sessions)) [
              | inl absent ↦
                  commit_new flags provider_id ports e b routes planned subscribers registered owns
                    absent
              | inr (current, found) ↦
                  commit_existing flags provider_id ports e b routes planned subscribers registered
                    owns current s found
            ] in
          subst (Handled flags ports provider_id b e) (ground arith) done
    ]
