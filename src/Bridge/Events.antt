-- ===== src/Bridge/Events.antt =====
-- agentpulse-bridge/src/bridge.rs: `handle_provider_event`.
pub mod Advance
pub mod Deliveries
pub mod Planned
pub mod Attempts
pub mod FanOut
pub mod Handled
pub mod Received
use agentpulse_rs.Common.{
  Bool, true, false, ◌&&◌, List, [], ◌∷◌, Option, none, some, Result, ok, err, map_err, any,
  if◌then◌else◌, ok_or, not, ◌>>=◌, ◌>>◌,
}
use agentpulse_rs.Common.Map.{Map, get, insert}
use agentpulse_rs.Domain.Session.{Uuid, AgentSession}
use agentpulse_rs.Domain.Capability.{Flags, session_view}
use agentpulse_rs.Domain.Endpoint.{ProviderDescriptor}
use agentpulse_rs.Domain.Event.{
  AgentEvent, AgentEventPayload, session_started, state_changed, connection_changed, session_ended,
}
use agentpulse_rs.Routing.{
  ChannelEventRoute, CapabilityRouteError, validate_provider_event, channel_event_route,
}
use agentpulse_rs.Aggregate.State.{
  SessionAggregate, ReduceError, ApplyOutcome, from_initial_event_with_config,
}
use agentpulse_rs.Aggregate.Apply.{apply}
use agentpulse_rs.Bridge.State.{
  AdapterError, Ports, RegisteredChannel, RegisteredProvider, Bridge, ChannelDelivery,
  deliver_event, deliver_session, send, session_subscribers,
}

pub data ProviderEventOutcome : Type 0 where
  applied already_applied : ProviderEventOutcome

pub data ChannelDeliveryKind : Type 0 where
  event session : ChannelDeliveryKind

pub record ChannelDeliveryError : Type 0 where
  pub channel_id : Uuid
  pub delivery : ChannelDeliveryKind
  pub source : AdapterError

pub data ChannelDeliveryResult : Type 0 where
  delivered : (channel_id : Uuid) → ChannelDeliveryResult
  failed : ChannelDeliveryError → ChannelDeliveryResult

abbrev pub result_channel_id : ChannelDeliveryResult → Uuid
result_channel_id (delivered id) = id
result_channel_id (failed e) = e.channel_id

abbrev pub is_delivered : ChannelDeliveryResult → Bool
is_delivered (delivered id) = true
is_delivered (failed e) = false

pub record ProviderEventReport : Type 0 where
  pub outcome : ProviderEventOutcome
  pub deliveries : List ChannelDeliveryResult

unfoldable pub has_failures : ProviderEventReport → Bool
has_failures r = any (λ d. not (is_delivered d)) r.deliveries

pub data ProviderEventError : Type 0 where
  provider_not_found : (provider_id : Uuid) → ProviderEventError
  channel_not_found : (channel_id : Uuid) → ProviderEventError
  session_not_started : (session_id : Uuid) → ProviderEventError
  capability_route : CapabilityRouteError → ProviderEventError
  reduce : ReduceError → ProviderEventError
  channel_handoffs : (report : ProviderEventReport) → ProviderEventError

unfoldable pub event_updates_session_view : AgentEventPayload → Bool
event_updates_session_view (session_started _) = true
event_updates_session_view (state_changed _) = true
event_updates_session_view (connection_changed _) = true
event_updates_session_view (session_ended _) = true
event_updates_session_view _ = false

-- The session that an event is routed by.
unfoldable pub routing_session :
    Option SessionAggregate → AgentEvent → Result ProviderEventError AgentSession
routing_session (some aggregate) e = ok aggregate.session
routing_session none e = announced e.payload
  where
    announced : AgentEventPayload → Result ProviderEventError AgentSession
    announced (session_started s) = ok s
    announced _ = err (session_not_started e.session_id)

-- One planned delivery: the Channel, the route and whether the session view follows.
pub record Route : Type 0 where
  pub channel_id : Uuid
  pub route : ChannelEventRoute
  pub with_session : Bool

module _ (flags : Flags) where
  -- `for channel_id in subscriber_ids`.
  unfoldable pub compute_routes :
      ProviderDescriptor
      → AgentSession
      → AgentEvent
      → Map RegisteredChannel
      → List Uuid
      → Result ProviderEventError (List Route)
  compute_routes provider s e channels [] = ok []
  compute_routes provider s e channels (id ∷ ids) =
      let rest = compute_routes provider s e channels ids in
      do
        channel ← ok_or (get id channels) (channel_not_found id)
        let d = channel.descriptor
        route ← map_err capability_route (channel_event_route flags provider d s e)
        let with_session =
            flags.contains d.capabilities session_view && event_updates_session_view e.payload
        routes ← rest
        ok (record { channel_id = id; route = route; with_session = with_session } ∷ routes)

module _ (ports : Ports) where
  -- What follows an accepted event.
  abbrev deliver_view :
      Uuid
      → Bool
      → Option AgentSession
      → RegisteredChannel
      → RegisteredChannel × ChannelDeliveryResult
  deliver_view id true (some session_view) c =
      let (c', answer) = send ports id (deliver_session session_view) c in
      elim answer [
        | none ↦ (c', delivered id)
        | some x ↦ (c', failed (record { channel_id = id; delivery = session; source = x }))
      ]
  deliver_view id true none c = (c, delivered id)
  deliver_view id false view c = (c, delivered id)

  -- The body of the delivery loop.
  unfoldable pub deliver_one :
      AgentEvent
      → Option AgentSession
      → Route
      → RegisteredChannel
      → RegisteredChannel × ChannelDeliveryResult
  unfolding send
  deliver_one e view r c =
      let (c', answer) = send ports r.channel_id (deliver_event e r.route) c in
      elim answer [
        | none ↦ deliver_view r.channel_id r.with_session view c'
        | some x ↦ (c', failed (record { channel_id = r.channel_id; delivery = event; source = x }))
      ]

  -- `for (channel_id, route, deliver_session) in routes`.
  unfoldable pub deliver_all :
      AgentEvent
      → Option AgentSession
      → List Route
      → Map RegisteredChannel
      → Map RegisteredChannel × Result ProviderEventError (List ChannelDeliveryResult)
  deliver_all e view [] channels = (channels, ok [])
  deliver_all e view (r ∷ rs) channels = elim (get r.channel_id channels) [
    | none ↦ (channels, err (channel_not_found r.channel_id))
    | some c ↦
        let (c', result) = deliver_one e view r c in
        let (channels', rest) = deliver_all e view rs (insert r.channel_id c' channels) in
        (channels', do results ← rest; ok (result ∷ results))
  ]

-- The session view that goes out with an event, if some Channel wants it.
abbrev pub view_for : List Route → SessionAggregate → Option AgentSession
view_for routes aggregate =
    if any (λ r. r.with_session) routes then some aggregate.session else none

-- The outcome of the reduction: a retry, or the session view to deliver.
pub data Reduced : Type 0 where
  retried : Reduced
  advanced : Option AgentSession → Reduced

abbrev reduce_existing :
    List Route
    → Uuid
    → AgentEvent
    → SessionAggregate
    → Bridge
    → Bridge × Result ProviderEventError Reduced
reduce_existing routes id e aggregate b =
    let (aggregate', outcome) = apply e aggregate in
    let b' = record b { sessions = insert id aggregate' b.sessions } in
    elim outcome [
      | err x ↦ (b', err (reduce x))
      | ok ApplyOutcome.already_applied ↦ (b', ok retried)
      | ok ApplyOutcome.applied ↦ (b', ok (advanced (view_for routes aggregate')))
    ]

abbrev reduce_new :
    List Route → Uuid → AgentEvent → Bridge → Bridge × Result ProviderEventError Reduced
reduce_new routes id e b = elim (from_initial_event_with_config e b.session_config) [
  | err x ↦ (b, err (reduce x))
  | ok aggregate ↦ (
    record b { sessions = insert id aggregate b.sessions },
    ok (advanced (view_for routes aggregate)),
  )
]

-- `apply` on the aggregate of the session, or its creation.
unfoldable pub reduce_event :
    List Route → Uuid → AgentEvent → Bridge → Bridge × Result ProviderEventError Reduced
reduce_event routes id e b = elim (get id b.sessions) [
  | some aggregate ↦ reduce_existing routes id e aggregate b
  | none ↦ reduce_new routes id e b
]

abbrev report : List ChannelDeliveryResult → Result ProviderEventError ProviderEventReport
report deliveries =
    let r : ProviderEventReport = record { outcome = applied; deliveries = deliveries } in
    if has_failures r then err (channel_handoffs r) else ok r

-- The deliveries, once the state has advanced.
unfoldable pub fan_out :
    Ports
    → AgentEvent
    → List Route
    → Option AgentSession
    → Bridge
    → Bridge × Result ProviderEventError ProviderEventReport
fan_out ports e routes view b =
    let (channels, results) = deliver_all ports e view routes b.channels in
    (record b { channels = channels }, do deliveries ← results; report deliveries)

-- The reduction and the deliveries, once the routes are known.
unfoldable pub commit :
    Ports
    → AgentEvent
    → List Route
    → Bridge
    → Bridge × Result ProviderEventError ProviderEventReport
commit ports e routes b =
    let (b', reduced) = reduce_event routes e.session_id e b in
    elim reduced [
      | err x ↦ (b', err x)
      | ok retried ↦ (b', ok (record { outcome = already_applied; deliveries = [] }))
      | ok (advanced view) ↦ fan_out ports e routes view b'
    ]

-- All that is checked before the state changes.
unfoldable pub plan_routes :
    Flags → Uuid → AgentEvent → Bridge → Result ProviderEventError (List Route)
plan_routes flags provider_id e b = do
  provider ← ok_or (get provider_id b.providers) (provider_not_found provider_id)
  s ← routing_session (get e.session_id b.sessions) e
  map_err capability_route (validate_provider_event flags provider.descriptor s e)
  compute_routes flags provider.descriptor s e b.channels (session_subscribers b e.session_id)

unfoldable pub handle_provider_event :
    Flags
    → Ports
    → Uuid
    → AgentEvent
    → Bridge
    → Bridge × Result ProviderEventError ProviderEventReport
handle_provider_event flags ports provider_id e b = elim (plan_routes flags provider_id e b) [
  | err x ↦ (b, err x)
  | ok routes ↦ commit ports e routes b
]

-- The ProviderEventSink that the Bridge is.
unfoldable pub publish_event :
    Flags → Ports → Uuid → AgentEvent → Bridge → Bridge × Result ProviderEventError (Unit {0})
publish_event flags ports provider_id e b =
    let (b', r) = handle_provider_event flags ports provider_id e b in (b', do report ← r; ok tt)

-- The report of a failed fan-out.
unfoldable pub failure_report : ProviderEventError → Option ProviderEventReport
failure_report (channel_handoffs r) = some r
failure_report _ = none
