-- ===== src/Bridge/Sync.antt =====
-- agentpulse-bridge/src/bridge.rs: `sync_session`, the bounded catch-up of a Channel.
pub mod CatchUp
pub mod Progress
pub mod Delivered
use agentpulse_rs.Common.{
  ℕ, Bool, true, false, not, List, [], ◌∷◌, Option, none, some, Result, ok, err, map_err, ok_or,
  if◌then◌else◌, ◌>>=◌, ◌>>◌, length, last?, ◌==◌,
}
use agentpulse_rs.Common.Map.{Map, get, insert, values}
use agentpulse_rs.Domain.Session.{Uuid, AgentSession}
use agentpulse_rs.Domain.Capability.{Flags}
use agentpulse_rs.Domain.Endpoint.{ProviderDescriptor, ChannelDescriptor}
use agentpulse_rs.Domain.Event.{AgentEvent, sequence_or}
use agentpulse_rs.Routing.{channel_event_route}
use agentpulse_rs.Aggregate.State.{SessionAggregate, last_sequence}
use agentpulse_rs.Aggregate.Replay.{retained_event_page_after}
use agentpulse_rs.Bridge.State.{
  AdapterError, Ports, RegisteredChannel, RoutedAgentEvent, ChannelSessionBaseline,
  ChannelSessionSync, deliver_session_sync, Bridge, send, is_subscribed,
}
use agentpulse_rs.Bridge.Events.{ChannelDeliveryKind}
use agentpulse_rs.Bridge.Subscription.{
  SubscriptionError, channel_not_found, session_not_found, invalid_page_size, baseline_route,
  handoff_error, route_pending, add_subscriber,
}

pub record SessionSyncOutcome : Type 0 where
  pub through_sequence : ℕ
  pub event_count : ℕ
  pub reset : Bool
  pub subscribed : Bool
  pub pending_interaction_count : ℕ

-- The error "complete in-memory Session history is unavailable" of the standard library.
abbrev history_unavailable : AdapterError
history_unavailable = 0

-- The cursor, whether it was reset, and the events of a page.
pub record Page : Type 0 where
  pub after_sequence : ℕ
  pub reset : Bool
  pub events : List AgentEvent

unfoldable pub choose_page : Uuid → SessionAggregate → ℕ → ℕ → Result SubscriptionError Page
choose_page channel_id aggregate requested_after max_events =
    let restart : Result SubscriptionError Page =
      elim (retained_event_page_after aggregate 0 max_events) [
        | none ↦ err (handoff_error channel_id ChannelDeliveryKind.event history_unavailable)
        | some events ↦ ok (record { after_sequence = 0; reset = true; events = events })
      ] in
    elim (retained_event_page_after aggregate requested_after max_events) [
      | some events ↦
          ok (record { after_sequence = requested_after; reset = false; events = events })
      | none ↦ restart
    ]

-- `page_events.last().map_or(after_sequence, sequence)`.
abbrev pub through : Page → ℕ
through p = sequence_or p.after_sequence (last? p.events)

module _ (flags : Flags) (provider : ProviderDescriptor) (channel : ChannelDescriptor)
    (session : AgentSession) where
  unfoldable pub route_events : List AgentEvent → Result SubscriptionError (List RoutedAgentEvent)
  route_events [] = ok []
  route_events (e ∷ es) =
      let rest = route_events es in
      do
        route ← map_err baseline_route (channel_event_route flags provider channel session e)
        routed ← rest
        ok (record { event = e; route = route } ∷ routed)

  unfoldable pub final_baseline :
      Bool → SessionAggregate → Result SubscriptionError (Option ChannelSessionBaseline)
  final_baseline false aggregate = ok none
  final_baseline true aggregate = do
    pending ← route_pending flags provider channel session (values aggregate.pending_interactions)
    ok (
        some (record {
          session = session;
          sequence = last_sequence aggregate;
          pending_interactions = pending;
        }))

abbrev pub pending_count : Option ChannelSessionBaseline → ℕ
pending_count none = 0
pending_count (some baseline) = length baseline.pending_interactions

-- Everything up to the call of the Channel: the channel, and the page to hand to it.
pub record Syncing : Type 0 where
  pub channel : RegisteredChannel
  pub sync : ChannelSessionSync

unfoldable pub prepare_sync :
    Flags
    → Uuid
    → Uuid
    → ℕ
    → ℕ
    → SessionAggregate
    → RegisteredChannel
    → Bridge
    → Result SubscriptionError Syncing
prepare_sync flags channel_id session_id requested_after max_events aggregate channel b = do
  provider ← ok_or (get aggregate.session.provider_id b.providers) (session_not_found session_id)
  p ← choose_page channel_id aggregate requested_after max_events
  let final_page = through p == last_sequence aggregate
  events ← route_events flags provider.descriptor channel.descriptor aggregate.session p.events
  baseline ←
      final_baseline flags provider.descriptor channel.descriptor aggregate.session final_page
        aggregate
  let sync : ChannelSessionSync = record {
    after_sequence = p.after_sequence;
    through_sequence = through p;
    reset = p.reset;
    events = events;
    baseline = baseline;
  }
  ok (record { channel = channel; sync = sync })

abbrev pub final : Option ChannelSessionBaseline → Bool
final none = false
final (some baseline) = true

-- The handoff of the page and, on the last one, the activation of the subscription.
unfoldable pub deliver_sync :
    Ports → Uuid → Uuid → Syncing → Bridge → Bridge × Result SubscriptionError SessionSyncOutcome
unfolding send
deliver_sync ports channel_id session_id p b =
    let sync = p.sync in
    let (channel, answer) = send ports channel_id (deliver_session_sync sync) p.channel in
    let called = record b { channels = insert channel_id channel b.channels } in
    elim answer [
      | some x ↦ (called, err (handoff_error channel_id ChannelDeliveryKind.session x))
      | none ↦ (
        if final sync.baseline then add_subscriber channel_id session_id called else called,
        ok (record {
          through_sequence = sync.through_sequence;
          event_count = length sync.events;
          reset = sync.reset;
          subscribed = final sync.baseline;
          pending_interaction_count = pending_count sync.baseline;
        }),
      )
    ]

unfoldable pub sync_existing :
    Flags
    → Ports
    → Uuid
    → Uuid
    → ℕ
    → ℕ
    → RegisteredChannel
    → SessionAggregate
    → Bridge
    → Bridge × Result SubscriptionError SessionSyncOutcome
sync_existing flags ports channel_id session_id requested_after max_events channel aggregate b =
    let fresh : Bridge × Result SubscriptionError SessionSyncOutcome =
      elim (prepare_sync flags channel_id session_id requested_after max_events aggregate channel
        b) [ err x ↦ (b, err x) | ok p ↦ deliver_sync ports channel_id session_id p b ] in
    if is_subscribed b channel_id session_id
    then (
      b,
      ok (record {
        through_sequence = last_sequence aggregate;
        event_count = 0;
        reset = false;
        subscribed = true;
        pending_interaction_count = 0;
      }),
    )
    else fresh

unfoldable pub sync_session :
    Flags
    → Ports
    → Uuid
    → Uuid
    → ℕ
    → ℕ
    → Bridge
    → Bridge × Result SubscriptionError SessionSyncOutcome
sync_session flags ports channel_id session_id requested_after max_events b =
    if max_events == 0 then (b, err invalid_page_size) else elim (get channel_id b.channels) [
      | none ↦ (b, err (channel_not_found channel_id))
      | some channel ↦ elim (get session_id b.sessions) [
        | none ↦ (b, err (session_not_found session_id))
        | some aggregate ↦
            sync_existing flags ports channel_id session_id requested_after max_events channel
              aggregate b
      ]
    ]
