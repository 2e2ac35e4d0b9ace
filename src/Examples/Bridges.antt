-- ===== src/Examples/Bridges.antt =====
-- The theorems on subscriptions and catch-up at a Bridge with one session, which Channel 7 watches.
use agentpulse_rs.Common.{
  ◌≡◌, refl, true, false, not, ◌&&◌, ◌||◌, [], ◌∷◌, some, ok, is_ok, arith, ◌==◌,
}
use agentpulse_rs.Common.Map.{get, insert}
use agentpulse_rs.Domain.Session.{Uuid}
use agentpulse_rs.Domain.Value.{checked_next}
use agentpulse_rs.Domain.Event.Equality.{same_event}
use agentpulse_rs.Domain.Event.{event_capability}
use agentpulse_rs.Domain.Interaction.Validate.{
  is_actionable, required_provider_request_capability, required_provider_response_capability,
  required_channel_response_capability,
}
use agentpulse_rs.Routing.{
  validate_provider_session, validate_session_id, validate_provider_capabilities,
  validate_provider_event, interaction_route, channel_event_route,
}
use agentpulse_rs.Aggregate.State.{retain_all}
use agentpulse_rs.Aggregate.Apply.{apply, apply_payload, record_event, evict, validate_cursor}
use agentpulse_rs.Aggregate.Replay.{retained_event_page_after}
use agentpulse_rs.Bridge.State.{
  Bridge, RegisteredChannel, ChannelSessionSync, deliver_session_sync, is_subscribed, send,
}
use agentpulse_rs.Bridge.Subscription.{
  subscribe, subscribe_existing, prepare_subscription, activate, add_subscriber, route_pending,
  unsubscribe, unsubscribe_channel, unsubscribed,
}
use agentpulse_rs.Bridge.Subscription.Effects.{
  is_pair, subscribe-is_subscribed, unsubscribe-is_subscribed, unsubscribe_channel-is_subscribed,
}
use agentpulse_rs.Bridge.Subscription.RoundTrip.{unsubscribe-subscribe}
use agentpulse_rs.Bridge.Sync.{
  SessionSyncOutcome, sync_session, sync_existing, prepare_sync, choose_page, route_events,
  final_baseline, deliver_sync,
}
use agentpulse_rs.Bridge.Sync.CatchUp.{catch_up, Ends, catch_up-Ends}
use agentpulse_rs.Bridge.Sync.Delivered.{Delivers, outcome_of, sync_session-Delivers}
use agentpulse_rs.Bridge.Consistent.{IsConsistent, Held, Subscribes}
use agentpulse_rs.Examples.{
  bits, willing, provider, answering, watching, begun, asked, asked_aggregate,
}
use agentpulse_rs.Examples.Core.{asked_reached, begun-IsWellFormed, asked-IsWellFormed}

abbrev pub watched : Bridge
watched = record {
  providers = (1, record { descriptor = provider; received = [] }) ∷ [];
  channels =
      (5, record { descriptor = answering; received = [] })
      ∷ (7, record { descriptor = watching; received = [] })
      ∷ [];
  session_config = retain_all;
  sessions = (10, asked_aggregate) ∷ [];
  subscriptions = (10, (7, tt) ∷ []) ∷ [];
}

watched-Held : Held watched.providers retain_all 10 asked_aggregate
unfolding apply validate_cursor apply_payload record_event evict checked_next same_event get
watched-Held = record {
  keyed = refl;
  owned = refl;
  events = asked ∷ begun ∷ [];
  well_formed = (asked-IsWellFormed, (begun-IsWellFormed, tt));
  reached = asked_reached;
}

watched-Subscribes : Subscribes watched.sessions watched.channels 10 ((7, tt) ∷ [])
unfolding get
watched-Subscribes = record {
  existing = refl;
  not_empty = refl;
  ordered = tt;
  registered = (refl, tt);
}

pub watched-IsConsistent : IsConsistent watched
watched-IsConsistent = record {
  providers_sorted = tt;
  providers_keyed = (refl, tt);
  channels_sorted = omega arith;
  channels_keyed = (refl, (refl, tt));
  sessions_sorted = tt;
  sessions_held = (watched-Held, tt);
  subscriptions_sorted = tt;
  subscriptions_held = (watched-Subscribes, tt);
}

subscribe_example :
    let done = subscribe bits willing 5 10 watched in
    is_subscribed done.0 7 10 ≡ (is_ok done.1 && is_pair 5 10 7 10 || is_subscribed watched 7 10)
subscribe_example = subscribe-is_subscribed bits willing 5 10 watched 7 10

unsubscribe_example :
    let done = unsubscribe 7 10 watched in
    is_subscribed done.0 7 10
    ≡ (not (is_ok done.1 && is_pair 7 10 7 10) && is_subscribed watched 7 10)
unsubscribe_example = unsubscribe-is_subscribed 7 10 watched 7 10

unsubscribe_channel_example :
    let done = unsubscribe_channel 7 watched in
    is_subscribed done.0 7 10 ≡ (not (is_ok done.1 && 7 == 7) && is_subscribed watched 7 10)
unsubscribe_channel_example = unsubscribe_channel-is_subscribed 7 watched 7 10 tt

unsubscribed_5 : is_subscribed watched 5 10 ≡ false
unfolding is_subscribed get
unsubscribed_5 = refl

subscribed_5 : is_ok (subscribe bits willing 5 10 watched).1 ≡ true
unfolding subscribe subscribe_existing prepare_subscription activate add_subscriber route_pending
    is_subscribed get insert send interaction_route validate_provider_session validate_session_id
    validate_provider_capabilities is_actionable required_provider_request_capability
    required_provider_response_capability required_channel_response_capability apply validate_cursor
    apply_payload record_event evict checked_next same_event
subscribed_5 = refl

unsubscribe-subscribe_example :
    let done = subscribe bits willing 5 10 watched in
    let undone = unsubscribe 5 10 done.0 in
    (undone.0.subscriptions ≡ watched.subscriptions) × (undone.1 ≡ ok unsubscribed)
unsubscribe-subscribe_example =
    unsubscribe-subscribe bits willing 5 10 watched watched-IsConsistent unsubscribed_5 subscribed_5

-- The page of one event after nothing.
abbrev first_page : SessionSyncOutcome
first_page = record {
  through_sequence = 1;
  event_count = 1;
  reset = false;
  subscribed = false;
  pending_interaction_count = 0;
}

abbrev synced : Bridge
synced = (sync_session bits willing 5 10 0 1 watched).0

synced_first : sync_session bits willing 5 10 0 1 watched ≡ (synced, ok first_page)
unfolding sync_session sync_existing prepare_sync choose_page route_events final_baseline
    deliver_sync retained_event_page_after add_subscriber route_pending channel_event_route
    validate_provider_event event_capability is_subscribed get insert send interaction_route
    validate_provider_session validate_session_id validate_provider_capabilities is_actionable
    required_provider_request_capability required_provider_response_capability
    required_channel_response_capability apply validate_cursor apply_payload record_event evict
    checked_next same_event
synced_first = refl

asked_found : get 10 watched.sessions ≡ some asked_aggregate
unfolding get
asked_found = refl

sync_session_example :
    (sync : ChannelSessionSync) × Delivers retain_all (asked ∷ begun ∷ []) 0 1 sync
    × (first_page ≡ outcome_of sync)
    × ((channel : RegisteredChannel) × (get 5 watched.channels ≡ some channel)
        × (get 5 synced.channels
            ≡ some (record channel { received = deliver_session_sync sync ∷ channel.received })))
    × ((c s : Uuid)
        → is_subscribed synced c s
          ≡ (first_page.subscribed && is_pair 5 10 c s || is_subscribed watched c s))
sync_session_example =
    sync_session-Delivers bits willing 5 10 0 1 watched synced asked_aggregate (asked ∷ begun ∷ [])
      first_page asked_found asked_reached unsubscribed_5 synced_first

catch_up_example : Ends bits willing 5 10 1 (catch_up bits willing 5 10 1 4 9 watched)
catch_up_example =
    catch_up-Ends bits willing 5 10 1 4 9 watched asked_aggregate (asked ∷ begun ∷ []) asked_found
      asked_reached unsubscribed_5 (omega arith)
