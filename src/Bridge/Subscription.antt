-- ===== src/Bridge/Subscription.antt =====
-- agentpulse-bridge/src/bridge.rs: `subscribe`, `unsubscribe` and `unsubscribe_channel`.
pub mod Effects
pub mod RoundTrip
use agentpulse_rs.Common.{
  ℕ, suc, ◌+◌, Bool, true, false, not, List, [], ◌∷◌, Option, none, some, Result, ok, err, map_err,
  ok_or, if◌then◌else◌, ◌>>=◌, ◌>>◌, length,
}
use agentpulse_rs.Common.Map.{Map, get, insert, remove, contains_key, values}
use agentpulse_rs.Domain.Value.{EventSequence, is_empty}
use agentpulse_rs.Domain.Session.{Uuid, AgentSession}
use agentpulse_rs.Domain.Capability.{Flags, session_view}
use agentpulse_rs.Domain.Endpoint.{ProviderDescriptor, ChannelDescriptor}
use agentpulse_rs.Domain.Interaction.{InteractionRequest}
use agentpulse_rs.Routing.{CapabilityRouteError, interaction_route}
use agentpulse_rs.Aggregate.State.{SessionAggregate, last_sequence}
use agentpulse_rs.Bridge.State.{
  AdapterError, Ports, RegisteredChannel, RegisteredProvider, RoutedInteractionRequest,
  ChannelSessionBaseline, ChannelDelivery, deliver_session_baseline, Bridge, IdSet, send,
  subscriber_set, set_or_empty, is_subscribed,
}
use agentpulse_rs.Bridge.Events.{ChannelDeliveryError, ChannelDeliveryKind}

pub data SubscribeOutcome : Type 0 where
  subscribed :
      (session_view_delivered : Bool) (baseline_sequence : EventSequence)
      (pending_interaction_count : ℕ)
      → SubscribeOutcome
  already_subscribed : (current_sequence : EventSequence) → SubscribeOutcome

pub data UnsubscribeOutcome : Type 0 where
  unsubscribed not_subscribed : UnsubscribeOutcome

pub data SubscriptionError : Type 0 where
  channel_not_found : (channel_id : Uuid) → SubscriptionError
  session_not_found : (session_id : Uuid) → SubscriptionError
  initial_session_handoff : ChannelDeliveryError → SubscriptionError
  baseline_route : CapabilityRouteError → SubscriptionError
  invalid_page_size : SubscriptionError

module _ (flags : Flags) (provider : ProviderDescriptor) (channel : ChannelDescriptor)
    (session : AgentSession) where
  -- The pending interactions of a baseline with their routes.
  unfoldable pub route_pending :
      List InteractionRequest → Result SubscriptionError (List RoutedInteractionRequest)
  route_pending [] = ok []
  route_pending (q ∷ qs) =
      let rest = route_pending qs in
      do
        route ← map_err baseline_route (interaction_route flags provider channel session q)
        routed ← rest
        ok (record { request = q; route = route } ∷ routed)

-- `subscriptions.entry(session_id).or_default().insert(channel_id)`.
unfoldable pub add_subscriber : Uuid → Uuid → Bridge → Bridge
add_subscriber channel_id session_id b = record b {
  subscriptions =
      insert session_id (insert channel_id tt (subscriber_set b session_id)) b.subscriptions;
}

-- What `subscribe` establishes before it calls the Channel: the aggregate, the two endpoints and
-- the baseline.
pub record Subscribing : Type 0 where
  pub channel : RegisteredChannel
  pub baseline : ChannelSessionBaseline

unfoldable pub prepare_subscription :
    Flags → Uuid → Uuid → SessionAggregate → Bridge → Result SubscriptionError Subscribing
prepare_subscription flags channel_id session_id aggregate b = do
  channel ← ok_or (get channel_id b.channels) (channel_not_found channel_id)
  provider ← ok_or (get aggregate.session.provider_id b.providers) (session_not_found session_id)
  pending ←
      route_pending flags provider.descriptor channel.descriptor aggregate.session
        (values aggregate.pending_interactions)
  let baseline : ChannelSessionBaseline = record {
    session = aggregate.session;
    sequence = last_sequence aggregate;
    pending_interactions = pending;
  }
  ok (record { channel = channel; baseline = baseline })

abbrev pub handoff_error : Uuid → ChannelDeliveryKind → AdapterError → SubscriptionError
handoff_error id kind x =
    initial_session_handoff (record { channel_id = id; delivery = kind; source = x })

-- The handoff of the baseline and the activation.
unfoldable pub activate :
    Flags
    → Ports
    → Uuid
    → Uuid
    → Subscribing
    → Bridge
    → Bridge × Result SubscriptionError SubscribeOutcome
unfolding send
activate flags ports channel_id session_id p b =
    let view = flags.contains p.channel.descriptor.capabilities session_view in
    let outcome = subscribed view p.baseline.sequence (length p.baseline.pending_interactions) in
    let (channel, answer) = send ports channel_id (deliver_session_baseline p.baseline) p.channel in
    let called = record b { channels = insert channel_id channel b.channels } in
    let handed : Bridge × Result SubscriptionError SubscribeOutcome = elim answer [
      | none ↦ (add_subscriber channel_id session_id called, ok outcome)
      | some x ↦ (called, err (handoff_error channel_id ChannelDeliveryKind.session x))
    ] in
    if view then handed else (add_subscriber channel_id session_id b, ok outcome)

-- `subscribe` of a registered Channel to an existing session.
unfoldable pub subscribe_existing :
    Flags
    → Ports
    → Uuid
    → Uuid
    → SessionAggregate
    → Bridge
    → Bridge × Result SubscriptionError SubscribeOutcome
subscribe_existing flags ports channel_id session_id aggregate b =
    let fresh : Bridge × Result SubscriptionError SubscribeOutcome =
      elim (prepare_subscription flags channel_id session_id aggregate b) [
        | err x ↦ (b, err x)
        | ok p ↦ activate flags ports channel_id session_id p b
      ] in
    if is_subscribed b channel_id session_id
    then (b, ok (already_subscribed (last_sequence aggregate)))
    else fresh

unfoldable pub subscribe :
    Flags → Ports → Uuid → Uuid → Bridge → Bridge × Result SubscriptionError SubscribeOutcome
subscribe flags ports channel_id session_id b =
    if not (contains_key channel_id b.channels)
    then (b, err (channel_not_found channel_id))
    else elim (get session_id b.sessions) [
      | none ↦ (b, err (session_not_found session_id))
      | some aggregate ↦ subscribe_existing flags ports channel_id session_id aggregate b
    ]

-- The set of a session without the Channel; an empty set is dropped.
unfoldable pub drop_subscriber : Uuid → Uuid → Option IdSet → Map IdSet → Map IdSet
drop_subscriber channel_id session_id none m = m
drop_subscriber channel_id session_id (some set) m =
    let set' = remove channel_id set in
    if is_empty set' then remove session_id m else insert session_id set' m

unfoldable pub unsubscribe :
    Uuid → Uuid → Bridge → Bridge × Result SubscriptionError UnsubscribeOutcome
unsubscribe channel_id session_id b =
    if not (contains_key channel_id b.channels)
    then (b, err (channel_not_found channel_id))
    else if not (contains_key session_id b.sessions)
    then (b, err (session_not_found session_id))
    else (
      record b {
        subscriptions =
            drop_subscriber channel_id session_id (get session_id b.subscriptions) b.subscriptions;
      },
      ok (if is_subscribed b channel_id session_id then unsubscribed else not_subscribed),
    )

-- `subscriptions.retain(..)`: the sets without the Channel, empty ones dropped, and how many had it.
unfoldable pub retain_others : Uuid → Map IdSet → Map IdSet × ℕ
retain_others channel_id [] = ([], 0)
retain_others channel_id ((k, set) ∷ m) =
    let (rest, removed) = retain_others channel_id m in
    let set' = remove channel_id set in
    (
      if is_empty set' then rest else (k, set') ∷ rest,
      if contains_key channel_id set then suc removed else removed,
    )

unfoldable pub unsubscribe_channel : Uuid → Bridge → Bridge × Result SubscriptionError ℕ
unsubscribe_channel channel_id b =
    let (rest, removed) = retain_others channel_id b.subscriptions in
    if not (contains_key channel_id b.channels)
    then (b, err (channel_not_found channel_id))
    else (record b { subscriptions = rest }, ok removed)
