-- ===== src/Bridge/Consistent/Subscribing.antt =====
-- That `subscribe` and `sync_session` of agentpulse-bridge/src/bridge.rs keep the Bridge consistent.
use agentpulse_rs.Common.{
  ℕ, ◌≡◌, sym, ap, ◌∙◌, ◌∷◌, some, ok, arith, inl, inr, Option-cases, Result-cases, Bool-cases,
  ◌==◌,
}
use agentpulse_rs.Common.Map.{get, insert, contains_key}
use agentpulse_rs.Common.Map.Laws.{contains_key-insert}
use agentpulse_rs.Domain.Session.{Uuid}
use agentpulse_rs.Domain.Capability.{Flags, session_view}
use agentpulse_rs.Aggregate.State.{SessionAggregate}
use agentpulse_rs.Bridge.State.{
  Ports, Bridge, RegisteredChannel, ChannelDelivery, deliver_session_baseline, deliver_session_sync,
  is_subscribed,
}
use agentpulse_rs.Bridge.Subscription.{
  Subscribing, add_subscriber, prepare_subscription, activate, subscribe_existing, subscribe,
}
use agentpulse_rs.Bridge.Sync.{
  Syncing, prepare_sync, deliver_sync, sync_existing, sync_session, final,
}
use agentpulse_rs.Bridge.Consistent.{Has, IsConsistent}
use agentpulse_rs.Bridge.Consistent.Subscriptions.{called-IsConsistent, add_subscriber-IsConsistent}

-- The Bridge after one call of a Channel.
abbrev pub called : Uuid → RegisteredChannel → ChannelDelivery → Bridge → Bridge
called channel_id channel d b = record b {
  channels = insert channel_id (record channel { received = d ∷ channel.received }) b.channels;
}

-- A prepared subscription is of a registered Channel.
pub prepare_subscription-channel :
    (b : Bridge) (channel_id session_id : Uuid) (flags : Flags) (aggregate : SessionAggregate)
    (p : Subscribing)
    → prepare_subscription flags channel_id session_id aggregate b ≡ ok p
    → get channel_id b.channels ≡ some p.channel
unfolding prepare_subscription
prepare_subscription-channel b channel_id session_id flags aggregate p h = ground arith

-- A prepared page is for the Channel that it was prepared for.
pub prepare_sync-channel :
    (b : Bridge) (channel_id session_id : Uuid) (flags : Flags) (after max_events : ℕ)
    (aggregate : SessionAggregate) (channel : RegisteredChannel) (p : Syncing)
    → prepare_sync flags channel_id session_id after max_events aggregate channel b ≡ ok p
    → p.channel ≡ channel
unfolding prepare_sync
prepare_sync-channel b channel_id session_id flags after max_events aggregate channel p h =
    ground arith

module _ (b : Bridge) (c : IsConsistent b) (channel_id session_id : Uuid)
    (existing : Has b.sessions session_id) where
  module _ (channel : RegisteredChannel) (found : get channel_id b.channels ≡ some channel) where
    called_added-IsConsistent :
        (d : ChannelDelivery)
        → IsConsistent (add_subscriber channel_id session_id (called channel_id channel d b))
    called_added-IsConsistent d =
        let received = record channel { received = d ∷ channel.received } in
        add_subscriber-IsConsistent (called channel_id channel d b)
          (called-IsConsistent b c channel_id channel d found) channel_id session_id
          (ground (arith, contains_key-insert channel_id channel_id received b.channels)) existing

  activate-IsConsistent :
      (flags : Flags) (ports : Ports) (p : Subscribing)
      → get channel_id b.channels ≡ some p.channel
      → IsConsistent (activate flags ports channel_id session_id p b).0
  unfolding activate
  activate-IsConsistent flags ports p found =
      let d = deliver_session_baseline p.baseline in
      elim (Bool-cases (flags.contains p.channel.descriptor.capabilities session_view)) [
        | inr hidden ↦
            rw (hidden, activate)
              (add_subscriber-IsConsistent b c channel_id session_id (ground arith) existing)
        | inl shown ↦ elim (Option-cases (ports.channel_answer channel_id p.channel.received d)) [
          | inl accepted ↦
              rw (shown, accepted, activate) (called_added-IsConsistent p.channel found d)
          | inr (x, failed) ↦
              rw (shown, failed, activate) (called-IsConsistent b c channel_id p.channel d found)
        ]
      ]

  subscribe_existing-IsConsistent :
      (flags : Flags) (ports : Ports) (aggregate : SessionAggregate)
      → IsConsistent (subscribe_existing flags ports channel_id session_id aggregate b).0
  unfolding subscribe_existing
  subscribe_existing-IsConsistent flags ports aggregate =
      elim (Bool-cases (is_subscribed b channel_id session_id)) [
        | inl already ↦ rw (already, subscribe_existing) c
        | inr new ↦
            elim (Result-cases (prepare_subscription flags channel_id session_id aggregate b)) [
              | inr (x, failed) ↦ rw (new, failed, subscribe_existing) c
              | inl (p, ready) ↦
                  rw (new, ready, subscribe_existing)
                    (activate-IsConsistent flags ports p (
                      prepare_subscription-channel b channel_id session_id flags aggregate p ready))
            ]
      ]

  deliver_sync-IsConsistent :
      (ports : Ports) (p : Syncing)
      → get channel_id b.channels ≡ some p.channel
      → IsConsistent (deliver_sync ports channel_id session_id p b).0
  unfolding deliver_sync
  deliver_sync-IsConsistent ports p found =
      let d = deliver_session_sync p.sync in
      elim (Option-cases (ports.channel_answer channel_id p.channel.received d)) [
        | inr (x, failed) ↦
            rw (failed, deliver_sync) (called-IsConsistent b c channel_id p.channel d found)
        | inl accepted ↦ elim (Bool-cases (final p.sync.baseline)) [
          | inr more ↦
              rw (accepted, more, deliver_sync)
                (called-IsConsistent b c channel_id p.channel d found)
          | inl last ↦
              rw (accepted, last, deliver_sync) (called_added-IsConsistent p.channel found d)
        ]
      ]

  sync_existing-IsConsistent :
      (flags : Flags) (ports : Ports) (after max_events : ℕ) (channel : RegisteredChannel)
      (aggregate : SessionAggregate)
      → get channel_id b.channels ≡ some channel
      → let synced =
          sync_existing flags ports channel_id session_id after max_events channel aggregate b in
        IsConsistent synced.0
  unfolding sync_existing
  sync_existing-IsConsistent flags ports after max_events channel aggregate found =
      let prepared =
        prepare_sync flags channel_id session_id after max_events aggregate channel b in
      elim (Bool-cases (is_subscribed b channel_id session_id)) [
        | inl already ↦ rw (already, sync_existing) c
        | inr new ↦ elim (Result-cases prepared) [
          | inr (x, failed) ↦ rw (new, failed, sync_existing) c
          | inl (p, ready) ↦
              let same =
                prepare_sync-channel b channel_id session_id flags after max_events aggregate
                  channel p ready in
              rw (new, ready, sync_existing)
                (deliver_sync-IsConsistent ports p (found ∙ ap some (sym same)))
        ]
      ]

module _ (b : Bridge) (c : IsConsistent b) (flags : Flags) (ports : Ports)
    (channel_id session_id : Uuid) where
  pub subscribe-IsConsistent : IsConsistent (subscribe flags ports channel_id session_id b).0
  unfolding subscribe
  subscribe-IsConsistent = elim (Bool-cases (contains_key channel_id b.channels)) [
    | inr unknown ↦ rw (unknown, subscribe) c
    | inl known ↦ elim (Option-cases (get session_id b.sessions)) [
      | inl absent ↦ rw (known, absent, subscribe) c
      | inr (aggregate, found) ↦
          rw (known, found, subscribe)
            (subscribe_existing-IsConsistent b c channel_id session_id (ground arith) flags ports
              aggregate)
    ]
  ]

  pub sync_session-IsConsistent :
      (after max_events : ℕ)
      → IsConsistent (sync_session flags ports channel_id session_id after max_events b).0
  unfolding sync_session
  sync_session-IsConsistent after max_events = elim (Bool-cases (max_events == 0)) [
    | inl none_asked ↦ rw (none_asked, sync_session) c
    | inr some_asked ↦ elim (Option-cases (get channel_id b.channels)) [
      | inl unknown ↦ rw (some_asked, unknown, sync_session) c
      | inr (channel, known) ↦ elim (Option-cases (get session_id b.sessions)) [
        | inl absent ↦ rw (some_asked, known, absent, sync_session) c
        | inr (aggregate, found) ↦
            rw (some_asked, known, found, sync_session)
              (sync_existing-IsConsistent b c channel_id session_id (ground arith) flags ports after
                max_events channel aggregate known)
      ]
    ]
  ]
