-- ===== src/Bridge/Sync/Delivered.antt =====
-- The bounded catch-up of `sync_session` in agentpulse-bridge/src/bridge.rs: what a call hands to the
-- Channel, and how far it gets.
use agentpulse_rs.Common.{
  ℕ, ◌+◌, ◌<◌, ◌≡◌, sym, ap, ◌∙◌, Bool, not, true, false, ◌&&◌, ◌||◌, List, [], ◌∷◌, Option, some,
  ok, arith, inl, inr, ◌⊎◌, Option-cases, Result-cases, ◌==◌, if◌then◌else◌, length, map, take,
}
use agentpulse_rs.Common.Map.{get, insert, get-insert}
use agentpulse_rs.Domain.Session.{Uuid, AgentSession}
use agentpulse_rs.Domain.Capability.{Flags}
use agentpulse_rs.Domain.Endpoint.{ProviderDescriptor, ChannelDescriptor}
use agentpulse_rs.Domain.Event.{AgentEvent}
use agentpulse_rs.Aggregate.State.{SessionAggregateConfig, SessionAggregate, last_sequence}
use agentpulse_rs.Aggregate.Log.{Reaches}
use agentpulse_rs.Aggregate.Retention.{Reaches-Keeps}
use agentpulse_rs.Aggregate.Pages.{events_after}
use agentpulse_rs.Bridge.State.{
  Ports, Bridge, RoutedAgentEvent, ChannelSessionBaseline, ChannelSessionSync, RegisteredChannel,
  RegisteredProvider, deliver_session_sync, is_subscribed,
}
use agentpulse_rs.Bridge.Subscription.Effects.{
  is_pair, add_subscriber-is_subscribed, is_subscribed-called,
}
use agentpulse_rs.Bridge.Consistent.Subscribing.{prepare_sync-channel}
use agentpulse_rs.Bridge.Subscription.{add_subscriber}
use agentpulse_rs.Common.{==_self}
use agentpulse_rs.Bridge.Sync.{
  pending_count, Page, choose_page, through, Syncing, prepare_sync, deliver_sync, sync_existing,
  sync_session, SessionSyncOutcome, final, route_events, final_baseline,
}
use agentpulse_rs.Bridge.Sync.Progress.{is_covered, choose_page-Covers, Covers-Reached}

module _ (flags : Flags) (provider : ProviderDescriptor) (channel : ChannelDescriptor)
    (session : AgentSession) where
  route_events-event :
      (es : List AgentEvent) (routed : List RoutedAgentEvent)
      → route_events flags provider channel session es ≡ ok routed
      → map (λ r. r.event) routed ≡ es
  unfolding route_events
  route_events-event [] routed h = ground arith
  route_events-event (e ∷ es) [] h = ground arith
  route_events-event (e ∷ es) (r ∷ routed) h = ground (arith, route_events-event es routed)

  final_baseline-final :
      (last : Bool) (a : SessionAggregate) (baseline : Option ChannelSessionBaseline)
      → final_baseline flags provider channel session last a ≡ ok baseline
      → final baseline ≡ last
  unfolding final_baseline
  final_baseline-final true a baseline h = ground arith
  final_baseline-final false a baseline h = ground arith

-- How far a page gets: to the end of the log, or by as many events as were asked for.
abbrev pub Reached : List AgentEvent → ℕ → ChannelSessionSync → Type 0
Reached log max_events sync =
    ((final sync.baseline ≡ true) × (sync.through_sequence ≡ length log))
    ⊎ ((final sync.baseline ≡ false)
        × (sync.through_sequence ≡ sync.after_sequence + max_events)
        × (sync.through_sequence < length log))

-- What is handed to a Channel that catches up on a log.
pub record Delivers (c : SessionAggregateConfig) (log : List AgentEvent) (requested max_events : ℕ)
    (sync : ChannelSessionSync) : Type 0 where
  pub resets : sync.reset ≡ not (is_covered c log requested)
  pub starts : sync.after_sequence ≡ (if sync.reset then 0 else requested)
  pub covered : is_covered c log sync.after_sequence ≡ true
  pub content :
      map (λ r. r.event) sync.events ≡ take max_events (events_after sync.after_sequence log)
  pub reached : Reached log max_events sync

-- The page that a prepared sync carries.
abbrev Carries : SessionAggregate → Page → ChannelSessionSync → Type 0
Carries a q sync =
    (sync.after_sequence ≡ q.after_sequence)
    × (sync.through_sequence ≡ through q)
    × (sync.reset ≡ q.reset)
    × (map (λ r. r.event) sync.events ≡ q.events)
    × (final sync.baseline ≡ (through q == last_sequence a))

module _ (flags : Flags) (channel_id session_id : Uuid) (requested max_events : ℕ) (b : Bridge)
    (a : SessionAggregate) (channel : RegisteredChannel) (p : Syncing)
    (h : prepare_sync flags channel_id session_id requested max_events a channel b ≡ ok p) where
  carried :
      (provider : RegisteredProvider) (q : Page)
      → get a.session.provider_id b.providers ≡ some provider
      → choose_page channel_id a requested max_events ≡ ok q
      → Carries a q p.sync
  unfolding prepare_sync
  carried provider q owned chosen =
      let last = through q == last_sequence a in
      let routed = route_events flags provider.descriptor channel.descriptor a.session q.events in
      let baselined =
        final_baseline flags provider.descriptor channel.descriptor a.session last a in
      elim (Result-cases routed) [
        | inr (x, failed) ↦ ground arith
        | inl (events, fine) ↦ elim (Result-cases baselined) [
          | inr (x, failed) ↦ ground arith
          | inl (baseline, made) ↦
              let same =
                route_events-event flags provider.descriptor channel.descriptor a.session q.events
                  events fine in
              let finals =
                final_baseline-final flags provider.descriptor channel.descriptor a.session last a
                  baseline made in
              ground (arith, same, finals)
        ]
      ]

  prepared_page :
      (q : Page) × (choose_page channel_id a requested max_events ≡ ok q) × Carries a q p.sync
  unfolding prepare_sync
  prepared_page = elim (Option-cases (get a.session.provider_id b.providers)) [
    | inl unowned ↦ ground arith
    | inr (provider, owned) ↦ elim (Result-cases (choose_page channel_id a requested max_events)) [
      | inr (x, failed) ↦ ground arith
      | inl (q, chosen) ↦ (q, chosen, carried provider q owned chosen)
    ]
  ]

  pub prepare_sync-Delivers :
      (log : List AgentEvent)
      → Reaches b.session_config log a
      → Delivers b.session_config log requested max_events p.sync
  prepare_sync-Delivers log r =
      let (q, chosen, carries) = prepared_page in
      let covers = choose_page-Covers r channel_id requested max_events q chosen in
      let whole : last_sequence a ≡ length log = (Reaches-Keeps r).last_numbered in
      let test : (through q == last_sequence a) ≡ (through q == length log) =
        ap (λ n. through q == n) whole in
      let reached = Covers-Reached b.session_config log requested max_events q covers in
      record {
        resets = carries.2 ∙ covers.resets;
        starts = ground (arith, covers.from);
        covered = ground (arith, covers.covered);
        content =
            carries.3
            ∙ covers.content
            ∙ ap (λ n. take max_events (events_after n log)) (sym carries.0);
        reached = elim reached [
          | inl (e, t) ↦ inl (carries.4 ∙ test ∙ e, carries.1 ∙ t)
          | inr (e, t, lt) ↦
              inr (
                carries.4 ∙ test ∙ e,
                omega (arith, carries.0, carries.1),
                omega (arith, carries.1),
              )
        ];
      }

-- What the Channel's answer turns a page into.
abbrev pub outcome_of : ChannelSessionSync → SessionSyncOutcome
outcome_of sync = record {
  through_sequence = sync.through_sequence;
  event_count = length sync.events;
  reset = sync.reset;
  subscribed = final sync.baseline;
  pending_interaction_count = pending_count sync.baseline;
}

module _ (ports : Ports) (channel_id session_id : Uuid) (b b' : Bridge)
    (o : SessionSyncOutcome) where
  -- The effect of a page that the Channel accepts.
  deliver_sync_effect :
      (p : Syncing)
      → deliver_sync ports channel_id session_id p b ≡ (b', ok o)
      → (o ≡ outcome_of p.sync)
        × (get channel_id b'.channels
            ≡ some
                (record p.channel { received = deliver_session_sync p.sync ∷ p.channel.received }))
        × ((c s : Uuid)
            → is_subscribed b' c s
              ≡ (final p.sync.baseline && is_pair channel_id session_id c s || is_subscribed b c s))
  unfolding deliver_sync
  deliver_sync_effect p h =
      let d = deliver_session_sync p.sync in
      let received = record p.channel { received = d ∷ p.channel.received } in
      let called = record b { channels = insert channel_id received b.channels } in
      (
        ground arith,
        unfold add_subscriber in
            ground
              (arith, get-insert channel_id channel_id received b.channels, ==_self channel_id),
        λ c s. ground (
          arith,
          add_subscriber-is_subscribed channel_id session_id c s called,
          is_subscribed-called channel_id b p.channel d c s,
        ),
      )

  -- A page was prepared for a registered Channel, if `sync_session` succeeds with one.
  sync_session_inversion :
      (flags : Flags) (requested max_events : ℕ) (a : SessionAggregate)
      → get session_id b.sessions ≡ some a
      → is_subscribed b channel_id session_id ≡ false
      → sync_session flags ports channel_id session_id requested max_events b ≡ (b', ok o)
      → (channel : RegisteredChannel) × (p : Syncing) × (get channel_id b.channels ≡ some channel)
        × (prepare_sync flags channel_id session_id requested max_events a channel b ≡ ok p)
        × (deliver_sync ports channel_id session_id p b ≡ (b', ok o))
  unfolding sync_session sync_existing
  sync_session_inversion flags requested max_events a found new h =
      elim (Option-cases (get channel_id b.channels)) [
        | inl unknown ↦ ground arith
        | inr (channel, known) ↦
            let prepared =
              prepare_sync flags channel_id session_id requested max_events a channel b in
            elim (Result-cases prepared) [
              | inr (x, failed) ↦ ground arith
              | inl (p, ready) ↦ (channel, p, known, ready, ground arith)
            ]
      ]

-- A call of `sync_session` that succeeds for a Channel that is not yet subscribed hands one page to
-- this Channel, and reports it: the events of the log after the requested cursor, in order and at
-- most as many as asked for; it is reset to the beginning of the log exactly if the retained window
-- does not reach back to the cursor. A page that ends with the log is reported as the final one and
-- subscribes the Channel; any other is full, so that it moves the cursor by exactly as many events
-- as were asked for, and leaves all subscriptions as they were.
pub sync_session-Delivers :
    (flags : Flags) (ports : Ports) (channel_id session_id : Uuid) (requested max_events : ℕ)
    (b b' : Bridge) (a : SessionAggregate) (log : List AgentEvent) (o : SessionSyncOutcome)
    → get session_id b.sessions ≡ some a
    → Reaches b.session_config log a
    → is_subscribed b channel_id session_id ≡ false
    → sync_session flags ports channel_id session_id requested max_events b ≡ (b', ok o)
    → (sync : ChannelSessionSync) × Delivers b.session_config log requested max_events sync
      × (o ≡ outcome_of sync)
      × ((channel : RegisteredChannel) × (get channel_id b.channels ≡ some channel)
          × (get channel_id b'.channels
              ≡ some (record channel { received = deliver_session_sync sync ∷ channel.received })))
      × ((c s : Uuid)
          → is_subscribed b' c s
            ≡ (o.subscribed && is_pair channel_id session_id c s || is_subscribed b c s))
sync_session-Delivers flags ports channel_id session_id requested max_events b b' a log o found r
      new h =
    let (channel, p, known, ready, done) =
      sync_session_inversion ports channel_id session_id b b' o flags requested max_events a found
        new h in
    let (reported, sent, subscribed) =
      deliver_sync_effect ports channel_id session_id b b' o p done in
    let same =
      prepare_sync-channel b channel_id session_id flags requested max_events a channel p ready in
    (
      p.sync,
      prepare_sync-Delivers flags channel_id session_id requested max_events b a channel p ready log
          r,
      reported,
      (p.channel, known ∙ ap some (sym same), sent),
      λ c s. ground (arith, subscribed c s),
    )
