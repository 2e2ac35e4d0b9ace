-- ===== src/Bridge/Sync/CatchUp.antt =====
-- That catching up by `sync_session` of agentpulse-bridge/src/bridge.rs ends: calls that continue from
-- the cursor that the last one reported subscribe the Channel.
use agentpulse_rs.Common.{
  ℕ, zero, suc, ◌+◌, ◌-◌, ◌<◌, ◌≡◌, sym, ap, ◌∙◌, subst, Bool, true, false, List, some, Result, ok,
  err, arith, inl, inr, ◌⊎◌, Result-cases, if◌then◌else◌, length, ==_self,
}
use agentpulse_rs.Common.Map.{get}
use agentpulse_rs.Domain.Session.{Uuid}
use agentpulse_rs.Domain.Capability.{Flags}
use agentpulse_rs.Domain.Event.{AgentEvent}
use agentpulse_rs.Aggregate.State.{SessionAggregate}
use agentpulse_rs.Aggregate.Log.{Reaches}
use agentpulse_rs.Bridge.State.{Ports, Bridge, is_subscribed}
use agentpulse_rs.Bridge.Subscription.{SubscriptionError, add_subscriber}
use agentpulse_rs.Bridge.Subscription.Effects.{is_pair}
use agentpulse_rs.Bridge.Sync.{SessionSyncOutcome, sync_session, sync_existing, deliver_sync}
use agentpulse_rs.Bridge.Sync.Progress.{is_covered}
use agentpulse_rs.Bridge.Sync.Delivered.{sync_session-Delivers}

module _ (flags : Flags) (ports : Ports) (channel_id session_id : Uuid) (max_events : ℕ) where
  -- Calls with the cursor of the page before, `calls` of them at most, until one subscribes the
  -- Channel or fails; `false` means that the calls ran out.
  unfoldable pub catch_up : ℕ → ℕ → Bridge → Bridge × Result SubscriptionError Bool
  catch_up zero after b = (b, ok false)
  catch_up (suc calls) after b =
      let (b', r) = sync_session flags ports channel_id session_id after max_events b in
      elim r [
        | err x ↦ (b', err x)
        | ok o ↦ elim o.subscribed [
          | true ↦ (b', ok true)
          | false ↦ catch_up calls o.through_sequence b'
        ]
      ]

  -- A page changes no session.
  sync_session_frame :
      (after : ℕ) (b : Bridge)
      → let b' = (sync_session flags ports channel_id session_id after max_events b).0 in
        (b'.sessions ≡ b.sessions) × (b'.session_config ≡ b.session_config)
  unfolding sync_session sync_existing deliver_sync add_subscriber
  sync_session_frame after b = ground arith

  sync_session_positive :
      (after : ℕ) (b b' : Bridge) (o : SessionSyncOutcome)
      → sync_session flags ports channel_id session_id after max_events b ≡ (b', ok o)
      → 0 < max_events
  unfolding sync_session
  sync_session_positive after b b' o h = ground arith

  -- It ends with a subscription, or with the error of a call.
  abbrev pub Ends : Bridge × Result SubscriptionError Bool → Type 0
  Ends p =
      ((p.1 ≡ ok true) × (is_subscribed p.0 channel_id session_id ≡ true))
      ⊎ ((x : SubscriptionError) × (p.1 ≡ err x))

  -- What a page that is not the last leaves for the next call.
  abbrev Continues : Bridge → SessionAggregate → List AgentEvent → ℕ → SessionSyncOutcome → Type 0
  Continues b a log from o =
      (get session_id b.sessions ≡ some a)
      × Reaches b.session_config log a
      × (is_subscribed b channel_id session_id ≡ false)
      × (is_covered b.session_config log o.through_sequence ≡ true)
      × (from < o.through_sequence)
      × (o.through_sequence < length log)

  page_step :
      (b b' : Bridge) (a : SessionAggregate) (log : List AgentEvent) (after : ℕ)
      (o : SessionSyncOutcome)
      → get session_id b.sessions ≡ some a
      → Reaches b.session_config log a
      → is_subscribed b channel_id session_id ≡ false
      → sync_session flags ports channel_id session_id after max_events b ≡ (b', ok o)
      → ((o.subscribed ≡ true) × (is_subscribed b' channel_id session_id ≡ true))
        ⊎ ((o.subscribed ≡ false)
            × Continues b' a log (if is_covered b.session_config log after then after else 0) o)
  page_step b b' a log after o found r new h =
      let (sync, d, reported, sent, subs) =
        sync_session-Delivers flags ports channel_id session_id after max_events b b' a log o found
          r new h in
      let kept = sync_session_frame after b in
      let sessions : b'.sessions ≡ b.sessions = ap (λ p. p.0.sessions) (sym h) ∙ kept.0 in
      let config : b.session_config ≡ b'.session_config =
        sym (ap (λ p. p.0.session_config) (sym h) ∙ kept.1) in
      let same : is_pair channel_id session_id channel_id session_id ≡ true =
        ground (arith, ==_self channel_id, ==_self session_id) in
      let here = subs channel_id session_id in
      let positive = sync_session_positive after b b' o h in
      elim d.reached [
        | inl (last, whole) ↦
            let final_page : o.subscribed ≡ true = ground arith in
            inl (final_page, ground (arith, here, same))
        | inr (more, moved, short) ↦
            let open_page : o.subscribed ≡ false = ground arith in
            let covered : is_covered b.session_config log o.through_sequence ≡ true =
              ground (arith, d.covered) in
            inr (
              open_page,
              (
                ap (get session_id) sessions ∙ found,
                subst (λ c. Reaches c log a) config r,
                ground (arith, here),
                subst (λ c. is_covered c log o.through_sequence ≡ true) config covered,
                ground (arith, d.starts, d.resets),
                ground arith,
              ),
            )
      ]

  catch_up_covered :
      (calls after : ℕ) (b : Bridge) (a : SessionAggregate) (log : List AgentEvent)
      → get session_id b.sessions ≡ some a
      → Reaches b.session_config log a
      → is_subscribed b channel_id session_id ≡ false
      → is_covered b.session_config log after ≡ true
      → length log - after < calls
      → Ends (catch_up calls after b)
  unfolding catch_up
  catch_up_covered zero after b a log found r new cov lt = elim lt [ ]
  catch_up_covered (suc calls) after b a log found r new cov lt =
      let p = sync_session flags ports channel_id session_id after max_events b in
      elim (Result-cases p.1) [
        | inr (x, failed) ↦ inr (x, ground arith)
        | inl (o, done) ↦ elim (page_step b p.0 a log after o found r new (ground arith)) [
          | inl (last, subscribed) ↦ inl (ground arith, ground arith)
          | inr (more, (found', r', new', cov', up, short)) ↦
              let rest =
                catch_up_covered calls o.through_sequence p.0 a log found' r' new' cov'
                  (ground (arith, up)) in
              subst Ends (ground arith) rest
        ]
      ]

  -- Catching up ends, whatever cursor it starts from: with two calls more than the log has events,
  -- a Channel that is not subscribed yet either becomes subscribed or sees a call fail. The calls
  -- never run out.
  pub catch_up-Ends :
      (calls after : ℕ) (b : Bridge) (a : SessionAggregate) (log : List AgentEvent)
      → get session_id b.sessions ≡ some a
      → Reaches b.session_config log a
      → is_subscribed b channel_id session_id ≡ false
      → length log + 1 < calls
      → Ends (catch_up calls after b)
  unfolding catch_up
  catch_up-Ends zero after b a log found r new lt = elim lt [ ]
  catch_up-Ends (suc calls) after b a log found r new lt =
      let p = sync_session flags ports channel_id session_id after max_events b in
      elim (Result-cases p.1) [
        | inr (x, failed) ↦ inr (x, ground arith)
        | inl (o, done) ↦ elim (page_step b p.0 a log after o found r new (ground arith)) [
          | inl (last, subscribed) ↦ inl (ground arith, ground arith)
          | inr (more, (found', r', new', cov', up, short)) ↦
              let rest =
                catch_up_covered calls o.through_sequence p.0 a log found' r' new' cov'
                  (ground arith) in
              subst Ends (ground arith) rest
        ]
      ]
