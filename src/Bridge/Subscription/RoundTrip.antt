-- ===== src/Bridge/Subscription/RoundTrip.antt =====
-- `subscribe` of agentpulse-bridge/src/bridge.rs and its undoing by `unsubscribe`.
use agentpulse_rs.Common.{
  ◌≡◌, refl, ap, ◌∙◌, true, false, [], Option, none, some, ok, arith, is_ok, inl, inr, Option-cases,
  Result-cases, ==_self,
}
use agentpulse_rs.Common.Map.{
  get, insert, remove, contains_key, get-insert, get-Each, remove_absent,
}
use agentpulse_rs.Common.Map.Laws.{contains_key-insert, insert-insert, insert_same, remove-insert}
use agentpulse_rs.Domain.Session.{Uuid}
use agentpulse_rs.Domain.Capability.{Flags}
use agentpulse_rs.Bridge.State.{
  Ports, Bridge, IdSet, send, deliver_session_baseline, set_or_empty, subscriber_set, is_subscribed,
}
use agentpulse_rs.Bridge.Subscription.{
  Subscribing, add_subscriber, prepare_subscription, activate, subscribe_existing, subscribe,
  drop_subscriber, unsubscribe, unsubscribed,
}
use agentpulse_rs.Bridge.Consistent.Subscribing.{prepare_subscription-channel}
use agentpulse_rs.Bridge.Consistent.{Subscribes, IsConsistent}

-- To add a new subscriber and drop it again, on the subscriptions alone.
drop-add :
    (b : Bridge) (c : IsConsistent b) (channel_id session_id : Uuid) (o : Option IdSet)
    → get session_id b.subscriptions ≡ o
    → contains_key channel_id (set_or_empty o) ≡ false
    → let set = insert channel_id tt (set_or_empty o) in
      drop_subscriber channel_id session_id (some set) (insert session_id set b.subscriptions)
      ≡ b.subscriptions
unfolding drop_subscriber remove
drop-add b c channel_id session_id none q h =
    let set : IdSet = insert channel_id tt [] in
    let m = b.subscriptions in
    let gone : remove channel_id set ≡ [] = remove-insert {V = Unit {0}} channel_id tt [] in
    ground (arith, gone, remove-insert session_id set m, remove_absent session_id m)
drop-add b c channel_id session_id (some set) q h =
    let m = b.subscriptions in
    let set' = insert channel_id tt set in
    let absent : get channel_id set ≡ none = ground arith in
    let back : remove channel_id set' ≡ set =
      remove-insert channel_id tt set ∙ remove_absent channel_id set absent in
    let held =
      get-Each (Subscribes b.sessions b.channels) session_id m set c.subscriptions_held q in
    ground (
      arith,
      back,
      held.not_empty,
      insert-insert session_id set set' m,
      insert_same session_id set m c.subscriptions_sorted,
    )

-- What a subscription that succeeds leaves behind.
abbrev Added : Uuid → Uuid → Bridge → Bridge → Type 0
Added channel_id session_id b b' =
    (b'.subscriptions ≡ (add_subscriber channel_id session_id b).subscriptions)
    × (contains_key channel_id b'.channels ≡ true)
    × (contains_key session_id b'.sessions ≡ true)

module _ (flags : Flags) (ports : Ports) (channel_id session_id : Uuid) (b : Bridge)
    (c : IsConsistent b) where
  activate-Added :
      (p : Subscribing)
      → get channel_id b.channels ≡ some p.channel
      → contains_key session_id b.sessions ≡ true
      → let done = activate flags ports channel_id session_id p b in
        is_ok done.1 ≡ true → Added channel_id session_id b done.0
  unfolding activate add_subscriber
  activate-Added p found existing h = ground (
    arith,
    contains_key-insert channel_id channel_id
        (send ports channel_id (deliver_session_baseline p.baseline) p.channel).0 b.channels,
    ==_self channel_id,
  )

  subscribe-Added :
      is_subscribed b channel_id session_id ≡ false
      → let done = subscribe flags ports channel_id session_id b in
        is_ok done.1 ≡ true → Added channel_id session_id b done.0
  unfolding subscribe subscribe_existing
  subscribe-Added new h = elim (Option-cases (get session_id b.sessions)) [
    | inl absent ↦ ground arith
    | inr (aggregate, found) ↦
        elim (Result-cases (prepare_subscription flags channel_id session_id aggregate b)) [
          | inr (x, failed) ↦ ground arith
          | inl (p, ready) ↦
              let known =
                prepare_subscription-channel b channel_id session_id flags aggregate p ready in
              ground (arith, activate-Added p known)
        ]
  ]

  unsubscribe-Added :
      (b' : Bridge)
      → Added channel_id session_id b b'
      → is_subscribed b channel_id session_id ≡ false
      → let done = unsubscribe channel_id session_id b' in
        (done.0.subscriptions ≡ b.subscriptions) × (done.1 ≡ ok unsubscribed)
  unfolding unsubscribe is_subscribed add_subscriber
  unsubscribe-Added b' a new =
      let set : IdSet = insert channel_id tt (subscriber_set b session_id) in
      let m = b.subscriptions in
      let listed : get session_id (insert session_id set m) ≡ some set =
        ground (arith, get-insert session_id session_id set m, ==_self session_id) in
      let held : get session_id b'.subscriptions ≡ some set = ap (get session_id) a.0 ∙ listed in
      let undone = drop-add b c channel_id session_id (get session_id m) refl new in
      ground (
        arith,
        held,
        undone,
        get-insert channel_id channel_id tt (subscriber_set b session_id),
        ==_self channel_id,
      )

  -- To unsubscribe undoes a subscription: after a new one that succeeded, `unsubscribe` succeeds,
  -- reports that there was one, and the subscriptions are those of before, entry for entry.
  pub unsubscribe-subscribe :
      is_subscribed b channel_id session_id ≡ false
      → is_ok (subscribe flags ports channel_id session_id b).1 ≡ true
      → let done = subscribe flags ports channel_id session_id b in
        let undone = unsubscribe channel_id session_id done.0 in
        (undone.0.subscriptions ≡ b.subscriptions) × (undone.1 ≡ ok unsubscribed)
  unsubscribe-subscribe new h =
      unsubscribe-Added (subscribe flags ports channel_id session_id b).0 (subscribe-Added new h)
        new
