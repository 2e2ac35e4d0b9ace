-- ===== src/Bridge/Consistent/Subscriptions.antt =====
-- That the subscription operations of agentpulse-bridge/src/bridge.rs keep the Bridge
-- consistent.
use agentpulse_rs.Common.{
  ◌≡◌, refl, false, [], ◌∷◌, Option, none, some, arith, inl, inr, Bool-cases,
}
use agentpulse_rs.Common.Map.{
  Map, get, insert, remove, contains_key, IsSorted, Each, get-Each, insert-Each, insert-IsSorted,
  remove-Each, remove-IsSorted, RisesFrom, RisesFrom-IsSorted, RisesFrom-mono,
}
use agentpulse_rs.Domain.Value.{is_empty}
use agentpulse_rs.Domain.Session.{Uuid}
use agentpulse_rs.Aggregate.State.{SessionAggregate}
use agentpulse_rs.Bridge.State.{
  Bridge, RegisteredChannel, IdSet, ChannelDelivery, subscriber_set, set_or_empty,
}
use agentpulse_rs.Bridge.Events.Deliveries.{SameRegistrations-insert}
use agentpulse_rs.Bridge.Subscription.{
  add_subscriber, drop_subscriber, unsubscribe, retain_others, unsubscribe_channel,
}
use agentpulse_rs.Bridge.Consistent.{Has, Subscribes, IsConsistent}
use agentpulse_rs.Bridge.Consistent.Registrations.{
  same_channels-IsConsistent, subscriptions-IsConsistent,
}

module _ (sessions : Map SessionAggregate) (channels : Map RegisteredChannel) where
  -- The set without one Channel, if another is left.
  removed-Subscribes :
      (channel_id k : Uuid) (set : IdSet)
      → is_empty (remove channel_id set) ≡ false
      → Subscribes sessions channels k set
      → Subscribes sessions channels k (remove channel_id set)
  removed-Subscribes channel_id k set n h = record {
    existing = h.existing;
    not_empty = n;
    ordered = remove-IsSorted channel_id set h.ordered;
    registered = remove-Each (λ i _. Has channels i) channel_id set h.registered;
  }

  retain_others-Each :
      (channel_id : Uuid) (m : Map IdSet)
      → Each (Subscribes sessions channels) m
      → Each (Subscribes sessions channels) (retain_others channel_id m).0
  unfolding retain_others
  retain_others-Each channel_id [] h = tt
  retain_others-Each channel_id ((k, set) ∷ m) h =
      let rest = retain_others-Each channel_id m h.1 in
      elim (Bool-cases (is_empty (remove channel_id set))) [
        | inl gone ↦ rw gone rest
        | inr left ↦ rw left (removed-Subscribes channel_id k set left h.0, rest)
      ]

retain_others-RisesFrom :
    (channel_id k : Uuid) (m : Map IdSet)
    → RisesFrom k m
    → RisesFrom k (retain_others channel_id m).0
unfolding retain_others
retain_others-RisesFrom channel_id k [] r = tt
retain_others-RisesFrom channel_id k ((j, set) ∷ m) r = ground (
  arith,
  retain_others-RisesFrom channel_id j m,
  RisesFrom-mono k j (retain_others channel_id m).0,
)

retain_others-IsSorted :
    (channel_id : Uuid) (m : Map IdSet) → IsSorted m → IsSorted (retain_others channel_id m).0
unfolding retain_others
retain_others-IsSorted channel_id [] s = tt
retain_others-IsSorted channel_id ((k, set) ∷ m) s = ground (
  arith,
  retain_others-RisesFrom channel_id k m,
  RisesFrom-IsSorted k (retain_others channel_id m).0,
)

module _ (b : Bridge) (c : IsConsistent b) where
  -- One call of a registered Channel.
  pub called-IsConsistent :
      (channel_id : Uuid) (channel : RegisteredChannel) (d : ChannelDelivery)
      → get channel_id b.channels ≡ some channel
      → let called = record channel { received = d ∷ channel.received } in
        IsConsistent (record b { channels = insert channel_id called b.channels })
  called-IsConsistent channel_id channel d found =
      let called = record channel { received = d ∷ channel.received } in
      same_channels-IsConsistent b c (insert channel_id called b.channels)
        (SameRegistrations-insert channel_id channel called b.channels found refl)

  insert_not_empty : (channel_id : Uuid) (set : IdSet) → is_empty (insert channel_id tt set) ≡ false
  unfolding insert
  insert_not_empty channel_id [] = refl
  insert_not_empty channel_id ((k, u) ∷ set) = ground arith

  added-Subscribes :
      (channel_id session_id : Uuid)
      → Has b.channels channel_id
      → Has b.sessions session_id
      → (o : Option IdSet) → get session_id b.subscriptions ≡ o
      → Subscribes b.sessions b.channels session_id (insert channel_id tt (set_or_empty o))
  added-Subscribes channel_id session_id h k none q = record {
    existing = k;
    not_empty = insert_not_empty channel_id [];
    ordered = insert-IsSorted channel_id tt [] tt;
    registered = insert-Each (λ i _. Has b.channels i) channel_id tt [] h tt;
  }
  added-Subscribes channel_id session_id h k (some set) q =
      let old =
        get-Each (Subscribes b.sessions b.channels) session_id b.subscriptions set
          c.subscriptions_held q in
      record {
        existing = k;
        not_empty = insert_not_empty channel_id set;
        ordered = insert-IsSorted channel_id tt set old.ordered;
        registered = insert-Each (λ i _. Has b.channels i) channel_id tt set h old.registered;
      }

  pub add_subscriber-IsConsistent :
      (channel_id session_id : Uuid)
      → Has b.channels channel_id
      → Has b.sessions session_id
      → IsConsistent (add_subscriber channel_id session_id b)
  unfolding add_subscriber
  add_subscriber-IsConsistent channel_id session_id h k =
      let set = insert channel_id tt (subscriber_set b session_id) in
      subscriptions-IsConsistent b c (insert session_id set b.subscriptions)
        (insert-IsSorted session_id set b.subscriptions c.subscriptions_sorted)
        (insert-Each (Subscribes b.sessions b.channels) session_id set b.subscriptions
          (added-Subscribes channel_id session_id h k (get session_id b.subscriptions) refl)
          c.subscriptions_held)

  drop_subscriber-IsConsistent :
      (channel_id session_id : Uuid) (o : Option IdSet)
      → get session_id b.subscriptions ≡ o
      → IsConsistent
          (record b { subscriptions = drop_subscriber channel_id session_id o b.subscriptions })
  unfolding drop_subscriber
  drop_subscriber-IsConsistent channel_id session_id none q = c
  drop_subscriber-IsConsistent channel_id session_id (some set) q =
      let P = Subscribes b.sessions b.channels in
      let set' = remove channel_id set in
      elim (Bool-cases (is_empty set')) [
        | inl gone ↦ rw gone (
            subscriptions-IsConsistent b c (remove session_id b.subscriptions)
              (remove-IsSorted session_id b.subscriptions c.subscriptions_sorted)
              (remove-Each P session_id b.subscriptions c.subscriptions_held))
        | inr left ↦
            let old = get-Each P session_id b.subscriptions set c.subscriptions_held q in
            rw left (
              subscriptions-IsConsistent b c (insert session_id set' b.subscriptions)
                (insert-IsSorted session_id set' b.subscriptions c.subscriptions_sorted)
                (insert-Each P session_id set' b.subscriptions
                  (removed-Subscribes b.sessions b.channels channel_id session_id set left old)
                  c.subscriptions_held))
      ]

  pub unsubscribe-IsConsistent :
      (channel_id session_id : Uuid) → IsConsistent (unsubscribe channel_id session_id b).0
  unfolding unsubscribe
  unsubscribe-IsConsistent channel_id session_id =
      let dropped =
        drop_subscriber-IsConsistent channel_id session_id (get session_id b.subscriptions) refl in
      elim (Bool-cases (contains_key channel_id b.channels)) [
        | inr unknown ↦ rw (unknown, unsubscribe) c
        | inl known ↦ elim (Bool-cases (contains_key session_id b.sessions)) [
          | inr absent ↦ rw (known, absent, unsubscribe) c
          | inl found ↦ rw (known, found, unsubscribe) dropped
        ]
      ]

  pub unsubscribe_channel-IsConsistent :
      (channel_id : Uuid) → IsConsistent (unsubscribe_channel channel_id b).0
  unfolding unsubscribe_channel
  unsubscribe_channel-IsConsistent channel_id =
      let P = Subscribes b.sessions b.channels in
      elim (Bool-cases (contains_key channel_id b.channels)) [
        | inr unknown ↦ rw (unknown, unsubscribe_channel) c
        | inl known ↦
            rw (known, unsubscribe_channel)
              (subscriptions-IsConsistent b c (retain_others channel_id b.subscriptions).0
                (retain_others-IsSorted channel_id b.subscriptions c.subscriptions_sorted)
                (retain_others-Each b.sessions b.channels channel_id b.subscriptions
                  c.subscriptions_held))
      ]
