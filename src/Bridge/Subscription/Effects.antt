-- ===== src/Bridge/Subscription/Effects.antt =====
-- Who is subscribed to what after the subscription operations of agentpulse-bridge/src/bridge.rs.
use agentpulse_rs.Common.{
  ◌≡◌, refl, ap, subst, ==_iff, Bool, true, false, not, ◌&&◌, ◌||◌, [], ◌∷◌, Option, none, some,
  is_ok, arith, inl, inr, Option-cases, Result-cases, Bool-cases, ◌==◌,
}
use agentpulse_rs.Common.Map.{
  Map, get, insert, remove, contains_key, get-insert, get-remove, IsSorted, RisesFrom-IsSorted,
}
use agentpulse_rs.Common.Map.Laws.{contains_key-insert, get-below}
use agentpulse_rs.Domain.Value.{is_empty}
use agentpulse_rs.Domain.Session.{Uuid}
use agentpulse_rs.Domain.Capability.{Flags}
use agentpulse_rs.Aggregate.State.{SessionAggregate}
use agentpulse_rs.Bridge.State.{
  Ports, Bridge, IdSet, deliver_session_baseline, RegisteredChannel, ChannelDelivery, set_or_empty,
  is_subscribed,
}
use agentpulse_rs.Bridge.Consistent.Subscribing.{called}
use agentpulse_rs.Bridge.Subscription.{
  Subscribing, add_subscriber, prepare_subscription, activate, subscribe_existing, subscribe,
  drop_subscriber, unsubscribe, retain_others, unsubscribe_channel,
}

-- Whether a Channel is in an entry of the subscriptions.
abbrev pub listed : Uuid → Option IdSet → Bool
listed c o = contains_key c (set_or_empty o)

-- The subscription of `channel_id` to `session_id`, as a test on a pair.
abbrev pub is_pair : Uuid → Uuid → Uuid → Uuid → Bool
is_pair channel_id session_id c s = channel_id == c && session_id == s

pub add_subscriber-is_subscribed :
    (channel_id session_id c s : Uuid) (b : Bridge)
    → is_subscribed (add_subscriber channel_id session_id b) c s
      ≡ (is_pair channel_id session_id c s || is_subscribed b c s)
unfolding is_subscribed add_subscriber
add_subscriber-is_subscribed channel_id session_id c s b =
    let set = set_or_empty (get session_id b.subscriptions) in
    ground (
      arith,
      get-insert session_id s (insert channel_id tt set) b.subscriptions,
      contains_key-insert channel_id c tt set,
      ap (λ k. set_or_empty (get k b.subscriptions)),
    )

empty_lists_none : (c : Uuid) (set : IdSet) → is_empty set ≡ true → contains_key c set ≡ false
unfolding get
empty_lists_none c [] h = refl
empty_lists_none c (x ∷ set) h = cc

pub drop_subscriber-listed :
    (channel_id session_id c s : Uuid) (m : Map IdSet) (o : Option IdSet)
    → get session_id m ≡ o
    → listed c (get s (drop_subscriber channel_id session_id o m))
      ≡ (not (is_pair channel_id session_id c s) && listed c (get s m))
unfolding drop_subscriber get
drop_subscriber-listed channel_id session_id c s m none h = elim (Bool-cases (session_id == s)) [
  | inr other ↦ ground arith
  | inl same ↦
      let absent : get s m ≡ none = subst (λ k. get k m ≡ none) ((==_iff session_id s).0 same) h in
      rw absent (ground arith)
]
drop_subscriber-listed channel_id session_id c s m (some set) h =
    let set' = remove channel_id set in
    ground (
      arith,
      get-insert session_id s set' m,
      get-remove session_id s m,
      get-remove channel_id c set,
      empty_lists_none c set',
    )

pub retain_others-listed :
    (channel_id c s : Uuid) (m : Map IdSet)
    → IsSorted m
    → listed c (get s (retain_others channel_id m).0)
      ≡ (not (channel_id == c) && listed c (get s m))
unfolding retain_others get
retain_others-listed channel_id c s [] h = ground arith
retain_others-listed channel_id c s ((k, set) ∷ m) h = ground (
  arith,
  retain_others-listed channel_id c s m,
  RisesFrom-IsSorted k m,
  get-below s k m,
  get-remove channel_id c set,
  empty_lists_none c (remove channel_id set),
)

-- A call of a Channel changes no subscription.
pub is_subscribed-called :
    (channel_id : Uuid) (b : Bridge) (channel : RegisteredChannel) (d : ChannelDelivery)
    (c s : Uuid)
    → is_subscribed (called channel_id channel d b) c s ≡ is_subscribed b c s
unfolding is_subscribed
is_subscribed-called channel_id b channel d c s = refl

module _ (flags : Flags) (ports : Ports) (channel_id session_id : Uuid) (b : Bridge) where
  activate-is_subscribed :
      (p : Subscribing) (c s : Uuid)
      → let done = activate flags ports channel_id session_id p b in
        is_subscribed done.0 c s
        ≡ (is_ok done.1 && is_pair channel_id session_id c s || is_subscribed b c s)
  unfolding activate
  activate-is_subscribed p c s =
      let d = deliver_session_baseline p.baseline in
      let after = called channel_id p.channel d b in
      ground (
        arith,
        add_subscriber-is_subscribed channel_id session_id c s b,
        add_subscriber-is_subscribed channel_id session_id c s after,
        is_subscribed-called channel_id b p.channel d c s,
      )

  subscribe_existing-is_subscribed :
      (aggregate : SessionAggregate) (c s : Uuid)
      → let done = subscribe_existing flags ports channel_id session_id aggregate b in
        is_subscribed done.0 c s
        ≡ (is_ok done.1 && is_pair channel_id session_id c s || is_subscribed b c s)
  unfolding subscribe_existing
  subscribe_existing-is_subscribed aggregate c s =
      elim (Result-cases (prepare_subscription flags channel_id session_id aggregate b)) [
        | inr (x, failed) ↦ ground (arith, already)
        | inl (p, ready) ↦ ground (arith, already, activate-is_subscribed p c s)
      ]
    where
      already :
          is_subscribed b channel_id session_id ≡ true
          → is_pair channel_id session_id c s ≡ true
          → is_subscribed b c s ≡ true
      already h e =
          let here : channel_id ≡ c = ground arith in
          let there : session_id ≡ s = ground arith in rw (← here, ← there) h

  -- `subscribe` that succeeds, in whichever way, makes this Channel a subscriber of this session;
  -- one that fails subscribes nobody. Every other subscription is as before.
  pub subscribe-is_subscribed :
      (c s : Uuid)
      → let done = subscribe flags ports channel_id session_id b in
        is_subscribed done.0 c s
        ≡ (is_ok done.1 && is_pair channel_id session_id c s || is_subscribed b c s)
  unfolding subscribe
  subscribe-is_subscribed c s = elim (Option-cases (get session_id b.sessions)) [
    | inl absent ↦ ground arith
    | inr (aggregate, found) ↦ ground (arith, subscribe_existing-is_subscribed aggregate c s)
  ]

-- `unsubscribe` that succeeds takes this Channel off this session; one that fails changes no
-- subscription. Every other subscription is as before.
pub unsubscribe-is_subscribed :
    (channel_id session_id : Uuid) (b : Bridge) (c s : Uuid)
    → let done = unsubscribe channel_id session_id b in
      is_subscribed done.0 c s
      ≡ (not (is_ok done.1 && is_pair channel_id session_id c s) && is_subscribed b c s)
unfolding unsubscribe is_subscribed
unsubscribe-is_subscribed channel_id session_id b c s = ground (
  arith,
  drop_subscriber-listed channel_id session_id c s b.subscriptions (get session_id b.subscriptions)
      refl,
)

-- `unsubscribe_channel` that succeeds takes this Channel off every session; one that fails changes no
-- subscription. The other Channels' subscriptions are as before. The subscriptions are taken to be
-- in key order.
pub unsubscribe_channel-is_subscribed :
    (channel_id : Uuid) (b : Bridge) (c s : Uuid)
    → IsSorted b.subscriptions
    → let done = unsubscribe_channel channel_id b in
      is_subscribed done.0 c s ≡ (not (is_ok done.1 && channel_id == c) && is_subscribed b c s)
unfolding unsubscribe_channel is_subscribed
unsubscribe_channel-is_subscribed channel_id b c s h =
    ground (arith, retain_others-listed channel_id c s b.subscriptions)
