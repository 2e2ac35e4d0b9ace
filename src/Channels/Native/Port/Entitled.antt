-- ===== src/Channels/Native/Port/Entitled.antt =====
-- For which sessions agentpulse-channels/native/src/port.rs chooses a context.
use agentpulse_rs.Common.{
  ◌≡◌, refl, subst, Bool, true, false, ◌||◌, Option, none, some, ok, err, ◌==◌, if◌then◌else◌,
  arith,
}
use agentpulse_rs.Common.Map.{contains_key}
use agentpulse_rs.Domain.Value.{is_empty}
use agentpulse_rs.Domain.Session.{Uuid}
use agentpulse_rs.Routing.{InteractionRoute, ChannelEventRoute, observe_only, interaction}
use agentpulse_rs.Channels.Native.Error.{session_not_subscribed}
use agentpulse_rs.Channels.Native.Message.{NativeDeliveryContext, from_core}
use agentpulse_rs.Channels.Native.RoundTrip.{IsContext}
use agentpulse_rs.Channels.Native.State.{PendingSubscription, ActiveClient}
use agentpulse_rs.Channels.Native.Port.Context.{
  PortResult, live, subscribed_context, pending_context, context_among, delivery_context,
}
use agentpulse_rs.Channels.Native.Port.Queued.{is_awaited}

-- The client waits for a subscription to the session, or has one.
abbrev pub is_entitled : ActiveClient → Uuid → Bool
is_entitled c k = is_awaited k c.pending || contains_key k c.subscriptions

same-IsContext :
    (x y : NativeDeliveryContext)
    → IsContext x
    → Path (PortResult NativeDeliveryContext) (ok x) (ok y)
    → IsContext y
same-IsContext x y v e = let same : x ≡ y = cc in subst IsContext same v

live-IsContext :
    (route : ChannelEventRoute) (context : NativeDeliveryContext)
    → live route ≡ ok context
    → IsContext context
unfolding from_core
live-IsContext observe_only context e = same-IsContext _ context tt e
live-IsContext (interaction InteractionRoute.read_only) context e = same-IsContext _ context tt e
live-IsContext (interaction InteractionRoute.interactive) context e = same-IsContext _ context tt e

module _ (c : ActiveClient) (k : Uuid) where
  subscribed_entitled :
      (route : Option ChannelEventRoute) (context : NativeDeliveryContext)
      → subscribed_context c k route ≡ ok context
      → IsContext context × (contains_key k c.subscriptions ≡ true)
  subscribed_entitled route context e = within route (contains_key k c.subscriptions) e
    where
      within :
          (o : Option ChannelEventRoute) (b : Bool)
          → (if b
              then elim o [ none ↦ ok NativeDeliveryContext.live_session | some r ↦ live r ]
              else err (session_not_subscribed k))
            ≡ ok context
          → IsContext context × (b ≡ true)
      within none true h = (same-IsContext _ context tt h, refl)
      within (some r) true h = (live-IsContext r context h, refl)
      within o false h = absurd (ground arith)

  pending_entitled :
      (p : PendingSubscription) (route : Option ChannelEventRoute) (context : NativeDeliveryContext)
      → pending_context p route ≡ ok context
      → IsContext context
  pending_entitled p (some r) context e = live-IsContext r context e
  pending_entitled p none context e = within (is_empty p.frames) e
    where
      within :
          (b : Bool)
          → Path
              (PortResult NativeDeliveryContext)
              (if b
                then ok (NativeDeliveryContext.subscription_session p.request_id)
                else ok NativeDeliveryContext.live_session)
              (ok context)
          → IsContext context
      within true h = same-IsContext _ context tt h
      within false h = same-IsContext _ context tt h

  -- A context is chosen only for a session that the client waits for or has.
  pub delivery_context-ok :
      (route : Option ChannelEventRoute) (context : NativeDeliveryContext)
      → delivery_context c k route ≡ ok context
      → IsContext context × (is_entitled c k ≡ true)
  unfolding delivery_context
  delivery_context-ok route context e = among c.pending refl e
    where
      tested :
          (p : PendingSubscription) (b : Bool)
          → (if b then pending_context p route else subscribed_context c k route) ≡ ok context
          → IsContext context × ((b || contains_key k c.subscriptions) ≡ true)
      tested p true h = (pending_entitled p route context h, refl)
      tested p false h = subscribed_entitled route context h

      among :
          (o : Option PendingSubscription)
          → c.pending ≡ o
          → context_among c k route o ≡ ok context
          → IsContext context × ((is_awaited k o || contains_key k c.subscriptions) ≡ true)
      among none there h = subscribed_entitled route context h
      among (some p) there h = tested p (p.session_id == k) h
