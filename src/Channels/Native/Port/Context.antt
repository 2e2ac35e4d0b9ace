-- ===== src/Channels/Native/Port/Context.antt =====
-- agentpulse-channels/native/src/port.rs: the context that a delivery is sent with.
use agentpulse_rs.Common.{Option, none, some, Result, ok, err, ◌==◌, ◌>>=◌, map_err, if◌then◌else◌}
use agentpulse_rs.Common.Map.{contains_key}
use agentpulse_rs.Domain.Value.{is_empty}
use agentpulse_rs.Domain.Session.{Uuid}
use agentpulse_rs.Routing.{ChannelEventRoute}
use agentpulse_rs.Channels.Native.Error.{
  NativeChannelPortError, session_not_subscribed, unsupported_event_route,
}
use agentpulse_rs.Channels.Native.Message.{NativeDeliveryContext, from_core}
use agentpulse_rs.Channels.Native.State.{PendingSubscription, ActiveClient}

abbrev pub PortResult : Type 0 → Type 0
PortResult A = Result NativeChannelPortError A

abbrev pub live : ChannelEventRoute → PortResult NativeDeliveryContext
live route = map_err (λ e. unsupported_event_route) (from_core route) >>= λ r.
    ok (NativeDeliveryContext.live_event r)

-- The context of a delivery to a session that waits for its subscription.
abbrev pub pending_context :
    PendingSubscription → Option ChannelEventRoute → PortResult NativeDeliveryContext
pending_context p (some route) = live route
pending_context p none =
    if is_empty p.frames
    then ok (NativeDeliveryContext.subscription_session p.request_id)
    else ok NativeDeliveryContext.live_session

abbrev pub subscribed_context :
    ActiveClient → Uuid → Option ChannelEventRoute → PortResult NativeDeliveryContext
subscribed_context c k route =
    if contains_key k c.subscriptions
    then elim route [ none ↦ ok NativeDeliveryContext.live_session | some r ↦ live r ]
    else err (session_not_subscribed k)

abbrev pub context_among :
    ActiveClient
    → Uuid
    → Option ChannelEventRoute
    → Option PendingSubscription
    → PortResult NativeDeliveryContext
context_among c k route none = subscribed_context c k route
context_among c k route (some p) =
    if p.session_id == k then pending_context p route else subscribed_context c k route

unfoldable pub delivery_context :
    ActiveClient → Uuid → Option ChannelEventRoute → PortResult NativeDeliveryContext
unfolding from_core
delivery_context c k route = context_among c k route c.pending
