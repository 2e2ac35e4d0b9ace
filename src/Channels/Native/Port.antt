-- ===== src/Channels/Native/Port.antt =====
-- agentpulse-channels/native/src/port.rs: the Port that the Bridge calls. A call of the Port takes
-- the lock on the shared state once or, for a baseline or a sync, twice; `others` is what other
-- threads make of the state between the two.
pub mod Utf8
pub mod Context
pub mod Queues
pub mod Frames
pub mod Bounded
pub mod Queued
pub mod Entitled
pub mod Delivered
pub mod Joined
pub mod Refused
pub mod Told
pub mod Messages
pub mod Written
use agentpulse_rs.Common.{
  ℕ, ◌+◌, Bool, true, false, not, ◌&&◌, List, [], ◌∷◌, ◌++◌, Option, none, some, Result, ok, err,
  leb, ltb, ◌==◌, ◌>>=◌, ◌>>◌, map_err, ok_or, try_map, if◌then◌else◌, length, String,
}
use Prim.Native.Nat.{◌%◌}
use agentpulse_rs.Common.Map.{contains_key}
use agentpulse_rs.Domain.Error.{Text}
use agentpulse_rs.Domain.Value.{is_empty, u64_end}
use agentpulse_rs.Domain.Session.{Uuid}
use agentpulse_rs.Domain.Identifiers.{Formats}
use agentpulse_rs.Domain.Capability.{Flags}
use agentpulse_rs.Routing.{ChannelEventRoute, interaction}
use agentpulse_rs.Bridge.State.{
  RoutedAgentEvent, RoutedInteractionRequest, ChannelSessionBaseline, ChannelSessionSync,
  ChannelDelivery, deliver_event, deliver_session, deliver_session_baseline, deliver_session_sync,
}
use agentpulse_rs.Protocol.Convert.{ProtocolMessage}
use agentpulse_rs.Protocol.Codec.{Bytes, Serde}
use agentpulse_rs.Channels.Native.Error.{
  NativeChannelPortError, no_active_client, session_not_subscribed, unsupported_event_route,
  protocol, queue_full, invalid_field, not_utf8,
}
use agentpulse_rs.Channels.Native.Message.{NativeDeliveryContext, NativeServerMessage, from_core}
use agentpulse_rs.Channels.Native.Dto.{ServerMessageDto}
use agentpulse_rs.Channels.Native.Validate.{same_text}
use agentpulse_rs.Channels.Native.Codec.{Wire, encode_server_message}
use agentpulse_rs.Channels.Native.State.{
  Frame, NativeChannelSnapshot, PendingSubscription, ActiveClient, DeliveryState, queued_len,
  saturating_add, aborted, enqueue,
}
use agentpulse_rs.Channels.Native.Port.Utf8.{is_utf8}
use agentpulse_rs.Channels.Native.Port.Context.{PortResult, live, delivery_context}
use agentpulse_rs.Channels.Native.Port.Queues.{put_prepared, waiting, waiting_for, commit_frames}

module _ {Value : Type 0} (serde : Serde Value) (write_value : Value → Result String Bytes)
    (wire : Wire Value (ServerMessageDto Value)) (flags : Flags) (formats : Formats) where
  -- `encoded_text`; `String::from_utf8` keeps the bytes.
  unfoldable pub encoded_text : NativeDeliveryContext → ProtocolMessage → PortResult Frame
  encoded_text context message = do
    bytes ← map_err protocol (
        encode_server_message serde write_value flags formats wire
          (NativeServerMessage.domain_message context message))
    if is_utf8 bytes
        then ok bytes
        else err (protocol (invalid_field "encoded server frame" not_utf8))

  -- The frame of a message, and the client that it is for.
  abbrev pub prepared :
      DeliveryState
      → Uuid
      → ProtocolMessage
      → Option ChannelEventRoute
      → PortResult (ActiveClient × Frame)
  prepared s k message route = do
    client ← ok_or s.client no_active_client
    context ← delivery_context client k route
    frame ← encoded_text context message
    ok (client, frame)

  unfoldable pub port_deliver :
      Uuid
      → ProtocolMessage
      → Option ChannelEventRoute
      → DeliveryState
      → DeliveryState × PortResult (Unit {0})
  port_deliver k message route s = put_prepared k (prepared s k message route) s

  unfoldable pub interaction_frame : Text → RoutedInteractionRequest → PortResult Frame
  unfolding from_core
  interaction_frame request_id i = do
    route ← map_err (λ e. unsupported_event_route) (from_core (interaction i.route))
    encoded_text (NativeDeliveryContext.subscription_interaction request_id route)
        (ProtocolMessage.interaction_request i.request)

  unfoldable pub baseline_frames : Text → ChannelSessionBaseline → PortResult (List Frame)
  baseline_frames request_id b = do
    first ←
        encoded_text (NativeDeliveryContext.subscription_session request_id)
          (ProtocolMessage.agent_session b.session)
    rest ← try_map (interaction_frame request_id) b.pending_interactions
    ok (first ∷ rest)

  unfoldable pub event_frame : Uuid → RoutedAgentEvent → PortResult Frame
  unfolding from_core
  event_frame k r =
      if not (r.event.session_id == k)
      then err (session_not_subscribed k)
      else live r.route >>= λ c. encoded_text c (ProtocolMessage.agent_event r.event)

  abbrev frames_of_baseline : Text → Option ChannelSessionBaseline → PortResult (List Frame)
  frames_of_baseline request_id none = ok []
  frames_of_baseline request_id (some b) = baseline_frames request_id b

  unfoldable pub sync_frames : PendingSubscription → ChannelSessionSync → PortResult (List Frame)
  sync_frames p sync = do
    events ← try_map (event_frame p.session_id) sync.events
    rest ← frames_of_baseline p.request_id sync.baseline
    ok (events ++ rest)

  -- The pending subscription and the frames of a baseline or a sync.
  unfoldable pub prepared_baseline :
      ChannelSessionBaseline → DeliveryState → PortResult (PendingSubscription × List Frame)
  prepared_baseline b s = do
    p ← waiting_for b.session.id s
    frames ← baseline_frames p.request_id b
    ok (p, frames)

  unfoldable pub prepared_sync :
      ChannelSessionSync → DeliveryState → PortResult (PendingSubscription × List Frame)
  prepared_sync sync s = do p ← waiting s; frames ← sync_frames p sync; ok (p, frames)

  -- A call of the Port: `deliver_event`, `deliver_session`, `deliver_session_baseline` and
  -- `deliver_session_sync`.
  unfoldable pub port_call :
      (DeliveryState → DeliveryState)
      → ChannelDelivery
      → DeliveryState
      → DeliveryState × PortResult (Unit {0})
  port_call others (deliver_event event route) s =
      port_deliver event.session_id (ProtocolMessage.agent_event event) (some route) s
  port_call others (deliver_session session) s =
      port_deliver session.id (ProtocolMessage.agent_session session) none s
  port_call others (deliver_session_baseline b) s = commit_frames others (prepared_baseline b s) s
  port_call others (deliver_session_sync sync) s = commit_frames others (prepared_sync sync s) s
