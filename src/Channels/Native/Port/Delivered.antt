-- ===== src/Channels/Native/Port/Delivered.antt =====
-- What the client of agentpulse-channels/native gets of a delivery of the Bridge: where the frame
-- joins the queues, and what it says.
use agentpulse_rs.Common.{
  ◌≡◌, refl, subst, true, Option, some, Result, ok, err, map_err, ok_or, arith, bind-ok, String,
}
use agentpulse_rs.Domain.Session.{Uuid}
use agentpulse_rs.Domain.Capability.{Flags}
use agentpulse_rs.Domain.Identifiers.{Formats, ReadsBack}
use agentpulse_rs.Routing.{ChannelEventRoute}
use agentpulse_rs.Protocol.Codec.{Bytes, Serde, Rereads}
use agentpulse_rs.Protocol.Convert.{ProtocolMessage}
use agentpulse_rs.Protocol.RoundTrip.Capabilities.{AreMasks}
use agentpulse_rs.Protocol.RoundTrip.Envelope.{IsConstructed}
use agentpulse_rs.Channels.Native.Error.{no_active_client, protocol}
use agentpulse_rs.Channels.Native.Dto.{ServerMessageDto}
use agentpulse_rs.Channels.Native.Message.{NativeDeliveryContext, NativeServerMessage}
use agentpulse_rs.Channels.Native.Codec.{Wire, encode_server_message, decode_server_message}
use agentpulse_rs.Channels.Native.RoundTrip.Scalars.{WritesValues}
use agentpulse_rs.Channels.Native.RoundTrip.{RereadsWire, MadeByServer, IsContext}
use agentpulse_rs.Channels.Native.RoundTrip.Server.{decode_server_message-encode_server_message}
use agentpulse_rs.Channels.Native.State.{Frame, ActiveClient, DeliveryState}
use agentpulse_rs.Channels.Native.Port.{prepared, encoded_text, port_deliver}
use agentpulse_rs.Channels.Native.Port.Context.{PortResult, delivery_context}
use agentpulse_rs.Channels.Native.Port.Queues.{put_prepared}
use agentpulse_rs.Channels.Native.Port.Queued.{IsQueued, Queues, put_frame-Queues}
use agentpulse_rs.Channels.Native.Port.Entitled.{is_entitled, delivery_context-ok}

module _ {Value : Type 0} (serde : Serde Value) (write_value : Value → Result String Bytes)
    (wire : Wire Value (ServerMessageDto Value)) (flags : Flags) (formats : Formats) where
  -- What a delivery of one message does if it succeeds: the client waits for the session or
  -- subscribes to it, the frame is queued at its place, and the client reads the message in it.
  pub record IsDelivered (k : Uuid) (m : ProtocolMessage) (route : Option ChannelEventRoute)
      (s t : DeliveryState) : Type 0 where
    pub client : ActiveClient
    pub here : s.client ≡ some client
    pub entitled : is_entitled client k ≡ true
    pub context : NativeDeliveryContext
    pub chosen : delivery_context client k route ≡ ok context
    pub frame : Frame
    pub queued : IsQueued k frame s t
    pub read :
        decode_server_message serde write_value flags formats wire frame
        ≡ ok (NativeServerMessage.domain_message context m)

  module _ (masks : AreMasks flags) (back : ReadsBack formats) (rereads : Rereads serde)
      (writes : WritesValues serde write_value flags formats)
      (same : RereadsWire wire (MadeByServer serde write_value flags formats)) where
    pub encoded_text_back :
        (context : NativeDeliveryContext) (m : ProtocolMessage) (f : Frame)
        → IsContext context
        → IsConstructed formats m
        → encoded_text serde write_value wire flags formats context m ≡ ok f
        → decode_server_message serde write_value flags formats wire f
          ≡ ok (NativeServerMessage.domain_message context m)
    unfolding encoded_text
    encoded_text_back context m f v c e =
        let message = NativeServerMessage.domain_message context m in
        let encoded = encode_server_message serde write_value flags formats wire message in
        let (bytes, written, e1) = bind-ok (map_err protocol encoded) _ f e in
        let kept : bytes ≡ f = ground arith in
        decode_server_message-encode_server_message serde write_value flags formats masks back
          rereads writes wire same message (v, c) f (ground arith)

    -- If the Port takes a message for a session, then its client waits for a subscription to the
    -- session or has one; exactly one frame more is queued, as the last of the output, or, while the
    -- subscription is awaited, as the last of the frames before or after its baseline; and from
    -- this frame the client reads the message with the context that the source chooses. The message
    -- is one that the constructors of the domain allow, and the crates read back what they wrote.
    pub port_deliver-IsDelivered :
        (k : Uuid) (m : ProtocolMessage) (route : Option ChannelEventRoute) (s t : DeliveryState)
        → IsConstructed formats m
        → port_deliver serde write_value wire flags formats k m route s ≡ (t, ok tt)
        → IsDelivered k m route s t
    unfolding port_deliver
    port_deliver-IsDelivered k m route s t c e =
        put (prepared serde write_value wire flags formats s k m route) refl e
      where
        put :
            (r : PortResult (ActiveClient × Frame))
            → prepared serde write_value wire flags formats s k m route ≡ r
            → put_prepared k r s ≡ (t, ok tt)
            → IsDelivered k m route s t
        put (err x) refused h = absurd (ground arith)
        put (ok (client, f)) ready h =
            let (c', here, e1) = bind-ok (ok_or s.client no_active_client) _ (client, f) ready in
            let (context, chosen, e2) = bind-ok (delivery_context c' k route) _ (client, f) e1 in
            let (g, encoded, e3) =
              bind-ok (encoded_text serde write_value wire flags formats context m) _ (client, f)
                e2 in
            let same_client : c' ≡ client = ground arith in
            let same_frame : g ≡ f = ground arith in
            let there : s.client ≡ some client = ground arith in
            let fits = delivery_context-ok client k route context (ground arith) in
            record {
              client = client;
              here = there;
              entitled = fits.1;
              context = context;
              chosen = ground arith;
              frame = f;
              queued = subst (Queues k f s) h (put_frame-Queues k f client s there);
              read = encoded_text_back context m f fits.0 c (ground arith);
            }
