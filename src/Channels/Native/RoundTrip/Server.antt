-- ===== src/Channels/Native/RoundTrip/Server.antt =====
-- What a server of agentpulse-channels/native/src/protocol.rs writes, its client reads back.
use agentpulse_rs.Common.{◌≡◌, refl, Result, ok, arith, bind-ok, String}
use agentpulse_rs.Domain.Capability.{Flags}
use agentpulse_rs.Domain.Identifiers.{Formats, ReadsBack, IsV7}
use agentpulse_rs.Domain.Constructed.{IsChannel}
use agentpulse_rs.Protocol.Codec.{Bytes, Serde, Rereads}
use agentpulse_rs.Protocol.Convert.{ProtocolMessage}
use agentpulse_rs.Protocol.RoundTrip.Capabilities.{AreMasks}
use agentpulse_rs.Protocol.RoundTrip.Envelope.{IsConstructed}
use agentpulse_rs.Channels.Native.Message.{
  NativeDeliveryContext, ServerHello, SubscriptionResult, NativeServerMessage,
}
use agentpulse_rs.Channels.Native.Dto.{ServerHelloDto, ServerMessageDto}
use agentpulse_rs.Channels.Native.Validate.{validate_server_message}
use agentpulse_rs.Channels.Native.Convert.Names.{
  encode_unsubscription_status, encode_error_code, event_route_back, subscription_status_back,
  unsubscription_status_back, error_code_back,
}
use agentpulse_rs.Channels.Native.Convert.Server.{
  encode_context, decode_context, encode_subscription_result, decode_subscription_result,
  encode_server_hello, hello_of, encode_server, decode_server,
}
use agentpulse_rs.Channels.Native.Convert.Scalars.{encode_domain_value, decode_domain_value}
use agentpulse_rs.Channels.Native.Codec.{Wire, encode_server_message, decode_server_message}
use agentpulse_rs.Channels.Native.RoundTrip.Scalars.{
  WritesValues, IsSequence, sequence_back, session_id_back, domain_value_back,
}
use agentpulse_rs.Channels.Native.RoundTrip.{
  RereadsWire, MadeByServer, IsContext, IsServer, envelope_back,
}

context_back : (c : NativeDeliveryContext) → IsContext c → decode_context (encode_context c) ≡ ok c
unfolding encode_context decode_context
context_back (NativeDeliveryContext.discovery_provider r) v = refl
context_back (NativeDeliveryContext.discovery_session r n) v = ground (arith, sequence_back n v)
context_back (NativeDeliveryContext.subscription_session r) v = refl
context_back (NativeDeliveryContext.subscription_interaction r t) v =
    ground (arith, event_route_back t)
context_back (NativeDeliveryContext.live_event t) v = ground (arith, event_route_back t)
context_back NativeDeliveryContext.live_session v = refl

module _ (formats : Formats) (back : ReadsBack formats) where
  subscription_result_back :
      (x : SubscriptionResult)
      → IsV7 formats x.session_id × IsSequence x.baseline_sequence
      → decode_subscription_result formats (encode_subscription_result formats x) ≡ ok x
  unfolding encode_subscription_result decode_subscription_result
  subscription_result_back x v = ground (
    arith,
    session_id_back formats back x.session_id v.0,
    sequence_back x.baseline_sequence v.1,
    subscription_status_back x.status,
  )

module _ {Value : Type 0} (serde : Serde Value) (write_value : Value → Result String Bytes)
    (flags : Flags) (formats : Formats) (masks : AreMasks flags) (back : ReadsBack formats)
    (rereads : Rereads serde) (writes : WritesValues serde write_value flags formats) where
  abbrev domain_back :
      (m : ProtocolMessage)
      → IsConstructed formats m
      → (v : Value) → encode_domain_value serde write_value flags formats m ≡ ok v
      → decode_domain_value serde write_value flags formats v ≡ ok m
  domain_back = domain_value_back serde write_value flags formats masks back rereads writes

  server_hello_back :
      (h : ServerHello)
      → IsChannel formats h.channel
      → (d : ServerHelloDto Value) → encode_server_hello serde write_value flags formats h ≡ ok d
      → (decode_domain_value serde write_value flags formats d.channel
          ≡ ok (ProtocolMessage.channel_descriptor h.channel))
        × (hello_of serde write_value flags formats d (ProtocolMessage.channel_descriptor h.channel)
            ≡ ok h)
  unfolding encode_server_hello hello_of
  server_hello_back h v d e =
      let (x, encoded, e1) =
        bind-ok
          (encode_domain_value serde write_value flags formats
            (ProtocolMessage.channel_descriptor h.channel))
          _ d e in
      let decoded = domain_back (ProtocolMessage.channel_descriptor h.channel) v x encoded in
      (ground arith, ground arith)

  server_back :
      (m : NativeServerMessage)
      → IsServer formats m
      → (d : ServerMessageDto Value) → encode_server serde write_value flags formats m ≡ ok d
      → decode_server serde write_value flags formats d ≡ ok m
  unfolding encode_server decode_server
  server_back (NativeServerMessage.server_hello h) v d e =
      let (x, encoded, e1) =
        bind-ok (encode_server_hello serde write_value flags formats h) _ d e in
      let (channel, hello) = server_hello_back h v x encoded in
      let ends : ServerMessageDto.server_hello x ≡ d = ground arith in
      rw (← ends, channel, hello) refl
  server_back (NativeServerMessage.sync_started r p s) v d e =
      let ends : ServerMessageDto.sync_started r p s ≡ d = ground arith in rw (← ends) refl
  server_back (NativeServerMessage.domain_message context message) v d e =
      let (x, encoded, e1) =
        bind-ok (encode_domain_value serde write_value flags formats message) _ d e in
      let ends : ServerMessageDto.domain_message (encode_context context) x ≡ d = ground arith in
      rw (← ends, context_back context v.0, domain_back message v.1 x encoded) refl
  server_back (NativeServerMessage.sync_completed r) v d e =
      let ends : ServerMessageDto.sync_completed r ≡ d = ground arith in rw (← ends) refl
  server_back (NativeServerMessage.subscription_result x) v d e =
      let ends : ServerMessageDto.subscription_result (encode_subscription_result formats x) ≡ d =
        ground arith in
      rw (← ends, subscription_result_back formats back x v) refl
  server_back (NativeServerMessage.unsubscription_result r k s) v d e =
      let ends : ServerMessageDto.unsubscription_result r (formats.print_uuid k)
            (encode_unsubscription_status s)
          ≡ d =
        ground arith in
      rw (← ends, session_id_back formats back k v, unsubscription_status_back s) refl
  server_back (NativeServerMessage.interaction_response_result r k i) v d e =
      let ends : ServerMessageDto.interaction_response_result r (formats.print_uuid k) i ≡ d =
        ground arith in
      rw (← ends, session_id_back formats back k v) refl
  server_back (NativeServerMessage.command_result r k i) v d e =
      let ends : ServerMessageDto.command_result r (formats.print_uuid k) i ≡ d = ground arith in
      rw (← ends, session_id_back formats back k v) refl
  server_back (NativeServerMessage.error_message r code message recoverable) v d e =
      let ends : ServerMessageDto.error_message r (encode_error_code code) message recoverable ≡ d =
        ground arith in
      rw (← ends, error_code_back code) refl

  -- Every message of a server is read back by its client exactly as it was sent, if it can be
  -- written: its identities are of version 7, its sequences positive numbers of 64 bits, and what it
  -- carries is what the constructors of the domain allow. The crates read back what they wrote.
  pub decode_server_message-encode_server_message :
      (wire : Wire Value (ServerMessageDto Value))
      (same : RereadsWire wire (MadeByServer serde write_value flags formats))
      → (m : NativeServerMessage) → IsServer formats m
      → (s : Bytes) → encode_server_message serde write_value flags formats wire m ≡ ok s
      → decode_server_message serde write_value flags formats wire s ≡ ok m
  unfolding encode_server_message decode_server_message
  decode_server_message-encode_server_message wire same m v s e =
      let (u, valid, e1) = bind-ok (validate_server_message flags formats m) _ s e in
      let (d, encoded, written) =
        bind-ok (encode_server serde write_value flags formats m) _ s e1 in
      rw
        (
          envelope_back wire (MadeByServer serde write_value flags formats) same d s (m, encoded)
              written,
          server_back m v d encoded,
          valid,
        )
        refl
