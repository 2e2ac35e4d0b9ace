-- ===== src/Channels/Native/RoundTrip/Client.antt =====
-- What a client of agentpulse-channels/native/src/protocol.rs writes, its server reads back.
use agentpulse_rs.Common.{◌≡◌, refl, Result, ok, arith, bind-ok, String}
use agentpulse_rs.Domain.Capability.{Flags}
use agentpulse_rs.Domain.Identifiers.{Formats, ReadsBack}
use agentpulse_rs.Protocol.Codec.{Bytes, Serde, Rereads}
use agentpulse_rs.Protocol.Convert.{ProtocolMessage}
use agentpulse_rs.Protocol.RoundTrip.Capabilities.{AreMasks}
use agentpulse_rs.Protocol.RoundTrip.Envelope.{IsConstructed}
use agentpulse_rs.Channels.Native.Message.{ClientHello, NativeClientMessage}
use agentpulse_rs.Channels.Native.Dto.{ClientMessageDto}
use agentpulse_rs.Channels.Native.Validate.{validate_client_message}
use agentpulse_rs.Channels.Native.Convert.Client.{
  encode_client_hello, decode_client_hello, submitted_response, submitted_command, encode_client,
  decode_client,
}
use agentpulse_rs.Channels.Native.Convert.Scalars.{encode_domain_value, decode_domain_value}
use agentpulse_rs.Channels.Native.Codec.{Wire, encode_client_message, decode_client_message}
use agentpulse_rs.Channels.Native.RoundTrip.Scalars.{
  WritesValues, session_id_back, domain_value_back,
}
use agentpulse_rs.Channels.Native.RoundTrip.Cursors.{IsCursors, session_cursors_back}
use agentpulse_rs.Channels.Native.RoundTrip.{RereadsWire, MadeByClient, IsClient, envelope_back}

module _ (formats : Formats) (back : ReadsBack formats) where
  client_hello_back :
      (h : ClientHello)
      → IsCursors formats h.session_cursors
      → decode_client_hello formats (encode_client_hello formats h) ≡ ok h
  unfolding encode_client_hello decode_client_hello
  client_hello_back h v = ground (arith, session_cursors_back formats back h.session_cursors v)

module _ {Value : Type 0} (serde : Serde Value) (write_value : Value → Result String Bytes)
    (flags : Flags) (formats : Formats) (masks : AreMasks flags) (back : ReadsBack formats)
    (rereads : Rereads serde) (writes : WritesValues serde write_value flags formats) where
  abbrev domain_back :
      (m : ProtocolMessage)
      → IsConstructed formats m
      → (v : Value) → encode_domain_value serde write_value flags formats m ≡ ok v
      → decode_domain_value serde write_value flags formats v ≡ ok m
  domain_back = domain_value_back serde write_value flags formats masks back rereads writes

  client_back :
      (m : NativeClientMessage)
      → IsClient formats m
      → (d : ClientMessageDto Value) → encode_client serde write_value flags formats m ≡ ok d
      → decode_client serde write_value flags formats d ≡ ok m
  unfolding encode_client decode_client submitted_response submitted_command
  client_back (NativeClientMessage.client_hello h) v d e =
      let ends : ClientMessageDto.client_hello (encode_client_hello formats h) ≡ d = ground arith in
      rw (← ends, client_hello_back formats back h v) refl
  client_back (NativeClientMessage.discover r) v d e =
      let ends : ClientMessageDto.discover_sessions r ≡ d = ground arith in rw (← ends) refl
  client_back (NativeClientMessage.subscribe_session r k) v d e =
      let ends : ClientMessageDto.subscribe_session r (formats.print_uuid k) ≡ d = ground arith in
      rw (← ends, session_id_back formats back k v) refl
  client_back (NativeClientMessage.unsubscribe_session r k) v d e =
      let ends : ClientMessageDto.unsubscribe_session r (formats.print_uuid k) ≡ d = ground arith in
      rw (← ends, session_id_back formats back k v) refl
  client_back (NativeClientMessage.submit_response r x) v d e =
      let (value, encoded, e1) =
        bind-ok
          (encode_domain_value serde write_value flags formats
            (ProtocolMessage.interaction_response x))
          _ d e in
      let ends : ClientMessageDto.submit_response r value ≡ d = ground arith in
      rw (← ends, domain_back (ProtocolMessage.interaction_response x) v value encoded) refl
  client_back (NativeClientMessage.submit_agent_command r c) v d e =
      let (value, encoded, e1) =
        bind-ok
          (encode_domain_value serde write_value flags formats (ProtocolMessage.agent_command c)) _
          d e in
      let ends : ClientMessageDto.submit_agent_command r value ≡ d = ground arith in
      rw (← ends, domain_back (ProtocolMessage.agent_command c) v value encoded) refl

  -- Every message of a client is read back by its server exactly as it was sent, if it can be
  -- written: its identities are of version 7, its cursors are in order with positive numbers of 64
  -- bits, and what it carries is what the constructors of the domain allow. The crates read back
  -- what they wrote.
  pub decode_client_message-encode_client_message :
      (wire : Wire Value (ClientMessageDto Value))
      (same : RereadsWire wire (MadeByClient serde write_value flags formats))
      → (m : NativeClientMessage) → IsClient formats m
      → (s : Bytes) → encode_client_message serde write_value flags formats wire m ≡ ok s
      → decode_client_message serde write_value flags formats wire s ≡ ok m
  unfolding encode_client_message decode_client_message
  decode_client_message-encode_client_message wire same m v s e =
      let (u, valid, e1) = bind-ok (validate_client_message formats m) _ s e in
      let (d, encoded, written) =
        bind-ok (encode_client serde write_value flags formats m) _ s e1 in
      rw
        (
          envelope_back wire (MadeByClient serde write_value flags formats) same d s (m, encoded)
              written,
          client_back m v d encoded,
          valid,
        )
        refl
