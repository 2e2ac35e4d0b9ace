-- ===== src/Channels/Native/RoundTrip.antt =====
-- Native messages of agentpulse-channels/native/src/protocol.rs are read back as they were written.
pub mod Scalars
pub mod Cursors
pub mod Server
pub mod Client
use agentpulse_rs.Common.{
  ℕ, ◌<◌, ◌≡◌, refl, ap, ◌∙◌, sym, List, [], ◌∷◌, map, Option, none, some, Result, ok, err, map_err,
  ◌>>=◌, ◌>>◌, arith, bind-ok, String, ok_or,
}
use agentpulse_rs.Common.Map.{IsSorted, Each}
use agentpulse_rs.Domain.Value.{u64_end}
use agentpulse_rs.Domain.Capability.{Flags}
use agentpulse_rs.Domain.Identifiers.{Formats, ReadsBack, IsV7}
use agentpulse_rs.Domain.Constructed.{IsChannel, IsResponse, IsCommand}
use agentpulse_rs.Protocol.Codec.{Bytes, Serde, Rereads}
use agentpulse_rs.Protocol.Convert.{ProtocolMessage}
use agentpulse_rs.Protocol.RoundTrip.Capabilities.{AreMasks}
use agentpulse_rs.Protocol.RoundTrip.Envelope.{IsConstructed}
use agentpulse_rs.Channels.Native.Error.{
  NativeProtocolError, json, invalid_field, said, unsupported_version,
}
use agentpulse_rs.Channels.Native.Message.{
  ClientHello, NativeClientMessage, NativeDeliveryContext, ServerHello, SubscriptionResult,
  NativeServerMessage,
}
use agentpulse_rs.Channels.Native.Dto.{Envelope, ClientMessageDto, ServerHelloDto, ServerMessageDto}
use agentpulse_rs.Channels.Native.Validate.{validate_client_message, validate_server_message}
use agentpulse_rs.Channels.Native.Convert.Names.{
  encode_unsubscription_status, encode_error_code, event_route_back, subscription_status_back,
  unsubscription_status_back, error_code_back,
}
use agentpulse_rs.Channels.Native.Convert.Client.{
  encode_client_hello, decode_client_hello, submitted_response, submitted_command, encode_client,
  decode_client,
}
use agentpulse_rs.Channels.Native.Convert.Server.{
  encode_context, decode_context, encode_subscription_result, decode_subscription_result,
  encode_server_hello, hello_of, encode_server, decode_server,
}
use agentpulse_rs.Channels.Native.Convert.Scalars.{
  cursor_dto, parse_session_id, parse_sequence, encode_domain_value, decode_domain_value,
}
use agentpulse_rs.Channels.Native.Codec.{
  Wire, native_transport_version, write_envelope, envelope_of_version, read_envelope,
  encode_client_message, decode_client_message, encode_server_message, decode_server_message,
}
use agentpulse_rs.Channels.Native.RoundTrip.Scalars.{
  WritesValues, IsSequence, sequence_back, session_id_back, domain_value_back,
}
use agentpulse_rs.Channels.Native.RoundTrip.Cursors.{IsCursors, session_cursors_back}

abbrev pub envelope_around : {T : Type 0} → T → Envelope T
envelope_around d = record { native_transport_version = native_transport_version; message = d }

-- What serde_json documents of the envelopes around the messages that the program makes.
abbrev pub RereadsWire : {Value T : Type 0} → Wire Value T → (T → Type 0) → Type 0
RereadsWire {Value} {T} wire Made =
    (d : T) (s : Bytes)
    → Made d
    → wire.to_vec (envelope_around d) ≡ ok s
    → (v : Value) × (wire.from_slice s ≡ ok v)
      × (wire.version_field v ≡ some native_transport_version)
      × (wire.from_value v ≡ ok (envelope_around d))

module _ {Value : Type 0} (serde : Serde Value) (write_value : Value → Result String Bytes)
    (flags : Flags) (formats : Formats) where
  -- The messages that a server and a client encode.
  abbrev pub MadeByServer : ServerMessageDto Value → Type 0
  MadeByServer d =
      (m : NativeServerMessage) × (encode_server serde write_value flags formats m ≡ ok d)

  abbrev pub MadeByClient : ClientMessageDto Value → Type 0
  MadeByClient d =
      (m : NativeClientMessage) × (encode_client serde write_value flags formats m ≡ ok d)

abbrev pub IsContext : NativeDeliveryContext → Type 0
IsContext (NativeDeliveryContext.discovery_session r n) = IsSequence n
IsContext _ = Unit {0}

module _ (formats : Formats) where
  -- What the types of the values that a message carries ensure.
  abbrev pub IsServer : NativeServerMessage → Type 0
  IsServer (NativeServerMessage.server_hello h) = IsChannel formats h.channel
  IsServer (NativeServerMessage.domain_message context message) =
      IsContext context × IsConstructed formats message
  IsServer (NativeServerMessage.subscription_result x) =
      IsV7 formats x.session_id × IsSequence x.baseline_sequence
  IsServer (NativeServerMessage.unsubscription_result r k s) = IsV7 formats k
  IsServer (NativeServerMessage.interaction_response_result r k i) = IsV7 formats k
  IsServer (NativeServerMessage.command_result r k i) = IsV7 formats k
  IsServer _ = Unit {0}

  abbrev pub IsClient : NativeClientMessage → Type 0
  IsClient (NativeClientMessage.client_hello h) = IsCursors formats h.session_cursors
  IsClient (NativeClientMessage.subscribe_session r k) = IsV7 formats k
  IsClient (NativeClientMessage.unsubscribe_session r k) = IsV7 formats k
  IsClient (NativeClientMessage.submit_response r x) = IsResponse formats x
  IsClient (NativeClientMessage.submit_agent_command r c) = IsCommand formats c
  IsClient _ = Unit {0}

pub envelope_back :
    {Value T : Type 0} (wire : Wire Value T) (Made : T → Type 0) (rereads : RereadsWire wire Made)
    (d : T) (s : Bytes)
    → Made d
    → write_envelope wire d ≡ ok s
    → read_envelope wire s ≡ ok (envelope_around d)
unfolding write_envelope read_envelope
envelope_back wire Made rereads d s made e =
    let (v, parsed, version, read) = rereads d s made (ground arith) in ground arith
