-- ===== src/Channels/Native/Codec.antt =====
-- agentpulse-channels/native/src/protocol.rs: Native messages as bytes. `Wire` is what the program
-- uses of serde_json and of the derived implementations for an envelope of one of the two shapes.
use agentpulse_rs.Common.{
  ℕ, Option, Result, ok, err, map_err, ok_or, not, ◌==◌, ◌>>=◌, ◌>>◌, if◌then◌else◌, String,
}
use agentpulse_rs.Domain.Identifiers.{Formats}
use agentpulse_rs.Domain.Capability.{Flags}
use agentpulse_rs.Protocol.Codec.{Bytes, Serde}
use agentpulse_rs.Channels.Native.Error.{
  NativeProtocolError, json, invalid_field, said, unsupported_version,
}
use agentpulse_rs.Channels.Native.Message.{NativeClientMessage, NativeServerMessage}
use agentpulse_rs.Channels.Native.Dto.{Envelope, ClientMessageDto, ServerMessageDto}
use agentpulse_rs.Channels.Native.Validate.{validate_client_message, validate_server_message}
use agentpulse_rs.Channels.Native.Convert.Client.{encode_client, decode_client}
use agentpulse_rs.Channels.Native.Convert.Server.{encode_server, decode_server}

-- `pub const NATIVE_TRANSPORT_VERSION` of agentpulse-channels/native/src/lib.rs.
abbrev pub native_transport_version : ℕ
native_transport_version = 3

-- `version_field` is the field `native_transport_version` as an integer of 64 bits.
pub record Wire (Value T : Type 0) : Type 0 where
  pub to_vec : Envelope T → Result String Bytes
  pub from_slice : Bytes → Result String Value
  pub version_field : Value → Option ℕ
  pub from_value : Value → Result String (Envelope T)

module _ {Value T : Type 0} (wire : Wire Value T) where
  unfoldable pub write_envelope : T → Result NativeProtocolError Bytes
  write_envelope message = map_err json (
      wire.to_vec
        (record { native_transport_version = native_transport_version; message = message }))

  abbrev pub envelope_of_version : Value → ℕ → Result NativeProtocolError (Envelope T)
  envelope_of_version value received =
      if not (received == native_transport_version)
      then err (unsupported_version received native_transport_version)
      else map_err json (wire.from_value value)

  unfoldable pub read_envelope : Bytes → Result NativeProtocolError (Envelope T)
  read_envelope input = do
    value ← map_err json (wire.from_slice input)
    received ←
        ok_or (wire.version_field value)
          (invalid_field "native_transport_version" (said "expected an unsigned JSON integer"))
    envelope_of_version value received

module _ {Value : Type 0} (serde : Serde Value) (write_value : Value → Result String Bytes)
    (flags : Flags) (formats : Formats) where
  unfoldable pub encode_client_message :
      Wire Value (ClientMessageDto Value) → NativeClientMessage → Result NativeProtocolError Bytes
  encode_client_message wire message = do
    validate_client_message formats message
    dto ← encode_client serde write_value flags formats message
    write_envelope wire dto

  unfoldable pub decode_client_message :
      Wire Value (ClientMessageDto Value) → Bytes → Result NativeProtocolError NativeClientMessage
  decode_client_message wire input = do
    dto ← read_envelope wire input
    message ← decode_client serde write_value flags formats dto.message
    validate_client_message formats message
    ok message

  unfoldable pub encode_server_message :
      Wire Value (ServerMessageDto Value) → NativeServerMessage → Result NativeProtocolError Bytes
  encode_server_message wire message = do
    validate_server_message flags formats message
    dto ← encode_server serde write_value flags formats message
    write_envelope wire dto

  unfoldable pub decode_server_message :
      Wire Value (ServerMessageDto Value) → Bytes → Result NativeProtocolError NativeServerMessage
  decode_server_message wire input = do
    dto ← read_envelope wire input
    message ← decode_server serde write_value flags formats dto.message
    validate_server_message flags formats message
    ok message
