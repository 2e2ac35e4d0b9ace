-- ===== src/Channels/Native/Convert/Client.antt =====
-- agentpulse-channels/native/src/protocol.rs: `ClientMessageDto`.
use agentpulse_rs.Common.{map, Result, ok, err, ◌>>=◌, String}
use agentpulse_rs.Domain.Error.{Text}
use agentpulse_rs.Domain.Identifiers.{Formats}
use agentpulse_rs.Domain.Capability.{Flags}
use agentpulse_rs.Protocol.Convert.{ProtocolMessage}
use agentpulse_rs.Protocol.Codec.{Bytes, Serde}
use agentpulse_rs.Channels.Native.Error.{NativeProtocolError, invalid_domain_context}
use agentpulse_rs.Channels.Native.Message.{ClientHello, NativeClientMessage}
use agentpulse_rs.Channels.Native.Dto.{ClientHelloDto, ClientMessageDto}
use agentpulse_rs.Channels.Native.Convert.Scalars.{
  cursor_dto, parse_session_id, parse_session_cursors, encode_domain_value, decode_domain_value,
}

module _ (formats : Formats) where
  unfoldable pub encode_client_hello : ClientHello → ClientHelloDto
  encode_client_hello h = record {
    client_id = h.client_id;
    display_name = h.display_name;
    version = h.version;
    supported_protocol_versions = h.supported_protocol_versions;
    host_run_id = h.host_run_id;
    session_cursors = map (cursor_dto formats) h.session_cursors;
  }

  unfoldable pub decode_client_hello : ClientHelloDto → Result NativeProtocolError ClientHello
  decode_client_hello d = do
    session_cursors ← parse_session_cursors formats d.session_cursors
    ok (record {
      client_id = d.client_id;
      display_name = d.display_name;
      version = d.version;
      supported_protocol_versions = d.supported_protocol_versions;
      host_run_id = d.host_run_id;
      session_cursors = session_cursors;
    })

-- The messages that the two submissions take, and the errors of the others.
unfoldable pub submitted_response :
    Text → ProtocolMessage → Result NativeProtocolError NativeClientMessage
submitted_response request_id (ProtocolMessage.interaction_response response) =
    ok (NativeClientMessage.submit_response request_id response)
submitted_response request_id _ =
    err (invalid_domain_context "submit_interaction_response" "non-interaction_response")

unfoldable pub submitted_command :
    Text → ProtocolMessage → Result NativeProtocolError NativeClientMessage
submitted_command request_id (ProtocolMessage.agent_command command) =
    ok (NativeClientMessage.submit_agent_command request_id command)
submitted_command request_id _ = err (invalid_domain_context "submit_command" "non-agent_command")

module _ {Value : Type 0} (serde : Serde Value) (write_value : Value → Result String Bytes)
    (flags : Flags) (formats : Formats) where
  unfoldable pub encode_client :
      NativeClientMessage → Result NativeProtocolError (ClientMessageDto Value)
  encode_client (NativeClientMessage.client_hello h) =
      ok (ClientMessageDto.client_hello (encode_client_hello formats h))
  encode_client (NativeClientMessage.discover r) = ok (ClientMessageDto.discover_sessions r)
  encode_client (NativeClientMessage.subscribe_session r s) =
      ok (ClientMessageDto.subscribe_session r (formats.print_uuid s))
  encode_client (NativeClientMessage.unsubscribe_session r s) =
      ok (ClientMessageDto.unsubscribe_session r (formats.print_uuid s))
  encode_client (NativeClientMessage.submit_response r response) = do
    value ←
        encode_domain_value serde write_value flags formats
          (ProtocolMessage.interaction_response response)
    ok (ClientMessageDto.submit_response r value)
  encode_client (NativeClientMessage.submit_agent_command r command) = do
    value ←
        encode_domain_value serde write_value flags formats (ProtocolMessage.agent_command command)
    ok (ClientMessageDto.submit_agent_command r value)

  unfoldable pub decode_client :
      ClientMessageDto Value → Result NativeProtocolError NativeClientMessage
  decode_client (ClientMessageDto.client_hello d) = do
    h ← decode_client_hello formats d
    ok (NativeClientMessage.client_hello h)
  decode_client (ClientMessageDto.discover_sessions r) = ok (NativeClientMessage.discover r)
  decode_client (ClientMessageDto.subscribe_session r s) = do
    session_id ← parse_session_id formats s
    ok (NativeClientMessage.subscribe_session r session_id)
  decode_client (ClientMessageDto.unsubscribe_session r s) = do
    session_id ← parse_session_id formats s
    ok (NativeClientMessage.unsubscribe_session r session_id)
  decode_client (ClientMessageDto.submit_response r value) = do
    message ← decode_domain_value serde write_value flags formats value
    submitted_response r message
  decode_client (ClientMessageDto.submit_agent_command r value) = do
    message ← decode_domain_value serde write_value flags formats value
    submitted_command r message
