-- ===== src/Channels/Native/Convert/Server.antt =====
-- agentpulse-channels/native/src/protocol.rs: `DeliveryContextDto` and `ServerMessageDto`.
use agentpulse_rs.Common.{Result, ok, err, ◌>>=◌, String}
use agentpulse_rs.Domain.Identifiers.{Formats}
use agentpulse_rs.Domain.Capability.{Flags}
use agentpulse_rs.Protocol.Convert.{ProtocolMessage}
use agentpulse_rs.Protocol.Codec.{Bytes, Serde}
use agentpulse_rs.Protocol.Decimal.{serialize_u64}
use agentpulse_rs.Channels.Native.Error.{NativeProtocolError, invalid_domain_context}
use agentpulse_rs.Channels.Native.Message.{
  NativeDeliveryContext, ServerHello, SubscriptionResult, NativeServerMessage,
}
use agentpulse_rs.Channels.Native.Dto.{
  DeliveryContextDto, ServerHelloDto, SubscriptionResultDto, ServerMessageDto,
}
use agentpulse_rs.Channels.Native.Convert.Names.{
  encode_event_route, decode_event_route, encode_subscription_status, decode_subscription_status,
  encode_unsubscription_status, decode_unsubscription_status, encode_error_code, decode_error_code,
}
use agentpulse_rs.Channels.Native.Convert.Scalars.{
  parse_session_id, parse_sequence, encode_domain_value, decode_domain_value,
}

unfoldable pub encode_context : NativeDeliveryContext → DeliveryContextDto
encode_context (NativeDeliveryContext.discovery_provider r) =
    DeliveryContextDto.discovery_provider r
encode_context (NativeDeliveryContext.discovery_session r n) =
    DeliveryContextDto.discovery_session r (serialize_u64 n)
encode_context (NativeDeliveryContext.subscription_session r) =
    DeliveryContextDto.subscription_session r
encode_context (NativeDeliveryContext.subscription_interaction r t) =
    DeliveryContextDto.subscription_interaction r (encode_event_route t)
encode_context (NativeDeliveryContext.live_event t) =
    DeliveryContextDto.live_event (encode_event_route t)
encode_context NativeDeliveryContext.live_session = DeliveryContextDto.live_session

unfoldable pub decode_context :
    DeliveryContextDto → Result NativeProtocolError NativeDeliveryContext
decode_context (DeliveryContextDto.discovery_provider r) =
    ok (NativeDeliveryContext.discovery_provider r)
decode_context (DeliveryContextDto.discovery_session r n) = do
  last_sequence ← parse_sequence n
  ok (NativeDeliveryContext.discovery_session r last_sequence)
decode_context (DeliveryContextDto.subscription_session r) =
    ok (NativeDeliveryContext.subscription_session r)
decode_context (DeliveryContextDto.subscription_interaction r t) =
    ok (NativeDeliveryContext.subscription_interaction r (decode_event_route t))
decode_context (DeliveryContextDto.live_event t) =
    ok (NativeDeliveryContext.live_event (decode_event_route t))
decode_context DeliveryContextDto.live_session = ok NativeDeliveryContext.live_session

module _ (formats : Formats) where
  unfoldable pub encode_subscription_result : SubscriptionResult → SubscriptionResultDto
  encode_subscription_result x = record {
    request_id = x.request_id;
    session_id = formats.print_uuid x.session_id;
    status = encode_subscription_status x.status;
    baseline_sequence = serialize_u64 x.baseline_sequence;
    pending_interaction_count = x.pending_interaction_count;
    event_count = x.event_count;
    reset = x.reset;
  }

  unfoldable pub decode_subscription_result :
      SubscriptionResultDto → Result NativeProtocolError SubscriptionResult
  decode_subscription_result d = do
    session_id ← parse_session_id formats d.session_id
    baseline_sequence ← parse_sequence d.baseline_sequence
    ok (record {
      request_id = d.request_id;
      session_id = session_id;
      status = decode_subscription_status d.status;
      baseline_sequence = baseline_sequence;
      pending_interaction_count = d.pending_interaction_count;
      event_count = d.event_count;
      reset = d.reset;
    })

module _ {Value : Type 0} (serde : Serde Value) (write_value : Value → Result String Bytes)
    (flags : Flags) (formats : Formats) where
  unfoldable pub encode_server_hello :
      ServerHello → Result NativeProtocolError (ServerHelloDto Value)
  encode_server_hello h = do
    channel ←
        encode_domain_value serde write_value flags formats
          (ProtocolMessage.channel_descriptor h.channel)
    ok (record {
      connection_id = h.connection_id;
      channel = channel;
      protocol_version = h.protocol_version;
      max_frame_bytes = h.max_frame_bytes;
      ping_interval_seconds = h.ping_interval_seconds;
      idle_timeout_seconds = h.idle_timeout_seconds;
      host_run_id = h.host_run_id;
      resume_accepted = h.resume_accepted;
    })

  -- The hello with its Channel, if the message is one.
  unfoldable pub hello_of :
      ServerHelloDto Value → ProtocolMessage → Result NativeProtocolError ServerHello
  hello_of d (ProtocolMessage.channel_descriptor channel) = ok (record {
    connection_id = d.connection_id;
    channel = channel;
    protocol_version = d.protocol_version;
    max_frame_bytes = d.max_frame_bytes;
    ping_interval_seconds = d.ping_interval_seconds;
    idle_timeout_seconds = d.idle_timeout_seconds;
    host_run_id = d.host_run_id;
    resume_accepted = d.resume_accepted;
  })
  hello_of d _ = err (invalid_domain_context "server_hello" "non-channel_descriptor")

  unfoldable pub encode_server :
      NativeServerMessage → Result NativeProtocolError (ServerMessageDto Value)
  encode_server (NativeServerMessage.server_hello h) = do
    d ← encode_server_hello h
    ok (ServerMessageDto.server_hello d)
  encode_server (NativeServerMessage.sync_started r p s) = ok (ServerMessageDto.sync_started r p s)
  encode_server (NativeServerMessage.domain_message context message) = do
    domain ← encode_domain_value serde write_value flags formats message
    ok (ServerMessageDto.domain_message (encode_context context) domain)
  encode_server (NativeServerMessage.sync_completed r) = ok (ServerMessageDto.sync_completed r)
  encode_server (NativeServerMessage.subscription_result x) =
      ok (ServerMessageDto.subscription_result (encode_subscription_result formats x))
  encode_server (NativeServerMessage.unsubscription_result r k s) = ok (
      ServerMessageDto.unsubscription_result r (formats.print_uuid k)
        (encode_unsubscription_status s))
  encode_server (NativeServerMessage.interaction_response_result r k i) =
      ok (ServerMessageDto.interaction_response_result r (formats.print_uuid k) i)
  encode_server (NativeServerMessage.command_result r k i) =
      ok (ServerMessageDto.command_result r (formats.print_uuid k) i)
  encode_server (NativeServerMessage.error_message r code message recoverable) =
      ok (ServerMessageDto.error_message r (encode_error_code code) message recoverable)

  unfoldable pub decode_server :
      ServerMessageDto Value → Result NativeProtocolError NativeServerMessage
  decode_server (ServerMessageDto.server_hello d) = do
    message ← decode_domain_value serde write_value flags formats d.channel
    h ← hello_of d message
    ok (NativeServerMessage.server_hello h)
  decode_server (ServerMessageDto.sync_started r p s) = ok (NativeServerMessage.sync_started r p s)
  decode_server (ServerMessageDto.domain_message context domain) = do
    decoded ← decode_context context
    message ← decode_domain_value serde write_value flags formats domain
    ok (NativeServerMessage.domain_message decoded message)
  decode_server (ServerMessageDto.sync_completed r) = ok (NativeServerMessage.sync_completed r)
  decode_server (ServerMessageDto.subscription_result d) = do
    x ← decode_subscription_result formats d
    ok (NativeServerMessage.subscription_result x)
  decode_server (ServerMessageDto.unsubscription_result r k s) = do
    session_id ← parse_session_id formats k
    ok (NativeServerMessage.unsubscription_result r session_id (decode_unsubscription_status s))
  decode_server (ServerMessageDto.interaction_response_result r k i) = do
    session_id ← parse_session_id formats k
    ok (NativeServerMessage.interaction_response_result r session_id i)
  decode_server (ServerMessageDto.command_result r k i) = do
    session_id ← parse_session_id formats k
    ok (NativeServerMessage.command_result r session_id i)
  decode_server (ServerMessageDto.error_message r code message recoverable) =
      ok (NativeServerMessage.error_message r (decode_error_code code) message recoverable)
