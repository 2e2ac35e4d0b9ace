-- ===== src/Examples/Native.antt =====
-- The theorems on the Native Channel, at a client that subscribes to a session.
use agentpulse_rs.Common.{◌↔◌}
use agentpulse_rs.Domain.Session.{Uuid}
use agentpulse_rs.Domain.Identifiers.{IsV7}
use agentpulse_rs.Channels.Native.Validate.Laws.{validate_uuid_v7-ok}
use agentpulse_rs.Channels.Native.Validate.Hello.{IsHello, validate_hello-IsHello}
use agentpulse_rs.Channels.Native.Validate.{validate_hello}
use agentpulse_rs.Channels.Native.Message.{ClientHello}
use agentpulse_rs.Common.{◌≡◌, refl, [], ◌∷◌, none, some, true, false, ok, arith}
use agentpulse_rs.Common.Map.{get}
use agentpulse_rs.Domain.Session.{AgentState}
use agentpulse_rs.Domain.Event.{AgentEvent, AgentEventPayload, embedded_session_id}
use agentpulse_rs.Routing.{observe_only}
use agentpulse_rs.Bridge.State.{ChannelSessionSync, deliver_session_sync}
use agentpulse_rs.Protocol.Convert.Names.{encode_agent_state}
use agentpulse_rs.Protocol.Convert.Scalars.{encode_timestamp}
use agentpulse_rs.Protocol.Convert.{
  ProtocolMessage, encode_event_payload, encode_event, encode_body, encode_envelope,
}
use agentpulse_rs.Protocol.Codec.{Bytes, encode_json}
use agentpulse_rs.Protocol.RoundTrip.Envelope.{IsConstructed}
use agentpulse_rs.Channels.Native.Message.{
  NativeClientMessage, NativeDeliveryContext, NativeEventRoute, NativeServerMessage, from_core,
}
use agentpulse_rs.Channels.Native.Validate.{
  same_text, validate_uuid_v7, validate_client_message, validate_server_message,
  validate_delivery_context, check_request, context_matches,
}
use agentpulse_rs.Channels.Native.Convert.Names.{encode_event_route}
use agentpulse_rs.Channels.Native.Convert.Scalars.{encode_domain_value}
use agentpulse_rs.Channels.Native.Convert.Client.{encode_client}
use agentpulse_rs.Channels.Native.Convert.Server.{encode_server, encode_context}
use agentpulse_rs.Channels.Native.Codec.{
  encode_client_message, decode_client_message, encode_server_message, decode_server_message,
  write_envelope,
}
use agentpulse_rs.Channels.Native.RoundTrip.{MadeByClient, MadeByServer}
use agentpulse_rs.Channels.Native.RoundTrip.Client.{decode_client_message-encode_client_message}
use agentpulse_rs.Channels.Native.RoundTrip.Server.{decode_server_message-encode_server_message}
use agentpulse_rs.Channels.Native.State.{
  NativeChannelSnapshot, NativeChannelHealth, PendingSubscription, DeliveryState, enqueue,
}
use agentpulse_rs.Channels.Native.Port.{
  port_call, port_deliver, encoded_text, prepared_sync, sync_frames, event_frame,
}
use agentpulse_rs.Channels.Native.Port.Context.{delivery_context}
use agentpulse_rs.Channels.Native.Port.Queues.{put_frame, put_all}
use agentpulse_rs.Channels.Native.Port.Utf8.{lead, utf8_from, is_utf8}
use agentpulse_rs.Channels.Native.Port.Written.{Writes, port_call-Writes}
use agentpulse_rs.Channels.Native.Port.Delivered.{IsDelivered, port_deliver-IsDelivered}
use agentpulse_rs.Examples.{bits, event}
use agentpulse_rs.Examples.Messages.{plain, bits-AreMasks, plain-ReadsBack}
use agentpulse_rs.Examples.Wires.{
  idle_serde, idle_serde-Rereads, write_value, written_values, server_wire, server_wire-Rereads,
  client_wire, client_wire-Rereads,
}

abbrev wanted : NativeClientMessage
wanted = NativeClientMessage.subscribe_session (21 ∷ []) 10

decode_client_message_example :
    decode_client_message idle_serde write_value bits plain client_wire (3 ∷ 21 ∷ 10 ∷ [])
    ≡ ok wanted
unfolding encode_client_message write_envelope validate_client_message validate_uuid_v7 same_text
    encode_client
decode_client_message_example =
    decode_client_message-encode_client_message idle_serde write_value bits plain bits-AreMasks
      plain-ReadsBack idle_serde-Rereads (written_values bits plain) client_wire
      (client_wire-Rereads (MadeByClient idle_serde write_value bits plain)) wanted refl
      (3 ∷ 21 ∷ 10 ∷ []) refl

abbrev idled : AgentEvent
idled = record (event 4 90 (AgentEventPayload.state_changed AgentState.idle)) { id = 31 }

abbrev idle_message : ProtocolMessage
idle_message = ProtocolMessage.agent_event idled

abbrev sent : NativeServerMessage
sent =
    NativeServerMessage.domain_message
      (NativeDeliveryContext.live_event NativeEventRoute.route_observe_only) idle_message

abbrev idle_frame : Bytes
idle_frame = 3 ∷ 2 ∷ 31 ∷ 10 ∷ 4 ∷ 90 ∷ []

idle_message-IsConstructed : IsConstructed plain idle_message
unfolding embedded_session_id
idle_message-IsConstructed = record {
  id = refl;
  session_id = refl;
  sequence = omega arith;
  embedded = tt;
  payload = tt;
}

decode_server_message_example :
    decode_server_message idle_serde write_value bits plain server_wire idle_frame ≡ ok sent
unfolding encode_server_message write_envelope validate_server_message validate_delivery_context
    check_request context_matches encode_server encode_domain_value encode_json encode_envelope
    encode_body encode_event encode_event_payload encode_agent_state encode_timestamp encode_context
    encode_event_route
decode_server_message_example =
    decode_server_message-encode_server_message idle_serde write_value bits plain bits-AreMasks
      plain-ReadsBack idle_serde-Rereads (written_values bits plain) server_wire
      (server_wire-Rereads (MadeByServer idle_serde write_value bits plain)) sent
      (tt, idle_message-IsConstructed) idle_frame refl

abbrev snapshot : NativeChannelSnapshot
snapshot = record {
  health = NativeChannelHealth.connected;
  local_address = none;
  client_id = none;
  connections = 1;
  discoveries = 1;
  subscriptions = 1;
  domain_frames = 7;
  frames_sent = 0;
  frames_received = 0;
  disconnects = 0;
  last_error = none;
}

-- A client that subscribes to the session 10, and room for one frame.
abbrev connected : DeliveryState
connected = record {
  client = some (record {
    discovered = (10, tt) ∷ [];
    subscriptions = (10, tt) ∷ [];
    pending = none;
    session_cursors = [];
  });
  outgoing = [];
  abort_reason = none;
  capacity = 1;
  status = snapshot;
}

abbrev after_delivery : DeliveryState
after_delivery = record connected {
  outgoing = idle_frame ∷ [];
  status = record snapshot { domain_frames = 8 };
}

-- A client that awaits its subscription to the session 10, and one event to send before.
abbrev awaited : PendingSubscription
awaited = record {
  session_id = 10;
  request_id = 21 ∷ [];
  frames = [];
  sync_delivered = false;
  trailing_frames = [];
}

abbrev awaiting : PendingSubscription → NativeChannelSnapshot → DeliveryState
awaiting p status = record {
  client = some (record {
    discovered = (10, tt) ∷ [];
    subscriptions = [];
    pending = some p;
    session_cursors = [];
  });
  outgoing = [];
  abort_reason = none;
  capacity = 1;
  status = status;
}

abbrev one_event : ChannelSessionSync
one_event = record {
  after_sequence = 3;
  through_sequence = 4;
  reset = false;
  events = record { event = idled; route = observe_only } ∷ [];
  baseline = none;
}

abbrev after_sync : DeliveryState
after_sync =
    awaiting (record awaited { frames = idle_frame ∷ []; sync_delivered = true })
      (record snapshot { domain_frames = 8 })

port_call_example :
    Writes idle_serde write_value server_wire bits plain
      (deliver_session_sync one_event)
      (awaiting awaited snapshot)
      (awaiting awaited snapshot)
      (after_sync, ok tt)
unfolding port_call prepared_sync sync_frames event_frame put_all same_text from_core encoded_text
    encode_server_message write_envelope validate_server_message validate_delivery_context
    check_request context_matches encode_server encode_domain_value encode_json encode_envelope
    encode_body encode_event encode_event_payload encode_agent_state encode_timestamp encode_context
    encode_event_route is_utf8 utf8_from lead
port_call_example =
    port_call-Writes idle_serde write_value server_wire bits plain bits-AreMasks plain-ReadsBack
      idle_serde-Rereads (written_values bits plain)
      (server_wire-Rereads (MadeByServer idle_serde write_value bits plain)) (λ s. s)
      (deliver_session_sync one_event) (awaiting awaited snapshot) (omega arith)
      ((idle_message-IsConstructed, tt), tt)

port_deliver_example :
    IsDelivered idle_serde write_value server_wire bits plain 10 idle_message
      (some observe_only)
      connected
      after_delivery
unfolding port_deliver delivery_context from_core get encoded_text encode_server_message
    write_envelope validate_server_message validate_delivery_context check_request context_matches
    encode_server encode_domain_value encode_json encode_envelope encode_body encode_event
    encode_event_payload encode_agent_state encode_timestamp encode_context encode_event_route
    is_utf8 utf8_from lead put_frame enqueue
port_deliver_example =
    port_deliver-IsDelivered idle_serde write_value server_wire bits plain bits-AreMasks
      plain-ReadsBack idle_serde-Rereads (written_values bits plain)
      (server_wire-Rereads (MadeByServer idle_serde write_value bits plain)) 10 idle_message
      (some observe_only) connected after_delivery idle_message-IsConstructed refl

validate_uuid_v7_example :
    (validate_uuid_v7 plain "request_id" (21 ∷ []) ≡ ok tt)
    ↔ ((id : Uuid) × IsV7 plain id × (21 ∷ [] ≡ plain.print_uuid id))
validate_uuid_v7_example = validate_uuid_v7-ok plain plain-ReadsBack "request_id" (21 ∷ [])

-- A client that has no run and no cursors, and offers two versions.
abbrev hello : ClientHello
hello = record {
  client_id = 21 ∷ [];
  display_name = 104 ∷ 105 ∷ [];
  version = none;
  supported_protocol_versions = 3 ∷ 2 ∷ [];
  host_run_id = none;
  session_cursors = [];
}

validate_hello_example : (validate_hello plain hello ≡ ok tt) ↔ IsHello plain hello
validate_hello_example = validate_hello-IsHello plain plain-ReadsBack hello
