-- ===== src/Examples/Wires.antt =====
-- Stand-ins for serde_json: a JSON value is its bytes; only the event that a session is idle is
-- written, as a live event that is observed, and only the subscription of a client.
use agentpulse_rs.Common.{
  ℕ, ◌≡◌, refl, [], ◌∷◌, Option, none, some, Result, ok, err, String, arith, ap, sym,
}
use agentpulse_rs.Domain.Error.{Text}
use agentpulse_rs.Protocol.Dto.Names.{AgentStateDto}
use agentpulse_rs.Protocol.Dto.{AgentEventPayloadDto, MessageDto, EnvelopeDto}
use agentpulse_rs.Protocol.Codec.{Bytes, Serde, Rereads}
use agentpulse_rs.Channels.Native.Dto.{
  Envelope, ClientMessageDto, ServerMessageDto, DeliveryContextDto, EventRouteDto,
}
use agentpulse_rs.Domain.Capability.{Flags}
use agentpulse_rs.Domain.Identifiers.{Formats}
use agentpulse_rs.Channels.Native.Codec.{Wire, native_transport_version}
use agentpulse_rs.Channels.Native.RoundTrip.Scalars.{WritesValues}
use agentpulse_rs.Channels.Native.RoundTrip.{RereadsWire}

abbrev pub write_idle : ℕ → Text → Text → ℕ → Text → AgentEventPayloadDto → Result String Bytes
write_idle v (a ∷ []) (b ∷ []) n (t ∷ []) (AgentEventPayloadDto.state_changed AgentStateDto.idle) =
    ok (v ∷ a ∷ b ∷ n ∷ t ∷ [])
write_idle v id session_id sequence occurred_at payload = err "not written"

abbrev pub idle_envelope : ℕ → Text → Text → ℕ → Text → AgentEventPayloadDto → EnvelopeDto
idle_envelope v id session_id sequence occurred_at payload = record {
  protocol_version = v;
  message = MessageDto.agent_event (record {
    id = id;
    session_id = session_id;
    sequence = sequence;
    occurred_at = occurred_at;
    payload = payload;
  });
}

abbrev pub write_message : ℕ → MessageDto → Result String Bytes
write_message v (MessageDto.agent_event e) =
    write_idle v e.id e.session_id e.sequence e.occurred_at e.payload
write_message v _ = err "not written"

abbrev pub read_idle : Bytes → Result String EnvelopeDto
read_idle (v ∷ a ∷ b ∷ n ∷ t ∷ []) = ok (
    idle_envelope v (a ∷ []) (b ∷ []) n (t ∷ [])
      (AgentEventPayloadDto.state_changed AgentStateDto.idle))
read_idle _ = err "not read"

abbrev pub first_byte : Bytes → Option ℕ
first_byte [] = none
first_byte (v ∷ s) = some v

abbrev pub idle_serde : Serde Bytes
idle_serde = record {
  to_vec = λ d. write_message d.protocol_version d.message;
  from_slice = λ s. ok s;
  version_field = first_byte;
  from_value = read_idle;
}

write_idle-read :
    (v : ℕ) (i k : Text) (n : ℕ) (t : Text) (p : AgentEventPayloadDto) (s : Bytes)
    → write_idle v i k n t p ≡ ok s
    → (first_byte s ≡ some v) × (read_idle s ≡ ok (idle_envelope v i k n t p))
write_idle-read v (a ∷ []) (b ∷ []) n (t ∷ [])
      (AgentEventPayloadDto.state_changed AgentStateDto.idle) s e =
    let same : v ∷ a ∷ b ∷ n ∷ t ∷ [] ≡ s = ground arith in
    (ap first_byte (sym same), ap read_idle (sym same))
write_idle-read v i k n t p s e = absurd cc

write_message-read :
    (v : ℕ) (m : MessageDto) (s : Bytes)
    → write_message v m ≡ ok s
    → (first_byte s ≡ some v) × (read_idle s ≡ ok (record { protocol_version = v; message = m }))
write_message-read v (MessageDto.agent_event e) s h =
    write_idle-read v e.id e.session_id e.sequence e.occurred_at e.payload s h
write_message-read v m s h = absurd cc

pub idle_serde-Rereads : Rereads idle_serde
idle_serde-Rereads d s e =
    let (version, read) = write_message-read d.protocol_version d.message s e in
    (s, refl, version, read)

abbrev pub write_value : Bytes → Result String Bytes
write_value s = ok s

pub written_values :
    (flags : Flags) (formats : Formats) → WritesValues idle_serde write_value flags formats
written_values flags formats m v e = (v, refl, refl)

abbrev pub live_observed : DeliveryContextDto
live_observed = DeliveryContextDto.live_event EventRouteDto.observe_only

abbrev pub write_server : ℕ → ServerMessageDto Bytes → Result String Bytes
write_server v
      (ServerMessageDto.domain_message
        (DeliveryContextDto.live_event EventRouteDto.observe_only)
        domain) =
    ok (v ∷ domain)
write_server v _ = err "not written"

abbrev pub read_server : Bytes → Result String (Envelope (ServerMessageDto Bytes))
read_server [] = err "not read"
read_server (v ∷ s) = ok (record {
  native_transport_version = v;
  message = ServerMessageDto.domain_message live_observed s;
})

abbrev pub server_wire : Wire Bytes (ServerMessageDto Bytes)
server_wire = record {
  to_vec = λ d. write_server d.native_transport_version d.message;
  from_slice = λ s. ok s;
  version_field = first_byte;
  from_value = read_server;
}

write_server-read :
    (v : ℕ) (m : ServerMessageDto Bytes) (s : Bytes)
    → write_server v m ≡ ok s
    → (first_byte s ≡ some v)
      × (read_server s ≡ ok (record { native_transport_version = v; message = m }))
write_server-read v
      (ServerMessageDto.domain_message
        (DeliveryContextDto.live_event EventRouteDto.observe_only)
        domain)
      s e =
    let same : v ∷ domain ≡ s = ground arith in
    (ap first_byte (sym same), ap read_server (sym same))
write_server-read v m s e = absurd cc

pub server_wire-Rereads : (Made : ServerMessageDto Bytes → Type 0) → RereadsWire server_wire Made
server_wire-Rereads Made d s made e =
    let (version, read) = write_server-read native_transport_version d s e in
    (s, refl, version, read)

abbrev pub write_client : ℕ → ClientMessageDto Bytes → Result String Bytes
write_client v (ClientMessageDto.subscribe_session (r ∷ []) (k ∷ [])) = ok (v ∷ r ∷ k ∷ [])
write_client v _ = err "not written"

abbrev pub read_client : Bytes → Result String (Envelope (ClientMessageDto Bytes))
read_client (v ∷ r ∷ k ∷ []) = ok (record {
  native_transport_version = v;
  message = ClientMessageDto.subscribe_session (r ∷ []) (k ∷ []);
})
read_client _ = err "not read"

abbrev pub client_wire : Wire Bytes (ClientMessageDto Bytes)
client_wire = record {
  to_vec = λ d. write_client d.native_transport_version d.message;
  from_slice = λ s. ok s;
  version_field = first_byte;
  from_value = read_client;
}

write_client-read :
    (v : ℕ) (m : ClientMessageDto Bytes) (s : Bytes)
    → write_client v m ≡ ok s
    → (first_byte s ≡ some v)
      × (read_client s ≡ ok (record { native_transport_version = v; message = m }))
write_client-read v (ClientMessageDto.subscribe_session (r ∷ []) (k ∷ [])) s e =
    let same : v ∷ r ∷ k ∷ [] ≡ s = ground arith in
    (ap first_byte (sym same), ap read_client (sym same))
write_client-read v m s e = absurd cc

pub client_wire-Rereads : (Made : ClientMessageDto Bytes → Type 0) → RereadsWire client_wire Made
client_wire-Rereads Made d s made e =
    let (version, read) = write_client-read native_transport_version d s e in
    (s, refl, version, read)
