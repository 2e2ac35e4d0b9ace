-- ===== src/Examples/Messages.antt =====
-- The theorems on the JSON codec at a command, with stand-ins for the crates: identifiers and times
-- are texts of one character, and only a `status` command is written.
use agentpulse_rs.Common.{
  ℕ, ◌≡◌, ◌<◌, refl, [], ◌∷◌, Option, none, some, Result, ok, err, String, arith, ap, ◌↔◌, sym, ◌^◌,
}
use agentpulse_rs.Domain.Error.{Text}
use agentpulse_rs.Domain.Identifiers.{Formats, ReadsBack, from_str, try_from_uuid}
use agentpulse_rs.Domain.Command.{AgentCommandPayload}
use agentpulse_rs.Protocol.Dto.Interactions.{AgentCommandPayloadDto}
use agentpulse_rs.Protocol.Dto.{MessageDto, EnvelopeDto}
use agentpulse_rs.Protocol.Convert.{
  ProtocolMessage, encode_envelope, encode_body, decode_envelope, decode_body,
}
use agentpulse_rs.Protocol.Convert.Commands.{
  encode_command, encode_command_payload, decode_command, decode_command_payload,
}
use agentpulse_rs.Protocol.Convert.Scalars.{encode_timestamp, decode_timestamp, parse_id}
use agentpulse_rs.Protocol.RoundTrip.Capabilities.{AreMasks}
use agentpulse_rs.Protocol.RoundTrip.Envelope.{IsConstructed}
use agentpulse_rs.Protocol.Codec.{
  Bytes, Serde, Rereads, encode_json, decode_json, decode_json-encode_json,
  decode_json-IsConstructed,
}
use agentpulse_rs.Protocol.Decimal.{visit_str, serialize_u64}
use agentpulse_rs.Protocol.Decimal.Laws.{visit_str-serialize_u64}
use agentpulse_rs.Examples.{bits}

pub bits-AreMasks : AreMasks bits
bits-AreMasks = record { contains_mask = λ a b. refl; union_mask = λ a b. refl }

abbrev single : Text → Option ℕ
single (c ∷ []) = some c
single _ = none

abbrev time_of : Option ℕ → Result String ℕ
time_of none = err "not a time"
time_of (some t) = ok t

abbrev pub plain : Formats
plain = record {
  parse_uuid = single;
  print_uuid = λ id. id ∷ [];
  version_of = λ id. 7;
  format_time = λ t. ok (t ∷ []);
  parse_time = λ s. time_of (single s);
}

pub plain-ReadsBack : ReadsBack plain
plain-ReadsBack = record { uuid_back = λ id. refl; time_back = λ t s e. from_one t s e }
  where
    from_one : (t : ℕ) (s : Text) → plain.format_time t ≡ ok s → time_of (single s) ≡ ok t
    from_one t [] e = ground arith
    from_one t (c ∷ []) e = ground arith
    from_one t (c ∷ d ∷ s) e = ground arith

abbrev write_command : ℕ → Text → Text → Text → Text → AgentCommandPayloadDto → Result String Bytes
write_command v (a ∷ []) (b ∷ []) (c ∷ []) (t ∷ []) AgentCommandPayloadDto.status =
    ok (v ∷ a ∷ b ∷ c ∷ t ∷ [])
write_command v id session_id channel_id issued_at payload = err "not written"

abbrev status_envelope : ℕ → Text → Text → Text → Text → AgentCommandPayloadDto → EnvelopeDto
status_envelope v id session_id channel_id issued_at payload = record {
  protocol_version = v;
  message = MessageDto.agent_command (record {
    id = id;
    session_id = session_id;
    channel_id = channel_id;
    issued_at = issued_at;
    payload = payload;
  });
}

abbrev write_message : ℕ → MessageDto → Result String Bytes
write_message v (MessageDto.agent_command c) =
    write_command v c.id c.session_id c.channel_id c.issued_at c.payload
write_message v _ = err "not written"

abbrev read_command : Bytes → Result String EnvelopeDto
read_command (v ∷ a ∷ b ∷ c ∷ t ∷ []) =
    ok (status_envelope v (a ∷ []) (b ∷ []) (c ∷ []) (t ∷ []) AgentCommandPayloadDto.status)
read_command _ = err "not read"

abbrev small_serde : Serde EnvelopeDto
small_serde = record {
  to_vec = λ d. write_message d.protocol_version d.message;
  from_slice = read_command;
  version_field = λ v. some v.protocol_version;
  from_value = λ v. ok v;
}

write_command-read :
    (v : ℕ) (i s c t : Text) (p : AgentCommandPayloadDto) (bytes : Bytes)
    → write_command v i s c t p ≡ ok bytes
    → read_command bytes ≡ ok (status_envelope v i s c t p)
write_command-read v (a ∷ []) (b ∷ []) (c ∷ []) (t ∷ []) AgentCommandPayloadDto.status bytes e =
    let same : v ∷ a ∷ b ∷ c ∷ t ∷ [] ≡ bytes = ground arith in ap read_command (sym same)
write_command-read v i s c t p bytes e = cc

write_message-read :
    (v : ℕ) (m : MessageDto) (bytes : Bytes)
    → write_message v m ≡ ok bytes
    → read_command bytes ≡ ok (record { protocol_version = v; message = m })
write_message-read v (MessageDto.agent_command c) bytes e =
    write_command-read v c.id c.session_id c.channel_id c.issued_at c.payload bytes e
write_message-read v m bytes e = cc

small_serde-Rereads : Rereads small_serde
small_serde-Rereads d s e = (d, write_message-read d.protocol_version d.message s e, refl, refl)

abbrev status_command : ProtocolMessage
status_command = ProtocolMessage.agent_command (record {
  id = 21;
  session_id = 10;
  channel_id = 5;
  issued_at = 90;
  payload = AgentCommandPayload.status;
})

decode_json-encode_json_example :
    decode_json small_serde bits plain (2 ∷ 21 ∷ 10 ∷ 5 ∷ 90 ∷ []) ≡ ok status_command
unfolding encode_json encode_envelope encode_body encode_command encode_command_payload
    encode_timestamp
decode_json-encode_json_example =
    decode_json-encode_json small_serde bits plain bits-AreMasks plain-ReadsBack small_serde-Rereads
      status_command (record { id = refl; session_id = refl; channel_id = refl; payload = tt })
      (2 ∷ 21 ∷ 10 ∷ 5 ∷ 90 ∷ []) refl

decode_json-IsConstructed_example : IsConstructed plain status_command
unfolding decode_json decode_envelope decode_body decode_command decode_command_payload
    decode_timestamp parse_id from_str try_from_uuid
decode_json-IsConstructed_example =
    decode_json-IsConstructed small_serde bits plain bits-AreMasks (2 ∷ 21 ∷ 10 ∷ 5 ∷ 90 ∷ [])
      status_command refl

visit_str-serialize_u64_example :
    (visit_str (b'1' ∷ b'0' ∷ []) ≡ ok 10) ↔ ((10 < 2 ^ 64) × (b'1' ∷ b'0' ∷ [] ≡ serialize_u64 10))
visit_str-serialize_u64_example = visit_str-serialize_u64 (b'1' ∷ b'0' ∷ []) 10
