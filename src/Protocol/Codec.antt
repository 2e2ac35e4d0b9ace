-- ===== src/Protocol/Codec.antt =====
-- agentpulse-protocol/src/codec.rs: messages as JSON. `Serde` is what the program uses of serde_json
-- and of the derived implementations: an envelope as bytes, and bytes as a JSON value, which has a
-- protocol version as an integer or not and is an envelope or not. An error is kept as its text.
use agentpulse_rs.Common.{
  ℕ, ◌≡◌, Option, some, Result, ok, err, map_err, not, ◌==◌, ◌>>=◌, ok_or, if◌then◌else◌, String,
  arith, bind-ok, List,
}
use agentpulse_rs.Domain.Capability.{Flags}
use agentpulse_rs.Domain.Identifiers.{Formats, ReadsBack}
use agentpulse_rs.Protocol.Error.{
  ProtocolError, json_encode, json_decode, invalid_wire_value, unsupported_protocol_version,
  v2_protocol_version,
}
use agentpulse_rs.Protocol.Dto.{EnvelopeDto}
use agentpulse_rs.Protocol.Convert.{ProtocolMessage, encode_envelope, decode_envelope}
use agentpulse_rs.Protocol.RoundTrip.Capabilities.{AreMasks}
use agentpulse_rs.Protocol.RoundTrip.Envelope.{IsConstructed, decode_envelope-encode_envelope}
use agentpulse_rs.Protocol.Sound.Envelope.{decode_envelope-IsConstructed}

abbrev pub Bytes : Type 0
Bytes = List ℕ

pub record Serde (Value : Type 0) : Type 0 where
  pub to_vec : EnvelopeDto → Result String Bytes
  pub from_slice : Bytes → Result String Value
  pub version_field : Value → Option ℕ
  pub from_value : Value → Result String EnvelopeDto

-- What serde_json documents of values with derived implementations: it reads back what it wrote.
abbrev pub Rereads : {Value : Type 0} → Serde Value → Type 0
Rereads {Value} serde =
    (d : EnvelopeDto) (s : Bytes)
    → serde.to_vec d ≡ ok s
    → (v : Value) × (serde.from_slice s ≡ ok v)
      × (serde.version_field v ≡ some d.protocol_version)
      × (serde.from_value v ≡ ok d)

module _ {Value : Type 0} (serde : Serde Value) (flags : Flags) (formats : Formats) where
  unfoldable pub encode_json : ProtocolMessage → Result ProtocolError Bytes
  encode_json message = do
    envelope ← encode_envelope flags formats message
    map_err json_encode (serde.to_vec envelope)

  abbrev pub expected_integer : ProtocolError
  expected_integer = invalid_wire_value "protocol_version" "expected an unsigned JSON integer"

  -- What follows the test of the version.
  abbrev pub decode_supported : Value → Result ProtocolError ProtocolMessage
  decode_supported value = do
    envelope ← map_err json_decode (serde.from_value value)
    decode_envelope flags formats envelope

  unfoldable pub decode_json : Bytes → Result ProtocolError ProtocolMessage
  decode_json input = do
    value ← map_err json_decode (serde.from_slice input)
    received ← ok_or (serde.version_field value) expected_integer
    if not (received == v2_protocol_version)
        then err (unsupported_protocol_version received v2_protocol_version)
        else decode_supported value

  -- A message that the constructors of the domain allow is read back exactly from the bytes that
  -- are written for it. The bitflags crate works on masks of bits, and the uuid, time and
  -- serde_json crates read back what they wrote.
  pub decode_json-encode_json :
      (masks : AreMasks flags) (back : ReadsBack formats) (rereads : Rereads serde)
      → (m : ProtocolMessage) → IsConstructed formats m
      → (s : Bytes) → encode_json m ≡ ok s
      → decode_json s ≡ ok m
  unfolding encode_json decode_json encode_envelope
  decode_json-encode_json masks back rereads m v s e =
      let (d, written, e1) = bind-ok (encode_envelope flags formats m) _ s e in
      let (value, parsed, version, read) = rereads d s (ground arith) in
      ground (arith, decode_envelope-encode_envelope flags masks formats back m v d written)

  -- Whatever bytes are read, a message that comes out is one that the constructors of the domain
  -- allow: texts are visible, identifiers are of version 7 and differ within a list, counters are
  -- positive, times are in order, options and answers are as their types require, events speak of
  -- their own session, and sets have only declared bits. The bitflags crate works on masks.
  pub decode_json-IsConstructed :
      (masks : AreMasks flags) (s : Bytes) (m : ProtocolMessage)
      → decode_json s ≡ ok m
      → IsConstructed formats m
  unfolding decode_json
  decode_json-IsConstructed masks s m e =
      let (value, parsed, e1) = bind-ok (map_err json_decode (serde.from_slice s)) _ m e in
      let (received, version, e2) =
        bind-ok (ok_or (serde.version_field value) expected_integer) _ m e1 in
      let supported : decode_supported value ≡ ok m = ground arith in
      let (d, read, e3) = bind-ok (map_err json_decode (serde.from_value value)) _ m supported in
      (decode_envelope-IsConstructed flags masks formats d m e3).1
