-- ===== src/Channels/Native/RoundTrip/Scalars.antt =====
-- Identities, sequences and domain messages inside Native messages are read back.
use agentpulse_rs.Common.{
  ℕ, ◌<◌, ◌≡◌, [], ◌∷◌, some, Result, ok, map_err, arith, bind-ok, String, suc,
}
use agentpulse_rs.Domain.Error.{Text}
use agentpulse_rs.Domain.Value.{u64_end, new_counter}
use agentpulse_rs.Domain.Session.{Uuid}
use agentpulse_rs.Domain.Capability.{Flags}
use agentpulse_rs.Domain.Identifiers.{Formats, ReadsBack, IsV7, from_str-print_uuid}
use agentpulse_rs.Protocol.Codec.{
  Bytes, Serde, Rereads, encode_json, decode_json, decode_json-encode_json,
}
use agentpulse_rs.Protocol.Convert.{ProtocolMessage}
use agentpulse_rs.Protocol.RoundTrip.Capabilities.{AreMasks}
use agentpulse_rs.Protocol.RoundTrip.Envelope.{IsConstructed}
use agentpulse_rs.Protocol.Decimal.{serialize_u64, parse_from}
use agentpulse_rs.Protocol.Decimal.Laws.{IsCanonical, parse_from-digits, serialize_u64-IsCanonical}
use agentpulse_rs.Channels.Native.Error.{domain_protocol}
use agentpulse_rs.Channels.Native.Convert.Scalars.{
  parse_u64, parse_session_id, parse_sequence, encode_domain_value, decode_domain_value,
}

-- What serde_json documents of the values that a domain message is encoded to, which hold no float
-- and were parsed before: each can be written, and is read back.
abbrev pub WritesValues :
    {Value : Type 0} → Serde Value → (Value → Result String Bytes) → Flags → Formats → Type 0
WritesValues {Value} serde write_value flags formats =
    (m : ProtocolMessage) (v : Value)
    → encode_domain_value serde write_value flags formats m ≡ ok v
    → (s : Bytes) × (write_value v ≡ ok s) × (serde.from_slice s ≡ ok v)

-- A positive number of 64 bits.
abbrev pub IsSequence : ℕ → Type 0
IsSequence n = (0 < n) × (n < u64_end)

parse_u64-canonical :
    (s : Text) (n : ℕ) → IsCanonical s → parse_from 0 s ≡ some n → parse_u64 s ≡ some n
unfolding parse_u64
parse_u64-canonical [] n c e = cc
parse_u64-canonical (d ∷ s) n c e = ground arith

pub parse_u64-serialize_u64 : (n : ℕ) → n < u64_end → parse_u64 (serialize_u64 n) ≡ some n
parse_u64-serialize_u64 n small =
    parse_u64-canonical (serialize_u64 n) n (serialize_u64-IsCanonical n)
      (unfold serialize_u64 in parse_from-digits (suc n) n (omega arith) small)

pub sequence_back : (n : ℕ) → IsSequence n → parse_sequence (serialize_u64 n) ≡ ok n
unfolding parse_sequence new_counter
sequence_back n v =
    let canonical = serialize_u64-IsCanonical n in
    ground (arith, canonical, parse_u64-serialize_u64 n v.1)

module _ (formats : Formats) (back : ReadsBack formats) where
  pub session_id_back :
      (k : Uuid) → IsV7 formats k → parse_session_id formats (formats.print_uuid k) ≡ ok k
  unfolding parse_session_id
  session_id_back k v = ground (arith, from_str-print_uuid formats back "session ID" k v)

module _ {Value : Type 0} (serde : Serde Value) (write_value : Value → Result String Bytes)
    (flags : Flags) (formats : Formats) where
  -- Only the value that is parsed matters.
  decode_json_same :
      (s t : Bytes)
      → serde.from_slice s ≡ serde.from_slice t
      → decode_json serde flags formats s ≡ decode_json serde flags formats t
  unfolding decode_json
  decode_json_same s t same = cc

  pub domain_value_back :
      (masks : AreMasks flags) (back : ReadsBack formats) (rereads : Rereads serde)
      (writes : WritesValues serde write_value flags formats)
      → (m : ProtocolMessage) → IsConstructed formats m
      → (v : Value) → encode_domain_value serde write_value flags formats m ≡ ok v
      → decode_domain_value serde write_value flags formats v ≡ ok m
  unfolding encode_domain_value decode_domain_value
  domain_value_back masks back rereads writes m c v e =
      let (bytes, written, e1) =
        bind-ok (map_err domain_protocol (encode_json serde flags formats m)) _ v e in
      let (s, rewritten, reread) = writes m v e in
      let same : serde.from_slice s ≡ serde.from_slice bytes = ground arith in
      let decoded =
        decode_json-encode_json serde flags formats masks back rereads m c bytes (ground arith) in
      ground (arith, decode_json_same s bytes same)
