-- ===== src/Protocol/Convert/Scalars.antt =====
-- agentpulse-protocol/src/v2/convert.rs: identifiers, texts, counters and timestamps.
use agentpulse_rs.Common.{ℕ, Option, Result, map_err, try_option, map_option, String}
use agentpulse_rs.Domain.Error.{DomainError, Text}
use agentpulse_rs.Domain.Value.{NonEmptyText, Timestamp, new_text, new_counter}
use agentpulse_rs.Domain.Session.{Uuid}
use agentpulse_rs.Domain.Identifiers.{Formats, from_str}
use agentpulse_rs.Protocol.Error.{ProtocolError, domain, invalid_wire_value}

-- `From<DomainError>`, which the `?` operator applies.
abbrev pub lift {ℓ} : {A : Type ℓ} → Result DomainError A → Result ProtocolError A
lift r = map_err domain r

-- `NonEmptyText::new(value)?`.
unfoldable pub decode_text : Text → Result ProtocolError NonEmptyText
decode_text value = lift (new_text value)

abbrev pub encode_text : NonEmptyText → Text
encode_text t = t.text

unfoldable pub decode_optional_text : Option Text → Result ProtocolError (Option NonEmptyText)
decode_optional_text value = try_option decode_text value

abbrev pub encode_optional_text : Option NonEmptyText → Option Text
encode_optional_text value = map_option encode_text value

-- `Revision::new` and `EventSequence::new`.
unfoldable pub decode_counter : String → ℕ → Result ProtocolError ℕ
decode_counter field value = lift (new_counter field value)

module _ (formats : Formats) where
  -- The entity is that of the type that the identifier is parsed to.
  unfoldable pub parse_id : String → Text → Result ProtocolError Uuid
  parse_id entity value = lift (from_str formats entity value)

  unfoldable pub encode_timestamp : Timestamp → String → Result ProtocolError Text
  encode_timestamp value field = map_err (invalid_wire_value field) (formats.format_time value)

  unfoldable pub decode_timestamp : Text → String → Result ProtocolError Timestamp
  decode_timestamp value field = map_err (invalid_wire_value field) (formats.parse_time value)
