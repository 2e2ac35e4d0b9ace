-- ===== src/Channels/Native/Convert/Scalars.antt =====
-- agentpulse-channels/native/src/protocol.rs: identities, cursors, and the domain messages that a
-- Native message carries as a JSON value.
use agentpulse_rs.Common.{
  ℕ, not, ◌&&◌, ◌||◌, List, [], ◌∷◌, Option, none, some, Result, ok, err, map_err, ltb, ◌==◌, ◌>>=◌,
  if◌then◌else◌, all, length, String,
}
use agentpulse_rs.Common.Map.{Map, insert, contains_key}
use agentpulse_rs.Domain.Error.{Text}
use agentpulse_rs.Domain.Value.{is_empty, EventSequence, new_counter}
use agentpulse_rs.Domain.Session.{Uuid}
use agentpulse_rs.Domain.Identifiers.{Formats, from_str}
use agentpulse_rs.Domain.Capability.{Flags}
use agentpulse_rs.Protocol.Convert.{ProtocolMessage}
use agentpulse_rs.Protocol.Codec.{Bytes, Serde, encode_json, decode_json}
use agentpulse_rs.Protocol.Decimal.{is_ascii_digit, starts_with_zero, serialize_u64, parse_from}
use agentpulse_rs.Channels.Native.Error.{
  NativeProtocolError, json, invalid_field, domain_protocol, domain_reason, number_too_large,
}
use agentpulse_rs.Channels.Native.Dto.{SessionCursorDto}
use agentpulse_rs.Channels.Native.Validate.{same_text, invalid}

abbrev of_digits : Text → Option ℕ
of_digits [] = none
of_digits (c ∷ s) = if all is_ascii_digit (c ∷ s) then parse_from 0 (c ∷ s) else none

-- `str::parse::<u64>`, which takes a plus in front.
unfoldable pub parse_u64 : Text → Option ℕ
unfolding parse_from
parse_u64 [] = none
parse_u64 (c ∷ s) = if c == b'+' then of_digits s else of_digits (c ∷ s)

abbrev read_sequence : Option ℕ → Result NativeProtocolError EventSequence
read_sequence none = err (invalid_field "event sequence" number_too_large)
read_sequence (some parsed) =
    map_err (λ e. invalid_field "event sequence" (domain_reason e))
      (new_counter "event sequence" parsed)

unfoldable pub parse_sequence : Text → Result NativeProtocolError EventSequence
unfolding parse_u64
parse_sequence value =
    if is_empty value
      || not (all is_ascii_digit value)
      || ltb 1 (length value) && starts_with_zero value
    then invalid "event sequence" "expected a canonical unsigned decimal string"
    else read_sequence (parse_u64 value)

abbrev not_positive_decimal : {A : Type 0} → Result NativeProtocolError A
not_positive_decimal = invalid "last_sequence" "expected a canonical positive decimal u64"

-- The cursor of one entry.
abbrev read_cursor : Text → Option ℕ → Result NativeProtocolError ℕ
read_cursor text none = not_positive_decimal
read_cursor text (some n) =
    if n == 0 || not (same_text text (serialize_u64 n)) then not_positive_decimal else ok n

module _ (formats : Formats) where
  unfoldable pub parse_session_id : Text → Result NativeProtocolError Uuid
  parse_session_id value =
      map_err (λ e. invalid_field "session_id" (domain_reason e))
        (from_str formats "session ID" value)

  abbrev pub cursor_dto : ℕ × ℕ → SessionCursorDto
  cursor_dto (session_id, last_sequence) = record {
    session_id = formats.print_uuid session_id;
    last_sequence = serialize_u64 last_sequence;
  }

  unfoldable pub parse_cursor : SessionCursorDto → Result NativeProtocolError (ℕ × ℕ)
  unfolding parse_u64
  parse_cursor cursor = do
    session_id ← parse_session_id cursor.session_id
    last_sequence ← read_cursor cursor.last_sequence (parse_u64 cursor.last_sequence)
    ok (session_id, last_sequence)

  -- The loop of `parse_session_cursors`, with the cursors so far.
  unfoldable pub collect_cursors :
      Map ℕ → List SessionCursorDto → Result NativeProtocolError (Map ℕ)
  collect_cursors parsed [] = ok parsed
  collect_cursors parsed (cursor ∷ cursors) = do
    entry ← parse_cursor cursor
    let (session_id, last_sequence) = entry in
        if contains_key session_id parsed
        then invalid "session_cursors" "must not contain duplicate Session IDs"
        else collect_cursors (insert session_id last_sequence parsed) cursors

  unfoldable pub parse_session_cursors : List SessionCursorDto → Result NativeProtocolError (Map ℕ)
  parse_session_cursors cursors = collect_cursors [] cursors

module _ {Value : Type 0} (serde : Serde Value) (write_value : Value → Result String Bytes)
    (flags : Flags) (formats : Formats) where
  unfoldable pub encode_domain_value : ProtocolMessage → Result NativeProtocolError Value
  encode_domain_value message = do
    bytes ← map_err domain_protocol (encode_json serde flags formats message)
    map_err json (serde.from_slice bytes)

  unfoldable pub decode_domain_value : Value → Result NativeProtocolError ProtocolMessage
  decode_domain_value value = do
    bytes ← map_err json (write_value value)
    map_err domain_protocol (decode_json serde flags formats bytes)
