-- ===== src/Domain/Identifiers.antt =====
-- agentpulse-core/src/id.rs: validated identifiers. `Formats` is what the program uses of the uuid
-- crate and of the RFC 3339 format of the time crate.
use agentpulse_rs.Common.{
  ℕ, ◌≡◌, Option, none, some, Result, ok, err, ◌==◌, if◌then◌else◌, String, arith,
}
use agentpulse_rs.Domain.Error.{DomainError, invalid_id, Text}
use agentpulse_rs.Domain.Value.{Timestamp}
use agentpulse_rs.Domain.Session.{Uuid}

-- `Uuid::parse_str`, `Uuid::to_string`, `Uuid::get_version_num`, and `format` and `parse` of
-- OffsetDateTime, which answer an error with its text.
pub record Formats : Type 0 where
  pub parse_uuid : Text → Option Uuid
  pub print_uuid : Uuid → Text
  pub version_of : Uuid → ℕ
  pub format_time : Timestamp → Result String Text
  pub parse_time : Text → Result String Timestamp

-- What the two crates document: what they print they read back.
pub record ReadsBack (formats : Formats) : Type 0 where
  pub uuid_back : (id : Uuid) → formats.parse_uuid (formats.print_uuid id) ≡ some id
  pub time_back :
      (t : Timestamp) (s : Text) → formats.format_time t ≡ ok s → formats.parse_time s ≡ ok t

module _ (formats : Formats) where
  -- An identifier of the program is a UUID of version 7.
  abbrev pub IsV7 : Uuid → Type 0
  IsV7 id = formats.version_of id ≡ 7

  unfoldable pub try_from_uuid : String → Uuid → Result DomainError Uuid
  try_from_uuid entity value =
      if formats.version_of value == 7
      then ok value
      else err (invalid_id entity (formats.print_uuid value))

  abbrev parsed_uuid : String → Text → Option Uuid → Result DomainError Uuid
  parsed_uuid entity value none = err (invalid_id entity value)
  parsed_uuid entity value (some uuid) = try_from_uuid entity uuid

  -- `FromStr::from_str`.
  unfoldable pub from_str : String → Text → Result DomainError Uuid
  from_str entity value = parsed_uuid entity value (formats.parse_uuid value)

  pub from_str-print_uuid :
      (back : ReadsBack formats) (entity : String) (id : Uuid)
      → IsV7 id
      → from_str entity (formats.print_uuid id) ≡ ok id
  unfolding from_str try_from_uuid
  from_str-print_uuid back entity id v = ground (arith, back.uuid_back id)

  pub from_str-IsV7 : (entity : String) (s : Text) (id : Uuid) → from_str entity s ≡ ok id → IsV7 id
  unfolding from_str try_from_uuid
  from_str-IsV7 entity s id e = ground arith
