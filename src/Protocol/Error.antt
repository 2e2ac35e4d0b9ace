-- ===== src/Protocol/Error.antt =====
-- agentpulse-protocol/src/error.rs. An error of serde_json is kept as its text.
use agentpulse_rs.Common.{ℕ, String}
use agentpulse_rs.Domain.Error.{DomainError}

pub data ProtocolError : Type 0 where
  json_encode : (source : String) → ProtocolError
  json_decode : (source : String) → ProtocolError
  unsupported_protocol_version : (received supported : ℕ) → ProtocolError
  invalid_wire_value : (field reason : String) → ProtocolError
  domain : (source : DomainError) → ProtocolError
  unsupported_domain_variant : (type_name : String) → ProtocolError

-- `pub const V2_PROTOCOL_VERSION` of agentpulse-protocol/src/lib.rs.
abbrev pub v2_protocol_version : ℕ
v2_protocol_version = 2
