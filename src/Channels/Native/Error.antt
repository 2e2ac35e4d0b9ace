-- ===== src/Channels/Native/Error.antt =====
-- agentpulse-channels/native/src/error.rs: the errors of the codec and of the Port.
use agentpulse_rs.Common.{ℕ, String}
use agentpulse_rs.Domain.Error.{DomainError, Text}
use agentpulse_rs.Domain.Session.{Uuid}
use agentpulse_rs.Protocol.Error.{ProtocolError}

-- A reason: a text of the program, or what the source renders with `to_string`: an error of the
-- domain, that a text is no UUID, that digits exceed 64 bits, or that bytes are not UTF-8.
pub data Reason : Type 0 where
  said : String → Reason
  domain_reason : DomainError → Reason
  not_uuid : Text → Reason
  number_too_large : Reason
  not_utf8 : Reason

pub data NativeProtocolError : Type 0 where
  json : (source : String) → NativeProtocolError
  unsupported_version : (received supported : ℕ) → NativeProtocolError
  invalid_field : (field : String) (reason : Reason) → NativeProtocolError
  domain_protocol : (source : ProtocolError) → NativeProtocolError
  invalid_domain_context : (context actual : String) → NativeProtocolError

pub data NativeChannelPortError : Type 0 where
  no_active_client : NativeChannelPortError
  session_not_subscribed : (session_id : Uuid) → NativeChannelPortError
  unsupported_event_route : NativeChannelPortError
  protocol : (source : NativeProtocolError) → NativeChannelPortError
  queue_full : (capacity : ℕ) → NativeChannelPortError
