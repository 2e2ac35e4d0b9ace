-- ===== src/Channels/Native/Validate.antt =====
-- agentpulse-channels/native/src/protocol.rs: the checks on a message before it is written and
-- after it is read.
pub mod Laws
pub mod Hello
use agentpulse_rs.Common.{
  ℕ, Bool, true, false, not, ◌&&◌, ◌||◌, List, [], ◌∷◌, Option, none, some, Result, ok, err, leb,
  ◌==◌, ◌>>◌, if◌then◌else◌, any, length, String,
}
use agentpulse_rs.Common.Map.{values}
use agentpulse_rs.Domain.Error.{Text}
use agentpulse_rs.Domain.Value.{is_empty, trim}
use agentpulse_rs.Domain.Session.{Uuid}
use agentpulse_rs.Domain.Identifiers.{Formats}
use agentpulse_rs.Domain.Capability.{
  Flags, ChannelCapabilities, notification, session_view, realtime_sync, approval, form_input,
  text_input, remote_command,
}
use agentpulse_rs.Protocol.Error.{v2_protocol_version}
use agentpulse_rs.Protocol.Convert.{ProtocolMessage}
use agentpulse_rs.Channels.Native.Error.{
  NativeProtocolError, invalid_field, invalid_domain_context, said, not_uuid,
}
use agentpulse_rs.Channels.Native.Message.{
  NativeClientMessage, ClientHello, client_hello, discover, subscribe_session, unsubscribe_session,
  submit_response, submit_agent_command, NativeDeliveryContext, discovery_provider,
  discovery_session, subscription_session, subscription_interaction, live_event, live_session,
  NativeServerMessage, ServerHello, server_hello, sync_started, domain_message, sync_completed,
  subscription_result, unsubscription_result, interaction_response_result, command_result,
  error_message,
}

abbrev pub Check : Type 0
Check = Result NativeProtocolError (Unit {0})

-- `==` of strings.
unfoldable pub same_text : Text → Text → Bool
same_text [] [] = true
same_text [] (d ∷ t) = false
same_text (c ∷ s) [] = false
same_text (c ∷ s) (d ∷ t) = c == d && same_text s t

abbrev pub invalid {ℓ} : {A : Type ℓ} → String → String → Result NativeProtocolError A
invalid field reason = err (invalid_field field (said reason))

abbrev pub require_that : Bool → String → String → Check
require_that b field reason = if b then ok tt else invalid field reason

abbrev pub validated_uuid : Formats → String → Text → Option Uuid → Check
validated_uuid formats field value none = err (invalid_field field (not_uuid value))
validated_uuid formats field value (some parsed) =
    if not (formats.version_of parsed == 7) || not (same_text (formats.print_uuid parsed) value)
    then invalid field "expected a canonical lowercase UUIDv7 string"
    else ok tt

unfoldable pub validate_uuid_v7 : Formats → String → Text → Check
validate_uuid_v7 formats field value = validated_uuid formats field value (formats.parse_uuid value)

unfoldable pub validate_nonblank : String → Text → Check
validate_nonblank field value =
    if is_empty (trim value) then invalid field "must not be blank" else ok tt

abbrev pub if_some : (Text → Check) → Option Text → Check
if_some f none = ok tt
if_some f (some s) = f s

-- `sort_unstable` of numbers.
unfoldable pub sorted_insert : ℕ → List ℕ → List ℕ
sorted_insert k [] = k ∷ []
sorted_insert k (j ∷ js) = let rest = sorted_insert k js in if leb k j then k ∷ j ∷ js else j ∷ rest

unfoldable pub sort_unstable : List ℕ → List ℕ
sort_unstable [] = []
sort_unstable (k ∷ ks) = sorted_insert k (sort_unstable ks)

-- `dedup`: an element that equals the one before is dropped.
unfoldable pub dedup : List ℕ → List ℕ
dedup [] = []
dedup (k ∷ []) = k ∷ []
dedup (k ∷ j ∷ ks) = let rest = dedup (j ∷ ks) in if k == j then rest else k ∷ rest

-- `unique.len() == supported_protocol_versions.len()`, of the sorted copy without repeats.
unfoldable pub are_unique : List ℕ → Bool
unfolding sort_unstable dedup
are_unique versions = length (dedup (sort_unstable versions)) == length versions

abbrev pub is_none : Option Text → Bool
is_none none = true
is_none (some s) = false

unfoldable pub validate_hello : Formats → ClientHello → Check
validate_hello formats h = do
  validate_uuid_v7 formats "client_id" h.client_id
  validate_nonblank "display_name" h.display_name
  if_some (validate_nonblank "version") h.version
  if_some (validate_uuid_v7 formats "host_run_id") h.host_run_id
  require_that (not (is_none h.host_run_id && not (is_empty h.session_cursors))) "session_cursors"
      "stored Session cursors require host_run_id"
  require_that (not (any (λ n. n == 0) (values h.session_cursors))) "session_cursors"
      "stored Session cursors must be positive"
  require_that (not (is_empty h.supported_protocol_versions)) "supported_protocol_versions"
      "must not be empty"
  require_that (are_unique h.supported_protocol_versions) "supported_protocol_versions"
      "must not contain duplicates"

unfoldable pub validate_client_message : Formats → NativeClientMessage → Check
validate_client_message formats (client_hello h) = validate_hello formats h
validate_client_message formats (discover r) = validate_uuid_v7 formats "request_id" r
validate_client_message formats (subscribe_session r s) = validate_uuid_v7 formats "request_id" r
validate_client_message formats (unsubscribe_session r s) = validate_uuid_v7 formats "request_id" r
validate_client_message formats (submit_response r x) = validate_uuid_v7 formats "request_id" r
validate_client_message formats (submit_agent_command r c) = validate_uuid_v7 formats "request_id" r

abbrev pub protocol_message_type : ProtocolMessage → String
protocol_message_type (ProtocolMessage.provider_descriptor x) = "provider_descriptor"
protocol_message_type (ProtocolMessage.channel_descriptor x) = "channel_descriptor"
protocol_message_type (ProtocolMessage.agent_session x) = "agent_session"
protocol_message_type (ProtocolMessage.agent_event x) = "agent_event"
protocol_message_type (ProtocolMessage.interaction_request x) = "interaction_request"
protocol_message_type (ProtocolMessage.interaction_response x) = "interaction_response"
protocol_message_type (ProtocolMessage.agent_command x) = "agent_command"

-- The message that a context carries: the `matches!` of each arm.
unfoldable pub context_matches : NativeDeliveryContext → ProtocolMessage → Bool
context_matches (discovery_provider r) (ProtocolMessage.provider_descriptor x) = true
context_matches (discovery_session r n) (ProtocolMessage.agent_session x) = true
context_matches (subscription_session r) (ProtocolMessage.agent_session x) = true
context_matches (subscription_interaction r t) (ProtocolMessage.interaction_request x) = true
context_matches (live_event t) (ProtocolMessage.agent_event x) = true
context_matches live_session (ProtocolMessage.agent_session x) = true
context_matches c m = false

unfoldable pub context_name : NativeDeliveryContext → String
context_name (discovery_provider r) = "discovery_provider"
context_name (discovery_session r n) = "discovery_session"
context_name (subscription_session r) = "subscription_session"
context_name (subscription_interaction r t) = "subscription_interaction"
context_name (live_event t) = "live_event"
context_name live_session = "live_session"

unfoldable pub check_request : Formats → NativeDeliveryContext → Check
check_request formats (discovery_provider r) = validate_uuid_v7 formats "request_id" r
check_request formats (discovery_session r n) = validate_uuid_v7 formats "request_id" r
check_request formats (subscription_session r) = validate_uuid_v7 formats "request_id" r
check_request formats (subscription_interaction r t) = validate_uuid_v7 formats "request_id" r
check_request formats (live_event t) = ok tt
check_request formats live_session = ok tt

unfoldable pub validate_delivery_context : Formats → NativeDeliveryContext → ProtocolMessage → Check
validate_delivery_context formats context message =
    check_request formats context
    >> (if context_matches context message
        then ok tt
        else err (invalid_domain_context (context_name context) (protocol_message_type message)))

-- `|` of the bitflags crate is `union`.
abbrev pub expected_capabilities : Flags → ChannelCapabilities
expected_capabilities flags =
    let a = flags.union notification session_view in
    let b = flags.union a realtime_sync in
    let c = flags.union b approval in
    let d = flags.union c form_input in flags.union (flags.union d text_input) remote_command

abbrev pub native_kind : Text
native_kind = b'n' ∷ b'a' ∷ b't' ∷ b'i' ∷ b'v' ∷ b'e' ∷ []

module _ (flags : Flags) (formats : Formats) where
  unfoldable pub validate_server_hello : ServerHello → Check
  validate_server_hello h = do
    validate_uuid_v7 formats "connection_id" h.connection_id
    validate_uuid_v7 formats "host_run_id" h.host_run_id
    require_that (same_text h.channel.kind.slug native_kind) "channel.kind"
        "server must identify a native Channel"
    require_that (h.channel.capabilities == expected_capabilities flags) "channel.capabilities"
        "Native v3 requires its complete interactive command capability set"
    require_that (h.protocol_version == v2_protocol_version) "protocol_version"
        "server must select AgentPulse JSON v2"
    require_that
        (not
          (h.max_frame_bytes == 0 || h.ping_interval_seconds == 0 || h.idle_timeout_seconds == 0))
        "server_hello limits" "all limits must be greater than zero"

  unfoldable pub validate_server_message : NativeServerMessage → Check
  validate_server_message (server_hello h) = validate_server_hello h
  validate_server_message (sync_started r p s) = validate_uuid_v7 formats "request_id" r
  validate_server_message (sync_completed r) = validate_uuid_v7 formats "request_id" r
  validate_server_message (subscription_result x) =
      validate_uuid_v7 formats "request_id" x.request_id
  validate_server_message (unsubscription_result r k s) = validate_uuid_v7 formats "request_id" r
  validate_server_message (interaction_response_result r k i) =
      validate_uuid_v7 formats "request_id" r >> validate_uuid_v7 formats "interaction_id" i
  validate_server_message (command_result r k i) =
      validate_uuid_v7 formats "request_id" r >> validate_uuid_v7 formats "command_id" i
  validate_server_message (domain_message context message) =
      validate_delivery_context formats context message
  validate_server_message (error_message r code message recoverable) =
      if_some (validate_uuid_v7 formats "request_id") r >> validate_nonblank "error.message" message
