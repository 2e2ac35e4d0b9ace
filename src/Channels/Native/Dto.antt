-- ===== src/Channels/Native/Dto.antt =====
-- agentpulse-channels/native/src/protocol.rs: the shape of the JSON messages. `Value` is the type of
-- JSON values of serde_json; an identity and a cursor are strings.
use agentpulse_rs.Common.{ℕ, Bool, List, Option}
use agentpulse_rs.Domain.Error.{Text}

pub record Envelope (T : Type 0) : Type 0 where
  pub native_transport_version : ℕ
  pub message : T

pub record SessionCursorDto : Type 0 where
  pub session_id : Text
  pub last_sequence : Text

pub record ClientHelloDto : Type 0 where
  pub client_id : Text
  pub display_name : Text
  pub version : Option Text
  pub supported_protocol_versions : List ℕ
  pub host_run_id : Option Text
  pub session_cursors : List SessionCursorDto

pub data ClientMessageDto (Value : Type 0) : Type 0 where
  client_hello : ClientHelloDto → ClientMessageDto Value
  discover_sessions : (request_id : Text) → ClientMessageDto Value
  subscribe_session : (request_id session_id : Text) → ClientMessageDto Value
  unsubscribe_session : (request_id session_id : Text) → ClientMessageDto Value
  submit_response : (request_id : Text) (response : Value) → ClientMessageDto Value
  submit_agent_command : (request_id : Text) (command : Value) → ClientMessageDto Value

pub data EventRouteDto : Type 0 where
  observe_only interaction_read_only interaction_interactive : EventRouteDto

pub data DeliveryContextDto : Type 0 where
  discovery_provider : (request_id : Text) → DeliveryContextDto
  discovery_session : (request_id last_sequence : Text) → DeliveryContextDto
  subscription_session : (request_id : Text) → DeliveryContextDto
  subscription_interaction : (request_id : Text) (route : EventRouteDto) → DeliveryContextDto
  live_event : (route : EventRouteDto) → DeliveryContextDto
  live_session : DeliveryContextDto

pub data SubscriptionStatusDto : Type 0 where
  catching_up subscribed already_subscribed : SubscriptionStatusDto

pub data UnsubscriptionStatusDto : Type 0 where
  unsubscribed not_subscribed : UnsubscriptionStatusDto

pub data ErrorCodeDto : Type 0 where
  connection_busy invalid_handshake invalid_request session_not_discovered session_not_found
        internal capability_unavailable interaction_not_pending session_not_subscribed
        provider_rejected :
      ErrorCodeDto

pub record ServerHelloDto (Value : Type 0) : Type 0 where
  pub connection_id : Text
  pub channel : Value
  pub protocol_version : ℕ
  pub max_frame_bytes : ℕ
  pub ping_interval_seconds : ℕ
  pub idle_timeout_seconds : ℕ
  pub host_run_id : Text
  pub resume_accepted : Bool

pub record SubscriptionResultDto : Type 0 where
  pub request_id : Text
  pub session_id : Text
  pub status : SubscriptionStatusDto
  pub baseline_sequence : Text
  pub pending_interaction_count : ℕ
  pub event_count : ℕ
  pub reset : Bool

pub data ServerMessageDto (Value : Type 0) : Type 0 where
  server_hello : ServerHelloDto Value → ServerMessageDto Value
  sync_started : (request_id : Text) (provider_count session_count : ℕ) → ServerMessageDto Value
  domain_message : (context : DeliveryContextDto) (domain : Value) → ServerMessageDto Value
  sync_completed : (request_id : Text) → ServerMessageDto Value
  subscription_result : SubscriptionResultDto → ServerMessageDto Value
  unsubscription_result :
      (request_id session_id : Text) (status : UnsubscriptionStatusDto) → ServerMessageDto Value
  interaction_response_result :
      (request_id session_id interaction_id : Text) → ServerMessageDto Value
  command_result : (request_id session_id command_id : Text) → ServerMessageDto Value
  error_message :
      (request_id : Option Text) (code : ErrorCodeDto) (message : Text) (recoverable : Bool)
      → ServerMessageDto Value
