-- ===== src/Channels/Native/Message.antt =====
-- agentpulse-channels/native/src/protocol.rs: the messages between a Native client and its server.
-- A request identity is the text that is sent; a session identity is parsed.
use agentpulse_rs.Common.{ℕ, Bool, List, Option, Result, ok}
use agentpulse_rs.Common.Map.{Map}
use agentpulse_rs.Domain.Error.{Text}
use agentpulse_rs.Domain.Value.{EventSequence}
use agentpulse_rs.Domain.Session.{Uuid}
use agentpulse_rs.Domain.Endpoint.{ChannelDescriptor}
use agentpulse_rs.Domain.Command.{AgentCommand}
use agentpulse_rs.Domain.Interaction.{InteractionResponse}
use agentpulse_rs.Routing.{InteractionRoute, ChannelEventRoute, observe_only, interaction}
use agentpulse_rs.Protocol.Convert.{ProtocolMessage}
use agentpulse_rs.Channels.Native.Error.{NativeProtocolError}

pub record ClientHello : Type 0 where
  pub client_id : Text
  pub display_name : Text
  pub version : Option Text
  pub supported_protocol_versions : List ℕ
  pub host_run_id : Option Text
  pub session_cursors : Map ℕ

pub data NativeClientMessage : Type 0 where
  client_hello : ClientHello → NativeClientMessage
  discover : (request_id : Text) → NativeClientMessage
  subscribe_session : (request_id : Text) (session_id : Uuid) → NativeClientMessage
  unsubscribe_session : (request_id : Text) (session_id : Uuid) → NativeClientMessage
  submit_response : (request_id : Text) (response : InteractionResponse) → NativeClientMessage
  submit_agent_command : (request_id : Text) (command : AgentCommand) → NativeClientMessage

pub data NativeEventRoute : Type 0 where
  route_observe_only route_read_only route_interactive : NativeEventRoute

-- `NativeEventRoute::from_core`; the routes of the Core are these three.
unfoldable pub from_core : ChannelEventRoute → Result NativeProtocolError NativeEventRoute
from_core observe_only = ok route_observe_only
from_core (interaction InteractionRoute.read_only) = ok route_read_only
from_core (interaction InteractionRoute.interactive) = ok route_interactive

pub data NativeDeliveryContext : Type 0 where
  discovery_provider : (request_id : Text) → NativeDeliveryContext
  discovery_session : (request_id : Text) (last_sequence : EventSequence) → NativeDeliveryContext
  subscription_session : (request_id : Text) → NativeDeliveryContext
  subscription_interaction : (request_id : Text) (route : NativeEventRoute) → NativeDeliveryContext
  live_event : (route : NativeEventRoute) → NativeDeliveryContext
  live_session : NativeDeliveryContext

pub data NativeSubscriptionStatus : Type 0 where
  catching_up now_subscribed already_subscribed : NativeSubscriptionStatus

pub data NativeUnsubscriptionStatus : Type 0 where
  now_unsubscribed was_not_subscribed : NativeUnsubscriptionStatus

pub data NativeErrorCode : Type 0 where
  connection_busy invalid_handshake invalid_request session_not_discovered session_not_found
        internal capability_unavailable interaction_not_pending code_not_subscribed
        provider_rejected :
      NativeErrorCode

pub record ServerHello : Type 0 where
  pub connection_id : Text
  pub channel : ChannelDescriptor
  pub protocol_version : ℕ
  pub max_frame_bytes : ℕ
  pub ping_interval_seconds : ℕ
  pub idle_timeout_seconds : ℕ
  pub host_run_id : Text
  pub resume_accepted : Bool

pub record SubscriptionResult : Type 0 where
  pub request_id : Text
  pub session_id : Uuid
  pub status : NativeSubscriptionStatus
  pub baseline_sequence : EventSequence
  pub pending_interaction_count : ℕ
  pub event_count : ℕ
  pub reset : Bool

pub data NativeServerMessage : Type 0 where
  server_hello : ServerHello → NativeServerMessage
  sync_started : (request_id : Text) (provider_count session_count : ℕ) → NativeServerMessage
  domain_message :
      (context : NativeDeliveryContext) (message : ProtocolMessage) → NativeServerMessage
  sync_completed : (request_id : Text) → NativeServerMessage
  subscription_result : SubscriptionResult → NativeServerMessage
  unsubscription_result :
      (request_id : Text) (session_id : Uuid) (status : NativeUnsubscriptionStatus)
      → NativeServerMessage
  interaction_response_result :
      (request_id : Text) (session_id : Uuid) (interaction_id : Text) → NativeServerMessage
  command_result : (request_id : Text) (session_id : Uuid) (command_id : Text) → NativeServerMessage
  error_message :
      (request_id : Option Text) (code : NativeErrorCode) (message : Text) (recoverable : Bool)
      → NativeServerMessage
