-- ===== src/Channels/Native/Convert/Names.antt =====
-- agentpulse-channels/native/src/protocol.rs: the `From` implementations between the enumerations of
-- the messages and those of their JSON. An encoder and its decoder are inverse to each other.
use agentpulse_rs.Common.{◌≡◌, refl}
use agentpulse_rs.Channels.Native.Message.{
  NativeEventRoute, NativeSubscriptionStatus, NativeUnsubscriptionStatus, NativeErrorCode,
}
use agentpulse_rs.Channels.Native.Dto.{
  EventRouteDto, SubscriptionStatusDto, UnsubscriptionStatusDto, ErrorCodeDto,
}

unfoldable pub encode_event_route : NativeEventRoute → EventRouteDto
encode_event_route NativeEventRoute.route_observe_only = EventRouteDto.observe_only
encode_event_route NativeEventRoute.route_read_only = EventRouteDto.interaction_read_only
encode_event_route NativeEventRoute.route_interactive = EventRouteDto.interaction_interactive

unfoldable pub decode_event_route : EventRouteDto → NativeEventRoute
decode_event_route EventRouteDto.observe_only = NativeEventRoute.route_observe_only
decode_event_route EventRouteDto.interaction_read_only = NativeEventRoute.route_read_only
decode_event_route EventRouteDto.interaction_interactive = NativeEventRoute.route_interactive

pub event_route_back : (x : NativeEventRoute) → decode_event_route (encode_event_route x) ≡ x
unfolding encode_event_route decode_event_route
event_route_back NativeEventRoute.route_observe_only = refl
event_route_back NativeEventRoute.route_read_only = refl
event_route_back NativeEventRoute.route_interactive = refl

unfoldable pub encode_subscription_status : NativeSubscriptionStatus → SubscriptionStatusDto
encode_subscription_status NativeSubscriptionStatus.catching_up = SubscriptionStatusDto.catching_up
encode_subscription_status NativeSubscriptionStatus.now_subscribed =
    SubscriptionStatusDto.subscribed
encode_subscription_status NativeSubscriptionStatus.already_subscribed =
    SubscriptionStatusDto.already_subscribed

unfoldable pub decode_subscription_status : SubscriptionStatusDto → NativeSubscriptionStatus
decode_subscription_status SubscriptionStatusDto.catching_up = NativeSubscriptionStatus.catching_up
decode_subscription_status SubscriptionStatusDto.subscribed =
    NativeSubscriptionStatus.now_subscribed
decode_subscription_status SubscriptionStatusDto.already_subscribed =
    NativeSubscriptionStatus.already_subscribed

pub subscription_status_back :
    (x : NativeSubscriptionStatus) → decode_subscription_status (encode_subscription_status x) ≡ x
unfolding encode_subscription_status decode_subscription_status
subscription_status_back NativeSubscriptionStatus.catching_up = refl
subscription_status_back NativeSubscriptionStatus.now_subscribed = refl
subscription_status_back NativeSubscriptionStatus.already_subscribed = refl

unfoldable pub encode_unsubscription_status : NativeUnsubscriptionStatus → UnsubscriptionStatusDto
encode_unsubscription_status NativeUnsubscriptionStatus.now_unsubscribed =
    UnsubscriptionStatusDto.unsubscribed
encode_unsubscription_status NativeUnsubscriptionStatus.was_not_subscribed =
    UnsubscriptionStatusDto.not_subscribed

unfoldable pub decode_unsubscription_status : UnsubscriptionStatusDto → NativeUnsubscriptionStatus
decode_unsubscription_status UnsubscriptionStatusDto.unsubscribed =
    NativeUnsubscriptionStatus.now_unsubscribed
decode_unsubscription_status UnsubscriptionStatusDto.not_subscribed =
    NativeUnsubscriptionStatus.was_not_subscribed

pub unsubscription_status_back :
    (x : NativeUnsubscriptionStatus)
    → decode_unsubscription_status (encode_unsubscription_status x) ≡ x
unfolding encode_unsubscription_status decode_unsubscription_status
unsubscription_status_back NativeUnsubscriptionStatus.now_unsubscribed = refl
unsubscription_status_back NativeUnsubscriptionStatus.was_not_subscribed = refl

unfoldable pub encode_error_code : NativeErrorCode → ErrorCodeDto
encode_error_code NativeErrorCode.connection_busy = ErrorCodeDto.connection_busy
encode_error_code NativeErrorCode.invalid_handshake = ErrorCodeDto.invalid_handshake
encode_error_code NativeErrorCode.invalid_request = ErrorCodeDto.invalid_request
encode_error_code NativeErrorCode.session_not_discovered = ErrorCodeDto.session_not_discovered
encode_error_code NativeErrorCode.session_not_found = ErrorCodeDto.session_not_found
encode_error_code NativeErrorCode.internal = ErrorCodeDto.internal
encode_error_code NativeErrorCode.capability_unavailable = ErrorCodeDto.capability_unavailable
encode_error_code NativeErrorCode.interaction_not_pending = ErrorCodeDto.interaction_not_pending
encode_error_code NativeErrorCode.code_not_subscribed = ErrorCodeDto.session_not_subscribed
encode_error_code NativeErrorCode.provider_rejected = ErrorCodeDto.provider_rejected

unfoldable pub decode_error_code : ErrorCodeDto → NativeErrorCode
decode_error_code ErrorCodeDto.connection_busy = NativeErrorCode.connection_busy
decode_error_code ErrorCodeDto.invalid_handshake = NativeErrorCode.invalid_handshake
decode_error_code ErrorCodeDto.invalid_request = NativeErrorCode.invalid_request
decode_error_code ErrorCodeDto.session_not_discovered = NativeErrorCode.session_not_discovered
decode_error_code ErrorCodeDto.session_not_found = NativeErrorCode.session_not_found
decode_error_code ErrorCodeDto.internal = NativeErrorCode.internal
decode_error_code ErrorCodeDto.capability_unavailable = NativeErrorCode.capability_unavailable
decode_error_code ErrorCodeDto.interaction_not_pending = NativeErrorCode.interaction_not_pending
decode_error_code ErrorCodeDto.session_not_subscribed = NativeErrorCode.code_not_subscribed
decode_error_code ErrorCodeDto.provider_rejected = NativeErrorCode.provider_rejected

pub error_code_back : (x : NativeErrorCode) → decode_error_code (encode_error_code x) ≡ x
unfolding encode_error_code decode_error_code
error_code_back NativeErrorCode.connection_busy = refl
error_code_back NativeErrorCode.invalid_handshake = refl
error_code_back NativeErrorCode.invalid_request = refl
error_code_back NativeErrorCode.session_not_discovered = refl
error_code_back NativeErrorCode.session_not_found = refl
error_code_back NativeErrorCode.internal = refl
error_code_back NativeErrorCode.capability_unavailable = refl
error_code_back NativeErrorCode.interaction_not_pending = refl
error_code_back NativeErrorCode.code_not_subscribed = refl
error_code_back NativeErrorCode.provider_rejected = refl
