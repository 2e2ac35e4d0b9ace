-- ===== src/Bridge/Actions.antt =====
-- agentpulse-bridge/src/bridge.rs: `handle_interaction_response` and `handle_command`.
pub mod Checks
pub mod Handed
use agentpulse_rs.Common.{
  Bool, true, false, not, Option, none, some, Result, ok, err, map_err, ok_or, if◌then◌else◌, ◌>>=◌,
  ◌>>◌,
}
use agentpulse_rs.Common.Map.{get, insert, contains_key}
use agentpulse_rs.Domain.Session.{Uuid}
use agentpulse_rs.Domain.Capability.{Flags}
use agentpulse_rs.Domain.Command.{AgentCommand}
use agentpulse_rs.Domain.Interaction.{InteractionResponse}
use agentpulse_rs.Domain.Endpoint.{ChannelDescriptor}
use agentpulse_rs.Routing.{CapabilityRouteError, validate_interaction_response, validate_command}
use agentpulse_rs.Aggregate.State.{SessionAggregate}
use agentpulse_rs.Bridge.State.{
  AdapterError, Ports, RegisteredProvider, Bridge, ProviderHandoff, accept_interaction_response,
  accept_command, hand, is_subscribed,
}

pub data ProviderHandoffKind : Type 0 where
  interaction_response command : ProviderHandoffKind

pub data ChannelActionError : Type 0 where
  channel_not_found : (channel_id : Uuid) → ChannelActionError
  session_not_found : (session_id : Uuid) → ChannelActionError
  channel_not_subscribed : (channel_id session_id : Uuid) → ChannelActionError
  provider_not_found : (provider_id : Uuid) → ChannelActionError
  interaction_not_pending : (session_id interaction_id : Uuid) → ChannelActionError
  capability_route : CapabilityRouteError → ChannelActionError
  provider_handoff :
      (provider_id : Uuid) (handoff : ProviderHandoffKind) (source : AdapterError)
      → ChannelActionError

unfoldable pub action_channel_descriptor :
    Bridge → Uuid → Result ChannelActionError ChannelDescriptor
action_channel_descriptor b channel_id = do
  channel ← ok_or (get channel_id b.channels) (channel_not_found channel_id)
  ok channel.descriptor

unfoldable pub validate_action_subscription :
    Bridge → Uuid → Uuid → Result ChannelActionError (Unit {0})
validate_action_subscription b channel_id session_id =
    if not (contains_key session_id b.sessions)
    then err (session_not_found session_id)
    else if not (is_subscribed b channel_id session_id)
    then err (channel_not_subscribed channel_id session_id)
    else ok tt

-- What a validated Action needs: the Provider that owns the session.
abbrev pub owner : Bridge → SessionAggregate → Result ChannelActionError RegisteredProvider
owner b aggregate =
    ok_or (get aggregate.session.provider_id b.providers)
      (provider_not_found aggregate.session.provider_id)

unfoldable pub check_interaction_response :
    Flags → Uuid → InteractionResponse → Bridge → Result ChannelActionError RegisteredProvider
check_interaction_response flags channel_id r b = do
  channel ← action_channel_descriptor b channel_id
  validate_action_subscription b channel_id r.session_id
  aggregate ← ok_or (get r.session_id b.sessions) (session_not_found r.session_id)
  provider ← owner b aggregate
  request ←
      ok_or (get r.request_id aggregate.pending_interactions)
        (interaction_not_pending r.session_id r.request_id)
  map_err capability_route
      (validate_interaction_response flags provider.descriptor channel aggregate.session request r)
  ok provider

unfoldable pub check_command :
    Flags → Uuid → AgentCommand → Bridge → Result ChannelActionError RegisteredProvider
check_command flags channel_id c b = do
  channel ← action_channel_descriptor b channel_id
  validate_action_subscription b channel_id c.session_id
  aggregate ← ok_or (get c.session_id b.sessions) (session_not_found c.session_id)
  provider ← owner b aggregate
  map_err capability_route (validate_command flags provider.descriptor channel aggregate.session c)
  ok provider

-- The handoff to the Provider's port, registered under `id`.
unfoldable pub hand_over :
    Ports
    → Uuid
    → ProviderHandoffKind
    → ProviderHandoff
    → RegisteredProvider
    → Bridge
    → Bridge × Result ChannelActionError (Unit {0})
unfolding hand
hand_over ports id kind h provider b =
    let (provider', answer) = hand ports id h provider in
    (
      record b { providers = insert id provider' b.providers },
      elim answer [ none ↦ ok tt | some x ↦ err (provider_handoff id kind x) ],
    )

-- The identifier that the session's Provider is registered under.
abbrev pub provider_of : Bridge → Uuid → Uuid
provider_of b session_id = owner_id (get session_id b.sessions)
  where
    owner_id : Option SessionAggregate → Uuid
    owner_id none = 0
    owner_id (some aggregate) = aggregate.session.provider_id

unfoldable pub handle_interaction_response :
    Flags
    → Ports
    → Uuid
    → InteractionResponse
    → Bridge
    → Bridge × Result ChannelActionError (Unit {0})
handle_interaction_response flags ports channel_id r b =
    elim (check_interaction_response flags channel_id r b) [
      | err x ↦ (b, err x)
      | ok provider ↦
          hand_over ports (provider_of b r.session_id) interaction_response
            (accept_interaction_response r) provider b
    ]

unfoldable pub handle_command :
    Flags → Ports → Uuid → AgentCommand → Bridge → Bridge × Result ChannelActionError (Unit {0})
handle_command flags ports channel_id c b = elim (check_command flags channel_id c b) [
  | err x ↦ (b, err x)
  | ok provider ↦ hand_over ports (provider_of b c.session_id) command (accept_command c) provider b
]

-- The ChannelActionSink that the Bridge is.
unfoldable pub submit_interaction_response :
    Flags
    → Ports
    → Uuid
    → InteractionResponse
    → Bridge
    → Bridge × Result ChannelActionError (Unit {0})
submit_interaction_response = handle_interaction_response

unfoldable pub submit_command :
    Flags → Ports → Uuid → AgentCommand → Bridge → Bridge × Result ChannelActionError (Unit {0})
submit_command = handle_command
