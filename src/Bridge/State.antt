-- ===== src/Bridge/State.antt =====
-- agentpulse-bridge/src/bridge.rs, registry.rs and port.rs: the Bridge's state, what it hands to
-- the adapters, its registrations and its queries.
use agentpulse_rs.Common.{
  ℕ, Bool, List, [], ◌∷◌, map, Option, none, some, Result, ok, err, if◌then◌else◌,
}
use mathlib.Core.Option
use agentpulse_rs.Common.Map.{Map, get, insert, contains_key, keys, values}
use agentpulse_rs.Domain.Value.{EventSequence}
use agentpulse_rs.Domain.Session.{Uuid, AgentSession}
use agentpulse_rs.Domain.Endpoint.{ProviderDescriptor, ChannelDescriptor}
use agentpulse_rs.Domain.Command.{AgentCommand}
use agentpulse_rs.Domain.Interaction.{InteractionRequest, InteractionResponse}
use agentpulse_rs.Domain.Event.{AgentEvent}
use agentpulse_rs.Routing.{InteractionRoute, ChannelEventRoute}
use agentpulse_rs.Aggregate.State.{
  SessionAggregate, SessionAggregateConfig, last_sequence, default_config,
}

pub record RoutedAgentEvent : Type 0 where
  pub event : AgentEvent
  pub route : ChannelEventRoute

pub record RoutedInteractionRequest : Type 0 where
  pub request : InteractionRequest
  pub route : InteractionRoute

pub record ChannelSessionBaseline : Type 0 where
  pub session : AgentSession
  pub sequence : EventSequence
  pub pending_interactions : List RoutedInteractionRequest

pub record ChannelSessionSync : Type 0 where
  pub after_sequence : ℕ
  pub through_sequence : ℕ
  pub reset : Bool
  pub events : List RoutedAgentEvent
  pub baseline : Option ChannelSessionBaseline

-- The calls of a ChannelPort.
pub data ChannelDelivery : Type 0 where
  deliver_event : AgentEvent → ChannelEventRoute → ChannelDelivery
  deliver_session : AgentSession → ChannelDelivery
  deliver_session_baseline : ChannelSessionBaseline → ChannelDelivery
  deliver_session_sync : ChannelSessionSync → ChannelDelivery

-- The calls of a ProviderPort.
pub data ProviderHandoff : Type 0 where
  accept_interaction_response : InteractionResponse → ProviderHandoff
  accept_command : AgentCommand → ProviderHandoff

-- A boxed adapter error, which the Bridge does not look into.
abbrev pub AdapterError : Type 0
AdapterError = ℕ

-- The adapters behind the port traits. What one answers to a call depends on its identifier and on
-- all the calls before, the newest first; `none` is `Ok(())`.
pub record Ports : Type 0 where
  pub channel_answer : Uuid → List ChannelDelivery → ChannelDelivery → Option AdapterError
  pub provider_answer : Uuid → List ProviderHandoff → ProviderHandoff → Option AdapterError

-- A registered endpoint, with the calls that its port has received, the newest first.
pub record RegisteredProvider : Type 0 where
  pub descriptor : ProviderDescriptor
  pub received : List ProviderHandoff

pub record RegisteredChannel : Type 0 where
  pub descriptor : ChannelDescriptor
  pub received : List ChannelDelivery

-- A BTreeSet of identifiers.
abbrev pub IdSet : Type 0
IdSet = Map (Unit {0})

pub record Bridge : Type 0 where
  pub providers : Map RegisteredProvider
  pub channels : Map RegisteredChannel
  pub session_config : SessionAggregateConfig
  pub sessions : Map SessionAggregate
  pub subscriptions : Map IdSet

unfoldable pub with_session_config : SessionAggregateConfig → Bridge
with_session_config config = record {
  providers = [];
  channels = [];
  session_config = config;
  sessions = [];
  subscriptions = [];
}

unfoldable pub new : Bridge
unfolding with_session_config
new = with_session_config default_config

pub data EndpointRegistrationError : Type 0 where
  provider_already_registered : (provider_id : Uuid) → EndpointRegistrationError
  channel_already_registered : (channel_id : Uuid) → EndpointRegistrationError

unfoldable pub register_provider :
    ProviderDescriptor → Bridge → Bridge × Result EndpointRegistrationError (Unit {0})
register_provider d b =
    if contains_key d.id b.providers then (b, err (provider_already_registered d.id)) else (
      record b { providers = insert d.id (record { descriptor = d; received = [] }) b.providers },
      ok tt,
    )

unfoldable pub register_channel :
    ChannelDescriptor → Bridge → Bridge × Result EndpointRegistrationError (Unit {0})
register_channel d b =
    if contains_key d.id b.channels then (b, err (channel_already_registered d.id)) else (
      record b { channels = insert d.id (record { descriptor = d; received = [] }) b.channels },
      ok tt,
    )

-- The subscribers of a session, none without an entry.
abbrev pub set_or_empty : Option IdSet → IdSet
set_or_empty none = []
set_or_empty (some set) = set

abbrev pub subscriber_set : Bridge → Uuid → IdSet
subscriber_set b session_id = set_or_empty (get session_id b.subscriptions)

unfoldable pub is_subscribed : Bridge → Uuid → Uuid → Bool
is_subscribed b channel_id session_id = contains_key channel_id (subscriber_set b session_id)

unfoldable pub session_subscribers : Bridge → Uuid → List Uuid
session_subscribers b session_id = keys (subscriber_set b session_id)

pub record DiscoveredSession : Type 0 where
  pub session : AgentSession
  pub last_sequence : EventSequence

pub record ChannelDiscoverySnapshot : Type 0 where
  pub providers : List ProviderDescriptor
  pub sessions : List DiscoveredSession

unfoldable pub discovery_snapshot : Bridge → ChannelDiscoverySnapshot
discovery_snapshot b = record {
  providers = map (λ p. p.descriptor) (values b.providers);
  sessions =
      map (λ s. record { session = s.session; last_sequence = last_sequence s })
        (values b.sessions);
}

-- One call of a Channel's port.
unfoldable pub send :
    Ports → Uuid → ChannelDelivery → RegisteredChannel → RegisteredChannel × Option AdapterError
send ports id d c = (record c { received = d ∷ c.received }, ports.channel_answer id c.received d)

-- One call of a Provider's port.
unfoldable pub hand :
    Ports → Uuid → ProviderHandoff → RegisteredProvider → RegisteredProvider × Option AdapterError
hand ports id h p = (record p { received = h ∷ p.received }, ports.provider_answer id p.received h)

unfoldable pub provider_descriptor : Bridge → Uuid → Option ProviderDescriptor
provider_descriptor b provider_id = Option.map (λ p. p.descriptor) (get provider_id b.providers)

unfoldable pub provider_descriptors : Bridge → List ProviderDescriptor
provider_descriptors b = map (λ p. p.descriptor) (values b.providers)

unfoldable pub channel_descriptor : Bridge → Uuid → Option ChannelDescriptor
channel_descriptor b channel_id = Option.map (λ c. c.descriptor) (get channel_id b.channels)

unfoldable pub channel_descriptors : Bridge → List ChannelDescriptor
channel_descriptors b = map (λ c. c.descriptor) (values b.channels)

unfoldable pub session_aggregate : Bridge → Uuid → Option SessionAggregate
session_aggregate b session_id = get session_id b.sessions

unfoldable pub session_aggregates : Bridge → List SessionAggregate
session_aggregates b = values b.sessions
