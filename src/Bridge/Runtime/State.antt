-- ===== src/Bridge/Runtime/State.antt =====
-- agentpulse-bridge/src/runtime.rs: the Runtime Host's state, its permits and its registrations. The
-- locks of SharedBridge are not modelled: one call runs at a time, and none from within another.
use agentpulse_rs.Common.{ℕ, Bool, false, List, [], ◌∷◌, ◌++◌, Option, none, some, Result, ok, err}
use agentpulse_rs.Common.Map.{Map, get, insert}
use agentpulse_rs.Domain.Session.{Uuid}
use agentpulse_rs.Domain.Endpoint.{ProviderDescriptor, ChannelDescriptor}
use agentpulse_rs.Aggregate.State.{SessionAggregateConfig}
use agentpulse_rs.Bridge.State.{
  Bridge, EndpointRegistrationError, with_session_config, register_provider, register_channel,
}

pub data ChannelSubscriptionScope : Type 0 where
  persistent source_generation : ChannelSubscriptionScope

pub data RuntimeEndpointId : Type 0 where
  provider : Uuid → RuntimeEndpointId
  channel : Uuid → RuntimeEndpointId

unfoldable pub provider_id : RuntimeEndpointId → Option Uuid
provider_id (provider id) = some id
provider_id (channel id) = none

unfoldable pub channel_id : RuntimeEndpointId → Option Uuid
channel_id (provider id) = none
channel_id (channel id) = some id

pub data RuntimeHostState : Type 0 where
  stopped started stop_failed : RuntimeHostState

pub data AdapterLifecycleState : Type 0 where
  stopped running start_failed stop_failed : AdapterLifecycleState

pub data AdapterLifecyclePhase : Type 0 where
  start stop : AdapterLifecyclePhase

-- An IngressPermit is shared by the adapter and all clones of its handle: it is named by a number,
-- under which the Host's `permits` say whether it is active.
abbrev pub Permit : Type 0
Permit = ℕ

-- A RegisteredSource and its lifecycle, with the callbacks it has got, the newest first.
pub record RegisteredAdapter : Type 0 where
  pub endpoint : RuntimeEndpointId
  pub subscription_scope : ChannelSubscriptionScope
  pub state : AdapterLifecycleState
  pub permit : Option Permit
  pub callbacks : List AdapterLifecyclePhase

pub record RuntimeHost : Type 0 where
  pub state : RuntimeHostState
  pub adapters : List RegisteredAdapter
  pub bridge : Bridge
  pub permits : Map Bool
  pub next_permit : Permit

unfoldable pub with_session_config_host : SessionAggregateConfig → RuntimeHost
with_session_config_host config = record {
  state = RuntimeHostState.stopped;
  adapters = [];
  bridge = with_session_config config;
  permits = [];
  next_permit = 0;
}

-- `IngressPermit::enter`.
unfoldable pub enter : Permit → RuntimeHost → Bool
enter permit h = is_active (get permit h.permits)
  where
    is_active : Option Bool → Bool
    is_active none = false
    is_active (some active) = active

-- `IngressPermit::revoke`.
unfoldable pub revoke : Permit → RuntimeHost → RuntimeHost
revoke permit h = record h { permits = insert permit false h.permits }

abbrev pub revoke_opt : Option Permit → RuntimeHost → RuntimeHost
revoke_opt none h = h
revoke_opt (some permit) h = revoke permit h

pub data RuntimeAccessError : Type 0 where
  reentrant_bridge_access : RuntimeAccessError

pub data RuntimeRegistrationError : Type 0 where
  host_not_stopped : (state : RuntimeHostState) → RuntimeRegistrationError
  endpoint : EndpointRegistrationError → RuntimeRegistrationError
  bridge_access : RuntimeAccessError → RuntimeRegistrationError

unfoldable pub ensure_registration_allowed :
    RuntimeHostState → Result RuntimeRegistrationError (Unit {0})
ensure_registration_allowed RuntimeHostState.stopped = ok tt
ensure_registration_allowed RuntimeHostState.started =
    err (host_not_stopped RuntimeHostState.started)
ensure_registration_allowed RuntimeHostState.stop_failed =
    err (host_not_stopped RuntimeHostState.stop_failed)

abbrev pub new_adapter : RuntimeEndpointId → ChannelSubscriptionScope → RegisteredAdapter
new_adapter id scope = record {
  endpoint = id;
  subscription_scope = scope;
  state = AdapterLifecycleState.stopped;
  permit = none;
  callbacks = [];
}

-- The registration at the Bridge and, if it succeeds, the new adapter.
abbrev pub add_registered :
    RegisteredAdapter
    → Bridge × Result EndpointRegistrationError (Unit {0})
    → RuntimeHost
    → RuntimeHost × Result RuntimeRegistrationError (Unit {0})
add_registered adapter (b, ok u) h =
    (record h { bridge = b; adapters = h.adapters ++ (adapter ∷ []) }, ok tt)
add_registered adapter (b, err x) h = (record h { bridge = b }, err (endpoint x))

unfoldable pub register_provider_host :
    ProviderDescriptor → RuntimeHost → RuntimeHost × Result RuntimeRegistrationError (Unit {0})
register_provider_host d h = elim (ensure_registration_allowed h.state) [
  | err x ↦ (h, err x)
  | ok u ↦ add_registered (new_adapter (provider d.id) persistent) (register_provider d h.bridge) h
]

unfoldable pub register_channel_host :
    ChannelDescriptor
    → ChannelSubscriptionScope
    → RuntimeHost
    → RuntimeHost × Result RuntimeRegistrationError (Unit {0})
register_channel_host d scope h = elim (ensure_registration_allowed h.state) [
  | err x ↦ (h, err x)
  | ok u ↦ add_registered (new_adapter (channel d.id) scope) (register_channel d h.bridge) h
]
