-- ===== src/Bridge/Consistent.antt =====
-- The well-formedness of the Bridge of agentpulse-bridge/src/bridge.rs and registry.rs, and that the
-- changes which its operations are made of preserve it.
pub mod Registrations
pub mod Subscribing
pub mod Actions
pub mod Subscriptions
pub mod Operations
use agentpulse_rs.Common.{
  ℕ, ◌≡◌, refl, sym, ap, ◌∙◌, Bool, true, false, List, [], ◌∷◌, Option, none, some, arith, is_some,
  All, if◌then◌else◌, ◌==◌, ◌||◌,
}
use agentpulse_rs.Common.Map.{
  Map, get, insert, contains_key, IsSorted, Each, get-Each, insert-Each, insert-IsSorted,
}
use agentpulse_rs.Common.Map.Laws.{contains_key-insert, Each-mono}
use agentpulse_rs.Domain.Value.{is_empty}
use agentpulse_rs.Domain.Session.{Uuid}
use agentpulse_rs.Domain.Event.{AgentEvent}
use agentpulse_rs.Aggregate.State.{SessionAggregate, SessionAggregateConfig}
use agentpulse_rs.Aggregate.Log.{Reaches}
use agentpulse_rs.Aggregate.Invariant.{IsWellFormed}
use agentpulse_rs.Bridge.State.{Bridge, IdSet, RegisteredChannel, RegisteredProvider}
use agentpulse_rs.Bridge.Events.Deliveries.{Keyed, SameRegistrations, described}

abbrev pub ProviderKeyed : Uuid → RegisteredProvider → Type 0
ProviderKeyed id p = p.descriptor.id ≡ id

-- The session of an entry is that of its key, its Provider is registered, and its aggregate is the
-- end of a log of well-formed events.
pub record Held (providers : Map RegisteredProvider) (c : SessionAggregateConfig) (id : Uuid)
    (a : SessionAggregate) : Type 0 where
  pub keyed : a.session.id ≡ id
  pub owned : contains_key a.session.provider_id providers ≡ true
  pub events : List AgentEvent
  pub well_formed : All IsWellFormed events
  pub reached : Reaches c events a

abbrev pub Has {ℓ} : {V : Type ℓ} → Map V → Uuid → Type 0
Has m id = contains_key id m ≡ true

-- The session of an entry exists, and its subscribers, one at least, are registered Channels.
pub record Subscribes (sessions : Map SessionAggregate) (channels : Map RegisteredChannel)
    (id : Uuid) (set : IdSet) : Type 0 where
  pub existing : Has sessions id
  pub not_empty : is_empty set ≡ false
  pub ordered : IsSorted set
  pub registered : Each (λ channel_id _. Has channels channel_id) set

pub record IsConsistent (b : Bridge) : Type 0 where
  pub providers_sorted : IsSorted b.providers
  pub providers_keyed : Each ProviderKeyed b.providers
  pub channels_sorted : IsSorted b.channels
  pub channels_keyed : Each Keyed b.channels
  pub sessions_sorted : IsSorted b.sessions
  pub sessions_held : Each (Held b.providers b.session_config) b.sessions
  pub subscriptions_sorted : IsSorted b.subscriptions
  pub subscriptions_held : Each (Subscribes b.sessions b.channels) b.subscriptions

-- A map with more keys.
abbrev pub Extends {ℓ} : {V : Type ℓ} → Map V → Map V → Type 0
Extends new old = (id : Uuid) → Has old id → Has new id

pub insert-Extends {ℓ} : {V : Type ℓ} (k : Uuid) (v : V) (m : Map V) → Extends (insert k v m) m
insert-Extends k v m id h = ground (arith, contains_key-insert k id v m)

pub Held-mono :
    {new old : Map RegisteredProvider} {c : SessionAggregateConfig}
    → Extends new old
    → (id : Uuid) (a : SessionAggregate) → Held old c id a
    → Held new c id a
Held-mono e id a h = record {
  keyed = h.keyed;
  owned = e a.session.provider_id h.owned;
  events = h.events;
  well_formed = h.well_formed;
  reached = h.reached;
}

pub Subscribes-mono :
    {sessions' sessions : Map SessionAggregate} {channels' channels : Map RegisteredChannel}
    → Extends sessions' sessions
    → Extends channels' channels
    → (id : Uuid) (set : IdSet) → Subscribes sessions channels id set
    → Subscribes sessions' channels' id set
Subscribes-mono {channels' = channels'} {channels = channels} e f id set h = record {
  existing = e id h.existing;
  not_empty = h.not_empty;
  ordered = h.ordered;
  registered =
      Each-mono (λ i _. Has channels i) (λ i _. Has channels' i) (λ i _. f i) set h.registered;
}

pub SameRegistrations-Extends :
    {new old : Map RegisteredChannel} → SameRegistrations new old → Extends new old
SameRegistrations-Extends {new} {old} s id h = described_Has id new old (s.same_described id) h
  where
    described_Has :
        (id : Uuid) (new old : Map RegisteredChannel)
        → described id new ≡ described id old
        → Has old id
        → Has new id
    described_Has id new old e h = ground arith
