-- ===== src/Bridge/Reachable.antt =====
-- The Bridges that the operations of agentpulse-bridge/src/bridge.rs and registry.rs can produce, in
-- any order of calls.
use agentpulse_rs.Common.{ℕ, List, [], ◌∷◌}
use agentpulse_rs.Domain.Session.{Uuid}
use agentpulse_rs.Domain.Capability.{Flags}
use agentpulse_rs.Domain.Endpoint.{ProviderDescriptor, ChannelDescriptor}
use agentpulse_rs.Domain.Event.{AgentEvent}
use agentpulse_rs.Domain.Command.{AgentCommand}
use agentpulse_rs.Domain.Interaction.{InteractionResponse}
use agentpulse_rs.Aggregate.State.{SessionAggregateConfig}
use agentpulse_rs.Aggregate.Invariant.{IsWellFormed}
use agentpulse_rs.Bridge.State.{
  Ports, Bridge, with_session_config, register_provider, register_channel,
}
use agentpulse_rs.Bridge.Events.{handle_provider_event}
use agentpulse_rs.Bridge.Actions.{handle_interaction_response, handle_command}
use agentpulse_rs.Bridge.Subscription.{subscribe, unsubscribe, unsubscribe_channel}
use agentpulse_rs.Bridge.Sync.{sync_session}
use agentpulse_rs.Bridge.Consistent.{IsConsistent}
use agentpulse_rs.Bridge.Consistent.Operations.{
  register_provider-IsConsistent, register_channel-IsConsistent, handle_provider_event-IsConsistent,
}
use agentpulse_rs.Bridge.Consistent.Actions.{
  handle_interaction_response-IsConsistent, handle_command-IsConsistent,
}
use agentpulse_rs.Bridge.Consistent.Subscriptions.{
  unsubscribe-IsConsistent, unsubscribe_channel-IsConsistent,
}
use agentpulse_rs.Bridge.Consistent.Subscribing.{subscribe-IsConsistent, sync_session-IsConsistent}

-- The calls of the Bridge that can change its state. The events come from `AgentEvent::new`.
pub data Call : Type 0 where
  registers_provider : ProviderDescriptor → Call
  registers_channel : ChannelDescriptor → Call
  sends_event : (provider_id : Uuid) (e : AgentEvent) → IsWellFormed e → Call
  responds : (channel_id : Uuid) → InteractionResponse → Call
  commands : (channel_id : Uuid) → AgentCommand → Call
  subscribes : (channel_id session_id : Uuid) → Call
  unsubscribes : (channel_id session_id : Uuid) → Call
  unsubscribes_channel : (channel_id : Uuid) → Call
  syncs : (channel_id session_id : Uuid) (requested_after max_events : ℕ) → Call

module _ (flags : Flags) (ports : Ports) where
  abbrev pub perform : Call → Bridge → Bridge
  perform (registers_provider d) b = (register_provider d b).0
  perform (registers_channel d) b = (register_channel d b).0
  perform (sends_event id e w) b = (handle_provider_event flags ports id e b).0
  perform (responds id r) b = (handle_interaction_response flags ports id r b).0
  perform (commands id c) b = (handle_command flags ports id c b).0
  perform (subscribes id s) b = (subscribe flags ports id s b).0
  perform (unsubscribes id s) b = (unsubscribe id s b).0
  perform (unsubscribes_channel id) b = (unsubscribe_channel id b).0
  perform (syncs id s after n) b = (sync_session flags ports id s after n b).0

  -- The Bridge after a history of calls, the latest first.
  abbrev pub after_calls : SessionAggregateConfig → List Call → Bridge
  after_calls config [] = with_session_config config
  after_calls config (call ∷ calls) = perform call (after_calls config calls)

  perform-IsConsistent : (call : Call) (b : Bridge) → IsConsistent b → IsConsistent (perform call b)
  perform-IsConsistent (registers_provider d) b c = register_provider-IsConsistent b c d
  perform-IsConsistent (registers_channel d) b c = register_channel-IsConsistent b c d
  perform-IsConsistent (sends_event id e w) b c =
      handle_provider_event-IsConsistent b c id e w flags ports
  perform-IsConsistent (responds id r) b c =
      handle_interaction_response-IsConsistent b c flags ports id r
  perform-IsConsistent (commands id k) b c = handle_command-IsConsistent b c flags ports id k
  perform-IsConsistent (subscribes id s) b c = subscribe-IsConsistent b c flags ports id s
  perform-IsConsistent (unsubscribes id s) b c = unsubscribe-IsConsistent b c id s
  perform-IsConsistent (unsubscribes_channel id) b c = unsubscribe_channel-IsConsistent b c id
  perform-IsConsistent (syncs id s after n) b c =
      sync_session-IsConsistent b c flags ports id s after n

  -- Whatever calls a new Bridge gets, in whatever order and whatever the adapters answer, it is
  -- consistent: its maps are in key order and keyed by identity; each session's Provider is
  -- registered and its aggregate is the end of a log of well-formed events; each subscription names
  -- an existing session and at least one Channel, all of them registered.
  pub after_calls-IsConsistent :
      (config : SessionAggregateConfig) (calls : List Call)
      → IsConsistent (after_calls config calls)
  unfolding with_session_config
  after_calls-IsConsistent config [] = record {
    providers_sorted = tt;
    providers_keyed = tt;
    channels_sorted = tt;
    channels_keyed = tt;
    sessions_sorted = tt;
    sessions_held = tt;
    subscriptions_sorted = tt;
    subscriptions_held = tt;
  }
  after_calls-IsConsistent config (call ∷ calls) =
      perform-IsConsistent call (after_calls config calls) (after_calls-IsConsistent config calls)
