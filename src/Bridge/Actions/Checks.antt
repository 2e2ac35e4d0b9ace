-- ===== src/Bridge/Actions/Checks.antt =====
-- What the checks of `handle_interaction_response` and `handle_command` in
-- agentpulse-bridge/src/bridge.rs let through.
use agentpulse_rs.Common.{◌≡◌, true, some, ok, arith, inl, inr, Option-cases}
use agentpulse_rs.Common.Map.{get}
use agentpulse_rs.Domain.Session.{Uuid}
use agentpulse_rs.Domain.Capability.{Flags}
use agentpulse_rs.Domain.Command.{
  AgentCommand, required_provider_capability, required_channel_capabilities,
}
use agentpulse_rs.Domain.Interaction.{InteractionRequest, InteractionResponse}
use agentpulse_rs.Domain.Interaction.Validate.{validate_response}
use agentpulse_rs.Routing.{
  interactive, interaction_route, validate_interaction_response, validate_command,
}
use agentpulse_rs.Routing.Agreement.{validate_interaction_response-interactive, validate_command-ok}
use agentpulse_rs.Aggregate.State.{SessionAggregate}
use agentpulse_rs.Bridge.State.{Bridge, RegisteredChannel, RegisteredProvider, is_subscribed}
use agentpulse_rs.Bridge.Actions.{
  action_channel_descriptor, validate_action_subscription, check_interaction_response,
  check_command,
}

-- The Channel is registered and subscribed to the session, whose Provider is registered.
pub record Acts (b : Bridge) (channel_id session_id : Uuid) : Type 0 where
  pub channel : RegisteredChannel
  pub aggregate : SessionAggregate
  pub provider : RegisteredProvider
  pub channel_registered : get channel_id b.channels ≡ some channel
  pub channel_subscribed : is_subscribed b channel_id session_id ≡ true
  pub session_exists : get session_id b.sessions ≡ some aggregate
  pub provider_registered : get aggregate.session.provider_id b.providers ≡ some provider

-- The response answers a pending request that is interactive on this Channel.
pub record MayRespond (flags : Flags) (b : Bridge) (channel_id : Uuid) (r : InteractionResponse)
    : Type 0 where
  pub acts : Acts b channel_id r.session_id
  pub request : InteractionRequest
  pub pending : get r.request_id acts.aggregate.pending_interactions ≡ some request
  pub routed :
      interaction_route flags acts.provider.descriptor acts.channel.descriptor
        acts.aggregate.session request
      ≡ ok interactive
  pub same_channel : r.channel_id ≡ acts.channel.descriptor.id
  pub same_session : r.session_id ≡ acts.aggregate.session.id
  pub answers : validate_response request r ≡ ok tt

-- Both ends declare what the command needs, and it names this session and this Channel.
pub record MayCommand (flags : Flags) (b : Bridge) (channel_id : Uuid) (k : AgentCommand)
    : Type 0 where
  pub acts : Acts b channel_id k.session_id
  pub owner : acts.aggregate.session.provider_id ≡ acts.provider.descriptor.id
  pub same_session : k.session_id ≡ acts.aggregate.session.id
  pub same_channel : k.channel_id ≡ acts.channel.descriptor.id
  pub provider_able :
      flags.contains acts.provider.descriptor.capabilities (required_provider_capability k.payload)
      ≡ true
  pub channel_able :
      flags.contains acts.channel.descriptor.capabilities
        (required_channel_capabilities flags k.payload)
      ≡ true

module _ (flags : Flags) (b : Bridge) (channel_id : Uuid) where
  pub responds :
      (r : InteractionResponse) (p : RegisteredProvider)
      → check_interaction_response flags channel_id r b ≡ ok p
      → MayRespond flags b channel_id r
  unfolding check_interaction_response action_channel_descriptor validate_action_subscription
  responds r p h = elim (Option-cases (get channel_id b.channels)) [
    | inl unknown ↦ ground arith
    | inr (channel, known) ↦ elim (Option-cases (get r.session_id b.sessions)) [
      | inl absent ↦ ground arith
      | inr (a, found) ↦ elim (Option-cases (get a.session.provider_id b.providers)) [
        | inl unowned ↦ ground arith
        | inr (provider, owned) ↦ elim (Option-cases (get r.request_id a.pending_interactions)) [
          | inl closed ↦ ground arith
          | inr (q, pending) ↦
              let valid : validate_interaction_response flags provider.descriptor channel.descriptor
                    a.session q r
                  ≡ ok tt =
                ground arith in
              let (routed, same_channel, same_session, answers) =
                (validate_interaction_response-interactive flags provider.descriptor
                    channel.descriptor a.session q r).0
                  valid in
              record {
                acts = record {
                  channel = channel;
                  aggregate = a;
                  provider = provider;
                  channel_registered = known;
                  channel_subscribed = ground arith;
                  session_exists = found;
                  provider_registered = owned;
                };
                request = q;
                pending = pending;
                routed = routed;
                same_channel = same_channel;
                same_session = same_session;
                answers = answers;
              }
        ]
      ]
    ]
  ]

  pub may_respond :
      (r : InteractionResponse)
      → MayRespond flags b channel_id r
      → (p : RegisteredProvider) × (check_interaction_response flags channel_id r b ≡ ok p)
  unfolding check_interaction_response action_channel_descriptor validate_action_subscription
  may_respond r m =
      let k = m.acts in
      let valid =
        (validate_interaction_response-interactive flags k.provider.descriptor k.channel.descriptor
            k.aggregate.session m.request r).1
          (m.routed, m.same_channel, m.same_session, m.answers) in
      (k.provider, ground arith)

  pub may_command_lem :
      (k : AgentCommand) (p : RegisteredProvider)
      → check_command flags channel_id k b ≡ ok p
      → MayCommand flags b channel_id k
  unfolding check_command action_channel_descriptor validate_action_subscription
  may_command_lem k p h = elim (Option-cases (get channel_id b.channels)) [
    | inl unknown ↦ ground arith
    | inr (channel, known) ↦ elim (Option-cases (get k.session_id b.sessions)) [
      | inl absent ↦ ground arith
      | inr (a, found) ↦ elim (Option-cases (get a.session.provider_id b.providers)) [
        | inl unowned ↦ ground arith
        | inr (provider, owned) ↦
            let valid : validate_command flags provider.descriptor channel.descriptor a.session k
                ≡ ok tt =
              ground arith in
            let (owner, same_session, same_channel, able, collects) =
              (validate_command-ok flags provider.descriptor channel.descriptor a.session k).0
                valid in
            record {
              acts = record {
                channel = channel;
                aggregate = a;
                provider = provider;
                channel_registered = known;
                channel_subscribed = ground arith;
                session_exists = found;
                provider_registered = owned;
              };
              owner = owner;
              same_session = same_session;
              same_channel = same_channel;
              provider_able = able;
              channel_able = collects;
            }
      ]
    ]
  ]

  pub may_command :
      (k : AgentCommand)
      → MayCommand flags b channel_id k
      → (p : RegisteredProvider) × (check_command flags channel_id k b ≡ ok p)
  unfolding check_command action_channel_descriptor validate_action_subscription
  may_command k m =
      let x = m.acts in
      let valid =
        (validate_command-ok flags x.provider.descriptor x.channel.descriptor x.aggregate.session
            k).1
          (m.owner, m.same_session, m.same_channel, m.provider_able, m.channel_able) in
      (x.provider, ground arith)
