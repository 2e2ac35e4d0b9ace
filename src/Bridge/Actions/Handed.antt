-- ===== src/Bridge/Actions/Handed.antt =====
-- What reaches a Provider through `handle_interaction_response` and `handle_command` of
-- agentpulse-bridge/src/bridge.rs.
use agentpulse_rs.Common.{
  ◌≡◌, ◌∷◌, Option, none, some, Result, ok, err, arith, inl, inr, Result-cases,
}
use agentpulse_rs.Common.Map.{get, insert}
use agentpulse_rs.Domain.Session.{Uuid}
use agentpulse_rs.Domain.Capability.{Flags}
use agentpulse_rs.Domain.Command.{AgentCommand}
use agentpulse_rs.Domain.Interaction.{InteractionResponse}
use agentpulse_rs.Bridge.State.{
  AdapterError, Ports, Bridge, RegisteredProvider, ProviderHandoff, accept_interaction_response,
  accept_command,
}
use agentpulse_rs.Bridge.Actions.{
  ProviderHandoffKind, ChannelActionError, provider_handoff, check_interaction_response,
  check_command, hand_over, provider_of, handle_interaction_response, handle_command,
  interaction_response, command,
}
use agentpulse_rs.Bridge.Consistent.Actions.{
  check_interaction_response-provider, check_command-provider,
}
use agentpulse_rs.Bridge.Actions.Checks.{
  MayRespond, MayCommand, responds, may_respond, may_command_lem, may_command,
}

-- The answer of the Provider's port as the result of an Action.
abbrev pub answered :
    Uuid → ProviderHandoffKind → Option AdapterError → Result ChannelActionError (Unit {0})
answered id kind none = ok tt
answered id kind (some x) = err (provider_handoff id kind x)

-- The two ways in which an Action can end, where `May` is what has to hold for it.
pub data Acted (May : Type 0) (ports : Ports) (b : Bridge) (id : Uuid) (kind : ProviderHandoffKind)
    (h : ProviderHandoff) (p : Bridge × Result ChannelActionError (Unit {0})) : Type 0 where
  -- A refused Action changes nothing, and reaches nobody.
  refused : (x : ChannelActionError) → ¬ May → p ≡ (b, err x) → Acted May ports b id kind h p
  -- An allowed one is handed to the Provider's port, once, and its answer is the result.
  handed :
      (provider : RegisteredProvider)
      → May
      → get id b.providers ≡ some provider
      → p ≡ (
        record b {
          providers = insert id (record provider { received = h ∷ provider.received }) b.providers;
        },
        answered id kind (ports.provider_answer id provider.received h),
      )
      → Acted May ports b id kind h p

-- A response reaches a Provider exactly if its Channel is registered and subscribed to its session,
-- the session's Provider is registered, it names an interaction that is pending in the session and
-- is interactive on this Channel, and it answers it. It is then handed, once, to the Provider that
-- the session belongs to, and nothing else of the Bridge changes: not the session either. Any other
-- response is refused and changes nothing.
pub handle_interaction_response-Acted :
    (flags : Flags) (ports : Ports) (channel_id : Uuid) (r : InteractionResponse) (b : Bridge)
    → Acted
        (MayRespond flags b channel_id r)
        ports
        b
        (provider_of b r.session_id)
        interaction_response
        (accept_interaction_response r)
        (handle_interaction_response flags ports channel_id r b)
unfolding handle_interaction_response
handle_interaction_response-Acted flags ports channel_id r b =
    elim (Result-cases (check_interaction_response flags channel_id r b)) [
      | inr (x, failed) ↦
          refused x (λ m. let (p, fine) = may_respond flags b channel_id r m in ground arith)
            (ground arith)
      | inl (p, checked) ↦
          handed p (responds flags b channel_id r p checked)
            (check_interaction_response-provider flags channel_id r b p checked)
            (unfold hand_over in ground arith)
    ]

-- A command reaches a Provider exactly if its Channel is registered and subscribed to its session,
-- the session's Provider is registered, it names this session and this Channel, and both ends
-- declare the capabilities that it needs. It is then handed, once, to the Provider that the session
-- belongs to, and nothing else of the Bridge changes. Any other command is refused and changes
-- nothing.
pub handle_command-Acted :
    (flags : Flags) (ports : Ports) (channel_id : Uuid) (k : AgentCommand) (b : Bridge)
    → Acted
        (MayCommand flags b channel_id k)
        ports
        b
        (provider_of b k.session_id)
        command
        (accept_command k)
        (handle_command flags ports channel_id k b)
unfolding handle_command
handle_command-Acted flags ports channel_id k b =
    elim (Result-cases (check_command flags channel_id k b)) [
      | inr (x, failed) ↦
          refused x (λ m. let (p, fine) = may_command flags b channel_id k m in ground arith)
            (ground arith)
      | inl (p, checked) ↦
          handed p (may_command_lem flags b channel_id k p checked)
            (check_command-provider flags channel_id k b p checked)
            (unfold hand_over in ground arith)
    ]
