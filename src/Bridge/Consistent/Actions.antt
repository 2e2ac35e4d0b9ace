-- ===== src/Bridge/Consistent/Actions.antt =====
-- That the Actions of agentpulse-bridge/src/bridge.rs keep the Bridge consistent.
use agentpulse_rs.Common.{◌≡◌, some, ok, arith, inl, inr, Result-cases, ◌∷◌}
use agentpulse_rs.Common.Map.{get, get-Each}
use agentpulse_rs.Domain.Session.{Uuid}
use agentpulse_rs.Domain.Capability.{Flags}
use agentpulse_rs.Domain.Command.{AgentCommand}
use agentpulse_rs.Domain.Interaction.{InteractionResponse}
use agentpulse_rs.Bridge.State.{
  Ports, Bridge, RegisteredProvider, ProviderHandoff, accept_interaction_response, accept_command,
}
use agentpulse_rs.Bridge.Actions.{
  ProviderHandoffKind, interaction_response, command, hand_over, provider_of,
  check_interaction_response, check_command, handle_interaction_response, handle_command,
}
use agentpulse_rs.Bridge.Consistent.{ProviderKeyed, IsConsistent}
use agentpulse_rs.Bridge.Consistent.Registrations.{providers-IsConsistent}

-- A checked Action goes to the Provider under which its session is registered.
pub check_interaction_response-provider :
    (flags : Flags) (channel_id : Uuid) (r : InteractionResponse) (b : Bridge)
    (p : RegisteredProvider)
    → check_interaction_response flags channel_id r b ≡ ok p
    → get (provider_of b r.session_id) b.providers ≡ some p
unfolding check_interaction_response
check_interaction_response-provider flags channel_id r b p h = ground arith

pub check_command-provider :
    (flags : Flags) (channel_id : Uuid) (k : AgentCommand) (b : Bridge) (p : RegisteredProvider)
    → check_command flags channel_id k b ≡ ok p
    → get (provider_of b k.session_id) b.providers ≡ some p
unfolding check_command
check_command-provider flags channel_id k b p h = ground arith

module _ (b : Bridge) (c : IsConsistent b) where
  hand_over-IsConsistent :
      (ports : Ports) (id : Uuid) (kind : ProviderHandoffKind) (h : ProviderHandoff)
      (p : RegisteredProvider)
      → get id b.providers ≡ some p
      → IsConsistent (hand_over ports id kind h p b).0
  unfolding hand_over
  hand_over-IsConsistent ports id kind h p found =
      providers-IsConsistent b c id (record p { received = h ∷ p.received })
        (get-Each ProviderKeyed id b.providers p c.providers_keyed found)

  pub handle_interaction_response-IsConsistent :
      (flags : Flags) (ports : Ports) (channel_id : Uuid) (r : InteractionResponse)
      → IsConsistent (handle_interaction_response flags ports channel_id r b).0
  unfolding handle_interaction_response
  handle_interaction_response-IsConsistent flags ports channel_id r =
      elim (Result-cases (check_interaction_response flags channel_id r b)) [
        | inr (x, failed) ↦ rw (failed, handle_interaction_response) c
        | inl (p, checked) ↦
            rw (checked, handle_interaction_response)
              (hand_over-IsConsistent ports (provider_of b r.session_id) interaction_response
                (accept_interaction_response r) p
                (check_interaction_response-provider flags channel_id r b p checked))
      ]

  pub handle_command-IsConsistent :
      (flags : Flags) (ports : Ports) (channel_id : Uuid) (k : AgentCommand)
      → IsConsistent (handle_command flags ports channel_id k b).0
  unfolding handle_command
  handle_command-IsConsistent flags ports channel_id k =
      elim (Result-cases (check_command flags channel_id k b)) [
        | inr (x, failed) ↦ rw (failed, handle_command) c
        | inl (p, checked) ↦
            rw (checked, handle_command)
              (hand_over-IsConsistent ports (provider_of b k.session_id) command (accept_command k)
                p (check_command-provider flags channel_id k b p checked))
      ]
