-- ===== src/Routing/Agreement.antt =====
-- That the decisions of agentpulse-core/src/routing.rs agree: what is shown as interactive is what
-- can be answered.
use agentpulse_rs.Common.{◌≡◌, ◌↔◌, refl, true, ok, arith}
use agentpulse_rs.Domain.Session.{AgentSession}
use agentpulse_rs.Domain.Capability.{Flags}
use agentpulse_rs.Domain.Endpoint.{ProviderDescriptor, ChannelDescriptor}
use agentpulse_rs.Domain.Command.{
  AgentCommand, required_provider_capability, required_channel_capabilities,
}
use agentpulse_rs.Domain.Interaction.{
  InteractionRequest, InteractionResponse, InteractionRequestPayload, InteractionResponsePayload,
  approval_request, choice_request, text_request, form_request, approval_response, choice_response,
  text_response, form_response,
}
use agentpulse_rs.Domain.Interaction.Validate.{is_actionable, validate_response, check_payload}
use agentpulse_rs.Routing.{
  interactive, validate_provider_session, validate_session_id, validate_channel_id,
  validate_provider_capabilities, validate_channel_capabilities, interaction_route,
  validate_interaction_response, validate_command,
}

check_payload-actionable :
    (p : InteractionRequestPayload) (r : InteractionResponsePayload)
    → check_payload p r ≡ ok tt
    → is_actionable p ≡ true
unfolding check_payload is_actionable
check_payload-actionable (approval_request q) (approval_response s) h = ground arith
check_payload-actionable (approval_request q) (choice_response s) h = cc
check_payload-actionable (approval_request q) (text_response s) h = cc
check_payload-actionable (approval_request q) (form_response s) h = cc
check_payload-actionable (choice_request q) r h = refl
check_payload-actionable (text_request q) r h = refl
check_payload-actionable (form_request q) r h = refl

validate_response-actionable :
    (q : InteractionRequest) (r : InteractionResponse)
    → validate_response q r ≡ ok tt
    → is_actionable q.payload ≡ true
unfolding validate_response
validate_response-actionable q r h = ground (arith, check_payload-actionable q.payload r.payload)

module _ (f : Flags) (provider : ProviderDescriptor) (channel : ChannelDescriptor)
    (session : AgentSession) (request : InteractionRequest) (response : InteractionResponse) where
  -- A response may be handed to the Provider exactly if the request is routed as interactive to
  -- the Channel, the response is this Channel's and of this session, and it answers the request.
  pub validate_interaction_response-interactive :
      (validate_interaction_response f provider channel session request response ≡ ok tt) ↔ (
        (interaction_route f provider channel session request ≡ ok interactive)
        × (response.channel_id ≡ channel.id)
        × (response.session_id ≡ session.id)
        × (validate_response request response ≡ ok tt))
  unfolding validate_interaction_response interaction_route validate_provider_session
      validate_session_id validate_channel_id validate_provider_capabilities
      validate_channel_capabilities
  validate_interaction_response-interactive =
      let actionable = validate_response-actionable request response in
      (λ h. ground (arith, actionable), λ h. ground (arith, actionable))

-- A command may be handed to the Provider exactly if it names the session, of this Provider, and
-- the Channel, and both ends declare what the command needs.
pub validate_command-ok :
    (f : Flags) (provider : ProviderDescriptor) (channel : ChannelDescriptor)
    (session : AgentSession) (command : AgentCommand)
    → (validate_command f provider channel session command ≡ ok tt) ↔ (
        (session.provider_id ≡ provider.id)
        × (command.session_id ≡ session.id)
        × (command.channel_id ≡ channel.id)
        × (f.contains provider.capabilities (required_provider_capability command.payload) ≡ true)
        × (f.contains channel.capabilities (required_channel_capabilities f command.payload)
            ≡ true))
unfolding validate_command validate_provider_session validate_session_id validate_channel_id
    validate_provider_capabilities validate_channel_capabilities
validate_command-ok f provider channel session command = (λ h. ground arith, λ h. ground arith)
