-- ===== src/Domain/Interaction/Validate.antt =====
-- agentpulse-core/src/interaction.rs: `InteractionRequest::validate_response`, and the capabilities
-- that requests and responses need.
use agentpulse_rs.Common.{
  Bool, true, false, not, ◌&&◌, List, [], ◌∷◌, Option, none, some, Result, ok, err, ltb, ◌==◌,
  if◌then◌else◌, ◌>>=◌, ◌>>◌, any, length, ok_or,
}
use agentpulse_rs.Domain.Error.{
  DomainError, invalid_choice_selection, unknown_choice_option, unknown_approval_option,
  approval_unavailable, interaction_type_mismatch, correlation_mismatch, invalid_time_order,
  interaction_expired,
}
use agentpulse_rs.Domain.Value.{is_empty, Timestamp}
use agentpulse_rs.Domain.Session.{Uuid}
use agentpulse_rs.Domain.Capability.{
  ProviderCapabilities, ChannelCapabilities, approval_request as approval_request_capability,
  approval_response as approval_response_capability, user_input_request, user_input_response,
  approval, choice_input, text_input, form_input,
}
use agentpulse_rs.Domain.Interaction.{
  ApprovalOption, ApprovalRequest, ChoiceOption, FormField, FormAnswer, FormAnswerValue, choice,
  text, InteractionRequestPayload, approval_request, choice_request, text_request, form_request,
  InteractionRequest, InteractionResponsePayload, approval_response, choice_response, text_response,
  form_response, InteractionResponse,
}

-- `ApprovalRequest::contains`.
unfoldable pub contains_approval : List ApprovalOption → Uuid → Bool
contains_approval options id = any (λ o. o.id == id) options

-- `ChoiceRequest::contains` and `FormField::contains`.
unfoldable pub contains_choice : List ChoiceOption → Uuid → Bool
contains_choice options id = any (λ o. o.id == id) options

abbrev pub is_actionable_approval : ApprovalRequest → Bool
is_actionable_approval r = not (is_empty r.options)

unfoldable pub is_actionable : InteractionRequestPayload → Bool
is_actionable (approval_request r) = is_actionable_approval r
is_actionable _ = true

-- `for option_id in &selection.option_ids`.
unfoldable pub check_selected : List ChoiceOption → List Uuid → Result DomainError (Unit {0})
check_selected options [] = ok tt
check_selected options (k ∷ ks) =
    let rest = check_selected options ks in
    if contains_choice options k then rest else err (unknown_choice_option k)

-- `answers.iter().find(..)`.
unfoldable pub find_answer : Uuid → List FormAnswer → Option FormAnswer
find_answer k [] = none
find_answer k (a ∷ rest) = if a.field_id == k then some a else find_answer k rest

unfoldable pub check_value : FormField → FormAnswerValue → Result DomainError (Unit {0})
check_value field (choice id) =
    if contains_choice field.options id
    then ok tt
    else err (invalid_choice_selection "form answer selected an unknown option")
check_value field (text t) =
    if field.allows_other
    then ok tt
    else err (invalid_choice_selection "form field does not allow a custom answer")

abbrev pub every_field_once : DomainError
every_field_once = invalid_choice_selection "form responses must answer every field exactly once"

-- `for field in &request.fields`.
unfoldable pub check_fields : List FormAnswer → List FormField → Result DomainError (Unit {0})
check_fields answers [] = ok tt
check_fields answers (f ∷ fs) =
    let rest = check_fields answers fs in
    do answer ← ok_or (find_answer f.id answers) every_field_once; check_value f answer.value; rest

-- The `match` on the two payloads.
unfoldable pub check_payload :
    InteractionRequestPayload → InteractionResponsePayload → Result DomainError (Unit {0})
unfolding check_selected check_fields
check_payload (approval_request r) (approval_response s) =
    if not (is_actionable_approval r)
    then err approval_unavailable
    else if not (contains_approval r.options s.option_id)
    then err (unknown_approval_option s.option_id)
    else ok tt
check_payload (text_request r) (text_response t) = ok tt
check_payload (choice_request r) (choice_response s) =
    if not r.multiple && not (length s.option_ids == 1)
    then err (invalid_choice_selection "single-choice requests require exactly one selected option")
    else check_selected r.options s.option_ids
check_payload (form_request r) (form_response s) =
    if not (length s.answers == length r.fields)
    then err every_field_once
    else check_fields s.answers r.fields
check_payload _ _ = err interaction_type_mismatch

-- `expires_at.is_some_and(|expires_at| responded_at > expires_at)`.
abbrev pub has_expired : Option Timestamp → Timestamp → Bool
has_expired none responded_at = false
has_expired (some expires_at) responded_at = ltb expires_at responded_at

unfoldable pub validate_response :
    InteractionRequest → InteractionResponse → Result DomainError (Unit {0})
validate_response q r =
    if not (r.request_id == q.id)
    then err (correlation_mismatch "interaction request ID" q.id r.request_id)
    else if not (r.session_id == q.session_id)
    then err (correlation_mismatch "interaction session ID" q.session_id r.session_id)
    else if ltb r.responded_at q.requested_at
    then err (invalid_time_order "interaction requested_at" "interaction responded_at")
    else if has_expired q.expires_at r.responded_at
    then err interaction_expired
    else check_payload q.payload r.payload

unfoldable pub required_provider_request_capability :
    InteractionRequestPayload → ProviderCapabilities
required_provider_request_capability (approval_request r) = approval_request_capability
required_provider_request_capability _ = user_input_request

unfoldable pub required_provider_response_capability :
    InteractionRequestPayload → ProviderCapabilities
required_provider_response_capability (approval_request r) = approval_response_capability
required_provider_response_capability _ = user_input_response

unfoldable pub required_channel_response_capability :
    InteractionRequestPayload → ChannelCapabilities
required_channel_response_capability (approval_request r) = approval
required_channel_response_capability (choice_request r) = choice_input
required_channel_response_capability (text_request r) = text_input
required_channel_response_capability (form_request r) = form_input

-- `InteractionResponsePayload::required_provider_capability`.
unfoldable pub response_provider_capability : InteractionResponsePayload → ProviderCapabilities
response_provider_capability (approval_response s) = approval_response_capability
response_provider_capability _ = user_input_response

-- `InteractionResponsePayload::required_channel_capability`.
unfoldable pub response_channel_capability : InteractionResponsePayload → ChannelCapabilities
response_channel_capability (approval_response s) = approval
response_channel_capability (choice_response s) = choice_input
response_channel_capability (text_response t) = text_input
response_channel_capability (form_response s) = form_input
