-- ===== src/Examples/Interactions.antt =====
-- The theorems on values, responses and routes at an approval and at a form.
use agentpulse_rs.Common.{◌≡◌, ◌↔◌, ◌⊎◌, ◌≤◌, refl, true, false, [], ◌∷◌, ok, err, inl}
use agentpulse_rs.Domain.Error.{blank_text}
use agentpulse_rs.Domain.Value.{new_text}
use agentpulse_rs.Domain.Value.Laws.{IsVisible, new_text-IsVisible}
use agentpulse_rs.Domain.Unique.{member}
use agentpulse_rs.Domain.Interaction.{
  FormField, FormRequest, FormAnswer, FormAnswerValue, FormResponse, InteractionRequestPayload,
  InteractionRequest, InteractionResponsePayload, InteractionResponse, field_ids, new_form_request,
  new_form_response,
}
use agentpulse_rs.Domain.Interaction.Validate.{
  validate_response, check_payload, find_answer, check_value, contains_choice,
}
use agentpulse_rs.Domain.Interaction.Answers.{Answers, IsInTime, validate_response-ok}
use agentpulse_rs.Domain.Interaction.Forms.{validate_response_no_stray}
use agentpulse_rs.Routing.{interactive, interaction_route, validate_interaction_response}
use agentpulse_rs.Routing.Agreement.{validate_interaction_response-interactive}
use agentpulse_rs.Examples.{bits, provider, answering, session, request, response, label}

new_text_example :
    (IsVisible label.text × (new_text label.text ≡ ok label))
    ⊎ ((¬ IsVisible label.text) × (new_text label.text ≡ err (blank_text "text")))
new_text_example = new_text-IsVisible label.text

validate_response_example : (validate_response request response ≡ ok tt) ↔ (
    (response.request_id ≡ request.id)
    × (response.session_id ≡ request.session_id)
    × (request.requested_at ≤ response.responded_at)
    × IsInTime request.expires_at response.responded_at
    × Answers request.payload response.payload)
validate_response_example = validate_response-ok request response tt

interactive_example :
    (validate_interaction_response bits provider answering session request response ≡ ok tt) ↔ (
      (interaction_route bits provider answering session request ≡ ok interactive)
      × (response.channel_id ≡ answering.id)
      × (response.session_id ≡ session.id)
      × (validate_response request response ≡ ok tt))
interactive_example =
    validate_interaction_response-interactive bits provider answering session request response

abbrev field : FormField
field = record {
  id = 40;
  header = label;
  prompt = label;
  options = [];
  allows_other = true;
  sensitive = false;
}

abbrev form : FormRequest
form = record { fields = field ∷ []; blocking = true }

abbrev answer : FormAnswer
answer = record { field_id = 40; value = FormAnswerValue.text label }

abbrev given : FormResponse
given = record { answers = answer ∷ [] }

abbrev form_asked : InteractionRequest
form_asked = record request { payload = InteractionRequestPayload.form_request form }

abbrev form_given : InteractionResponse
form_given = record response { payload = InteractionResponsePayload.form_response given }

form_made : new_form_request (field ∷ []) true ≡ ok form
unfolding new_form_request
form_made = refl

given_made : new_form_response (answer ∷ []) ≡ ok given
unfolding new_form_response
given_made = refl

form_accepted : validate_response form_asked form_given ≡ ok tt
unfolding validate_response check_payload find_answer check_value contains_choice
form_accepted = refl

no_stray_example : member answer.field_id (field_ids form.fields) ≡ true
no_stray_example =
    validate_response_no_stray form_asked form_given (field ∷ []) true (answer ∷ []) form given
      answer form_made given_made refl refl form_accepted (inl refl)
