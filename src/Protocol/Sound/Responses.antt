-- ===== src/Protocol/Sound/Responses.antt =====
-- Decoded responses, closed interactions and commands are ones that the constructors allow.
use agentpulse_rs.Common.{
  ℕ, ◌≡◌, refl, subst, List, [], ◌∷◌, ok, arith, try_map, try_map-All, bind-ok,
}
use agentpulse_rs.Domain.Unique.{find_duplicate-IsUnique}
use agentpulse_rs.Domain.Identifiers.{Formats, IsV7}
use agentpulse_rs.Domain.Interaction.{
  FormAnswerValue, FormAnswer, FormResponse, answer_ids, new_form_response, ChoiceSelection,
  new_choice_selection, InteractionResponsePayload, approval_response, choice_response,
  text_response, form_response, InteractionResponse, InteractionClosed,
}
use agentpulse_rs.Domain.Constructed.{
  IsListing, IsAnswerValue, IsAnswer, IsResponsePayload, IsResponse, IsClosed,
}
use agentpulse_rs.Protocol.Dto.Interactions.{
  FormAnswerValueDto, FormAnswerDto, InteractionResponsePayloadDto, InteractionResponseDto,
  InteractionClosedDto,
}
use agentpulse_rs.Protocol.Convert.Scalars.{lift, parse_id, decode_text}
use agentpulse_rs.Protocol.Convert.Responses.{
  decode_answer_value, decode_answer, decode_interaction_response_payload,
  decode_interaction_response, decode_interaction_closed,
}
use agentpulse_rs.Protocol.Sound.Scalars.{text-IsText, id-IsV7}

new_choice_selection-IsListing :
    (ids : List ℕ) (s : ChoiceSelection)
    → new_choice_selection ids ≡ ok s
    → (s.option_ids ≡ ids) × IsListing ids
unfolding new_choice_selection
new_choice_selection-IsListing [] s e = absurd (ground arith)
new_choice_selection-IsListing (k ∷ ks) s e =
    (ground arith, (refl, (find_duplicate-IsUnique (k ∷ ks)).0 (ground arith)))

new_form_response-IsListing :
    (answers : List FormAnswer) (r : FormResponse)
    → new_form_response answers ≡ ok r
    → (r.answers ≡ answers) × IsListing (answer_ids answers)
unfolding new_form_response
new_form_response-IsListing [] r e = absurd (ground arith)
new_form_response-IsListing (a ∷ as') r e =
    (ground arith, (refl, (find_duplicate-IsUnique (answer_ids (a ∷ as'))).0 (ground arith)))

module _ (formats : Formats) where
  decode_answer_value-IsAnswerValue :
      (d : FormAnswerValueDto) (x : FormAnswerValue)
      → decode_answer_value formats d ≡ ok x
      → IsAnswerValue formats x
  unfolding decode_answer_value
  decode_answer_value-IsAnswerValue (FormAnswerValueDto.choice s) (FormAnswerValue.choice id) e =
      id-IsV7 formats "choice option ID" s id (ground arith)
  decode_answer_value-IsAnswerValue (FormAnswerValueDto.text s) (FormAnswerValue.text t) e =
      text-IsText s t (ground arith)
  decode_answer_value-IsAnswerValue (FormAnswerValueDto.choice s) x e = absurd (ground arith)
  decode_answer_value-IsAnswerValue (FormAnswerValueDto.text s) x e = absurd (ground arith)

  decode_answer-IsAnswer :
      (d : FormAnswerDto) (a : FormAnswer) → decode_answer formats d ≡ ok a → IsAnswer formats a
  unfolding decode_answer
  decode_answer-IsAnswer d a e = (
    id-IsV7 formats "form field ID" d.field_id a.field_id (ground arith),
    decode_answer_value-IsAnswerValue d.value a.value (ground arith),
  )

  decode_interaction_response_payload-IsResponsePayload :
      (d : InteractionResponsePayloadDto) (p : InteractionResponsePayload)
      → decode_interaction_response_payload formats d ≡ ok p
      → IsResponsePayload formats p
  unfolding decode_interaction_response_payload
  decode_interaction_response_payload-IsResponsePayload (InteractionResponsePayloadDto.approval s) p
        e =
      let (id, q, e1) = bind-ok (parse_id formats "approval option ID" s) _ p e in
      subst (IsResponsePayload formats)
        (let whole : approval_response (record { option_id = id }) ≡ p = ground arith in whole)
        (id-IsV7 formats "approval option ID" s id q)
  decode_interaction_response_payload-IsResponsePayload (InteractionResponsePayloadDto.choice ss) p
        e =
      let (ids, q, e1) = bind-ok (try_map (parse_id formats "choice option ID") ss) _ p e in
      let (s, sq, e2) = bind-ok (lift (new_choice_selection ids)) _ p e1 in
      let (same, listing) = new_choice_selection-IsListing ids s (ground arith) in
      let each =
        try_map-All (IsV7 formats) (parse_id formats "choice option ID")
          (id-IsV7 formats "choice option ID") ss ids q in
      let whole : choice_response (record { option_ids = ids }) ≡ p = ground arith in
      subst (IsResponsePayload formats) whole (each, listing)
  decode_interaction_response_payload-IsResponsePayload (InteractionResponsePayloadDto.text s) p e =
      let (t, q, e1) = bind-ok (decode_text s) _ p e in
      let whole : text_response t ≡ p = ground arith in
      subst (IsResponsePayload formats) whole (text-IsText s t q)
  decode_interaction_response_payload-IsResponsePayload (InteractionResponsePayloadDto.form ds) p
        e =
      let (as', q, e1) = bind-ok (try_map (decode_answer formats) ds) _ p e in
      let (r, rq, e2) = bind-ok (lift (new_form_response as')) _ p e1 in
      let (same, listing) = new_form_response-IsListing as' r (ground arith) in
      let each =
        try_map-All (IsAnswer formats) (decode_answer formats) decode_answer-IsAnswer ds as' q in
      let whole : form_response (record { answers = as' }) ≡ p = ground arith in
      subst (IsResponsePayload formats) whole (each, listing)

  pub decode_interaction_response-IsResponse :
      (d : InteractionResponseDto) (r : InteractionResponse)
      → decode_interaction_response formats d ≡ ok r
      → IsResponse formats r
  unfolding decode_interaction_response
  decode_interaction_response-IsResponse d r e = record {
    request_id = id-IsV7 formats "interaction ID" d.request_id r.request_id (ground arith);
    session_id = id-IsV7 formats "session ID" d.session_id r.session_id (ground arith);
    channel_id = id-IsV7 formats "channel ID" d.channel_id r.channel_id (ground arith);
    payload =
        decode_interaction_response_payload-IsResponsePayload d.payload r.payload (ground arith);
  }

  pub decode_interaction_closed-IsClosed :
      (d : InteractionClosedDto) (c : InteractionClosed)
      → decode_interaction_closed formats d ≡ ok c
      → IsClosed formats c
  unfolding decode_interaction_closed
  decode_interaction_closed-IsClosed d c e = (
    id-IsV7 formats "interaction ID" d.request_id c.request_id (ground arith),
    id-IsV7 formats "session ID" d.session_id c.session_id (ground arith),
  )
