-- ===== src/Protocol/Convert/Responses.antt =====
-- agentpulse-protocol/src/v2/convert.rs: interaction responses, closed interactions and commands.
use agentpulse_rs.Common.{Result, ok, map, try_map, ◌>>=◌}
use agentpulse_rs.Domain.Identifiers.{Formats}
use agentpulse_rs.Domain.Interaction.{
  FormAnswerValue, FormAnswer, new_form_response, new_choice_selection, InteractionResponsePayload,
  approval_response, choice_response, text_response, form_response, InteractionResponse,
  InteractionClosed,
}
use agentpulse_rs.Protocol.Dto.Interactions.{
  FormAnswerValueDto, FormAnswerDto, InteractionResponsePayloadDto, InteractionResponseDto,
  InteractionClosedDto,
}
use agentpulse_rs.Protocol.Error.{ProtocolError}
use agentpulse_rs.Protocol.Convert.Scalars.{
  lift, decode_text, parse_id, encode_timestamp, decode_timestamp,
}
use agentpulse_rs.Protocol.Convert.Names.{encode_close_reason, decode_close_reason}

module _ (formats : Formats) where
  unfoldable pub encode_answer_value : FormAnswerValue → FormAnswerValueDto
  encode_answer_value (FormAnswerValue.choice option_id) =
      FormAnswerValueDto.choice (formats.print_uuid option_id)
  encode_answer_value (FormAnswerValue.text t) = FormAnswerValueDto.text t.text

  unfoldable pub decode_answer_value : FormAnswerValueDto → Result ProtocolError FormAnswerValue
  decode_answer_value (FormAnswerValueDto.choice option_id) = do
    id ← parse_id formats "choice option ID" option_id
    ok (FormAnswerValue.choice id)
  decode_answer_value (FormAnswerValueDto.text value) = do
    t ← decode_text value
    ok (FormAnswerValue.text t)

  unfoldable pub encode_answer : FormAnswer → FormAnswerDto
  encode_answer a = record {
    field_id = formats.print_uuid a.field_id;
    value = encode_answer_value a.value;
  }

  unfoldable pub decode_answer : FormAnswerDto → Result ProtocolError FormAnswer
  decode_answer dto = do
    value ← decode_answer_value dto.value
    field_id ← parse_id formats "form field ID" dto.field_id
    ok (record { field_id = field_id; value = value })

  unfoldable pub encode_interaction_response_payload :
      InteractionResponsePayload → Result ProtocolError InteractionResponsePayloadDto
  encode_interaction_response_payload (approval_response selection) =
      ok (InteractionResponsePayloadDto.approval (formats.print_uuid selection.option_id))
  encode_interaction_response_payload (choice_response selection) =
      ok (InteractionResponsePayloadDto.choice (map formats.print_uuid selection.option_ids))
  encode_interaction_response_payload (text_response t) =
      ok (InteractionResponsePayloadDto.text t.text)
  encode_interaction_response_payload (form_response response) =
      ok (InteractionResponsePayloadDto.form (map encode_answer response.answers))

  unfoldable pub decode_interaction_response_payload :
      InteractionResponsePayloadDto → Result ProtocolError InteractionResponsePayload
  decode_interaction_response_payload (InteractionResponsePayloadDto.approval option_id) = do
    id ← parse_id formats "approval option ID" option_id
    ok (approval_response (record { option_id = id }))
  decode_interaction_response_payload (InteractionResponsePayloadDto.choice option_ids) = do
    ids ← try_map (parse_id formats "choice option ID") option_ids
    selection ← lift (new_choice_selection ids)
    ok (choice_response selection)
  decode_interaction_response_payload (InteractionResponsePayloadDto.text value) = do
    t ← decode_text value
    ok (text_response t)
  decode_interaction_response_payload (InteractionResponsePayloadDto.form answers) = do
    as' ← try_map decode_answer answers
    response ← lift (new_form_response as')
    ok (form_response response)

  unfoldable pub encode_interaction_response :
      InteractionResponse → Result ProtocolError InteractionResponseDto
  encode_interaction_response r = do
    responded_at ← encode_timestamp formats r.responded_at "interaction responded_at"
    payload ← encode_interaction_response_payload r.payload
    ok (record {
      request_id = formats.print_uuid r.request_id;
      session_id = formats.print_uuid r.session_id;
      channel_id = formats.print_uuid r.channel_id;
      responded_at = responded_at;
      payload = payload;
    })

  unfoldable pub decode_interaction_response :
      InteractionResponseDto → Result ProtocolError InteractionResponse
  decode_interaction_response dto = do
    request_id ← parse_id formats "interaction ID" dto.request_id
    session_id ← parse_id formats "session ID" dto.session_id
    channel_id ← parse_id formats "channel ID" dto.channel_id
    responded_at ← decode_timestamp formats dto.responded_at "interaction responded_at"
    payload ← decode_interaction_response_payload dto.payload
    ok (record {
      request_id = request_id;
      session_id = session_id;
      channel_id = channel_id;
      responded_at = responded_at;
      payload = payload;
    })

  unfoldable pub encode_interaction_closed :
      InteractionClosed → Result ProtocolError InteractionClosedDto
  encode_interaction_closed c = ok (record {
    request_id = formats.print_uuid c.request_id;
    session_id = formats.print_uuid c.session_id;
    reason = encode_close_reason c.reason;
  })

  unfoldable pub decode_interaction_closed :
      InteractionClosedDto → Result ProtocolError InteractionClosed
  decode_interaction_closed dto = do
    request_id ← parse_id formats "interaction ID" dto.request_id
    session_id ← parse_id formats "session ID" dto.session_id
    ok (record {
      request_id = request_id;
      session_id = session_id;
      reason = decode_close_reason dto.reason;
    })
