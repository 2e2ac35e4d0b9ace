-- ===== src/Protocol/RoundTrip/Responses.antt =====
-- Responses, closed interactions and commands are read back as they were written.
use agentpulse_rs.Common.{ℕ, ◌≡◌, List, [], ◌∷◌, ok, arith, try_map-map}
use agentpulse_rs.Domain.Unique.{find_duplicate-IsUnique}
use agentpulse_rs.Domain.Identifiers.{Formats, ReadsBack, IsV7}
use agentpulse_rs.Domain.Interaction.{
  FormAnswerValue, FormAnswer, answer_ids, new_form_response, new_choice_selection,
  InteractionResponsePayload, approval_response, choice_response, text_response, form_response,
  InteractionResponse, InteractionClosed,
}
use agentpulse_rs.Domain.Command.{AgentCommandPayload, AgentCommand}
use agentpulse_rs.Domain.Constructed.{
  IsListing, IsAnswerValue, IsAnswer, IsResponsePayload, IsResponse, IsClosed, IsCommandPayload,
  IsCommand,
}
use agentpulse_rs.Protocol.Dto.Interactions.{
  InteractionResponsePayloadDto, InteractionResponseDto, InteractionClosedDto,
  AgentCommandPayloadDto, AgentCommandDto,
}
use agentpulse_rs.Protocol.Convert.Scalars.{parse_id}
use agentpulse_rs.Protocol.Convert.Responses.{
  encode_answer_value, decode_answer_value, encode_answer, decode_answer,
  encode_interaction_response_payload, decode_interaction_response_payload,
  encode_interaction_response, decode_interaction_response, encode_interaction_closed,
  decode_interaction_closed,
}
use agentpulse_rs.Protocol.Convert.Commands.{
  encode_command_payload, decode_command_payload, encode_command, decode_command,
}
use agentpulse_rs.Protocol.RoundTrip.Names.{
  close_reason_back, prompt_delivery_back, queue_action_back,
}
use agentpulse_rs.Protocol.RoundTrip.Scalars.{
  text_back, optional_text_back, id_back, timestamp_back,
}

new_choice_selection_back :
    (ids : List ℕ) → IsListing ids → new_choice_selection ids ≡ ok (record { option_ids = ids })
unfolding new_choice_selection
new_choice_selection_back [] v = cc
new_choice_selection_back (k ∷ ks) v = ground (arith, (find_duplicate-IsUnique (k ∷ ks)).1 v.1)

new_form_response_back :
    (answers : List FormAnswer)
    → IsListing (answer_ids answers)
    → new_form_response answers ≡ ok (record { answers = answers })
unfolding new_form_response
new_form_response_back [] v = cc
new_form_response_back (a ∷ as') v =
    ground (arith, (find_duplicate-IsUnique (answer_ids (a ∷ as'))).1 v.1)

pub command_payload_back :
    (p : AgentCommandPayload)
    → IsCommandPayload p
    → (d : AgentCommandPayloadDto) → encode_command_payload p ≡ ok d
    → decode_command_payload d ≡ ok p
unfolding encode_command_payload decode_command_payload
command_payload_back (AgentCommandPayload.submit_prompt t m) v d e =
    ground (arith, text_back t v, prompt_delivery_back m)
command_payload_back (AgentCommandPayload.cancel_session o) v d e =
    ground (arith, optional_text_back o v)
command_payload_back (AgentCommandPayload.select_model t o) v d e =
    ground (arith, text_back t v.0, optional_text_back o v.1)
command_payload_back (AgentCommandPayload.list_threads o) v d e =
    ground (arith, optional_text_back o v)
command_payload_back (AgentCommandPayload.resume_thread t) v d e = ground (arith, text_back t v)
command_payload_back (AgentCommandPayload.start_thread t) v d e = ground (arith, text_back t v)
command_payload_back (AgentCommandPayload.review o) v d e = ground (arith, optional_text_back o v)
command_payload_back (AgentCommandPayload.rename t) v d e = ground (arith, text_back t v)
command_payload_back (AgentCommandPayload.select_permission_profile t) v d e =
    ground (arith, text_back t v)
command_payload_back (AgentCommandPayload.queue q) v d e = ground (arith, queue_action_back q)
command_payload_back AgentCommandPayload.list_models v d e = ground arith
command_payload_back (AgentCommandPayload.set_plan_mode b) v d e = ground arith
command_payload_back AgentCommandPayload.compact v d e = ground arith
command_payload_back AgentCommandPayload.fork v d e = ground arith
command_payload_back AgentCommandPayload.status v d e = ground arith
command_payload_back AgentCommandPayload.list_permission_profiles v d e = ground arith

module _ (formats : Formats) (back : ReadsBack formats) where
  answer_value_back :
      (x : FormAnswerValue)
      → IsAnswerValue formats x
      → decode_answer_value formats (encode_answer_value formats x) ≡ ok x
  unfolding encode_answer_value decode_answer_value
  answer_value_back (FormAnswerValue.choice id) v =
      ground (arith, id_back formats back "choice option ID" id v)
  answer_value_back (FormAnswerValue.text t) v = ground (arith, text_back t v)

  answer_back :
      (a : FormAnswer) → IsAnswer formats a → decode_answer formats (encode_answer formats a) ≡ ok a
  unfolding encode_answer decode_answer
  answer_back a v =
      ground
        (arith, id_back formats back "form field ID" a.field_id v.0, answer_value_back a.value v.1)

  response_payload_back :
      (p : InteractionResponsePayload)
      → IsResponsePayload formats p
      → (d : InteractionResponsePayloadDto) → encode_interaction_response_payload formats p ≡ ok d
      → decode_interaction_response_payload formats d ≡ ok p
  unfolding encode_interaction_response_payload decode_interaction_response_payload
  response_payload_back (approval_response s) v d e =
      ground (arith, id_back formats back "approval option ID" s.option_id v)
  response_payload_back (choice_response s) v d e = ground (
    arith,
    try_map-map (IsV7 formats) formats.print_uuid (parse_id formats "choice option ID")
        (id_back formats back "choice option ID") s.option_ids v.0,
    new_choice_selection_back s.option_ids v.1,
  )
  response_payload_back (text_response t) v d e = ground (arith, text_back t v)
  response_payload_back (form_response r) v d e = ground (
    arith,
    try_map-map (IsAnswer formats) (encode_answer formats) (decode_answer formats) answer_back
        r.answers v.0,
    new_form_response_back r.answers v.1,
  )

  pub interaction_response_back :
      (r : InteractionResponse)
      → IsResponse formats r
      → (d : InteractionResponseDto) → encode_interaction_response formats r ≡ ok d
      → decode_interaction_response formats d ≡ ok r
  unfolding encode_interaction_response decode_interaction_response
  interaction_response_back r v d e = ground (
    arith,
    id_back formats back "interaction ID" r.request_id v.request_id,
    id_back formats back "session ID" r.session_id v.session_id,
    id_back formats back "channel ID" r.channel_id v.channel_id,
    timestamp_back formats back "interaction responded_at" r.responded_at d.responded_at,
    response_payload_back r.payload v.payload d.payload,
  )

  pub interaction_closed_back :
      (c : InteractionClosed)
      → IsClosed formats c
      → (d : InteractionClosedDto) → encode_interaction_closed formats c ≡ ok d
      → decode_interaction_closed formats d ≡ ok c
  unfolding encode_interaction_closed decode_interaction_closed
  interaction_closed_back c v d e = ground (
    arith,
    id_back formats back "interaction ID" c.request_id v.0,
    id_back formats back "session ID" c.session_id v.1,
    close_reason_back c.reason,
  )

  pub command_back :
      (c : AgentCommand)
      → IsCommand formats c
      → (d : AgentCommandDto) → encode_command formats c ≡ ok d
      → decode_command formats d ≡ ok c
  unfolding encode_command decode_command
  command_back c v d e = ground (
    arith,
    id_back formats back "command ID" c.id v.id,
    id_back formats back "session ID" c.session_id v.session_id,
    id_back formats back "channel ID" c.channel_id v.channel_id,
    timestamp_back formats back "command issued_at" c.issued_at d.issued_at,
    command_payload_back c.payload v.payload d.payload,
  )
