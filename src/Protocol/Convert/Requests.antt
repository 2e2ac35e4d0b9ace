-- ===== src/Protocol/Convert/Requests.antt =====
-- agentpulse-protocol/src/v2/convert.rs: interaction requests.
use agentpulse_rs.Common.{
  List, [], ◌∷◌, Option, none, some, Result, ok, err, try_map, try_option, map_option, ◌>>=◌,
}
use agentpulse_rs.Domain.Error.{Text}
use agentpulse_rs.Domain.Identifiers.{Formats}
use agentpulse_rs.Domain.Interaction.{
  ApprovalNetworkContext, ApprovalFileChange, ApprovalSubject, command_subject, file_change,
  ApprovalOption, ApprovalRequest, actionable, unavailable, ChoiceOption, new_choice_request,
  FormField, new_form_field, new_form_request, InteractionRequestPayload, approval_request,
  choice_request, text_request, form_request, InteractionRequest, with_expiration,
}
use agentpulse_rs.Protocol.Dto.Interactions.{
  ApprovalNetworkContextDto, ApprovalFileChangeDto, ApprovalSubjectDto, ApprovalOptionDto,
  ChoiceOptionDto, FormFieldDto, InteractionRequestPayloadDto, InteractionRequestDto,
}
use agentpulse_rs.Protocol.Error.{ProtocolError, invalid_wire_value}
use agentpulse_rs.Protocol.Convert.Scalars.{
  lift, decode_text, encode_optional_text, decode_optional_text, parse_id, encode_timestamp,
  decode_timestamp,
}
use agentpulse_rs.Protocol.Convert.Names.{
  encode_approval_command_kind, decode_approval_command_kind, encode_approval_file_change_kind,
  decode_approval_file_change_kind, encode_approval_disposition, decode_approval_disposition,
}

abbrev pub encode_network : ApprovalNetworkContext → ApprovalNetworkContextDto
encode_network c = record { host = c.host.text; protocol = c.protocol.text }

unfoldable pub decode_network :
    ApprovalNetworkContextDto → Result ProtocolError ApprovalNetworkContext
decode_network dto = do
  host ← decode_text dto.host
  protocol ← decode_text dto.protocol
  ok (record { host = host; protocol = protocol })

unfoldable pub encode_file_change : ApprovalFileChange → Result ProtocolError ApprovalFileChangeDto
encode_file_change c = do
  kind ← encode_approval_file_change_kind c.kind
  ok (record { path = c.path.text; kind = kind; diff = c.diff })

unfoldable pub decode_file_change : ApprovalFileChangeDto → Result ProtocolError ApprovalFileChange
decode_file_change dto = do
  path ← decode_text dto.path
  ok (record { path = path; kind = decode_approval_file_change_kind dto.kind; diff = dto.diff })

unfoldable pub encode_approval_subject : ApprovalSubject → Result ProtocolError ApprovalSubjectDto
encode_approval_subject (command_subject kind command cwd reason network) = do
  k ← encode_approval_command_kind kind
  ok (
      ApprovalSubjectDto.command_subject k (encode_optional_text command) (encode_optional_text cwd)
        (encode_optional_text reason) (map_option encode_network network))
encode_approval_subject (file_change changes grant_root reason) = do
  cs ← try_map encode_file_change changes
  ok (
      ApprovalSubjectDto.file_change cs (encode_optional_text grant_root)
        (encode_optional_text reason))

unfoldable pub decode_approval_subject : ApprovalSubjectDto → Result ProtocolError ApprovalSubject
decode_approval_subject (ApprovalSubjectDto.command_subject kind command cwd reason network) = do
  c ← decode_optional_text command
  d ← decode_optional_text cwd
  r ← decode_optional_text reason
  n ← try_option decode_network network
  ok (command_subject (decode_approval_command_kind kind) c d r n)
decode_approval_subject (ApprovalSubjectDto.file_change changes grant_root reason) = do
  cs ← try_map decode_file_change changes
  g ← decode_optional_text grant_root
  r ← decode_optional_text reason
  ok (file_change cs g r)

-- The request that (options.is_empty(), unavailable_reason) selects.
unfoldable pub decode_approval :
    ApprovalSubject → List ApprovalOption → Option Text → Result ProtocolError ApprovalRequest
decode_approval subject [] (some reason) = do r ← decode_text reason; ok (unavailable subject r)
decode_approval subject [] none =
    err (invalid_wire_value "approval" "an approval without options requires unavailable_reason")
decode_approval subject (o ∷ os) none = lift (actionable subject (o ∷ os))
decode_approval subject (o ∷ os) (some reason) =
    err (invalid_wire_value "approval" "an actionable approval cannot carry unavailable_reason")

module _ (formats : Formats) where
  unfoldable pub encode_choice_option : ChoiceOption → Result ProtocolError ChoiceOptionDto
  encode_choice_option o = ok (record {
    id = formats.print_uuid o.id;
    label = o.label.text;
    description = encode_optional_text o.description;
  })

  unfoldable pub decode_choice_option : ChoiceOptionDto → Result ProtocolError ChoiceOption
  decode_choice_option dto = do
    id ← parse_id formats "choice option ID" dto.id
    label ← decode_text dto.label
    description ← decode_optional_text dto.description
    ok (record { id = id; label = label; description = description })

  unfoldable pub encode_approval_option : ApprovalOption → Result ProtocolError ApprovalOptionDto
  encode_approval_option o = do
    disposition ← encode_approval_disposition o.disposition
    ok (record {
      id = formats.print_uuid o.id;
      disposition = disposition;
      label = o.label.text;
      description = encode_optional_text o.description;
    })

  unfoldable pub decode_approval_option : ApprovalOptionDto → Result ProtocolError ApprovalOption
  decode_approval_option dto = do
    id ← parse_id formats "approval option ID" dto.id
    label ← decode_text dto.label
    description ← decode_optional_text dto.description
    ok (record {
      id = id;
      disposition = decode_approval_disposition dto.disposition;
      label = label;
      description = description;
    })

  unfoldable pub encode_form_field : FormField → Result ProtocolError FormFieldDto
  encode_form_field f = do
    options ← try_map encode_choice_option f.options
    ok (record {
      id = formats.print_uuid f.id;
      header = f.header.text;
      prompt = f.prompt.text;
      options = options;
      allows_other = f.allows_other;
      sensitive = f.sensitive;
    })

  unfoldable pub decode_form_field : FormFieldDto → Result ProtocolError FormField
  decode_form_field dto = do
    id ← parse_id formats "form field ID" dto.id
    header ← decode_text dto.header
    prompt ← decode_text dto.prompt
    options ← try_map decode_choice_option dto.options
    lift (new_form_field id header prompt options dto.allows_other dto.sensitive)

  unfoldable pub encode_interaction_request_payload :
      InteractionRequestPayload → Result ProtocolError InteractionRequestPayloadDto
  encode_interaction_request_payload (approval_request r) = do
    subject ← encode_approval_subject r.subject
    options ← try_map encode_approval_option r.options
    ok (
        InteractionRequestPayloadDto.approval subject options
          (encode_optional_text r.unavailable_reason))
  encode_interaction_request_payload (choice_request r) = do
    options ← try_map encode_choice_option r.options
    ok (InteractionRequestPayloadDto.choice options r.multiple)
  encode_interaction_request_payload (text_request r) =
      ok (InteractionRequestPayloadDto.text (encode_optional_text r.placeholder) r.multiline)
  encode_interaction_request_payload (form_request r) = do
    fields ← try_map encode_form_field r.fields
    ok (InteractionRequestPayloadDto.form fields r.blocking)

  unfoldable pub decode_interaction_request_payload :
      InteractionRequestPayloadDto → Result ProtocolError InteractionRequestPayload
  decode_interaction_request_payload
        (InteractionRequestPayloadDto.approval subject options reason) =
      do
        s ← decode_approval_subject subject
        os ← try_map decode_approval_option options
        r ← decode_approval s os reason
        ok (approval_request r)
  decode_interaction_request_payload (InteractionRequestPayloadDto.choice options multiple) = do
    os ← try_map decode_choice_option options
    r ← lift (new_choice_request os multiple)
    ok (choice_request r)
  decode_interaction_request_payload (InteractionRequestPayloadDto.text placeholder multiline) = do
    p ← decode_optional_text placeholder
    ok (text_request (record { placeholder = p; multiline = multiline }))
  decode_interaction_request_payload (InteractionRequestPayloadDto.form fields blocking) = do
    fs ← try_map decode_form_field fields
    r ← lift (new_form_request fs blocking)
    ok (form_request r)

  unfoldable pub encode_interaction_request :
      InteractionRequest → Result ProtocolError InteractionRequestDto
  encode_interaction_request r = do
    requested_at ← encode_timestamp formats r.requested_at "interaction requested_at"
    expires_at ← try_option (λ t. encode_timestamp formats t "interaction expires_at") r.expires_at
    payload ← encode_interaction_request_payload r.payload
    ok (record {
      id = formats.print_uuid r.id;
      session_id = formats.print_uuid r.session_id;
      requested_at = requested_at;
      expires_at = expires_at;
      prompt = r.prompt.text;
      payload = payload;
    })

  abbrev pub decode_expiration :
      InteractionRequest → Option Text → Result ProtocolError InteractionRequest
  decode_expiration r none = ok r
  decode_expiration r (some expires_at) = do
    t ← decode_timestamp formats expires_at "interaction expires_at"
    lift (with_expiration r t)

  unfoldable pub decode_interaction_request :
      InteractionRequestDto → Result ProtocolError InteractionRequest
  decode_interaction_request dto = do
    id ← parse_id formats "interaction ID" dto.id
    session_id ← parse_id formats "session ID" dto.session_id
    requested_at ← decode_timestamp formats dto.requested_at "interaction requested_at"
    prompt ← decode_text dto.prompt
    payload ← decode_interaction_request_payload dto.payload
    decode_expiration
        (record {
          id = id;
          session_id = session_id;
          requested_at = requested_at;
          expires_at = none;
          prompt = prompt;
          payload = payload;
        })
        dto.expires_at
