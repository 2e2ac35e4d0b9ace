-- ===== src/Protocol/RoundTrip/Requests.antt =====
-- Interaction requests are read back as they were written.
use agentpulse_rs.Common.{
  ℕ, ◌≡◌, ◌<◌, refl, Bool, List, [], ◌∷◌, Option, none, some, ok, arith, IfSome, All, try_map,
  try_map-try_map, try_option, try_option-map_option,
}
use agentpulse_rs.Domain.Error.{Text}
use agentpulse_rs.Domain.Value.{NonEmptyText}
use agentpulse_rs.Domain.Unique.{find_duplicate-IsUnique}
use agentpulse_rs.Domain.Identifiers.{Formats, ReadsBack}
use agentpulse_rs.Domain.Interaction.{
  ApprovalNetworkContext, ApprovalFileChange, ApprovalSubject, command_subject, file_change,
  ApprovalOption, option_ids, actionable, unavailable, ChoiceOption, choice_ids, ChoiceRequest,
  new_choice_request, FormField, new_form_field, FormRequest, field_ids, new_form_request,
  InteractionRequestPayload, approval_request, choice_request, text_request, form_request,
  InteractionRequest, with_expiration,
}
use agentpulse_rs.Domain.Constructed.{
  IsNetwork, IsFileChange, IsSubject, IsChoiceOption, IsApprovalOption, IsFormField, IsDecidable,
  IsRequestPayload, IsRequest, IsListing,
}
use agentpulse_rs.Protocol.Dto.Interactions.{
  ApprovalFileChangeDto, ApprovalSubjectDto, ApprovalOptionDto, ChoiceOptionDto, FormFieldDto,
  InteractionRequestPayloadDto, InteractionRequestDto,
}
use agentpulse_rs.Protocol.Convert.Scalars.{encode_optional_text, encode_timestamp}
use agentpulse_rs.Protocol.Convert.Requests.{
  encode_network, decode_network, encode_file_change, decode_file_change, encode_approval_subject,
  decode_approval_subject, decode_approval, encode_choice_option, decode_choice_option,
  encode_approval_option, decode_approval_option, encode_form_field, decode_form_field,
  encode_interaction_request_payload, decode_interaction_request_payload,
  encode_interaction_request, decode_interaction_request, decode_expiration,
}
use agentpulse_rs.Protocol.RoundTrip.Names.{
  approval_command_kind_back, approval_file_change_kind_back, approval_disposition_back,
}
use agentpulse_rs.Protocol.RoundTrip.Scalars.{
  text_back, optional_text_back, id_back, timestamp_back,
}

network_back : (c : ApprovalNetworkContext) → IsNetwork c → decode_network (encode_network c) ≡ ok c
unfolding decode_network
network_back c v = ground (arith, text_back c.host v.0, text_back c.protocol v.1)

file_change_back :
    (c : ApprovalFileChange)
    → IsFileChange c
    → (d : ApprovalFileChangeDto) → encode_file_change c ≡ ok d
    → decode_file_change d ≡ ok c
unfolding encode_file_change decode_file_change
file_change_back c v d e =
    ground (arith, text_back c.path v, approval_file_change_kind_back c.kind d.kind)

approval_subject_back :
    (s : ApprovalSubject)
    → IsSubject s
    → (d : ApprovalSubjectDto) → encode_approval_subject s ≡ ok d
    → decode_approval_subject d ≡ ok s
unfolding encode_approval_subject decode_approval_subject
approval_subject_back (command_subject k c w r n) v (ApprovalSubjectDto.command_subject k' _ _ _ _)
      e =
    ground (
      arith,
      approval_command_kind_back k k',
      optional_text_back c v.0,
      optional_text_back w v.1,
      optional_text_back r v.2,
      try_option-map_option IsNetwork encode_network decode_network network_back n v.3,
    )
approval_subject_back (command_subject k c w r n) v (ApprovalSubjectDto.file_change _ _ _) e =
    ground arith
approval_subject_back (file_change cs g r) v (ApprovalSubjectDto.file_change cs' _ _) e = ground (
  arith,
  try_map-try_map IsFileChange encode_file_change decode_file_change file_change_back cs v.0 cs',
  optional_text_back g v.1,
  optional_text_back r v.2,
)
approval_subject_back (file_change cs g r) v (ApprovalSubjectDto.command_subject _ _ _ _ _) e =
    ground arith

-- An actionable or an unavailable request is told apart from its options and its reason.
decode_approval_back :
    (s : ApprovalSubject) (os : List ApprovalOption) (reason : Option NonEmptyText)
    → IsDecidable os reason
    → decode_approval s os (encode_optional_text reason)
      ≡ ok (record { subject = s; options = os; unavailable_reason = reason })
unfolding decode_approval actionable unavailable
decode_approval_back s [] none v = absurd v
decode_approval_back s [] (some r) v = ground (arith, text_back r v)
decode_approval_back s (o ∷ os) none v =
    ground (arith, (find_duplicate-IsUnique (option_ids (o ∷ os))).1 v)
decode_approval_back s (o ∷ os) (some r) v = absurd v

new_choice_request_back :
    (r : ChoiceRequest)
    → IsListing (choice_ids r.options)
    → new_choice_request r.options r.multiple ≡ ok r
unfolding new_choice_request
new_choice_request_back r v = by_options r.options r.multiple v
  where
    by_options :
        (os : List ChoiceOption) (multiple : Bool)
        → IsListing (choice_ids os)
        → new_choice_request os multiple ≡ ok (record { options = os; multiple = multiple })
    by_options [] multiple v = cc
    by_options (o ∷ os) multiple v =
        ground (arith, (find_duplicate-IsUnique (choice_ids (o ∷ os))).1 v.1)

new_form_request_back :
    (r : FormRequest) → IsListing (field_ids r.fields) → new_form_request r.fields r.blocking ≡ ok r
unfolding new_form_request
new_form_request_back r v = by_fields r.fields r.blocking v
  where
    by_fields :
        (fs : List FormField) (blocking : Bool)
        → IsListing (field_ids fs)
        → new_form_request fs blocking ≡ ok (record { fields = fs; blocking = blocking })
    by_fields [] blocking v = cc
    by_fields (f ∷ fs) blocking v =
        ground (arith, (find_duplicate-IsUnique (field_ids (f ∷ fs))).1 v.1)

module _ (formats : Formats) (back : ReadsBack formats) where
  choice_option_back :
      (o : ChoiceOption)
      → IsChoiceOption formats o
      → (d : ChoiceOptionDto) → encode_choice_option formats o ≡ ok d
      → decode_choice_option formats d ≡ ok o
  unfolding encode_choice_option decode_choice_option
  choice_option_back o v d e = ground (
    arith,
    id_back formats back "choice option ID" o.id v.0,
    text_back o.label v.1,
    optional_text_back o.description v.2,
  )

  choice_options_back :
      (os : List ChoiceOption)
      → All (IsChoiceOption formats) os
      → (ds : List ChoiceOptionDto) → try_map (encode_choice_option formats) os ≡ ok ds
      → try_map (decode_choice_option formats) ds ≡ ok os
  choice_options_back =
      try_map-try_map (IsChoiceOption formats) (encode_choice_option formats)
        (decode_choice_option formats) choice_option_back

  approval_option_back :
      (o : ApprovalOption)
      → IsApprovalOption formats o
      → (d : ApprovalOptionDto) → encode_approval_option formats o ≡ ok d
      → decode_approval_option formats d ≡ ok o
  unfolding encode_approval_option decode_approval_option
  approval_option_back o v d e = ground (
    arith,
    id_back formats back "approval option ID" o.id v.0,
    text_back o.label v.1,
    optional_text_back o.description v.2,
    approval_disposition_back o.disposition d.disposition,
  )

  form_field_back :
      (f : FormField)
      → IsFormField formats f
      → (d : FormFieldDto) → encode_form_field formats f ≡ ok d
      → decode_form_field formats d ≡ ok f
  unfolding encode_form_field decode_form_field new_form_field
  form_field_back f v d e = ground (
    arith,
    id_back formats back "form field ID" f.id v.0,
    text_back f.header v.1,
    text_back f.prompt v.2,
    choice_options_back f.options v.3 d.options,
    (find_duplicate-IsUnique (choice_ids f.options)).1 v.4,
  )

  request_payload_back :
      (p : InteractionRequestPayload)
      → IsRequestPayload formats p
      → (d : InteractionRequestPayloadDto) → encode_interaction_request_payload formats p ≡ ok d
      → decode_interaction_request_payload formats d ≡ ok p
  unfolding encode_interaction_request_payload decode_interaction_request_payload
  request_payload_back (approval_request r) v (InteractionRequestPayloadDto.approval s os reason)
        e =
      ground (
        arith,
        approval_subject_back r.subject v.0 s,
        try_map-try_map (IsApprovalOption formats) (encode_approval_option formats)
            (decode_approval_option formats) approval_option_back r.options v.1 os,
        decode_approval_back r.subject r.options r.unavailable_reason v.2,
      )
  request_payload_back (choice_request r) v (InteractionRequestPayloadDto.choice os m) e =
      ground (arith, choice_options_back r.options v.0 os, new_choice_request_back r v.1)
  request_payload_back (text_request r) v (InteractionRequestPayloadDto.text p m) e =
      ground (arith, optional_text_back r.placeholder v)
  request_payload_back (form_request r) v (InteractionRequestPayloadDto.form fs b) e = ground (
    arith,
    try_map-try_map (IsFormField formats) (encode_form_field formats) (decode_form_field formats)
        form_field_back r.fields v.0 fs,
    new_form_request_back r v.1,
  )
  request_payload_back (approval_request r) v d e = ground arith
  request_payload_back (choice_request r) v d e = ground arith
  request_payload_back (text_request r) v d e = ground arith
  request_payload_back (form_request r) v d e = ground arith

  expiration_back :
      (r : InteractionRequest) (o : Option ℕ)
      → IfSome (λ t. r.requested_at < t) o
      → r.expires_at ≡ none
      → (q : Option Text)
      → try_option (λ t. encode_timestamp formats t "interaction expires_at") o ≡ ok q
      → decode_expiration formats r q ≡ ok (record r { expires_at = o })
  unfolding with_expiration
  expiration_back r none v n none e = ground arith
  expiration_back r none v n (some s) e = ground arith
  expiration_back r (some t) v n none e = ground arith
  expiration_back r (some t) v n (some s) e =
      ground (arith, timestamp_back formats back "interaction expires_at" t s)

  pub interaction_request_back :
      (r : InteractionRequest)
      → IsRequest formats r
      → (d : InteractionRequestDto) → encode_interaction_request formats r ≡ ok d
      → decode_interaction_request formats d ≡ ok r
  unfolding encode_interaction_request decode_interaction_request
  interaction_request_back r v d e = ground (
    arith,
    id_back formats back "interaction ID" r.id v.id,
    id_back formats back "session ID" r.session_id v.session_id,
    timestamp_back formats back "interaction requested_at" r.requested_at d.requested_at,
    text_back r.prompt v.prompt,
    request_payload_back r.payload v.payload d.payload,
    expiration_back (record r { expires_at = none }) r.expires_at v.expires_at refl d.expires_at,
  )
