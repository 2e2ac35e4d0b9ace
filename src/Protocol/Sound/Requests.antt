-- ===== src/Protocol/Sound/Requests.antt =====
-- Decoded interaction requests are ones that the constructors allow.
use agentpulse_rs.Common.{
  ◌≡◌, ◌<◌, refl, sym, subst, Bool, List, [], ◌∷◌, Option, none, some, ok, arith, IfSome, try_map,
  try_map-All, try_option-IfSome, bind-ok,
}
use agentpulse_rs.Domain.Error.{Text}
use agentpulse_rs.Domain.Unique.{find_duplicate-IsUnique}
use agentpulse_rs.Domain.Identifiers.{Formats}
use agentpulse_rs.Domain.Interaction.{
  ApprovalNetworkContext, ApprovalFileChange, ApprovalSubject, command_subject, file_change,
  ApprovalOption, ApprovalRequest, option_ids, actionable, unavailable, ChoiceOption, choice_ids,
  ChoiceRequest, new_choice_request, FormField, new_form_field, FormRequest, field_ids,
  new_form_request, InteractionRequestPayload, approval_request, choice_request, text_request,
  form_request, InteractionRequest, with_expiration,
}
use agentpulse_rs.Domain.Constructed.{
  IsNetwork, IsFileChange, IsSubject, IsChoiceOption, IsApprovalOption, IsFormField, IsDecidable,
  IsRequestPayload, IsRequest, IsListing,
}
use agentpulse_rs.Protocol.Dto.Interactions.{
  ApprovalNetworkContextDto, ApprovalFileChangeDto, ApprovalSubjectDto, ApprovalOptionDto,
  ChoiceOptionDto, FormFieldDto, InteractionRequestPayloadDto, InteractionRequestDto,
}
use agentpulse_rs.Protocol.Convert.Scalars.{
  lift, decode_text, decode_optional_text, parse_id, decode_timestamp,
}
use agentpulse_rs.Protocol.Convert.Requests.{
  decode_network, decode_file_change, decode_approval_subject, decode_approval,
  decode_choice_option, decode_approval_option, decode_form_field,
  decode_interaction_request_payload, decode_interaction_request, decode_expiration,
}
use agentpulse_rs.Protocol.Sound.Scalars.{text-IsText, optional_text-IsText, id-IsV7}

decode_network-IsNetwork :
    (d : ApprovalNetworkContextDto) (c : ApprovalNetworkContext)
    → decode_network d ≡ ok c
    → IsNetwork c
unfolding decode_network
decode_network-IsNetwork d c e =
    (text-IsText d.host c.host (ground arith), text-IsText d.protocol c.protocol (ground arith))

decode_file_change-IsFileChange :
    (d : ApprovalFileChangeDto) (c : ApprovalFileChange)
    → decode_file_change d ≡ ok c
    → IsFileChange c
unfolding decode_file_change
decode_file_change-IsFileChange d c e = text-IsText d.path c.path (ground arith)

decode_approval_subject-IsSubject :
    (d : ApprovalSubjectDto) (s : ApprovalSubject) → decode_approval_subject d ≡ ok s → IsSubject s
unfolding decode_approval_subject
decode_approval_subject-IsSubject (ApprovalSubjectDto.command_subject k c w r n)
      (command_subject k' c' w' r' n') e =
    (
      optional_text-IsText c c' (ground arith),
      optional_text-IsText w w' (ground arith),
      optional_text-IsText r r' (ground arith),
      try_option-IfSome IsNetwork decode_network decode_network-IsNetwork n n' (ground arith),
    )
decode_approval_subject-IsSubject (ApprovalSubjectDto.file_change cs g r) (file_change cs' g' r')
      e =
    (
      try_map-All IsFileChange decode_file_change decode_file_change-IsFileChange cs cs'
          (ground arith),
      optional_text-IsText g g' (ground arith),
      optional_text-IsText r r' (ground arith),
    )
decode_approval_subject-IsSubject (ApprovalSubjectDto.command_subject k c w r n) s e =
    absurd (ground arith)
decode_approval_subject-IsSubject (ApprovalSubjectDto.file_change cs g r) s e =
    absurd (ground arith)

decode_approval-IsDecidable :
    (s : ApprovalSubject) (os : List ApprovalOption) (reason : Option Text) (r : ApprovalRequest)
    → decode_approval s os reason ≡ ok r
    → (r ≡ record { subject = s; options = os; unavailable_reason = r.unavailable_reason })
      × IsDecidable os r.unavailable_reason
unfolding decode_approval actionable unavailable
decode_approval-IsDecidable s [] none r e = absurd (ground arith)
decode_approval-IsDecidable s [] (some reason) r e =
    let (t, text, e1) = bind-ok (decode_text reason) _ r e in
    let whole : r ≡ record { subject = s; options = []; unavailable_reason = some t } =
      ground arith in
    (
      ground arith,
      subst (λ (x : ApprovalRequest). IsDecidable [] x.unavailable_reason) (sym whole)
          (text-IsText reason t text),
    )
decode_approval-IsDecidable s (o ∷ os) none r e =
    let whole : r ≡ record { subject = s; options = o ∷ os; unavailable_reason = none } =
      ground arith in
    let unique = (find_duplicate-IsUnique (option_ids (o ∷ os))).0 (ground arith) in
    (
      ground arith,
      subst (λ (x : ApprovalRequest). IsDecidable (o ∷ os) x.unavailable_reason) (sym whole) unique,
    )
decode_approval-IsDecidable s (o ∷ os) (some reason) r e = absurd (ground arith)

new_choice_request-IsListing :
    (os : List ChoiceOption) (multiple : Bool) (r : ChoiceRequest)
    → new_choice_request os multiple ≡ ok r
    → (r.options ≡ os) × IsListing (choice_ids os)
unfolding new_choice_request
new_choice_request-IsListing [] multiple r e = absurd (ground arith)
new_choice_request-IsListing (o ∷ os) multiple r e =
    (ground arith, (refl, (find_duplicate-IsUnique (choice_ids (o ∷ os))).0 (ground arith)))

new_form_request-IsListing :
    (fs : List FormField) (blocking : Bool) (r : FormRequest)
    → new_form_request fs blocking ≡ ok r
    → (r.fields ≡ fs) × IsListing (field_ids fs)
unfolding new_form_request
new_form_request-IsListing [] blocking r e = absurd (ground arith)
new_form_request-IsListing (f ∷ fs) blocking r e =
    (ground arith, (refl, (find_duplicate-IsUnique (field_ids (f ∷ fs))).0 (ground arith)))

module _ (formats : Formats) where
  decode_choice_option-IsChoiceOption :
      (d : ChoiceOptionDto) (o : ChoiceOption)
      → decode_choice_option formats d ≡ ok o
      → IsChoiceOption formats o
  unfolding decode_choice_option
  decode_choice_option-IsChoiceOption d o e = (
    id-IsV7 formats "choice option ID" d.id o.id (ground arith),
    text-IsText d.label o.label (ground arith),
    optional_text-IsText d.description o.description (ground arith),
  )

  decode_approval_option-IsApprovalOption :
      (d : ApprovalOptionDto) (o : ApprovalOption)
      → decode_approval_option formats d ≡ ok o
      → IsApprovalOption formats o
  unfolding decode_approval_option
  decode_approval_option-IsApprovalOption d o e = (
    id-IsV7 formats "approval option ID" d.id o.id (ground arith),
    text-IsText d.label o.label (ground arith),
    optional_text-IsText d.description o.description (ground arith),
  )

  decode_form_field-IsFormField :
      (d : FormFieldDto) (f : FormField)
      → decode_form_field formats d ≡ ok f
      → IsFormField formats f
  unfolding decode_form_field new_form_field
  decode_form_field-IsFormField d f e = (
    id-IsV7 formats "form field ID" d.id f.id (ground arith),
    text-IsText d.header f.header (ground arith),
    text-IsText d.prompt f.prompt (ground arith),
    try_map-All (IsChoiceOption formats) (decode_choice_option formats)
        decode_choice_option-IsChoiceOption d.options f.options (ground arith),
    (find_duplicate-IsUnique (choice_ids f.options)).0 (ground arith),
    ground arith,
  )

  decode_interaction_request_payload-IsRequestPayload :
      (d : InteractionRequestPayloadDto) (p : InteractionRequestPayload)
      → decode_interaction_request_payload formats d ≡ ok p
      → IsRequestPayload formats p
  unfolding decode_interaction_request_payload
  decode_interaction_request_payload-IsRequestPayload
        (InteractionRequestPayloadDto.approval subject options reason) p e =
      let (s, sq, e1) = bind-ok (decode_approval_subject subject) _ p e in
      let (os, oq, e2) = bind-ok (try_map (decode_approval_option formats) options) _ p e1 in
      let (r, rq, e3) = bind-ok (decode_approval s os reason) _ p e2 in
      let (shape, decidable) = decode_approval-IsDecidable s os reason r rq in
      let whole : p
          ≡ approval_request
              (record { subject = s; options = os; unavailable_reason = r.unavailable_reason }) =
        ground arith in
      subst (IsRequestPayload formats) (sym whole) (
        decode_approval_subject-IsSubject subject s sq,
        try_map-All (IsApprovalOption formats) (decode_approval_option formats)
            decode_approval_option-IsApprovalOption options os oq,
        decidable,
      )
  decode_interaction_request_payload-IsRequestPayload
        (InteractionRequestPayloadDto.choice options multiple) p e =
      let (os, oq, e1) = bind-ok (try_map (decode_choice_option formats) options) _ p e in
      let (r, rq, e2) = bind-ok (lift (new_choice_request os multiple)) _ p e1 in
      let (same, listing) = new_choice_request-IsListing os multiple r (ground arith) in
      let each =
        try_map-All (IsChoiceOption formats) (decode_choice_option formats)
          decode_choice_option-IsChoiceOption options os oq in
      let whole : p ≡ choice_request (record { options = os; multiple = r.multiple }) =
        ground arith in
      subst (IsRequestPayload formats) (sym whole) (each, listing)
  decode_interaction_request_payload-IsRequestPayload
        (InteractionRequestPayloadDto.text placeholder multiline) p e =
      let (t, tq, e1) = bind-ok (decode_optional_text placeholder) _ p e in
      let whole : p ≡ text_request (record { placeholder = t; multiline = multiline }) =
        ground arith in
      subst (IsRequestPayload formats) (sym whole) (optional_text-IsText placeholder t tq)
  decode_interaction_request_payload-IsRequestPayload
        (InteractionRequestPayloadDto.form fields blocking) p e =
      let (fs, fq, e1) = bind-ok (try_map (decode_form_field formats) fields) _ p e in
      let (r, rq, e2) = bind-ok (lift (new_form_request fs blocking)) _ p e1 in
      let (same, listing) = new_form_request-IsListing fs blocking r (ground arith) in
      let each =
        try_map-All (IsFormField formats) (decode_form_field formats) decode_form_field-IsFormField
          fields fs fq in
      let whole : p ≡ form_request (record { fields = fs; blocking = r.blocking }) = ground arith in
      subst (IsRequestPayload formats) (sym whole) (each, listing)

  expiration-after :
      (r : InteractionRequest) (q : Option Text) (z : InteractionRequest)
      → r.expires_at ≡ none
      → decode_expiration formats r q ≡ ok z
      → (z ≡ record r { expires_at = z.expires_at }) × IfSome (λ t. r.requested_at < t) z.expires_at
  unfolding with_expiration
  expiration-after r none z n e =
      let nothing : none ≡ z.expires_at = ground arith in
      (ground arith, subst (IfSome (λ t. r.requested_at < t)) nothing tt)
  expiration-after r (some s) z n e =
      let (t, tq, e1) = bind-ok (decode_timestamp formats s "interaction expires_at") _ z e in
      let at : some t ≡ z.expires_at = ground arith in
      let later : r.requested_at < t = ground arith in
      (ground arith, subst (IfSome (λ t. r.requested_at < t)) at later)

  pub decode_interaction_request-IsRequest :
      (d : InteractionRequestDto) (r : InteractionRequest)
      → decode_interaction_request formats d ≡ ok r
      → IsRequest formats r
  unfolding decode_interaction_request
  decode_interaction_request-IsRequest d r e =
      let (id, idq, e1) = bind-ok (parse_id formats "interaction ID" d.id) _ r e in
      let (session_id, sq, e2) = bind-ok (parse_id formats "session ID" d.session_id) _ r e1 in
      let (requested_at, tq, e3) =
        bind-ok (decode_timestamp formats d.requested_at "interaction requested_at") _ r e2 in
      let (prompt, pq, e4) = bind-ok (decode_text d.prompt) _ r e3 in
      let (payload, yq, e5) =
        bind-ok (decode_interaction_request_payload formats d.payload) _ r e4 in
      let start : InteractionRequest = record {
        id = id;
        session_id = session_id;
        requested_at = requested_at;
        expires_at = none;
        prompt = prompt;
        payload = payload;
      } in
      let (shape, later) = expiration-after start d.expires_at r refl e5 in
      subst (IsRequest formats) (sym shape) (record {
        id = id-IsV7 formats "interaction ID" d.id id idq;
        session_id = id-IsV7 formats "session ID" d.session_id session_id sq;
        expires_at = later;
        prompt = text-IsText d.prompt prompt pq;
        payload = decode_interaction_request_payload-IsRequestPayload d.payload payload yq;
      })
