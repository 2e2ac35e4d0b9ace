-- ===== src/Domain/Interaction/Answers.antt =====
-- What counts as an answer to a request of agentpulse-core/src/interaction.rs, stated without the
-- checks, and that `validate_response` decides it.
use agentpulse_rs.Common.{
  ◌≤◌, ◌≡◌, refl, ap, ◌∙◌, sym, ◌↔◌, ◌⊎◌, inl, inr, true, false, List, [], ◌∷◌, Option, none, some,
  ok, arith, All, length, Option-cases,
}
use agentpulse_rs.Domain.Value.{Timestamp, is_empty}
use agentpulse_rs.Domain.Session.{Uuid}
use agentpulse_rs.Domain.Unique.{member, IsUnique}
use agentpulse_rs.Domain.Interaction.{
  ApprovalOption, ChoiceOption, FormField, FormAnswer, FormAnswerValue, choice, text,
  InteractionRequestPayload, approval_request, choice_request, text_request, form_request,
  InteractionRequest, InteractionResponsePayload, approval_response, choice_response, text_response,
  form_response, InteractionResponse, option_ids, choice_ids, answer_ids,
}
use agentpulse_rs.Domain.Interaction.Validate.{
  check_payload, check_selected, check_fields, check_value, find_answer, contains_choice,
  contains_approval, validate_response, has_expired,
}

-- The answer is one of those given.
abbrev pub Among : FormAnswer → List FormAnswer → Type 0
Among a [] = ⊥
Among a (b ∷ bs) = (a ≡ b) ⊎ Among a bs

abbrev pub Fits : FormField → FormAnswerValue → Type 0
Fits f (choice id) = member id (choice_ids f.options) ≡ true
Fits f (text t) = f.allows_other ≡ true

abbrev pub Answered : List FormAnswer → FormField → Type 0
Answered answers f = (a : FormAnswer) × Among a answers × (a.field_id ≡ f.id) × Fits f a.value

-- The response payload answers the request payload.
abbrev pub Answers : InteractionRequestPayload → InteractionResponsePayload → Type 0
Answers (approval_request r) (approval_response s) =
    member s.option_id (option_ids r.options) ≡ true
Answers (text_request r) (text_response t) = Unit {0}
Answers (choice_request r) (choice_response s) =
    ((r.multiple ≡ true) ⊎ (length s.option_ids ≡ 1))
    × All (λ k. member k (choice_ids r.options) ≡ true) s.option_ids
Answers (form_request r) (form_response s) =
    (length s.answers ≡ length r.fields) × All (Answered s.answers) r.fields
Answers _ _ = ⊥

-- What the constructor of a form response guarantees.
abbrev pub HasUniqueAnswers : InteractionResponsePayload → Type 0
HasUniqueAnswers (form_response s) = IsUnique (answer_ids s.answers)
HasUniqueAnswers _ = Unit {0}

contains_choice-member :
    (options : List ChoiceOption) (k : Uuid)
    → contains_choice options k ≡ member k (choice_ids options)
unfolding contains_choice
contains_choice-member [] k = refl
contains_choice-member (o ∷ os) k = ground (arith, contains_choice-member os k)

contains_approval-member :
    (options : List ApprovalOption) (k : Uuid)
    → contains_approval options k ≡ member k (option_ids options)
unfolding contains_approval
contains_approval-member [] k = refl
contains_approval-member (o ∷ os) k = ground (arith, contains_approval-member os k)

check_selected-ok :
    (options : List ChoiceOption) (ks : List Uuid)
    → (check_selected options ks ≡ ok tt) ↔ All (λ k. member k (choice_ids options) ≡ true) ks
unfolding check_selected
check_selected-ok options [] = (λ h. tt, λ h. refl)
check_selected-ok options (k ∷ ks) =
    let here = contains_choice-member options k in
    let rest = check_selected-ok options ks in
    (λ h. (ground (arith, here), rest.0 (ground arith)), λ h. ground (arith, here, rest.1 h.1))

check_value-ok : (f : FormField) (v : FormAnswerValue) → (check_value f v ≡ ok tt) ↔ Fits f v
unfolding check_value
check_value-ok f (choice id) = ground (arith, contains_choice-member f.options id)
check_value-ok f (text t) = ground arith

-- Among unique answers, the first one for a field is the one for it.
find_answer-Among :
    (k : Uuid) (answers : List FormAnswer) (a : FormAnswer)
    → find_answer k answers ≡ some a
    → Among a answers × (a.field_id ≡ k)
unfolding find_answer
find_answer-Among k [] a h = cc
find_answer-Among k (b ∷ bs) a h = ground (arith, find_answer-Among k bs a)

pub Among-member :
    (a : FormAnswer) (answers : List FormAnswer)
    → Among a answers
    → member a.field_id (answer_ids answers) ≡ true
Among-member a [] m = absurd m
Among-member a (b ∷ bs) (inl e) = ground (arith, ap (λ (c : FormAnswer). c.field_id) e)
Among-member a (b ∷ bs) (inr m) = ground (arith, Among-member a bs m)

Among-find_answer :
    (a : FormAnswer) (answers : List FormAnswer)
    → IsUnique (answer_ids answers)
    → Among a answers
    → find_answer a.field_id answers ≡ some a
unfolding find_answer
Among-find_answer a [] u m = absurd m
Among-find_answer a (b ∷ bs) u (inl e) = ground (arith, ap (λ (c : FormAnswer). c.field_id) e)
Among-find_answer a (b ∷ bs) u (inr m) =
    ground (arith, Among-member a bs m, Among-find_answer a bs u.1 m)

check_fields-ok :
    (answers : List FormAnswer) (fields : List FormField)
    → IsUnique (answer_ids answers)
    → (check_fields answers fields ≡ ok tt) ↔ All (Answered answers) fields
unfolding check_fields
check_fields-ok answers [] u = (λ h. tt, λ h. refl)
check_fields-ok answers (f ∷ fs) u =
    let rest = check_fields-ok answers fs u in
    (
      λ h. elim (Option-cases (find_answer f.id answers)) [
        | inl missing ↦ ground arith
        | inr (a, found) ↦
            let good : check_value f a.value ≡ ok tt = ground arith in
            let (among, here) = find_answer-Among f.id answers a found in
            ((a, among, here, (check_value-ok f a.value).0 good), rest.0 (ground arith))
      ],
      λ h.
          let (a, among, here, fits) = h.0 in
          let found : find_answer f.id answers ≡ some a =
            ap (λ k. find_answer k answers) (sym here) ∙ Among-find_answer a answers u among in
          ground (arith, found, (check_value-ok f a.value).1 fits, rest.1 h.1),
    )

member_offered :
    (options : List ApprovalOption) (k : Uuid)
    → member k (option_ids options) ≡ true
    → is_empty options ≡ false
member_offered [] k h = cc
member_offered (o ∷ os) k h = refl

-- The match on the payloads decides what counts as an answer.
check_payload-ok :
    (p : InteractionRequestPayload) (r : InteractionResponsePayload)
    → HasUniqueAnswers r
    → (check_payload p r ≡ ok tt) ↔ Answers p r
unfolding check_payload
check_payload-ok (approval_request q) (approval_response s) u =
    let here = contains_approval-member q.options s.option_id in
    (λ h. ground (arith, here), λ h. ground (arith, here, member_offered q.options s.option_id h))
check_payload-ok (choice_request q) (choice_response s) u =
    let each = check_selected-ok q.options s.option_ids in
    (λ h. (ground arith, each.0 (ground arith)), λ h. ground (arith, each.1 h.1))
check_payload-ok (form_request q) (form_response s) u =
    let each = check_fields-ok s.answers q.fields u in
    (λ h. (ground arith, each.0 (ground arith)), λ h. ground (arith, each.1 h.1))
check_payload-ok (text_request q) (text_response t) u = ground arith
check_payload-ok _ _ u = ground arith

abbrev pub IsInTime : Option Timestamp → Timestamp → Type 0
IsInTime none at = Unit {0}
IsInTime (some expires_at) at = at ≤ expires_at

has_expired-IsInTime :
    (expires_at : Option Timestamp) (at : Timestamp)
    → (has_expired expires_at at ≡ false) ↔ IsInTime expires_at at
has_expired-IsInTime none at = (λ h. tt, λ h. refl)
has_expired-IsInTime (some t) at = ground arith

-- `validate_response` accepts exactly the responses that name the request and its session, come no
-- earlier than the request and no later than its expiry, and answer it.
pub validate_response-ok :
    (q : InteractionRequest) (r : InteractionResponse)
    → HasUniqueAnswers r.payload
    → (validate_response q r ≡ ok tt) ↔ (
        (r.request_id ≡ q.id)
        × (r.session_id ≡ q.session_id)
        × (q.requested_at ≤ r.responded_at)
        × IsInTime q.expires_at r.responded_at
        × Answers q.payload r.payload)
unfolding validate_response
validate_response-ok q r u =
    let payload = check_payload-ok q.payload r.payload u in
    let time = has_expired-IsInTime q.expires_at r.responded_at in
    (
      λ h. (
        ground arith,
        ground arith,
        ground arith,
        time.0 (ground arith),
        payload.0 (ground arith),
      ),
      λ h. ground (arith, time.1 h.3, payload.1 h.4),
    )
