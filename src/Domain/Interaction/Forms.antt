-- ===== src/Domain/Interaction/Forms.antt =====
-- Forms of agentpulse-core/src/interaction.rs: what their constructors guarantee, and that an accepted
-- response stays within its form.
use mathlib.Core.Path.{subst₂}
use agentpulse_rs.Common.{
  ◌≡◌, sym, inl, inr, Bool, true, List, [], ◌∷◌, ok, arith, All, Option-cases, subst, length-map,
}
use agentpulse_rs.Domain.Session.{Uuid}
use agentpulse_rs.Domain.Unique.{
  member, IsUnique, members_exhaust, find_duplicate, find_duplicate-IsUnique,
}
use agentpulse_rs.Domain.Interaction.{
  FormField, FormRequest, FormAnswer, form_request, InteractionRequest, form_response,
  InteractionResponse, field_ids, answer_ids, new_form_response, new_form_request, FormResponse,
}
use agentpulse_rs.Domain.Interaction.Validate.{validate_response}
use agentpulse_rs.Domain.Interaction.Answers.{
  Among, Among-member, Answers, Answered, HasUniqueAnswers, validate_response-ok,
}

new_form_request-IsUnique :
    (fields : List FormField) (blocking : Bool) (form : FormRequest)
    → new_form_request fields blocking ≡ ok form
    → IsUnique (field_ids form.fields)
unfolding new_form_request
new_form_request-IsUnique [] blocking form h = cc
new_form_request-IsUnique (f ∷ fs) blocking form h =
    elim (Option-cases (find_duplicate [] (field_ids (f ∷ fs)))) [
      | inl fresh ↦
          let made : form.fields ≡ f ∷ fs = ground arith in
          subst (λ l. IsUnique (field_ids l)) (sym made)
            ((find_duplicate-IsUnique (field_ids (f ∷ fs))).0 fresh)
      | inr (k, twice) ↦ ground arith
    ]

new_form_response-IsUnique :
    (answers : List FormAnswer) (given : FormResponse)
    → new_form_response answers ≡ ok given
    → IsUnique (answer_ids given.answers)
unfolding new_form_response
new_form_response-IsUnique [] given h = cc
new_form_response-IsUnique (a ∷ rest) given h =
    elim (Option-cases (find_duplicate [] (answer_ids (a ∷ rest)))) [
      | inl fresh ↦
          let made : given.answers ≡ a ∷ rest = ground arith in
          subst (λ l. IsUnique (answer_ids l)) (sym made)
            ((find_duplicate-IsUnique (answer_ids (a ∷ rest))).0 fresh)
      | inr (k, twice) ↦ ground arith
    ]

Answered-member :
    (answers : List FormAnswer) (fields : List FormField) (k : Uuid)
    → All (Answered answers) fields
    → member k (field_ids fields) ≡ true
    → member k (answer_ids answers) ≡ true
Answered-member answers [] k h m = cc
Answered-member answers (f ∷ fs) k h m =
    let (a, among, here, fits) = h.0 in
    ground (arith, Among-member a answers among, here, Answered-member answers fs k h.1)

form_Answers_no_stray :
    (form : FormRequest) (given : FormResponse) (a : FormAnswer)
    → IsUnique (field_ids form.fields)
    → Answers (form_request form) (form_response given)
    → Among a given.answers
    → member a.field_id (field_ids form.fields) ≡ true
form_Answers_no_stray form given a u h m =
    members_exhaust (field_ids form.fields) (answer_ids given.answers) u
      (λ k. Answered-member given.answers form.fields k h.1)
      (omega (
        arith,
        h.0,
        length-map (λ (f : FormField). f.id) form.fields,
        length-map (λ (b : FormAnswer). b.field_id) given.answers,
      ))
      a.field_id (Among-member a given.answers m)

-- A form response that is accepted answers nothing but the form: between a request and a response
-- that their constructors let through, each answer is for one of the form's fields, though the
-- check itself only goes from fields to answers.
pub validate_response_no_stray :
    (q : InteractionRequest) (r : InteractionResponse) (fields : List FormField) (blocking : Bool)
    (answers : List FormAnswer) (form : FormRequest) (given : FormResponse) (a : FormAnswer)
    → new_form_request fields blocking ≡ ok form
    → new_form_response answers ≡ ok given
    → q.payload ≡ form_request form
    → r.payload ≡ form_response given
    → validate_response q r ≡ ok tt
    → Among a given.answers
    → member a.field_id (field_ids form.fields) ≡ true
validate_response_no_stray q r fields blocking answers form given a qn rn qp rp h m =
    let unique = new_form_response-IsUnique answers given rn in
    let accepted = (validate_response-ok q r (subst HasUniqueAnswers (sym rp) unique)).0 h in
    form_Answers_no_stray form given a (new_form_request-IsUnique fields blocking form qn)
      (subst₂ Answers qp rp accepted.4) m
