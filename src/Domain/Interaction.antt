-- ===== src/Domain/Interaction.antt =====
-- agentpulse-core/src/interaction.rs: correlated interaction requests and responses, and their
-- validating constructors.
pub mod Validate
pub mod Answers
pub mod Forms
use agentpulse_rs.Common.{
  ℕ, Bool, true, false, not, List, [], ◌∷◌, map, Option, none, some, Result, ok, err, leb,
  if◌then◌else◌, ◌&&◌,
}
use agentpulse_rs.Domain.Error.{
  DomainError, empty_collection, duplicate_id, invalid_choice_selection, invalid_time_order, Text,
}
use agentpulse_rs.Domain.Value.{NonEmptyText, Timestamp, is_empty}
use agentpulse_rs.Domain.Session.{Uuid}
use agentpulse_rs.Domain.Unique.{find_duplicate}

pub data ApprovalDisposition : Type 0 where
  approve reject cancel : ApprovalDisposition

pub data ApprovalCommandKind : Type 0 where
  command write_stdin : ApprovalCommandKind

pub record ApprovalNetworkContext : Type 0 where
  pub host : NonEmptyText
  pub protocol : NonEmptyText

pub data ApprovalFileChangeKind : Type 0 where
  add delete update : ApprovalFileChangeKind

pub record ApprovalFileChange : Type 0 where
  pub path : NonEmptyText
  pub kind : ApprovalFileChangeKind
  pub diff : Text

pub data ApprovalSubject : Type 0 where
  command_subject :
      (kind : ApprovalCommandKind) (command cwd reason : Option NonEmptyText)
      (network : Option ApprovalNetworkContext)
      → ApprovalSubject
  file_change :
      (changes : List ApprovalFileChange) (grant_root reason : Option NonEmptyText)
      → ApprovalSubject

pub record ApprovalOption : Type 0 where
  pub id : Uuid
  pub disposition : ApprovalDisposition
  pub label : NonEmptyText
  pub description : Option NonEmptyText

pub record ApprovalRequest : Type 0 where
  pub subject : ApprovalSubject
  pub options : List ApprovalOption
  pub unavailable_reason : Option NonEmptyText

abbrev pub option_ids : List ApprovalOption → List Uuid
option_ids options = map (λ o. o.id) options

unfoldable pub actionable :
    ApprovalSubject → List ApprovalOption → Result DomainError ApprovalRequest
unfolding find_duplicate
actionable subject [] = err (empty_collection "approval options")
actionable subject (o ∷ os) = elim (find_duplicate [] (option_ids (o ∷ os))) [
  | some id ↦ err (duplicate_id "approval options" id)
  | none ↦ ok (record { subject = subject; options = o ∷ os; unavailable_reason = none })
]

unfoldable pub unavailable : ApprovalSubject → NonEmptyText → ApprovalRequest
unavailable subject reason = record {
  subject = subject;
  options = [];
  unavailable_reason = some reason;
}

pub record ChoiceOption : Type 0 where
  pub id : Uuid
  pub label : NonEmptyText
  pub description : Option NonEmptyText

abbrev pub choice_ids : List ChoiceOption → List Uuid
choice_ids options = map (λ o. o.id) options

pub record ChoiceRequest : Type 0 where
  pub options : List ChoiceOption
  pub multiple : Bool

unfoldable pub new_choice_request : List ChoiceOption → Bool → Result DomainError ChoiceRequest
unfolding find_duplicate
new_choice_request [] multiple = err (empty_collection "choice options")
new_choice_request (o ∷ os) multiple = elim (find_duplicate [] (choice_ids (o ∷ os))) [
  | some id ↦ err (duplicate_id "choice options" id)
  | none ↦ ok (record { options = o ∷ os; multiple = multiple })
]

pub record TextInputRequest : Type 0 where
  pub placeholder : Option NonEmptyText
  pub multiline : Bool

pub record FormField : Type 0 where
  pub id : Uuid
  pub header : NonEmptyText
  pub prompt : NonEmptyText
  pub options : List ChoiceOption
  pub allows_other : Bool
  pub sensitive : Bool

unfoldable pub new_form_field :
    Uuid
    → NonEmptyText
    → NonEmptyText
    → List ChoiceOption
    → Bool
    → Bool
    → Result DomainError FormField
unfolding find_duplicate
new_form_field id header prompt options allows_other sensitive =
    elim (find_duplicate [] (choice_ids options)) [
      | some k ↦ err (duplicate_id "form field options" k)
      | none ↦
          if is_empty options && not allows_other
          then err (invalid_choice_selection "a text form field must allow a custom answer")
          else ok (record {
            id = id;
            header = header;
            prompt = prompt;
            options = options;
            allows_other = allows_other;
            sensitive = sensitive;
          })
    ]

pub record FormRequest : Type 0 where
  pub fields : List FormField
  pub blocking : Bool

abbrev pub field_ids : List FormField → List Uuid
field_ids fields = map (λ f. f.id) fields

unfoldable pub new_form_request : List FormField → Bool → Result DomainError FormRequest
unfolding find_duplicate
new_form_request [] blocking = err (empty_collection "form fields")
new_form_request (f ∷ fs) blocking = elim (find_duplicate [] (field_ids (f ∷ fs))) [
  | some id ↦ err (duplicate_id "form fields" id)
  | none ↦ ok (record { fields = f ∷ fs; blocking = blocking })
]

pub data FormAnswerValue : Type 0 where
  choice : Uuid → FormAnswerValue
  text : NonEmptyText → FormAnswerValue

pub record FormAnswer : Type 0 where
  pub field_id : Uuid
  pub value : FormAnswerValue

pub record FormResponse : Type 0 where
  pub answers : List FormAnswer

abbrev pub answer_ids : List FormAnswer → List Uuid
answer_ids answers = map (λ a. a.field_id) answers

unfoldable pub new_form_response : List FormAnswer → Result DomainError FormResponse
unfolding find_duplicate
new_form_response [] = err (empty_collection "form answers")
new_form_response (a ∷ as') = elim (find_duplicate [] (answer_ids (a ∷ as'))) [
  | some id ↦ err (duplicate_id "form answers" id)
  | none ↦ ok (record { answers = a ∷ as' })
]

pub data InteractionRequestPayload : Type 0 where
  approval_request : ApprovalRequest → InteractionRequestPayload
  choice_request : ChoiceRequest → InteractionRequestPayload
  text_request : TextInputRequest → InteractionRequestPayload
  form_request : FormRequest → InteractionRequestPayload

pub record InteractionRequest : Type 0 where
  pub id : Uuid
  pub session_id : Uuid
  pub requested_at : Timestamp
  pub expires_at : Option Timestamp
  pub prompt : NonEmptyText
  pub payload : InteractionRequestPayload

unfoldable pub with_expiration :
    InteractionRequest → Timestamp → Result DomainError InteractionRequest
with_expiration r expires_at =
    if leb expires_at r.requested_at
    then err (invalid_time_order "interaction requested_at" "interaction expires_at")
    else ok (record r { expires_at = some expires_at })

pub data InteractionCloseReason : Type 0 where
  resolved_elsewhere provider_cancelled : InteractionCloseReason

pub record InteractionClosed : Type 0 where
  pub request_id : Uuid
  pub session_id : Uuid
  pub reason : InteractionCloseReason

pub record ApprovalSelection : Type 0 where
  pub option_id : Uuid

pub record ChoiceSelection : Type 0 where
  pub option_ids : List Uuid

unfoldable pub new_choice_selection : List Uuid → Result DomainError ChoiceSelection
unfolding find_duplicate
new_choice_selection [] = err (empty_collection "selected choice options")
new_choice_selection (k ∷ ks) = elim (find_duplicate [] (k ∷ ks)) [
  | some id ↦ err (duplicate_id "selected choice options" id)
  | none ↦ ok (record { option_ids = k ∷ ks })
]

pub data InteractionResponsePayload : Type 0 where
  approval_response : ApprovalSelection → InteractionResponsePayload
  choice_response : ChoiceSelection → InteractionResponsePayload
  text_response : NonEmptyText → InteractionResponsePayload
  form_response : FormResponse → InteractionResponsePayload

pub record InteractionResponse : Type 0 where
  pub request_id : Uuid
  pub session_id : Uuid
  pub channel_id : Uuid
  pub responded_at : Timestamp
  pub payload : InteractionResponsePayload
