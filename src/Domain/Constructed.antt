-- ===== src/Domain/Constructed.antt =====
-- What the constructors of agentpulse-core ensure of its values, whose fields are private.
use agentpulse_rs.Common.{
  ℕ, ◌≡◌, ◌<◌, ◌≤◌, true, false, ◌&&◌, not, List, [], ◌∷◌, Option, none, some, map, All, IfSome,
}
use agentpulse_rs.Domain.Value.{
  NonEmptyText, ExternalId, Kind, WorkspaceRef, valid_first, valid_rest, is_empty,
}
use agentpulse_rs.Domain.Value.Laws.{IsVisible}
use agentpulse_rs.Domain.Unique.{IsUnique}
use agentpulse_rs.Domain.Identifiers.{Formats, IsV7}
use agentpulse_rs.Domain.Session.{AgentSession}
use agentpulse_rs.Domain.Plan.{PlanItem, PlanSnapshot}
use agentpulse_rs.Domain.Progress.{ProgressValue, indeterminate, determinate, ProgressSnapshot}
use agentpulse_rs.Domain.Endpoint.{ProviderDescriptor, ChannelDescriptor}
use agentpulse_rs.Domain.Command.{AgentCommandPayload, AgentCommand}
use agentpulse_rs.Domain.Interaction.{
  ApprovalNetworkContext, ApprovalFileChange, ApprovalSubject, command_subject, file_change,
  ApprovalOption, option_ids, ChoiceOption, choice_ids, FormField, field_ids, FormAnswerValue,
  FormAnswer, answer_ids, InteractionRequestPayload, approval_request, choice_request, text_request,
  form_request, InteractionRequest, InteractionResponsePayload, approval_response, choice_response,
  text_response, form_response, InteractionResponse, InteractionClosed,
}
use agentpulse_rs.Domain.Event.{
  AgentMessage, ToolActivity, SessionOutcome, AgentEventPayload, AgentEvent, embedded_session_id,
}

abbrev pub IsText : NonEmptyText → Type 0
IsText t = IsVisible t.text

abbrev pub IsKind : Kind → Type 0
IsKind k = (valid_first k.slug && valid_rest k.slug) ≡ true

abbrev pub IsWorkspace : WorkspaceRef → Type 0
IsWorkspace w = IsText w.path × IfSome IsText w.display_name

abbrev pub IsMessage : AgentMessage → Type 0
IsMessage m = IsText m.content

abbrev pub IsOutcome : SessionOutcome → Type 0
IsOutcome (SessionOutcome.completed summary) = IfSome IsText summary
IsOutcome (SessionOutcome.failed error) = IsText error
IsOutcome (SessionOutcome.cancelled reason) = IfSome IsText reason

abbrev pub IsProgressValue : ProgressValue → Type 0
IsProgressValue indeterminate = Unit {0}
IsProgressValue (determinate p) = (0 < p.total) × (p.completed ≤ p.total)

abbrev pub IsProgress : ProgressSnapshot → Type 0
IsProgress p = (0 < p.revision) × IsProgressValue p.value × IfSome IsText p.message

abbrev pub IsNetwork : ApprovalNetworkContext → Type 0
IsNetwork c = IsText c.host × IsText c.protocol

abbrev pub IsFileChange : ApprovalFileChange → Type 0
IsFileChange c = IsText c.path

abbrev pub IsSubject : ApprovalSubject → Type 0
IsSubject (command_subject kind command cwd reason network) =
    IfSome IsText command × IfSome IsText cwd × IfSome IsText reason × IfSome IsNetwork network
IsSubject (file_change changes grant_root reason) =
    All IsFileChange changes × IfSome IsText grant_root × IfSome IsText reason

abbrev pub IsCommandPayload : AgentCommandPayload → Type 0
IsCommandPayload (AgentCommandPayload.submit_prompt text delivery) = IsText text
IsCommandPayload (AgentCommandPayload.cancel_session reason) = IfSome IsText reason
IsCommandPayload (AgentCommandPayload.select_model model effort) =
    IsText model × IfSome IsText effort
IsCommandPayload (AgentCommandPayload.list_threads cursor) = IfSome IsText cursor
IsCommandPayload (AgentCommandPayload.resume_thread thread_id) = IsText thread_id
IsCommandPayload (AgentCommandPayload.start_thread cwd) = IsText cwd
IsCommandPayload (AgentCommandPayload.review instructions) = IfSome IsText instructions
IsCommandPayload (AgentCommandPayload.rename name) = IsText name
IsCommandPayload (AgentCommandPayload.select_permission_profile profile) = IsText profile
IsCommandPayload _ = Unit {0}

-- A list that is not empty, with identifiers that differ.
abbrev pub IsListing : List ℕ → Type 0
IsListing ids = (is_empty ids ≡ false) × IsUnique ids

-- Options and no reason, or a reason and no options.
abbrev pub IsDecidable : List ApprovalOption → Option NonEmptyText → Type 0
IsDecidable [] none = ⊥
IsDecidable [] (some reason) = IsText reason
IsDecidable (o ∷ os) none = IsUnique (option_ids (o ∷ os))
IsDecidable (o ∷ os) (some reason) = ⊥

module _ (formats : Formats) where
  pub record IsSession (s : AgentSession) : Type 0 where
    pub id : IsV7 formats s.id
    pub provider_id : IsV7 formats s.provider_id
    pub external_id : IfSome (λ (e : ExternalId). IsText e.value) s.external_id
    pub title : IfSome IsText s.title
    pub workspace : IfSome IsWorkspace s.workspace
    pub revision : 0 < s.revision
    pub ordered : s.created_at ≤ s.updated_at

  abbrev pub IsTool : ToolActivity → Type 0
  IsTool (ToolActivity.started call_id name summary) =
      IsV7 formats call_id × IsText name × IfSome IsText summary
  IsTool (ToolActivity.finished call_id outcome summary) =
      IsV7 formats call_id × IfSome IsText summary

  abbrev pub IsPlanItem : PlanItem → Type 0
  IsPlanItem i = IsV7 formats i.id × IsText i.content

  abbrev pub IsPlan : PlanSnapshot → Type 0
  IsPlan p =
      (0 < p.revision)
      × IfSome IsText p.explanation
      × All IsPlanItem p.items
      × IsUnique (map (λ i. i.id) p.items)

  abbrev pub IsChoiceOption : ChoiceOption → Type 0
  IsChoiceOption o = IsV7 formats o.id × IsText o.label × IfSome IsText o.description

  abbrev pub IsApprovalOption : ApprovalOption → Type 0
  IsApprovalOption o = IsV7 formats o.id × IsText o.label × IfSome IsText o.description

  abbrev pub IsFormField : FormField → Type 0
  IsFormField f =
      IsV7 formats f.id
      × IsText f.header
      × IsText f.prompt
      × All IsChoiceOption f.options
      × IsUnique (choice_ids f.options)
      × ((is_empty f.options && not f.allows_other) ≡ false)

  abbrev pub IsRequestPayload : InteractionRequestPayload → Type 0
  IsRequestPayload (approval_request r) =
      IsSubject r.subject
      × All IsApprovalOption r.options
      × IsDecidable r.options r.unavailable_reason
  IsRequestPayload (choice_request r) =
      All IsChoiceOption r.options × IsListing (choice_ids r.options)
  IsRequestPayload (text_request r) = IfSome IsText r.placeholder
  IsRequestPayload (form_request r) = All IsFormField r.fields × IsListing (field_ids r.fields)

  pub record IsRequest (r : InteractionRequest) : Type 0 where
    pub id : IsV7 formats r.id
    pub session_id : IsV7 formats r.session_id
    pub expires_at : IfSome (λ t. r.requested_at < t) r.expires_at
    pub prompt : IsText r.prompt
    pub payload : IsRequestPayload r.payload

  abbrev pub IsAnswerValue : FormAnswerValue → Type 0
  IsAnswerValue (FormAnswerValue.choice id) = IsV7 formats id
  IsAnswerValue (FormAnswerValue.text t) = IsText t

  abbrev pub IsAnswer : FormAnswer → Type 0
  IsAnswer a = IsV7 formats a.field_id × IsAnswerValue a.value

  abbrev pub IsResponsePayload : InteractionResponsePayload → Type 0
  IsResponsePayload (approval_response s) = IsV7 formats s.option_id
  IsResponsePayload (choice_response s) = All (IsV7 formats) s.option_ids × IsListing s.option_ids
  IsResponsePayload (text_response t) = IsText t
  IsResponsePayload (form_response r) = All IsAnswer r.answers × IsListing (answer_ids r.answers)

  pub record IsResponse (r : InteractionResponse) : Type 0 where
    pub request_id : IsV7 formats r.request_id
    pub session_id : IsV7 formats r.session_id
    pub channel_id : IsV7 formats r.channel_id
    pub payload : IsResponsePayload r.payload

  abbrev pub IsClosed : InteractionClosed → Type 0
  IsClosed c = IsV7 formats c.request_id × IsV7 formats c.session_id

  pub record IsCommand (c : AgentCommand) : Type 0 where
    pub id : IsV7 formats c.id
    pub session_id : IsV7 formats c.session_id
    pub channel_id : IsV7 formats c.channel_id
    pub payload : IsCommandPayload c.payload

  abbrev pub IsEventPayload : AgentEventPayload → Type 0
  IsEventPayload (AgentEventPayload.session_started s) = IsSession s
  IsEventPayload (AgentEventPayload.message m) = IsMessage m
  IsEventPayload (AgentEventPayload.tool_activity a) = IsTool a
  IsEventPayload (AgentEventPayload.plan_updated p) = IsPlan p
  IsEventPayload (AgentEventPayload.progress_updated p) = IsProgress p
  IsEventPayload (AgentEventPayload.interaction_requested r) = IsRequest r
  IsEventPayload (AgentEventPayload.interaction_responded r) = IsResponse r
  IsEventPayload (AgentEventPayload.interaction_closed c) = IsClosed c
  IsEventPayload (AgentEventPayload.command_issued c) = IsCommand c
  IsEventPayload (AgentEventPayload.session_ended o) = IsOutcome o
  IsEventPayload _ = Unit {0}

  pub record IsEvent (e : AgentEvent) : Type 0 where
    pub id : IsV7 formats e.id
    pub session_id : IsV7 formats e.session_id
    pub sequence : 0 < e.sequence
    pub embedded : IfSome (λ k. k ≡ e.session_id) (embedded_session_id e.payload)
    pub payload : IsEventPayload e.payload

  -- The bits of a set are declared ones.
  pub record IsProvider (d : ProviderDescriptor) : Type 0 where
    pub id : IsV7 formats d.id
    pub kind : IsKind d.kind
    pub display_name : IsText d.display_name
    pub version : IfSome IsText d.version
    pub capabilities : d.capabilities < 2048

  pub record IsChannel (d : ChannelDescriptor) : Type 0 where
    pub id : IsV7 formats d.id
    pub kind : IsKind d.kind
    pub display_name : IsText d.display_name
    pub version : IfSome IsText d.version
    pub capabilities : d.capabilities < 4096
