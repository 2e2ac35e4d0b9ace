-- ===== src/Domain/Event.antt =====
-- agentpulse-core/src/event.rs: normalized agent events.
pub mod Equality
use agentpulse_rs.Common.{Bool, Option, none, some, Result, ok, err, not, ◌==◌, if◌then◌else◌}
use agentpulse_rs.Domain.Error.{DomainError, correlation_mismatch}
use agentpulse_rs.Domain.Value.{NonEmptyText, Timestamp, EventSequence}
use agentpulse_rs.Domain.Session.{Uuid, AgentSession, AgentState, ConnectionState}
use agentpulse_rs.Domain.Plan.{PlanSnapshot}
use agentpulse_rs.Domain.Progress.{ProgressSnapshot}
use agentpulse_rs.Domain.Capability.{
  ProviderCapabilities, no_capability, session_state, tool_events, plan as plan_capability,
  progress as progress_capability, approval_request,
}
use agentpulse_rs.Domain.Command.{AgentCommand, required_provider_capability as command_capability}
use agentpulse_rs.Domain.Interaction.{InteractionRequest, InteractionResponse, InteractionClosed}
use agentpulse_rs.Domain.Interaction.Validate.{
  required_provider_request_capability, response_provider_capability,
}

pub data AgentMessageLevel : Type 0 where
  info warning error : AgentMessageLevel

pub data AgentMessageRole : Type 0 where
  user assistant system : AgentMessageRole

pub record AgentMessage : Type 0 where
  pub role : AgentMessageRole
  pub level : AgentMessageLevel
  pub content : NonEmptyText

pub data ToolOutcome : Type 0 where
  succeeded failed cancelled : ToolOutcome

pub data ToolActivity : Type 0 where
  started : (call_id : Uuid) (name : NonEmptyText) (summary : Option NonEmptyText) → ToolActivity
  finished : (call_id : Uuid) (outcome : ToolOutcome) (summary : Option NonEmptyText) → ToolActivity

pub data SessionOutcome : Type 0 where
  completed : (summary : Option NonEmptyText) → SessionOutcome
  failed : (error : NonEmptyText) → SessionOutcome
  cancelled : (reason : Option NonEmptyText) → SessionOutcome

pub data AgentEventPayload : Type 0 where
  session_started : AgentSession → AgentEventPayload
  state_changed : AgentState → AgentEventPayload
  connection_changed : ConnectionState → AgentEventPayload
  message : AgentMessage → AgentEventPayload
  tool_activity : ToolActivity → AgentEventPayload
  plan_updated : PlanSnapshot → AgentEventPayload
  progress_updated : ProgressSnapshot → AgentEventPayload
  interaction_requested : InteractionRequest → AgentEventPayload
  interaction_responded : InteractionResponse → AgentEventPayload
  interaction_closed : InteractionClosed → AgentEventPayload
  command_issued : AgentCommand → AgentEventPayload
  session_ended : SessionOutcome → AgentEventPayload

-- `AgentEventPayload::required_provider_capability`.
unfoldable pub event_capability : AgentEventPayload → ProviderCapabilities
event_capability (session_started _) = session_state
event_capability (state_changed _) = session_state
event_capability (connection_changed _) = session_state
event_capability (session_ended _) = session_state
event_capability (message _) = no_capability
event_capability (tool_activity _) = tool_events
event_capability (plan_updated _) = plan_capability
event_capability (progress_updated _) = progress_capability
event_capability (interaction_requested q) = required_provider_request_capability q.payload
event_capability (interaction_responded r) = response_provider_capability r.payload
event_capability (interaction_closed _) = approval_request
event_capability (command_issued c) = command_capability c.payload

pub record AgentEvent : Type 0 where
  pub id : Uuid
  pub session_id : Uuid
  pub sequence : EventSequence
  pub occurred_at : Timestamp
  pub payload : AgentEventPayload

unfoldable pub embedded_session_id : AgentEventPayload → Option Uuid
embedded_session_id (session_started s) = some s.id
embedded_session_id (interaction_requested q) = some q.session_id
embedded_session_id (interaction_responded r) = some r.session_id
embedded_session_id (interaction_closed c) = some c.session_id
embedded_session_id (command_issued c) = some c.session_id
embedded_session_id _ = none

abbrev pub check_embedded : Option Uuid → AgentEvent → Result DomainError AgentEvent
check_embedded none e = ok e
check_embedded (some id) e =
    if not (id == e.session_id)
    then err (correlation_mismatch "event session ID" e.session_id id)
    else ok e

-- `AgentEvent::new`, of the event with the given fields.
unfoldable pub new_event : AgentEvent → Result DomainError AgentEvent
unfolding embedded_session_id
new_event e = check_embedded (embedded_session_id e.payload) e

-- `map_or(default, AgentEvent::sequence)`.
abbrev pub sequence_or : EventSequence → Option AgentEvent → EventSequence
sequence_or default none = default
sequence_or default (some e) = e.sequence
