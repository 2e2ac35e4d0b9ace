-- ===== src/Domain/Command.antt =====
-- agentpulse-core/src/command.rs: commands from a Channel toward a Provider.
use agentpulse_rs.Common.{Bool, Option}
use agentpulse_rs.Domain.Value.{NonEmptyText, Timestamp}
use agentpulse_rs.Domain.Session.{Uuid}
use agentpulse_rs.Domain.Capability.{
  ProviderCapabilities, ChannelCapabilities, Flags, prompt_submit, cancel, control, remote_command,
  text_input,
}

pub data PromptDelivery : Type 0 where
  queue steer : PromptDelivery

pub data QueueAction : Type 0 where
  pause resume clear : QueueAction

pub data AgentCommandPayload : Type 0 where
  submit_prompt : (text : NonEmptyText) (delivery : PromptDelivery) → AgentCommandPayload
  cancel_session : (reason : Option NonEmptyText) → AgentCommandPayload
  list_models : AgentCommandPayload
  select_model : (model : NonEmptyText) (effort : Option NonEmptyText) → AgentCommandPayload
  set_plan_mode : (enabled : Bool) → AgentCommandPayload
  list_threads : (cursor : Option NonEmptyText) → AgentCommandPayload
  resume_thread : (thread_id : NonEmptyText) → AgentCommandPayload
  start_thread : (cwd : NonEmptyText) → AgentCommandPayload
  compact : AgentCommandPayload
  review : (instructions : Option NonEmptyText) → AgentCommandPayload
  rename : (name : NonEmptyText) → AgentCommandPayload
  fork : AgentCommandPayload
  status : AgentCommandPayload
  list_permission_profiles : AgentCommandPayload
  select_permission_profile : (profile : NonEmptyText) → AgentCommandPayload
  queue : (action : QueueAction) → AgentCommandPayload

unfoldable pub required_provider_capability : AgentCommandPayload → ProviderCapabilities
required_provider_capability (submit_prompt text delivery) = prompt_submit
required_provider_capability (cancel_session reason) = cancel
required_provider_capability _ = control

unfoldable pub required_channel_capabilities : Flags → AgentCommandPayload → ChannelCapabilities
required_channel_capabilities f (submit_prompt _ _) = f.union remote_command text_input
required_channel_capabilities f (select_model _ _) = f.union remote_command text_input
required_channel_capabilities f (list_threads _) = f.union remote_command text_input
required_channel_capabilities f (resume_thread _) = f.union remote_command text_input
required_channel_capabilities f (start_thread _) = f.union remote_command text_input
required_channel_capabilities f (review _) = f.union remote_command text_input
required_channel_capabilities f (rename _) = f.union remote_command text_input
required_channel_capabilities f (select_permission_profile _) = f.union remote_command text_input
required_channel_capabilities f _ = remote_command

pub record AgentCommand : Type 0 where
  pub id : Uuid
  pub session_id : Uuid
  pub channel_id : Uuid
  pub issued_at : Timestamp
  pub payload : AgentCommandPayload
