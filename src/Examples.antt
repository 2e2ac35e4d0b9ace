-- ===== src/Examples.antt =====
-- Concrete values, and the theorems at them: a session of the Provider 1 with an approval that is
-- open, a Channel 5 that may answer it and a Channel 7 that may only watch.
pub mod Core
pub mod Interactions
pub mod Bridges
pub mod Calls
pub mod Hosts
pub mod Messages
pub mod Wires
pub mod Native
use agentpulse_rs.Common.{
  ℕ, ◌≡◌, refl, true, false, List, [], ◌∷◌, none, some, ok, bit_and, bit_or, ◌==◌,
}
use agentpulse_rs.Domain.Value.{NonEmptyText, Kind}
use agentpulse_rs.Domain.Session.{AgentSession, AgentState, ConnectionState}
use agentpulse_rs.Domain.Capability.{Flags}
use agentpulse_rs.Domain.Endpoint.{ProviderDescriptor, ChannelDescriptor}
use agentpulse_rs.Domain.Interaction.{
  ApprovalSubject, ApprovalCommandKind, ApprovalOption, ApprovalDisposition, ApprovalRequest,
  InteractionRequestPayload, InteractionRequest, ApprovalSelection, InteractionResponsePayload,
  InteractionResponse,
}
use agentpulse_rs.Domain.Event.{AgentEvent, AgentEventPayload}
use agentpulse_rs.Aggregate.State.{SessionAggregate, SessionAggregateConfig, retain_all, fresh}
use agentpulse_rs.Aggregate.Apply.{apply}
use agentpulse_rs.Bridge.State.{Ports}

-- The bitflags crate's `contains` and `union`, on the bits.
abbrev pub bits : Flags
bits = record { contains = λ a b. bit_and a b == b; union = bit_or }

-- Adapters that accept every call.
abbrev pub willing : Ports
willing = record { channel_answer = λ id past d. none; provider_answer = λ id past h. none }

abbrev pub label : NonEmptyText
label = record { text = b'o' ∷ b'k' ∷ [] }

abbrev pub kind : Kind
kind = record { slug = b'o' ∷ b'k' ∷ [] }

abbrev pub provider : ProviderDescriptor
provider = record {
  id = 1;
  kind = kind;
  display_name = label;
  version = none;
  capabilities = 0x7ff;
}

abbrev pub answering : ChannelDescriptor
answering = record {
  id = 5;
  kind = kind;
  display_name = label;
  version = none;
  capabilities = 0xfff;
}

abbrev pub watching : ChannelDescriptor
watching = record { id = 7; kind = kind; display_name = label; version = none; capabilities = 1 }

abbrev pub session : AgentSession
session = record {
  id = 10;
  provider_id = 1;
  external_id = none;
  title = none;
  workspace = none;
  state = AgentState.initializing;
  connection_state = ConnectionState.connected;
  revision = 1;
  created_at = 100;
  updated_at = 100;
}

abbrev pub request : InteractionRequest
request = record {
  id = 30;
  session_id = 10;
  requested_at = 110;
  expires_at = some 200;
  prompt = label;
  payload = InteractionRequestPayload.approval_request (record {
    subject = ApprovalSubject.command_subject ApprovalCommandKind.command none none none none;
    options =
        record {
          id = 31;
          disposition = ApprovalDisposition.approve;
          label = label;
          description = none;
        }
        ∷ [];
    unavailable_reason = none;
  });
}

abbrev pub response : InteractionResponse
response = record {
  request_id = 30;
  session_id = 10;
  channel_id = 5;
  responded_at = 150;
  payload = InteractionResponsePayload.approval_response (record { option_id = 31 });
}

abbrev pub event : ℕ → ℕ → AgentEventPayload → AgentEvent
event sequence at payload = record {
  id = 1000;
  session_id = 10;
  sequence = sequence;
  occurred_at = at;
  payload = payload;
}

abbrev pub begun : AgentEvent
begun = event 1 100 (AgentEventPayload.session_started session)

abbrev pub asked : AgentEvent
asked = event 2 110 (AgentEventPayload.interaction_requested request)

abbrev pub busy : AgentEvent
busy = event 3 120 (AgentEventPayload.state_changed AgentState.running)

abbrev pub begun_aggregate : SessionAggregate
begun_aggregate = fresh begun retain_all session

abbrev pub asked_aggregate : SessionAggregate
asked_aggregate = (apply asked begun_aggregate).0
