-- ===== src/Domain/Session.antt =====
-- agentpulse-core/src/session.rs: session snapshots and their observation by the reducer.
use agentpulse_rs.Common.{ℕ, Option, none, some, Result, ok, err, ltb, if◌then◌else◌}
use agentpulse_rs.Domain.Error.{DomainError, invalid_time_order}
use agentpulse_rs.Domain.Value.{NonEmptyText, ExternalId, WorkspaceRef, Timestamp, Revision, first}

-- The identifiers of agentpulse-core/src/id.rs: a UUID's 128 bits as a number, which orders them
-- as the source does.
abbrev pub Uuid : Type 0
Uuid = ℕ

pub data AgentState : Type 0 where
  initializing idle running waiting_for_interaction completed failed cancelled : AgentState

pub data ConnectionState : Type 0 where
  connected reconnecting disconnected : ConnectionState

-- The same fields serve AgentSession and AgentSessionBuilder.
pub record AgentSession : Type 0 where
  pub id : Uuid
  pub provider_id : Uuid
  pub external_id : Option ExternalId
  pub title : Option NonEmptyText
  pub workspace : Option WorkspaceRef
  pub state : AgentState
  pub connection_state : ConnectionState
  pub revision : Revision
  pub created_at : Timestamp
  pub updated_at : Timestamp

unfoldable pub builder : Uuid → Uuid → Timestamp → AgentSession
builder id provider_id created_at = record {
  id = id;
  provider_id = provider_id;
  external_id = none;
  title = none;
  workspace = none;
  state = initializing;
  connection_state = connected;
  revision = first;
  created_at = created_at;
  updated_at = created_at;
}

unfoldable pub build : AgentSession → Result DomainError AgentSession
build b =
    if ltb b.updated_at b.created_at
    then err (invalid_time_order "session created_at" "session updated_at")
    else ok b

unfoldable pub with_external_id : AgentSession → ExternalId → AgentSession
with_external_id b id = record b { external_id = some id }

unfoldable pub with_title : AgentSession → NonEmptyText → AgentSession
with_title b title = record b { title = some title }

unfoldable pub with_workspace : AgentSession → WorkspaceRef → AgentSession
with_workspace b workspace = record b { workspace = some workspace }

unfoldable pub with_state : AgentSession → AgentState → AgentSession
with_state b state = record b { state = state }

unfoldable pub with_connection_state : AgentSession → ConnectionState → AgentSession
with_connection_state b state = record b { connection_state = state }

unfoldable pub with_revision : AgentSession → Revision → Timestamp → AgentSession
with_revision b revision updated_at = record b { revision = revision; updated_at = updated_at }

-- The later of the time known and the time observed.
abbrev pub later : Timestamp → Timestamp → Timestamp
later known observed = if ltb known observed then observed else known

unfoldable pub observe_state : AgentSession → AgentState → Revision → Timestamp → AgentSession
observe_state s state revision observed_at = record s {
  state = state;
  revision = revision;
  updated_at = later s.updated_at observed_at;
}

unfoldable pub observe_connection_state :
    AgentSession → ConnectionState → Revision → Timestamp → AgentSession
observe_connection_state s state revision observed_at = record s {
  connection_state = state;
  revision = revision;
  updated_at = later s.updated_at observed_at;
}
