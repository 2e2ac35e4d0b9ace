-- ===== src/Protocol/Convert/Commands.antt =====
-- agentpulse-protocol/src/v2/convert.rs: commands.
use agentpulse_rs.Common.{Result, ok, ◌>>=◌}
use agentpulse_rs.Domain.Identifiers.{Formats}
use agentpulse_rs.Domain.Command.{AgentCommandPayload, AgentCommand}
use agentpulse_rs.Protocol.Dto.Interactions.{AgentCommandPayloadDto, AgentCommandDto}
use agentpulse_rs.Protocol.Error.{ProtocolError}
use agentpulse_rs.Protocol.Convert.Scalars.{
  decode_text, encode_optional_text, decode_optional_text, parse_id, encode_timestamp,
  decode_timestamp,
}
use agentpulse_rs.Protocol.Convert.Names.{
  encode_prompt_delivery, decode_prompt_delivery, encode_queue_action, decode_queue_action,
}

unfoldable pub encode_command_payload :
    AgentCommandPayload → Result ProtocolError AgentCommandPayloadDto
encode_command_payload (AgentCommandPayload.submit_prompt text delivery) =
    ok (AgentCommandPayloadDto.submit_prompt text.text (encode_prompt_delivery delivery))
encode_command_payload (AgentCommandPayload.cancel_session reason) =
    ok (AgentCommandPayloadDto.cancel_session (encode_optional_text reason))
encode_command_payload AgentCommandPayload.list_models = ok AgentCommandPayloadDto.list_models
encode_command_payload (AgentCommandPayload.select_model model effort) =
    ok (AgentCommandPayloadDto.select_model model.text (encode_optional_text effort))
encode_command_payload (AgentCommandPayload.set_plan_mode enabled) =
    ok (AgentCommandPayloadDto.set_plan_mode enabled)
encode_command_payload (AgentCommandPayload.list_threads cursor) =
    ok (AgentCommandPayloadDto.list_threads (encode_optional_text cursor))
encode_command_payload (AgentCommandPayload.resume_thread thread_id) =
    ok (AgentCommandPayloadDto.resume_thread thread_id.text)
encode_command_payload (AgentCommandPayload.start_thread cwd) =
    ok (AgentCommandPayloadDto.start_thread cwd.text)
encode_command_payload AgentCommandPayload.compact = ok AgentCommandPayloadDto.compact
encode_command_payload (AgentCommandPayload.review instructions) =
    ok (AgentCommandPayloadDto.review (encode_optional_text instructions))
encode_command_payload (AgentCommandPayload.rename name) =
    ok (AgentCommandPayloadDto.rename name.text)
encode_command_payload AgentCommandPayload.fork = ok AgentCommandPayloadDto.fork
encode_command_payload AgentCommandPayload.status = ok AgentCommandPayloadDto.status
encode_command_payload AgentCommandPayload.list_permission_profiles =
    ok AgentCommandPayloadDto.list_permission_profiles
encode_command_payload (AgentCommandPayload.select_permission_profile profile) =
    ok (AgentCommandPayloadDto.select_permission_profile profile.text)
encode_command_payload (AgentCommandPayload.queue action) =
    ok (AgentCommandPayloadDto.queue (encode_queue_action action))

unfoldable pub decode_command_payload :
    AgentCommandPayloadDto → Result ProtocolError AgentCommandPayload
decode_command_payload (AgentCommandPayloadDto.submit_prompt text delivery) = do
  x ← decode_text text
  ok (AgentCommandPayload.submit_prompt x (decode_prompt_delivery delivery))
decode_command_payload (AgentCommandPayloadDto.cancel_session reason) = do
  x ← decode_optional_text reason
  ok (AgentCommandPayload.cancel_session x)
decode_command_payload AgentCommandPayloadDto.list_models = ok AgentCommandPayload.list_models
decode_command_payload (AgentCommandPayloadDto.select_model model effort) = do
  x ← decode_text model
  y ← decode_optional_text effort
  ok (AgentCommandPayload.select_model x y)
decode_command_payload (AgentCommandPayloadDto.set_plan_mode enabled) =
    ok (AgentCommandPayload.set_plan_mode enabled)
decode_command_payload (AgentCommandPayloadDto.list_threads cursor) = do
  x ← decode_optional_text cursor
  ok (AgentCommandPayload.list_threads x)
decode_command_payload (AgentCommandPayloadDto.resume_thread thread_id) = do
  x ← decode_text thread_id
  ok (AgentCommandPayload.resume_thread x)
decode_command_payload (AgentCommandPayloadDto.start_thread cwd) = do
  x ← decode_text cwd
  ok (AgentCommandPayload.start_thread x)
decode_command_payload AgentCommandPayloadDto.compact = ok AgentCommandPayload.compact
decode_command_payload (AgentCommandPayloadDto.review instructions) = do
  x ← decode_optional_text instructions
  ok (AgentCommandPayload.review x)
decode_command_payload (AgentCommandPayloadDto.rename name) = do
  x ← decode_text name
  ok (AgentCommandPayload.rename x)
decode_command_payload AgentCommandPayloadDto.fork = ok AgentCommandPayload.fork
decode_command_payload AgentCommandPayloadDto.status = ok AgentCommandPayload.status
decode_command_payload AgentCommandPayloadDto.list_permission_profiles =
    ok AgentCommandPayload.list_permission_profiles
decode_command_payload (AgentCommandPayloadDto.select_permission_profile profile) = do
  x ← decode_text profile
  ok (AgentCommandPayload.select_permission_profile x)
decode_command_payload (AgentCommandPayloadDto.queue action) =
    ok (AgentCommandPayload.queue (decode_queue_action action))

module _ (formats : Formats) where
  unfoldable pub encode_command : AgentCommand → Result ProtocolError AgentCommandDto
  encode_command c = do
    issued_at ← encode_timestamp formats c.issued_at "command issued_at"
    payload ← encode_command_payload c.payload
    ok (record {
      id = formats.print_uuid c.id;
      session_id = formats.print_uuid c.session_id;
      channel_id = formats.print_uuid c.channel_id;
      issued_at = issued_at;
      payload = payload;
    })

  unfoldable pub decode_command : AgentCommandDto → Result ProtocolError AgentCommand
  decode_command dto = do
    id ← parse_id formats "command ID" dto.id
    session_id ← parse_id formats "session ID" dto.session_id
    channel_id ← parse_id formats "channel ID" dto.channel_id
    issued_at ← decode_timestamp formats dto.issued_at "command issued_at"
    payload ← decode_command_payload dto.payload
    ok (record {
      id = id;
      session_id = session_id;
      channel_id = channel_id;
      issued_at = issued_at;
      payload = payload;
    })
