-- ===== src/Protocol/Sound/Commands.antt =====
-- Decoded commands are ones that the constructors allow.
use agentpulse_rs.Common.{◌≡◌, ok, arith, subst, bind-ok}
use agentpulse_rs.Domain.Identifiers.{Formats}
use agentpulse_rs.Domain.Command.{AgentCommandPayload, AgentCommand}
use agentpulse_rs.Domain.Constructed.{IsCommandPayload, IsCommand}
use agentpulse_rs.Protocol.Dto.Interactions.{AgentCommandPayloadDto, AgentCommandDto}
use agentpulse_rs.Protocol.Convert.Scalars.{decode_text, decode_optional_text}
use agentpulse_rs.Protocol.Convert.Names.{decode_prompt_delivery, decode_queue_action}
use agentpulse_rs.Protocol.Convert.Commands.{decode_command_payload, decode_command}
use agentpulse_rs.Protocol.Sound.Scalars.{text-IsText, optional_text-IsText, id-IsV7}

decode_command_payload-IsCommandPayload :
    (d : AgentCommandPayloadDto) (p : AgentCommandPayload)
    → decode_command_payload d ≡ ok p
    → IsCommandPayload p
unfolding decode_command_payload
decode_command_payload-IsCommandPayload (AgentCommandPayloadDto.submit_prompt text delivery) p e =
    let (x, xq, e1) = bind-ok (decode_text text) _ p e in
    let whole : AgentCommandPayload.submit_prompt x (decode_prompt_delivery delivery) ≡ p =
      ground arith in
    subst IsCommandPayload whole (text-IsText text x xq)
decode_command_payload-IsCommandPayload (AgentCommandPayloadDto.cancel_session reason) p e =
    let (x, xq, e1) = bind-ok (decode_optional_text reason) _ p e in
    let whole : AgentCommandPayload.cancel_session x ≡ p = ground arith in
    subst IsCommandPayload whole (optional_text-IsText reason x xq)
decode_command_payload-IsCommandPayload (AgentCommandPayloadDto.select_model model effort) p e =
    let (x, xq, e1) = bind-ok (decode_text model) _ p e in
    let (y, yq, e2) = bind-ok (decode_optional_text effort) _ p e1 in
    let whole : AgentCommandPayload.select_model x y ≡ p = ground arith in
    subst IsCommandPayload whole (text-IsText model x xq, optional_text-IsText effort y yq)
decode_command_payload-IsCommandPayload (AgentCommandPayloadDto.list_threads cursor) p e =
    let (x, xq, e1) = bind-ok (decode_optional_text cursor) _ p e in
    let whole : AgentCommandPayload.list_threads x ≡ p = ground arith in
    subst IsCommandPayload whole (optional_text-IsText cursor x xq)
decode_command_payload-IsCommandPayload (AgentCommandPayloadDto.resume_thread thread_id) p e =
    let (x, xq, e1) = bind-ok (decode_text thread_id) _ p e in
    let whole : AgentCommandPayload.resume_thread x ≡ p = ground arith in
    subst IsCommandPayload whole (text-IsText thread_id x xq)
decode_command_payload-IsCommandPayload (AgentCommandPayloadDto.start_thread cwd) p e =
    let (x, xq, e1) = bind-ok (decode_text cwd) _ p e in
    let whole : AgentCommandPayload.start_thread x ≡ p = ground arith in
    subst IsCommandPayload whole (text-IsText cwd x xq)
decode_command_payload-IsCommandPayload (AgentCommandPayloadDto.review instructions) p e =
    let (x, xq, e1) = bind-ok (decode_optional_text instructions) _ p e in
    let whole : AgentCommandPayload.review x ≡ p = ground arith in
    subst IsCommandPayload whole (optional_text-IsText instructions x xq)
decode_command_payload-IsCommandPayload (AgentCommandPayloadDto.rename name) p e =
    let (x, xq, e1) = bind-ok (decode_text name) _ p e in
    let whole : AgentCommandPayload.rename x ≡ p = ground arith in
    subst IsCommandPayload whole (text-IsText name x xq)
decode_command_payload-IsCommandPayload (AgentCommandPayloadDto.select_permission_profile profile) p
      e =
    let (x, xq, e1) = bind-ok (decode_text profile) _ p e in
    let whole : AgentCommandPayload.select_permission_profile x ≡ p = ground arith in
    subst IsCommandPayload whole (text-IsText profile x xq)
decode_command_payload-IsCommandPayload AgentCommandPayloadDto.list_models p e =
    let whole : AgentCommandPayload.list_models ≡ p = ground arith in
    subst IsCommandPayload whole tt
decode_command_payload-IsCommandPayload (AgentCommandPayloadDto.set_plan_mode enabled) p e =
    let whole : AgentCommandPayload.set_plan_mode enabled ≡ p = ground arith in
    subst IsCommandPayload whole tt
decode_command_payload-IsCommandPayload AgentCommandPayloadDto.compact p e =
    let whole : AgentCommandPayload.compact ≡ p = ground arith in subst IsCommandPayload whole tt
decode_command_payload-IsCommandPayload AgentCommandPayloadDto.fork p e =
    let whole : AgentCommandPayload.fork ≡ p = ground arith in subst IsCommandPayload whole tt
decode_command_payload-IsCommandPayload AgentCommandPayloadDto.status p e =
    let whole : AgentCommandPayload.status ≡ p = ground arith in subst IsCommandPayload whole tt
decode_command_payload-IsCommandPayload AgentCommandPayloadDto.list_permission_profiles p e =
    let whole : AgentCommandPayload.list_permission_profiles ≡ p = ground arith in
    subst IsCommandPayload whole tt
decode_command_payload-IsCommandPayload (AgentCommandPayloadDto.queue action) p e =
    let whole : AgentCommandPayload.queue (decode_queue_action action) ≡ p = ground arith in
    subst IsCommandPayload whole tt

pub decode_command-IsCommand :
    (formats : Formats) (d : AgentCommandDto) (c : AgentCommand)
    → decode_command formats d ≡ ok c
    → IsCommand formats c
unfolding decode_command
decode_command-IsCommand formats d c e = record {
  id = id-IsV7 formats "command ID" d.id c.id (ground arith);
  session_id = id-IsV7 formats "session ID" d.session_id c.session_id (ground arith);
  channel_id = id-IsV7 formats "channel ID" d.channel_id c.channel_id (ground arith);
  payload = decode_command_payload-IsCommandPayload d.payload c.payload (ground arith);
}
