-- ===== src/Protocol/RoundTrip/Envelope.antt =====
-- Descriptors and whole messages are read back as they were written.
use agentpulse_rs.Common.{◌≡◌, none, ok, arith}
use agentpulse_rs.Domain.Value.{new_kind}
use agentpulse_rs.Domain.Capability.{Flags}
use agentpulse_rs.Domain.Endpoint.{
  ProviderDescriptor, ChannelDescriptor, new_provider_descriptor, new_channel_descriptor,
  with_provider_version, with_channel_version,
}
use agentpulse_rs.Domain.Identifiers.{Formats, ReadsBack}
use agentpulse_rs.Domain.Constructed.{
  IsText, IsProvider, IsChannel, IsSession, IsEvent, IsRequest, IsResponse, IsCommand,
}
use agentpulse_rs.Protocol.Dto.{MessageDto, EnvelopeDto}
use agentpulse_rs.Protocol.Convert.Scalars.{decode_text, encode_text}
use agentpulse_rs.Protocol.Convert.{
  ProtocolMessage, encode_provider_descriptor, decode_provider_descriptor,
  encode_channel_descriptor, decode_channel_descriptor, encode_body, decode_body, encode_envelope,
  decode_envelope,
}
use agentpulse_rs.Protocol.RoundTrip.Scalars.{text_back, with_optional_back, id_back}
use agentpulse_rs.Protocol.RoundTrip.Sessions.{session_back}
use agentpulse_rs.Protocol.RoundTrip.Requests.{interaction_request_back}
use agentpulse_rs.Protocol.RoundTrip.Responses.{interaction_response_back, command_back}
use agentpulse_rs.Protocol.RoundTrip.Events.{event_back}
use agentpulse_rs.Protocol.RoundTrip.Capabilities.{
  AreMasks, provider_capabilities_back, channel_capabilities_back,
}

-- What the constructors ensure of the value that a message carries.
abbrev pub IsConstructed : Formats → ProtocolMessage → Type 0
IsConstructed formats (ProtocolMessage.provider_descriptor x) = IsProvider formats x
IsConstructed formats (ProtocolMessage.channel_descriptor x) = IsChannel formats x
IsConstructed formats (ProtocolMessage.agent_session x) = IsSession formats x
IsConstructed formats (ProtocolMessage.agent_event x) = IsEvent formats x
IsConstructed formats (ProtocolMessage.interaction_request x) = IsRequest formats x
IsConstructed formats (ProtocolMessage.interaction_response x) = IsResponse formats x
IsConstructed formats (ProtocolMessage.agent_command x) = IsCommand formats x

module _ (flags : Flags) (masks : AreMasks flags) (formats : Formats)
    (back : ReadsBack formats) where
  provider_descriptor_back :
      (d : ProviderDescriptor)
      → IsProvider formats d
      → decode_provider_descriptor flags formats (encode_provider_descriptor flags formats d) ≡ ok d
  unfolding encode_provider_descriptor decode_provider_descriptor new_kind new_provider_descriptor
      with_provider_version
  provider_descriptor_back d v = ground (
    arith,
    id_back formats back "provider ID" d.id v.id,
    text_back d.display_name v.display_name,
    provider_capabilities_back flags masks d.capabilities v.capabilities,
    with_optional_back IsText with_provider_version encode_text decode_text text_back
        (record d { version = none }) d.version v.version,
  )

  channel_descriptor_back :
      (d : ChannelDescriptor)
      → IsChannel formats d
      → decode_channel_descriptor flags formats (encode_channel_descriptor flags formats d) ≡ ok d
  unfolding encode_channel_descriptor decode_channel_descriptor new_kind new_channel_descriptor
      with_channel_version
  channel_descriptor_back d v = ground (
    arith,
    id_back formats back "channel ID" d.id v.id,
    text_back d.display_name v.display_name,
    channel_capabilities_back flags masks d.capabilities v.capabilities,
    with_optional_back IsText with_channel_version encode_text decode_text text_back
        (record d { version = none }) d.version v.version,
  )

  body_back :
      (m : ProtocolMessage)
      → IsConstructed formats m
      → (d : MessageDto) → encode_body flags formats m ≡ ok d
      → decode_body flags formats d ≡ ok m
  unfolding encode_body decode_body
  body_back (ProtocolMessage.provider_descriptor x) v (MessageDto.provider_descriptor d) e =
      ground (arith, provider_descriptor_back x v)
  body_back (ProtocolMessage.channel_descriptor x) v (MessageDto.channel_descriptor d) e =
      ground (arith, channel_descriptor_back x v)
  body_back (ProtocolMessage.agent_session x) v (MessageDto.agent_session d) e =
      ground (arith, session_back formats back x v d)
  body_back (ProtocolMessage.agent_event x) v (MessageDto.agent_event d) e =
      ground (arith, event_back formats back x v d)
  body_back (ProtocolMessage.interaction_request x) v (MessageDto.interaction_request d) e =
      ground (arith, interaction_request_back formats back x v d)
  body_back (ProtocolMessage.interaction_response x) v (MessageDto.interaction_response d) e =
      ground (arith, interaction_response_back formats back x v d)
  body_back (ProtocolMessage.agent_command x) v (MessageDto.agent_command d) e =
      ground (arith, command_back formats back x v d)
  body_back (ProtocolMessage.provider_descriptor x) v d e = ground arith
  body_back (ProtocolMessage.channel_descriptor x) v d e = ground arith
  body_back (ProtocolMessage.agent_session x) v d e = ground arith
  body_back (ProtocolMessage.agent_event x) v d e = ground arith
  body_back (ProtocolMessage.interaction_request x) v d e = ground arith
  body_back (ProtocolMessage.interaction_response x) v d e = ground arith
  body_back (ProtocolMessage.agent_command x) v d e = ground arith

  -- Every message that the constructors of the domain allow is read back exactly as it was written,
  -- if it can be written. The bitflags crate works on masks of bits, the uuid crate reads an
  -- identifier that it has printed, and the time crate reads a time that it has formatted.
  pub decode_envelope-encode_envelope :
      (m : ProtocolMessage)
      → IsConstructed formats m
      → (d : EnvelopeDto) → encode_envelope flags formats m ≡ ok d
      → decode_envelope flags formats d ≡ ok m
  unfolding encode_envelope decode_envelope
  decode_envelope-encode_envelope m v d e = ground (arith, body_back m v d.message)
