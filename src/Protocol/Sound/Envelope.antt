-- ===== src/Protocol/Sound/Envelope.antt =====
-- Decoded descriptors and messages are ones that the constructors allow.
use agentpulse_rs.Common.{
  ℕ, ◌≡◌, ◌<◌, refl, sym, subst, true, List, [], ◌∷◌, ok, arith, bind-ok, bit_or, ltb, ltb→lt,
}
use agentpulse_rs.Domain.Value.{new_kind}
use agentpulse_rs.Domain.Capability.{Flags}
use agentpulse_rs.Domain.Endpoint.{
  ProviderDescriptor, ChannelDescriptor, new_provider_descriptor, new_channel_descriptor,
  with_provider_version, with_channel_version,
}
use agentpulse_rs.Domain.Identifiers.{Formats}
use agentpulse_rs.Domain.Constructed.{IsText, IsProvider, IsChannel}
use agentpulse_rs.Protocol.Dto.Names.{ProviderCapabilityDto, ChannelCapabilityDto}
use agentpulse_rs.Protocol.Dto.Sessions.{ProviderDescriptorDto, ChannelDescriptorDto}
use agentpulse_rs.Protocol.Dto.{MessageDto, EnvelopeDto}
use agentpulse_rs.Protocol.Error.{ProtocolError, v2_protocol_version}
use agentpulse_rs.Protocol.Convert.Scalars.{lift, parse_id, decode_text}
use agentpulse_rs.Protocol.Convert.Sessions.{decode_session}
use agentpulse_rs.Protocol.Convert.Requests.{decode_interaction_request}
use agentpulse_rs.Protocol.Convert.Responses.{decode_interaction_response}
use agentpulse_rs.Protocol.Convert.Commands.{decode_command}
use agentpulse_rs.Protocol.Convert.Capabilities.{
  provider_bit, channel_bit, collect_capabilities, decode_provider_capabilities,
  decode_channel_capabilities,
}
use agentpulse_rs.Protocol.Convert.{
  ProtocolMessage, decode_provider_descriptor, decode_channel_descriptor, decode_event, decode_body,
  decode_envelope,
}
use agentpulse_rs.Protocol.RoundTrip.Capabilities.{AreMasks, passes_below, passes-at}
use agentpulse_rs.Protocol.RoundTrip.Envelope.{IsConstructed}
use agentpulse_rs.Protocol.Sound.Scalars.{text-IsText, id-IsV7, with_optional_inv}
use agentpulse_rs.Protocol.Sound.Sessions.{decode_session-IsSession}
use agentpulse_rs.Protocol.Sound.Requests.{decode_interaction_request-IsRequest}
use agentpulse_rs.Protocol.Sound.Responses.{decode_interaction_response-IsResponse}
use agentpulse_rs.Protocol.Sound.Commands.{decode_command-IsCommand}
use agentpulse_rs.Protocol.Sound.Events.{decode_event-IsEvent}

provider_table :
    (d : ProviderCapabilityDto)
    → passes_below (λ a. ltb (bit_or a (provider_bit d)) 2048) 2048 ≡ true
unfolding passes_below provider_bit
provider_table ProviderCapabilityDto.session_state = refl
provider_table ProviderCapabilityDto.tool_events = refl
provider_table ProviderCapabilityDto.plan = refl
provider_table ProviderCapabilityDto.progress = refl
provider_table ProviderCapabilityDto.approval_request = refl
provider_table ProviderCapabilityDto.approval_response = refl
provider_table ProviderCapabilityDto.user_input_request = refl
provider_table ProviderCapabilityDto.user_input_response = refl
provider_table ProviderCapabilityDto.prompt_submit = refl
provider_table ProviderCapabilityDto.cancel = refl
provider_table ProviderCapabilityDto.control = refl

channel_table :
    (d : ChannelCapabilityDto) → passes_below (λ a. ltb (bit_or a (channel_bit d)) 4096) 4096 ≡ true
unfolding passes_below channel_bit
channel_table ChannelCapabilityDto.notification = refl
channel_table ChannelCapabilityDto.session_view = refl
channel_table ChannelCapabilityDto.tool_view = refl
channel_table ChannelCapabilityDto.plan_view = refl
channel_table ChannelCapabilityDto.progress_view = refl
channel_table ChannelCapabilityDto.rich_message = refl
channel_table ChannelCapabilityDto.approval = refl
channel_table ChannelCapabilityDto.choice_input = refl
channel_table ChannelCapabilityDto.text_input = refl
channel_table ChannelCapabilityDto.form_input = refl
channel_table ChannelCapabilityDto.realtime_sync = refl
channel_table ChannelCapabilityDto.remote_command = refl

module _ {ℓ} {D : Type ℓ} (bit : D → ℕ) (n : ℕ)
    (table : (d : D) → passes_below (λ a. ltb (bit_or a (bit d)) n) n ≡ true) (flags : Flags)
    (masks : AreMasks flags) (duplicate : D → ProtocolError) where
  collect-lt :
      (ds : List D) (seen : List ℕ) (acc c : ℕ)
      → acc < n
      → collect_capabilities flags bit duplicate seen acc ds ≡ ok c
      → c < n
  unfolding collect_capabilities
  collect-lt [] seen acc c h e = ground arith
  collect-lt (d ∷ ds) seen acc c h e =
      let step : bit_or acc (bit d) < n =
        ltb→lt _ n (passes-at (λ a. ltb (bit_or a (bit d)) n) n acc h (table d)) in
      let within : flags.union acc (bit d) < n =
        subst (λ u. u < n) (sym (masks.union_mask acc (bit d))) step in
      ground (arith, collect-lt ds (bit d ∷ seen) (flags.union acc (bit d)) c within)

module _ (flags : Flags) (masks : AreMasks flags) (formats : Formats) where
  provider_descriptor-IsProvider :
      (dto : ProviderDescriptorDto) (d : ProviderDescriptor)
      → decode_provider_descriptor flags formats dto ≡ ok d
      → IsProvider formats d
  unfolding decode_provider_descriptor decode_provider_capabilities new_kind new_provider_descriptor
      with_provider_version
  provider_descriptor-IsProvider dto d e =
      let (id, idq, e1) = bind-ok (parse_id formats "provider ID" dto.id) _ d e in
      let (kind, kq, e2) = bind-ok (lift (new_kind "provider kind" dto.kind)) _ d e1 in
      let (name, nq, e3) = bind-ok (decode_text dto.display_name) _ d e2 in
      let (set, sq, e4) = bind-ok (decode_provider_capabilities flags dto.capabilities) _ d e3 in
      let start = new_provider_descriptor id kind name set in
      let (version, vq, same) =
        with_optional_inv IsText with_provider_version decode_text text-IsText start d dto.version
          e4 in
      let whole : d ≡ record start { version = version } = ground arith in
      subst (IsProvider formats) (sym whole) (record {
        id = id-IsV7 formats "provider ID" dto.id id idq;
        kind = ground arith;
        display_name = text-IsText dto.display_name name nq;
        version = vq;
        capabilities =
            collect-lt provider_bit 2048 provider_table flags masks _ dto.capabilities [] 0 set
              (omega arith) sq;
      })

  channel_descriptor-IsChannel :
      (dto : ChannelDescriptorDto) (d : ChannelDescriptor)
      → decode_channel_descriptor flags formats dto ≡ ok d
      → IsChannel formats d
  unfolding decode_channel_descriptor decode_channel_capabilities new_kind new_channel_descriptor
      with_channel_version
  channel_descriptor-IsChannel dto d e =
      let (id, idq, e1) = bind-ok (parse_id formats "channel ID" dto.id) _ d e in
      let (kind, kq, e2) = bind-ok (lift (new_kind "channel kind" dto.kind)) _ d e1 in
      let (name, nq, e3) = bind-ok (decode_text dto.display_name) _ d e2 in
      let (set, sq, e4) = bind-ok (decode_channel_capabilities flags dto.capabilities) _ d e3 in
      let start = new_channel_descriptor id kind name set in
      let (version, vq, same) =
        with_optional_inv IsText with_channel_version decode_text text-IsText start d dto.version
          e4 in
      let whole : d ≡ record start { version = version } = ground arith in
      subst (IsChannel formats) (sym whole) (record {
        id = id-IsV7 formats "channel ID" dto.id id idq;
        kind = ground arith;
        display_name = text-IsText dto.display_name name nq;
        version = vq;
        capabilities =
            collect-lt channel_bit 4096 channel_table flags masks _ dto.capabilities [] 0 set
              (omega arith) sq;
      })

  body-IsConstructed :
      (d : MessageDto) (m : ProtocolMessage)
      → decode_body flags formats d ≡ ok m
      → IsConstructed formats m
  unfolding decode_body
  body-IsConstructed (MessageDto.provider_descriptor d) m e =
      let (x, xq, e1) = bind-ok (decode_provider_descriptor flags formats d) _ m e in
      let whole : ProtocolMessage.provider_descriptor x ≡ m = ground arith in
      subst (IsConstructed formats) whole (provider_descriptor-IsProvider d x xq)
  body-IsConstructed (MessageDto.channel_descriptor d) m e =
      let (x, xq, e1) = bind-ok (decode_channel_descriptor flags formats d) _ m e in
      let whole : ProtocolMessage.channel_descriptor x ≡ m = ground arith in
      subst (IsConstructed formats) whole (channel_descriptor-IsChannel d x xq)
  body-IsConstructed (MessageDto.agent_session d) m e =
      let (x, xq, e1) = bind-ok (decode_session formats d) _ m e in
      let whole : ProtocolMessage.agent_session x ≡ m = ground arith in
      subst (IsConstructed formats) whole (decode_session-IsSession formats d x xq)
  body-IsConstructed (MessageDto.agent_event d) m e =
      let (x, xq, e1) = bind-ok (decode_event formats d) _ m e in
      let whole : ProtocolMessage.agent_event x ≡ m = ground arith in
      subst (IsConstructed formats) whole (decode_event-IsEvent formats d x xq)
  body-IsConstructed (MessageDto.interaction_request d) m e =
      let (x, xq, e1) = bind-ok (decode_interaction_request formats d) _ m e in
      let whole : ProtocolMessage.interaction_request x ≡ m = ground arith in
      subst (IsConstructed formats) whole (decode_interaction_request-IsRequest formats d x xq)
  body-IsConstructed (MessageDto.interaction_response d) m e =
      let (x, xq, e1) = bind-ok (decode_interaction_response formats d) _ m e in
      let whole : ProtocolMessage.interaction_response x ≡ m = ground arith in
      subst (IsConstructed formats) whole (decode_interaction_response-IsResponse formats d x xq)
  body-IsConstructed (MessageDto.agent_command d) m e =
      let (x, xq, e1) = bind-ok (decode_command formats d) _ m e in
      let whole : ProtocolMessage.agent_command x ≡ m = ground arith in
      subst (IsConstructed formats) whole (decode_command-IsCommand formats d x xq)

  -- Whatever an envelope holds, if it is decoded then it has the supported version, and the message
  -- is one that the constructors of the domain allow: texts are visible, identifiers of version 7,
  -- identifiers in a list differ, counters are positive, times are in order, answers and options
  -- are as the request and the response types require, and sets have only declared bits.
  pub decode_envelope-IsConstructed :
      (d : EnvelopeDto) (m : ProtocolMessage)
      → decode_envelope flags formats d ≡ ok m
      → (d.protocol_version ≡ v2_protocol_version) × IsConstructed formats m
  unfolding decode_envelope
  decode_envelope-IsConstructed d m e =
      (ground arith, body-IsConstructed d.message m (ground arith))
