-- ===== src/Protocol/Convert/Capabilities.antt =====
-- agentpulse-protocol/src/v2/convert.rs: sets of capabilities. The source writes the same loop for
-- Providers and for Channels.
use agentpulse_rs.Common.{ℕ, List, [], ◌∷◌, Result, ok, err, if◌then◌else◌, String}
use agentpulse_rs.Domain.Capability
use agentpulse_rs.Domain.Capability.{Flags, ProviderCapabilities, ChannelCapabilities}
use agentpulse_rs.Domain.Unique.{member}
use agentpulse_rs.Protocol.Dto.Names.{ProviderCapabilityDto, ChannelCapabilityDto}
use agentpulse_rs.Protocol.Error.{ProtocolError, invalid_wire_value}
use Prim.Native.String.{◌++◌ as ◌<>◌}

unfoldable pub duplicate_capability : String → String → ProtocolError
duplicate_capability field capability =
    invalid_wire_value field ("duplicate capability `" <> capability <> "`")

unfoldable pub provider_capability_name : ProviderCapabilityDto → String
provider_capability_name ProviderCapabilityDto.session_state = "session_state"
provider_capability_name ProviderCapabilityDto.tool_events = "tool_events"
provider_capability_name ProviderCapabilityDto.plan = "plan"
provider_capability_name ProviderCapabilityDto.progress = "progress"
provider_capability_name ProviderCapabilityDto.approval_request = "approval_request"
provider_capability_name ProviderCapabilityDto.approval_response = "approval_response"
provider_capability_name ProviderCapabilityDto.user_input_request = "user_input_request"
provider_capability_name ProviderCapabilityDto.user_input_response = "user_input_response"
provider_capability_name ProviderCapabilityDto.prompt_submit = "prompt_submit"
provider_capability_name ProviderCapabilityDto.cancel = "cancel"
provider_capability_name ProviderCapabilityDto.control = "control"

-- The set that the name stands for, as the `match` of the decoder has it.
unfoldable pub provider_bit : ProviderCapabilityDto → ℕ
provider_bit ProviderCapabilityDto.session_state = Capability.session_state
provider_bit ProviderCapabilityDto.tool_events = Capability.tool_events
provider_bit ProviderCapabilityDto.plan = Capability.plan
provider_bit ProviderCapabilityDto.progress = Capability.progress
provider_bit ProviderCapabilityDto.approval_request = Capability.approval_request
provider_bit ProviderCapabilityDto.approval_response = Capability.approval_response
provider_bit ProviderCapabilityDto.user_input_request = Capability.user_input_request
provider_bit ProviderCapabilityDto.user_input_response = Capability.user_input_response
provider_bit ProviderCapabilityDto.prompt_submit = Capability.prompt_submit
provider_bit ProviderCapabilityDto.cancel = Capability.cancel
provider_bit ProviderCapabilityDto.control = Capability.control

abbrev pub known_provider : List ProviderCapabilityDto
known_provider =
    ProviderCapabilityDto.session_state ∷ ProviderCapabilityDto.tool_events
    ∷ ProviderCapabilityDto.plan ∷ ProviderCapabilityDto.progress
    ∷ ProviderCapabilityDto.approval_request ∷ ProviderCapabilityDto.approval_response
    ∷ ProviderCapabilityDto.user_input_request ∷ ProviderCapabilityDto.user_input_response
    ∷ ProviderCapabilityDto.prompt_submit ∷ ProviderCapabilityDto.cancel
    ∷ ProviderCapabilityDto.control ∷ []

unfoldable pub channel_capability_name : ChannelCapabilityDto → String
channel_capability_name ChannelCapabilityDto.notification = "notification"
channel_capability_name ChannelCapabilityDto.session_view = "session_view"
channel_capability_name ChannelCapabilityDto.tool_view = "tool_view"
channel_capability_name ChannelCapabilityDto.plan_view = "plan_view"
channel_capability_name ChannelCapabilityDto.progress_view = "progress_view"
channel_capability_name ChannelCapabilityDto.rich_message = "rich_message"
channel_capability_name ChannelCapabilityDto.approval = "approval"
channel_capability_name ChannelCapabilityDto.choice_input = "choice_input"
channel_capability_name ChannelCapabilityDto.text_input = "text_input"
channel_capability_name ChannelCapabilityDto.form_input = "form_input"
channel_capability_name ChannelCapabilityDto.realtime_sync = "realtime_sync"
channel_capability_name ChannelCapabilityDto.remote_command = "remote_command"

-- The set that the name stands for, as the `match` of the decoder has it.
unfoldable pub channel_bit : ChannelCapabilityDto → ℕ
channel_bit ChannelCapabilityDto.notification = Capability.notification
channel_bit ChannelCapabilityDto.session_view = Capability.session_view
channel_bit ChannelCapabilityDto.tool_view = Capability.tool_view
channel_bit ChannelCapabilityDto.plan_view = Capability.plan_view
channel_bit ChannelCapabilityDto.progress_view = Capability.progress_view
channel_bit ChannelCapabilityDto.rich_message = Capability.rich_message
channel_bit ChannelCapabilityDto.approval = Capability.approval
channel_bit ChannelCapabilityDto.choice_input = Capability.choice_input
channel_bit ChannelCapabilityDto.text_input = Capability.text_input
channel_bit ChannelCapabilityDto.form_input = Capability.form_input
channel_bit ChannelCapabilityDto.realtime_sync = Capability.realtime_sync
channel_bit ChannelCapabilityDto.remote_command = Capability.remote_command

abbrev pub known_channel : List ChannelCapabilityDto
known_channel =
    ChannelCapabilityDto.notification ∷ ChannelCapabilityDto.session_view
    ∷ ChannelCapabilityDto.tool_view ∷ ChannelCapabilityDto.plan_view
    ∷ ChannelCapabilityDto.progress_view ∷ ChannelCapabilityDto.rich_message
    ∷ ChannelCapabilityDto.approval ∷ ChannelCapabilityDto.choice_input
    ∷ ChannelCapabilityDto.text_input ∷ ChannelCapabilityDto.form_input
    ∷ ChannelCapabilityDto.realtime_sync ∷ ChannelCapabilityDto.remote_command ∷ []

module _ {ℓ} {D : Type ℓ} (flags : Flags) (bit : D → ℕ) where
  -- The `filter_map` over `known`.
  unfoldable pub encode_known : ℕ → List D → List D
  encode_known value [] = []
  encode_known value (d ∷ ds) =
      let rest = encode_known value ds in if flags.contains value (bit d) then d ∷ rest else rest

  -- The loop of the decoder. Two names are equal if they stand for the same set, and `seen` has the
  -- sets of the names before.
  unfoldable pub collect_capabilities :
      (D → ProtocolError) → List ℕ → ℕ → List D → Result ProtocolError ℕ
  collect_capabilities duplicate seen capabilities [] = ok capabilities
  collect_capabilities duplicate seen capabilities (d ∷ ds) =
      let rest =
        collect_capabilities duplicate (bit d ∷ seen) (flags.union capabilities (bit d)) ds in
      if member (bit d) seen then err (duplicate d) else rest

module _ (flags : Flags) where
  unfoldable pub encode_provider_capabilities : ProviderCapabilities → List ProviderCapabilityDto
  unfolding encode_known
  encode_provider_capabilities value = encode_known flags provider_bit value known_provider

  unfoldable pub decode_provider_capabilities :
      List ProviderCapabilityDto → Result ProtocolError ProviderCapabilities
  unfolding collect_capabilities
  decode_provider_capabilities values =
      collect_capabilities flags provider_bit
        (λ d. duplicate_capability "provider capabilities" (provider_capability_name d)) []
        Capability.no_capability values

  unfoldable pub encode_channel_capabilities : ChannelCapabilities → List ChannelCapabilityDto
  unfolding encode_known
  encode_channel_capabilities value = encode_known flags channel_bit value known_channel

  unfoldable pub decode_channel_capabilities :
      List ChannelCapabilityDto → Result ProtocolError ChannelCapabilities
  unfolding collect_capabilities
  decode_channel_capabilities values =
      collect_capabilities flags channel_bit
        (λ d. duplicate_capability "channel capabilities" (channel_capability_name d)) []
        Capability.no_capability values
