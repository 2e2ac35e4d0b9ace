-- ===== src/Domain/Capability.antt =====
-- agentpulse-core/src/capability.rs: the capability declarations. The sets themselves are values
-- of the bitflags crate; what the program asks of them is the interface `Flags`.
use agentpulse_rs.Common.{ℕ, ◌^◌, Bool}

-- The bits of a set of flags.
abbrev pub ProviderCapabilities : Type 0
ProviderCapabilities = ℕ

abbrev pub ChannelCapabilities : Type 0
ChannelCapabilities = ℕ

-- `contains` and `union` of the bitflags crate.
pub record Flags : Type 0 where
  pub contains : ℕ → ℕ → Bool
  pub union : ℕ → ℕ → ℕ

abbrev pub no_capability : ProviderCapabilities
no_capability = 0

abbrev pub session_state : ProviderCapabilities
session_state = 2 ^ 0

abbrev pub tool_events : ProviderCapabilities
tool_events = 2 ^ 1

abbrev pub plan : ProviderCapabilities
plan = 2 ^ 2

abbrev pub progress : ProviderCapabilities
progress = 2 ^ 3

abbrev pub approval_request : ProviderCapabilities
approval_request = 2 ^ 4

abbrev pub approval_response : ProviderCapabilities
approval_response = 2 ^ 5

abbrev pub user_input_request : ProviderCapabilities
user_input_request = 2 ^ 6

abbrev pub user_input_response : ProviderCapabilities
user_input_response = 2 ^ 7

abbrev pub prompt_submit : ProviderCapabilities
prompt_submit = 2 ^ 8

abbrev pub cancel : ProviderCapabilities
cancel = 2 ^ 9

abbrev pub control : ProviderCapabilities
control = 2 ^ 10

abbrev pub notification : ChannelCapabilities
notification = 2 ^ 0

abbrev pub session_view : ChannelCapabilities
session_view = 2 ^ 1

abbrev pub tool_view : ChannelCapabilities
tool_view = 2 ^ 2

abbrev pub plan_view : ChannelCapabilities
plan_view = 2 ^ 3

abbrev pub progress_view : ChannelCapabilities
progress_view = 2 ^ 4

abbrev pub rich_message : ChannelCapabilities
rich_message = 2 ^ 5

abbrev pub approval : ChannelCapabilities
approval = 2 ^ 6

abbrev pub choice_input : ChannelCapabilities
choice_input = 2 ^ 7

abbrev pub text_input : ChannelCapabilities
text_input = 2 ^ 8

abbrev pub form_input : ChannelCapabilities
form_input = 2 ^ 9

abbrev pub realtime_sync : ChannelCapabilities
realtime_sync = 2 ^ 10

abbrev pub remote_command : ChannelCapabilities
remote_command = 2 ^ 11
