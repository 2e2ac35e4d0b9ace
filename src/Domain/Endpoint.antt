-- ===== src/Domain/Endpoint.antt =====
-- agentpulse-core/src/endpoint.rs: Provider and Channel descriptors.
use agentpulse_rs.Common.{Option, none, some}
use agentpulse_rs.Domain.Value.{NonEmptyText, Kind}
use agentpulse_rs.Domain.Session.{Uuid}
use agentpulse_rs.Domain.Capability.{ProviderCapabilities, ChannelCapabilities}

pub record ProviderDescriptor : Type 0 where
  pub id : Uuid
  pub kind : Kind
  pub display_name : NonEmptyText
  pub version : Option NonEmptyText
  pub capabilities : ProviderCapabilities

pub record ChannelDescriptor : Type 0 where
  pub id : Uuid
  pub kind : Kind
  pub display_name : NonEmptyText
  pub version : Option NonEmptyText
  pub capabilities : ChannelCapabilities

unfoldable pub new_provider_descriptor :
    Uuid → Kind → NonEmptyText → ProviderCapabilities → ProviderDescriptor
new_provider_descriptor id kind display_name capabilities = record {
  id = id;
  kind = kind;
  display_name = display_name;
  version = none;
  capabilities = capabilities;
}

unfoldable pub new_channel_descriptor :
    Uuid → Kind → NonEmptyText → ChannelCapabilities → ChannelDescriptor
new_channel_descriptor id kind display_name capabilities = record {
  id = id;
  kind = kind;
  display_name = display_name;
  version = none;
  capabilities = capabilities;
}

unfoldable pub with_provider_version : ProviderDescriptor → NonEmptyText → ProviderDescriptor
with_provider_version d version = record d { version = some version }

unfoldable pub with_channel_version : ChannelDescriptor → NonEmptyText → ChannelDescriptor
with_channel_version d version = record d { version = some version }
