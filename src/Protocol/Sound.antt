-- ===== src/Protocol/Sound.antt =====
-- What agentpulse-protocol/src/v2/convert.rs decodes, the constructors of the domain allow.
pub mod Scalars
pub mod Sessions
pub mod Requests
pub mod Responses
pub mod Commands
pub mod Events
pub mod Envelope
