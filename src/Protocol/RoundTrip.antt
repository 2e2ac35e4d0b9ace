-- ===== src/Protocol/RoundTrip.antt =====
pub mod Names
pub mod Scalars
pub mod Sessions
pub mod Requests
pub mod Responses
pub mod Capabilities
pub mod Events
pub mod Envelope
