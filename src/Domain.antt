-- ===== src/Domain.antt =====
-- agentpulse-core: the domain types and their validation.
pub mod Error
pub mod Value
pub mod Session
pub mod Identifiers
pub mod Unique
pub mod Plan
pub mod Progress
pub mod Capability
pub mod Endpoint
pub mod Command
pub mod Interaction
pub mod Event
pub mod Constructed
