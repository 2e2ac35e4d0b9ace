-- ===== src/Channels/Native/Convert.antt =====
-- agentpulse-channels/native/src/protocol.rs: `from_semantic` and `into_semantic`, the conversions
-- between messages and the shape of their JSON.
pub mod Names
pub mod Scalars
pub mod Client
pub mod Server
