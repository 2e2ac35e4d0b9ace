-- ===== src/Channels.antt =====
-- agentpulse-channels: the Channels of the repository.
pub mod Native
