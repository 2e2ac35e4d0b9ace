-- ===== src/Bridge.antt =====
-- agentpulse-bridge/src/bridge.rs and registry.rs: the orchestration of Providers and Channels.
pub mod State
pub mod Events
pub mod Actions
pub mod Subscription
pub mod Sync
pub mod Consistent
pub mod Reachable
pub mod Runtime
