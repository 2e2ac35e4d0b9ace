-- ===== src/Bridge/Runtime.antt =====
-- agentpulse-bridge/src/runtime.rs: the Runtime Host, which owns a Bridge and the Sources of its
-- adapters, and the ingress handles that it gives to them.
pub mod State
pub mod Ingress
pub mod Host
pub mod Lifecycle
pub mod Revoked
pub mod Permanent
pub mod Steps
pub mod Stopping
