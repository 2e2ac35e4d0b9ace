-- ===== src/Aggregate.antt =====
-- agentpulse-core/src/aggregate.rs: the session aggregate, its operations and their properties.
pub mod State
pub mod Apply
pub mod Replay
pub mod Frame
pub mod Atomic
pub mod Log
pub mod Retention
pub mod Pages
pub mod Numbering
pub mod RoundTrip
pub mod Invariant
pub mod Projection
