-- ===== src/Protocol.antt =====
-- agentpulse-protocol: the versioned JSON messages.
pub mod Error
pub mod Decimal
pub mod Dto
pub mod Convert
pub mod RoundTrip
pub mod Sound
pub mod Codec
