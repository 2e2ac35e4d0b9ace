-- ===== src/Channels/Native.antt =====
-- agentpulse-channels/native/src: the Native Channel. Message has what client and server say,
-- Validate, Convert and Codec how it is checked and written, State the bounded queues between the
-- Bridge and the connection, and Port what the Bridge calls.
pub mod Error
pub mod Message
pub mod Validate
pub mod Dto
pub mod Convert
pub mod Codec
pub mod RoundTrip
pub mod State
pub mod Port
