-- ===== src/Lib.antt =====
-- A verification library of AgentPulse: the domain core of agentpulse-core, the orchestration of
-- agentpulse-bridge, the JSON protocol of agentpulse-protocol, and the messages and queues of the
-- Native Channel of agentpulse-channels.
--
-- The program. A Provider (an adapter of a coding agent) emits normalized events. The Bridge
-- (agentpulse-bridge/src/bridge.rs) checks each event against the routing policy
-- (agentpulse-core/src/routing.rs), reduces it into the aggregate of its session
-- (agentpulse-core/src/aggregate.rs) and delivers it to the Channels that subscribe to the session.
-- A Channel sends back Actions, responses to interactions and commands, which the Bridge checks
-- again and hands to the Provider that owns the session. A Channel joins by `subscribe`, with a
-- baseline, or by `sync_session`, page by page from the retained events.
--
-- The Native Channel (agentpulse-channels/native/src) is such a Channel: the Bridge calls its Port
-- (port.rs), which writes each delivery as a frame (protocol.rs), with a message of
-- agentpulse-protocol inside, and puts it into bounded queues (state.rs), from which a worker sends
-- it to the one client.
--
-- The files, by the code that they model:
--   Common            the standard library's Result, Option, Vec, BTreeMap and BTreeSet
--   Domain/Error, Value, Session, Plan, Progress, Capability, Endpoint, Command, Interaction, Event
--                     the files of agentpulse-core/src of these names; Domain/Interaction has
--                     `validate_response` (Validate), what it accepts (Answers) and forms (Forms)
--   Routing           agentpulse-core/src/routing.rs; Routing/Agreement relates its decisions
--   Aggregate/State, Apply, Replay
--                     agentpulse-core/src/aggregate.rs: the state, `apply`, replay and catch-up
--   Aggregate/Log     how the operations produce an aggregate, with the log of what was applied
--   Aggregate/Atomic, Frame, Invariant, Retention, Pages, Numbering, Projection, RoundTrip
--                     theorems on aggregates and their logs
--   Bridge/State      agentpulse-bridge/src/registry.rs, port.rs, and the state of bridge.rs
--   Bridge/Events     `handle_provider_event`; Advance, Planned, Deliveries, Attempts,
--                     Handled, Received and FanOut are about it
--   Bridge/Actions    `handle_interaction_response`, `handle_command`; Checks and Handed
--                     are about them
--   Bridge/Subscription
--                     `subscribe`, `unsubscribe`, `unsubscribe_channel`; Effects, RoundTrip
--   Bridge/Sync       `sync_session`; Progress, Delivered and CatchUp are about it
--   Bridge/Consistent, Reachable
--                     the invariant of the Bridge, and its preservation by every operation
--   Bridge/Runtime    agentpulse-bridge/src/runtime.rs: State has the Host, its permits and
--                     registrations, Ingress the handles, Host its own subscriptions,
--                     Lifecycle `start` and `stop`; Revoked, Permanent and Steps
--                     are about the permits, and Stopping about the adapters
--   Domain/Identifiers, Constructed
--                     agentpulse-core/src/id.rs, and what the constructors of the domain ensure
--   Protocol/Dto      agentpulse-protocol/src/v2/dto.rs: the shape of the JSON messages
--   Protocol/Convert  v2/convert.rs: `encode_envelope`, `decode_envelope` and their parts
--   Protocol/Decimal  v2/scalar.rs: counters as strings
--   Protocol/Codec    codec.rs: `encode_json`, `decode_json`; RoundTrip and Sound carry its theorems
--   Channels/Native/Message, Error, Validate, Dto, Convert, Codec
--                     agentpulse-channels/native/src/protocol.rs and error.rs: the messages, their
--                     checks and their JSON; Channels/Native/RoundTrip, Validate/Laws and
--                     Validate/Hello are about them
--   Channels/Native/State
--                     state.rs and status.rs there: the queues between the Bridge and the client
--   Channels/Native/Port
--                     port.rs there: Context and Queues are parts of a call, Utf8 is the check of a
--                     frame; Told says what a delivery tells the client, and Frames, Bounded, Queued,
--                     Entitled, Delivered, Joined, Messages, Refused and Written are about
--                     the calls
--   Examples          concrete values, and the theorems at them
--
-- Conventions. An identifier (a UUID in agentpulse-core/src/id.rs) is a number, ordered as its
-- 128-bit value; a Timestamp counts nanoseconds from the earliest instant that it represents; a text
-- is the list of its code points. A counter of 64 bits is a number below 2^64, and where the source
-- uses a checked addition the model tests against 2^64. A method on `&mut self` returns the new
-- state beside its result; where the source returns early the state so far is returned. A BTreeMap
-- is an association list in key order. A loop is a recursion on the list that it runs over, so no
-- fuel is needed, but for `digits` of Protocol/Decimal, whose fuel exceeds the number that it
-- writes. Only `catch_up` of Bridge/Sync/CatchUp counts its calls: it is what a client does with
-- `sync_session`, not code of the repository. Errors keep the source's constructors; where the
-- source renders an identifier into a text, the model keeps the identifier.
--
-- Code that is not in the repository is a parameter. `Flags` has the `contains` and `union` of the
-- bitflags crate; only the theorems on JSON need a law of them. `Ports` has the answers of the
-- adapters behind the port traits: what an adapter answers depends on its identifier and on all the
-- calls that it got before. Each endpoint of the model keeps those calls, which stands for the
-- adapter's state.
--
-- `Formats` has what is used of the uuid crate and of RFC 3339 in the time crate, `Serde` what is used
-- of serde_json and of the implementations that serde derives; `ReadsBack` and `Rereads` state that
-- these crates read what they wrote, and `AreMasks` that a set of flags is a mask of bits. For the
-- Native Channel, `Wire` is the same for its two envelopes, `write_value` writes a JSON value, and
-- `RereadsWire` and `WritesValues` state that what is written is read back, of the envelopes around
-- the messages that the program encodes and of the values that it encodes a domain message to; these
-- hold no float, whose round trip serde_json does not promise here. What other threads do to the
-- shared queues between two locks of a call of the Port is an argument, `others`.
--
-- `Sources` has the callbacks of the adapters of a Runtime Host: which calls they make through their
-- handles, decided from the Bridge as they find it and from the callbacks before, and what they
-- answer. A permit, which the source shares by reference, is a number under which the Host keeps
-- whether it is active.
--
-- Not modelled: the texts of errors and the derived serialisations; of the Runtime Host its Drop
-- and the locks of SharedBridge, so that a call from within another and a call after the Host is
-- gone have no counterpart (their errors, bridge_access and host_dropped, never occur); of the
-- Native Channel its runtime.rs and config.rs, the worker that handles the messages of a client;
-- and the crates around the modelled ones (agentpulse-pairing, agentpulse-providers,
-- agentpulse-relay, agentpulse-transport, agentpulse-platform, agentpulse-host), which are sockets,
-- processes, files, cryptography and wiring for the most part.
pub mod Common
pub mod Domain
pub mod Routing
pub mod Aggregate
pub mod Bridge
pub mod Channels
pub mod Examples
pub mod Protocol
