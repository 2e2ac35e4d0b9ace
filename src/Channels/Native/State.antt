-- ===== src/Channels/Native/State.antt =====
-- agentpulse-channels/native/src/state.rs and status.rs: the bounded queues between the Bridge and
-- the connection of the one client. A frame is a Rust string, kept as its UTF-8 bytes. A request
-- identity is a text.
use agentpulse_rs.Common.{
  ℕ, ◌+◌, ◌-◌, ◌^◌, List, [], ◌∷◌, ◌++◌, Bool, Option, none, some, Result, ok, err, leb, ltb,
  length, if◌then◌else◌,
}
use agentpulse_rs.Common.Map.{Map}
use agentpulse_rs.Domain.Error.{Text}
use agentpulse_rs.Domain.Session.{Uuid}
use agentpulse_rs.Bridge.State.{IdSet}
use agentpulse_rs.Protocol.Codec.{Bytes}

abbrev pub Frame : Type 0
Frame = Bytes

pub data NativeChannelHealth : Type 0 where
  stopped listening connected failed : NativeChannelHealth

-- A socket address of the standard library is a number here; nothing looks into it.
pub record NativeChannelSnapshot : Type 0 where
  pub health : NativeChannelHealth
  pub local_address : Option ℕ
  pub client_id : Option Text
  pub connections : ℕ
  pub discoveries : ℕ
  pub subscriptions : ℕ
  pub domain_frames : ℕ
  pub frames_sent : ℕ
  pub frames_received : ℕ
  pub disconnects : ℕ
  pub last_error : Option Text

pub record PendingSubscription : Type 0 where
  pub request_id : Text
  pub session_id : Uuid
  pub frames : List Frame
  pub trailing_frames : List Frame
  pub sync_delivered : Bool

pub record ActiveClient : Type 0 where
  pub discovered : IdSet
  pub subscriptions : IdSet
  pub pending : Option PendingSubscription
  pub session_cursors : Map ℕ

-- Why the connection is to be closed; the source renders it into a text.
pub data AbortReason : Type 0 where
  output_limit : (capacity : ℕ) → AbortReason

pub record DeliveryState : Type 0 where
  pub client : Option ActiveClient
  pub outgoing : List Frame
  pub abort_reason : Option AbortReason
  pub capacity : ℕ
  pub status : NativeChannelSnapshot

-- `DeliveryState::new`.
unfoldable pub new_delivery : ℕ → NativeChannelSnapshot → DeliveryState
new_delivery capacity status = record {
  client = none;
  outgoing = [];
  abort_reason = none;
  capacity = capacity;
  status = status;
}

abbrev pub pending_len : Option PendingSubscription → ℕ
pending_len none = 0
pending_len (some p) = length p.frames + length p.trailing_frames

abbrev pub client_len : Option ActiveClient → ℕ
client_len none = 0
client_len (some c) = pending_len c.pending

abbrev pub queued_len : DeliveryState → ℕ
queued_len s = length s.outgoing + client_len s.client

abbrev pub usize_end : ℕ
usize_end = 2 ^ 64

-- `usize::saturating_add`.
abbrev pub saturating_add : ℕ → ℕ → ℕ
saturating_add a b = if ltb (a + b) usize_end then a + b else usize_end - 1

abbrev pub aborted : DeliveryState → DeliveryState
aborted s = record s { abort_reason = some (output_limit s.capacity) }

unfoldable pub enqueue : Frame → DeliveryState → DeliveryState × Result ℕ (Unit {0})
enqueue frame s =
    if leb s.capacity (queued_len s)
    then (aborted s, err s.capacity)
    else (record s { outgoing = s.outgoing ++ (frame ∷ []) }, ok tt)

unfoldable pub enqueue_batch : List Frame → DeliveryState → DeliveryState × Result ℕ (Unit {0})
enqueue_batch frames s =
    if ltb s.capacity (saturating_add (queued_len s) (length frames))
    then (aborted s, err s.capacity)
    else (record s { outgoing = s.outgoing ++ frames }, ok tt)

unfoldable pub clear_connection : DeliveryState → DeliveryState
clear_connection s = record s { client = none; outgoing = []; abort_reason = none }
