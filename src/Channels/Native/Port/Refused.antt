-- ===== src/Channels/Native/Port/Refused.antt =====
-- Why a call of the Port of agentpulse-channels/native/src/port.rs is refused.
use agentpulse_rs.Common.{
  ℕ, ◌+◌, ◌<◌, ◌≡◌, ◌⊎◌, inl, inr, refl, ◌∙◌, sym, Bool, true, false, ◌&&◌, List, ◌++◌, Option,
  none, some, Result, ok, err, ltb, leb, ◌==◌, if◌then◌else◌, arith, length, String,
}
use agentpulse_rs.Domain.Session.{Uuid}
use agentpulse_rs.Domain.Capability.{Flags}
use agentpulse_rs.Domain.Identifiers.{Formats}
use agentpulse_rs.Routing.{ChannelEventRoute}
use agentpulse_rs.Bridge.State.{
  ChannelDelivery, deliver_event, deliver_session, deliver_session_baseline, deliver_session_sync,
}
use agentpulse_rs.Protocol.Codec.{Bytes, Serde}
use agentpulse_rs.Protocol.Convert.{ProtocolMessage}
use agentpulse_rs.Channels.Native.Error.{NativeChannelPortError, no_active_client, queue_full}
use agentpulse_rs.Channels.Native.Dto.{ServerMessageDto}
use agentpulse_rs.Channels.Native.Codec.{Wire}
use agentpulse_rs.Channels.Native.Validate.{same_text}
use agentpulse_rs.Channels.Native.State.{
  Frame, PendingSubscription, ActiveClient, DeliveryState, queued_len, saturating_add, aborted,
}
use agentpulse_rs.Channels.Native.Port.{
  prepared, prepared_baseline, prepared_sync, port_deliver, port_call,
}
use agentpulse_rs.Channels.Native.Port.Context.{PortResult}
use agentpulse_rs.Channels.Native.Port.Queues.{
  pending_of, set_pending, count_frames, put_outgoing, put_pending, put_among, put_frame,
  put_prepared, put_all, put_all_among, put_all_pending_among, commit_frames,
}
use agentpulse_rs.Channels.Native.Port.Frames.{put_outgoing_if}
use agentpulse_rs.Channels.Native.Port.Bounded.{settled}

abbrev Step : Type 0
Step = DeliveryState × PortResult (Unit {0})

-- So many frames do not fit.
abbrev pub IsFull : ℕ → DeliveryState → NativeChannelPortError → Type 0
IsFull n s e = (e ≡ queue_full s.capacity) × (s.capacity < queued_len s + n)

-- The subscription is the one that is awaited.
abbrev pub is_still : PendingSubscription → Option PendingSubscription → Bool
is_still w none = false
is_still w (some p) = p.session_id == w.session_id && same_text p.request_id w.request_id

-- The frames of a baseline or a sync could not be written, do not fit, or are no longer awaited.
abbrev pub IsLost :
    PortResult (PendingSubscription × List Frame) → DeliveryState → NativeChannelPortError → Type 0
IsLost (err x) s e = x ≡ e
IsLost (ok (w, fs)) s e =
    IsFull (length fs) s e ⊎ ((e ≡ no_active_client) × (is_still w (pending_of s.client) ≡ false))

module _ (s t : DeliveryState) (e : NativeChannelPortError) where
  if-IsFull :
      (n : ℕ) (full : Bool) (u : DeliveryState)
      → (full ≡ true → s.capacity < queued_len s + n)
      → Path Step (if full then (aborted s, err (queue_full s.capacity)) else (u, ok tt)) (t, err e)
      → IsFull n s e
  if-IsFull n true u more h = (ground arith, more refl)
  if-IsFull n false u more h = absurd (ground arith)

  put_outgoing-IsFull : (f : Frame) → put_outgoing f s ≡ (t, err e) → IsFull 1 s e
  put_outgoing-IsFull f h =
      if-IsFull 1 (leb s.capacity (queued_len s)) _ (λ full. ground arith)
        (sym (put_outgoing_if f s) ∙ h)

  put_pending-IsFull :
      (f : Frame) (p : PendingSubscription) (c : ActiveClient)
      → put_pending f p c s ≡ (t, err e)
      → IsFull 1 s e
  put_pending-IsFull f p c h =
      if-IsFull 1 (leb s.capacity (queued_len s)) _ (λ full. ground arith) h

  put_frame-IsFull :
      (k : Uuid) (f : Frame) (c : ActiveClient) → put_frame k f c s ≡ (t, err e) → IsFull 1 s e
  unfolding put_frame
  put_frame-IsFull k f c h = among c.pending h
    where
      within :
          (p : PendingSubscription) (b : Bool)
          → (if b then put_pending f p c s else put_outgoing f s) ≡ (t, err e)
          → IsFull 1 s e
      within p true h' = put_pending-IsFull f p c h'
      within p false h' = put_outgoing-IsFull f h'

      among : (o : Option PendingSubscription) → put_among k f c o s ≡ (t, err e) → IsFull 1 s e
      among none h' = put_outgoing-IsFull f h'
      among (some p) h' = within p (p.session_id == k) h'

  module _ (w : PendingSubscription) (fs : List Frame) where
    pending_lost :
        (c : ActiveClient) (o : Option PendingSubscription)
        → put_all_pending_among w fs c o s ≡ (t, err e)
        → (e ≡ no_active_client) × (is_still w o ≡ false)
    pending_lost c none h = (ground arith, refl)
    pending_lost c (some p) h =
        same (p.session_id == w.session_id && same_text p.request_id w.request_id) h
      where
        p' : PendingSubscription
        p' = record p { frames = p.frames ++ fs; sync_delivered = true }

        same :
            (b : Bool)
            → Path Step
                (if b
                  then (count_frames (length fs) (set_pending p' c s), ok tt)
                  else (s, err no_active_client))
                (t, err e)
            → (e ≡ no_active_client) × (b ≡ false)
        same true q = absurd (ground arith)
        same false q = (ground arith, refl)

    client_lost :
        (o : Option ActiveClient)
        → put_all_among w fs o s ≡ (t, err e)
        → (e ≡ no_active_client) × (is_still w (pending_of o) ≡ false)
    client_lost none h = (ground arith, refl)
    client_lost (some c) h = pending_lost c c.pending h

    put_all-IsLost : put_all w fs s ≡ (t, err e) → IsLost (ok (w, fs)) s e
    unfolding put_all
    put_all-IsLost h = tested (ltb s.capacity sum) refl h
      where
        sum : ℕ
        sum = saturating_add (queued_len s) (length fs)

        tested :
            (full : Bool)
            → ltb s.capacity sum ≡ full
            → Path Step
                (if full
                  then (aborted s, err (queue_full s.capacity))
                  else put_all_among w fs s.client s)
                (t, err e)
            → IsLost (ok (w, fs)) s e
        tested true q h' = inl (ground arith, ground arith)
        tested false q h' = inr (client_lost s.client h')

commit_frames-IsLost :
    (others : DeliveryState → DeliveryState) (s t : DeliveryState) (e : NativeChannelPortError)
    (r : PortResult (PendingSubscription × List Frame))
    → commit_frames others r s ≡ (t, err e)
    → IsLost r (others s) e
commit_frames-IsLost others s t e (err x) h = ground arith
commit_frames-IsLost others s t e (ok (w, fs)) h = put_all-IsLost (others s) t e w fs h

module _ {Value : Type 0} (serde : Serde Value) (write_value : Value → Result String Bytes)
    (wire : Wire Value (ServerMessageDto Value)) (flags : Flags) (formats : Formats) where
  abbrev IsUndelivered :
      Uuid
      → ProtocolMessage
      → Option ChannelEventRoute
      → DeliveryState
      → NativeChannelPortError
      → Type 0
  IsUndelivered k m route s e =
      (prepared serde write_value wire flags formats s k m route ≡ err e) ⊎ IsFull 1 s e

  -- A delivery is refused because its frames cannot be written, do not fit, or are not awaited.
  abbrev pub IsDue :
      ChannelDelivery → DeliveryState → DeliveryState → NativeChannelPortError → Type 0
  IsDue (deliver_event event route) start s e =
      IsUndelivered event.session_id (ProtocolMessage.agent_event event) (some route) s e
  IsDue (deliver_session session) start s e =
      IsUndelivered session.id (ProtocolMessage.agent_session session) none s e
  IsDue (deliver_session_baseline b) start s e =
      IsLost (prepared_baseline serde write_value wire flags formats b start) s e
  IsDue (deliver_session_sync sync) start s e =
      IsLost (prepared_sync serde write_value wire flags formats sync start) s e

  port_deliver-IsUndelivered :
      (k : Uuid) (m : ProtocolMessage) (route : Option ChannelEventRoute) (s t : DeliveryState)
      (e : NativeChannelPortError)
      → port_deliver serde write_value wire flags formats k m route s ≡ (t, err e)
      → IsUndelivered k m route s e
  unfolding port_deliver
  port_deliver-IsUndelivered k m route s t e h =
      put (prepared serde write_value wire flags formats s k m route) h
    where
      put :
          (r : PortResult (ActiveClient × Frame))
          → put_prepared k r s ≡ (t, err e)
          → (r ≡ err e) ⊎ IsFull 1 s e
      put (err x) h' = inl (ground arith)
      put (ok (c, f)) h' = inr (put_frame-IsFull s t e k f c h')

  pub port_call-IsDue :
      (others : DeliveryState → DeliveryState) (d : ChannelDelivery) (s t : DeliveryState)
      (e : NativeChannelPortError)
      → port_call serde write_value wire flags formats others d s ≡ (t, err e)
      → IsDue d s (settled others d s) e
  unfolding port_call
  port_call-IsDue others (deliver_event event route) s t e h =
      port_deliver-IsUndelivered event.session_id (ProtocolMessage.agent_event event) (some route) s
        t e h
  port_call-IsDue others (deliver_session session) s t e h =
      port_deliver-IsUndelivered session.id (ProtocolMessage.agent_session session) none s t e h
  port_call-IsDue others (deliver_session_baseline b) s t e h =
      commit_frames-IsLost others s t e _ h
  port_call-IsDue others (deliver_session_sync sync) s t e h = commit_frames-IsLost others s t e _ h
