-- ===== src/Channels/Native/Port/Written.antt =====
-- What a call of the Port of agentpulse-channels/native/src/port.rs makes of the queues, and what the
-- client then reads.
use agentpulse_rs.Common.{
  ◌<◌, ◌^◌, ◌≡◌, refl, List, none, some, Result, ok, err, arith, bind-ok, String, All,
}
use agentpulse_rs.Domain.Capability.{Flags}
use agentpulse_rs.Domain.Identifiers.{Formats, ReadsBack}
use agentpulse_rs.Bridge.State.{
  ChannelDelivery, deliver_event, deliver_session, deliver_session_baseline, deliver_session_sync,
}
use agentpulse_rs.Protocol.Codec.{Bytes, Serde, Rereads}
use agentpulse_rs.Protocol.Convert.{ProtocolMessage}
use agentpulse_rs.Protocol.RoundTrip.Capabilities.{AreMasks}
use agentpulse_rs.Channels.Native.Error.{NativeChannelPortError}
use agentpulse_rs.Channels.Native.Dto.{ServerMessageDto}
use agentpulse_rs.Channels.Native.Message.{NativeServerMessage}
use agentpulse_rs.Channels.Native.Codec.{Wire}
use agentpulse_rs.Channels.Native.RoundTrip.Scalars.{WritesValues}
use agentpulse_rs.Channels.Native.RoundTrip.{RereadsWire, MadeByServer}
use agentpulse_rs.Channels.Native.State.{Frame, PendingSubscription, DeliveryState}
use agentpulse_rs.Channels.Native.Port.{
  baseline_frames, sync_frames, prepared_baseline, prepared_sync, port_call,
}
use agentpulse_rs.Channels.Native.Port.Context.{PortResult}
use agentpulse_rs.Channels.Native.Port.Queues.{pending_of, waiting, waiting_for, commit_frames}
use agentpulse_rs.Channels.Native.Port.Frames.{Grows, IsRefused, Outcome}
use agentpulse_rs.Channels.Native.Port.Bounded.{frame_count, settled, port_call-Outcome}
use agentpulse_rs.Channels.Native.Port.Delivered.{IsDelivered, port_deliver-IsDelivered}
use agentpulse_rs.Channels.Native.Port.Joined.{
  Joins, same_Joins, put_all-Joins, waiting-ok, waiting_for-ok,
}
use agentpulse_rs.Channels.Native.Port.Refused.{IsDue, port_call-IsDue}
use agentpulse_rs.Channels.Native.Port.Told.{baseline_messages, sync_messages, IsMade}
use agentpulse_rs.Channels.Native.Port.Messages.{
  AreRead, baseline_frames-AreRead, sync_frames-AreRead,
}

module _ {Value : Type 0} (serde : Serde Value) (write_value : Value → Result String Bytes)
    (wire : Wire Value (ServerMessageDto Value)) (flags : Flags) (formats : Formats) where
  -- The frames of these messages join those of the subscription.
  pub record Answers (w : PendingSubscription) (ms : List NativeServerMessage) (s t : DeliveryState)
      : Type 0 where
    pub frames : List Frame
    pub read : AreRead serde write_value wire flags formats frames ms
    pub joined : Joins w frames s t

  -- What a delivery does that began in the first state, from the second state to the third: a
  -- single message is delivered; a baseline or a sync answers the subscription that was awaited when
  -- it began, which is to its session.
  abbrev pub IsWritten : ChannelDelivery → DeliveryState → DeliveryState → DeliveryState → Type 0
  IsWritten (deliver_event event route) start s t =
      IsDelivered serde write_value wire flags formats event.session_id
        (ProtocolMessage.agent_event event) (some route) s t
  IsWritten (deliver_session session) start s t =
      IsDelivered serde write_value wire flags formats session.id
        (ProtocolMessage.agent_session session) none s t
  IsWritten (deliver_session_baseline b) start s t =
      (w : PendingSubscription) × (pending_of start.client ≡ some w)
      × (w.session_id ≡ b.session.id)
      × Answers w (baseline_messages w.request_id (some b)) s t
  IsWritten (deliver_session_sync sync) start s t =
      (w : PendingSubscription) × (pending_of start.client ≡ some w)
      × All (λ r. r.event.session_id ≡ w.session_id) sync.events
      × Answers w (sync_messages w.request_id sync) s t

  -- A success writes the delivery in as many frames as it has messages and within the capacity; a
  -- refusal has its reason, and changes nothing or records that the queue is full.
  abbrev pub Writes :
      ChannelDelivery
      → DeliveryState
      → DeliveryState
      → DeliveryState × PortResult (Unit {0})
      → Type 0
  Writes d start s (t, ok u) = Grows (frame_count d) s t × IsWritten d start s t
  Writes d start s (t, err e) =
      IsRefused (frame_count d) s t e × IsDue serde write_value wire flags formats d start s e

  Outcome-Writes :
      (d : ChannelDelivery) (start s : DeliveryState) (x : DeliveryState × PortResult (Unit {0}))
      → Outcome (frame_count d) s x
      → ((t : DeliveryState) → x ≡ (t, ok tt) → IsWritten d start s t)
      → ((t : DeliveryState) (e : NativeChannelPortError)
          → x ≡ (t, err e)
          → IsDue serde write_value wire flags formats d start s e)
      → Writes d start s x
  Outcome-Writes d start s (t, ok u) o written due = (o, written t refl)
  Outcome-Writes d start s (t, err e) o written due = (o, due t e refl)

  commit_frames-Joins :
      (others : DeliveryState → DeliveryState) (s t : DeliveryState)
      (r : PortResult (PendingSubscription × List Frame))
      → commit_frames others r s ≡ (t, ok tt)
      → (w : PendingSubscription) × (fs : List Frame) × (r ≡ ok (w, fs)) × Joins w fs (others s) t
  commit_frames-Joins others s t (err e) h = absurd (ground arith)
  commit_frames-Joins others s t (ok (w, fs)) h = (w, fs, refl, put_all-Joins w fs (others s) t h)

  module _ (masks : AreMasks flags) (back : ReadsBack formats) (rereads : Rereads serde)
      (writes : WritesValues serde write_value flags formats)
      (same : RereadsWire wire (MadeByServer serde write_value flags formats)) where
    port_call-IsWritten :
        (others : DeliveryState → DeliveryState) (d : ChannelDelivery) (s t : DeliveryState)
        → IsMade formats d
        → port_call serde write_value wire flags formats others d s ≡ (t, ok tt)
        → IsWritten d s (settled others d s) t
    unfolding port_call
    port_call-IsWritten others (deliver_event event route) s t made e =
        port_deliver-IsDelivered serde write_value wire flags formats masks back rereads writes same
          event.session_id (ProtocolMessage.agent_event event) (some route) s t made e
    port_call-IsWritten others (deliver_session session) s t made e =
        port_deliver-IsDelivered serde write_value wire flags formats masks back rereads writes same
          session.id (ProtocolMessage.agent_session session) none s t made e
    port_call-IsWritten others (deliver_session_baseline b) s t made e =
        unfold prepared_baseline in
        let (w, fs, prepared, joined) = commit_frames-Joins others s t _ e in
        let (p, there, e1) = bind-ok (waiting_for b.session.id s) _ (w, fs) prepared in
        let (gs, written, e2) =
          bind-ok (baseline_frames serde write_value wire flags formats p.request_id b) _ (w, fs)
            e1 in
        let same_p : p ≡ w = ground arith in
        let same_frames : gs ≡ fs = ground arith in
        let (awaited, its) = waiting_for-ok b.session.id s p there in
        let read =
          baseline_frames-AreRead serde write_value wire flags formats masks back rereads writes
            same p.request_id b made gs written in
        (
          p,
          waiting-ok s p awaited,
          its,
          record {
            frames = gs;
            read = read;
            joined = same_Joins (others s) t same_p same_frames joined;
          },
        )
    port_call-IsWritten others (deliver_session_sync sync) s t made e =
        unfold prepared_sync in
        let (w, fs, prepared, joined) = commit_frames-Joins others s t _ e in
        let (p, awaited, e1) = bind-ok (waiting s) _ (w, fs) prepared in
        let (gs, written, e2) =
          bind-ok (sync_frames serde write_value wire flags formats p sync) _ (w, fs) e1 in
        let same_p : p ≡ w = ground arith in
        let same_frames : gs ≡ fs = ground arith in
        let (read, its) =
          sync_frames-AreRead serde write_value wire flags formats masks back rereads writes same p
            sync made gs written in
        (
          p,
          waiting-ok s p awaited,
          its,
          record {
            frames = gs;
            read = read;
            joined = same_Joins (others s) t same_p same_frames joined;
          },
        )

    -- A call of the Port either writes its delivery or refuses it. If it writes it, then the queues
    -- have one frame more for each message of the delivery, counted, and stay within the capacity.
    -- An event or a session is for a session that the client waits for or has, and its frame is the
    -- last of the queue it belongs to. The frames of a baseline or a sync come after those of the
    -- subscription that was awaited when the call began, if that is still so, and nothing else
    -- changes; all events of a sync are of that subscription's session. From these frames the
    -- client reads exactly the messages of the delivery, in order: the event or the session; the
    -- session and the pending interactions of a baseline, with the request of the subscription; the
    -- events of a sync before its baseline. It refuses it only with the error of preparing its
    -- frames, or because these do not fit, or because the subscription they are for is not the
    -- awaited one any more; then nothing changes, but for recording that the queue is full if they
    -- do not fit. This is against the state when the call takes the lock for the last time,
    -- whatever other threads have done before; its capacity is below 2^63, as a Rust collection is.
    -- What is delivered is made by the constructors of the domain, and the crates read back what
    -- they wrote.
    pub port_call-Writes :
        (others : DeliveryState → DeliveryState) (d : ChannelDelivery) (s : DeliveryState)
        → (settled others d s).capacity < 2 ^ 63
        → IsMade formats d
        → Writes d s
            (settled others d s)
            (port_call serde write_value wire flags formats others d s)
    port_call-Writes others d s small made =
        Outcome-Writes d s (settled others d s)
          (port_call serde write_value wire flags formats others d s)
          (port_call-Outcome serde write_value wire flags formats others d s small)
          (λ t e. port_call-IsWritten others d s t made e)
          (λ t x e. port_call-IsDue serde write_value wire flags formats others d s t x e)
