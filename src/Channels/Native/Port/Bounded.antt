-- ===== src/Channels/Native/Port/Bounded.antt =====
-- What a call of the Port of agentpulse-channels/native/src/port.rs queues, and for whom.
use agentpulse_rs.Common.{
  ℕ, suc, ◌+◌, ◌<◌, ◌^◌, ◌≡◌, refl, ◌∙◌, sym, subst, ap, inl, List, [], ◌∷◌, ◌++◌, Option, none,
  some, Result, ok, err, arith, length, length-append, try_map, bind-ok, String, ok_or,
}
use agentpulse_rs.Domain.Error.{Text}
use agentpulse_rs.Domain.Session.{Uuid}
use agentpulse_rs.Domain.Identifiers.{Formats}
use agentpulse_rs.Domain.Capability.{Flags}
use agentpulse_rs.Routing.{ChannelEventRoute}
use agentpulse_rs.Bridge.State.{
  ChannelSessionBaseline, ChannelSessionSync, ChannelDelivery, deliver_event, deliver_session,
  deliver_session_baseline, deliver_session_sync,
}
use agentpulse_rs.Protocol.Convert.{ProtocolMessage}
use agentpulse_rs.Protocol.Codec.{Bytes, Serde}
use agentpulse_rs.Channels.Native.Error.{no_active_client}
use agentpulse_rs.Channels.Native.Dto.{ServerMessageDto}
use agentpulse_rs.Channels.Native.Message.{NativeDeliveryContext}
use agentpulse_rs.Channels.Native.Codec.{Wire}
use agentpulse_rs.Channels.Native.State.{Frame, PendingSubscription, ActiveClient, DeliveryState}
use agentpulse_rs.Channels.Native.Port.{
  prepared, port_deliver, baseline_frames, interaction_frame, event_frame, sync_frames,
  frames_of_baseline, prepared_baseline, prepared_sync, port_call, encoded_text,
}
use agentpulse_rs.Channels.Native.Port.Context.{PortResult, delivery_context}
use agentpulse_rs.Channels.Native.Port.Queues.{
  put_all, put_prepared, waiting, waiting_for, commit_frames,
}
use agentpulse_rs.Channels.Native.Port.Frames.{Outcome, put_frame-Outcome, put_all-Outcome}

try_map-length :
    {A B : Type 0} (f : A → PortResult B) (xs : List A) (ys : List B)
    → try_map f xs ≡ ok ys
    → length ys ≡ length xs
try_map-length f [] [] e = refl
try_map-length f [] (y ∷ ys) e = ground arith
try_map-length f (x ∷ xs) [] e = ground arith
try_map-length f (x ∷ xs) (y ∷ ys) e = ground (arith, try_map-length f xs ys)

abbrev pub baseline_count : Option ChannelSessionBaseline → ℕ
baseline_count none = 0
baseline_count (some b) = suc (length b.pending_interactions)

-- The number of frames that a delivery is written in.
abbrev pub frame_count : ChannelDelivery → ℕ
frame_count (deliver_event event route) = 1
frame_count (deliver_session session) = 1
frame_count (deliver_session_baseline b) = baseline_count (some b)
frame_count (deliver_session_sync sync) = length sync.events + baseline_count sync.baseline

-- The state when the call takes the lock for the last time.
abbrev pub settled :
    (DeliveryState → DeliveryState) → ChannelDelivery → DeliveryState → DeliveryState
settled others (deliver_event event route) s = s
settled others (deliver_session session) s = s
settled others _ s = others s

module _ {Value : Type 0} (serde : Serde Value) (write_value : Value → Result String Bytes)
    (wire : Wire Value (ServerMessageDto Value)) (flags : Flags) (formats : Formats) where
  port_deliver-Outcome :
      (k : Uuid) (m : ProtocolMessage) (route : Option ChannelEventRoute) (s : DeliveryState)
      → Outcome 1 s (port_deliver serde write_value wire flags formats k m route s)
  unfolding port_deliver
  port_deliver-Outcome k m route s =
      put (prepared serde write_value wire flags formats s k m route) refl
    where
      put :
          (r : PortResult (ActiveClient × Frame))
          → prepared serde write_value wire flags formats s k m route ≡ r
          → Outcome 1 s (put_prepared k r s)
      put (err e) refused = inl refl
      put (ok (c, f)) ready =
          let (client, here, more) = bind-ok (ok_or s.client no_active_client) _ (c, f) ready in
          let (context, chosen, e1) = bind-ok (delivery_context client k route) _ (c, f) more in
          put_frame-Outcome k f c s (ground arith)

  baseline_frames-length :
      (r : Text) (b : ChannelSessionBaseline) (fs : List Frame)
      → baseline_frames serde write_value wire flags formats r b ≡ ok fs
      → length fs ≡ baseline_count (some b)
  unfolding baseline_frames
  baseline_frames-length r b fs e =
      let framed = interaction_frame serde write_value wire flags formats r in
      let (f, first, e1) =
        bind-ok
          (encoded_text serde write_value wire flags formats
            (NativeDeliveryContext.subscription_session r)
            (ProtocolMessage.agent_session b.session))
          _ fs e in
      let (rest, pending, e2) = bind-ok (try_map framed b.pending_interactions) _ fs e1 in
      let ends : f ∷ rest ≡ fs = ground arith in
      ap length (sym ends) ∙ ap suc (try_map-length framed b.pending_interactions rest pending)

  frames_of_baseline-length :
      (r : Text) (o : Option ChannelSessionBaseline) (fs : List Frame)
      → frames_of_baseline serde write_value wire flags formats r o ≡ ok fs
      → length fs ≡ baseline_count o
  frames_of_baseline-length r none fs e = let ends : [] ≡ fs = ground arith in ap length (sym ends)
  frames_of_baseline-length r (some b) fs e = baseline_frames-length r b fs e

  sync_frames-length :
      (p : PendingSubscription) (sync : ChannelSessionSync) (fs : List Frame)
      → sync_frames serde write_value wire flags formats p sync ≡ ok fs
      → length fs ≡ length sync.events + baseline_count sync.baseline
  unfolding sync_frames
  sync_frames-length p sync fs e =
      let framed = event_frame serde write_value wire flags formats p.session_id in
      let (events, first, e1) = bind-ok (try_map framed sync.events) _ fs e in
      let (rest, last, e2) =
        bind-ok (frames_of_baseline serde write_value wire flags formats p.request_id sync.baseline)
          _ fs e1 in
      let ends : events ++ rest ≡ fs = ground arith in
      omega (
        arith,
        ap length ends,
        length-append events rest,
        try_map-length framed sync.events events first,
        frames_of_baseline-length p.request_id sync.baseline rest last,
      )

  commit_frames-Outcome :
      (others : DeliveryState → DeliveryState) (n : ℕ) (s : DeliveryState)
      → (others s).capacity < 2 ^ 63
      → (r : PortResult (PendingSubscription × List Frame))
      → ((p : PendingSubscription) (fs : List Frame) → r ≡ ok (p, fs) → length fs ≡ n)
      → Outcome n (others s) (commit_frames others r s)
  commit_frames-Outcome others n s small (err e) counted = inl refl
  commit_frames-Outcome others n s small (ok (p, fs)) counted =
      subst (λ m. Outcome m (others s) (put_all p fs (others s))) (counted p fs refl)
        (put_all-Outcome p fs (others s) small)

  -- A call of the Port either queues as many frames as its delivery has, counts them and stays
  -- within the capacity of the queue, or it fails and changes nothing, but for recording that the
  -- queue is full, if they do not fit. This is against the state when the call takes the lock for
  -- the last time, whatever other threads have done before; its capacity is below 2^63, as a Rust
  -- collection is.
  pub port_call-Outcome :
      (others : DeliveryState → DeliveryState) (d : ChannelDelivery) (s : DeliveryState)
      → (settled others d s).capacity < 2 ^ 63
      → Outcome
          (frame_count d)
          (settled others d s)
          (port_call serde write_value wire flags formats others d s)
  unfolding port_call
  port_call-Outcome others (deliver_event event route) s small =
      port_deliver-Outcome event.session_id (ProtocolMessage.agent_event event) (some route) s
  port_call-Outcome others (deliver_session session) s small =
      port_deliver-Outcome session.id (ProtocolMessage.agent_session session) none s
  port_call-Outcome others (deliver_session_baseline b) s small =
      commit_frames-Outcome others (baseline_count (some b)) s small
        (prepared_baseline serde write_value wire flags formats b s)
        (λ p fs e.
          unfold prepared_baseline in
          let (q, there, e1) = bind-ok (waiting_for b.session.id s) _ (p, fs) e in
          let (gs, written, e2) =
            bind-ok (baseline_frames serde write_value wire flags formats q.request_id b) _ (p, fs)
              e1 in
          let ends : gs ≡ fs = ground arith in
          ap length (sym ends) ∙ baseline_frames-length q.request_id b gs written)
  port_call-Outcome others (deliver_session_sync sync) s small =
      commit_frames-Outcome others (length sync.events + baseline_count sync.baseline) s small
        (prepared_sync serde write_value wire flags formats sync s)
        (λ p fs e.
          unfold prepared_sync in
          let (q, there, e1) = bind-ok (waiting s) _ (p, fs) e in
          let (gs, written, e2) =
            bind-ok (sync_frames serde write_value wire flags formats q sync) _ (p, fs) e1 in
          let ends : gs ≡ fs = ground arith in
          ap length (sym ends) ∙ sync_frames-length q sync gs written)
