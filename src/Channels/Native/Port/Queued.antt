-- ===== src/Channels/Native/Port/Queued.antt =====
-- Where a frame joins the queues of agentpulse-channels/native/src/port.rs.
use agentpulse_rs.Common.{
  ◌≡◌, refl, ap, ◌∙◌, sym, subst, inl, inr, Bool, true, false, List, [], ◌∷◌, ◌++◌, Option, none,
  some, ok, err, ◌==◌, leb, if◌then◌else◌, Bool-cases,
}
use agentpulse_rs.Domain.Session.{Uuid}
use agentpulse_rs.Channels.Native.Error.{queue_full}
use agentpulse_rs.Channels.Native.State.{
  Frame, PendingSubscription, ActiveClient, DeliveryState, queued_len, aborted,
}
use agentpulse_rs.Channels.Native.Port.Context.{PortResult}
use agentpulse_rs.Channels.Native.Port.Queues.{
  pending_of, put_outgoing, put_pending, put_among, put_frame,
}
use agentpulse_rs.Channels.Native.Port.Frames.{put_outgoing_if}

abbrev pub is_awaited : Uuid → Option PendingSubscription → Bool
is_awaited k none = false
is_awaited k (some p) = p.session_id == k

-- The frames that go out before those that wait for a subscription, and after its baseline.
abbrev pub held : Option PendingSubscription → List Frame
held none = []
held (some p) = p.frames

abbrev pub late : Option PendingSubscription → List Frame
late none = []
late (some p) = p.trailing_frames

abbrev pub has_baseline : Option PendingSubscription → Bool
has_baseline none = false
has_baseline (some p) = p.sync_delivered

-- The frame is the last of one queue and the other queues are the same: of the output if no
-- subscription to the session is awaited, else of what follows its baseline once that is there.
abbrev pub IsQueued : Uuid → Frame → DeliveryState → DeliveryState → Type 0
IsQueued k f s t =
    let p = pending_of s.client in
    let q = pending_of t.client in
    if is_awaited k p
    then (t.outgoing ≡ s.outgoing)
      × (if has_baseline p
          then (held q ≡ held p) × (late q ≡ late p ++ (f ∷ []))
          else (held q ≡ held p ++ (f ∷ [])) × (late q ≡ late p))
    else (t.outgoing ≡ s.outgoing ++ (f ∷ [])) × (q ≡ p)

abbrev pub Queues : Uuid → Frame → DeliveryState → DeliveryState × PortResult (Unit {0}) → Type 0
Queues k f s (t, ok u) = IsQueued k f s t
Queues k f s (t, err e) = Unit {0}

Queues-if :
    (k : Uuid) (f : Frame) (s : DeliveryState) (full : Bool) (t : DeliveryState)
    → IsQueued k f s t
    → Queues k f s (if full then (aborted s, err (queue_full s.capacity)) else (t, ok tt))
Queues-if k f s true t h = tt
Queues-if k f s false t h = h

put_outgoing-Queues :
    (k : Uuid) (f : Frame) (s : DeliveryState)
    → is_awaited k (pending_of s.client) ≡ false
    → Queues k f s (put_outgoing f s)
put_outgoing-Queues k f s apart =
    subst (Queues k f s) (sym (put_outgoing_if f s))
      (Queues-if k f s (leb s.capacity (queued_len s)) _ (rw apart (refl, refl)))

put_pending-Queues :
    (k : Uuid) (f : Frame) (p : PendingSubscription) (c : ActiveClient) (s : DeliveryState)
    → s.client ≡ some c
    → c.pending ≡ some p
    → (p.session_id == k) ≡ true
    → Queues k f s (put_pending f p c s)
put_pending-Queues k f p c s here there same =
    let was : pending_of s.client ≡ some p = ap pending_of here ∙ there in
    Queues-if k f s (leb s.capacity (queued_len s)) _ (
      rw (was, same)
        (elim (Bool-cases p.sync_delivered) [
          | inl synced ↦ rw synced (refl, (refl, refl))
          | inr early ↦ rw early (refl, (refl, refl))
        ]))

pub put_frame-Queues :
    (k : Uuid) (f : Frame) (c : ActiveClient) (s : DeliveryState)
    → s.client ≡ some c
    → Queues k f s (put_frame k f c s)
unfolding put_frame
put_frame-Queues k f c s here = among c.pending refl
  where
    pending_here : (o : Option PendingSubscription) → c.pending ≡ o → pending_of s.client ≡ o
    pending_here o there = ap pending_of here ∙ there

    within :
        (p : PendingSubscription)
        → c.pending ≡ some p
        → (b : Bool) → (p.session_id == k) ≡ b
        → Queues k f s (if b then put_pending f p c s else put_outgoing f s)
    within p there true same = put_pending-Queues k f p c s here there same
    within p there false other =
        put_outgoing-Queues k f s (ap (is_awaited k) (pending_here (some p) there) ∙ other)

    among : (o : Option PendingSubscription) → c.pending ≡ o → Queues k f s (put_among k f c o s)
    among none there = put_outgoing-Queues k f s (ap (is_awaited k) (pending_here none there))
    among (some p) there = within p there (p.session_id == k) refl
