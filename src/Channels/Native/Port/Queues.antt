-- ===== src/Channels/Native/Port/Queues.antt =====
-- agentpulse-channels/native/src/port.rs: how frames join the queues.
use agentpulse_rs.Common.{
  ℕ, ◌+◌, true, ◌&&◌, List, [], ◌∷◌, ◌++◌, Option, none, some, ok, err, leb, ltb, ◌==◌, ◌>>=◌,
  ok_or, if◌then◌else◌, length,
}
use Prim.Native.Nat.{◌%◌}
use agentpulse_rs.Domain.Value.{u64_end}
use agentpulse_rs.Domain.Session.{Uuid}
use agentpulse_rs.Channels.Native.Error.{no_active_client, session_not_subscribed, queue_full}
use agentpulse_rs.Channels.Native.Validate.{same_text}
use agentpulse_rs.Channels.Native.State.{
  Frame, PendingSubscription, ActiveClient, DeliveryState, queued_len, saturating_add, aborted,
  enqueue,
}
use agentpulse_rs.Channels.Native.Port.Context.{PortResult}

-- `lock_status(&state.status).domain_frames += n`.
abbrev pub count_frames : ℕ → DeliveryState → DeliveryState
count_frames n s =
    let status = s.status in
    record s { status = record status { domain_frames = (status.domain_frames + n) % u64_end } }

abbrev pub pending_of : Option ActiveClient → Option PendingSubscription
pending_of none = none
pending_of (some c) = c.pending

-- The state with another pending subscription of its client.
abbrev pub set_pending : PendingSubscription → ActiveClient → DeliveryState → DeliveryState
set_pending p c s = record s { client = some (record c { pending = some p }) }

abbrev pub put_outgoing : Frame → DeliveryState → DeliveryState × PortResult (Unit {0})
put_outgoing frame s =
    let (s', answer) = enqueue frame s in
    elim answer [
      | ok u ↦ (count_frames 1 s', ok tt)
      | err capacity ↦ (s', err (queue_full capacity))
    ]

abbrev pub put_pending :
    Frame
    → PendingSubscription
    → ActiveClient
    → DeliveryState
    → DeliveryState × PortResult (Unit {0})
put_pending frame p c s =
    if leb s.capacity (queued_len s)
    then (aborted s, err (queue_full s.capacity))
    else let p' =
        if p.sync_delivered
        then record p { trailing_frames = p.trailing_frames ++ (frame ∷ []) }
        else record p { frames = p.frames ++ (frame ∷ []) } in
      (count_frames 1 (set_pending p' c s), ok tt)

abbrev pub put_among :
    Uuid
    → Frame
    → ActiveClient
    → Option PendingSubscription
    → DeliveryState
    → DeliveryState × PortResult (Unit {0})
put_among k frame c none s = put_outgoing frame s
put_among k frame c (some p) s =
    if p.session_id == k then put_pending frame p c s else put_outgoing frame s

-- A frame of the session joins the frames that wait for its subscription, or the output.
unfoldable pub put_frame :
    Uuid → Frame → ActiveClient → DeliveryState → DeliveryState × PortResult (Unit {0})
unfolding enqueue
put_frame k frame c s = put_among k frame c c.pending s

abbrev pub put_prepared :
    Uuid → PortResult (ActiveClient × Frame) → DeliveryState → DeliveryState × PortResult (Unit {0})
put_prepared k (err e) s = (s, err e)
put_prepared k (ok (client, frame)) s = put_frame k frame client s

-- The pending subscription that a baseline or a sync is for.
abbrev pub waiting : DeliveryState → PortResult PendingSubscription
waiting s = ok_or (pending_of s.client) no_active_client

abbrev pub waiting_for : Uuid → DeliveryState → PortResult PendingSubscription
waiting_for k s =
    waiting s >>= λ p. if p.session_id == k then ok p else err (session_not_subscribed k)

abbrev pub put_all_pending_among :
    PendingSubscription
    → List Frame
    → ActiveClient
    → Option PendingSubscription
    → DeliveryState
    → DeliveryState × PortResult (Unit {0})
put_all_pending_among w frames c none s = (s, err no_active_client)
put_all_pending_among w frames c (some p) s =
    let p' = record p { frames = p.frames ++ frames; sync_delivered = true } in
    if p.session_id == w.session_id && same_text p.request_id w.request_id
    then (count_frames (length frames) (set_pending p' c s), ok tt)
    else (s, err no_active_client)

abbrev pub put_all_among :
    PendingSubscription
    → List Frame
    → Option ActiveClient
    → DeliveryState
    → DeliveryState × PortResult (Unit {0})
put_all_among w frames none s = (s, err no_active_client)
put_all_among w frames (some c) s = put_all_pending_among w frames c c.pending s

-- The second part of a baseline and of a sync: the frames join those of the subscription `w`, if it
-- is still the pending one and if there is room.
unfoldable pub put_all :
    PendingSubscription → List Frame → DeliveryState → DeliveryState × PortResult (Unit {0})
unfolding same_text
put_all w frames s =
    if ltb s.capacity (saturating_add (queued_len s) (length frames))
    then (aborted s, err (queue_full s.capacity))
    else put_all_among w frames s.client s

abbrev pub commit_frames :
    (DeliveryState → DeliveryState)
    → PortResult (PendingSubscription × List Frame)
    → DeliveryState
    → DeliveryState × PortResult (Unit {0})
commit_frames others (err e) s = (others s, err e)
commit_frames others (ok (p, frames)) s = put_all p frames (others s)
