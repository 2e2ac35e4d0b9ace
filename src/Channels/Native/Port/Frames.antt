-- ===== src/Channels/Native/Port/Frames.antt =====
-- What the two ways of queueing frames in agentpulse-channels/native/src/port.rs do with the state.
use Prim.Native.Nat.{◌%◌}
use agentpulse_rs.Common.{
  ℕ, ◌+◌, ◌≤◌, ◌<◌, ◌^◌, ◌≡◌, refl, ◌∙◌, sym, subst, if◌then◌else◌, ap, ◌⊎◌, inl, inr, Bool, true,
  false, ◌&&◌, List, [], ◌∷◌, ◌++◌, Option, none, some, ok, err, ltb, leb, ◌==◌, arith, length,
  length-append, Bool-cases, Option-cases,
}
use agentpulse_rs.Domain.Value.{u64_end}
use agentpulse_rs.Domain.Session.{Uuid}
use agentpulse_rs.Channels.Native.Error.{NativeChannelPortError, no_active_client, queue_full}
use agentpulse_rs.Channels.Native.Validate.{same_text}
use agentpulse_rs.Channels.Native.State.{
  Frame, PendingSubscription, ActiveClient, DeliveryState, queued_len, saturating_add, client_len,
  pending_len, aborted, enqueue,
}
use agentpulse_rs.Channels.Native.Port.Context.{PortResult}
use agentpulse_rs.Channels.Native.Port.Queues.{
  put_frame, put_pending, put_outgoing, put_all, put_all_among, put_all_pending_among, put_among,
  set_pending, count_frames,
}

-- So many frames more, counted, within the capacity.
pub record Grows (n : ℕ) (s t : DeliveryState) : Type 0 where
  pub queued : queued_len t ≡ queued_len s + n
  pub counted : t.status.domain_frames ≡ (s.status.domain_frames + n) % u64_end
  pub bound : queued_len t ≤ s.capacity
  pub capacity : t.capacity ≡ s.capacity

-- A refusal changes nothing, or records that the queue is full, if so many frames do not fit.
abbrev pub IsRefused : ℕ → DeliveryState → DeliveryState → NativeChannelPortError → Type 0
IsRefused n s t e =
    (t ≡ s) ⊎ ((t ≡ aborted s) × (e ≡ queue_full s.capacity) × (s.capacity < queued_len s + n))

abbrev pub Outcome : ℕ → DeliveryState → DeliveryState × PortResult (Unit {0}) → Type 0
Outcome n s (t, ok u) = Grows n s t
Outcome n s (t, err e) = IsRefused n s t e

abbrev Step : Type 0
Step = DeliveryState × PortResult (Unit {0})

-- A test for room, one of two ways.
Outcome-if :
    (n : ℕ) (s : DeliveryState) (full : Bool) (t : DeliveryState)
    → (full ≡ true → s.capacity < queued_len s + n)
    → (full ≡ false → Grows n s t)
    → Outcome n s (if full then (aborted s, err (queue_full s.capacity)) else (t, ok tt))
Outcome-if n s true t full room = inr (refl, refl, full refl)
Outcome-if n s false t full room = room refl

pub put_outgoing_if :
    (f : Frame) (s : DeliveryState)
    → put_outgoing f s ≡ (
        if leb s.capacity (queued_len s)
        then (aborted s, err (queue_full s.capacity))
        else (count_frames 1 (record s { outgoing = s.outgoing ++ (f ∷ []) }), ok tt))
unfolding enqueue
put_outgoing_if f s = ground arith

put_outgoing-Outcome : (f : Frame) (s : DeliveryState) → Outcome 1 s (put_outgoing f s)
put_outgoing-Outcome f s = subst (Outcome 1 s) (sym (put_outgoing_if f s)) (
    Outcome-if 1 s (leb s.capacity (queued_len s)) _ (λ full. ground arith)
      (λ room. record {
        queued = omega (arith, length-append s.outgoing (f ∷ []));
        counted = refl;
        bound = ground (arith, length-append s.outgoing (f ∷ []));
        capacity = refl;
      }))

-- The client has another pending subscription, which is longer by so much.
set_pending-Grows :
    (n : ℕ) (p p' : PendingSubscription) (c : ActiveClient) (s : DeliveryState)
    → s.client ≡ some c
    → c.pending ≡ some p
    → length p'.frames + length p'.trailing_frames ≡ length p.frames + length p.trailing_frames + n
    → queued_len s + n ≤ s.capacity
    → Grows n s (count_frames n (set_pending p' c s))
set_pending-Grows n p p' c s here there longer room =
    let was : client_len s.client ≡ length p.frames + length p.trailing_frames =
      ap client_len here ∙ ap pending_len there in
    record { queued = omega arith; counted = refl; bound = omega arith; capacity = refl }

put_pending-Outcome :
    (f : Frame) (p : PendingSubscription) (c : ActiveClient) (s : DeliveryState)
    → s.client ≡ some c
    → c.pending ≡ some p
    → Outcome 1 s (put_pending f p c s)
put_pending-Outcome f p c s here there =
    Outcome-if 1 s (leb s.capacity (queued_len s)) _ (λ full. ground arith)
      (λ room.
        set_pending-Grows 1 p (longer p.sync_delivered) c s here there (grown p.sync_delivered)
          (ground arith))
  where
    longer : Bool → PendingSubscription
    longer b =
        if b
        then record p { trailing_frames = p.trailing_frames ++ (f ∷ []) }
        else record p { frames = p.frames ++ (f ∷ []) }

    grown :
        (b : Bool)
        → length (longer b).frames + length (longer b).trailing_frames
          ≡ length p.frames + length p.trailing_frames + 1
    grown true = omega (arith, length-append p.trailing_frames (f ∷ []))
    grown false = omega (arith, length-append p.frames (f ∷ []))

-- A frame joins the pending subscription or the output.
pub put_frame-Outcome :
    (k : Uuid) (f : Frame) (c : ActiveClient) (s : DeliveryState)
    → s.client ≡ some c
    → Outcome 1 s (put_frame k f c s)
unfolding put_frame
put_frame-Outcome k f c s here = elim (Option-cases c.pending) [
  | inl none_there ↦ rw none_there (put_outgoing-Outcome f s)
  | inr (p, there) ↦
      subst (λ o. Outcome 1 s (put_among k f c o s)) (sym there) (among p there (p.session_id == k))
]
  where
    among :
        (p : PendingSubscription)
        → c.pending ≡ some p
        → (b : Bool) → Outcome 1 s (if b then put_pending f p c s else put_outgoing f s)
    among p there true = put_pending-Outcome f p c s here there
    among p there false = put_outgoing-Outcome f s

module _ (w : PendingSubscription) (fs : List Frame) (s : DeliveryState) where
  put_all_pending :
      (c : ActiveClient) (o : Option PendingSubscription)
      → s.client ≡ some c
      → c.pending ≡ o
      → queued_len s + length fs ≤ s.capacity
      → Outcome (length fs) s (put_all_pending_among w fs c o s)
  put_all_pending c none here there room = inl refl
  put_all_pending c (some p) here there room =
      same (p.session_id == w.session_id && same_text p.request_id w.request_id)
    where
      p' : PendingSubscription
      p' = record p { frames = p.frames ++ fs; sync_delivered = true }

      same :
          (b : Bool)
          → Outcome (length fs) s (
              if b
              then (count_frames (length fs) (set_pending p' c s), ok tt)
              else (s, err no_active_client))
      same true =
          set_pending-Grows (length fs) p p' c s here there
            (omega (arith, length-append p.frames fs)) room
      same false = inl refl

  put_all_client :
      (o : Option ActiveClient)
      → s.client ≡ o
      → queued_len s + length fs ≤ s.capacity
      → Outcome (length fs) s (put_all_among w fs o s)
  put_all_client none here room = inl refl
  put_all_client (some c) here room = put_all_pending c c.pending here refl room

  -- All frames of a baseline or a sync join the pending subscription, or none.
  pub put_all-Outcome : s.capacity < 2 ^ 63 → Outcome (length fs) s (put_all w fs s)
  unfolding put_all
  put_all-Outcome small = tested (Bool-cases (ltb s.capacity sum))
    where
      sum : ℕ
      sum = saturating_add (queued_len s) (length fs)

      tested :
          (ltb s.capacity sum ≡ true) ⊎ (ltb s.capacity sum ≡ false)
          → Outcome (length fs) s (
              if ltb s.capacity sum
              then (aborted s, err (queue_full s.capacity))
              else put_all_among w fs s.client s)
      tested (inl full) = rw full (inr (refl, refl, ground arith))
      tested (inr room) = rw room (put_all_client s.client refl (ground arith))
