-- ===== src/Channels/Native/Port/Joined.antt =====
-- How the frames of a baseline or a sync join those of a subscription that
-- agentpulse-channels/native/src/port.rs awaits.
use agentpulse_rs.Common.{
  ◌+◌, ◌≡◌, refl, Bool, true, false, ◌&&◌, List, ◌++◌, Option, none, some, ok, err, ltb, ◌==◌,
  if◌then◌else◌, arith, length, bind-ok, subst, ==_iff,
}
use Prim.Native.Nat.{◌%◌}
use agentpulse_rs.Domain.Value.{u64_end}
use agentpulse_rs.Domain.Session.{Uuid}
use agentpulse_rs.Channels.Native.Error.{no_active_client, queue_full, session_not_subscribed}
use agentpulse_rs.Channels.Native.Validate.{same_text}
use agentpulse_rs.Channels.Native.Validate.Laws.{same_text_eq}
use agentpulse_rs.Channels.Native.State.{
  Frame, PendingSubscription, ActiveClient, DeliveryState, queued_len, saturating_add, aborted,
}
use agentpulse_rs.Channels.Native.Port.Context.{PortResult}
use agentpulse_rs.Channels.Native.Port.Queues.{
  put_all, put_all_among, put_all_pending_among, set_pending, count_frames, waiting, waiting_for,
  pending_of,
}

-- The client awaits the same subscription still. The frames come after those it has, they are
-- counted, its baseline is now there, and nothing else changes.
pub record Joins (w : PendingSubscription) (fs : List Frame) (s t : DeliveryState) : Type 0 where
  pub client : ActiveClient
  pub here : s.client ≡ some client
  pub pending : PendingSubscription
  pub there : client.pending ≡ some pending
  pub same_session : pending.session_id ≡ w.session_id
  pub same_request : pending.request_id ≡ w.request_id
  pub after : t ≡ (
      let status = s.status in
      record s {
        client = some (record client {
          pending = some (record pending { frames = pending.frames ++ fs; sync_delivered = true });
        });
        status = record status { domain_frames = (status.domain_frames + length fs) % u64_end };
      })

module _ (w : PendingSubscription) (fs : List Frame) (s t : DeliveryState) where
  pending_Joins :
      (c : ActiveClient) (o : Option PendingSubscription)
      → s.client ≡ some c
      → c.pending ≡ o
      → put_all_pending_among w fs c o s ≡ (t, ok tt)
      → Joins w fs s t
  pending_Joins c none here there e = absurd (ground arith)
  pending_Joins c (some p) here there e =
      same (p.session_id == w.session_id && same_text p.request_id w.request_id) refl e
    where
      p' : PendingSubscription
      p' = record p { frames = p.frames ++ fs; sync_delivered = true }

      same :
          (b : Bool)
          → (p.session_id == w.session_id && same_text p.request_id w.request_id) ≡ b
          → Path
              (DeliveryState × PortResult (Unit {0}))
              (if b
                then (count_frames (length fs) (set_pending p' c s), ok tt)
                else (s, err no_active_client))
              (t, ok tt)
          → Joins w fs s t
      same false q h = absurd (ground arith)
      same true q h =
          let same_k : (p.session_id == w.session_id) ≡ true = ground arith in
          let same_r : same_text p.request_id w.request_id ≡ true = ground arith in
          record {
            client = c;
            here = here;
            pending = p;
            there = there;
            same_session = (==_iff p.session_id w.session_id).0 same_k;
            same_request = same_text_eq p.request_id w.request_id same_r;
            after = ground arith;
          }

  client_Joins :
      (o : Option ActiveClient)
      → s.client ≡ o
      → put_all_among w fs o s ≡ (t, ok tt)
      → Joins w fs s t
  client_Joins none here e = absurd (ground arith)
  client_Joins (some c) here e = pending_Joins c c.pending here refl e

  pub put_all-Joins : put_all w fs s ≡ (t, ok tt) → Joins w fs s t
  unfolding put_all
  put_all-Joins e = tested (ltb s.capacity (saturating_add (queued_len s) (length fs))) e
    where
      tested :
          (full : Bool)
          → Path
              (DeliveryState × PortResult (Unit {0}))
              (if full
                then (aborted s, err (queue_full s.capacity))
                else put_all_among w fs s.client s)
              (t, ok tt)
          → Joins w fs s t
      tested true h = absurd (ground arith)
      tested false h = client_Joins s.client refl h

-- The subscription that a call finds awaited.
pub waiting_for-ok :
    (k : Uuid) (s : DeliveryState) (p : PendingSubscription)
    → waiting_for k s ≡ ok p
    → (waiting s ≡ ok p) × (p.session_id ≡ k)
waiting_for-ok k s p e =
    let (q, there, e1) = bind-ok (waiting s) _ p e in
    let (same_k, same_p) = tested q (q.session_id == k) e1 in
    (
      ground arith,
      subst (λ (x : PendingSubscription). x.session_id ≡ k) same_p
          ((==_iff q.session_id k).0 same_k),
    )
  where
    tested :
        (q : PendingSubscription) (b : Bool)
        → Path
            (PortResult PendingSubscription)
            (if b then ok q else err (session_not_subscribed k))
            (ok p)
        → (b ≡ true) × (q ≡ p)
    tested q true h = (refl, ground arith)
    tested q false h = absurd (ground arith)

pub waiting-ok :
    (s : DeliveryState) (p : PendingSubscription) → waiting s ≡ ok p → pending_of s.client ≡ some p
waiting-ok s p e = ground arith

pub same_Joins :
    {w p : PendingSubscription} {fs gs : List Frame} (s t : DeliveryState)
    → p ≡ w
    → gs ≡ fs
    → Joins w fs s t
    → Joins p gs s t
same_Joins s t same_p same_frames joined = rw (same_p, same_frames) joined
