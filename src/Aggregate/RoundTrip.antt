-- ===== src/Aggregate/RoundTrip.antt =====
-- Replay of agentpulse-core/src/aggregate.rs: an aggregate that retains all of its events is
-- rebuilt by replaying them.
use mathlib.Core.List.{reverse-cons}
use agentpulse_rs.Common.{
  ◌≡◌, refl, sym, ap, ◌∙◌, List, [], ◌∷◌, ◌++◌, reverse, Result, ok, err, arith, length, take_all,
  Result-cases, inl, inr, true, false, ◌+◌, if◌then◌else◌, subst, Bool-cases,
}
use agentpulse_rs.Domain.Event.{AgentEvent}
use agentpulse_rs.Aggregate.State.{
  SessionAggregate, SessionAggregateConfig, ReduceError, applied, already_applied, ApplyOutcome,
  last_sequence, from_initial_event_with_config,
}
use agentpulse_rs.Aggregate.Apply.{apply, record_event}
use agentpulse_rs.Aggregate.Atomic.{apply_lem, apply_atomic, validate_cursor-ok}
use agentpulse_rs.Domain.Event.Equality.{same_event, same_event_iff}
use agentpulse_rs.Aggregate.Replay.{apply_all, replay_with_config}
use agentpulse_rs.Aggregate.Log.{Reaches, begin, extend, retry, refuse}
use agentpulse_rs.Aggregate.Retention.{Reaches-Keeps}

-- A stream is applied in two parts.
pub apply_all-append :
    (es fs : List AgentEvent) (s t : SessionAggregate)
    → apply_all es s ≡ ok t
    → apply_all (es ++ fs) s ≡ apply_all fs t
unfolding apply_all
apply_all-append [] fs s t h = ground arith
apply_all-append (e ∷ es) fs s t h = ground (arith, apply_all-append es fs (apply e s).0 t)

replay_with_config-append :
    (es fs : List AgentEvent) (c : SessionAggregateConfig) (t : SessionAggregate)
    → replay_with_config es c ≡ ok t
    → replay_with_config (es ++ fs) c ≡ apply_all fs t
unfolding replay_with_config
replay_with_config-append [] fs c t h = cc
replay_with_config-append (e ∷ es) fs c t h =
    elim (Result-cases (from_initial_event_with_config e c)) [
      | inl (s, q) ↦
          rw (q, replay_with_config) (apply_all-append es fs s t (rw (q, replay_with_config) at h))
      | inr (x, q) ↦ ground arith
    ]

log-replay :
    {c : SessionAggregateConfig} {log : List AgentEvent} {s : SessionAggregate}
    → Reaches c log s
    → replay_with_config (reverse log) c ≡ ok s
unfolding replay_with_config apply_all
log-replay (begin e s h) = rw (h, replay_with_config)
log-replay {c} (extend {log = log} {s = s} e t r h) =
    ap (λ l. replay_with_config l c) (reverse-cons e log)
    ∙ replay_with_config-append (reverse log) (e ∷ []) c s (log-replay r)
    ∙ ground (arith, h)
log-replay (retry {s = s} e t r h) = rw (((apply_lem e s t).1 h).1) (log-replay r)
log-replay (refuse {s = s} e t x r h) =
    rw (sym (ap (λ p. p.0) h) ∙ apply_atomic e s x (ap (λ p. p.1) h)) (log-replay r)

-- Event sourcing: an aggregate that retains every event is rebuilt exactly, in every field, by
-- replaying the events that it retains.
pub replay-recent_events :
    {c : SessionAggregateConfig} {log : List AgentEvent} {s : SessionAggregate}
    → c.retain_all_events ≡ true
    → Reaches c log s
    → replay_with_config s.recent_events c ≡ ok s
replay-recent_events {c} {log} {s} all r =
    let kept : s.recent_events ≡ reverse log =
      (Reaches-Keeps r).recent_kept
      ∙ ground (arith, all, take_all (length log) log (omega arith)) in
    ap (λ l. replay_with_config l c) kept ∙ log-replay r

-- The log that a stream leaves behind, after the log so far: exact repeats of the last event are
-- dropped.
abbrev pub collapse : AgentEvent → List AgentEvent → List AgentEvent → List AgentEvent
collapse last log [] = last ∷ log
collapse last log (e ∷ es) =
    collapse (if same_event e last then last else e) (if same_event e last then log else last ∷ log)
      es

applied_last :
    (e : AgentEvent) (s t : SessionAggregate)
    → apply e s ≡ (t, ok applied)
    → (t.last_event ≡ e) × (same_event e s.last_event ≡ false)
unfolding record_event
applied_last e s t h =
    let (taken, (u, done, now)) = (apply_lem e s t).0 h in
    let next : e.sequence ≡ last_sequence s + 1 = ((validate_cursor-ok s e).1.0 taken).1 in
    (
      ap (λ (a : SessionAggregate). a.last_event) now ∙ ground arith,
      elim (Bool-cases (same_event e s.last_event)) [
        | inl same ↦ absurd (
            omega (
              arith,
              next,
              ap (λ (a : AgentEvent). a.sequence) ((same_event_iff e s.last_event).0 same),
            ))
        | inr other ↦ other
      ],
    )

retried_last :
    (e : AgentEvent) (s t : SessionAggregate)
    → apply e s ≡ (t, ok already_applied)
    → (t ≡ s) × (same_event e s.last_event ≡ true)
retried_last e s t h =
    let (taken, now) = (apply_lem e s t).1 h in
    (now, (same_event_iff e s.last_event).1 ((validate_cursor-ok s e).0.0 taken).1)

-- One event of a stream that is applied to its end.
apply_all_step :
    {c : SessionAggregateConfig} (e : AgentEvent) (es log : List AgentEvent)
    (s t : SessionAggregate) (p : SessionAggregate × Result ReduceError ApplyOutcome)
    → apply e s ≡ p
    → Reaches c (s.last_event ∷ log) s
    → apply_all (e ∷ es) s ≡ ok t
    → (u : SessionAggregate) × (log' : List AgentEvent) × Reaches c (u.last_event ∷ log') u
      × (apply_all es u ≡ ok t)
      × (collapse s.last_event log (e ∷ es) ≡ collapse u.last_event log' es)
unfolding apply_all
apply_all_step {c} e es log s t (u, ok applied) q r h =
    let (last, other) = applied_last e s u q in
    (
      u,
      s.last_event ∷ log,
      subst (λ a. Reaches c (a ∷ s.last_event ∷ log) u) (sym last) (extend e u r q),
      ground arith,
      rw (other, last),
    )
apply_all_step {c} e es log s t (u, ok already_applied) q r h =
    let (now, same) = retried_last e s u q in (s, log, r, ground arith, rw same)
apply_all_step e es log s t (u, err x) q r h = ground arith

apply_all-Reaches :
    {c : SessionAggregateConfig} (es log : List AgentEvent) (s t : SessionAggregate)
    → Reaches c (s.last_event ∷ log) s
    → apply_all es s ≡ ok t
    → Reaches c (collapse s.last_event log es) t
apply_all-Reaches {c} [] log s t r h =
    let same : s ≡ t = unfold apply_all in ground arith in
    subst (λ u. Reaches c (s.last_event ∷ log) u) same r
apply_all-Reaches {c} (e ∷ es) log s t r h =
    let (u, log', r', h', q) = apply_all_step e es log s t (apply e s) refl r h in
    subst (λ l. Reaches c l t) (sym q) (apply_all-Reaches es log' u t r' h')

-- A replay that succeeds leaves the aggregate of the stream's log: its events in order, exact
-- repeats of the event before left out. So every property of an aggregate and its log holds of it.
pub replay-Reaches :
    (c : SessionAggregateConfig) (e : AgentEvent) (es : List AgentEvent) (t : SessionAggregate)
    → replay_with_config (e ∷ es) c ≡ ok t
    → Reaches c (collapse e [] es) t
unfolding replay_with_config
replay-Reaches c e es t h = elim (Result-cases (from_initial_event_with_config e c)) [
  | inl (s, q) ↦
      let last : s.last_event ≡ e = unfold from_initial_event_with_config in ground arith in
      let start = subst (λ a. Reaches c (a ∷ []) s) (sym last) (begin e s q) in
      subst (λ a. Reaches c (collapse a [] es) t) last
        (apply_all-Reaches es [] s t start (rw (q, replay_with_config) at h))
  | inr (x, q) ↦ ground arith
]
