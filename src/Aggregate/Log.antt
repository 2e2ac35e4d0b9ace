-- ===== src/Aggregate/Log.antt =====
-- The abstract view of an aggregate of agentpulse-core/src/aggregate.rs: the log of the events
-- that were applied, newest first, and how an aggregate comes to be at the end of one.
use agentpulse_rs.Common.{◌+◌, ◌<◌, ◌≡◌, ◌∙◌, sym, ap, List, [], ◌∷◌, ok, err}
use agentpulse_rs.Domain.Value.{u64_end}
use agentpulse_rs.Domain.Event.{AgentEvent}
use agentpulse_rs.Aggregate.State.{
  SessionAggregate, SessionAggregateConfig, ReduceError, last_sequence, applied, already_applied,
  from_initial_event_with_config,
}
use agentpulse_rs.Aggregate.Apply.{apply, apply_payload, record_event}
use agentpulse_rs.Aggregate.Atomic.{apply_lem, apply_atomic, validate_cursor-ok}

-- The aggregates that the operations can produce, each with its log.
pub data Reaches (c : SessionAggregateConfig) : List AgentEvent → SessionAggregate → Type 0 where
  begin :
      (e : AgentEvent) (s : SessionAggregate)
      → from_initial_event_with_config e c ≡ ok s
      → Reaches c (e ∷ []) s
  extend :
      {log : List AgentEvent} {s : SessionAggregate} (e : AgentEvent) (t : SessionAggregate)
      → Reaches c log s
      → apply e s ≡ (t, ok applied)
      → Reaches c (e ∷ log) t
  retry :
      {log : List AgentEvent} {s : SessionAggregate} (e : AgentEvent) (t : SessionAggregate)
      → Reaches c log s
      → apply e s ≡ (t, ok already_applied)
      → Reaches c log t
  refuse :
      {log : List AgentEvent} {s : SessionAggregate} (e : AgentEvent) (t : SessionAggregate)
      (x : ReduceError)
      → Reaches c log s
      → apply e s ≡ (t, err x)
      → Reaches c log t

-- What `begin` and `extend` do to an aggregate, with the guards that they pass.
pub data Builds (c : SessionAggregateConfig) : List AgentEvent → SessionAggregate → Type 0 where
  starts :
      (e : AgentEvent) (s : SessionAggregate)
      → from_initial_event_with_config e c ≡ ok s
      → Builds c (e ∷ []) s
  grows :
      {log : List AgentEvent} {s : SessionAggregate} (e : AgentEvent) (u : SessionAggregate)
      → Builds c log s
      → e.session_id ≡ s.session.id
      → e.sequence ≡ last_sequence s + 1
      → last_sequence s + 1 < u64_end
      → apply_payload e.payload e.occurred_at s ≡ (u, ok tt)
      → Builds c (e ∷ log) (record_event e u)

-- Retries and refusals leave no trace: an aggregate is determined by its log.
pub Reaches-Builds :
    {c : SessionAggregateConfig} {log : List AgentEvent} {s : SessionAggregate}
    → Reaches c log s
    → Builds c log s
Reaches-Builds (begin e s h) = starts e s h
Reaches-Builds {c} (extend {log = log} {s = s} e t r h) =
    let (taken, (u, done, now)) = (apply_lem e s t).0 h in
    let guards = (validate_cursor-ok s e).1.0 taken in
    rw now (grows e u (Reaches-Builds r) guards.0 guards.1 guards.2 done)
Reaches-Builds {c} {log} (retry {s = s} e t r h) = rw (((apply_lem e s t).1 h).1) (Reaches-Builds r)
Reaches-Builds {c} {log} (refuse {s = s} e t x r h) =
    rw (sym (ap (λ p. p.0) h) ∙ apply_atomic e s x (ap (λ p. p.1) h)) (Reaches-Builds r)
