-- ===== src/Aggregate/Replay.antt =====
-- agentpulse-core/src/aggregate.rs: replay of an event stream, and pages of the retained events.
use agentpulse_rs.Common.{
  ℕ, ◌-◌, Bool, true, List, [], ◌∷◌, Option, none, some, Result, ok, err, ltb, ◌==◌, if◌then◌else◌,
  take, filter_by,
}
use agentpulse_rs.Domain.Value.{checked_next, u64_end}
use agentpulse_rs.Domain.Event.{AgentEvent}
use agentpulse_rs.Aggregate.State.{
  empty_replay, ReduceError, SessionAggregateConfig, SessionAggregate, last_sequence,
  from_initial_event_with_config,
}
use agentpulse_rs.Aggregate.Apply.{apply}

-- The rest of the stream in `replay_with_config`.
unfoldable pub apply_all : List AgentEvent → SessionAggregate → Result ReduceError SessionAggregate
apply_all [] s = ok s
apply_all (e ∷ es) s = let (s', r) = apply e s in elim r [ ok _ ↦ apply_all es s' | err x ↦ err x ]

unfoldable pub replay_with_config :
    List AgentEvent → SessionAggregateConfig → Result ReduceError SessionAggregate
replay_with_config [] config = err empty_replay
replay_with_config (e ∷ es) config = elim (from_initial_event_with_config e config) [
  | ok s ↦ apply_all es s
  | err x ↦ err x
]

-- `front().is_none_or(|event| event.sequence() > expected)`.
abbrev pub starts_above : ℕ → List AgentEvent → Bool
starts_above expected [] = true
starts_above expected (e ∷ es) = ltb expected e.sequence

unfoldable pub retained_event_page_after : SessionAggregate → ℕ → ℕ → Option (List AgentEvent)
retained_event_page_after s after max_events =
    if ltb (last_sequence s) after
    then none
    else if after == last_sequence s
    then some []
    else covered (checked_next after)
  where
    covered : Option ℕ → Option (List AgentEvent)
    covered none = none
    covered (some expected) =
        if starts_above expected s.recent_events
        then none
        else some (take max_events (filter_by (λ e. ltb after e.sequence) s.recent_events))

-- `usize::MAX` on a 64-bit target.
unfoldable pub retained_events_after : SessionAggregate → ℕ → Option (List AgentEvent)
unfolding retained_event_page_after
retained_events_after s after = retained_event_page_after s after (u64_end - 1)
