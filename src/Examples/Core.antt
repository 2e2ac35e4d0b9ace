-- ===== src/Examples/Core.antt =====
-- The theorems on aggregates at a session with an approval that is open.
use agentpulse_rs.Common.{◌+◌, ◌<◌, ◌≡◌, ◌↔◌, refl, true, false, [], ◌∷◌, ok, err, ℕ_discrete}
use agentpulse_rs.Common.Map.{get}
use agentpulse_rs.Domain.Event.{AgentEvent, new_event}
use agentpulse_rs.Domain.Value.{checked_next, u64_end}
use agentpulse_rs.Domain.Event.Equality.{same_event}
use agentpulse_rs.Aggregate.State.{
  applied, retain_all, sequence_gap, from_initial_event_with_config, last_sequence,
}
use agentpulse_rs.Aggregate.Apply.{apply, apply_payload, record_event, evict, validate_cursor}
use agentpulse_rs.Aggregate.Replay.{replay_with_config, apply_all, retained_event_page_after}
use agentpulse_rs.Aggregate.Log.{Reaches, begin, extend}
use agentpulse_rs.Aggregate.Atomic.{apply_atomic, validate_cursor-ok}
use agentpulse_rs.Aggregate.Retention.{Keeps, Reaches-Keeps}
use agentpulse_rs.Aggregate.Pages.{page, retained_event_page_after-page}
use agentpulse_rs.Aggregate.Invariant.{IsWellFormed, IsValid, Reaches-IsValid}
use agentpulse_rs.Aggregate.Projection.{Projects}
use agentpulse_rs.Aggregate.Projection.Step.{Reaches-Projects}
use agentpulse_rs.Aggregate.RoundTrip.{replay-recent_events, replay-Reaches, collapse}
use agentpulse_rs.Examples.{begun, asked, busy, event, begun_aggregate, asked_aggregate}

begun_reached : Reaches retain_all (begun ∷ []) begun_aggregate
unfolding from_initial_event_with_config
begun_reached = begin begun begun_aggregate refl

asked_applied : apply asked begun_aggregate ≡ (asked_aggregate, ok applied)
unfolding apply validate_cursor apply_payload record_event evict checked_next same_event get
asked_applied = refl

pub asked_reached : Reaches retain_all (asked ∷ begun ∷ []) asked_aggregate
asked_reached = extend asked asked_aggregate begun_reached asked_applied

pub begun-IsWellFormed : IsWellFormed begun
unfolding new_event
begun-IsWellFormed = refl

pub asked-IsWellFormed : IsWellFormed asked
unfolding new_event
asked-IsWellFormed = refl

Reaches-Projects_example : Projects (asked ∷ begun ∷ []) asked_aggregate
Reaches-Projects_example = Reaches-Projects asked_reached

replay-recent_events_example :
    replay_with_config asked_aggregate.recent_events retain_all ≡ ok asked_aggregate
replay-recent_events_example = replay-recent_events refl asked_reached

Reaches-Keeps_example : Keeps retain_all (asked ∷ begun ∷ []) asked_aggregate
Reaches-Keeps_example = Reaches-Keeps asked_reached

page_example :
    retained_event_page_after asked_aggregate 1 5 ≡ page retain_all (asked ∷ begun ∷ []) 1 5
page_example = retained_event_page_after-page asked_reached 1 5

Reaches-IsValid_example : IsValid asked_aggregate
Reaches-IsValid_example =
    Reaches-IsValid asked_reached (asked-IsWellFormed, (begun-IsWellFormed, tt))

-- An event that skips a sequence.
abbrev skipping : AgentEvent
skipping = event 9 130 busy.payload

skipping_refused : (apply skipping asked_aggregate).1 ≡ err (sequence_gap 3 9)
unfolding apply validate_cursor apply_payload record_event evict checked_next same_event get
skipping_refused = refl

apply_atomic_example : (apply skipping asked_aggregate).0 ≡ asked_aggregate
apply_atomic_example = apply_atomic skipping asked_aggregate (sequence_gap 3 9) skipping_refused

validate_cursor_example :
    ((validate_cursor asked_aggregate busy ≡ ok true)
      ↔ ((busy.session_id ≡ asked_aggregate.session.id) × (busy ≡ asked_aggregate.last_event)))
    × ((validate_cursor asked_aggregate busy ≡ ok false) ↔ (
        (busy.session_id ≡ asked_aggregate.session.id)
        × (busy.sequence ≡ last_sequence asked_aggregate + 1)
        × (last_sequence asked_aggregate + 1 < u64_end)))
validate_cursor_example = validate_cursor-ok asked_aggregate busy

-- A stream with a repeated event.
asked_replayed : replay_with_config (begun ∷ asked ∷ asked ∷ []) retain_all ≡ ok asked_aggregate
unfolding replay_with_config apply_all from_initial_event_with_config apply validate_cursor
    apply_payload record_event evict checked_next same_event get ℕ_discrete
asked_replayed = refl

replay-Reaches_example : Reaches retain_all (collapse begun [] (asked ∷ asked ∷ [])) asked_aggregate
replay-Reaches_example =
    replay-Reaches retain_all begun (asked ∷ asked ∷ []) asked_aggregate asked_replayed
