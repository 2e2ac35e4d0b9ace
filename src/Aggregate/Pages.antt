-- ===== src/Aggregate/Pages.antt =====
-- The pages that `retained_event_page_after` of agentpulse-core/src/aggregate.rs hands out for
-- catch-up, against the log.
use mathlib.Core.List.{reverse-cons}
use agentpulse_rs.Common.{
  ℕ, zero, suc, ◌+◌, ◌-◌, ◌≤◌, ◌<◌, ◌≡◌, refl, sym, ap, ◌∙◌, inl, inr, List, [], ◌∷◌, ◌++◌, reverse,
  Option, none, some, arith, length, take, filter_by, ltb, if◌then◌else◌, take-take, take_all,
  filter_by-reverse, length-reverse, Bool-cases,
}
use agentpulse_rs.Domain.Value.{checked_next}
use agentpulse_rs.Domain.Event.{AgentEvent}
use agentpulse_rs.Aggregate.State.{SessionAggregate, SessionAggregateConfig}
use agentpulse_rs.Aggregate.Replay.{retained_event_page_after, starts_above}
use agentpulse_rs.Aggregate.Log.{Reaches}
use agentpulse_rs.Aggregate.Retention.{IsNumbered, window, Reaches-Keeps}

-- The newest events of a numbered log that follow `after`.
filter_by-take :
    (after k : ℕ) (log : List AgentEvent)
    → IsNumbered log
    → filter_by (λ e. ltb after e.sequence) (take k log) ≡ take (length log - after) (take k log)
filter_by-take after zero log h = sym (take_all _ [] (omega arith))
filter_by-take after (suc k) [] h = sym (take_all _ [] (omega arith))
filter_by-take after (suc k) (e ∷ log) h =
    let rest = filter_by-take after k log h.1 in
    elim (Bool-cases (ltb after e.sequence)) [
      | inl newer ↦
          let left : suc (length log) - after ≡ suc (length log - after) = ground arith in
          rw (newer, left) (ap (◌∷◌ e) rest)
      | inr older ↦
          let left : suc (length log) - after ≡ 0 = ground arith in
          let fewer : length log - after ≡ 0 = omega arith in
          rw (older, left) (rest ∙ ap (λ n. take n (take k log)) fewer)
    ]

starts_above-append :
    (n : ℕ) (es : List AgentEvent) (e : AgentEvent)
    → 0 < length es
    → starts_above n (es ++ (e ∷ [])) ≡ starts_above n es
starts_above-append n [] e h = elim h [ ]
starts_above-append n (x ∷ es) e h = refl

-- The oldest event of a window that is not empty.
starts_above-window :
    (after k : ℕ) (e : AgentEvent) (log : List AgentEvent)
    → IsNumbered (e ∷ log)
    → starts_above (after + 1) (reverse (take (suc k) (e ∷ log)))
      ≡ ltb (suc k) (length (e ∷ log) - after)
starts_above-window after zero e log h = ground arith
starts_above-window after (suc k) e [] h = ground arith
starts_above-window after (suc k) e (x ∷ log) h =
    reverse_front
    ∙ starts_above-append (after + 1) (reverse (take (suc k) (x ∷ log))) e
        (omega (arith, length-reverse (x ∷ take k log)))
    ∙ starts_above-window after k x log h.1
    ∙ ground arith
  where
    reverse_front :
        starts_above (after + 1) (reverse (take (suc (suc k)) (e ∷ x ∷ log)))
        ≡ starts_above (after + 1) (reverse (take (suc k) (x ∷ log)) ++ (e ∷ []))
    reverse_front = ap (starts_above (after + 1)) (reverse-cons e (take (suc k) (x ∷ log)))

-- Whether the window of `k` events of a log reaches back to the event after `after`.
starts_above-reverse :
    (after k : ℕ) (log : List AgentEvent)
    → IsNumbered log
    → after < length log
    → starts_above (after + 1) (reverse (take k log)) ≡ ltb k (length log - after)
starts_above-reverse after k [] h lt = elim lt [ ]
starts_above-reverse after zero (e ∷ log) h lt = ground arith
starts_above-reverse after (suc k) (e ∷ log) h lt = starts_above-window after k e log h

-- The events of a log after `after`, oldest first.
abbrev pub events_after : ℕ → List AgentEvent → List AgentEvent
events_after after log = reverse (take (length log - after) log)

-- The page that the log calls for.
abbrev pub page : SessionAggregateConfig → List AgentEvent → ℕ → ℕ → Option (List AgentEvent)
page c log after max_events =
    if ltb (length log) after
    then none
    else if ltb (window c (length log)) (length log - after)
    then none
    else some (take max_events (events_after after log))

filter_by-window :
    (after k : ℕ) (log : List AgentEvent)
    → IsNumbered log
    → length log - after ≤ k
    → filter_by (λ e. ltb after e.sequence) (reverse (take k log)) ≡ events_after after log
filter_by-window after k log h le =
    filter_by-reverse (λ e. ltb after e.sequence) (take k log)
    ∙ ap reverse (filter_by-take after k log h ∙ take-take (length log - after) k log le)

take_nil : (n : ℕ) → take {A = AgentEvent} n [] ≡ []
take_nil n = take_all n [] (omega arith)

-- A page of retained events is exactly the page of the log: the oldest events after the cursor, in
-- order and at most as many as asked for. There is none if the cursor lies ahead of the log or if
-- the window no longer reaches back to the event after it.
pub retained_event_page_after-page :
    {c : SessionAggregateConfig} {log : List AgentEvent} {s : SessionAggregate}
    → Reaches c log s
    → (after max_events : ℕ)
    → retained_event_page_after s after max_events ≡ page c log after max_events
unfolding retained_event_page_after checked_next
retained_event_page_after-page {c} {log} {s} r after max_events =
    let k = Reaches-Keeps r in
    let reach = starts_above-reverse after (window c (length log)) log k.numbered in
    let kept = filter_by-window after (window c (length log)) log k.numbered in
    ground (arith, k.recent_kept, k.last_numbered, k.in_range, reach, kept, take_nil max_events)
