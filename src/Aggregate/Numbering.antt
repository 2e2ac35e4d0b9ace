-- ===== src/Aggregate/Numbering.antt =====
-- The sequences of a page of the log of agentpulse-core/src/aggregate.rs.
use mathlib.Core.List.{reverse-cons}
use agentpulse_rs.Common.{
  ℕ, zero, suc, ◌+◌, ◌-◌, ◌≤◌, ◌≡◌, refl, sym, ap, ◌∙◌, subst, ◌⊎◌, inl, inr, Bool-cases, leb, List,
  [], ◌∷◌, ◌++◌, reverse, arith, length, take, last?, length-reverse, take_all,
}
use agentpulse_rs.Domain.Event.{AgentEvent, sequence_or}
use agentpulse_rs.Aggregate.Retention.{IsNumbered}
use agentpulse_rs.Aggregate.Pages.{events_after}

-- The sequences of the events are `n`, `n + 1` and so on.
abbrev pub CountsFrom : ℕ → List AgentEvent → Type 0
CountsFrom n [] = Unit {0}
CountsFrom n (e ∷ es) = (e.sequence ≡ n) × CountsFrom (suc n) es

CountsFrom-append :
    (n : ℕ) (es : List AgentEvent) (e : AgentEvent)
    → CountsFrom n es
    → e.sequence ≡ n + length es
    → CountsFrom n (es ++ (e ∷ []))
CountsFrom-append n [] e h q = omega arith
CountsFrom-append n (x ∷ es) e h q = (h.0, CountsFrom-append (suc n) es e h.1 (omega arith))

CountsFrom-take : (n k : ℕ) (es : List AgentEvent) → CountsFrom n es → CountsFrom n (take k es)
CountsFrom-take n zero es h = tt
CountsFrom-take n (suc k) [] h = tt
CountsFrom-take n (suc k) (e ∷ es) h = (h.0, CountsFrom-take (suc n) k es h.1)

pub length-take_le : (k : ℕ) (log : List AgentEvent) → k ≤ length log → length (take k log) ≡ k
length-take_le zero log h = refl
length-take_le (suc k) [] h = elim h [ ]
length-take_le (suc k) (e ∷ log) h = ap suc (length-take_le k log (omega arith))

newest-CountsFrom :
    (n k : ℕ) (log : List AgentEvent)
    → IsNumbered log
    → length log ≡ n + k
    → CountsFrom (suc n) (reverse (take k log))
newest-CountsFrom n zero log h q = tt
newest-CountsFrom n (suc k) [] h q = absurd (omega arith)
newest-CountsFrom n (suc k) (e ∷ log) h q =
    subst (CountsFrom (suc n)) (sym (reverse-cons e (take k log))) (
      CountsFrom-append (suc n) (reverse (take k log)) e
        (newest-CountsFrom n k log h.1 (omega arith))
        (omega (arith, h.0, length-reverse (take k log), length-take_le k log (omega arith))))

-- A page of a numbered log counts on from its cursor.
pub page-CountsFrom :
    (after max_events : ℕ) (log : List AgentEvent)
    → IsNumbered log
    → after ≤ length log
    → CountsFrom (suc after) (take max_events (events_after after log))
page-CountsFrom after max_events log h le =
    CountsFrom-take (suc after) max_events (events_after after log)
      (newest-CountsFrom after (length log - after) log h (omega arith))

sequence_or_cons :
    (a b : ℕ) (e : AgentEvent) (es : List AgentEvent)
    → sequence_or a (last? (e ∷ es)) ≡ sequence_or b (last? (e ∷ es))
sequence_or_cons a b e [] = refl
sequence_or_cons a b e (f ∷ es) = sequence_or_cons a b f es

pub last-CountsFrom :
    (after : ℕ) (es : List AgentEvent)
    → CountsFrom (suc after) es
    → sequence_or after (last? es) ≡ after + length es
last-CountsFrom after [] h = omega arith
last-CountsFrom after (e ∷ []) h = omega arith
last-CountsFrom after (e ∷ f ∷ es) h =
    omega (arith, sequence_or_cons after (suc after) f es, last-CountsFrom (suc after) (f ∷ es) h.1)

-- How many events follow a cursor.
pub length-events_after :
    (after : ℕ) (log : List AgentEvent) → length (events_after after log) ≡ length log - after
length-events_after after log = omega (
  arith,
  length-reverse (take (length log - after) log),
  length-take_le (length log - after) log (omega arith),
)

-- A page is full, or it reaches the end of the log.
pub length-page :
    (after max_events : ℕ) (log : List AgentEvent)
    → let n = length (take max_events (events_after after log)) in
      ((n ≡ max_events) × (max_events ≤ length log - after))
      ⊎ ((n ≡ length log - after) × (length log - after ≤ max_events))
length-page after max_events log =
    let count = length-events_after after log in
    let left = length log - after in
    elim (Bool-cases (leb max_events left)) [
      | inl small ↦
          let fewer : max_events ≤ left = ground arith in
          inl (length-take_le max_events (events_after after log) (omega (arith, count)), fewer)
      | inr large ↦
          let all : left ≤ max_events = ground arith in
          inr (
            ap length (take_all max_events (events_after after log) (omega (arith, count))) ∙ count,
            all,
          )
    ]
