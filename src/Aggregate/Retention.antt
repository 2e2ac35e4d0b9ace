-- ===== src/Aggregate/Retention.antt =====
-- What the aggregate of agentpulse-core/src/aggregate.rs retains of its log, and the pages of it
-- that `retained_event_page_after` hands out for catch-up.
use mathlib.Core.List.{reverse-cons, reverse-append, head?}
use agentpulse_rs.Common.{
  ℕ, zero, suc, ◌+◌, ◌≤◌, ◌<◌, ◌≡◌, refl, sym, ap, ◌∙◌, inl, inr, Bool, true, false, List, [], ◌∷◌,
  ◌++◌, reverse, some, ok, arith, length, take, if◌then◌else◌, length-append, length-reverse,
  take_all, take-suc, ◌==◌,
}
use agentpulse_rs.Domain.Value.{u64_end}
use agentpulse_rs.Domain.Event.{AgentEvent}
use agentpulse_rs.Aggregate.State.{
  SessionAggregate, SessionAggregateConfig, last_sequence, from_initial_event_with_config,
  keeps_none,
}
use agentpulse_rs.Aggregate.Apply.{apply_payload, record_event, evict}
use agentpulse_rs.Aggregate.Frame.{apply_payload_frame}
use agentpulse_rs.Aggregate.Log.{Reaches, Builds, starts, grows, Reaches-Builds}

-- The sequences of a log: 1 for the oldest event, one more for each later one.
abbrev pub IsNumbered : List AgentEvent → Type 0
IsNumbered [] = Unit {0}
IsNumbered (e ∷ log) = (e.sequence ≡ length (e ∷ log)) × IsNumbered log

-- How many events of a log of `n` are retained.
abbrev pub window : SessionAggregateConfig → ℕ → ℕ
window c n = if c.retain_all_events then n else c.recent_event_capacity

-- The retained events, oldest first.
abbrev pub retained : SessionAggregateConfig → List AgentEvent → List AgentEvent
retained c log = reverse (take (window c (length log)) log)

evict_fits : (n : ℕ) (es : List AgentEvent) → length es ≤ n → evict n es ≡ es
unfolding evict
evict_fits n [] h = refl
evict_fits n (e ∷ es) h = ground arith

evict_one : (n : ℕ) (e : AgentEvent) (es : List AgentEvent) → length es ≡ n → evict n (e ∷ es) ≡ es
unfolding evict
evict_one n e es h = ground (arith, evict_fits n es)

-- The push and the eviction of `record_event`, on the window of a log.
evict-window :
    (n : ℕ) (e : AgentEvent) (log : List AgentEvent)
    → evict (suc n) (reverse (take (suc n) log) ++ (e ∷ [])) ≡ reverse (take (suc n) (e ∷ log))
evict-window n e log = elim (take-suc n log) [
  | inl (h, q) ↦ rw q (
      evict_fits (suc n) (reverse (take n log) ++ (e ∷ [])) (
        omega (
          arith,
          length-append (reverse (take n log)) (e ∷ []),
          length-reverse (take n log),
          ap length (take_all n log h),
        ))
      ∙ sym (reverse-cons e (take n log)))
  | inr (y, h, q) ↦
      rw (q, reverse-append (take n log) (y ∷ []))
        (evict_one (suc n) y (reverse (take n log) ++ (e ∷ [])) (
            omega
              (arith, length-append (reverse (take n log)) (e ∷ []), length-reverse (take n log)))
          ∙ sym (reverse-cons e (take n log)))
]

-- What `record_event` makes of the retained events.
abbrev pushed : SessionAggregateConfig → AgentEvent → List AgentEvent → List AgentEvent
pushed c e es =
    if keeps_none c
    then es
    else if c.retain_all_events
    then es ++ (e ∷ [])
    else evict c.recent_event_capacity (es ++ (e ∷ []))

pushed-retained_config :
    (all : Bool) (n : ℕ) (e : AgentEvent) (log : List AgentEvent)
    → let c : SessionAggregateConfig = record {
      recent_event_capacity = n;
      retain_all_events = all;
    } in
      pushed c e (retained c log) ≡ retained c (e ∷ log)
pushed-retained_config true n e log =
    rw (take_all (length log) log (omega arith)) (sym (reverse-cons e log))
pushed-retained_config false zero e log = refl
pushed-retained_config false (suc n) e log =
    let positive : (suc n == 0) ≡ false = ground arith in rw positive (evict-window n e log)

record_event-pushed :
    (e : AgentEvent) (u : SessionAggregate)
    → (record_event e u).recent_events ≡ pushed u.config e u.recent_events
unfolding record_event
record_event-pushed e u = ground arith

-- `record_event` keeps the window of the longer log.
record_event-retained :
    (e : AgentEvent) (log : List AgentEvent) (u : SessionAggregate)
    → u.recent_events ≡ retained u.config log
    → (record_event e u).recent_events ≡ retained u.config (e ∷ log)
record_event-retained e log u hr =
    record_event-pushed e u
    ∙ ap (pushed u.config e) hr
    ∙ pushed-retained_config u.config.retain_all_events u.config.recent_event_capacity e log

pub record_event_fields :
    (e : AgentEvent) (u : SessionAggregate)
    → ((record_event e u).last_event ≡ e)
      × ((record_event e u).config ≡ u.config)
      × ((record_event e u).session ≡ u.session)
unfolding record_event
record_event_fields e u = ground arith

-- What an aggregate keeps of its log.
pub record Keeps (c : SessionAggregateConfig) (log : List AgentEvent) (s : SessionAggregate)
    : Type 0 where
  pub config_kept : s.config ≡ c
  pub recent_kept : s.recent_events ≡ retained c log
  pub numbered : IsNumbered log
  pub last_kept : head? log ≡ some s.last_event
  pub last_numbered : last_sequence s ≡ length log
  pub in_range : last_sequence s < u64_end

fresh-retained :
    (all : Bool) (n : ℕ) (e : AgentEvent)
    → let c : SessionAggregateConfig = record {
      recent_event_capacity = n;
      retain_all_events = all;
    } in
      (if keeps_none c then [] else e ∷ []) ≡ retained c (e ∷ [])
fresh-retained true n e = refl
fresh-retained false zero e = refl
fresh-retained false (suc n) e =
    let positive : (suc n == 0) ≡ false = ground arith in
    rw positive (ap (λ l. reverse (e ∷ l)) (sym (take_all n [] (omega arith))))

starts-Keeps :
    (c : SessionAggregateConfig) (e : AgentEvent) (s : SessionAggregate)
    → from_initial_event_with_config e c ≡ ok s
    → Keeps c (e ∷ []) s
unfolding from_initial_event_with_config
starts-Keeps c e s h = ground (arith, fresh-retained c.retain_all_events c.recent_event_capacity e)

grows-Keeps :
    (c : SessionAggregateConfig) (log : List AgentEvent) (s u : SessionAggregate) (e : AgentEvent)
    → Keeps c log s
    → e.sequence ≡ last_sequence s + 1
    → last_sequence s + 1 < u64_end
    → apply_payload e.payload e.occurred_at s ≡ (u, ok tt)
    → Keeps c (e ∷ log) (record_event e u)
grows-Keeps c log s u e k q f h =
    let frame = apply_payload_frame e.payload e.occurred_at s in
    let moved = ap (λ p. p.0) h in
    let config : u.config ≡ c = cc frame.0 in
    let recent : u.recent_events ≡ retained u.config log =
      ap (λ (a : SessionAggregate). a.recent_events) (sym moved)
      ∙ frame.1
      ∙ k.recent_kept
      ∙ ap (λ d. retained d log) (sym config) in
    let fields = record_event_fields e u in
    record {
      config_kept = fields.1 ∙ config;
      recent_kept = record_event-retained e log u recent ∙ ap (λ d. retained d (e ∷ log)) config;
      numbered = (omega (arith, k.last_numbered), k.numbered);
      last_kept = ap some (sym fields.0);
      last_numbered = ap (λ (a : AgentEvent). a.sequence) fields.0 ∙ omega (arith, k.last_numbered);
      in_range = omega (arith, ap (λ (a : AgentEvent). a.sequence) fields.0);
    }

-- Every aggregate keeps exactly its configured window of the log, oldest first; the log is numbered
-- from 1 on without a gap, and ends with the aggregate's last event, at a sequence below 2^64.
pub Reaches-Keeps :
    {c : SessionAggregateConfig} {log : List AgentEvent} {s : SessionAggregate}
    → Reaches c log s
    → Keeps c log s
Reaches-Keeps r = Builds-Keeps (Reaches-Builds r)
  where
    Builds-Keeps :
        {c : SessionAggregateConfig} {log : List AgentEvent} {s : SessionAggregate}
        → Builds c log s
        → Keeps c log s
    Builds-Keeps {c} (starts e s h) = starts-Keeps c e s h
    Builds-Keeps {c} (grows {log = log} {s = s} e u b i q f h) =
        grows-Keeps c log s u e (Builds-Keeps b) q f h
