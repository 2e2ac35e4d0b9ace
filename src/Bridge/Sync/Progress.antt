-- ===== src/Bridge/Sync/Progress.antt =====
-- The pages that `sync_session` of agentpulse-bridge/src/bridge.rs chooses, against the log.
use agentpulse_rs.Common.{
  ℕ, not, ◌&&◌, ◌-◌, ltb, suc, ◌+◌, ◌≤◌, ◌<◌, ◌≡◌, refl, sym, ap, ◌∙◌, subst, Bool, true, false,
  List, none, some, ok, arith, inl, inr, ◌⊎◌, Option-cases, Bool-cases, ◌==◌, if◌then◌else◌, length,
  ==_iff, take,
}
use agentpulse_rs.Domain.Session.{Uuid}
use agentpulse_rs.Domain.Event.{AgentEvent}
use agentpulse_rs.Aggregate.State.{SessionAggregate, SessionAggregateConfig}
use agentpulse_rs.Aggregate.Replay.{retained_event_page_after}
use agentpulse_rs.Aggregate.Log.{Reaches}
use agentpulse_rs.Aggregate.Retention.{window, Reaches-Keeps}
use agentpulse_rs.Aggregate.Pages.{events_after, page, retained_event_page_after-page}
use agentpulse_rs.Aggregate.Numbering.{CountsFrom, page-CountsFrom, last-CountsFrom, length-page}
use agentpulse_rs.Bridge.Sync.{Page, choose_page, through}

-- Whether the retained window of the log reaches back to a cursor that is not ahead of it.
abbrev pub is_covered : SessionAggregateConfig → List AgentEvent → ℕ → Bool
is_covered c log after =
    not (ltb (length log) after) && not (ltb (window c (length log)) (length log - after))

-- What a page covers: events of the log from its cursor on, as many as asked for or all that are
-- left; it starts at the requested cursor or, if it was reset, at the beginning.
pub record Covers (c : SessionAggregateConfig) (log : List AgentEvent) (requested max_events : ℕ)
    (p : Page) : Type 0 where
  pub from : p.after_sequence ≡ (if p.reset then 0 else requested)
  pub resets : p.reset ≡ not (is_covered c log requested)
  pub covered : is_covered c log p.after_sequence ≡ true
  pub within : p.after_sequence ≤ length log
  pub content : p.events ≡ take max_events (events_after p.after_sequence log)
  pub ends : through p ≡ p.after_sequence + length p.events

page-some :
    (c : SessionAggregateConfig) (log : List AgentEvent) (after max_events : ℕ)
    (es : List AgentEvent)
    → page c log after max_events ≡ some es
    → (after ≤ length log)
      × (es ≡ take max_events (events_after after log))
      × (is_covered c log after ≡ true)
page-some c log after max_events es h = (ground arith, ground arith, ground arith)

page-none :
    (c : SessionAggregateConfig) (log : List AgentEvent) (after max_events : ℕ)
    → page c log after max_events ≡ none
    → is_covered c log after ≡ false
page-none c log after max_events h = ground arith

made-Covers :
    {c : SessionAggregateConfig} {log : List AgentEvent} {s : SessionAggregate}
    → Reaches c log s
    → (after requested max_events : ℕ) (reset : Bool) (es : List AgentEvent)
    → after ≡ (if reset then 0 else requested)
    → reset ≡ not (is_covered c log requested)
    → retained_event_page_after s after max_events ≡ some es
    → Covers c log requested max_events
        (record { after_sequence = after; reset = reset; events = es })
made-Covers {c} {log} {s} r after requested max_events reset es from resets h =
    let made : page c log after max_events ≡ some es =
      sym (retained_event_page_after-page r after max_events) ∙ h in
    let (le, content, covered) = page-some c log after max_events es made in
    let counted : CountsFrom (suc after) es =
      subst (CountsFrom (suc after)) (sym content)
        (page-CountsFrom after max_events log (Reaches-Keeps r).numbered le) in
    record {
      from = from;
      resets = resets;
      covered = covered;
      within = le;
      content = content;
      ends = last-CountsFrom after es counted;
    }

pub choose_page-Covers :
    {c : SessionAggregateConfig} {log : List AgentEvent} {s : SessionAggregate}
    → Reaches c log s
    → (channel_id : Uuid) (requested max_events : ℕ) (p : Page)
    → choose_page channel_id s requested max_events ≡ ok p
    → Covers c log requested max_events p
unfolding choose_page
choose_page-Covers {c} {log = log} {s = s} r channel_id requested max_events p h =
    elim (Option-cases (retained_event_page_after s requested max_events)) [
      | inr (es, kept) ↦
          let q : record { after_sequence = requested; reset = false; events = es } ≡ p =
            ground arith in
          subst (Covers c log requested max_events) q (
            made-Covers r requested requested max_events false es refl
              (ground (
                arith,
                page-some c log requested max_events es,
                retained_event_page_after-page r requested max_events,
              ))
              kept)
      | inl lost ↦ elim (Option-cases (retained_event_page_after s 0 max_events)) [
        | inr (es, kept) ↦
            let q : record { after_sequence = 0; reset = true; events = es } ≡ p = ground arith in
            subst (Covers c log requested max_events) q (
              made-Covers r 0 requested max_events true es refl
                (ground (
                  arith,
                  page-none c log requested max_events,
                  retained_event_page_after-page r requested max_events,
                ))
                kept)
        | inl gone ↦ ground arith
      ]
    ]

pub Covers-Reached :
    (config : SessionAggregateConfig) (log : List AgentEvent) (requested max_events : ℕ) (p : Page)
    → Covers config log requested max_events p
    → (((through p == length log) ≡ true) × (through p ≡ length log))
      ⊎ (((through p == length log) ≡ false)
          × (through p ≡ p.after_sequence + max_events)
          × (through p < length log))
Covers-Reached config log requested max_events p c =
    let sizes = length-page p.after_sequence max_events log in
    let size = ap length c.content in
    let ends = c.ends in
    let within = c.within in
    elim (Bool-cases (through p == length log)) [
      | inl last ↦ inl (last, (==_iff _ _).0 last)
      | inr more ↦ elim sizes [
        | inl (full, fits) ↦ inr (more, omega (arith, size), ground arith)
        | inr (rest, all) ↦ let whole : through p ≡ length log = omega (arith, size) in ground arith
      ]
    ]
