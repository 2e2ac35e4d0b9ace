-- ===== src/Domain/Event/Equality.antt =====
-- The derived `PartialEq` of the domain types of agentpulse-core: equality is decidable.
use agentpulse_rs.Common.{ℕ_discrete, Bool, true, false, ◌≡◌, refl, ◌↔◌}
use agentpulse_rs.Domain.Value.{NonEmptyText}
use agentpulse_rs.Domain.Session.{AgentSession}
use agentpulse_rs.Domain.Plan.{PlanSnapshot}
use agentpulse_rs.Domain.Progress.{ProgressSnapshot}
use agentpulse_rs.Domain.Command.{AgentCommand}
use agentpulse_rs.Domain.Interaction.{
  ApprovalSubject, InteractionRequest, InteractionResponse, InteractionClosed,
}
use agentpulse_rs.Domain.Event.{AgentEvent}

NonEmptyText-discrete : Discrete NonEmptyText
NonEmptyText-discrete = hlevel ℕ_discrete

AgentSession-discrete : Discrete AgentSession
AgentSession-discrete = hlevel (ℕ_discrete, NonEmptyText-discrete)

PlanSnapshot-discrete : Discrete PlanSnapshot
PlanSnapshot-discrete = hlevel (ℕ_discrete, NonEmptyText-discrete)

ProgressSnapshot-discrete : Discrete ProgressSnapshot
ProgressSnapshot-discrete = hlevel (ℕ_discrete, NonEmptyText-discrete)

AgentCommand-discrete : Discrete AgentCommand
AgentCommand-discrete = hlevel (ℕ_discrete, NonEmptyText-discrete)

ApprovalSubject-discrete : Discrete ApprovalSubject
ApprovalSubject-discrete = hlevel (ℕ_discrete, NonEmptyText-discrete)

InteractionRequest-discrete : Discrete InteractionRequest
InteractionRequest-discrete = hlevel (ℕ_discrete, NonEmptyText-discrete, ApprovalSubject-discrete)

InteractionResponse-discrete : Discrete InteractionResponse
InteractionResponse-discrete = hlevel (ℕ_discrete, NonEmptyText-discrete)

InteractionClosed-discrete : Discrete InteractionClosed
InteractionClosed-discrete = hlevel ℕ_discrete

AgentEvent-discrete : Discrete AgentEvent
AgentEvent-discrete = hlevel (
  ℕ_discrete, NonEmptyText-discrete, AgentSession-discrete, PlanSnapshot-discrete,
  ProgressSnapshot-discrete, AgentCommand-discrete, InteractionRequest-discrete,
  InteractionResponse-discrete, InteractionClosed-discrete,
)

abbrev is_yes {ℓ} : {P : Type ℓ} → Dec P → Bool
is_yes (yes p) = true
is_yes (no n) = false

is_yes_iff {ℓ} : {P : Type ℓ} (d : Dec P) → (is_yes d ≡ true) ↔ P
is_yes_iff (yes p) = ((λ _. p), (λ _. refl))
is_yes_iff (no n) = ((λ h. cc), (λ p. absurd (n p)))

-- `event == self.last_event.as_ref()`.
unfoldable pub same_event : AgentEvent → AgentEvent → Bool
unfolding NonEmptyText-discrete AgentSession-discrete PlanSnapshot-discrete
    ProgressSnapshot-discrete AgentCommand-discrete ApprovalSubject-discrete
    InteractionRequest-discrete InteractionResponse-discrete InteractionClosed-discrete
    AgentEvent-discrete
same_event a b = is_yes (AgentEvent-discrete a b)

pub same_event_iff : (a b : AgentEvent) → (same_event a b ≡ true) ↔ (a ≡ b)
unfolding same_event
same_event_iff a b = is_yes_iff (AgentEvent-discrete a b)
