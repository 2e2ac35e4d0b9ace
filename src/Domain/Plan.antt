-- ===== src/Domain/Plan.antt =====
-- agentpulse-core/src/plan.rs: complete plan snapshots.
use agentpulse_rs.Common.{List, [], map, Option, none, some, Result, ok, err}
use agentpulse_rs.Domain.Error.{DomainError, duplicate_id}
use agentpulse_rs.Domain.Value.{NonEmptyText, Revision}
use agentpulse_rs.Domain.Session.{Uuid}
use agentpulse_rs.Domain.Unique.{find_duplicate}

pub data PlanItemStatus : Type 0 where
  pending in_progress completed blocked skipped : PlanItemStatus

pub record PlanItem : Type 0 where
  pub id : Uuid
  pub content : NonEmptyText
  pub status : PlanItemStatus

pub record PlanSnapshot : Type 0 where
  pub revision : Revision
  pub explanation : Option NonEmptyText
  pub items : List PlanItem

unfoldable pub new_plan_snapshot : Revision → List PlanItem → Result DomainError PlanSnapshot
unfolding find_duplicate
new_plan_snapshot revision items = elim (find_duplicate [] (map (λ i. i.id) items)) [
  | some id ↦ err (duplicate_id "plan items" id)
  | none ↦ ok (record { revision = revision; explanation = none; items = items })
]

unfoldable pub with_explanation : PlanSnapshot → NonEmptyText → PlanSnapshot
with_explanation plan explanation = record plan { explanation = some explanation }
