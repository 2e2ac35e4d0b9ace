-- ===== src/Domain/Progress.antt =====
-- agentpulse-core/src/progress.rs: complete progress snapshots.
use agentpulse_rs.Common.{ℕ, Option, none, some, Result, ok, err, ltb, ◌==◌, if◌then◌else◌}
use agentpulse_rs.Domain.Error.{DomainError, zero_value, invalid_progress}
use agentpulse_rs.Domain.Value.{NonEmptyText, Revision}

pub record DeterminateProgress : Type 0 where
  pub completed : ℕ
  pub total : ℕ

unfoldable pub new_determinate_progress : ℕ → ℕ → Result DomainError DeterminateProgress
new_determinate_progress completed total =
    if total == 0
    then err (zero_value "progress total")
    else if ltb total completed
    then err (invalid_progress completed total)
    else ok (record { completed = completed; total = total })

pub data ProgressValue : Type 0 where
  indeterminate : ProgressValue
  determinate : DeterminateProgress → ProgressValue

pub record ProgressSnapshot : Type 0 where
  pub revision : Revision
  pub value : ProgressValue
  pub message : Option NonEmptyText

unfoldable pub new_progress_snapshot : Revision → ProgressValue → ProgressSnapshot
new_progress_snapshot revision value = record { revision = revision; value = value; message = none }

unfoldable pub with_message : ProgressSnapshot → NonEmptyText → ProgressSnapshot
with_message progress message = record progress { message = some message }
