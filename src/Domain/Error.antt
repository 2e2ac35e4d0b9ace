-- ===== src/Domain/Error.antt =====
-- agentpulse-core/src/error.rs: the validation errors of the domain. An identifier that the source
-- renders with `to_string` (the uuid crate) is kept as the identifier.
use agentpulse_rs.Common.{ℕ, String, List}

-- A Rust string: its characters' code points.
abbrev pub Text : Type 0
Text = List ℕ

-- An i128: `neg n` is -(n + 1).
pub data Signed : Type 0 where
  pos : ℕ → Signed
  neg : ℕ → Signed

pub data DomainError : Type 0 where
  blank_text : (field : String) → DomainError
  invalid_kind : (field : String) (value : Text) → DomainError
  invalid_id : (entity : String) (value : Text) → DomainError
  invalid_timestamp : (value : Signed) → DomainError
  zero_value : (field : String) → DomainError
  invalid_time_order : (earlier_field later_field : String) → DomainError
  empty_collection : (field : String) → DomainError
  duplicate_id : (field : String) (value : ℕ) → DomainError
  duplicate_value : (field value : String) → DomainError
  invalid_progress : (completed total : ℕ) → DomainError
  invalid_choice_selection : (reason : String) → DomainError
  correlation_mismatch : (field : String) (expected actual : ℕ) → DomainError
  interaction_type_mismatch : DomainError
  interaction_expired : DomainError
  approval_unavailable : DomainError
  unknown_approval_option : (option : ℕ) → DomainError
  unknown_choice_option : (option : ℕ) → DomainError
