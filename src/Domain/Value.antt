-- ===== src/Domain/Value.antt =====
-- agentpulse-core/src/value.rs: the shared value objects.
pub mod Laws
use agentpulse_rs.Common.{
  ℕ, ◌+◌, ◌^◌, ◌-◌, Bool, true, false, not, ◌&&◌, ◌||◌, List, [], ◌∷◌, reverse, Option, none, some,
  Result, ok, err, ltb, leb, ◌==◌, if◌then◌else◌, all, String,
}
use agentpulse_rs.Domain.Error.{DomainError, blank_text, invalid_kind, zero_value, Text}

-- `char::is_whitespace`: the code points with the property White_Space.
unfoldable pub is_whitespace : ℕ → Bool
is_whitespace c =
    leb 9 c && leb c 13
    || c == 32
    || c == 0x85
    || c == 0xa0
    || c == 0x1680
    || leb 0x2000 c && leb c 0x200a
    || c == 0x2028
    || c == 0x2029
    || c == 0x202f
    || c == 0x205f
    || c == 0x3000

unfoldable pub trim_start : Text → Text
trim_start [] = []
trim_start (c ∷ s) = let rest = trim_start s in if is_whitespace c then rest else c ∷ s

-- `str::trim`.
unfoldable pub trim : Text → Text
trim s = reverse (trim_start (reverse (trim_start s)))

abbrev pub is_empty {ℓ} : {A : Type ℓ} → List A → Bool
is_empty [] = true
is_empty (x ∷ xs) = false

pub record NonEmptyText : Type 0 where
  pub text : Text

unfoldable pub new_text : Text → Result DomainError NonEmptyText
new_text value =
    if is_empty (trim value) then err (blank_text "text") else ok (record { text = value })

pub record ExternalId : Type 0 where
  pub value : NonEmptyText

unfoldable pub new_external_id : Text → Result DomainError ExternalId
new_external_id value =
    if is_empty (trim value)
    then err (blank_text "external ID")
    else ok (record { value = record { text = value } })

-- `define_kind!`: the newtypes ProviderKind and ChannelKind.
pub record Kind : Type 0 where
  pub slug : Text

unfoldable pub is_lowercase_or_digit : ℕ → Bool
is_lowercase_or_digit c = leb b'a' c && leb c b'z' || leb b'0' c && leb c b'9'

unfoldable pub is_slug_character : ℕ → Bool
unfolding is_lowercase_or_digit
is_slug_character c = is_lowercase_or_digit c || c == b'-' || c == b'_' || c == b'.'

abbrev pub valid_first : Text → Bool
valid_first [] = false
valid_first (c ∷ s) = is_lowercase_or_digit c

-- `characters.all` after `characters.next()`.
abbrev pub valid_rest : Text → Bool
valid_rest [] = true
valid_rest (c ∷ s) = all is_slug_character s

unfoldable pub new_kind : String → Text → Result DomainError Kind
new_kind field value =
    if valid_first value && valid_rest value
    then ok (record { slug = value })
    else err (invalid_kind field value)

-- An instant in UTC: nanoseconds since the earliest instant that the time crate represents.
abbrev pub Timestamp : Type 0
Timestamp = ℕ

-- `define_positive_counter!`: the newtypes Revision and EventSequence of a NonZeroU64.
abbrev pub Revision : Type 0
Revision = ℕ

abbrev pub EventSequence : Type 0
EventSequence = ℕ

abbrev pub u64_end : ℕ
u64_end = 2 ^ 64

abbrev pub first : ℕ
first = 1

unfoldable pub new_counter : String → ℕ → Result DomainError ℕ
new_counter field value = if value == 0 then err (zero_value field) else ok value

unfoldable pub checked_next : ℕ → Option ℕ
checked_next n = if ltb (n + 1) u64_end then some (n + 1) else none

pub record WorkspaceRef : Type 0 where
  pub path : NonEmptyText
  pub display_name : Option NonEmptyText

unfoldable pub new_workspace : NonEmptyText → WorkspaceRef
new_workspace path = record { path = path; display_name = none }

unfoldable pub with_display_name : WorkspaceRef → NonEmptyText → WorkspaceRef
with_display_name w name = record w { display_name = some name }
