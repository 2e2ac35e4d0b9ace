-- ===== src/Protocol/Decimal.antt =====
-- agentpulse-protocol/src/v2/scalar.rs: a u64 as a canonical decimal string.
pub mod Laws
use mathlib.Core.List.{List, [], ◌∷◌, ◌++◌}
use Prim.Native.Nat.{◌/◌, ◌%◌}
use agentpulse_rs.Common.{
  ℕ, zero, suc, ◌+◌, ◌-◌, ◌*◌, Bool, true, false, not, ◌&&◌, ◌||◌, Option, none, some, Result, ok,
  err, ltb, leb, ◌==◌, if◌then◌else◌, all, String, length,
}
use agentpulse_rs.Domain.Error.{Text}
use agentpulse_rs.Domain.Value.{u64_end, is_empty}

-- `byte.is_ascii_digit()`, of a character below 128.
abbrev pub is_ascii_digit : ℕ → Bool
is_ascii_digit c = leb 48 c && leb c 57

abbrev pub starts_with_zero : Text → Bool
starts_with_zero [] = false
starts_with_zero (c ∷ s) = c == 48

-- `Display` of a u64; the fuel exceeds the number.
unfoldable pub digits : ℕ → ℕ → Text
digits zero n = []
digits (suc f) n =
    let more = digits f (n / 10) ++ ((48 + n % 10) ∷ []) in if ltb n 10 then (48 + n) ∷ [] else more

-- `Serialize::serialize`: `collect_str(&self.0)`.
unfoldable pub serialize_u64 : ℕ → Text
unfolding digits
serialize_u64 n = digits (suc n) n

-- `value.parse::<u64>()`, of digits.
unfoldable pub parse_from : ℕ → Text → Option ℕ
parse_from acc [] = some acc
parse_from acc (c ∷ s) =
    let next = acc * 10 + (c - 48) in
    let rest = parse_from next s in if ltb next u64_end then rest else none

pub data DecimalError : Type 0 where
  not_canonical too_large : DecimalError

abbrev parsed_or_large : Option ℕ → Result DecimalError ℕ
parsed_or_large none = err too_large
parsed_or_large (some n) = ok n

-- `visit_str`. The errors are told apart by their kind.
unfoldable pub visit_str : Text → Result DecimalError ℕ
unfolding parse_from
visit_str value =
    if is_empty value
      || not (all is_ascii_digit value)
      || ltb 1 (length value) && starts_with_zero value
    then err not_canonical
    else parsed_or_large (parse_from 0 value)
