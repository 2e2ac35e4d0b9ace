-- ===== src/Protocol/Decimal/Laws.antt =====
-- The decimal strings of agentpulse-protocol/src/v2/scalar.rs and the numbers of 64 bits match one
-- to one.
use mathlib.Core.List.{[], ◌∷◌, ◌++◌, append_assoc, append-nil}
use Prim.Native.Nat.{◌/◌, ◌%◌}
use agentpulse_rs.Common.{
  ℕ, zero, suc, ◌+◌, ◌-◌, ◌*◌, ◌<◌, ◌≡◌, ◌↔◌, refl, sym, ap, ◌∙◌, inl, inr, Bool, true, false, ◌&&◌,
  Option, none, some, ok, ltb, ltb→lt, all, length, arith, Bool-cases,
}
use agentpulse_rs.Domain.Error.{Text}
use agentpulse_rs.Domain.Value.{u64_end, is_empty}
use agentpulse_rs.Protocol.Decimal.{
  is_ascii_digit, starts_with_zero, digits, serialize_u64, parse_from, visit_str,
}

abbrev and_then : Option ℕ → (ℕ → Option ℕ) → Option ℕ
and_then none f = none
and_then (some n) f = f n

parse_from-append :
    (acc : ℕ) (s t : Text)
    → parse_from acc (s ++ t) ≡ and_then (parse_from acc s) (λ n. parse_from n t)
unfolding parse_from
parse_from-append acc [] t = refl
parse_from-append acc (c ∷ s) t = ground (arith, parse_from-append (acc * 10 + (c - 48)) s t)

pub parse_from-digits : (f n : ℕ) → n < f → n < u64_end → parse_from 0 (digits f n) ≡ some n
unfolding digits parse_from
parse_from-digits zero n h b = absurd (omega arith)
parse_from-digits (suc f) n h b = elim (Bool-cases (ltb n 10)) [
  | inl small ↦ ground arith
  | inr large ↦
      let rest = parse_from-digits f (n / 10) (ground arith) (omega arith) in
      let last : n / 10 * 10 + (48 + n % 10 - 48) ≡ n = omega arith in
      rw large (parse_from-append 0 (digits f (n / 10)) ((48 + n % 10) ∷ []) ∙ ground arith)
]

all-append : (p : ℕ → Bool) (s t : Text) → all p (s ++ t) ≡ (all p s && all p t)
all-append p [] t = refl
all-append p (c ∷ s) t = ground (arith, all-append p s t)

digits-ascii : (f n : ℕ) → all is_ascii_digit (digits f n) ≡ true
unfolding digits
digits-ascii zero n = refl
digits-ascii (suc f) n = ground (
  arith,
  digits-ascii f (n / 10),
  all-append is_ascii_digit (digits f (n / 10)) ((48 + n % 10) ∷ []),
)

starts-append : (s t : Text) → is_empty s ≡ false → starts_with_zero (s ++ t) ≡ starts_with_zero s
starts-append [] t h = cc
starts-append (c ∷ s) t h = refl

is_empty-append : (s : Text) (c : ℕ) → is_empty (s ++ (c ∷ [])) ≡ false
is_empty-append [] c = refl
is_empty-append (d ∷ s) c = refl

digits-filled : (f n : ℕ) → n < f → is_empty (digits f n) ≡ false
unfolding digits
digits-filled zero n h = absurd (omega arith)
digits-filled (suc f) n h = ground (arith, is_empty-append (digits f (n / 10)) (48 + n % 10))

-- A positive number does not start with a zero.
digits-start : (f n : ℕ) → n < f → 0 < n → starts_with_zero (digits f n) ≡ false
unfolding digits
digits-start zero n h p = absurd (omega arith)
digits-start (suc f) n h p = ground (
  arith,
  digits-start f (n / 10),
  digits-filled f (n / 10),
  starts-append (digits f (n / 10)) ((48 + n % 10) ∷ []),
)

-- The fuel does not matter.
digits-fuel : (f g n : ℕ) → n < f → n < g → digits f n ≡ digits g n
unfolding digits
digits-fuel zero g n h k = absurd (omega arith)
digits-fuel (suc f) zero n h k = absurd (omega arith)
digits-fuel (suc f) (suc g) n h k = ground (arith, digits-fuel f g (n / 10))

-- One more digit behind a positive number.
serialize-step :
    (a c : ℕ)
    → 0 < a
    → is_ascii_digit c ≡ true
    → serialize_u64 (a * 10 + (c - 48)) ≡ serialize_u64 a ++ (c ∷ [])
unfolding serialize_u64
serialize-step a c p h =
    let n = a * 10 + (c - 48) in
    let front : n / 10 ≡ a = ground arith in
    let back : 48 + n % 10 ≡ c = ground arith in
    let large : ltb n 10 ≡ false = ground arith in
    rw (large, front, back)
      (ap (λ (s : Text). s ++ (c ∷ [])) (digits-fuel n (suc a) a (omega arith) (omega arith)))

parse_from-serialize :
    (s : Text) (a n : ℕ)
    → 0 < a
    → all is_ascii_digit s ≡ true
    → parse_from a s ≡ some n
    → serialize_u64 n ≡ serialize_u64 a ++ s
unfolding parse_from
parse_from-serialize [] a n p h e = let same : a ≡ n = ground arith in rw (append-nil, same) refl
parse_from-serialize (c ∷ s) a n p h e =
    let next = a * 10 + (c - 48) in
    let rest = parse_from-serialize s next n (omega arith) (ground arith) (ground arith) in
    rest
    ∙ ap (λ (t : Text). t ++ s) (serialize-step a c p (ground arith))
    ∙ append_assoc (serialize_u64 a) (c ∷ []) s

parse_from-lt : (s : Text) (a n : ℕ) → a < u64_end → parse_from a s ≡ some n → n < u64_end
unfolding parse_from
parse_from-lt [] a n h e = ground arith
parse_from-lt (c ∷ s) a n h e =
    ground (arith, parse_from-lt s (a * 10 + (c - 48)) n, ltb→lt (a * 10 + (c - 48)) u64_end)

-- A canonical string: digits, and a leading zero only in "0".
abbrev pub IsCanonical : Text → Type 0
IsCanonical s =
    (is_empty s ≡ false)
    × (all is_ascii_digit s ≡ true)
    × ((ltb 1 (length s) && starts_with_zero s) ≡ false)

pub serialize_u64-IsCanonical : (n : ℕ) → IsCanonical (serialize_u64 n)
unfolding serialize_u64
serialize_u64-IsCanonical zero = (refl, refl, refl)
serialize_u64-IsCanonical (suc n) = (
  digits-filled (suc (suc n)) (suc n) (omega arith),
  digits-ascii (suc (suc n)) (suc n),
  ground (arith, digits-start (suc (suc n)) (suc n) (omega arith) (omega arith)),
)

serialize-digit : (c : ℕ) → is_ascii_digit c ≡ true → serialize_u64 (c - 48) ≡ c ∷ []
unfolding serialize_u64
serialize-digit c h = ground arith

serialize-parse : (s : Text) (n : ℕ) → IsCanonical s → parse_from 0 s ≡ some n → serialize_u64 n ≡ s
unfolding parse_from
serialize-parse [] n c e = cc
serialize-parse (c ∷ []) n can e =
    let same : c - 48 ≡ n = ground arith in rw (← same) (serialize-digit c (ground arith))
serialize-parse (c ∷ d ∷ s) n can e =
    let a : ℕ = c - 48 in
    let first : serialize_u64 a ≡ c ∷ [] = serialize-digit c (ground arith) in
    parse_from-serialize (d ∷ s) a n (ground arith) (ground arith) (ground arith)
    ∙ ap (λ (t : Text). t ++ (d ∷ s)) first

-- A string is read as a number exactly if the number is below 2^64 and the string is the one that
-- is written for it: there is one string for each number of 64 bits, and none for a larger one.
pub visit_str-serialize_u64 :
    (s : Text) (n : ℕ) → (visit_str s ≡ ok n) ↔ ((n < u64_end) × (s ≡ serialize_u64 n))
unfolding visit_str
visit_str-serialize_u64 s n = (
  λ e.
      let canonical : IsCanonical s = (ground arith, ground arith, ground arith) in
      let read : parse_from 0 s ≡ some n = ground arith in
      (parse_from-lt s 0 n (omega arith) read, sym (serialize-parse s n canonical read)),
  λ h.
      let canonical = serialize_u64-IsCanonical n in
      let read : parse_from 0 (serialize_u64 n) ≡ some n =
        unfold serialize_u64 in parse_from-digits (suc n) n (omega arith) h.0 in
      rw h.1 (ground arith),
)
