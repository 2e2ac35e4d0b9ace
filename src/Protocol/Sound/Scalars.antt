-- ===== src/Protocol/Sound/Scalars.antt =====
-- Decoded texts, identifiers and counters.
use agentpulse_rs.Common.{
  ℕ, ◌≡◌, ◌<◌, refl, inl, inr, Option, none, some, Result, ok, err, arith, try_option-IfSome,
  IfSome, String, subst,
}
use agentpulse_rs.Domain.Error.{Text}
use agentpulse_rs.Domain.Value.{NonEmptyText, new_counter}
use agentpulse_rs.Domain.Value.Laws.{new_text-IsVisible}
use agentpulse_rs.Domain.Session.{Uuid}
use agentpulse_rs.Domain.Identifiers.{Formats, IsV7, from_str-IsV7}
use agentpulse_rs.Domain.Constructed.{IsText}
use agentpulse_rs.Protocol.Error.{ProtocolError}
use agentpulse_rs.Protocol.Convert.Scalars.{
  decode_text, decode_optional_text, decode_counter, parse_id,
}
use agentpulse_rs.Protocol.Convert.Sessions.{with_optional}
use agentpulse_rs.Protocol.RoundTrip.Scalars.{apply_optional}

pub text-IsText : (s : Text) (t : NonEmptyText) → decode_text s ≡ ok t → IsText t
unfolding decode_text
text-IsText s t e = elim (new_text-IsVisible s) [
  | inl (seen, q) ↦ let same : record { text = s } ≡ t = ground arith in subst IsText same seen
  | inr (blank, q) ↦ absurd (ground arith)
]

pub optional_text-IsText :
    (s : Option Text) (t : Option NonEmptyText) → decode_optional_text s ≡ ok t → IfSome IsText t
unfolding decode_optional_text
optional_text-IsText s t e = try_option-IfSome IsText decode_text text-IsText s t e

pub counter_positive : (field : String) (n k : ℕ) → decode_counter field n ≡ ok k → 0 < k
unfolding decode_counter new_counter
counter_positive field n k e = ground arith

module _ (formats : Formats) where
  pub id-IsV7 :
      (entity : String) (s : Text) (id : Uuid) → parse_id formats entity s ≡ ok id → IsV7 formats id
  unfolding parse_id
  id-IsV7 entity s id e = from_str-IsV7 formats entity s id (ground arith)

-- What is set from an optional field is constructed.
pub with_optional_inv {ℓ κ μ ν} :
    {A : Type ℓ} {B : Type κ} {C : Type μ} (P : B → Type ν) (set : A → B → A)
    (g : C → Result ProtocolError B)
    → ((c : C) (y : B) → g c ≡ ok y → P y)
    → (x z : A) (o : Option C) → with_optional set g x o ≡ ok z
    → (q : Option B) × IfSome P q × (z ≡ apply_optional set x q)
with_optional_inv P set g sound x z none e = (none, tt, ground arith)
with_optional_inv P set g sound x z (some c) e = by_value (g c) refl
  where
    by_value :
        (r : Result ProtocolError _)
        → g c ≡ r
        → (q : Option _) × IfSome P q × (z ≡ apply_optional set x q)
    by_value (ok y) h = (some y, sound c y h, ground arith)
    by_value (err w) h = absurd (ground arith)
