-- ===== src/Protocol/RoundTrip/Scalars.antt =====
-- Texts, identifiers, counters and timestamps are read back as they were written.
use agentpulse_rs.Common.{
  ℕ, ◌≡◌, ◌<◌, refl, ap, inl, inr, Option, none, some, Result, ok, arith, map_err,
  try_option-map_option, map_option, IfSome, String,
}
use agentpulse_rs.Domain.Error.{Text}
use agentpulse_rs.Domain.Value.{NonEmptyText, new_counter, Timestamp}
use agentpulse_rs.Domain.Value.Laws.{new_text-IsVisible}
use agentpulse_rs.Domain.Session.{Uuid}
use agentpulse_rs.Domain.Identifiers.{Formats, ReadsBack, IsV7, from_str-print_uuid}
use agentpulse_rs.Domain.Constructed.{IsText}
use agentpulse_rs.Protocol.Error.{ProtocolError, domain}
use agentpulse_rs.Protocol.Convert.Scalars.{
  decode_text, encode_text, decode_optional_text, encode_optional_text, decode_counter, parse_id,
  encode_timestamp, decode_timestamp,
}
use agentpulse_rs.Protocol.Convert.Sessions.{with_optional}

pub text_back : (t : NonEmptyText) → IsText t → decode_text t.text ≡ ok t
unfolding decode_text
text_back t v = elim (new_text-IsVisible t.text) [
  | inl (seen, e) ↦ rw e refl
  | inr (blank, e) ↦ absurd (blank v)
]

pub optional_text_back :
    (o : Option NonEmptyText)
    → IfSome IsText o
    → decode_optional_text (encode_optional_text o) ≡ ok o
unfolding decode_optional_text
optional_text_back o v = try_option-map_option IsText encode_text decode_text text_back o v

abbrev pub apply_optional {ℓ κ} : {A : Type ℓ} {B : Type κ} → (A → B → A) → A → Option B → A
apply_optional set x none = x
apply_optional set x (some y) = set x y

pub with_optional_back {ℓ κ μ ν} :
    {A : Type ℓ} {B : Type κ} {C : Type μ} (P : B → Type ν) (set : A → B → A) (f : B → C)
    (g : C → Result ProtocolError B)
    → ((y : B) → P y → g (f y) ≡ ok y)
    → (x : A) (o : Option B) → IfSome P o
    → with_optional set g x (map_option f o) ≡ ok (apply_optional set x o)
with_optional_back P set f g back x none v = refl
with_optional_back P set f g back x (some y) v = ground (arith, back y v)

pub counter_back : (field : String) (n : ℕ) → 0 < n → decode_counter field n ≡ ok n
unfolding decode_counter new_counter
counter_back field n v = ground arith

module _ (formats : Formats) (back : ReadsBack formats) where
  pub id_back :
      (entity : String) (id : Uuid)
      → IsV7 formats id
      → parse_id formats entity (formats.print_uuid id) ≡ ok id
  unfolding parse_id
  id_back entity id v = ap (map_err domain) (from_str-print_uuid formats back entity id v)

  pub timestamp_back :
      (field : String) (t : Timestamp) (s : Text)
      → encode_timestamp formats t field ≡ ok s
      → decode_timestamp formats s field ≡ ok t
  unfolding encode_timestamp decode_timestamp
  timestamp_back field t s e = ground (arith, back.time_back t s)
