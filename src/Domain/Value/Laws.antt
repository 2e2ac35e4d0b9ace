-- ===== src/Domain/Value/Laws.antt =====
-- What the constructors of agentpulse-core/src/value.rs accept.
use mathlib.Core.List.{reverse-cons}
use agentpulse_rs.Common.{
  ℕ, ◌≡◌, ◌⊎◌, refl, ◌∙◌, any-append, inl, inr, Bool, true, false, not, [], ◌∷◌, reverse, ok, err,
  arith, any, Bool-cases,
}
use agentpulse_rs.Domain.Error.{blank_text, Text}
use agentpulse_rs.Domain.Value.{is_whitespace, trim_start, trim, is_empty, new_text}

-- A text with something to see.
abbrev pub IsVisible : Text → Type 0
IsVisible s = any (λ c. not (is_whitespace c)) s ≡ true

any-reverse : (p : ℕ → Bool) (s : Text) → any p (reverse s) ≡ any p s
any-reverse p [] = refl
any-reverse p (c ∷ s) =
    rw (reverse-cons c s) (ground (arith, any-append p (reverse s) (c ∷ []), any-reverse p s))

-- Trimming removes no visible character.
any-trim_start :
    (s : Text)
    → any (λ c. not (is_whitespace c)) (trim_start s) ≡ any (λ c. not (is_whitespace c)) s
unfolding trim_start
any-trim_start [] = refl
any-trim_start (c ∷ s) = ground (arith, any-trim_start s)

trim_start-nil : (s : Text) → any (λ c. not (is_whitespace c)) s ≡ false → trim_start s ≡ []
unfolding trim_start
trim_start-nil [] e = refl
trim_start-nil (c ∷ s) e = ground (arith, trim_start-nil s)

any-trim :
    (s : Text) → any (λ c. not (is_whitespace c)) (trim s) ≡ any (λ c. not (is_whitespace c)) s
unfolding trim
any-trim s =
    any-reverse _ (trim_start (reverse (trim_start s)))
    ∙ any-trim_start (reverse (trim_start s))
    ∙ any-reverse _ (trim_start s)
    ∙ any-trim_start s

is_empty_of_any : (p : ℕ → Bool) (s : Text) → any p s ≡ true → is_empty s ≡ false
is_empty_of_any p [] e = cc
is_empty_of_any p (c ∷ s) e = refl

pub is_empty-trim : (s : Text) → is_empty (trim s) ≡ not (any (λ c. not (is_whitespace c)) s)
is_empty-trim s = elim (Bool-cases (any (λ c. not (is_whitespace c)) s)) [
  | inl e ↦ rw e (is_empty_of_any _ (trim s) (any-trim s ∙ e))
  | inr e ↦ rw e (unfold trim trim_start in rw (trim_start-nil s e, trim))
]

-- `NonEmptyText::new` keeps exactly the texts that hold a visible character, unchanged, and
-- refuses every other text as blank.
pub new_text-IsVisible :
    (s : Text)
    → (IsVisible s × (new_text s ≡ ok (record { text = s })))
      ⊎ ((¬ IsVisible s) × (new_text s ≡ err (blank_text "text")))
unfolding new_text
new_text-IsVisible s = elim (Bool-cases (any (λ c. not (is_whitespace c)) s)) [
  | inl seen ↦ inl (seen, ground (arith, is_empty-trim s))
  | inr blank ↦ inr (λ seen. ground arith, ground (arith, is_empty-trim s))
]
