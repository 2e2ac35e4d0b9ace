-- ===== src/Common/Results.antt =====
-- Rust's `collect::<Result<Vec<_>, _>>` and `Option::transpose`, and their round trips.
use mathlib.Core.Path.{◌≡◌, refl}
use mathlib.Core.List.{List, [], ◌∷◌, map}
use mathlib.Core.Option.{Option, none, some}
use native.Mathlib.Omega.{arith}
use agentpulse_rs.Common.Tests.{Result, ok, err, ◌>>=◌}
use agentpulse_rs.Common.Lists.{All}

module _ {ℓ κ μ} {E : Type ℓ} {A : Type κ} {B : Type μ} where
  -- The first error ends it.
  abbrev pub try_map : (A → Result E B) → List A → Result E (List B)
  try_map f [] = ok []
  try_map f (x ∷ xs) = f x >>= λ y. try_map f xs >>= λ ys. ok (y ∷ ys)

  abbrev pub try_option : (A → Result E B) → Option A → Result E (Option B)
  try_option f none = ok none
  try_option f (some x) = f x >>= λ y. ok (some y)

abbrev pub map_option {κ μ} : {A : Type κ} {B : Type μ} → (A → B) → Option A → Option B
map_option f none = none
map_option f (some x) = some (f x)

-- The predicate holds of a value that is there.
abbrev pub IfSome {κ μ} : {A : Type κ} → (A → Type μ) → Option A → Type μ
IfSome P none = Unit
IfSome P (some x) = P x

module _ {ℓ κ μ ν} {E : Type ℓ} {A : Type κ} {B : Type μ} (P : A → Type ν) where
  pub try_map-map :
      (f : A → B) (g : B → Result E A)
      → ((x : A) → P x → g (f x) ≡ ok x)
      → (xs : List A) → All P xs
      → try_map g (map f xs) ≡ ok xs
  try_map-map f g back [] p = refl
  try_map-map f g back (x ∷ xs) p = ground (arith, back x p.0, try_map-map f g back xs p.1)

  pub try_option-map_option :
      (f : A → B) (g : B → Result E A)
      → ((x : A) → P x → g (f x) ≡ ok x)
      → (o : Option A) → IfSome P o
      → try_option g (map_option f o) ≡ ok o
  try_option-map_option f g back none p = refl
  try_option-map_option f g back (some x) p = ground (arith, back x p)

  pub try_map-try_map :
      (f : A → Result E B) (g : B → Result E A)
      → ((x : A) → P x → (y : B) → f x ≡ ok y → g y ≡ ok x)
      → (xs : List A) → All P xs
      → (ys : List B) → try_map f xs ≡ ok ys
      → try_map g ys ≡ ok xs
  try_map-try_map f g back [] p [] e = refl
  try_map-try_map f g back [] p (y ∷ ys) e = ground arith
  try_map-try_map f g back (x ∷ xs) p [] e = ground arith
  try_map-try_map f g back (x ∷ xs) p (y ∷ ys) e =
      ground (arith, back x p.0 y, try_map-try_map f g back xs p.1 ys)

  pub try_option-try_option :
      (f : A → Result E B) (g : B → Result E A)
      → ((x : A) → P x → (y : B) → f x ≡ ok y → g y ≡ ok x)
      → (o : Option A) → IfSome P o
      → (q : Option B) → try_option f o ≡ ok q
      → try_option g q ≡ ok o
  try_option-try_option f g back none p none e = refl
  try_option-try_option f g back none p (some y) e = ground arith
  try_option-try_option f g back (some x) p none e = ground arith
  try_option-try_option f g back (some x) p (some y) e = ground (arith, back x p y)

module _ {ℓ κ μ ν} {E : Type ℓ} {A : Type κ} {B : Type μ} (P : B → Type ν) (f : A → Result E B)
    (sound : (x : A) (y : B) → f x ≡ ok y → P y) where
  pub try_map-All : (xs : List A) (ys : List B) → try_map f xs ≡ ok ys → All P ys
  try_map-All xs [] e = tt
  try_map-All [] (y ∷ ys) e = ground arith
  try_map-All (x ∷ xs) (y ∷ ys) e = (sound x y (ground arith), try_map-All xs ys (ground arith))

  pub try_option-IfSome : (o : Option A) (q : Option B) → try_option f o ≡ ok q → IfSome P q
  try_option-IfSome o none e = tt
  try_option-IfSome none (some y) e = ground arith
  try_option-IfSome (some x) (some y) e = sound x y (ground arith)

-- A chain that succeeds went through its first step.
pub bind-ok {ℓ κ μ} :
    {E : Type ℓ} {A : Type κ} {B : Type μ} (m : Result E A) (f : A → Result E B) (b : B)
    → (m >>= f) ≡ ok b
    → (a : A) × (m ≡ ok a) × (f a ≡ ok b)
bind-ok (ok a) f b h = (a, refl, h)
bind-ok (err e) f b h = absurd (ground arith)
