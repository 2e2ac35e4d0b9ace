-- ===== src/Common/Map.antt =====
-- The standard library's BTreeMap and BTreeSet over numeric keys: association lists in key order.
pub mod Laws
use Prim.Native.Nat.{ℕ, ◌<◌}
use mathlib.Core.Path.{◌≡◌, refl}
use mathlib.Core.Bool.{Bool, true, false}
use mathlib.Core.List.{List, [], ◌∷◌, map}
use mathlib.Core.Option.{Option, none, some}
use native.Mathlib.Omega.{arith}
use agentpulse_rs.Common.Tests.{ltb, ◌==◌, if◌then◌else◌, is_some}

abbrev pub Map {ℓ} : Type ℓ → Type ℓ
Map V = List (ℕ × V)

module _ {ℓ} {V : Type ℓ} where
  unfoldable pub get : ℕ → Map V → Option V
  get k [] = none
  get k ((j, v) ∷ m) = if j == k then some v else get k m

  unfoldable pub insert : ℕ → V → Map V → Map V
  insert k v [] = (k, v) ∷ []
  insert k v ((j, w) ∷ m) =
      let rest = (j, w) ∷ insert k v m in
      if ltb k j then (k, v) ∷ (j, w) ∷ m else if j == k then (k, v) ∷ m else rest

  unfoldable pub remove : ℕ → Map V → Map V
  remove k [] = []
  remove k ((j, v) ∷ m) = let rest = remove k m in if j == k then rest else (j, v) ∷ rest

  abbrev pub contains_key : ℕ → Map V → Bool
  contains_key k m = is_some (get k m)

  abbrev pub keys : Map V → List ℕ
  keys m = map (λ e. e.0) m

  abbrev pub values : Map V → List V
  values m = map (λ e. e.1) m

  pub get-insert :
      (k j : ℕ) (v : V) (m : Map V) → get j (insert k v m) ≡ (if k == j then some v else get j m)
  unfolding get insert
  get-insert k j v [] = refl
  get-insert k j v ((i, w) ∷ m) = ground (arith, get-insert k j v m)

  pub get-remove : (k j : ℕ) (m : Map V) → get j (remove k m) ≡ (if k == j then none else get j m)
  unfolding get remove
  get-remove k j [] = ground arith
  get-remove k j ((i, w) ∷ m) = ground (arith, get-remove k j m)

  pub remove_absent : (k : ℕ) (m : Map V) → get k m ≡ none → remove k m ≡ m
  unfolding get remove
  remove_absent k [] h = refl
  remove_absent k ((j, v) ∷ m) h = ground (arith, remove_absent k m)

  -- Every key of the map is above `k`, and the keys rise.
  abbrev pub RisesFrom : ℕ → Map V → Type 0
  RisesFrom k [] = Unit {0}
  RisesFrom k ((j, v) ∷ m) = (k < j) × RisesFrom j m

  abbrev pub IsSorted : Map V → Type 0
  IsSorted [] = Unit {0}
  IsSorted ((k, v) ∷ m) = RisesFrom k m

  pub RisesFrom-mono : (i k : ℕ) (m : Map V) → i < k → RisesFrom k m → RisesFrom i m
  RisesFrom-mono i k [] h r = tt
  RisesFrom-mono i k ((j, v) ∷ m) h r = (omega arith, r.1)

  insert-RisesFrom :
      (i k : ℕ) (v : V) (m : Map V) → i < k → RisesFrom i m → RisesFrom i (insert k v m)
  unfolding insert
  insert-RisesFrom i k v [] h r = (h, tt)
  insert-RisesFrom i k v ((j, w) ∷ m) h r = ground (arith, insert-RisesFrom j k v m)

  pub insert-IsSorted : (k : ℕ) (v : V) (m : Map V) → IsSorted m → IsSorted (insert k v m)
  unfolding insert
  insert-IsSorted k v [] s = tt
  insert-IsSorted k v ((j, w) ∷ m) s = ground (arith, insert-RisesFrom j k v m)

  remove-RisesFrom : (i k : ℕ) (m : Map V) → RisesFrom i m → RisesFrom i (remove k m)
  unfolding remove
  remove-RisesFrom i k [] r = tt
  remove-RisesFrom i k ((j, w) ∷ m) r =
      ground (arith, remove-RisesFrom j k m, RisesFrom-mono i j (remove k m))

  pub RisesFrom-IsSorted : (k : ℕ) (m : Map V) → RisesFrom k m → IsSorted m
  RisesFrom-IsSorted k [] r = tt
  RisesFrom-IsSorted k ((j, v) ∷ m) r = r.1

  pub remove-IsSorted : (k : ℕ) (m : Map V) → IsSorted m → IsSorted (remove k m)
  unfolding remove
  remove-IsSorted k [] s = tt
  remove-IsSorted k ((j, w) ∷ m) s =
      ground (arith, remove-RisesFrom j k m, RisesFrom-IsSorted j (remove k m))

  -- Every entry of the map satisfies `P`.
  abbrev pub Each {κ} : (ℕ → V → Type κ) → Map V → Type κ
  Each P [] = Unit
  Each P ((k, v) ∷ m) = P k v × Each P m

module _ {ℓ κ} {V : Type ℓ} (P : ℕ → V → Type κ) where
  pub insert-Each : (k : ℕ) (v : V) (m : Map V) → P k v → Each P m → Each P (insert k v m)
  unfolding insert
  insert-Each k v [] p e = (p, tt)
  insert-Each k v ((j, w) ∷ m) p e = ground (arith, insert-Each k v m)

  pub remove-Each : (k : ℕ) (m : Map V) → Each P m → Each P (remove k m)
  unfolding remove
  remove-Each k [] e = tt
  remove-Each k ((j, w) ∷ m) e = ground (arith, remove-Each k m)

  pub get-Each : (k : ℕ) (m : Map V) (v : V) → Each P m → get k m ≡ some v → P k v
  unfolding get
  get-Each k [] v e h = cc
  get-Each k ((j, w) ∷ m) v e h = ground (arith, get-Each k m v)
