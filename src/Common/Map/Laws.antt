-- ===== src/Common/Map/Laws.antt =====
-- More laws of the ordered maps that stand for the standard library's BTreeMap and BTreeSet.
use agentpulse_rs.Common.{ℕ, ◌≤◌, ◌≡◌, refl, ◌||◌, [], ◌∷◌, none, some, arith, ◌==◌}
use agentpulse_rs.Common.Map.{
  Map, get, insert, remove, contains_key, RisesFrom, IsSorted, RisesFrom-IsSorted, Each, get-insert,
}

module _ {ℓ} {V : Type ℓ} where
  pub get-below : (j k : ℕ) (m : Map V) → j ≤ k → RisesFrom k m → get j m ≡ none
  unfolding get
  get-below j k [] h r = refl
  get-below j k ((i, w) ∷ m) h r = ground (arith, get-below j i m)

  -- To write back what stands there changes nothing.
  pub insert_same : (k : ℕ) (v : V) (m : Map V) → IsSorted m → get k m ≡ some v → insert k v m ≡ m
  unfolding get insert
  insert_same k v [] s h = cc
  insert_same k v ((j, w) ∷ m) s h =
      ground (arith, insert_same k v m, RisesFrom-IsSorted j m, get-below k j m)

  pub contains_key-insert :
      (k j : ℕ) (v : V) (m : Map V) → contains_key j (insert k v m) ≡ (k == j || contains_key j m)
  contains_key-insert k j v m = ground (arith, get-insert k j v m)

  pub remove-insert : (k : ℕ) (v : V) (m : Map V) → remove k (insert k v m) ≡ remove k m
  unfolding remove insert
  remove-insert k v [] = ground arith
  remove-insert k v ((j, w) ∷ m) = ground (arith, remove-insert k v m)

  -- A later write wins.
  pub insert-insert : (k : ℕ) (v w : V) (m : Map V) → insert k v (insert k w m) ≡ insert k v m
  unfolding insert
  insert-insert k v w [] = ground arith
  insert-insert k v w ((j, u) ∷ m) = ground (arith, insert-insert k v w m)

module _ {ℓ κ μ} {V : Type ℓ} (P : ℕ → V → Type κ) (Q : ℕ → V → Type μ) where
  pub Each-mono : ((k : ℕ) (v : V) → P k v → Q k v) → (m : Map V) → Each P m → Each Q m
  Each-mono f [] e = tt
  Each-mono f ((k, v) ∷ m) e = (f k v e.0, Each-mono f m e.1)
