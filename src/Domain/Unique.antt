-- ===== src/Domain/Unique.antt =====
-- The loop `if !identifiers.insert(id)` over a HashSet, which the validating constructors of
-- agentpulse-core share, and what it decides.
use agentpulse_rs.Common.{
  ℕ, ◌≡◌, refl, ◌↔◌, inl, inr, Bool, true, false, List, [], ◌∷◌, Option, none, some, arith, ◌==◌,
  if◌then◌else◌, any, Bool-cases, suc, ◌≤◌, length, ◌∙◌,
}

abbrev pub member : ℕ → List ℕ → Bool
member k ks = any (λ j. j == k) ks

-- The first identifier that was seen before.
unfoldable pub find_duplicate : List ℕ → List ℕ → Option ℕ
find_duplicate seen [] = none
find_duplicate seen (k ∷ ks) =
    let rest = find_duplicate (k ∷ seen) ks in if member k seen then some k else rest

-- No identifier of the list stands in `seen`, or twice.
abbrev pub IsFresh : List ℕ → List ℕ → Type 0
IsFresh seen [] = Unit {0}
IsFresh seen (k ∷ ks) = (member k seen ≡ false) × IsFresh (k ∷ seen) ks

abbrev pub IsUnique : List ℕ → Type 0
IsUnique [] = Unit {0}
IsUnique (k ∷ ks) = (member k ks ≡ false) × IsUnique ks

-- Two lists have no identifier in common.
abbrev Apart : List ℕ → List ℕ → Type 0
Apart seen [] = Unit {0}
Apart seen (k ∷ ks) = (member k seen ≡ false) × Apart seen ks

pub member_ne :
    (k j : ℕ) (ks : List ℕ) → member k ks ≡ true → member j ks ≡ false → (k == j) ≡ false
member_ne k j [] h e = cc
member_ne k j (i ∷ ks) h e = ground (arith, member_ne k j ks)

Apart-cons : (k : ℕ) (seen ks : List ℕ) → member k ks ≡ false → Apart seen ks → Apart (k ∷ seen) ks
Apart-cons k seen [] h a = tt
Apart-cons k seen (j ∷ ks) h a = ground (arith, Apart-cons k seen ks)

Apart-uncons :
    (k : ℕ) (seen ks : List ℕ) → Apart (k ∷ seen) ks → (member k ks ≡ false) × Apart seen ks
Apart-uncons k seen [] a = (refl, tt)
Apart-uncons k seen (j ∷ ks) a = ground (arith, Apart-uncons k seen ks)

find_duplicate-none :
    (seen ks : List ℕ) → (find_duplicate seen ks ≡ none) ↔ (IsUnique ks × Apart seen ks)
unfolding find_duplicate
find_duplicate-none seen [] = (λ h. (tt, tt), λ h. refl)
find_duplicate-none seen (k ∷ ks) = (
  λ h.
      let e : member k seen ≡ false = ground arith in
      let rest = (find_duplicate-none (k ∷ seen) ks).0 (ground arith) in
      let back = Apart-uncons k seen ks rest.1 in ((back.0, rest.0), (e, back.1)),
  λ h. rw h.1.0 ((find_duplicate-none (k ∷ seen) ks).1 (h.0.1, Apart-cons k seen ks h.0.0 h.1.1)),
)

Apart-nil : (ks : List ℕ) → Apart [] ks
Apart-nil [] = tt
Apart-nil (k ∷ ks) = (refl, Apart-nil ks)

-- The loop finds no duplicate exactly in a list without one.
pub find_duplicate-IsUnique : (ks : List ℕ) → (find_duplicate [] ks ≡ none) ↔ IsUnique ks
find_duplicate-IsUnique ks =
    (λ h. ((find_duplicate-none [] ks).0 h).0, λ u. (find_duplicate-none [] ks).1 (u, Apart-nil ks))

-- What it reports does stand in the list or among those seen.
pub find_duplicate-member :
    (seen ks : List ℕ) (k : ℕ) → find_duplicate seen ks ≡ some k → member k ks ≡ true
unfolding find_duplicate
find_duplicate-member seen [] k h = cc
find_duplicate-member seen (j ∷ ks) k h = ground (arith, find_duplicate-member (j ∷ seen) ks k)

-- The list without its first `k`.
erase : ℕ → List ℕ → List ℕ
erase k [] = []
erase k (j ∷ ks) = let rest = j ∷ erase k ks in if j == k then ks else rest

length-erase : (k : ℕ) (ks : List ℕ) → member k ks ≡ true → length ks ≡ suc (length (erase k ks))
unfolding erase
length-erase k [] h = cc
length-erase k (j ∷ ks) h = ground (arith, length-erase k ks)

member-erase : (k j : ℕ) (ks : List ℕ) → (k == j) ≡ false → member j (erase k ks) ≡ member j ks
unfolding erase
member-erase k j [] h = refl
member-erase k j (i ∷ ks) h = ground (arith, member-erase k j ks)

-- A list without duplicates whose members all stand in one that is no longer has all of its members.
pub members_exhaust :
    (ks js : List ℕ)
    → IsUnique ks
    → ((k : ℕ) → member k ks ≡ true → member k js ≡ true)
    → length js ≤ length ks
    → (k : ℕ) → member k js ≡ true
    → member k ks ≡ true
members_exhaust [] [] u sub le k h = h
members_exhaust [] (j ∷ js) u sub le k h = elim le [ ]
members_exhaust (i ∷ ks) js u sub le k h =
    let here = sub i (ground arith) in
    elim (Bool-cases (i == k)) [
      | inl e ↦ ground arith
      | inr e ↦
          let rest =
            members_exhaust ks (erase i js) u.1
              (λ j m.
                let apart : (i == j) ≡ false = ground (arith, member_ne j i ks) in
                member-erase i j js apart ∙ sub j (ground arith))
              (omega (arith, length-erase i js here)) k (member-erase i k js e ∙ h) in
          ground arith
    ]
