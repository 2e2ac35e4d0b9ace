-- ===== src/Channels/Native/Validate/Laws.antt =====
-- What two checks of agentpulse-channels/native/src/protocol.rs decide: that an identity is written
-- in its one form, and that the protocol versions of a client differ.
use agentpulse_rs.Common.{
  ℕ, suc, ◌≡◌, ◌≤◌, ◌<◌, ◌↔◌, refl, sym, ap, ◌∙◌, inl, inr, true, false, ◌||◌, List, [], ◌∷◌,
  Option, none, some, ok, leb, ◌==◌, length, arith, String, Bool-cases,
}
use agentpulse_rs.Domain.Error.{Text}
use agentpulse_rs.Domain.Session.{Uuid}
use agentpulse_rs.Domain.Unique.{member, IsUnique}
use agentpulse_rs.Domain.Identifiers.{Formats, ReadsBack, IsV7}
use agentpulse_rs.Channels.Native.Validate.{
  same_text, validated_uuid, validate_uuid_v7, sorted_insert, sort_unstable, dedup, are_unique,
}

pub same_text_eq : (s t : Text) → same_text s t ≡ true → s ≡ t
unfolding same_text
same_text_eq [] [] h = refl
same_text_eq [] (d ∷ t) h = cc
same_text_eq (c ∷ s) [] h = cc
same_text_eq (c ∷ s) (d ∷ t) h = ground (arith, same_text_eq s t)

pub same_text_self : (s : Text) → same_text s s ≡ true
unfolding same_text
same_text_self [] = refl
same_text_self (c ∷ s) = ground (arith, same_text_self s)

-- An identity passes exactly if it is the text that the uuid crate prints for a UUID of version 7:
-- no other spelling of the same identity does. The uuid crate reads what it prints.
pub validate_uuid_v7-ok :
    (formats : Formats) (back : ReadsBack formats) (field : String) (s : Text)
    → (validate_uuid_v7 formats field s ≡ ok tt)
      ↔ ((id : Uuid) × IsV7 formats id × (s ≡ formats.print_uuid id))
unfolding validate_uuid_v7
validate_uuid_v7-ok formats back field s = (
  λ h. passed (formats.parse_uuid s) h,
  λ (id, v, e). rw (e, back.uuid_back id, v, same_text_self (formats.print_uuid id)) refl,
)
  where
    passed :
        (o : Option Uuid)
        → validated_uuid formats field s o ≡ ok tt
        → (id : Uuid) × IsV7 formats id × (s ≡ formats.print_uuid id)
    passed none h = absurd (ground arith)
    passed (some id) h =
        let same : same_text (formats.print_uuid id) s ≡ true = ground arith in
        (id, ground arith, sym (same_text_eq (formats.print_uuid id) s same))

-- The list rises, repeats included.
abbrev Rises : List ℕ → Type 0
Rises [] = Unit {0}
Rises (k ∷ []) = Unit {0}
Rises (k ∷ j ∷ ks) = (k ≤ j) × Rises (j ∷ ks)

member-sorted_insert :
    (i k : ℕ) (ks : List ℕ) → member i (sorted_insert k ks) ≡ ((k == i) || member i ks)
unfolding sorted_insert
member-sorted_insert i k [] = refl
member-sorted_insert i k (j ∷ js) = ground (arith, member-sorted_insert i k js)

length-sorted_insert : (k : ℕ) (ks : List ℕ) → length (sorted_insert k ks) ≡ suc (length ks)
unfolding sorted_insert
length-sorted_insert k [] = refl
length-sorted_insert k (j ∷ js) = ground (arith, length-sorted_insert k js)

sorted_insert-Rises : (k : ℕ) (ks : List ℕ) → Rises ks → Rises (sorted_insert k ks)
unfolding sorted_insert
sorted_insert-Rises k [] r = tt
sorted_insert-Rises k (j ∷ []) r = ground arith
sorted_insert-Rises k (j ∷ i ∷ js) r = ground (arith, sorted_insert-Rises k (i ∷ js))

below_Rises : (i j : ℕ) (ks : List ℕ) → i < j → Rises (j ∷ ks) → member i (j ∷ ks) ≡ false
below_Rises i j [] h r = ground arith
below_Rises i j (k ∷ ks) h r = ground (arith, below_Rises i k ks)

length-dedup : (ks : List ℕ) → length (dedup ks) ≤ length ks
unfolding dedup
length-dedup [] = omega arith
length-dedup (k ∷ []) = omega arith
length-dedup (k ∷ j ∷ ks) = ground (arith, length-dedup (j ∷ ks))

dedup-IsUnique :
    (ks : List ℕ)
    → Rises ks
    → ((length (dedup ks) ≡ length ks) → IsUnique ks)
      × (IsUnique ks → length (dedup ks) ≡ length ks)
unfolding dedup
dedup-IsUnique [] r = (λ h. tt, λ u. refl)
dedup-IsUnique (k ∷ []) r = (λ h. (refl, tt), λ u. refl)
dedup-IsUnique (k ∷ j ∷ ks) r =
    let (forth, back) = dedup-IsUnique (j ∷ ks) r.1 in
    elim (Bool-cases (k == j)) [
      | inl same ↦
          let short = length-dedup (j ∷ ks) in
          (λ h. absurd (ground arith), λ u. absurd (ground arith))
      | inr other ↦
          let apart = below_Rises k j ks (ground arith) r.1 in
          (λ h. (apart, forth (ground arith)), λ u. ground (arith, back u.1))
    ]

sorted_insert-IsUnique :
    (k : ℕ) (ks : List ℕ) → IsUnique (sorted_insert k ks) ↔ ((member k ks ≡ false) × IsUnique ks)
unfolding sorted_insert
sorted_insert-IsUnique k [] = (λ u. (refl, tt), λ u. (refl, tt))
sorted_insert-IsUnique k (j ∷ js) =
    let (forth, back) = sorted_insert-IsUnique k js in
    let inside = member-sorted_insert j k js in
    elim (Bool-cases (leb k j)) [
      | inl front ↦ rw front (λ u. u, λ u. u)
      | inr behind ↦ rw behind (
        λ u. let rest = forth u.1 in (ground arith, (ground arith, rest.1)),
        λ u. (ground arith, back (ground arith, u.1.1)),
      )
    ]

member-sort_unstable : (i : ℕ) (ks : List ℕ) → member i (sort_unstable ks) ≡ member i ks
unfolding sort_unstable
member-sort_unstable i [] = refl
member-sort_unstable i (k ∷ ks) =
    member-sorted_insert i k (sort_unstable ks)
    ∙ ap (λ b. (k == i) || b) (member-sort_unstable i ks)

length-sort_unstable : (ks : List ℕ) → length (sort_unstable ks) ≡ length ks
unfolding sort_unstable
length-sort_unstable [] = refl
length-sort_unstable (k ∷ ks) =
    length-sorted_insert k (sort_unstable ks) ∙ ap suc (length-sort_unstable ks)

sort_unstable-Rises : (ks : List ℕ) → Rises (sort_unstable ks)
unfolding sort_unstable
sort_unstable-Rises [] = tt
sort_unstable-Rises (k ∷ ks) = sorted_insert-Rises k (sort_unstable ks) (sort_unstable-Rises ks)

sort_unstable-IsUnique : (ks : List ℕ) → IsUnique (sort_unstable ks) ↔ IsUnique ks
unfolding sort_unstable
sort_unstable-IsUnique [] = (λ u. u, λ u. u)
sort_unstable-IsUnique (k ∷ ks) =
    let (forth, back) = sort_unstable-IsUnique ks in
    let (out, into) = sorted_insert-IsUnique k (sort_unstable ks) in
    let same = member-sort_unstable k ks in
    (λ u. (sym same ∙ (out u).0, forth (out u).1), λ u. into (same ∙ u.0, back u.1))

-- The versions that a client offers pass exactly if no version stands among them twice.
pub are_unique-IsUnique : (ks : List ℕ) → (are_unique ks ≡ true) ↔ IsUnique ks
unfolding are_unique
are_unique-IsUnique ks =
    let (forth, back) = dedup-IsUnique (sort_unstable ks) (sort_unstable-Rises ks) in
    let (out, into) = sort_unstable-IsUnique ks in
    let long = length-sort_unstable ks in
    (λ h. out (forth (ground arith)), λ u. let same = back (into u) in ground arith)
