-- ===== src/Channels/Native/RoundTrip/Cursors.antt =====
-- The cursors of a client hello are read back.
use agentpulse_rs.Common.{ℕ, ◌<◌, ◌≡◌, refl, ap, sym, subst, [], ◌∷◌, ◌++◌, map, none, ok, arith}
use mathlib.Core.List.{append_assoc, append-nil}
use agentpulse_rs.Common.Map.{Map, get, insert, IsSorted, RisesFrom, Each}
use agentpulse_rs.Domain.Identifiers.{Formats, ReadsBack, IsV7}
use agentpulse_rs.Protocol.Decimal.{serialize_u64}
use agentpulse_rs.Channels.Native.Validate.Laws.{same_text_self}
use agentpulse_rs.Channels.Native.Convert.Scalars.{
  cursor_dto, parse_cursor, collect_cursors, parse_session_cursors,
}
use agentpulse_rs.Channels.Native.RoundTrip.Scalars.{
  IsSequence, parse_u64-serialize_u64, session_id_back,
}

RisesFrom-last :
    (i k v : ℕ) (a m : Map ℕ)
    → RisesFrom i (a ++ ((k, v) ∷ m))
    → (i < k) × (insert k v a ≡ a ++ ((k, v) ∷ [])) × (get k a ≡ none)
unfolding insert get
RisesFrom-last i k v [] m r = (r.0, refl, refl)
RisesFrom-last i k v ((j, w) ∷ a) m r = ground (arith, RisesFrom-last j k v a m r.1)

-- An entry that follows all others in the order is put last.
insert_last :
    (k v : ℕ) (a m : Map ℕ)
    → IsSorted (a ++ ((k, v) ∷ m))
    → (insert k v a ≡ a ++ ((k, v) ∷ [])) × (get k a ≡ none)
unfolding insert get
insert_last k v [] m r = (refl, refl)
insert_last k v ((j, w) ∷ a) m r = ground (arith, RisesFrom-last j k v a m r)

module _ (formats : Formats) where
  abbrev pub IsCursors : Map ℕ → Type 0
  IsCursors m = IsSorted m × Each (λ k n. IsV7 formats k × IsSequence n) m

  module _ (back : ReadsBack formats) where
    cursor_back :
        (k n : ℕ)
        → IsV7 formats k
        → IsSequence n
        → parse_cursor formats (cursor_dto formats (k, n)) ≡ ok (k, n)
    unfolding parse_cursor
    cursor_back k n v s = ground (
      arith,
      session_id_back formats back k v,
      parse_u64-serialize_u64 n s.1,
      same_text_self (serialize_u64 n),
    )

    collect_back :
        (a m : Map ℕ)
        → IsSorted (a ++ m)
        → Each (λ k n. IsV7 formats k × IsSequence n) m
        → collect_cursors formats a (map (cursor_dto formats) m) ≡ ok (a ++ m)
    unfolding collect_cursors
    collect_back a [] r e = ap ok (sym (append-nil a))
    collect_back a ((k, n) ∷ m) r e =
        let (put, absent) = insert_last k n a m r in
        let moved = append_assoc a ((k, n) ∷ []) m in
        let one = cursor_back k n e.0.0 e.0.1 in
        let rest = collect_back (a ++ ((k, n) ∷ [])) m (subst IsSorted (sym moved) r) e.1 in
        ground arith

    pub session_cursors_back :
        (m : Map ℕ)
        → IsCursors m
        → parse_session_cursors formats (map (cursor_dto formats) m) ≡ ok m
    unfolding parse_session_cursors
    session_cursors_back m v = collect_back [] m v.0 v.1
