-- ===== src/Channels/Native/Validate/Hello.antt =====
-- The check of a client's hello in agentpulse-channels/native/src/protocol.rs, as a whole.
use agentpulse_rs.Common.{
  ℕ, ◌<◌, ◌≡◌, ◌↔◌, inl, inr, refl, Bool, true, false, not, ◌&&◌, List, [], ◌∷◌, Option, none, some,
  ok, err, ◌==◌, ◌>>◌, arith, String, any, All, Bool-cases,
}
use agentpulse_rs.Common.Map.{Map, values}
use agentpulse_rs.Domain.Error.{Text}
use agentpulse_rs.Domain.Value.{is_empty}
use agentpulse_rs.Domain.Value.Laws.{IsVisible, is_empty-trim}
use agentpulse_rs.Domain.Session.{Uuid}
use agentpulse_rs.Domain.Unique.{IsUnique}
use agentpulse_rs.Domain.Identifiers.{Formats, ReadsBack, IsV7}
use agentpulse_rs.Channels.Native.Message.{ClientHello}
use agentpulse_rs.Channels.Native.Validate.{
  Check, if_some, is_none, require_that, validate_uuid_v7, validate_nonblank, are_unique,
  validate_hello,
}
use agentpulse_rs.Channels.Native.Validate.Laws.{validate_uuid_v7-ok, are_unique-IsUnique}

-- The text is the one that the uuid crate prints for an identity of version 7.
abbrev pub IsPrinted : Formats → Text → Type 0
IsPrinted formats s = (id : Uuid) × IsV7 formats id × (s ≡ formats.print_uuid id)

abbrev pub IfSome : (Text → Type 0) → Option Text → Type 0
IfSome P none = Unit {0}
IfSome P (some s) = P s

-- What a hello must be: its client and its run are named by identities of version 7, no name and no
-- version is blank, cursors are positive and come with the run that they were stored in, and some
-- protocol versions are offered, none of them twice.
pub record IsHello (formats : Formats) (h : ClientHello) : Type 0 where
  pub client_id : IsPrinted formats h.client_id
  pub display_name : IsVisible h.display_name
  pub version : IfSome IsVisible h.version
  pub host_run_id : IfSome (IsPrinted formats) h.host_run_id
  pub cursors_of_run : (h.host_run_id ≡ none) → h.session_cursors ≡ []
  pub cursors_positive : All (λ n. 0 < n) (values h.session_cursors)
  pub some_version : ¬ (h.supported_protocol_versions ≡ [])
  pub versions_differ : IsUnique h.supported_protocol_versions

-- Two checks pass exactly if both pass.
both-ok : (x y : Check) → ((x >> y) ≡ ok tt) ↔ ((x ≡ ok tt) × (y ≡ ok tt))
both-ok (ok u) y = (λ e. (refl, e), λ b. b.1)
both-ok (err x) y = (λ e. absurd (ground arith), λ b. absurd (ground arith))

require_that-ok :
    (b : Bool) (field reason : String) → (require_that b field reason ≡ ok tt) ↔ (b ≡ true)
require_that-ok true field reason = (λ e. refl, λ e. refl)
require_that-ok false field reason = (λ e. absurd (ground arith), λ e. absurd (ground arith))

if_some-ok :
    (f : Text → Check) (P : Text → Type 0)
    → ((s : Text) → (f s ≡ ok tt) ↔ P s)
    → (o : Option Text) → (if_some f o ≡ ok tt) ↔ IfSome P o
if_some-ok f P each none = (λ e. tt, λ u. refl)
if_some-ok f P each (some s) = each s

validate_nonblank-IsVisible :
    (field : String) (s : Text) → (validate_nonblank field s ≡ ok tt) ↔ IsVisible s
unfolding validate_nonblank
validate_nonblank-IsVisible field s =
    let same = is_empty-trim s in (λ e. ground (arith, same), λ e. ground (arith, same))

positive-All : (ns : List ℕ) → (not (any (λ n. n == 0) ns) ≡ true) ↔ All (λ n. 0 < n) ns
positive-All [] = (λ e. tt, λ u. refl)
positive-All (n ∷ ns) =
    let (forth, back) = positive-All ns in
    elim (Bool-cases (n == 0)) [
      | inl zero ↦ (λ e. absurd (ground arith), λ u. absurd (ground arith))
      | inr more ↦ rw more (λ e. (ground arith, forth e), λ u. back u.1)
    ]

cursors-ok :
    (o : Option Text) (m : Map ℕ)
    → (not (is_none o && not (is_empty m)) ≡ true) ↔ ((o ≡ none) → m ≡ [])
cursors-ok none [] = (λ e u. refl, λ u. refl)
cursors-ok none (x ∷ m) = (λ e. absurd cc, λ u. let none_there = u refl in absurd cc)
cursors-ok (some s) m = (λ e u. absurd cc, λ u. refl)

some-ok : (ks : List ℕ) → (not (is_empty ks) ≡ true) ↔ (¬ (ks ≡ []))
some-ok [] = (λ e. absurd cc, λ u. absurd (u refl))
some-ok (k ∷ ks) = (λ e u. absurd cc, λ u. refl)

-- A hello passes exactly if it is one: its client, and its run if it has one, are named by the text
-- printed for an identity of version 7, its name, and its version if it has one, have a visible
-- character, its cursors are positive and there are none without a run, and it offers protocol
-- versions, at least one and none of them twice. The uuid crate reads what it prints.
pub validate_hello-IsHello :
    (formats : Formats) (back : ReadsBack formats) (h : ClientHello)
    → (validate_hello formats h ≡ ok tt) ↔ IsHello formats h
unfolding validate_hello
validate_hello-IsHello formats back h = (
  λ e.
      let (e1, f1) = (both-ok (validate_uuid_v7 formats "client_id" h.client_id) _).0 e in
      let (e2, f2) = (both-ok (validate_nonblank "display_name" h.display_name) _).0 f1 in
      let (e3, f3) = (both-ok (if_some (validate_nonblank "version") h.version) _).0 f2 in
      let (e4, f4) =
        (both-ok (if_some (validate_uuid_v7 formats "host_run_id") h.host_run_id) _).0 f3 in
      let (e5, f5) = (both-ok (require_that _ _ _) _).0 f4 in
      let (e6, f6) = (both-ok (require_that _ _ _) _).0 f5 in
      let (e7, e8) = (both-ok (require_that _ _ _) _).0 f6 in
      record {
        client_id = (printed "client_id" h.client_id).0 e1;
        display_name = (validate_nonblank-IsVisible "display_name" h.display_name).0 e2;
        version = named.0 e3;
        host_run_id = run.0 e4;
        cursors_of_run = cursors.0 ((require_that-ok _ _ _).0 e5);
        cursors_positive = positive.0 ((require_that-ok _ _ _).0 e6);
        some_version = (some-ok h.supported_protocol_versions).0 ((require_that-ok _ _ _).0 e7);
        versions_differ = unique.0 ((require_that-ok _ _ _).0 e8);
      },
  λ g.
      rw
        (
          (printed "client_id" h.client_id).1 g.client_id,
          (validate_nonblank-IsVisible "display_name" h.display_name).1 g.display_name,
          named.1 g.version,
          run.1 g.host_run_id,
          cursors.1 g.cursors_of_run,
          positive.1 g.cursors_positive,
          (some-ok h.supported_protocol_versions).1 g.some_version,
          unique.1 g.versions_differ,
        )
        refl,
)
  where
    printed :
        (field : String) (s : Text)
        → (validate_uuid_v7 formats field s ≡ ok tt) ↔ IsPrinted formats s
    printed field s = validate_uuid_v7-ok formats back field s

    named : (if_some (validate_nonblank "version") h.version ≡ ok tt) ↔ IfSome IsVisible h.version
    named = if_some-ok _ _ (validate_nonblank-IsVisible "version") h.version

    run :
        (if_some (validate_uuid_v7 formats "host_run_id") h.host_run_id ≡ ok tt)
        ↔ IfSome (IsPrinted formats) h.host_run_id
    run = if_some-ok _ _ (printed "host_run_id") h.host_run_id

    cursors :
        (not (is_none h.host_run_id && not (is_empty h.session_cursors)) ≡ true)
        ↔ ((h.host_run_id ≡ none) → h.session_cursors ≡ [])
    cursors = cursors-ok h.host_run_id h.session_cursors

    positive :
        (not (any (λ n. n == 0) (values h.session_cursors)) ≡ true)
        ↔ All (λ n. 0 < n) (values h.session_cursors)
    positive = positive-All (values h.session_cursors)

    unique :
        (are_unique h.supported_protocol_versions ≡ true) ↔ IsUnique h.supported_protocol_versions
    unique = are_unique-IsUnique h.supported_protocol_versions
