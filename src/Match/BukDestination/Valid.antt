-- ===== src/Match/BukDestination/Valid.antt =====
-- The destination of Buk is one where Buk may lead.
use buk_yutnori.Prelude.{
  ℕ, zero, suc, ◌≡◌, subst, true, not, List, [], ◌∷◌, some, arith, inl, inr, Bool-cases,
  Option-cases, get_elem?, length, contains, ◌==◌, nat_eq, string_eq,
}
use buk_yutnori.Prelude.Result.{ok, >>=-eq-ok, ◌>>=◌, ◌>>◌, guard}
use buk_yutnori.Domain.{SpaceId, invalid_buk_planner}
use buk_yutnori.Room.Settings.{Settings}
use buk_yutnori.Board.Types.{Graph}
use buk_yutnori.Match.BukDestination.{
  RandomSource, validate_buk_destination, validate_candidates, random_ticket, candidate_at,
  initial_buk_destination,
}

candidate_valid :
    (g : Graph) (seen cs : List SpaceId) (i : ℕ) {seen' : List SpaceId} {d : SpaceId}
    → validate_candidates g seen cs ≡ ok seen'
    → get_elem? cs i ≡ some d
    → validate_buk_destination g d ≡ ok tt
unfolding validate_candidates
candidate_valid g seen [] i h e = absurd (ground arith)
candidate_valid g seen (c ∷ cs) zero {seen'} {d} h e =
    let (_, _, h1) = >>=-eq-ok (guard (not (contains seen c)) invalid_buk_planner) _ h in
    let (_, valid, _) = >>=-eq-ok (validate_buk_destination g c) _ h1 in
    subst (λ x. validate_buk_destination g x ≡ ok tt) (ground arith) valid
candidate_valid g seen (c ∷ cs) (suc i) h e =
    let (_, _, h1) = >>=-eq-ok (guard (not (contains seen c)) invalid_buk_planner) _ h in
    let (_, _, h2) = >>=-eq-ok (validate_buk_destination g c) _ h1 in
    candidate_valid g (c ∷ seen) cs i h2 e

-- In Buk mode, the destination that a new match chooses, fixed or random, is a named space of the
-- board that the validation of destinations accepts.
pub initial_buk_destination-valid :
    (g : Graph) (settings : Settings) (source : RandomSource) {d : SpaceId}
    → settings.buk_mode_enabled ≡ true
    → initial_buk_destination g settings source ≡ ok d
    → validate_buk_destination g d ≡ ok tt
unfolding initial_buk_destination
initial_buk_destination-valid g settings source {d} b h =
    elim (Bool-cases settings.random_buk_destination) [
      | inr r ↦
          let fixed : validate_buk_destination g g.fixed_buk_destination
                >> ok g.fixed_buk_destination
              ≡ ok d =
            ground arith in
          let (_, valid, k) =
            >>=-eq-ok (validate_buk_destination g g.fixed_buk_destination) _ fixed in
          subst (λ x. validate_buk_destination g x ≡ ok tt) (ground arith) valid
      | inl r ↦
          let random : (do
            guard (length g.buk_candidates == 10) invalid_buk_planner
            seen ← validate_candidates g [] g.buk_candidates
            guard (contains seen g.fixed_buk_destination) invalid_buk_planner
            ticket ← random_ticket source (length g.buk_candidates)
            candidate_at g.buk_candidates ticket)
              ≡ ok d =
            ground arith in
          let (_, _, h1) =
            >>=-eq-ok (guard (length g.buk_candidates == 10) invalid_buk_planner) _ random in
          let (seen, made, h2) = >>=-eq-ok (validate_candidates g [] g.buk_candidates) _ h1 in
          let (_, _, h3) =
            >>=-eq-ok (guard (contains seen g.fixed_buk_destination) invalid_buk_planner) _ h2 in
          let (ticket, _, h4) = >>=-eq-ok (random_ticket source (length g.buk_candidates)) _ h3 in
          elim (Option-cases (get_elem? g.buk_candidates ticket)) [
            | inl n ↦ absurd (ground arith)
            | inr (c, e) ↦ candidate_valid g [] g.buk_candidates ticket made (ground arith)
          ]
    ]
