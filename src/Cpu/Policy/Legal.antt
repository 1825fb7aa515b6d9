-- ===== src/Cpu/Policy/Legal.antt =====
-- A movement that a CPU player decides on can be made.
use buk_yutnori.Prelude.{
  ◌≡◌, ◌≢◌, refl, subst, List, [], ◌∷◌, none, some, string_eq, contains, arith, inl, inr, ◌⊎◌,
}
use buk_yutnori.Prelude.Result.{ok, guard, Result-cases, >>=-eq-ok}
use buk_yutnori.Domain.{
  Error, PieceId, TeamId, team_eq, YutResult, yut_do, yut_gae, yut_geol, yut_yut, yut_mo,
  yut_backdo, yut_buk, yut_other, yut_eq, piece_state_eq, Route, route_empty, route_eq,
  validate_route, invalid_move_plans, movement_backdo,
}
use buk_yutnori.Match.Types.{Piece, OrdinaryMovePlan, MoveOutcome}
use buk_yutnori.Match.Game.{Game}
use buk_yutnori.Match.Movement.{
  ordinary_move_plans, backdo_move_plan, select_ordinary_move_plan, apply_ordinary_move,
  apply_backdo_move,
}
use buk_yutnori.Match.Resolution.{
  MoveResolutionPlan, apply_ordinary_move_plan, apply_move_resolution,
}
use buk_yutnori.Cpu.Ranking.{MoveCandidate}
use buk_yutnori.Cpu.Policy.{
  MatchReader, reader, Policy, automatic_forward_plan, Planned, no_forward, no_backdo,
  forward_planned, backdo_planned, planned, candidate_of, candidate_for_piece, some_ids,
  piece_distance,
}

automatic_plan-selected :
    (plans : List OrdinaryMovePlan) {plan : OrdinaryMovePlan} {route : Route}
    → automatic_forward_plan plans ≡ ok (plan, route)
    → select_ordinary_move_plan plans route ≡ ok plan
unfolding automatic_forward_plan select_ordinary_move_plan validate_route
automatic_plan-selected [] h = absurd (ground arith)
automatic_plan-selected (p ∷ []) h = ground arith
automatic_plan-selected (p ∷ q ∷ []) h = ground arith
automatic_plan-selected (p ∷ q ∷ r ∷ ps) h = absurd (ground arith)

-- The movement of the piece can be made: a Backdo, or a forward movement by the route.
abbrev pub Applies : Game → TeamId → PieceId → YutResult → Route → Type 0
Applies game team id result route =
    ((result ≡ yut_backdo)
      × ((after : Game × MoveOutcome) × (apply_backdo_move game team id ≡ ok after)))
    ⊎ ((result ≢ yut_backdo)
        × ((after : Game × MoveOutcome) × (apply_ordinary_move game team id result route
              ≡ ok after)))

no_forward-none : (e : Error) {p : Planned} → no_forward e ≢ ok (some p)
no_forward-none e h = ground arith

no_backdo-none : (e : Error) {p : Planned} → no_backdo e ≢ ok (some p)
no_backdo-none e h = ground arith

forward-Applies :
    (game : Game) (team : TeamId) (id : PieceId) (result : YutResult) {p : Planned}
    → forward_planned (reader game) team id result ≡ ok (some p)
    → (after : Game × MoveOutcome) × (apply_ordinary_move game team id result p.apply_route
        ≡ ok after)
unfolding forward_planned reader apply_ordinary_move
forward-Applies game team id result {p} h =
    elim (Result-cases (ordinary_move_plans game team id result)) [
      | inr (e, k) ↦ absurd (no_forward-none e {p = p} (ground arith))
      | inl ((plans, moving), k) ↦ elim (Result-cases (automatic_forward_plan plans)) [
        | inr (e, l) ↦ absurd (ground arith)
        | inl ((plan, route), l) ↦
            let chosen = automatic_plan-selected plans l in
            (apply_ordinary_move_plan game team id result plan moving, ground arith)
      ]
    ]

backdo-Applies :
    (game : Game) (team : TeamId) (id : PieceId) {p : Planned}
    → backdo_planned (reader game) team id ≡ ok (some p)
    → (after : Game × MoveOutcome) × (apply_backdo_move game team id ≡ ok after)
unfolding backdo_planned reader apply_backdo_move
backdo-Applies game team id {p} h = elim (Result-cases (backdo_move_plan game team id)) [
  | inr (e, k) ↦ absurd (no_backdo-none e {p = p} (ground arith))
  | inl ((plan, moving), k) ↦
      let resolution : MoveResolutionPlan = record {
        route = route_empty;
        movement_kind = movement_backdo;
        destination_state = plan.destination_state;
        destination_space_id = plan.destination_space_id;
        actual_previous_space = plan.actual_previous_space;
        moving_indices = moving;
      } in
      (apply_move_resolution game team id yut_backdo resolution, ground arith)
]

planned-Applies :
    (game : Game) (team : TeamId) (id : PieceId) (result : YutResult) {p : Planned}
    → planned (reader game) team id result ≡ ok (some p)
    → Applies game team id result p.apply_route
unfolding planned
planned-Applies game team id yut_do h =
    inr ((λ e. ground arith), forward-Applies game team id yut_do h)
planned-Applies game team id yut_gae h =
    inr ((λ e. ground arith), forward-Applies game team id yut_gae h)
planned-Applies game team id yut_geol h =
    inr ((λ e. ground arith), forward-Applies game team id yut_geol h)
planned-Applies game team id yut_yut h =
    inr ((λ e. ground arith), forward-Applies game team id yut_yut h)
planned-Applies game team id yut_mo h =
    inr ((λ e. ground arith), forward-Applies game team id yut_mo h)
planned-Applies game team id yut_backdo h = inl (refl, backdo-Applies game team id h)
planned-Applies game team id yut_buk h = absurd (ground arith)
planned-Applies game team id yut_other h = absurd (ground arith)

abbrev pub Legal : Game → TeamId → YutResult → MoveCandidate → Type 0
Legal game team result c = Applies game team c.piece.id result c.apply_route

candidate_of-plan :
    (policy : Policy) (game : MatchReader) (team : TeamId) (piece : Piece) (p : Planned)
    {c : MoveCandidate}
    → candidate_of policy game team piece p ≡ ok c
    → (c.piece ≡ piece) × (c.apply_route ≡ p.apply_route)
unfolding candidate_of
candidate_of-plan policy game team piece p {c} h =
    let (_, _, h1) = >>=-eq-ok (guard (some_ids p.moved_ids) invalid_move_plans) _ h in
    let (_, _, h2) = >>=-eq-ok (guard (contains p.moved_ids piece.id) invalid_move_plans) _ h1 in
    let ((has, d), _, h3) = >>=-eq-ok (piece_distance policy piece) _ h2 in
    (ground arith, ground arith)

pub candidate-Legal :
    (policy : Policy) (game : Game) (team : TeamId) (piece : Piece) (result : YutResult)
    {c : MoveCandidate}
    → candidate_for_piece policy (reader game) team piece result ≡ ok (some c)
    → Legal game team result c
unfolding candidate_for_piece
candidate-Legal policy game team piece result {c} h =
    elim (Result-cases (planned (reader game) team piece.id result)) [
      | inr (e, k) ↦ absurd (ground arith)
      | inl (none, k) ↦ absurd (ground arith)
      | inl (some p, k) ↦ elim (Result-cases (candidate_of policy (reader game) team piece p)) [
        | inr (e, l) ↦ absurd (ground arith)
        | inl (c', l) ↦
            let applies = planned-Applies game team piece.id result k in
            let (m, r) = candidate_of-plan policy (reader game) team piece p l in
            let same : c' ≡ c = ground arith in
            subst (Legal game team result) same (rw (m, r) applies)
      ]
    ]
