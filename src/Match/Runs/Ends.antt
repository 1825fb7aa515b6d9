-- ===== src/Match/Runs/Ends.antt =====
-- How a match ends, whatever movements are made.
use buk_yutnori.Prelude.{
  ℕ, ◌+◌, ◌≡◌, ◌≢◌, sym, subst, false, List, [], ◌∷◌, none, some, ◌==◌, string_eq, nat_eq,
  get_elem?, arith, inl, inr, Bool-cases, All, contains, ap,
}
use buk_yutnori.Prelude.Result.{ok, >>=-eq-ok}
use buk_yutnori.Domain.{
  PieceId, TeamId, team_eq, YutResult, yut_backdo, yut_buk, Route, route_empty, movement_backdo,
  piece_state_eq, ordinary_movement_spaces,
}
use buk_yutnori.Board.Forward.{forward_plans}
use buk_yutnori.Board.Backdo.{backdo_plan}
use buk_yutnori.Match.Types.{Piece, MoveOutcome, OrdinaryMovePlan}
use buk_yutnori.Match.Game.{Game, owned_piece, moving_piece_indices, stands_with, piece_ids}
use buk_yutnori.Match.Resolution.{
  MoveResolutionPlan, apply_move_resolution, apply_ordinary_move_plan,
}
use buk_yutnori.Match.Resolution.Pieces.{contains-indices_where}
use buk_yutnori.Match.Movement.{
  position_of, still_open, ordinary_move_plans, select_ordinary_move_plan, apply_ordinary_move,
  backdo_move_plan, validate_backdo_plan, apply_backdo_move, board_shortcut_policy,
  validate_forward_plans,
}
use buk_yutnori.Match.Invariant.Backward.{owned_piece_there}
use buk_yutnori.Match.Buk.{
  BukOutcome, PositionGroup, resolve_buk, move_groups, buk_plan, already_there, first_id,
}
use buk_yutnori.Match.Buk.Resolved.{
  nothing, groups, resolved, open-none, group_ends_nothing, outcome_open, HasOwned-kept,
}
use buk_yutnori.Match.Buk.Groups.{HasOwned}
use buk_yutnori.Match.Runs.Winner.{Decided, Spares, resolution-Decided}

moving_own :
    (game : Game) (team : TeamId) (index i : ℕ) (selected p : Piece)
    → get_elem? game.pieces index ≡ some selected
    → selected.team_id ≡ team
    → get_elem? game.pieces i ≡ some p
    → p.team_id ≢ team
    → contains (moving_piece_indices game index selected) i ≡ false
unfolding moving_piece_indices
moving_own game team index i selected p s o e n =
    let z : 0 + i ≡ i = omega arith in
    let test = contains-indices_where (λ _ piece. stands_with selected piece) 0 i game.pieces in
    elim (Bool-cases (index == i)) [
      | inl k ↦ let same : index ≡ i = ground arith in absurd (n (ground arith))
      | inr k ↦ ground arith
    ]

Moves : Game → TeamId → List ℕ → Type 0
Moves game team moving =
    (game.winner_team_id ≡ none)
    × ((i : ℕ) (p : Piece)
        → get_elem? game.pieces i ≡ some p
        → p.team_id ≢ team
        → contains moving i ≡ false)

ordinary-Moves :
    (game : Game) (team : TeamId) (id : PieceId) (result : YutResult)
    {plans : List OrdinaryMovePlan} {moving : List ℕ}
    → ordinary_move_plans game team id result ≡ ok (plans, moving)
    → Moves game team moving
unfolding ordinary_move_plans Moves
ordinary-Moves game team id result {plans} {moving} h =
    let (_, o, h1) = >>=-eq-ok (still_open game) _ h in
    let ((index, selected), owned, h2) = >>=-eq-ok (owned_piece game team id) _ h1 in
    let (spaces, _, h3) = >>=-eq-ok (ordinary_movement_spaces result) _ h2 in
    let (qs, _, h4) =
      >>=-eq-ok
        (forward_plans game.planner (position_of selected) spaces
          (board_shortcut_policy game.settings.shortcut_policy))
        _ h3 in
    let (_, _, h5) = >>=-eq-ok (validate_forward_plans qs game.settings.shortcut_policy) _ h4 in
    let (there, own) = owned_piece_there game team id owned in
    let same : moving_piece_indices game index selected ≡ moving = ground arith in
    (
      open-none game o,
      λ i p e n.
          subst (λ m. contains m i ≡ false) same
            (moving_own game team index i selected p there own e n),
    )

backdo-Moves :
    (game : Game) (team : TeamId) (id : PieceId) {r : _} {moving : List ℕ}
    → backdo_move_plan game team id ≡ ok (r, moving)
    → Moves game team moving
unfolding backdo_move_plan Moves
backdo-Moves game team id {r} {moving} h =
    let (_, o, h1) = >>=-eq-ok (still_open game) _ h in
    let ((index, selected), owned, h2) = >>=-eq-ok (owned_piece game team id) _ h1 in
    let (q, _, h3) =
      >>=-eq-ok (backdo_plan game.planner (position_of selected) selected.actual_previous_space) _
        h2 in
    let (_, _, h4) = >>=-eq-ok (validate_backdo_plan q selected.current_space_id) _ h3 in
    let (there, own) = owned_piece_there game team id owned in
    let same : moving_piece_indices game index selected ≡ moving = ground arith in
    (
      open-none game o,
      λ i p e n.
          subst (λ m. contains m i ≡ false) same
            (moving_own game team index i selected p there own e n),
    )

pub ordinary-Decided :
    (game : Game) (team : TeamId) (id : PieceId) (result : YutResult) (route : Route) (game' : Game)
    (outcome : MoveOutcome)
    → Decided game
    → apply_ordinary_move game team id result route ≡ ok (game', outcome)
    → Decided game'
unfolding apply_ordinary_move apply_ordinary_move_plan Moves Spares
ordinary-Decided game team id result route game' outcome d h =
    let ((plans, moving), made, h1) = >>=-eq-ok (ordinary_move_plans game team id result) _ h in
    let (plan, chosen, h2) = >>=-eq-ok (select_ordinary_move_plan plans route) _ h1 in
    let (w, own) = ordinary-Moves game team id result made in
    let same : (apply_ordinary_move_plan game team id result plan moving).0 ≡ game' =
      ground arith in
    subst Decided same (resolution-Decided game team id result _ w (λ f. own) d)

pub backdo-Decided :
    (game : Game) (team : TeamId) (id : PieceId) (game' : Game) (outcome : MoveOutcome)
    → Decided game
    → apply_backdo_move game team id ≡ ok (game', outcome)
    → Decided game'
unfolding apply_backdo_move Moves Spares
backdo-Decided game team id game' outcome d h =
    let ((plan, moving), made, h1) = >>=-eq-ok (backdo_move_plan game team id) _ h in
    let (w, own) = backdo-Moves game team id made in
    let resolution : MoveResolutionPlan = record {
      route = route_empty;
      movement_kind = movement_backdo;
      destination_state = plan.destination_state;
      destination_space_id = plan.destination_space_id;
      actual_previous_space = plan.actual_previous_space;
      moving_indices = moving;
    } in
    let same : (apply_move_resolution game team id yut_backdo resolution).0 ≡ game' =
      ground arith in
    subst Decided same (resolution-Decided game team id yut_backdo resolution w (λ f. own) d)

move_groups-Decided :
    (game : Game) (team : TeamId) (gs : List PositionGroup)
    → game.winner_team_id ≡ none
    → All (HasOwned game.pieces team) gs
    → Decided game
    → Decided (move_groups game team gs).0
unfolding move_groups Spares
move_groups-Decided game team [] w a d = d
move_groups-Decided game team (g ∷ gs) w a d =
    let id = first_id (piece_ids game.pieces g.indices) in
    let plan = buk_plan game g in
    let (w', _) = outcome_open game team id plan w (group_ends_nothing game team id g a.0) in
    let stay = move_groups-Decided game team gs w a.1 d in
    let go =
      move_groups-Decided (apply_move_resolution game team id yut_buk plan).0 team gs w'
        (HasOwned-kept game team id yut_buk plan gs a.1)
        (resolution-Decided game team id yut_buk plan w (λ f. absurd (ground arith)) d) in
    elim (Bool-cases (already_there game g)) [ inl e ↦ rw e stay | inr e ↦ rw e go ]

pub buk-Decided :
    (game : Game) (team : TeamId) (game' : Game) (outcome : BukOutcome)
    → Decided game
    → resolve_buk game team ≡ ok (game', outcome)
    → Decided game'
buk-Decided game team game' outcome d h =
    let (w, b, r) = resolved game team h in
    elim r [
      | nothing e ↦ subst Decided (sym (ap (λ (x : Game × BukOutcome). x.0) e)) d
      | groups gs a f e ↦
          subst Decided (sym (ap (λ (x : Game × BukOutcome). x.0) e))
            (move_groups-Decided game team gs w a d)
    ]
