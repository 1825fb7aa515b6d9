-- ===== src/Match/Invariant/Backward.antt =====
-- A Backdo keeps every piece placed.
use buk_yutnori.Prelude.{
  ℕ, ◌≡◌, ap, subst, true, some, string_eq, nat_eq, arith, inl, inr, get_elem?, Option-cases,
}
use buk_yutnori.Prelude.Result.{ok, Result-cases, >>=-eq-ok}
use buk_yutnori.Domain.{
  PieceId, SpaceId, TeamId, yut_backdo, route_empty, route_eq, validate_team_id, movement_backdo,
}
use buk_yutnori.Board.Types.{Graph, Position, known}
use buk_yutnori.Board.Backdo.{BackdoPlan, backdo_plan, standing, check_backdo_position}
use buk_yutnori.Match.Types.{Piece, MoveOutcome}
use buk_yutnori.Match.Game.{Game, owned_piece, piece_index}
use buk_yutnori.Match.Resolution.{MoveResolutionPlan, apply_move_resolution}
use buk_yutnori.Match.Movement.{
  position_of, still_open, backdo_move_plan, apply_backdo_move, validate_backdo_plan,
}
use buk_yutnori.Match.Invariant.{
  Placed, off_board, on_space, Inv, Arrives, apply_move_resolution-Inv,
}

pub backdo_plan-known :
    (g : Graph) (position : Position) (previous : SpaceId) {plan : BackdoPlan}
    → backdo_plan g position previous ≡ ok plan
    → (plan.destination ≡ standing g plan.destination.space)
      × (known g plan.destination.space ≡ true)
      × (plan.actual_previous_space ≡ position.space)
unfolding backdo_plan
backdo_plan-known g position previous h = elim (Result-cases (check_backdo_position g position)) [
  | inl (u, e) ↦ (ground arith, ground arith, ground arith)
  | inr (x, e) ↦ absurd (ground arith)
]

source_known :
    (g : Graph) (p : Piece) (previous : SpaceId) {plan : BackdoPlan}
    → Placed g p
    → backdo_plan g (position_of p) previous ≡ ok plan
    → known g p.current_space_id ≡ true
unfolding backdo_plan check_backdo_position
source_known g p previous {plan} (off_board (inl s) _ _) h = absurd (ground arith)
source_known g p previous {plan} (off_board (inr s) _ _) h = absurd (ground arith)
source_known g p previous {plan} (on_space _ k _) h = k

pub owned_piece_there :
    (game : Game) (team : TeamId) (id : PieceId) {index : ℕ} {selected : Piece}
    → owned_piece game team id ≡ ok (index, selected)
    → (get_elem? game.pieces index ≡ some selected) × (selected.team_id ≡ team)
unfolding owned_piece
owned_piece_there game team id {index} {selected} h =
    let (_, _, g) = >>=-eq-ok (validate_team_id team) _ h in
    elim (Option-cases (piece_index game.pieces id)) [
      | inl n ↦ absurd (ground arith)
      | inr (i, e) ↦ elim (Option-cases (get_elem? game.pieces i)) [
        | inl n ↦ absurd (ground arith)
        | inr (p, k) ↦ ground arith
      ]
    ]

-- A Backdo that is made keeps every piece placed.
pub apply_backdo_move-Inv :
    (game : Game) (team : TeamId) (id : PieceId) {game' : Game} {outcome : MoveOutcome}
    → Inv game
    → apply_backdo_move game team id ≡ ok (game', outcome)
    → Inv game'
unfolding apply_backdo_move backdo_move_plan
apply_backdo_move-Inv game team id {game'} {outcome} v h =
    let ((plan, moving), made, h1) = >>=-eq-ok (backdo_move_plan game team id) _ h in
    let (_, _, h2) = >>=-eq-ok (still_open game) _ made in
    let ((index, selected), owned, h3) = >>=-eq-ok (owned_piece game team id) _ h2 in
    let (q, planned, h4) =
      >>=-eq-ok (backdo_plan game.planner (position_of selected) selected.actual_previous_space) _
        h3 in
    let (_, _, h5) = >>=-eq-ok (validate_backdo_plan q selected.current_space_id) _ h4 in
    let (d, k, p) = backdo_plan-known game.planner (position_of selected) _ planned in
    let (there, _) = owned_piece_there game team id owned in
    let source = source_known game.planner selected _ (v.placed index selected there) planned in
    let resolution : MoveResolutionPlan = record {
      route = route_empty;
      movement_kind = movement_backdo;
      destination_state = plan.destination_state;
      destination_space_id = plan.destination_space_id;
      actual_previous_space = plan.actual_previous_space;
      moving_indices = moving;
    } in
    let committed : apply_move_resolution game team id yut_backdo resolution ≡ (game', outcome) =
      ground arith in
    let arrives : Arrives game.planner resolution =
      inr (ground arith, ground arith, inr (ground arith)) in
    subst Inv (ap (λ (r : Game × MoveOutcome). r.0) committed)
      (apply_move_resolution-Inv game team id yut_backdo resolution v arrives)

pub apply_backdo_move-planner :
    (game : Game) (team : TeamId) (id : PieceId) {game' : Game} {outcome : MoveOutcome}
    → apply_backdo_move game team id ≡ ok (game', outcome)
    → game'.planner ≡ game.planner
unfolding apply_backdo_move apply_move_resolution
apply_backdo_move-planner game team id h =
    let ((plan, moving), _, h1) = >>=-eq-ok (backdo_move_plan game team id) _ h in ground arith
