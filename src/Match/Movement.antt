-- ===== src/Match/Movement.antt =====
-- internal/domain/match/ordinary_movement.go and backdo_movement.go. The methods that only read
-- return a result; those that commit return the game too.
pub mod Accepted
use buk_yutnori.Prelude.{
  ℕ, Bool, true, false, not, ◌&&◌, ◌||◌, List, [], ◌∷◌, Option, none, some, ◌==◌, string_eq,
  if◌then◌else◌, length, map,
}
use buk_yutnori.Prelude.Result.{Result, ok, err, ◌>>=◌, ◌>>◌, guard}
use buk_yutnori.Domain.{
  Error, match_ended, invalid_forward_plan, invalid_backdo_plan, route_selection_not_allowed,
  route_selection_required, invalid_route_selection, PieceId, SpaceId, TeamId, YutResult,
  yut_backdo, PieceState, piece_waiting, piece_on_board, piece_home_checkpoint, piece_finished,
  piece_other, piece_state_eq, Route, route_normal, route_shortcut, route_empty, route_other,
  route_eq, validate_id, validate_route, movement_backdo, ordinary_movement_spaces,
}
use buk_yutnori.Room.Settings
use buk_yutnori.Room.Settings.{shortcut_forced, shortcut_selectable, shortcut_other, shortcut_eq}
use buk_yutnori.Board.Types.{ShortcutPolicy, selectable_shortcuts, forced_shortcuts, Position}
use buk_yutnori.Board.Forward.{ForwardPlan, forward_plans}
use buk_yutnori.Board.Backdo.{BackdoPlan, backdo_plan}
use buk_yutnori.Match.Types.{Piece, OrdinaryMovePlan, BackdoMovePlan, MoveOutcome}
use buk_yutnori.Match.Game.{Game, owned_piece, moving_piece_indices, piece_ids}
use buk_yutnori.Match.Resolution.{apply_move_resolution, apply_ordinary_move_plan}

abbrev pub board_shortcut_policy : Settings.ShortcutPolicy → ShortcutPolicy
board_shortcut_policy shortcut_forced = forced_shortcuts
board_shortcut_policy _ = selectable_shortcuts

-- `err` of the plan, whatever the error below.
abbrev pub or_invalid : Error → Result Error (Unit {0}) → Result Error (Unit {0})
or_invalid e (ok u) = ok u
or_invalid e (err _) = err e

unfoldable pub validate_spaces : List SpaceId → Result Error (Unit {0})
validate_spaces [] = ok tt
validate_spaces (s ∷ ss) = or_invalid invalid_forward_plan (validate_id s) >> validate_spaces ss

-- `len(xs) != 0 && xs[len(xs)-1] == s`
unfoldable pub ends_at : List SpaceId → SpaceId → Bool
ends_at [] s = false
ends_at (x ∷ []) s = x == s
ends_at (x ∷ y ∷ xs) s = ends_at (y ∷ xs) s

-- `len(xs) <= 1 || xs[len(xs)-2] == s`
unfoldable pub comes_from : List SpaceId → SpaceId → Bool
comes_from [] s = true
comes_from (x ∷ []) s = true
comes_from (x ∷ y ∷ []) s = x == s
comes_from (x ∷ y ∷ z ∷ xs) s = comes_from (y ∷ z ∷ xs) s

abbrev validate_arrival : ForwardPlan → Result Error (Unit {0})
validate_arrival plan = do
  or_invalid invalid_forward_plan (validate_id plan.destination.space)
  or_invalid invalid_forward_plan (validate_id plan.actual_previous_space)
  guard (ends_at plan.traversed plan.destination.space) invalid_forward_plan
  guard (comes_from plan.traversed plan.actual_previous_space) invalid_forward_plan

unfoldable pub validate_forward_plan : ForwardPlan → Result Error (Unit {0})
validate_forward_plan plan = do
  or_invalid invalid_forward_plan (validate_route plan.route)
  validate_spaces plan.traversed
  elim plan.destination.state [
    | piece_on_board ↦ validate_arrival plan
    | piece_home_checkpoint ↦ validate_arrival plan
    | piece_finished ↦
        guard (plan.destination.space == "" && plan.actual_previous_space == "")
          invalid_forward_plan
    | _ ↦ err invalid_forward_plan
  ]

-- The `switch` on the number of plans.
unfoldable pub validate_plan_routes :
    List ForwardPlan → Settings.ShortcutPolicy → Result Error (Unit {0})
validate_plan_routes [] policy = err invalid_forward_plan
validate_plan_routes (p ∷ []) policy =
    guard (not (policy == shortcut_selectable && not (p.route == route_normal)))
      invalid_forward_plan
validate_plan_routes (p ∷ q ∷ []) policy = do
  guard (policy == shortcut_selectable) invalid_forward_plan
  guard (p.route == route_normal && q.route == route_shortcut) invalid_forward_plan
validate_plan_routes _ policy = err invalid_forward_plan

unfoldable pub validate_each : List ForwardPlan → Result Error (Unit {0})
validate_each [] = ok tt
validate_each (p ∷ ps) = validate_forward_plan p >> validate_each ps

unfoldable pub validate_forward_plans :
    List ForwardPlan → Settings.ShortcutPolicy → Result Error (Unit {0})
validate_forward_plans plans policy = validate_plan_routes plans policy >> validate_each plans

abbrev pub position_of : Piece → Position
position_of piece = record { state = piece.state; space = piece.current_space_id }

abbrev pub as_ordinary : List PieceId → ForwardPlan → OrdinaryMovePlan
as_ordinary moved plan = record {
  route = plan.route;
  destination_state = plan.destination.state;
  destination_space_id = plan.destination.space;
  actual_previous_space = plan.actual_previous_space;
  traversed = plan.traversed;
  moved_piece_ids = moved;
}

-- `game.winnerTeamID != ""`
abbrev pub still_open : Game → Result Error (Unit {0})
still_open game = elim game.winner_team_id [ none ↦ ok tt | some _ ↦ err match_ended ]

unfoldable pub ordinary_move_plans :
    Game → TeamId → PieceId → YutResult → Result Error (List OrdinaryMovePlan × List ℕ)
ordinary_move_plans game team id result = do
  still_open game
  (index, selected) ← owned_piece game team id
  spaces ← ordinary_movement_spaces result
  let moving = moving_piece_indices game index selected
  plans ←
      forward_plans game.planner (position_of selected) spaces
        (board_shortcut_policy game.settings.shortcut_policy)
  validate_forward_plans plans game.settings.shortcut_policy
  ok (map (as_ordinary (piece_ids game.pieces moving)) plans, moving)

abbrev pub plan_by : List OrdinaryMovePlan → Route → Result Error OrdinaryMovePlan
plan_by [] route = err invalid_route_selection
plan_by (p ∷ ps) route = if p.route == route then ok p else plan_by ps route

abbrev pub plan_of_choice : List OrdinaryMovePlan → Route → Result Error OrdinaryMovePlan
plan_of_choice plans route =
    if route == route_empty
    then err route_selection_required
    else or_invalid invalid_route_selection (validate_route route) >> plan_by plans route

unfoldable pub select_ordinary_move_plan :
    List OrdinaryMovePlan → Route → Result Error OrdinaryMovePlan
select_ordinary_move_plan (p ∷ []) route =
    if route == route_empty then ok p else err route_selection_not_allowed
select_ordinary_move_plan plans route = plan_of_choice plans route

unfoldable pub apply_ordinary_move :
    Game → TeamId → PieceId → YutResult → Route → Result Error (Game × MoveOutcome)
apply_ordinary_move game team id result route = do
  (plans, moving) ← ordinary_move_plans game team id result
  plan ← select_ordinary_move_plan plans route
  ok (apply_ordinary_move_plan game team id result plan moving)

unfoldable pub validate_backdo_plan : BackdoPlan → SpaceId → Result Error (Unit {0})
validate_backdo_plan plan source = do
  guard
      (plan.destination.state == piece_on_board || plan.destination.state == piece_home_checkpoint)
      invalid_backdo_plan
  or_invalid invalid_backdo_plan (validate_id plan.destination.space)
  guard (plan.actual_previous_space == source) invalid_backdo_plan
  elim plan.traversed [
    | [] ↦ err invalid_backdo_plan
    | s ∷ ss ↦ elim ss [
      | [] ↦ guard (s == plan.destination.space) invalid_backdo_plan
      | _ ∷ _ ↦ err invalid_backdo_plan
    ]
  ]

unfoldable pub backdo_move_plan : Game → TeamId → PieceId → Result Error (BackdoMovePlan × List ℕ)
backdo_move_plan game team id = do
  still_open game
  (index, selected) ← owned_piece game team id
  plan ← backdo_plan game.planner (position_of selected) selected.actual_previous_space
  validate_backdo_plan plan selected.current_space_id
  let moving = moving_piece_indices game index selected
  ok (
    record {
      destination_state = plan.destination.state;
      destination_space_id = plan.destination.space;
      actual_previous_space = plan.actual_previous_space;
      traversed = plan.traversed;
      moved_piece_ids = piece_ids game.pieces moving;
    },
    moving,
  )

-- A Backdo has the empty route.
unfoldable pub apply_backdo_move : Game → TeamId → PieceId → Result Error (Game × MoveOutcome)
apply_backdo_move game team id = do
  (plan, moving) ← backdo_move_plan game team id
  ok (
      apply_move_resolution game team id yut_backdo (record {
        route = route_empty;
        movement_kind = movement_backdo;
        destination_state = plan.destination_state;
        destination_space_id = plan.destination_space_id;
        actual_previous_space = plan.actual_previous_space;
        moving_indices = moving;
      }))
