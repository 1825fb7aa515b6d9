-- ===== src/Match/Resolution.antt =====
-- internal/domain/match/resolution.go
pub mod Pieces
use buk_yutnori.Prelude.{
  ℕ, zero, suc, Bool, true, false, not, ◌&&◌, ◌||◌, List, [], ◌∷◌, ◌++◌, Option, none, some, ◌==◌,
  string_eq, nat_eq, if◌then◌else◌, get_elem?, length, contains, ltb,
}
use buk_yutnori.Domain.{
  PieceId, SpaceId, TeamId, team_eq, PieceState, piece_waiting, piece_finished, piece_state_eq,
  Route, MovementKind, movement_forward, movement_finish, YutResult, yut_do, yut_gae, yut_geol,
  yut_backdo, yut_buk, yut_eq,
}
use buk_yutnori.Room.Settings.{
  CaptureExtraThrowPolicy, capture_extra_throw_always, capture_extra_throw_do_to_geol_plus_special,
  capture_extra_throw_none, capture_extra_throw_other,
}
use buk_yutnori.Match.Types.{Piece, OrdinaryMovePlan, MoveOutcome}
use buk_yutnori.Match.Game.{Game, piece_index, indices_where, piece_ids}

pub record MoveResolutionPlan : Type 0 where
  pub route : Route
  pub movement_kind : MovementKind
  pub destination_state : PieceState
  pub destination_space_id : SpaceId
  pub actual_previous_space : SpaceId
  pub moving_indices : List ℕ

-- `piece.State == plan.DestinationState && piece.CurrentSpaceID == plan.DestinationSpaceID`
abbrev pub at_destination : MoveResolutionPlan → Piece → Bool
at_destination plan piece =
    piece.state == plan.destination_state && piece.current_space_id == plan.destination_space_id

unfoldable pub destination_allies : Game → TeamId → MoveResolutionPlan → List ℕ
destination_allies game team plan =
    if not game.settings.stacking_enabled || plan.destination_state == piece_finished
    then []
    else indices_where
        (λ i piece.
          not (contains plan.moving_indices i)
          && (piece.team_id == team && at_destination plan piece))
        0 game.pieces

unfoldable pub captured_piece_indices : Game → TeamId → MoveResolutionPlan → List ℕ
captured_piece_indices game team plan =
    if plan.destination_state == piece_finished
    then []
    else indices_where (λ _ piece. not (piece.team_id == team) && at_destination plan piece) 0
        game.pieces

unfoldable pub team_piece_ids_at_destination :
    List Piece → TeamId → MoveResolutionPlan → List PieceId
team_piece_ids_at_destination [] team plan = []
team_piece_ids_at_destination (p ∷ ps) team plan =
    let rest = team_piece_ids_at_destination ps team plan in
    if p.team_id == team && at_destination plan p then p.id ∷ rest else rest

unfoldable pub all_team_pieces_finished : List Piece → TeamId → Bool
all_team_pieces_finished [] team = true
all_team_pieces_finished (p ∷ ps) team =
    let rest = all_team_pieces_finished ps team in
    if p.team_id == team && not (p.state == piece_finished) then false else rest

unfoldable pub capture_grants_extra_throw : CaptureExtraThrowPolicy → YutResult → Bool
capture_grants_extra_throw capture_extra_throw_always result = true
capture_grants_extra_throw capture_extra_throw_do_to_geol_plus_special result =
    result == yut_do
    || (result == yut_gae || (result == yut_geol || (result == yut_backdo || result == yut_buk)))
capture_grants_extra_throw capture_extra_throw_none result = false
capture_grants_extra_throw capture_extra_throw_other result = false

-- The assignments to the fields of `game.pieces[index]`.
abbrev pub change_at : (Piece → Piece) → ℕ → List Piece → List Piece
change_at change i [] = []
change_at change zero (p ∷ ps) = change p ∷ ps
change_at change (suc i) (p ∷ ps) = p ∷ change_at change i ps

-- The loop over indices.
unfoldable pub change_all : (Piece → Piece) → List ℕ → List Piece → List Piece
change_all change [] ps = ps
change_all change (i ∷ is) ps = change_all change is (change_at change i ps)

abbrev pub sent_back : Piece → Piece
sent_back piece = record piece {
  state = piece_waiting;
  current_space_id = "";
  actual_previous_space = "";
}

abbrev pub arrived : MoveResolutionPlan → Piece → Piece
arrived plan piece = record piece {
  state = plan.destination_state;
  current_space_id =
      if plan.destination_state == piece_finished then "" else plan.destination_space_id;
  actual_previous_space =
      if plan.destination_state == piece_finished then "" else plan.actual_previous_space;
}

-- `game.pieces[game.pieceIndex[pieceID]].CurrentSpaceID`, of a piece of the game.
abbrev from_space : List Piece → PieceId → SpaceId
from_space pieces id = elim (piece_index pieces id) [
  | none ↦ ""
  | some i ↦ elim (get_elem? pieces i) [ none ↦ "" | some p ↦ p.current_space_id ]
]

abbrev pub final_group : Game → TeamId → MoveResolutionPlan → List ℕ
final_group game team plan = plan.moving_indices ++ destination_allies game team plan

unfoldable pub moved_pieces : Game → TeamId → MoveResolutionPlan → List Piece
moved_pieces game team plan =
    change_all (arrived plan) (final_group game team plan)
      (change_all sent_back (captured_piece_indices game team plan) game.pieces)

unfoldable pub apply_move_resolution :
    Game → TeamId → PieceId → YutResult → MoveResolutionPlan → Game × MoveOutcome
apply_move_resolution game team id result plan =
    let captured_piece_ids = piece_ids game.pieces (captured_piece_indices game team plan) in
    let pieces = moved_pieces game team plan in
    let match_ended = all_team_pieces_finished pieces team in
    let winner = if match_ended then some team else game.winner_team_id in
    let grants = capture_grants_extra_throw game.settings.capture_extra_throw result in
    (
      record game { pieces = pieces; winner_team_id = winner },
      record {
        route = plan.route;
        movement_kind = plan.movement_kind;
        from_space_id = from_space game.pieces id;
        to_space_id = plan.destination_space_id;
        actual_previous_space = plan.actual_previous_space;
        moved_piece_ids = piece_ids game.pieces plan.moving_indices;
        stacked_piece_ids =
            if game.settings.stacking_enabled
              && (not (plan.destination_state == piece_finished)
                  && ltb 1 (length (final_group game team plan)))
            then team_piece_ids_at_destination pieces team plan
            else [];
        captured_piece_ids = captured_piece_ids;
        capture_extra_throw =
            if match_ended then false else ltb 0 (length captured_piece_ids) && grants;
        match_ended = match_ended;
        winner_team_id = winner;
      },
    )

unfoldable pub apply_ordinary_move_plan :
    Game → TeamId → PieceId → YutResult → OrdinaryMovePlan → List ℕ → Game × MoveOutcome
apply_ordinary_move_plan game team id result plan moving_indices =
    apply_move_resolution game team id result (record {
      route = plan.route;
      movement_kind =
          if plan.destination_state == piece_finished then movement_finish else movement_forward;
      destination_state = plan.destination_state;
      destination_space_id = plan.destination_space_id;
      actual_previous_space = plan.actual_previous_space;
      moving_indices = moving_indices;
    })
