-- ===== src/Match/Types.antt =====
-- internal/domain/match/types.go. The winner is none where the code's is the empty text.
use buk_yutnori.Prelude.{Bool, List, Option}
use buk_yutnori.Domain.{PieceId, SpaceId, TeamId, PieceState, Route, MovementKind}
use buk_yutnori.Turn.Machine

pub record TeamSetup : Type 0 where
  pub team_id : TeamId
  pub piece_ids : List PieceId

pub record Piece : Type 0 where
  pub id : PieceId
  pub team_id : TeamId
  pub state : PieceState
  pub current_space_id : SpaceId
  pub actual_previous_space : SpaceId

pub record OrdinaryMovePlan : Type 0 where
  pub route : Route
  pub destination_state : PieceState
  pub destination_space_id : SpaceId
  pub actual_previous_space : SpaceId
  pub traversed : List SpaceId
  pub moved_piece_ids : List PieceId

pub record BackdoMovePlan : Type 0 where
  pub destination_state : PieceState
  pub destination_space_id : SpaceId
  pub actual_previous_space : SpaceId
  pub traversed : List SpaceId
  pub moved_piece_ids : List PieceId

pub record MoveOutcome : Type 0 where
  pub route : Route
  pub movement_kind : MovementKind
  pub from_space_id : SpaceId
  pub to_space_id : SpaceId
  pub actual_previous_space : SpaceId
  pub moved_piece_ids : List PieceId
  pub stacked_piece_ids : List PieceId
  pub captured_piece_ids : List PieceId
  pub capture_extra_throw : Bool
  pub match_ended : Bool
  pub winner_team_id : Option TeamId

-- `TurnOutcome` of a movement.
unfoldable pub turn_outcome : MoveOutcome → Machine.MoveOutcome
turn_outcome outcome = record {
  capture_extra_throw = outcome.capture_extra_throw;
  match_ended = outcome.match_ended;
}
