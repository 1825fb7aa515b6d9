-- ===== src/Board/Backdo.antt =====
-- internal/domain/board/backdo.go
pub mod Reversal
use buk_yutnori.Prelude.{Bool, true, false, not, List, [], ◌∷◌, ◌==◌, string_eq, if◌then◌else◌}
use buk_yutnori.Prelude.Result.{Result, ok, err, ◌>>=◌, ◌>>◌, guard}
use buk_yutnori.Domain.{
  Error, unknown_space, invalid_position, backdo_movement_unavailable, backdo_history_unavailable,
  SpaceId, piece_waiting, piece_on_board, piece_home_checkpoint, piece_finished, piece_other,
}
use buk_yutnori.Board.Types.{Position, Graph, known}

pub record BackdoPlan : Type 0 where
  pub destination : Position
  pub actual_previous_space : SpaceId
  pub traversed : List SpaceId

-- The `switch` on the state of the piece.
unfoldable pub check_backdo_position : Graph → Position → Result Error (Unit {0})
check_backdo_position g position = elim position.state [
  | piece_waiting ↦ err backdo_movement_unavailable
  | piece_finished ↦ err backdo_movement_unavailable
  | piece_on_board ↦
      if not (known g position.space)
      then err unknown_space
      else if position.space == g.home_checkpoint_space
      then err invalid_position
      else ok tt
  | piece_home_checkpoint ↦
      if position.space == g.home_checkpoint_space then ok tt else err invalid_position
  | piece_other ↦ err invalid_position
]

-- The position of a piece that stands on a space of the board.
abbrev pub standing : Graph → SpaceId → Position
standing g space = record {
  state = if space == g.home_checkpoint_space then piece_home_checkpoint else piece_on_board;
  space = space;
}

unfoldable pub backdo_plan : Graph → Position → SpaceId → Result Error BackdoPlan
unfolding check_backdo_position
backdo_plan g position actual_previous = do
  check_backdo_position g position
  guard (not (actual_previous == "")) backdo_history_unavailable
  guard (known g actual_previous) unknown_space
  ok (record {
    destination = standing g actual_previous;
    actual_previous_space = position.space;
    traversed = actual_previous ∷ [];
  })
