-- ===== src/Match/Buk.antt =====
-- internal/domain/match/buk_movement.go, the movement of a Buk. The planner of Buk is the graph of
-- the board, as the planner of the other movements.
pub mod Groups
pub mod Resolved
pub mod Nearest
use buk_yutnori.Prelude.{
  ℕ, suc, Bool, true, false, not, ◌&&◌, ◌||◌, List, [], ◌∷◌, ◌++◌, Option, none, some, ◌==◌,
  string_eq, nat_eq, if◌then◌else◌, get_elem?, length, ltb, eqb,
}
use buk_yutnori.Prelude.Result.{Result, ok, err, ◌>>=◌, ◌>>◌, guard}
use buk_yutnori.Domain.{
  Error, buk_mode_disabled, invalid_buk_planner, random_source_out_of_range, PieceId, SpaceId,
  TeamId, team_eq, validate_team_id, yut_buk, PieceState, piece_waiting, piece_on_board,
  piece_home_checkpoint, piece_state_eq, route_empty, movement_buk,
}
use buk_yutnori.Board.Types.{Graph, Position, ShortcutPolicy}
use buk_yutnori.Board.Distance.{remaining_forward_distance}
use buk_yutnori.Turn.Machine
use buk_yutnori.Match.Types.{Piece, MoveOutcome}
use buk_yutnori.Match.BukDestination.{RandomSource, random_ticket}
use buk_yutnori.Match.Game.{Game, indices_where, piece_ids}
use buk_yutnori.Match.Resolution.{MoveResolutionPlan, apply_move_resolution}
use buk_yutnori.Match.Movement.{still_open, board_shortcut_policy}

-- The zero value of `Move` is none.
pub record BukOutcome : Type 0 where
  pub no_candidate : Bool
  pub moved : Bool
  pub destination_space_id : SpaceId
  pub selected_piece_ids : List PieceId
  pub moves : List MoveOutcome
  pub move : Option MoveOutcome

abbrev pub any_capture : List MoveOutcome → Bool
any_capture [] = false
any_capture (m ∷ ms) = m.capture_extra_throw || any_capture ms

abbrev pub any_end : List MoveOutcome → Bool
any_end [] = false
any_end (m ∷ ms) = m.match_ended || any_end ms

abbrev pub of_move : (MoveOutcome → Bool) → Option MoveOutcome → Bool
of_move f none = false
of_move f (some m) = f m

-- `TurnOutcome` of a Buk.
unfoldable pub buk_turn_outcome : BukOutcome → Machine.BukOutcome
buk_turn_outcome outcome = record {
  no_candidate = outcome.no_candidate;
  capture_extra_throw =
      of_move (λ m. m.capture_extra_throw) outcome.move || any_capture outcome.moves;
  match_ended = of_move (λ m. m.match_ended) outcome.move || any_end outcome.moves;
}

pub record PositionGroup : Type 0 where
  pub position : Position
  pub indices : List ℕ
  pub distance : ℕ

abbrev pub on_the_board : TeamId → Piece → Bool
on_the_board team p =
    p.team_id == team && (p.state == piece_on_board || p.state == piece_home_checkpoint)

-- `groupBySpace`: the group of the space, or a new one.
unfoldable pub add_to_group : ℕ → Piece → List PositionGroup → List PositionGroup
add_to_group index p [] =
    record {
      position = record { state = p.state; space = p.current_space_id };
      indices = index ∷ [];
      distance = 0;
    }
    ∷ []
add_to_group index p (g ∷ gs) =
    if g.position.space == p.current_space_id
    then record g { indices = g.indices ++ index ∷ [] } ∷ gs
    else g ∷ add_to_group index p gs

-- The loop over the pieces, from the place `index`.
unfoldable pub group_pieces : TeamId → ℕ → List Piece → List PositionGroup → List PositionGroup
group_pieces team index [] groups = groups
group_pieces team index (p ∷ ps) groups =
    if on_the_board team p
    then group_pieces team (suc index) ps (add_to_group index p groups)
    else group_pieces team (suc index) ps groups

unfoldable pub buk_position_groups : Game → TeamId → List PositionGroup
buk_position_groups game team = group_pieces team 0 game.pieces []

-- The loop that measures the groups.
unfoldable pub measure :
    Graph → ShortcutPolicy → List PositionGroup → Result Error (List PositionGroup)
measure planner policy [] = ok []
measure planner policy (g ∷ gs) = do
  d ← remaining_forward_distance planner g.position policy
  guard (ltb 0 d) invalid_buk_planner
  rest ← measure planner policy gs
  ok (record g { distance = d } ∷ rest)

-- `math.MaxInt` of a 64-bit machine.
abbrev pub max_int : ℕ
max_int = 9_223_372_036_854_775_807

unfoldable pub minimum_distance : ℕ → List PositionGroup → ℕ
minimum_distance best [] = best
minimum_distance best (g ∷ gs) =
    minimum_distance (if ltb g.distance best then g.distance else best) gs

unfoldable pub closest : ℕ → List PositionGroup → List PositionGroup
closest minimum [] = []
closest minimum (g ∷ gs) =
    let rest = closest minimum gs in if eqb g.distance minimum then g ∷ rest else rest

-- The group of one waiting piece, of distance 0.
abbrev pub waiting_group : ℕ → PositionGroup
waiting_group index = record {
  position = record { state = piece_waiting; space = "" };
  indices = index ∷ [];
  distance = 0;
}

unfoldable pub waiting_indices : Game → TeamId → List ℕ
waiting_indices game team =
    indices_where (λ _ p. p.team_id == team && p.state == piece_waiting) 0 game.pieces

abbrev pub nth : List ℕ → ℕ → Result Error ℕ
nth is ticket = elim (get_elem? is ticket) [ some i ↦ ok i | none ↦ err random_source_out_of_range ]

-- One waiting piece by the random source, or none when no piece waits.
unfoldable pub waiting_fallback : RandomSource → List ℕ → Result Error (List PositionGroup)
waiting_fallback source [] = ok []
waiting_fallback source (i ∷ is) = do
  ticket ← random_ticket source (length (i ∷ is))
  index ← nth (i ∷ is) ticket
  ok (waiting_group index ∷ [])

abbrev pub first_id : List PieceId → PieceId
first_id [] = ""
first_id (id ∷ _) = id

abbrev pub buk_plan : Game → PositionGroup → MoveResolutionPlan
buk_plan game g = record {
  route = route_empty;
  movement_kind = movement_buk;
  destination_state = piece_on_board;
  destination_space_id = game.buk_destination_space_id;
  actual_previous_space = g.position.space;
  moving_indices = g.indices;
}

abbrev pub already_there : Game → PositionGroup → Bool
already_there game g =
    g.position.state == piece_on_board && g.position.space == game.buk_destination_space_id

-- The loop over the selected groups: the game, the selected pieces and the movements.
unfoldable pub move_groups :
    Game → TeamId → List PositionGroup → Game × List PieceId × List MoveOutcome
move_groups game team [] = (game, [], [])
move_groups game team (g ∷ gs) =
    let ids = piece_ids game.pieces g.indices in
    let moved = apply_move_resolution game team (first_id ids) yut_buk (buk_plan game g) in
    let stay = move_groups game team gs in
    let go = move_groups moved.0 team gs in
    if already_there game g
    then (stay.0, ids ++ stay.1, stay.2)
    else (go.0, ids ++ go.1, moved.1 ∷ go.2)

abbrev pub first_move : List MoveOutcome → Option MoveOutcome
first_move [] = none
first_move (m ∷ _) = some m

abbrev some_moves : List MoveOutcome → Bool
some_moves [] = false
some_moves (_ ∷ _) = true

abbrev pub committed : Game → TeamId → List PositionGroup → Game × BukOutcome
committed game team selected =
    let (after, ids, moves) = move_groups game team selected in
    (
      after,
      record {
        no_candidate = false;
        moved = some_moves moves;
        destination_space_id = game.buk_destination_space_id;
        selected_piece_ids = ids;
        moves = moves;
        move = first_move moves;
      },
    )

abbrev pub no_candidate_outcome : Game → BukOutcome
no_candidate_outcome game = record {
  no_candidate = true;
  moved = false;
  destination_space_id = game.buk_destination_space_id;
  selected_piece_ids = [];
  moves = [];
  move = none;
}

abbrev pub commit_fallback : Game → TeamId → List PositionGroup → Result Error (Game × BukOutcome)
commit_fallback game team [] = ok (game, no_candidate_outcome game)
commit_fallback game team (g ∷ gs) = ok (committed game team (closest 0 (g ∷ gs)))

-- The groups on the board, or the fallback when there are none.
unfoldable pub resolve_groups :
    Game → TeamId → List PositionGroup → Result Error (Game × BukOutcome)
resolve_groups game team [] =
    waiting_fallback game.random_source (waiting_indices game team) >>= commit_fallback game team
resolve_groups game team (g ∷ gs) = do
  measured ← measure game.planner (board_shortcut_policy game.settings.shortcut_policy) (g ∷ gs)
  ok (committed game team (closest (minimum_distance max_int measured) measured))

unfoldable pub resolve_buk : Game → TeamId → Result Error (Game × BukOutcome)
resolve_buk game team = do
  still_open game
  guard game.settings.buk_mode_enabled buk_mode_disabled
  validate_team_id team
  resolve_groups game team (buk_position_groups game team)
