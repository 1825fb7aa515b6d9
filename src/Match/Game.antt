-- ===== src/Match/Game.antt =====
-- internal/domain/match/game.go. The planner is the graph of the
-- board, the implementation that the server passes.
use buk_yutnori.Prelude.{
  ℕ, suc, Bool, true, false, not, ◌&&◌, ◌||◌, List, [], ◌∷◌, ◌++◌, Option, none, some, ◌==◌,
  string_eq, nat_eq, if◌then◌else◌, get_elem?, length, contains,
}
use buk_yutnori.Prelude.Result.{Result, ok, err, ◌>>=◌, ◌>>◌, guard}
use buk_yutnori.Domain.{
  Error, invalid_game_config, unknown_piece, piece_not_owned, PieceId, SpaceId, TeamId, team_a,
  team_b, team_eq, validate_team_id, validate_id, piece_waiting, piece_state_eq,
}
use buk_yutnori.Room.Settings
use buk_yutnori.Room.Settings.{Settings}
use buk_yutnori.Board.Types.{Graph}
use buk_yutnori.Match.Types.{TeamSetup, Piece}
use buk_yutnori.Match.BukDestination.{RandomSource, initial_buk_destination}

pub record Game : Type 0 where
  pub planner : Graph
  pub settings : Settings
  pub random_source : RandomSource
  pub pieces : List Piece
  pub winner_team_id : Option TeamId
  pub buk_destination_space_id : SpaceId

abbrev pub waiting_piece : TeamId → PieceId → Piece
waiting_piece team id = record {
  id = id;
  team_id = team;
  state = piece_waiting;
  current_space_id = "";
  actual_previous_space = "";
}

-- `pieceIndex`: the place of the piece with an identifier.
unfoldable pub piece_index : List Piece → PieceId → Option ℕ
piece_index [] id = none
piece_index (p ∷ ps) id =
    let rest : Option ℕ = elim (piece_index ps id) [ none ↦ none | some i ↦ some (suc i) ] in
    if p.id == id then some 0 else rest

abbrev pub wrap_config : Result Error (Unit {0}) → Result Error (Unit {0})
wrap_config (ok u) = ok u
wrap_config (err e) = err invalid_game_config

abbrev pub known_piece : List Piece → PieceId → Bool
known_piece [] id = false
known_piece (p ∷ ps) id = p.id == id || known_piece ps id

-- The loop over the piece identifiers of one team.
unfoldable pub add_pieces : TeamId → List Piece → List PieceId → Result Error (List Piece)
add_pieces team pieces [] = ok pieces
add_pieces team pieces (id ∷ ids) = do
  wrap_config (validate_id id)
  guard (not (known_piece pieces id)) invalid_game_config
  add_pieces team (pieces ++ waiting_piece team id ∷ []) ids

-- The loop over the teams.
unfoldable pub add_teams :
    Settings → List TeamId → List Piece → List TeamSetup → Result Error (List TeamId × List Piece)
add_teams settings seen pieces [] = ok (seen, pieces)
add_teams settings seen pieces (setup ∷ setups) = do
  wrap_config (validate_team_id setup.team_id)
  guard (not (contains seen setup.team_id)) invalid_game_config
  guard (length setup.piece_ids == settings.piece_count) invalid_game_config
  pieces' ← add_pieces setup.team_id pieces setup.piece_ids
  add_teams settings (setup.team_id ∷ seen) pieces' setups

abbrev pub has_source : RandomSource → Bool
has_source none = false
has_source (some _) = true

-- `fmt.Errorf("%w: %w", ErrInvalidGameConfig, err)`
abbrev pub config_of : Result Error SpaceId → Result Error SpaceId
config_of (ok space) = ok space
config_of (err e) = err invalid_game_config

unfoldable pub new_game : Graph → Settings → List TeamSetup → RandomSource → Result Error Game
new_game planner settings teams source = do
  wrap_config (Settings.validate settings)
  guard (length teams == 2) invalid_game_config
  guard (not (settings.buk_mode_enabled && not (has_source source))) invalid_game_config
  (seen, pieces) ← add_teams settings [] [] teams
  guard (contains seen team_a && contains seen team_b) invalid_game_config
  destination ← config_of (initial_buk_destination planner settings source)
  ok (record {
    planner = planner;
    settings = settings;
    random_source = source;
    pieces = pieces;
    winner_team_id = none;
    buk_destination_space_id = destination;
  })

-- The place of the piece, and the piece.
unfoldable pub owned_piece : Game → TeamId → PieceId → Result Error (ℕ × Piece)
owned_piece game team id = do
  validate_team_id team
  elim (piece_index game.pieces id) [
    | none ↦ err unknown_piece
    | some index ↦ elim (get_elem? game.pieces index) [
      | none ↦ err unknown_piece
      | some piece ↦ if piece.team_id == team then ok (index, piece) else err piece_not_owned
    ]
  ]

-- The places, from `start`, of the pieces that a test accepts.
unfoldable pub indices_where : (ℕ → Piece → Bool) → ℕ → List Piece → List ℕ
indices_where test start [] = []
indices_where test start (p ∷ ps) =
    let rest = indices_where test (suc start) ps in if test start p then start ∷ rest else rest

abbrev pub stands_with : Piece → Piece → Bool
stands_with selected piece =
    piece.team_id == selected.team_id
    && (piece.state == selected.state && piece.current_space_id == selected.current_space_id)

unfoldable pub moving_piece_indices : Game → ℕ → Piece → List ℕ
moving_piece_indices game index selected =
    if not game.settings.stacking_enabled || selected.state == piece_waiting
    then index ∷ []
    else indices_where (λ _ piece. stands_with selected piece) 0 game.pieces

unfoldable pub piece_ids : List Piece → List ℕ → List PieceId
piece_ids pieces [] = []
piece_ids pieces (i ∷ is) =
    let rest = piece_ids pieces is in
    elim (get_elem? pieces i) [ none ↦ rest | some p ↦ p.id ∷ rest ]
