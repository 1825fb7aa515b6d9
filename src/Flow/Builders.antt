-- ===== src/Flow/Builders.antt =====
-- internal/protocol/match_events.go and NewRoomUpdatedEvent of internal/protocol/room_events.go: what
-- the builder of an event checks before it makes the message. The encoding of a message is left
-- out: it checks the same identifiers again.
use Prim.Native.Nat.{◌%◌}
use buk_yutnori.Prelude.{
  ℕ, ◌+◌, Bool, true, false, not, ◌&&◌, List, [], ◌∷◌, Option, none, some, String, ◌==◌, string_eq,
  nat_eq, if◌then◌else◌, contains, length, leb,
}
use buk_yutnori.Prelude.Result.{Result, ok, err, guard, ◌>>=◌, ◌>>◌}
use buk_yutnori.Domain.{
  Error, invalid_server_event, PlayerId, TeamId, PieceId, SpaceId, ResultTokenId, Route,
  route_normal, route_shortcut, route_eq, RequiredInput, input_select_move, input_select_route,
  validate_id, validate_team_id, validate_yut_result, validate_route, validate_origin,
}
use buk_yutnori.Flow.Events.{
  TokenView, MoveCandidate, CpuControlReason, reason_none, Event, game_started, turn_started,
  cpu_control_started, yut_result, result_queue_updated, result_selected, piece_selected,
  move_required, piece_moved, pieces_stacked, pieces_captured, buk_resolved, game_ended,
  room_updated, game_paused, game_resumed,
}

-- `fmt.Errorf("%w: field: %v", ErrInvalidServerEvent, err)`
abbrev pub checked : Result Error (Unit {0}) → Result Error (Unit {0})
checked (ok _) = ok tt
checked (err _) = err invalid_server_event

unfoldable pub validate_room_event_scope : String → ℕ → Result Error (Unit {0})
validate_room_event_scope room_id sequence = do
  checked (validate_id room_id)
  guard (not (sequence == 0)) invalid_server_event

unfoldable pub validate_match_event_scope : String → String → ℕ → Result Error (Unit {0})
validate_match_event_scope room_id match_id sequence = do
  checked (validate_id room_id)
  checked (validate_id match_id)
  guard (not (sequence == 0)) invalid_server_event

unfoldable pub validate_result_token_view : TokenView → Result Error (Unit {0})
validate_result_token_view token = do
  checked (validate_id token.token_id)
  checked (validate_yut_result token.result)
  checked (validate_origin token.origin)

unfoldable pub validate_queue : List TokenView → Result Error (Unit {0})
validate_queue [] = ok tt
validate_queue (token ∷ tokens) = validate_result_token_view token >> validate_queue tokens

unfoldable pub validate_optional_space : Option SpaceId → Result Error (Unit {0})
validate_optional_space none = ok tt
validate_optional_space (some space) = checked (validate_id space)

-- The loops over identifiers: each is valid and stands only once. The first argument holds those
-- seen.
unfoldable pub validate_ids : List String → List String → Result Error (Unit {0})
validate_ids seen [] = ok tt
validate_ids seen (id ∷ ids) = do
  checked (validate_id id)
  guard (not (contains seen id)) invalid_server_event
  validate_ids (id ∷ seen) ids

unfoldable pub validate_routes : List Route → List Route → Result Error (Unit {0})
validate_routes seen [] = ok tt
validate_routes seen (route ∷ routes) = do
  checked (validate_route route)
  guard (not (contains seen route)) invalid_server_event
  validate_routes (route ∷ seen) routes

-- `string(candidate.TokenID) + "\x00" + string(candidate.PieceID)` is kept as a pair.
abbrev pub seen_pair : List (ResultTokenId × PieceId) → ResultTokenId → PieceId → Bool
seen_pair [] token_id piece_id = false
seen_pair ((t, p) ∷ pairs) token_id piece_id =
    let rest = seen_pair pairs token_id piece_id in
    if t == token_id && p == piece_id then true else rest

unfoldable pub validate_move_candidates :
    List (ResultTokenId × PieceId) → List MoveCandidate → Result Error (Unit {0})
validate_move_candidates seen [] = ok tt
validate_move_candidates seen (c ∷ cs) = do
  checked (validate_id c.token_id)
  checked (validate_id c.piece_id)
  guard (not (seen_pair seen c.token_id c.piece_id)) invalid_server_event
  validate_routes [] c.routes
  validate_move_candidates ((c.token_id, c.piece_id) ∷ seen) cs

-- One candidate with the normal route and the shortcut.
abbrev pub is_route_choice : List MoveCandidate → Bool
is_route_choice (c ∷ []) = both c.routes
  where
    both : List Route → Bool
    both (first ∷ second ∷ []) = first == route_normal && second == route_shortcut
    both _ = false
is_route_choice _ = false

abbrev pub validate_required : RequiredInput → List MoveCandidate → Result Error (Unit {0})
validate_required input_select_move candidates = ok tt
validate_required input_select_route candidates =
    guard (is_route_choice candidates) invalid_server_event
validate_required _ candidates = err invalid_server_event

abbrev pub is_move_input : RequiredInput → Bool
is_move_input input_select_move = true
is_move_input input_select_route = true
is_move_input _ = false

abbrev pub optional : SpaceId → Option SpaceId
optional space = if space == "" then none else some space

abbrev pub validate_reason : CpuControlReason → Result Error (Unit {0})
validate_reason reason_none = err invalid_server_event
validate_reason _ = ok tt

-- What each builder checks of its payload, behind the scope.
unfoldable pub game_started_payload : PlayerId → Option SpaceId → Result Error (Unit {0})
game_started_payload first_player destination = do
  checked (validate_id first_player)
  validate_optional_space destination

-- Every phase and every required input of the model is one of the code's constants.
unfoldable pub turn_started_payload : PlayerId → Result Error (Unit {0})
turn_started_payload player = checked (validate_id player)

unfoldable pub yut_result_payload : PlayerId → TokenView → Result Error (Unit {0})
yut_result_payload player token = do checked (validate_id player); validate_result_token_view token

unfoldable pub result_selected_payload : ResultTokenId → Result Error (Unit {0})
result_selected_payload token_id = checked (validate_id token_id)

unfoldable pub piece_selected_payload : ResultTokenId → PieceId → Result Error (Unit {0})
piece_selected_payload token_id piece_id = do
  checked (validate_id token_id)
  checked (validate_id piece_id)

unfoldable pub move_required_payload : RequiredInput → List MoveCandidate → Result Error (Unit {0})
move_required_payload input candidates = do
  guard (is_move_input input) invalid_server_event
  guard (leb 1 (length candidates)) invalid_server_event
  validate_move_candidates [] candidates
  validate_required input candidates

-- Every kind of movement of the model is one of the code's constants.
unfoldable pub piece_moved_payload :
    List PieceId → Option SpaceId → Option SpaceId → Result Error (Unit {0})
piece_moved_payload ids from to = do
  guard (leb 1 (length ids)) invalid_server_event
  validate_ids [] ids
  validate_optional_space from
  validate_optional_space to

-- The identifier that `stackIDFor` writes is never empty.
unfoldable pub pieces_stacked_payload :
    List PieceId → SpaceId → Option SpaceId → Result Error (Unit {0})
pieces_stacked_payload ids space previous = do
  guard (leb 2 (length ids)) invalid_server_event
  validate_ids [] ids
  checked (validate_id space)
  validate_optional_space previous

unfoldable pub pieces_captured_payload : List PieceId → SpaceId → Result Error (Unit {0})
pieces_captured_payload ids space = do
  guard (leb 1 (length ids)) invalid_server_event
  validate_ids [] ids
  checked (validate_id space)

unfoldable pub buk_resolved_payload :
    ResultTokenId → SpaceId → List PieceId → Option SpaceId → List SpaceId → Result Error (Unit {0})
buk_resolved_payload token_id destination ids source sources = do
  checked (validate_id token_id)
  checked (validate_id destination)
  validate_ids [] ids
  validate_optional_space source
  validate_ids [] sources

unfoldable pub cpu_control_started_payload : PlayerId → CpuControlReason → Result Error (Unit {0})
cpu_control_started_payload player reason = do checked (validate_id player); validate_reason reason

-- A match that has no winner names the empty text. The reason is a constant.
unfoldable pub game_ended_payload : Option TeamId → Result Error (Unit {0})
game_ended_payload none = err invalid_server_event
game_ended_payload (some winner) = checked (validate_team_id winner)

-- The builders of the other events check nothing more: the statuses and the reasons are constants,
-- and the host who pauses a match has a valid identifier.
unfoldable pub validate_payload : Event → Result Error (Unit {0})
validate_payload (game_started player space) = game_started_payload player (optional space)
validate_payload (turn_started player phase input remaining) = turn_started_payload player
validate_payload (cpu_control_started player reason) = cpu_control_started_payload player reason
validate_payload (yut_result player token) = yut_result_payload player token
validate_payload (result_queue_updated tokens) = validate_queue tokens
validate_payload (result_selected token_id) = result_selected_payload token_id
validate_payload (piece_selected token_id piece_id) = piece_selected_payload token_id piece_id
validate_payload (move_required input candidates) = move_required_payload input candidates
validate_payload (piece_moved ids from to kind) = piece_moved_payload ids from to
validate_payload (pieces_stacked stack ids space previous) =
    pieces_stacked_payload ids space previous
validate_payload (pieces_captured ids space) = pieces_captured_payload ids space
validate_payload (buk_resolved token_id destination ids source sources no_candidate) =
    buk_resolved_payload token_id destination ids source sources
validate_payload (game_ended winner) = game_ended_payload winner
validate_payload (room_updated status) = ok tt
validate_payload (game_paused reason remaining) = ok tt
validate_payload (game_resumed reason) = ok tt

-- An event of the room does not name the match.
abbrev pub validate_scope : String → String → ℕ → Event → Result Error (Unit {0})
validate_scope room_id match_id sequence (room_updated status) =
    validate_room_event_scope room_id sequence
validate_scope room_id match_id sequence _ = validate_match_event_scope room_id match_id sequence

-- `build(sequence)`: whether the builder of an event makes its message.
unfoldable pub build : String → String → ℕ → Event → Result Error (Unit {0})
build room_id match_id sequence event =
    validate_scope room_id match_id sequence event >> validate_payload event

-- The loop of `flush` of internal/application/event_tx.go over the builders: each is given its sequence after the boundary, in 64 bits, and the
-- first that fails ends the flush.
unfoldable pub build_all : String → String → ℕ → List Event → Result Error (List (ℕ × Event))
build_all room_id match_id boundary [] = ok []
build_all room_id match_id boundary (event ∷ events) =
    let sequence = (boundary + 1) % 18_446_744_073_709_551_616 in
    build room_id match_id sequence event
    >> (build_all room_id match_id (boundary + 1) events >>= λ rows. ok ((sequence, event) ∷ rows))
