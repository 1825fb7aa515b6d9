-- ===== src/Flow/Candidates.antt =====
-- internal/application/match_flow.go and match_events.go: the tokens that are exposed, and the
-- moves that a player may choose.
use buk_yutnori.Prelude.{
  Bool, true, false, not, ◌&&◌, ◌||◌, List, [], ◌∷◌, ◌++◌, Option, none, some, ◌==◌, string_eq,
  if◌then◌else◌, map,
}
use buk_yutnori.Prelude.Result.{Result, ok, err, ◌>>=◌}
use buk_yutnori.Domain.{
  Error, forward_movement_unavailable, backdo_movement_unavailable, backdo_history_unavailable,
  PieceId, ResultTokenId, TeamId, team_eq, YutResult, yut_backdo, yut_buk, yut_eq, piece_finished,
  piece_state_eq, Route,
}
use buk_yutnori.Room.Settings.{MovementOrder, movement_fifo}
use buk_yutnori.Turn.Token.{ResultToken}
use buk_yutnori.Match.Types.{Piece, OrdinaryMovePlan}
use buk_yutnori.Match.Game.{Game}
use buk_yutnori.Match.Movement.{ordinary_move_plans, backdo_move_plan}
use buk_yutnori.Flow.Events.{MoveCandidate}

abbrev pub by_order : MovementOrder → List ResultToken → List ResultToken
by_order movement_fifo (token ∷ tokens) = token ∷ []
by_order order tokens = tokens

-- The loop that looks for a Buk, with the tokens of the whole queue for when there is none.
abbrev pub buk_or : List ResultToken → List ResultToken → List ResultToken
buk_or whole [] = whole
buk_or whole (token ∷ tokens) = if token.result == yut_buk then token ∷ [] else buk_or whole tokens

unfoldable pub available_tokens_for : MovementOrder → List ResultToken → List ResultToken
available_tokens_for order tokens = buk_or (by_order order tokens) tokens

unfoldable pub result_of_token : List ResultToken → ResultTokenId → Option YutResult
result_of_token [] id = none
result_of_token (token ∷ tokens) id =
    if token.id == id then some token.result else result_of_token tokens id

unfoldable pub is_unavailable_movement_error : Error → Bool
is_unavailable_movement_error forward_movement_unavailable = true
is_unavailable_movement_error backdo_movement_unavailable = true
is_unavailable_movement_error backdo_history_unavailable = true
is_unavailable_movement_error _ = false

abbrev pub or_no_candidate : Error → Result Error (Option MoveCandidate)
or_no_candidate e = if is_unavailable_movement_error e then ok none else err e

abbrev pub routes_of : List OrdinaryMovePlan → List Route
routes_of = map (λ plan. plan.route)

-- `if len(routes) > 0`
abbrev pub with_routes : ResultTokenId → PieceId → List Route → Option MoveCandidate
with_routes token_id piece_id [] = none
with_routes token_id piece_id (route ∷ routes) =
    some (record { token_id = token_id; piece_id = piece_id; routes = route ∷ routes })

abbrev pub backdo_candidate :
    Game → TeamId → ResultTokenId → PieceId → Result Error (Option MoveCandidate)
backdo_candidate game team token_id piece_id = elim (backdo_move_plan game team piece_id) [
  | err e ↦ or_no_candidate e
  | ok _ ↦ ok (some (record { token_id = token_id; piece_id = piece_id; routes = [] }))
]

abbrev pub ordinary_candidate :
    Game → TeamId → ResultToken → PieceId → Result Error (Option MoveCandidate)
ordinary_candidate game team token piece_id =
    elim (ordinary_move_plans game team piece_id token.result) [
      | err e ↦ or_no_candidate e
      | ok (plans, _) ↦ ok (with_routes token.id piece_id (routes_of plans))
    ]

-- The body of the loop over the pieces.
unfoldable pub piece_candidate :
    Game → TeamId → ResultToken → Piece → Result Error (Option MoveCandidate)
piece_candidate game team token piece =
    if not (piece.team_id == team) || piece.state == piece_finished
    then ok none
    else if token.result == yut_backdo
    then backdo_candidate game team token.id piece.id
    else ordinary_candidate game team token piece.id

abbrev pub add_candidate : Option MoveCandidate → List MoveCandidate → List MoveCandidate
add_candidate none candidates = candidates
add_candidate (some c) candidates = c ∷ candidates

-- The loop over the pieces, for one token.
unfoldable pub token_candidates :
    Game → TeamId → ResultToken → List Piece → Result Error (List MoveCandidate)
token_candidates game team token [] = ok []
token_candidates game team token (piece ∷ pieces) = do
  found ← piece_candidate game team token piece
  rest ← token_candidates game team token pieces
  ok (add_candidate found rest)

-- `if len(candidates) == before`
abbrev pub unusable_when_none : ResultTokenId → List MoveCandidate → List ResultTokenId
unusable_when_none id [] = id ∷ []
unusable_when_none id (_ ∷ _) = []

-- The loop over the exposed tokens: the candidates, and the tokens that have none.
unfoldable pub candidates_of :
    Game → TeamId → List ResultToken → Result Error (List MoveCandidate × List ResultTokenId)
candidates_of game team [] = ok ([], [])
candidates_of game team (token ∷ tokens) =
    let rest = candidates_of game team tokens in
    if token.result == yut_buk then ok ([], []) else (do
      found ← token_candidates game team token game.pieces
      (candidates, unusable) ← rest
      ok (found ++ candidates, unusable_when_none token.id found ++ unusable))

unfoldable pub move_candidates :
    Game
    → TeamId
    → MovementOrder
    → List ResultToken
    → Result Error (List MoveCandidate × List ResultTokenId)
move_candidates game team order queue = candidates_of game team (available_tokens_for order queue)

-- The loop that looks for the pair that a player has chosen.
unfoldable pub find_candidate : List MoveCandidate → ResultTokenId → PieceId → Option MoveCandidate
find_candidate [] token_id piece_id = none
find_candidate (c ∷ cs) token_id piece_id =
    if c.token_id == token_id && c.piece_id == piece_id
    then some c
    else find_candidate cs token_id piece_id
