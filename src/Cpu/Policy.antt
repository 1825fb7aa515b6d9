-- ===== src/Cpu/Policy.antt =====
-- internal/domain/cpu/policy.go and types.go, without the ranking. The match is read through an
-- interface; the source of random numbers is the answer that it gives for a limit.
pub mod Legal
pub mod Choice
use buk_yutnori.Prelude.{
  ℕ, suc, Bool, true, false, not, ◌&&◌, ◌||◌, List, [], ◌∷◌, ◌++◌, Option, none, some, ◌==◌,
  string_eq, Eq, if◌then◌else◌, contains, length, get_elem?, leb, ltb,
}
use buk_yutnori.Prelude.Sort.{sorted}
use buk_yutnori.Prelude.Result.{Result, ok, err, ◌>>=◌, ◌>>◌, guard}
use buk_yutnori.Domain.{
  Error, invalid_policy_config, invalid_decision_input, no_result_token, invalid_move_plans,
  match_ended, forward_movement_unavailable, backdo_movement_unavailable,
  backdo_history_unavailable, random_source_out_of_range, PieceId, SpaceId, TeamId, team_eq,
  validate_team_id, validate_id, ResultTokenId, YutResult, yut_do, yut_gae, yut_geol, yut_yut,
  yut_mo, yut_backdo, yut_buk, yut_other, yut_eq, validate_yut_result, PieceState, piece_waiting,
  piece_finished, piece_state_eq, Route, route_shortcut, route_empty, route_eq,
}
use buk_yutnori.Room.Settings
use buk_yutnori.Room.Settings.{Settings}
use buk_yutnori.Board.Types.{Graph, Position}
use buk_yutnori.Board.Distance.{remaining_forward_distance}
use buk_yutnori.Turn.Token
use buk_yutnori.Turn.Token.{ResultToken}
use buk_yutnori.Match.Types.{Piece, OrdinaryMovePlan, BackdoMovePlan}
use buk_yutnori.Match.Game.{Game}
use buk_yutnori.Match.Movement.{
  ordinary_move_plans, backdo_move_plan, board_shortcut_policy, position_of,
}
use buk_yutnori.Cpu.Ranking.{MoveCandidate, best_candidates}

pub data Action : Type 0 where
  action_move_piece action_resolve_buk action_discard_result : Action

pub record Decision : Type 0 where
  pub action : Action
  pub token_id : ResultTokenId
  pub result : YutResult
  pub piece_id : PieceId
  pub route : Route

-- `MatchReader`, with of its snapshot the parts that are read.
pub record MatchReader : Type 0 where
  pub pieces : List Piece
  pub winner_team_id : Option TeamId
  pub ordinary_plans : TeamId → PieceId → YutResult → Result Error (List OrdinaryMovePlan)
  pub backdo_plan_of : TeamId → PieceId → Result Error BackdoMovePlan

-- The game as a match reader: `Snapshot`, `OrdinaryMovePlans` and `BackdoMovePlan`.
unfoldable pub reader : Game → MatchReader
reader game = record {
  pieces = game.pieces;
  winner_team_id = game.winner_team_id;
  ordinary_plans = λ team id result. ordinary_move_plans game team id result >>= λ r. ok r.0;
  backdo_plan_of = λ team id. backdo_move_plan game team id >>= λ r. ok r.0;
}

pub record Policy : Type 0 where
  pub finish_planner : Graph
  pub settings : Settings
  pub random_source : ℕ → ℕ

unfoldable pub new_policy : Graph → Settings → (ℕ → ℕ) → Result Error Policy
new_policy planner settings source = elim (Settings.validate settings) [
  | err _ ↦ err invalid_policy_config
  | ok _ ↦ ok (record { finish_planner = planner; settings = settings; random_source = source })
]

abbrev pub shortcut_plan : List OrdinaryMovePlan → Result Error (OrdinaryMovePlan × Route)
shortcut_plan [] = err invalid_move_plans
shortcut_plan (p ∷ ps) =
    if p.route == route_shortcut then ok (p, route_shortcut) else shortcut_plan ps

unfoldable pub automatic_forward_plan :
    List OrdinaryMovePlan → Result Error (OrdinaryMovePlan × Route)
automatic_forward_plan (p ∷ []) = ok (p, route_empty)
automatic_forward_plan (p ∷ q ∷ []) = shortcut_plan (p ∷ q ∷ [])
automatic_forward_plan _ = err invalid_move_plans

-- The plan of a candidate: what it moves, by which routes, and where to.
pub record Planned : Type 0 where
  pub moved_ids : List PieceId
  pub apply_route : Route
  pub plan_route : Route
  pub destination : PieceState
  pub space : SpaceId

abbrev pub no_forward : Error → Result Error (Option Planned)
no_forward forward_movement_unavailable = ok none
no_forward e = err e

abbrev pub no_backdo : Error → Result Error (Option Planned)
no_backdo backdo_movement_unavailable = ok none
no_backdo backdo_history_unavailable = ok none
no_backdo e = err e

unfoldable pub forward_planned :
    MatchReader → TeamId → PieceId → YutResult → Result Error (Option Planned)
forward_planned game team id result = elim (game.ordinary_plans team id result) [
  | err e ↦ no_forward e
  | ok plans ↦ do
    (plan, route) ← automatic_forward_plan plans
    ok (
        some (record {
          moved_ids = plan.moved_piece_ids;
          apply_route = route;
          plan_route = plan.route;
          destination = plan.destination_state;
          space = plan.destination_space_id;
        }))
]

unfoldable pub backdo_planned : MatchReader → TeamId → PieceId → Result Error (Option Planned)
backdo_planned game team id = elim (game.backdo_plan_of team id) [
  | err e ↦ no_backdo e
  | ok plan ↦ ok (
      some (record {
        moved_ids = plan.moved_piece_ids;
        apply_route = route_empty;
        plan_route = route_empty;
        destination = plan.destination_state;
        space = plan.destination_space_id;
      }))
]

-- The `switch` on the result.
unfoldable pub planned : MatchReader → TeamId → PieceId → YutResult → Result Error (Option Planned)
planned game team id yut_backdo = backdo_planned game team id
planned game team id yut_buk = err invalid_decision_input
planned game team id yut_other = err invalid_decision_input
planned game team id result = forward_planned game team id result

-- The loop of destinationEffects.
unfoldable pub effects : Policy → TeamId → Planned → List Piece → Bool × Bool
effects policy team plan [] = (false, false)
effects policy team plan (p ∷ ps) =
    let rest = effects policy team plan ps in
    if not (p.state == plan.destination && p.current_space_id == plan.space)
    then rest
    else if not (p.team_id == team)
    then (true, rest.1)
    else if policy.settings.stacking_enabled && not (contains plan.moved_ids p.id)
    then (rest.0, true)
    else rest

unfoldable pub destination_effects : Policy → TeamId → Planned → List Piece → Bool × Bool
destination_effects policy team plan pieces =
    if plan.destination == piece_finished then (false, false) else effects policy team plan pieces

-- Whether a distance is known, and the distance.
unfoldable pub piece_distance : Policy → Piece → Result Error (Bool × ℕ)
piece_distance policy piece = if piece.state == piece_waiting then ok (false, 0) else (do
  d ←
      remaining_forward_distance policy.finish_planner (position_of piece)
        (board_shortcut_policy policy.settings.shortcut_policy)
  guard (ltb 0 d) invalid_move_plans
  ok (true, d))

abbrev some_ids : List PieceId → Bool
some_ids [] = false
some_ids (_ ∷ _) = true

unfoldable pub candidate_of :
    Policy → MatchReader → TeamId → Piece → Planned → Result Error MoveCandidate
candidate_of policy game team piece plan = do
  guard (some_ids plan.moved_ids) invalid_move_plans
  guard (contains plan.moved_ids piece.id) invalid_move_plans
  let (captures, stacks) = destination_effects policy team plan game.pieces
  (has_distance, distance) ← piece_distance policy piece
  ok (record {
    piece = piece;
    moved_ids = plan.moved_ids;
    apply_route = plan.apply_route;
    plan_route = plan.plan_route;
    destination = plan.destination;
    space = plan.space;
    immediate_finish = plan.destination == piece_finished;
    captures = captures;
    stacks = stacks;
    enters_shortcut = plan.plan_route == route_shortcut;
    has_distance = has_distance;
    distance = distance;
  })

unfoldable pub candidate_for_piece :
    Policy → MatchReader → TeamId → Piece → YutResult → Result Error (Option MoveCandidate)
candidate_for_piece policy game team piece result = do
  plan ← planned game team piece.id result
  elim plan [ none ↦ ok none | some p ↦ candidate_of policy game team piece p >>= λ c. ok (some c) ]

abbrev pub validate_ids : List PieceId → Result Error (Unit {0})
validate_ids [] = ok tt
validate_ids (id ∷ ids) = elim (validate_id id) [
  | err _ ↦ err invalid_move_plans
  | ok _ ↦ validate_ids ids
]

-- movedGroupKey: the sorted identifiers. The code writes them, each after its length, into one
-- text, from which they can be read off again.
unfoldable pub moved_group_key : List PieceId → Result Error (List PieceId)
moved_group_key ids = validate_ids (sorted ids) >> ok (sorted ids)

abbrev pub same_key : List PieceId → List PieceId → Bool
same_key [] [] = true
same_key (j ∷ js) (k ∷ ks) = j == k && same_key js ks
same_key _ _ = false

abbrev pub seen_key : List (List PieceId) → List PieceId → Bool
seen_key [] k = false
seen_key (j ∷ js) k = same_key j k || seen_key js k

-- The loop over the pieces.
unfoldable pub candidates_from :
    Policy
    → MatchReader
    → TeamId
    → YutResult
    → List (List PieceId)
    → List Piece
    → Result Error (List MoveCandidate)
candidates_from policy game team result seen [] = ok []
candidates_from policy game team result seen (p ∷ ps) =
    let skip = candidates_from policy game team result seen ps in
    if not (p.team_id == team) || p.state == piece_finished
    then skip
    else candidate_for_piece policy game team p result >>= λ found. elim found [
      | none ↦ skip
      | some c ↦ moved_group_key c.moved_ids >>= λ key.
          let rest = candidates_from policy game team result (key ∷ seen) ps in
          if seen_key seen key then skip else rest >>= λ cs. ok (c ∷ cs)
    ]

abbrev pub or_input : Result Error (Unit {0}) → Result Error (Unit {0})
or_input (ok u) = ok u
or_input (err _) = err invalid_decision_input

unfoldable pub move_candidates :
    Policy → MatchReader → TeamId → YutResult → Result Error (List MoveCandidate)
move_candidates policy game team result = do
  guard (not (result == yut_buk)) invalid_decision_input
  or_input (validate_yut_result result)
  candidates_from policy game team result [] game.pieces

abbrev pub candidate_at : List MoveCandidate → ℕ → Result Error MoveCandidate
candidate_at cs ticket = elim (get_elem? cs ticket) [
  | some c ↦ ok c
  | none ↦ err random_source_out_of_range
]

unfoldable pub random_candidate : Policy → List MoveCandidate → Result Error MoveCandidate
random_candidate policy (c ∷ []) = ok c
random_candidate policy cs =
    let ticket = policy.random_source (length cs) in
    if leb (length cs) ticket then err random_source_out_of_range else candidate_at cs ticket

abbrev pub decide_move : Policy → ResultToken → List MoveCandidate → Result Error Decision
decide_move policy token [] = ok (record {
  action = action_discard_result;
  token_id = token.id;
  result = token.result;
  piece_id = "";
  route = route_empty;
})
decide_move policy token (c ∷ cs) = do
  selected ← random_candidate policy (best_candidates c cs)
  ok (record {
    action = action_move_piece;
    token_id = token.id;
    result = token.result;
    piece_id = selected.piece.id;
    route = selected.apply_route;
  })

abbrev pub decide_head : Policy → MatchReader → TeamId → ResultToken → Result Error Decision
decide_head policy game team token =
    if token.result == yut_buk
    then ok (record {
      action = action_resolve_buk;
      token_id = token.id;
      result = token.result;
      piece_id = "";
      route = route_empty;
    })
    else move_candidates policy game team token.result >>= decide_move policy token

abbrev pub no_winner : MatchReader → Result Error (Unit {0})
no_winner game = elim game.winner_team_id [ none ↦ ok tt | some _ ↦ err match_ended ]

-- The queue of the snapshot of the turn is an argument.
unfoldable pub decide : Policy → MatchReader → List ResultToken → TeamId → Result Error Decision
decide policy game [] team = or_input (validate_team_id team) >> err no_result_token
decide policy game (token ∷ tokens) team = do
  or_input (validate_team_id team)
  or_input (Token.validate token)
  no_winner game
  decide_head policy game team token
