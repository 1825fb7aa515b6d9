-- ===== src/Examples/Cpus.antt =====
-- A CPU player decides in a match where one of its pieces can capture.
use buk_yutnori.Prelude.{◌≡◌, refl, true, false, [], ◌∷◌, none, text_discrete, string_eq}
use buk_yutnori.Prelude.Result.{ok}
use buk_yutnori.Domain.{
  team_a, team_b, yut_gae, piece_on_board, route_normal, route_empty, origin_initial_throw,
  validate_team_id, YutResult-discrete, TeamId-discrete, PieceState-discrete,
  ordinary_movement_spaces, Route-discrete, validate_id, validate_origin, validate_route,
  validate_yut_result,
}
use buk_yutnori.Room.Settings
use buk_yutnori.Room.Settings.{Settings, default_settings}
use buk_yutnori.Turn.Token
use buk_yutnori.Board.Types
use buk_yutnori.Match.Movement.{
  ordinary_move_plans, backdo_move_plan, comes_from, ends_at, validate_backdo_plan, validate_each,
  validate_forward_plan, validate_forward_plans, validate_plan_routes, validate_spaces,
}
use buk_yutnori.Board.Forward.{
  forward_plans, build_forward_plan, chosen_space, forward_origin, is_back_mo_shortcut_space,
  next_space, normal_forward_space, plans_from, walk,
}
use buk_yutnori.Board.Backdo.{backdo_plan, check_backdo_position}
use buk_yutnori.Board.Distance.{
  forward_for_policy, remaining_forward_distance, scan, search, shortest_distance,
}
use buk_yutnori.Board.Types.{adjacency, choice, forced, node, validate_shortcut_policy}
use buk_yutnori.Turn.Token.{ResultToken}
use buk_yutnori.Board.Canonical.{canonical_graph}
use buk_yutnori.Match.Types.{Piece}
use buk_yutnori.Match.Game.{
  Game, waiting_piece, owned_piece, piece_index, indices_where, moving_piece_indices, piece_ids,
}
use buk_yutnori.Cpu.Ranking.{MoveCandidate, best_candidates, compare_candidates, rank}
use buk_yutnori.Cpu.Ranking.Unbeaten.{keep, unbeaten, best_candidates-unbeaten}
use buk_yutnori.Cpu.Policy.{
  Policy, Decision, action_move_piece, reader, decide, move_candidates, candidates_from,
  candidate_for_piece, planned, forward_planned, automatic_forward_plan, backdo_planned,
  candidate_of, destination_effects, effects, moved_group_key, piece_distance, random_candidate,
}
use buk_yutnori.Cpu.Policy.Legal.{Applies}
use buk_yutnori.Cpu.Policy.Choice.{decided_move-Applies}

abbrev a1_on_do : Piece
a1_on_do = record (waiting_piece team_a "a1") {
  state = piece_on_board;
  current_space_id = "do";
  actual_previous_space = "chammeogi";
}

abbrev b1_on_gae : Piece
b1_on_gae = record (waiting_piece team_b "b1") {
  state = piece_on_board;
  current_space_id = "gae";
  actual_previous_space = "do";
}

abbrev two_pieces : Settings
two_pieces = record default_settings { piece_count = 2 }

abbrev game : Game
game = record {
  planner = canonical_graph;
  settings = two_pieces;
  random_source = none;
  pieces = a1_on_do ∷ waiting_piece team_a "a2" ∷ b1_on_gae ∷ waiting_piece team_b "b2" ∷ [];
  winner_team_id = none;
  buk_destination_space_id = "";
}

abbrev policy : Policy
policy = record {
  finish_planner = canonical_graph;
  settings = two_pieces;
  random_source = λ limit. 0;
}

abbrev token : ResultToken
token = record {
  id = "t1";
  result = yut_gae;
  generated_by_player_id = "cpu";
  origin = origin_initial_throw;
}

-- `a2` captures on 개; `a1` would only go on to 걸.
abbrev capture : Decision
capture = record {
  action = action_move_piece;
  token_id = "t1";
  result = yut_gae;
  piece_id = "a2";
  route = route_empty;
}

captures : decide policy (reader game) (token ∷ []) team_a ≡ ok capture
unfolding decide validate_team_id Token.validate text_discrete reader YutResult-discrete
    move_candidates candidates_from TeamId-discrete PieceState-discrete candidate_for_piece planned
    forward_planned ordinary_move_plans owned_piece piece_index ordinary_movement_spaces
    forward_plans backdo_plan check_backdo_position forward_for_policy remaining_forward_distance
    scan search shortest_distance build_forward_plan chosen_space forward_origin
    is_back_mo_shortcut_space next_space normal_forward_space plans_from walk
    Types.ShortcutPolicy-discrete adjacency choice forced node validate_shortcut_policy
    automatic_forward_plan backdo_planned candidate_of destination_effects effects moved_group_key
    piece_distance random_candidate best_candidates compare_candidates rank Route-discrete
    validate_id validate_origin validate_route validate_yut_result indices_where
    moving_piece_indices piece_ids backdo_move_plan comes_from ends_at validate_backdo_plan
    validate_each validate_forward_plan validate_forward_plans validate_plan_routes validate_spaces
    Settings.ShortcutPolicy-discrete
captures = refl

decided_move-Applies_example : Applies game team_a "a2" yut_gae route_empty
decided_move-Applies_example = decided_move-Applies policy game (token ∷ []) team_a captures refl

abbrev plain : MoveCandidate
plain = record {
  piece = a1_on_do;
  moved_ids = "a1" ∷ [];
  apply_route = route_empty;
  plan_route = route_normal;
  destination = piece_on_board;
  space = "geol";
  immediate_finish = false;
  captures = false;
  stacks = false;
  enters_shortcut = false;
  has_distance = true;
  distance = 20;
}

abbrev capturing : MoveCandidate
capturing = record plain { captures = true }

best_candidates-unbeaten_example :
    best_candidates plain (capturing ∷ [])
    ≡ keep (unbeaten (plain ∷ capturing ∷ [])) (plain ∷ capturing ∷ [])
best_candidates-unbeaten_example = best_candidates-unbeaten plain (capturing ∷ [])
