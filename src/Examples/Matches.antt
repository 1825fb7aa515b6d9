-- ===== src/Examples/Matches.antt =====
-- A match of two pieces each, in which a piece is captured.
use buk_yutnori.Prelude.{
  ◌≡◌, ◌≢◌, refl, true, false, List, [], ◌∷◌, none, some, text_discrete, ℕ_discrete, arith,
  get_elem?, contains, nat_eq, ap, ◌∙◌,
}
use buk_yutnori.Prelude.Result.{ok}
use buk_yutnori.Domain.{
  team_a, team_b, piece_waiting, piece_on_board, piece_finished, yut_gae, route_normal, route_empty,
  movement_forward, movement_backdo, validate_id, validate_team_id, validate_route,
  ordinary_movement_spaces, TeamId-discrete, PieceState-discrete, YutResult-discrete,
  Route-discrete,
}
use buk_yutnori.Room.Settings
use buk_yutnori.Room.Settings.{Settings, default_settings, shortcut_selectable, shortcut_other}
use buk_yutnori.Board.Types
use buk_yutnori.Board.Types.{
  Position, known, node, selectable_shortcuts, validate_shortcut_policy, choice, adjacency,
}
use buk_yutnori.Board.Forward.{
  ForwardPlan, forward_plans, forward_origin, plans_from, build_forward_plan, walk, chosen_space,
  next_space, normal_forward_space, is_back_mo_shortcut_space,
}
use buk_yutnori.Board.Backdo.{backdo_plan, check_backdo_position}
use buk_yutnori.Board.Canonical.{canonical_graph}
use buk_yutnori.Board.Canonical.Sound.{canonical-IsSound, canonical-IsClosed}
use buk_yutnori.Match.BukDestination.{initial_buk_destination}
use buk_yutnori.Match.Types.{TeamSetup, Piece, MoveOutcome}
use buk_yutnori.Match.Game.{
  Game, new_game, waiting_piece, add_teams, add_pieces, owned_piece, piece_index,
  moving_piece_indices, piece_ids, indices_where,
}
use buk_yutnori.Match.Resolution.{
  MoveResolutionPlan, apply_move_resolution, at_destination, moved_pieces, change_all,
  destination_allies, captured_piece_indices, team_piece_ids_at_destination,
  all_team_pieces_finished, capture_grants_extra_throw, apply_ordinary_move_plan,
}
use buk_yutnori.Match.Resolution.Pieces.{fate, apply_move_resolution-fate, no_opponent_left}
use buk_yutnori.Match.Movement.{
  ordinary_move_plans, backdo_move_plan, validate_plan_routes, validate_each, validate_forward_plan,
  validate_spaces, ends_at, comes_from, select_ordinary_move_plan, apply_ordinary_move,
  apply_backdo_move, validate_forward_plans, validate_backdo_plan,
}
use buk_yutnori.Match.Movement.Accepted.{forward_plans_accepted}

abbrev pub two_pieces : Settings
two_pieces = record default_settings { piece_count = 2 }

abbrev pub setups : List TeamSetup
setups =
    record { team_id = team_a; piece_ids = "a1" ∷ "a2" ∷ [] }
    ∷ record { team_id = team_b; piece_ids = "b1" ∷ "b2" ∷ [] }
    ∷ []

abbrev pub new_match : Game
new_match = record {
  planner = canonical_graph;
  settings = two_pieces;
  random_source = none;
  pieces =
      waiting_piece team_a "a1"
      ∷ waiting_piece team_a "a2"
      ∷ waiting_piece team_b "b1"
      ∷ waiting_piece team_b "b2"
      ∷ [];
  winner_team_id = none;
  buk_destination_space_id = "";
}

pub new_match_made : new_game canonical_graph two_pieces setups none ≡ ok new_match
unfolding initial_buk_destination new_game Settings.validate ℕ_discrete
    Settings.CaptureExtraThrowPolicy-discrete Settings.ShortcutPolicy-discrete
    Settings.MovementOrder-discrete add_teams validate_team_id add_pieces validate_id text_discrete
    TeamId-discrete
new_match_made = refl

abbrev b1_on_gae : Piece
b1_on_gae = record {
  id = "b1";
  team_id = team_b;
  state = piece_on_board;
  current_space_id = "gae";
  actual_previous_space = "do";
}

abbrev after_gae : Game
after_gae = record new_match {
  pieces =
      waiting_piece team_a "a1"
      ∷ waiting_piece team_a "a2"
      ∷ b1_on_gae
      ∷ waiting_piece team_b "b2"
      ∷ [];
}

abbrev pub gae_outcome : MoveOutcome
gae_outcome = record {
  route = route_normal;
  movement_kind = movement_forward;
  from_space_id = "";
  to_space_id = "gae";
  actual_previous_space = "do";
  moved_piece_ids = "b1" ∷ [];
  stacked_piece_ids = [];
  captured_piece_ids = [];
  capture_extra_throw = false;
  match_ended = false;
  winner_team_id = none;
}

gae_moved :
    apply_ordinary_move new_match team_b "b1" yut_gae route_empty ≡ ok (after_gae, gae_outcome)
unfolding apply_ordinary_move ordinary_move_plans ordinary_movement_spaces forward_plans
    validate_shortcut_policy forward_origin plans_from choice build_forward_plan walk chosen_space
    next_space normal_forward_space adjacency is_back_mo_shortcut_space validate_forward_plans
    validate_plan_routes validate_each validate_forward_plan validate_route validate_spaces ends_at
    comes_from select_ordinary_move_plan apply_ordinary_move_plan Settings.ShortcutPolicy-discrete
    Types.ShortcutPolicy-discrete Route-discrete owned_piece piece_index validate_team_id
    moving_piece_indices piece_ids node text_discrete ℕ_discrete validate_id TeamId-discrete
    PieceState-discrete apply_move_resolution moved_pieces change_all destination_allies
    captured_piece_indices indices_where team_piece_ids_at_destination all_team_pieces_finished
    capture_grants_extra_throw YutResult-discrete
gae_moved = refl

abbrev b1_on_do : Piece
b1_on_do = record b1_on_gae { current_space_id = "do"; actual_previous_space = "gae" }

abbrev after_backdo : Game
after_backdo = record new_match {
  pieces =
      waiting_piece team_a "a1"
      ∷ waiting_piece team_a "a2"
      ∷ b1_on_do
      ∷ waiting_piece team_b "b2"
      ∷ [];
}

abbrev backdo_outcome : MoveOutcome
backdo_outcome = record gae_outcome {
  route = route_empty;
  movement_kind = movement_backdo;
  from_space_id = "gae";
  to_space_id = "do";
  actual_previous_space = "gae";
}

backdo_moved : apply_backdo_move after_gae team_b "b1" ≡ ok (after_backdo, backdo_outcome)
unfolding apply_backdo_move backdo_move_plan backdo_plan check_backdo_position validate_backdo_plan
    owned_piece piece_index validate_team_id moving_piece_indices piece_ids node text_discrete
    ℕ_discrete validate_id TeamId-discrete PieceState-discrete apply_move_resolution moved_pieces
    change_all destination_allies captured_piece_indices indices_where team_piece_ids_at_destination
    all_team_pieces_finished capture_grants_extra_throw YutResult-discrete
backdo_moved = refl

-- `a1` moves to 개, where `b1` stands.
abbrev to_gae : MoveResolutionPlan
to_gae = record {
  route = route_normal;
  movement_kind = movement_forward;
  destination_state = piece_on_board;
  destination_space_id = "gae";
  actual_previous_space = "do";
  moving_indices = 0 ∷ [];
}

apply_move_resolution-fate_example :
    get_elem? (apply_move_resolution after_gae team_a "a1" yut_gae to_gae).0.pieces 2
    ≡ some (fate after_gae team_a to_gae 2 b1_on_gae)
apply_move_resolution-fate_example =
    apply_move_resolution-fate after_gae team_a "a1" yut_gae to_gae 2 refl

-- `b1` is sent back.
captured : fate after_gae team_a to_gae 2 b1_on_gae ≡ waiting_piece team_b "b1"
unfolding ℕ_discrete text_discrete TeamId-discrete PieceState-discrete
captured = refl

there :
    get_elem? (apply_move_resolution after_gae team_a "a1" yut_gae to_gae).0.pieces 2
    ≡ some (waiting_piece team_b "b1")
there = apply_move_resolution-fate after_gae team_a "a1" yut_gae to_gae 2 refl ∙ ap some captured

not_moving : contains to_gae.moving_indices 2 ≡ true → team_b ≡ team_a
unfolding ℕ_discrete
not_moving e = ground arith

on_board_not_finished : piece_on_board ≢ piece_finished
on_board_not_finished e = ground arith

on_board_not_waiting : piece_on_board ≢ piece_waiting
on_board_not_waiting e = ground arith

other_team : team_b ≢ team_a
other_team e = ground arith

no_opponent_left_example : at_destination to_gae (waiting_piece team_b "b1") ≡ false
no_opponent_left_example =
    no_opponent_left after_gae team_a "a1" yut_gae to_gae 2 on_board_not_finished
      on_board_not_waiting refl not_moving there other_team

abbrev on_gae : Position
on_gae = record { state = piece_on_board; space = "gae" }

abbrev gae_to_geol : ForwardPlan
gae_to_geol = record {
  route = route_normal;
  destination = record { state = piece_on_board; space = "geol" };
  actual_previous_space = "gae";
  traversed = "geol" ∷ [];
}

gae_plans : forward_plans canonical_graph on_gae 1 selectable_shortcuts ≡ ok (gae_to_geol ∷ [])
unfolding forward_plans validate_shortcut_policy forward_origin node text_discrete plans_from choice
    build_forward_plan walk chosen_space next_space Types.ShortcutPolicy-discrete
    is_back_mo_shortcut_space normal_forward_space adjacency
gae_plans = refl

pub start_known : known canonical_graph "chammeogi" ≡ true
unfolding node text_discrete
start_known = refl

selectable_known : shortcut_selectable ≢ shortcut_other
selectable_known e = ground arith

forward_plans_accepted_example :
    validate_forward_plans (gae_to_geol ∷ []) shortcut_selectable ≡ ok tt
forward_plans_accepted_example =
    forward_plans_accepted canonical_graph on_gae 1 shortcut_selectable canonical-IsSound
      canonical-IsClosed start_known selectable_known gae_plans
