-- ===== src/Examples/Buks.antt =====
-- A match in Buk mode, in which a Buk sends a waiting piece to its destination.
use buk_yutnori.Prelude.{
  ◌≡◌, ◌≢◌, ◌≤◌, All, refl, true, false, List, [], ◌∷◌, none, some, text_discrete, ℕ_discrete,
  arith, nat_eq,
}
use buk_yutnori.Prelude.Result.{ok}
use buk_yutnori.Domain.{
  team_a, team_b, piece_on_board, yut_gae, route_empty, movement_buk, validate_id, validate_team_id,
  TeamId-discrete, PieceState-discrete, YutResult-discrete,
}
use buk_yutnori.Room.Settings
use buk_yutnori.Room.Settings.{Settings, default_settings, shortcut_selectable, shortcut_other}
use buk_yutnori.Board.Types
use buk_yutnori.Board.Types.{
  Position, known, node, selectable_shortcuts, validate_shortcut_policy, choice, adjacency,
}
use buk_yutnori.Board.Canonical.{canonical_graph}
use buk_yutnori.Board.Canonical.Sound.{canonical-IsSound, canonical-IsClosed}
use buk_yutnori.Match.BukDestination.{
  RandomSource, initial_buk_destination, validate_buk_destination, validate_candidates,
  random_ticket,
}
use buk_yutnori.Turn.Machine.{validate_buk_outcome}
use buk_yutnori.Match.Buk.{
  BukOutcome, PositionGroup, resolve_buk, buk_turn_outcome, closest, minimum_distance, max_int,
  resolve_groups, buk_position_groups, group_pieces, waiting_fallback, waiting_indices, move_groups,
}
use buk_yutnori.Match.Buk.Resolved.{resolve_buk_ends_nothing}
use buk_yutnori.Match.Runs.Winner.{Decided}
use buk_yutnori.Match.Runs.Opening.{played-Decided}
use buk_yutnori.Match.Buk.Nearest.{nearest_chosen}
use buk_yutnori.Match.Runs.{Movement, forward, backdo, buk, play, IsPlayable, played-Inv}
use buk_yutnori.Match.Types.{MoveOutcome}
use buk_yutnori.Match.Game.{
  Game, new_game, waiting_piece, add_teams, add_pieces, piece_index, piece_ids, indices_where,
}
use buk_yutnori.Match.Resolution.{
  apply_move_resolution, moved_pieces, change_all, destination_allies, captured_piece_indices,
  team_piece_ids_at_destination, all_team_pieces_finished, capture_grants_extra_throw,
}
use buk_yutnori.Match.Invariant.{Inv}
use buk_yutnori.Examples.Matches.{two_pieces, setups, new_match, gae_outcome, start_known}

abbrev with_buk : Settings
with_buk = record two_pieces { buk_mode_enabled = true; random_buk_destination = true }

abbrev second : RandomSource
second = some (λ limit. 1)

-- The second candidate is the destination, and the second waiting piece goes there.
abbrev buk_match : Game
buk_match = record new_match {
  settings = with_buk;
  random_source = second;
  buk_destination_space_id = "back_gae";
}

buk_match_made : new_game canonical_graph with_buk setups second ≡ ok buk_match
unfolding initial_buk_destination new_game Settings.validate ℕ_discrete
    Settings.CaptureExtraThrowPolicy-discrete Settings.ShortcutPolicy-discrete
    Settings.MovementOrder-discrete add_teams validate_team_id add_pieces validate_id text_discrete
    TeamId-discrete validate_candidates validate_buk_destination node Types.Tag-discrete
    random_ticket
buk_match_made = refl

abbrev a2_sent : Game
a2_sent = record buk_match {
  pieces =
      waiting_piece team_a "a1"
      ∷ record (waiting_piece team_a "a2") { state = piece_on_board; current_space_id = "back_gae" }
      ∷ waiting_piece team_b "b1"
      ∷ waiting_piece team_b "b2"
      ∷ [];
}

abbrev sent_outcome : BukOutcome
sent_outcome =
    let sent : MoveOutcome = record gae_outcome {
      route = route_empty;
      to_space_id = "back_gae";
      movement_kind = movement_buk;
      actual_previous_space = "";
      moved_piece_ids = "a2" ∷ [];
    } in
    record {
      no_candidate = false;
      moved = true;
      destination_space_id = "back_gae";
      selected_piece_ids = "a2" ∷ [];
      moves = sent ∷ [];
      move = some sent;
    }

buk_resolved : resolve_buk buk_match team_a ≡ ok (a2_sent, sent_outcome)
unfolding resolve_buk validate_team_id resolve_groups buk_position_groups group_pieces
    TeamId-discrete PieceState-discrete waiting_fallback waiting_indices indices_where random_ticket
    ℕ_discrete move_groups closest apply_move_resolution piece_ids moved_pieces
    all_team_pieces_finished piece_index destination_allies captured_piece_indices change_all
    text_discrete YutResult-discrete team_piece_ids_at_destination capture_grants_extra_throw
buk_resolved = refl

resolve_buk_ends_nothing_example :
    (a2_sent.winner_team_id ≡ none) × (validate_buk_outcome (buk_turn_outcome sent_outcome) ≡ ok tt)
resolve_buk_ends_nothing_example = resolve_buk_ends_nothing buk_match team_a buk_resolved

pub home_no_target : validate_buk_destination canonical_graph "chammeogi" ≢ ok tt
unfolding validate_buk_destination node validate_id text_discrete Types.Tag-discrete
home_no_target e = ground arith

pub canonical-IsPlayable : IsPlayable canonical_graph
canonical-IsPlayable = record {
  sound = canonical-IsSound;
  closed = canonical-IsClosed;
  start_known = start_known;
}

-- Two Buks with different draws, a forward movement, its Backdo, and a Backdo that is refused.
abbrev movements : List Movement
movements =
    buk (λ limit. 1) team_a
    ∷ buk (λ limit. 0) team_b
    ∷ forward team_b "b1" yut_gae route_empty
    ∷ backdo team_b "b1"
    ∷ backdo team_b "b2"
    ∷ []

played-Inv_example : Inv (play buk_match movements)
played-Inv_example =
    played-Inv canonical_graph with_buk setups second movements canonical-IsPlayable home_no_target
      buk_match_made

played-Decided_example : Decided (play buk_match movements)
played-Decided_example =
    played-Decided canonical_graph with_buk setups second movements buk_match_made

abbrev near : PositionGroup
near = record {
  position = record { state = piece_on_board; space = "do" };
  indices = 0 ∷ [];
  distance = 3;
}

abbrev far : PositionGroup
far = record {
  position = record { state = piece_on_board; space = "gae" };
  indices = 1 ∷ [];
  distance = 4;
}

nearest_chosen_example :
    (closest (minimum_distance max_int (far ∷ near ∷ [])) (far ∷ near ∷ []) ≢ [])
    × All
        (λ (m : PositionGroup).
          All (λ (k : PositionGroup). m.distance ≤ k.distance) (far ∷ near ∷ []))
        (closest (minimum_distance max_int (far ∷ near ∷ [])) (far ∷ near ∷ []))
nearest_chosen_example = nearest_chosen far (near ∷ []) (omega arith, (omega arith, tt))
