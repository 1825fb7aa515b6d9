-- ===== src/Domain/Errors.antt =====
-- The sentinel errors of internal/domain, of the packages below it and of internal/application. An error that the code
-- wraps, `fmt.Errorf("%w: ...", ErrX, err)`, is the sentinel that stands outermost.

-- internal/domain/errors.go
pub data Error : Type 0 where
  invalid_id invalid_enum_value not_ordinary_yut_result : Error
  -- internal/domain/turn/token.go, queue.go
  invalid_result_token duplicate_result_token_id result_token_not_available : Error
  result_token_not_found result_token_already_consumed invalid_movement_order : Error
  stacked_buk result_queue_full : Error
  -- internal/domain/turn/machine.go
  invalid_machine_config invalid_transition unexpected_throw_origin wrong_turn_player : Error
  selected_token_mismatch invalid_outcome : Error
  -- internal/domain/board/types.go, forward.go, backdo.go
  finish_distance_unavailable unknown_space invalid_shortcut_policy invalid_position : Error
  no_finish_path invalid_forward_spaces forward_movement_unavailable no_forward_space : Error
  backdo_movement_unavailable backdo_history_unavailable : Error
  -- internal/domain/match/errors.go
  invalid_game_config unknown_piece piece_not_owned route_selection_required : Error
  route_selection_not_allowed invalid_route_selection match_ended invalid_forward_plan : Error
  invalid_backdo_plan buk_mode_disabled invalid_buk_planner nil_random_source : Error
  random_source_out_of_range : Error
  -- internal/domain/room/settings.go, lobby.go, start_confirmation.go
  invalid_settings player_already_exists player_not_found cpu_player_required : Error
  lobby_full ready_player_team_change settings_below_player_count : Error
  start_not_enough_players start_teams_unbalanced start_players_not_ready : Error
  no_start_confirmation_failure invalid_start_confirmation : Error
  start_confirmation_player_not_found start_confirmation_expired : Error
  start_confirmation_not_expired start_confirmation_closed : Error
  -- internal/domain/cpu/errors.go
  invalid_policy_config invalid_decision_input no_result_token invalid_move_plans : Error
  -- internal/application: room_registry.go, match_runtime.go, room_event_sequences.go
  invalid_configuration event_store_unavailable not_member not_room_host invalid_command : Error
  match_not_active match_scope_mismatch not_turn_player invalid_turn_action match_paused : Error
  match_pause_used match_not_paused room_event_sequence_exhausted : Error
  invalid_room_event_sequence unauthenticated : Error
  -- internal/protocol
  invalid_server_event : Error
  -- The model's own: the steps given to a loop are used up.
  out_of_steps : Error
