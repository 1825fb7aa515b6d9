-- ===== src/Flow/Resolution.antt =====
-- internal/application/match_flow.go and match_runtime.go: the parts of a turn, from a throw to the
-- end of the turn or of the match. Where the code calls advanceTurnLocked or runCpuTurnLocked, the
-- functions call the argument `go`.
use buk_yutnori.Prelude.{
  ◌+◌, Bool, true, false, not, ◌&&◌, ◌||◌, List, [], ◌∷◌, ◌++◌, Option, none, some, ◌==◌, string_eq,
  nat_eq, if◌then◌else◌, length, contains, map, ltb,
}
use Prim.Native.Nat.{◌%◌}
use buk_yutnori.Prelude.Sort.{sorted}
use buk_yutnori.Prelude.Result.{Result, ok, err}
use buk_yutnori.Prelude.Exec.{◌>>=◌, ◌>>◌, pure, fail, lift, reads, modify}
use buk_yutnori.Domain.{
  Error, invalid_configuration, invalid_turn_action, nil_random_source, random_source_out_of_range,
  PlayerId, PieceId, SpaceId, ResultTokenId, TeamId, team_eq, YutResult, TurnPhase, yut_backdo,
  yut_eq, turn_wait_throw, turn_match_end, phase_eq, turn_resolve_queue, turn_wait_move_selection,
  turn_resolve_buk, turn_end, input_select_move, input_select_route, Route, route_normal,
  route_shortcut, route_empty, ResultOrigin,
}
use buk_yutnori.Yut
use buk_yutnori.Turn.Token.{ResultToken}
use buk_yutnori.Turn.Machine.{
  Machine, new_machine, start, begin_throw, record_throw, resolve_queue, select_move, move_applied,
  complete_move, discard_unusable_result, complete_buk,
}
use buk_yutnori.Match.Types.{MoveOutcome, turn_outcome}
use buk_yutnori.Match.Movement.{apply_ordinary_move, apply_backdo_move}
use buk_yutnori.Match.Buk.{BukOutcome, resolve_buk, buk_turn_outcome}
use buk_yutnori.Flow.Events.{
  TokenView, MoveCandidate, Event, reason_none, reason_disconnected, reason_lobby_player,
  status_post_match, turn_started, cpu_control_started, yut_result, result_queue_updated,
  result_selected, piece_selected, move_required, piece_moved, pieces_stacked, pieces_captured,
  buk_resolved, game_ended, room_updated,
}
use buk_yutnori.Flow.Runtime.{
  Runtime, Method, MatchResult, timer_move, TimerKind-discrete, current_player, current_team,
  next_draw, next_token_id, on_machine, wrapped, on_game, emit, emits, emit_all, cancel_timer,
  schedule_throw_timer, schedule_move_timer, remaining_ms, in_phase,
}
use buk_yutnori.Flow.Candidates.{result_of_token, move_candidates, find_candidate}

-- The two loops of the flow: the automatic steps, and the computer player's turn.
pub data Task : Type 0 where
  advances_turn runs_cpu_turn : Task

pub data ResolutionStep : Type 0 where
  step_continue step_await_input step_stopped : ResolutionStep

unfoldable pub stage_turn_started : Method (Unit {0})
stage_turn_started = emits (λ rt.
    turn_started rt.machine.player_id rt.machine.phase rt.machine.required_input (remaining_ms rt))

abbrev pub view : ResultToken → TokenView
view token = record { token_id = token.id; result = token.result; origin = token.origin }

unfoldable pub stage_yut_result : ResultToken → Method (Unit {0})
stage_yut_result token = emit (yut_result token.generated_by_player_id (view token))

unfoldable pub stage_result_queue_updated : Method (Unit {0})
stage_result_queue_updated = emits (λ rt. result_queue_updated (map view rt.machine.queue.tokens))

unfoldable pub stage_move_selection : ResultTokenId → PieceId → Method (Unit {0})
stage_move_selection token_id piece_id = do
  emit (result_selected token_id)
  emit (piece_selected token_id piece_id)

unfoldable pub optional_space_id : SpaceId → Option SpaceId
optional_space_id space = if space == "" then none else some space

-- The events of a movement.
unfoldable pub move_outcome_events : TeamId → MoveOutcome → List Event
move_outcome_events team outcome =
    piece_moved outcome.moved_piece_ids (optional_space_id outcome.from_space_id)
      (optional_space_id outcome.to_space_id) outcome.movement_kind
    ∷ ((if ltb 1 (length outcome.stacked_piece_ids) && not (outcome.to_space_id == "")
          then pieces_stacked (team, outcome.to_space_id) outcome.stacked_piece_ids
              outcome.to_space_id (optional_space_id outcome.actual_previous_space)
            ∷ []
          else [])
        ++ (if ltb 0 (length outcome.captured_piece_ids) && not (outcome.to_space_id == "")
            then pieces_captured outcome.captured_piece_ids outcome.to_space_id ∷ []
            else []))

unfoldable pub stage_move_outcome_events : MoveOutcome → Method (Unit {0})
stage_move_outcome_events outcome rt = emit_all (move_outcome_events (current_team rt) outcome) rt

-- The loop over the moves of a Buk.
unfoldable pub all_move_events : TeamId → List MoveOutcome → List Event
all_move_events team [] = []
all_move_events team (move ∷ moves) = move_outcome_events team move ++ all_move_events team moves

-- The spaces that the moves leave, each once, in order.
unfoldable pub source_spaces : List SpaceId → List MoveOutcome → List SpaceId
source_spaces seen [] = []
source_spaces seen (move ∷ moves) =
    let skip = source_spaces seen moves in
    let rest = source_spaces (move.from_space_id ∷ seen) moves in
    if move.from_space_id == "" || contains seen move.from_space_id
    then skip
    else move.from_space_id ∷ rest

abbrev first_source : Option MoveOutcome → Option SpaceId
first_source none = none
first_source (some move) = optional_space_id move.from_space_id

unfoldable pub buk_resolved_event : ResultTokenId → BukOutcome → Event
buk_resolved_event token_id outcome =
    buk_resolved token_id outcome.destination_space_id outcome.selected_piece_ids
      (if outcome.moved then first_source outcome.move else none)
      (if outcome.moved then source_spaces [] outcome.moves else []) outcome.no_candidate

-- `yut.Sampler.Throw`, with the ticket that the source answers.
abbrev as_flow_error : {A : Type 0} → Result Yut.ThrowError A → Result Error A
as_flow_error (ok a) = ok a
as_flow_error (err Yut.nil_random_source) = err nil_random_source
as_flow_error (err Yut.random_source_out_of_range) = err random_source_out_of_range

unfoldable pub throw_result : Method YutResult
throw_result = do
  source ← next_draw
  rt ← reads (λ rt. rt)
  lift (
      as_flow_error (
        Yut.throw
          (record {
            backdo_enabled = rt.settings.backdo_enabled;
            buk_mode_enabled = rt.settings.buk_mode_enabled;
          })
          (source Yut.canonical_total_weight)))

abbrev pub new_token : ResultOrigin → YutResult → Method ResultToken
new_token origin result = do
  id ← next_token_id
  reads (λ rt. record {
    id = id;
    result = result;
    origin = origin;
    generated_by_player_id = current_player rt;
  })

-- The window of the next throw, when the turn waits for one.
abbrev pub open_throw_window : Method (Unit {0})
open_throw_window = do schedule_throw_timer; stage_turn_started

unfoldable pub perform_throw : Method (Unit {0})
perform_throw = do
  origin ← wrapped invalid_turn_action (on_machine begin_throw)
  result ← throw_result
  token ← new_token origin result
  on_machine (record_throw token)
  stage_yut_result token
  stage_result_queue_updated
  again ← in_phase turn_wait_throw
  (if again then open_throw_window else pure tt)

unfoldable pub after_queue_resolved : Method ResolutionStep
after_queue_resolved = do
  rt ← reads (λ rt. rt)
  (if rt.machine.phase == turn_wait_move_selection
        && (not (dec_is (TimerKind-discrete rt.timer_kind timer_move)) && not rt.cpu_controlled)
      then schedule_move_timer
      else pure tt)
  pure step_continue
  where
    dec_is : {A : Type 0} → Dec A → Bool
    dec_is (yes _) = true
    dec_is (no _) = false

-- The winners and the losers among the players that are not computer players.
abbrev side : Runtime → (TeamId → Bool) → List PlayerId → List PlayerId
side rt wins [] = []
side rt wins (player ∷ players) =
    let rest = side rt wins players in
    if rt.cpu_players player then rest else if wins (rt.team_of player) then player ∷ rest else rest

abbrev is_winner : Option TeamId → TeamId → Bool
is_winner none team = false
is_winner (some winner) team = team == winner

unfoldable pub match_result_for_runtime : Runtime → Option TeamId → MatchResult
match_result_for_runtime rt winner = record {
  winners = sorted (side rt (is_winner winner) rt.order);
  losers = sorted (side rt (λ team. not (is_winner winner team)) rt.order);
}

abbrev some_players : MatchResult → Bool
some_players result = ltb 0 (length result.winners) || ltb 0 (length result.losers)

-- The lobby, whose players this makes unready, is not part of the state.
unfoldable pub finish_match : Method (Unit {0})
finish_match = do
  rt ← reads (λ rt. rt)
  let result = match_result_for_runtime rt rt.game.winner_team_id
  cancel_timer
  emit (game_ended rt.game.winner_team_id)
  modify (λ rt. record rt { room_status = status_post_match })
  emit (room_updated status_post_match)
  modify (λ rt. record rt {
    tx = record rt.tx {
      finish_match = true;
      match_result = if some_players result then some result else rt.tx.match_result;
    };
  })

-- Who acts in the turn of a new machine.
abbrev pub with_machine : Machine → Runtime → Runtime
with_machine machine rt = record rt {
  machine = machine;
  pending_move_piece = "";
  cpu_controlled = rt.cpu_players (current_player rt) || not (rt.connected (current_player rt));
  cpu_control_reason = reason_none;
}

-- What follows the end of a movement: the end of the match, another throw, or the rest.
abbrev pub after_outcome : {A : Type 0} → A → Method A → Method A
after_outcome stopped rest = do
  ended ← in_phase turn_match_end
  again ← in_phase turn_wait_throw
  (if ended
      then finish_match >> pure stopped
      else if again
      then open_throw_window >> pure stopped
      else rest)

abbrev pub apply_result : YutResult → PieceId → Route → Method MoveOutcome
apply_result result piece_id route rt =
    if result == yut_backdo
    then on_game (λ game. apply_backdo_move game (current_team rt) piece_id) rt
    else on_game (λ game. apply_ordinary_move game (current_team rt) piece_id result route) rt

abbrev pub after_buk : Method ResolutionStep
after_buk = stage_result_queue_updated >> after_outcome step_stopped (pure step_continue)

unfoldable pub resolve_buk_head : ResultTokenId → Method ResolutionStep
resolve_buk_head token_id = do
  source ← next_draw
  team ← reads current_team
  outcome ← on_game (λ game. resolve_buk game team)
  emit (buk_resolved_event token_id outcome)
  emit_all (if outcome.moved then all_move_events team outcome.moves else [])
  on_machine (complete_buk token_id (buk_turn_outcome outcome))
  after_buk

-- `rt.moveCandidates(rt.machine.Snapshot())`
unfoldable pub current_candidates : Method (List MoveCandidate × List ResultTokenId)
current_candidates rt =
    lift
      (move_candidates rt.game (current_team rt) rt.settings.movement_order rt.machine.queue.tokens)
      rt

abbrev pub discard_only : List ResultTokenId → Method Bool
discard_only (id ∷ []) =
    on_machine (discard_unusable_result id) >> (stage_result_queue_updated >> pure false)
discard_only _ = fail invalid_configuration

abbrev pub require_move : List MoveCandidate → Method (Unit {0})
require_move candidates rt =
    if rt.cpu_controlled then (rt, ok tt) else emit (move_required input_select_move candidates) rt

-- Whether an input is awaited.
unfoldable pub enter_move_selection : Method Bool
enter_move_selection = do
  (candidates, unusable) ← current_candidates
  (if ltb 0 (length candidates)
      then require_move candidates >> pure true
      else discard_only unusable)

module _ (go : Task → Method (Unit {0})) where
  abbrev pub take_control : Method (Unit {0})
  take_control = do
    rt ← reads (λ rt. rt)
    let reason =
        if rt.cpu_players (current_player rt) then reason_lobby_player else reason_disconnected
    modify (λ rt. record rt { cpu_control_reason = reason })
    emit (cpu_control_started (current_player rt) reason)
    go runs_cpu_turn

  -- The turn of a new machine.
  abbrev pub open_turn : Method (Unit {0})
  open_turn = do
    wrapped invalid_configuration (on_machine start)
    stage_turn_started
    by_cpu ← reads (λ rt. rt.cpu_controlled)
    (if by_cpu then take_control else schedule_throw_timer)

  unfoldable pub begin_turn : Method (Unit {0})
  begin_turn rt = elim (new_machine (current_player rt) rt.settings) [
    | err _ ↦ (rt, err invalid_configuration)
    | ok machine ↦ open_turn (with_machine machine rt)
  ]

  unfoldable pub end_turn : Method (Unit {0})
  end_turn = do
    cancel_timer
    modify (λ rt. record rt { turn_index = (rt.turn_index + 1) % length rt.order })
    begin_turn

  -- What follows a move that the turn has accepted.
  abbrev pub after_move : Method (Unit {0})
  after_move = stage_result_queue_updated >> after_outcome tt (go advances_turn)

  unfoldable pub complete_move_flow : ResultTokenId → MoveOutcome → Method (Unit {0})
  complete_move_flow token_id outcome = do
    on_machine (move_applied token_id)
    stage_move_outcome_events outcome
    on_machine (complete_move token_id (turn_outcome outcome))
    after_move

  abbrev pub apply_found : ResultTokenId → PieceId → Route → Option YutResult → Method (Unit {0})
  apply_found token_id piece_id route none = fail invalid_turn_action
  apply_found token_id piece_id route (some result) = do
    outcome ← apply_result result piece_id route
    complete_move_flow token_id outcome

  unfoldable pub apply_selected_move : ResultTokenId → PieceId → Route → Method (Unit {0})
  apply_selected_move token_id piece_id route rt =
      apply_found token_id piece_id route (result_of_token rt.machine.queue.tokens token_id) rt

  -- A computer player's turn is not asked for the route.
  abbrev pub ask_for_route : ResultTokenId → PieceId → Method (Unit {0})
  ask_for_route token_id piece_id rt =
      if rt.cpu_controlled
      then (rt, ok tt)
      else emit
          (move_required input_select_route (
            record {
              token_id = token_id;
              piece_id = piece_id;
              routes = route_normal ∷ route_shortcut ∷ [];
            }
            ∷ []))
          rt

  -- A move is selected, and its route is asked for if there are two.
  unfoldable pub take_candidate : Bool → ResultTokenId → PieceId → Method (Unit {0})
  take_candidate route_required token_id piece_id = do
    wrapped invalid_turn_action (on_machine (select_move token_id route_required))
    stage_move_selection token_id piece_id
    (if route_required
        then modify (λ rt. record rt { pending_move_piece = piece_id })
          >> ask_for_route token_id piece_id
        else apply_selected_move token_id piece_id route_empty)

  abbrev pub take_found : ResultTokenId → PieceId → Option MoveCandidate → Method (Unit {0})
  take_found token_id piece_id none = fail invalid_turn_action
  take_found token_id piece_id (some candidate) =
      take_candidate (length candidate.routes == 2) token_id piece_id

  unfoldable pub select_move_internal : ResultTokenId → PieceId → Method (Unit {0})
  select_move_internal token_id piece_id = do
    (candidates, _) ← current_candidates
    take_found token_id piece_id (find_candidate candidates token_id piece_id)

  abbrev pub step_by : TurnPhase → Method ResolutionStep
  step_by turn_resolve_queue = on_machine resolve_queue >> after_queue_resolved
  step_by turn_resolve_buk = reads (λ rt. rt.machine.selected_id) >>= resolve_buk_head
  step_by turn_wait_move_selection = do
    awaiting ← enter_move_selection
    pure (if awaiting then step_await_input else step_continue)
  step_by turn_end = end_turn >> pure step_stopped
  step_by turn_match_end = finish_match >> pure step_stopped
  step_by _ = pure step_stopped

  unfoldable pub step_resolution : Method ResolutionStep
  step_resolution rt = step_by rt.machine.phase rt
