-- ===== src/Examples/Flows.antt =====
-- A running match of two players: the first throws, moves a piece and ends the turn.
use buk_yutnori.Prelude.{
  ◌≡◌, ◌≤◌, ◌≢◌, ◌∙◌, refl, sym, str_ne, true, false, List, [], ◌∷◌, none, some, ℕ, arith, map,
  String, ◌==◌, string_eq, ◌⊎◌, if◌then◌else◌,
}
use buk_yutnori.Prelude.Result.{ok}
use buk_yutnori.Domain.{
  team_a, team_b, turn_start, turn_end, turn_wait_throw, input_none, input_throw, origin_other,
  origin_initial_throw, yut_do, yut_buk, YutResult, PlayerId, TeamId, PieceId, piece_on_board,
}
use buk_yutnori.Room.Settings.{Settings, movement_fifo}
use buk_yutnori.Board.Canonical.{canonical_graph}
use buk_yutnori.Turn.Token.{ResultToken}
use buk_yutnori.Turn.Queue.{empty_queue, available_tokens}
use buk_yutnori.Turn.Machine.{Machine, new_machine}
use buk_yutnori.Cpu.Policy.{Policy}
use buk_yutnori.Flow.Events.{Event, game_resumed, resumed_by_host, reason_none, status_in_match}
use buk_yutnori.Flow.Sequences.{new_sequences}
use buk_yutnori.Flow.Runtime.{store_appends, Runtime, timer_none, new_event_tx, current_player}
use buk_yutnori.Flow.Candidates.{available_tokens_for}
use buk_yutnori.Flow.Exposed.{available_tokens_for-eq}
use buk_yutnori.Flow.Tasks.{run_task}
use buk_yutnori.Flow.Commands.{
  World, Command, throws_yut, selects_move, start_match_broadcasts, perform, play,
}
use buk_yutnori.Flow.Refused.{Refuses, perform_refused}
use buk_yutnori.Flow.Flush.{flush}
use buk_yutnori.Flow.Ledger.{Ledger, numbered}
use buk_yutnori.Flow.Builders.{build_all}
use buk_yutnori.Flow.Ledger.Built.{Built, build_all-Built}
use buk_yutnori.Flow.Ledger.Commands.{play_in_order}
use buk_yutnori.Flow.Ledger.Flushed.{Told, flush_in_order}
use buk_yutnori.Flow.Invariant.{Good}
use buk_yutnori.Flow.Start.{started_play-Good}
use buk_yutnori.Examples.Matches.{two_pieces, setups, new_match, new_match_made}
use buk_yutnori.Examples.Buks.{home_no_target, canonical-IsPlayable}

abbrev first_machine : Machine
first_machine = record {
  player_id = "p1";
  movement_order = two_pieces.movement_order;
  yut_mo_extra = two_pieces.yut_mo_extra_throw;
  phase = turn_start;
  required_input = input_none;
  expected_origin = origin_other;
  selected_id = "";
  queue = empty_queue;
  throwing_capped = false;
}

abbrev token_of : YutResult → ResultToken
token_of result = record {
  id = "token-000001";
  result = result;
  origin = origin_initial_throw;
  generated_by_player_id = "p1";
}

abbrev policy : Policy
policy = record {
  finish_planner = canonical_graph;
  settings = two_pieces;
  random_source = λ limit. 0;
}

-- Two players, neither of them a computer player, and a source that always answers 0.
abbrev assembled : Runtime
assembled = record {
  settings = two_pieces;
  order = "p1" ∷ "p2" ∷ [];
  team_of = λ player. if player == "p1" then team_a else team_b;
  cpu_players = λ player. false;
  connected = λ player. true;
  game = new_match;
  cpu = policy;
  draws = λ call limit. 0;
  machine = first_machine;
  turn_index = 0;
  token_seq = 0;
  now = 0;
  timer_generation = 0;
  timer_kind = timer_none;
  timer_deadline = 0;
  cpu_controlled = false;
  cpu_control_reason = reason_none;
  cpu_action_delay = 0;
  cpu_action_timer = false;
  cpu_action_generation = 0;
  pending_move_piece = "";
  room_status = status_in_match;
  tx = new_event_tx;
  room_id = "room";
  match_id = "match";
  host = "p1";
  is_member = λ player. true;
  poisoned = false;
  started = false;
  paused = false;
  pause_used = false;
  pause_ends_at = 0;
  pause_expiry_timer = false;
  preserved_timer_kind = timer_none;
  preserved_remaining = 0;
  storage_paused = false;
  retry_attempt = 0;
  pending_events = [];
  pending_result = none;
  finish_after_save = false;
  sequences = new_sequences;
  store = store_appends;
  saves_results = true;
  published = [];
}

abbrev quiet : World
quiet = record {
  now = 1000;
  draws = λ call limit. 0;
  store = store_appends;
  connected = λ player. true;
}

abbrev commands : List (World × Command)
commands =
    (quiet, throws_yut "p1" "match") ∷ (quiet, selects_move "p1" "match" "token-000001" "a1") ∷ []

first_machine_made : new_machine (current_player assembled) two_pieces ≡ ok first_machine
unfolding new_machine buk_yutnori.Prelude.text_discrete buk_yutnori.Room.Settings.validate
    buk_yutnori.Prelude.ℕ_discrete buk_yutnori.Room.Settings.CaptureExtraThrowPolicy-discrete
    buk_yutnori.Room.Settings.ShortcutPolicy-discrete
    buk_yutnori.Room.Settings.MovementOrder-discrete current_player
first_machine_made = refl

abbrev waiting : Runtime
waiting = (start_match_broadcasts (run_task 9) assembled).0

waiting_for_p1 : waiting.machine.required_input ≡ input_throw
unfolding start_match_broadcasts buk_yutnori.Flow.Resolution.begin_turn new_machine
    buk_yutnori.Prelude.text_discrete current_player buk_yutnori.Room.Settings.validate
    buk_yutnori.Prelude.ℕ_discrete buk_yutnori.Room.Settings.CaptureExtraThrowPolicy-discrete
    buk_yutnori.Room.Settings.ShortcutPolicy-discrete
    buk_yutnori.Room.Settings.MovementOrder-discrete buk_yutnori.Turn.Machine.start
    buk_yutnori.Domain.TurnPhase-discrete buk_yutnori.Flow.Resolution.stage_turn_started
    buk_yutnori.Flow.Runtime.schedule_throw_timer buk_yutnori.Flow.Runtime.schedule_timer
    buk_yutnori.Flow.Runtime.cancel_timer
waiting_for_p1 = refl

available_tokens_for-eq_example :
    available_tokens_for movement_fifo (token_of yut_do ∷ token_of yut_buk ∷ [])
    ≡ available_tokens (token_of yut_do ∷ token_of yut_buk ∷ []) movement_fifo
available_tokens_for-eq_example =
    available_tokens_for-eq movement_fifo (token_of yut_do ∷ token_of yut_buk ∷ [])

-- The first player throws and moves.
started_play-Good_example : Good (play 9 waiting commands)
started_play-Good_example =
    started_play-Good canonical_graph two_pieces setups none assembled 9 commands
      canonical-IsPlayable home_no_target new_match_made first_machine_made

p1_acts : current_player waiting ≡ "p1"
unfolding current_player start_match_broadcasts buk_yutnori.Flow.Resolution.begin_turn new_machine
    buk_yutnori.Prelude.text_discrete buk_yutnori.Room.Settings.validate
    buk_yutnori.Prelude.ℕ_discrete buk_yutnori.Room.Settings.CaptureExtraThrowPolicy-discrete
    buk_yutnori.Room.Settings.ShortcutPolicy-discrete
    buk_yutnori.Room.Settings.MovementOrder-discrete buk_yutnori.Turn.Machine.start
    buk_yutnori.Domain.TurnPhase-discrete buk_yutnori.Flow.Resolution.stage_turn_started
    buk_yutnori.Flow.Runtime.schedule_throw_timer buk_yutnori.Flow.Runtime.schedule_timer
    buk_yutnori.Flow.Runtime.cancel_timer
p1_acts = refl

p1_not_p2 : ◌≢◌ {A = PlayerId} "p1" "p2"
p1_not_p2 = str_ne "p1" "p2" refl

perform_refused_example : Refuses (perform (run_task 9) (throws_yut "p2" "match")) waiting
perform_refused_example =
    perform_refused (run_task 9) (throws_yut "p2" "match") waiting refl
      (λ e. p1_not_p2 (sym p1_acts ∙ e))

abbrev resumed : Event
resumed = game_resumed resumed_by_host

-- Two events that wait for the flush, when two have been told.
abbrev telling : Runtime
telling = record assembled {
  tx = record new_event_tx { events = resumed ∷ resumed ∷ [] };
  published = (1, resumed) ∷ (2, resumed) ∷ [];
  sequences = record { values = λ room. 2 };
}

abbrev resumed_rows : List (ℕ × Event)
resumed_rows = (3, resumed) ∷ (4, resumed) ∷ []

resumed_built : build_all "room" "match" 2 (resumed ∷ resumed ∷ []) ≡ ok resumed_rows
unfolding build_all buk_yutnori.Flow.Builders.build
    buk_yutnori.Flow.Builders.validate_match_event_scope buk_yutnori.Domain.validate_id
    buk_yutnori.Prelude.text_discrete buk_yutnori.Prelude.ℕ_discrete
    buk_yutnori.Flow.Builders.validate_payload
resumed_built = refl

build_all-Built_example : Built 2 (resumed ∷ resumed ∷ []) resumed_rows
build_all-Built_example =
    build_all-Built "room" "match" 2 (resumed ∷ resumed ∷ []) (omega arith) resumed_built

telling-in_order : Ledger telling
unfolding numbered
telling-in_order = record { in_order = refl; counted = refl; bounded = omega arith }

flush_in_order_example :
    Told (resumed ∷ resumed ∷ []) telling (flush telling) × Ledger (flush telling).0
flush_in_order_example = flush_in_order telling telling-in_order

play_in_order_example : Ledger (play 9 telling commands)
play_in_order_example = play_in_order 9 telling commands telling-in_order
