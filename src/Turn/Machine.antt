-- ===== src/Turn/Machine.antt =====
-- internal/domain/turn/machine.go. The mutex is left out: each method is one step.
pub mod Atomic
pub mod Steps
pub mod Refines
pub mod Invariant
pub mod Runs
pub mod Progress
use buk_yutnori.Prelude.{
  Bool, true, false, not, ◌&&◌, ◌||◌, List, [], ◌∷◌, String, ◌==◌, string_eq, if◌then◌else◌, length,
  leb,
}
use buk_yutnori.Prelude.Result.{Result, ok, err}
use buk_yutnori.Prelude.Exec.{Exec, ◌>>=◌, ◌>>◌, pure, fail, lift, reads, modify, guard}
use buk_yutnori.Domain.{
  Error, invalid_machine_config, invalid_transition, unexpected_throw_origin, wrong_turn_player,
  selected_token_mismatch, invalid_outcome, result_token_not_available, PlayerId, ResultTokenId,
  validate_id, YutResult, yut_yut, yut_mo, yut_buk, yut_eq, TurnPhase, turn_start, turn_wait_throw,
  turn_throwing_chain, turn_resolve_queue, turn_wait_move_selection, turn_wait_route_selection,
  turn_apply_move, turn_resolve_stack_capture_finish, turn_resolve_buk, turn_end, turn_match_end,
  phase_eq, RequiredInput, input_none, input_throw, input_select_move, input_select_route,
  ResultOrigin, origin_initial_throw, origin_yut_extra, origin_mo_extra, origin_capture_extra,
  origin_other, origin_eq,
}
use buk_yutnori.Room.Settings
use buk_yutnori.Room.Settings.{Settings, MovementOrder}
use buk_yutnori.Turn.Token
use buk_yutnori.Turn.Token.{ResultToken}
use buk_yutnori.Turn.Queue
use buk_yutnori.Turn.Queue.{ResultQueue, empty_queue, max_result_queue_tokens}

pub record MoveOutcome : Type 0 where
  pub capture_extra_throw : Bool
  pub match_ended : Bool

pub record BukOutcome : Type 0 where
  pub no_candidate : Bool
  pub capture_extra_throw : Bool
  pub match_ended : Bool

unfoldable pub validate_move_outcome : MoveOutcome → Result Error (Unit {0})
validate_move_outcome outcome =
    if outcome.capture_extra_throw && outcome.match_ended then err invalid_outcome else ok tt

unfoldable pub validate_buk_outcome : BukOutcome → Result Error (Unit {0})
validate_buk_outcome outcome =
    if outcome.no_candidate && (outcome.capture_extra_throw || outcome.match_ended)
    then err invalid_outcome
    else if outcome.capture_extra_throw && outcome.match_ended
    then err invalid_outcome
    else ok tt

-- The empty identifier selects no token, and `origin_other` is the empty origin.
pub record Machine : Type 0 where
  pub player_id : PlayerId
  pub movement_order : MovementOrder
  pub yut_mo_extra : Bool
  pub phase : TurnPhase
  pub required_input : RequiredInput
  pub expected_origin : ResultOrigin
  pub selected_id : ResultTokenId
  pub queue : ResultQueue
  pub throwing_capped : Bool

abbrev pub Method : Type 0 → Type 0
Method = Exec Error Machine

unfoldable pub new_machine : PlayerId → Settings → Result Error Machine
unfolding validate_id
new_machine player_id settings = elim (validate_id player_id) [
  | err _ ↦ err invalid_machine_config
  | ok _ ↦ elim (Settings.validate settings) [
    | err _ ↦ err invalid_machine_config
    | ok _ ↦ ok (record {
      player_id = player_id;
      movement_order = settings.movement_order;
      yut_mo_extra = settings.yut_mo_extra_throw;
      phase = turn_start;
      required_input = input_none;
      expected_origin = origin_other;
      selected_id = "";
      queue = empty_queue;
      throwing_capped = false;
    })
  ]
]

pub record Snapshot : Type 0 where
  pub player_id : PlayerId
  pub phase : TurnPhase
  pub required_input : RequiredInput
  pub expected_throw_origin : ResultOrigin
  pub selected_token_id : ResultTokenId
  pub result_queue : List ResultToken

unfoldable pub snapshot : Machine → Snapshot
snapshot m = record {
  player_id = m.player_id;
  phase = m.phase;
  required_input = m.required_input;
  expected_throw_origin = m.expected_origin;
  selected_token_id = m.selected_id;
  result_queue = m.queue.tokens;
}

abbrev pub set_state : TurnPhase → RequiredInput → ResultOrigin → ResultTokenId → Method (Unit {0})
set_state phase input origin selected = modify (λ m. record m {
  phase = phase;
  required_input = input;
  expected_origin = origin;
  selected_id = selected;
})

abbrev pub require_phase : TurnPhase → Method (Unit {0})
require_phase expected m = guard (m.phase == expected) invalid_transition m

abbrev pub require_selected : ResultTokenId → Method (Unit {0})
require_selected id m = guard (m.selected_id == id) selected_token_mismatch m

-- A call of a method of the machine's queue.
abbrev pub on_queue : {A : Type 0} → Exec Error ResultQueue A → Method A
on_queue call m = let (q, r) = call m.queue in (record m { queue = q }, r)

unfoldable pub start : Method (Unit {0})
start = do require_phase turn_start; set_state turn_wait_throw input_throw origin_initial_throw ""

unfoldable pub begin_throw : Method ResultOrigin
begin_throw = do
  require_phase turn_wait_throw
  origin ← reads (λ m. m.expected_origin)
  set_state turn_throwing_chain input_none origin ""
  pure origin

abbrev cap_throwing : Method (Unit {0})
cap_throwing m =
    if leb max_result_queue_tokens (length m.queue.tokens)
    then (record m { throwing_capped = true }, ok tt)
    else (m, ok tt)

-- The `switch` of RecordThrow.
abbrev after_throw : ResultToken → Method (Unit {0})
after_throw token m =
    if m.throwing_capped
    then set_state turn_resolve_queue input_none origin_other "" m
    else if m.yut_mo_extra && token.result == yut_yut
    then set_state turn_wait_throw input_throw origin_yut_extra "" m
    else if m.yut_mo_extra && token.result == yut_mo
    then set_state turn_wait_throw input_throw origin_mo_extra "" m
    else set_state turn_resolve_queue input_none origin_other "" m

unfoldable pub record_throw : ResultToken → Method (Unit {0})
record_throw token = do
  lift (Token.validate token)
  require_phase turn_throwing_chain
  m ← reads (λ m. m)
  guard (token.origin == m.expected_origin) unexpected_throw_origin
  guard (token.generated_by_player_id == m.player_id) wrong_turn_player
  on_queue (Queue.append token)
  cap_throwing
  after_throw token

abbrev resolve_available : List ResultToken → Method (Unit {0})
resolve_available [] = set_state turn_end input_none origin_other ""
resolve_available (t ∷ ts) =
    if t.result == yut_buk
    then set_state turn_resolve_buk input_none origin_other t.id
    else set_state turn_wait_move_selection input_select_move origin_other ""

abbrev available : Method (List ResultToken)
available m = on_queue (Queue.available m.movement_order) m

unfoldable pub resolve_queue : Method (Unit {0})
resolve_queue = do require_phase turn_resolve_queue; tokens ← available; resolve_available tokens

-- The loop `token.ID == id && token.Result != YutBuk`.
unfoldable pub offers : List ResultToken → ResultTokenId → Bool
offers [] id = false
offers (t ∷ ts) id = (t.id == id && not (t.result == yut_buk)) || offers ts id

unfoldable pub select_move : ResultTokenId → Bool → Method (Unit {0})
select_move id route_required = do
  require_phase turn_wait_move_selection
  tokens ← available
  guard (offers tokens id) result_token_not_available
  (if route_required
      then set_state turn_wait_route_selection input_select_route origin_other id
      else set_state turn_apply_move input_none origin_other id)

unfoldable pub route_selected : ResultTokenId → Method (Unit {0})
route_selected id = do
  require_phase turn_wait_route_selection
  require_selected id
  set_state turn_apply_move input_none origin_other id

unfoldable pub move_applied : ResultTokenId → Method (Unit {0})
move_applied id = do
  require_phase turn_apply_move
  require_selected id
  set_state turn_resolve_stack_capture_finish input_none origin_other id

abbrev pub consume_selected : ResultTokenId → Method ResultToken
consume_selected id m = on_queue (Queue.consume id m.movement_order) m

abbrev pub advance_after_resolution : Bool → Bool → Method (Unit {0})
advance_after_resolution capture_extra match_ended m =
    if match_ended
    then set_state turn_match_end input_none origin_other "" m
    else if m.throwing_capped
    then set_state turn_resolve_queue input_none origin_other "" m
    else if capture_extra
    then set_state turn_wait_throw input_throw origin_capture_extra "" m
    else set_state turn_resolve_queue input_none origin_other "" m

unfoldable pub complete_move : ResultTokenId → MoveOutcome → Method (Unit {0})
complete_move id outcome = do
  lift (validate_move_outcome outcome)
  require_phase turn_resolve_stack_capture_finish
  require_selected id
  token ← consume_selected id
  advance_after_resolution outcome.capture_extra_throw outcome.match_ended

unfoldable pub discard_unusable_result : ResultTokenId → Method (Unit {0})
discard_unusable_result id = do
  require_phase turn_wait_move_selection
  tokens ← available
  guard (offers tokens id) result_token_not_available
  token ← consume_selected id
  set_state turn_resolve_queue input_none origin_other ""

unfoldable pub complete_buk : ResultTokenId → BukOutcome → Method (Unit {0})
complete_buk id outcome = do
  lift (validate_buk_outcome outcome)
  require_phase turn_resolve_buk
  require_selected id
  token ← consume_selected id
  (if outcome.no_candidate
      then set_state turn_end input_none origin_other ""
      else advance_after_resolution outcome.capture_extra_throw outcome.match_ended)

-- The methods of the machine, as calls.
pub data Call : Type 0 where
  starts begins_throw resolves_queue : Call
  records_throw : ResultToken → Call
  selects_move : ResultTokenId → Bool → Call
  selects_route applies_move discards : ResultTokenId → Call
  completes_move : ResultTokenId → MoveOutcome → Call
  completes_buk : ResultTokenId → BukOutcome → Call

unfoldable pub step : Call → Method (Unit {0})
step starts = start
step begins_throw = do origin ← begin_throw; pure tt
step resolves_queue = resolve_queue
step (records_throw token) = record_throw token
step (selects_move id route_required) = select_move id route_required
step (selects_route id) = route_selected id
step (applies_move id) = move_applied id
step (discards id) = discard_unusable_result id
step (completes_move id outcome) = complete_move id outcome
step (completes_buk id outcome) = complete_buk id outcome

-- A turn: the calls in order, those that fail included.
unfoldable pub run : Machine → List Call → Machine
run m [] = m
run m (c ∷ cs) = run (step c m).0 cs
