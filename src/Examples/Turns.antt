-- ===== src/Examples/Turns.antt =====
-- A turn in which a Yut and then a Buk are thrown, and one whose queue is full.
use buk_yutnori.Prelude.{
  ◌≡◌, refl, subst, true, false, List, [], ◌∷◌, String, arith, length, ◌≢◌, ◌↔◌, text_discrete,
  ℕ_discrete, some, string_eq,
}
use buk_yutnori.Prelude.Result.{ok, err}
use buk_yutnori.Domain.{
  TurnPhase-discrete, ResultOrigin-discrete, YutResult-discrete, YutResult, yut_yut, yut_do,
  yut_buk, ResultOrigin, origin_initial_throw, origin_yut_extra, origin_other, turn_start,
  turn_resolve_buk, turn_wait_throw, turn_throwing_chain, turn_resolve_stack_capture_finish,
  input_none, invalid_transition, result_token_already_consumed,
}
use buk_yutnori.Room.Settings
use buk_yutnori.Room.Settings.{
  Settings, default_settings, CaptureExtraThrowPolicy-discrete, ShortcutPolicy-discrete,
  MovementOrder-discrete, movement_fifo, movement_free, movement_other, problems,
}
use buk_yutnori.Room.Settings.Valid.{IsAllowed, validate_iff}
use buk_yutnori.Turn.Token
use buk_yutnori.Turn.Token.{ResultToken}
use buk_yutnori.Turn.Queue
use buk_yutnori.Turn.Queue.{
  ResultQueue, append, consume, empty_queue, first_buk, available_tokens, contains_token_id,
  take_out, max_result_queue_tokens, validate_movement_order,
}
use buk_yutnori.Turn.Queue.Order.{consume_iff, consume_twice}
use buk_yutnori.Turn.Machine.{
  Machine, Call, starts, begins_throw, records_throw, resolves_queue, selects_move, applies_move,
  new_machine, step, run, start, begin_throw, record_throw, resolve_queue, select_move,
  move_applied, complete_move, offers, MoveOutcome, BukOutcome, validate_move_outcome,
  validate_buk_outcome,
}
use buk_yutnori.Turn.Machine.Atomic.{step_failed}
use buk_yutnori.Turn.Machine.Steps.{Step, begin_turn, waiting_throw}
use buk_yutnori.Turn.Machine.Refines.{step_complete, step_sound}
use buk_yutnori.Turn.Machine.Invariant.{Inv}
use buk_yutnori.Turn.Machine.Runs.{run_new-Inv, capped_turn_throws_no_more}
use buk_yutnori.Turn.Machine.Progress.{complete_move_succeeds, never_stuck}

abbrev token : String → YutResult → ResultOrigin → ResultToken
token id result origin = record {
  id = id;
  result = result;
  origin = origin;
  generated_by_player_id = "p1";
}

abbrev yut_named : String → ResultToken
yut_named id = token id yut_yut origin_yut_extra

abbrev first_yut : ResultToken
first_yut = token "t1" yut_yut origin_initial_throw

abbrev then_buk : ResultToken
then_buk = token "t2" yut_buk origin_yut_extra

abbrev then_do : ResultToken
then_do = token "t2" yut_do origin_yut_extra

abbrev new_turn : Machine
new_turn = record {
  player_id = "p1";
  movement_order = movement_free;
  yut_mo_extra = true;
  phase = turn_start;
  required_input = input_none;
  expected_origin = origin_other;
  selected_id = "";
  queue = empty_queue;
  throwing_capped = false;
}

new_turn_made : new_machine "p1" default_settings ≡ ok new_turn
unfolding new_machine text_discrete Settings.validate ℕ_discrete CaptureExtraThrowPolicy-discrete
    ShortcutPolicy-discrete MovementOrder-discrete
new_turn_made = refl

abbrev buk_calls : List Call
buk_calls =
    starts
    ∷ begins_throw
    ∷ records_throw first_yut
    ∷ begins_throw
    ∷ records_throw then_buk
    ∷ resolves_queue
    ∷ []

abbrev buk_queue : ResultQueue
buk_queue = record { tokens = first_yut ∷ then_buk ∷ []; seen_ids = "t2" ∷ "t1" ∷ [] }

abbrev buk_turn : Machine
buk_turn = record new_turn { phase = turn_resolve_buk; selected_id = "t2"; queue = buk_queue }

run_new-Inv_example : Inv (run new_turn buk_calls)
run_new-Inv_example = run_new-Inv "p1" default_settings buk_calls new_turn_made

invariant : (cs : List Call) {m : Machine} → run new_turn cs ≡ m → Inv m
invariant cs e = subst Inv e (run_new-Inv "p1" default_settings cs new_turn_made)

buk_turn-Inv : Inv buk_turn
unfolding run step start begin_throw record_throw resolve_queue text_discrete append Queue.available
    first_buk available_tokens Token.validate TurnPhase-discrete ResultOrigin-discrete
    YutResult-discrete
buk_turn-Inv = invariant buk_calls refl

new_turn-Inv : Inv new_turn
unfolding run
new_turn-Inv = invariant [] refl

abbrev move_turn : Machine
move_turn = record new_turn {
  phase = turn_resolve_stack_capture_finish;
  selected_id = "t1";
  queue = record { tokens = first_yut ∷ then_do ∷ []; seen_ids = "t2" ∷ "t1" ∷ [] };
}

abbrev move_calls : List Call
move_calls =
    starts
    ∷ begins_throw
    ∷ records_throw first_yut
    ∷ begins_throw
    ∷ records_throw then_do
    ∷ resolves_queue
    ∷ selects_move "t1" false
    ∷ applies_move "t1"
    ∷ []

move_turn-Inv : Inv move_turn
unfolding run step start begin_throw record_throw resolve_queue select_move move_applied offers
    text_discrete append Queue.available first_buk available_tokens Token.validate
    TurnPhase-discrete ResultOrigin-discrete YutResult-discrete
move_turn-Inv = invariant move_calls refl

-- A full queue, by thirty-two throws.
abbrev throws : List String → List Call
throws [] = []
throws (id ∷ ids) = begins_throw ∷ records_throw (yut_named id) ∷ throws ids

abbrev full_calls : List Call
full_calls =
    starts
    ∷ begins_throw
    ∷ records_throw first_yut
    ∷ throws (
        "t2" ∷ "t3" ∷ "t4" ∷ "t5" ∷ "t6" ∷ "t7" ∷ "t8" ∷ "t9" ∷ "t10" ∷ "t11" ∷ "t12" ∷ "t13"
        ∷ "t14" ∷ "t15" ∷ "t16" ∷ "t17" ∷ "t18" ∷ "t19" ∷ "t20" ∷ "t21" ∷ "t22" ∷ "t23" ∷ "t24"
        ∷ "t25" ∷ "t26" ∷ "t27" ∷ "t28" ∷ "t29" ∷ "t30" ∷ "t31" ∷ "t32" ∷ [])

abbrev full_turn : Machine
full_turn = run new_turn full_calls

full_turn-Inv : Inv full_turn
full_turn-Inv = run_new-Inv "p1" default_settings full_calls new_turn_made

full_turn_tokens : length full_turn.queue.tokens ≡ 32
unfolding run step start begin_throw record_throw text_discrete append Queue.available first_buk
    available_tokens Token.validate TurnPhase-discrete ResultOrigin-discrete YutResult-discrete
full_turn_tokens = refl

capped_turn_throws_no_more_example :
    ((run full_turn (resolves_queue ∷ begins_throw ∷ [])).phase ≢ turn_wait_throw)
    × ((run full_turn (resolves_queue ∷ begins_throw ∷ [])).phase ≢ turn_throwing_chain)
capped_turn_throws_no_more_example =
    capped_turn_throws_no_more full_turn (resolves_queue ∷ begins_throw ∷ []) full_turn-Inv
      full_turn_tokens

too_early : (step begins_throw new_turn).1 ≡ err invalid_transition
unfolding step begin_throw TurnPhase-discrete
too_early = refl

starts_accepted : (step starts new_turn).1 ≡ ok tt
unfolding step start TurnPhase-discrete
starts_accepted = refl

abbrev no_extra : MoveOutcome
no_extra = record { capture_extra_throw = false; match_ended = false }

abbrev captured : BukOutcome
captured = record { no_candidate = false; capture_extra_throw = true; match_ended = false }

no_extra_valid : validate_move_outcome no_extra ≡ ok tt
unfolding validate_move_outcome
no_extra_valid = refl

captured_valid : validate_buk_outcome captured ≡ ok tt
unfolding validate_buk_outcome
captured_valid = refl

buk_found : first_buk buk_queue.tokens ≡ some then_buk
unfolding first_buk YutResult-discrete
buk_found = refl

fifo_known : movement_fifo ≢ movement_other
fifo_known e = ground arith

free_known : movement_free ≢ movement_other
free_known e = ground arith

yut_waits : contains_token_id (available_tokens buk_queue.tokens movement_free) "t1" ≡ false
unfolding contains_token_id available_tokens first_buk YutResult-discrete text_discrete
yut_waits = refl

buk_taken : (consume "t2" movement_free buk_queue).1 ≡ ok then_buk
unfolding consume take_out contains_token_id available_tokens first_buk YutResult-discrete
    text_discrete
buk_taken = refl

step_failed_example : (step begins_throw new_turn).0 ≡ new_turn
step_failed_example = step_failed begins_throw new_turn invalid_transition too_early

step_complete_example : step starts new_turn ≡ (waiting_throw new_turn origin_initial_throw, ok tt)
step_complete_example = step_complete (begin_turn refl)

step_sound_example : Step new_turn starts (step starts new_turn).0
step_sound_example = step_sound starts new_turn starts_accepted

complete_move_succeeds_example : (complete_move "t1" no_extra move_turn).1 ≡ ok tt
complete_move_succeeds_example =
    complete_move_succeeds move_turn no_extra move_turn-Inv refl no_extra_valid

never_stuck_example : (c : Call) × ((step c buk_turn).1 ≡ ok tt)
never_stuck_example = never_stuck buk_turn buk_turn-Inv refl

consume_iff_example :
    ((t : ResultToken) × ((consume "t1" movement_fifo buk_queue).1 ≡ ok t))
    ↔ (contains_token_id (available_tokens buk_queue.tokens movement_fifo) "t1" ≡ true)
consume_iff_example = consume_iff "t1" movement_fifo buk_queue fifo_known

consume_twice_example :
    (consume "t2" movement_fifo (consume "t2" movement_free buk_queue).0).1
    ≡ err result_token_already_consumed
consume_twice_example =
    consume_twice "t2" movement_free movement_fifo buk_queue buk_turn-Inv.queue_valid fifo_known
      buk_taken

validate_iff_example : (Settings.validate default_settings ≡ ok tt) ↔ IsAllowed default_settings
validate_iff_example = validate_iff default_settings
