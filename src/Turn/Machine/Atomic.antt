-- ===== src/Turn/Machine/Atomic.antt =====
-- A call that fails changes nothing.
use buk_yutnori.Prelude.{◌≡◌, List, [], ◌∷◌, Bool, arith, ◌==◌, string_eq}
use buk_yutnori.Prelude.Result.{err}
use buk_yutnori.Domain.{
  Error, ResultTokenId, TurnPhase, RequiredInput, ResultOrigin, phase_eq, invalid_transition,
  selected_token_mismatch,
}
use buk_yutnori.Turn.Token.{ResultToken}
use buk_yutnori.Turn.Queue
use buk_yutnori.Turn.Queue.{ResultQueue}
use buk_yutnori.Turn.Queue.Validity.{append_refused, consume_refused}
use buk_yutnori.Turn.Machine.{
  Machine, Call, starts, begins_throw, resolves_queue, records_throw, selects_move, selects_route,
  applies_move, discards, completes_move, completes_buk, step, start, begin_throw, record_throw,
  resolve_queue, select_move, route_selected, move_applied, complete_move, discard_unusable_result,
  complete_buk, MoveOutcome, BukOutcome, require_phase, require_selected, set_state, on_queue,
  available, consume_selected, cap_throwing, after_throw, advance_after_resolution,
  resolve_available,
}
use buk_yutnori.Prelude.Exec.{Exec}
use buk_yutnori.Prelude.Exec.Atomic.{
  Keeps, Succeeds, Atomic, Succeeds-Atomic, if-Atomic, if-Succeeds, pure-Succeeds, >>=-Atomic,
  >>=-Atomic_last, guard-Keeps, lift-Keeps, reads-Keeps, modify-Succeeds, >>=-Succeeds,
}

require_phase-Keeps : (p : TurnPhase) → Keeps (require_phase p)
require_phase-Keeps p = record {
  keeps = λ m. (guard-Keeps (m.phase == p) invalid_transition).keeps m;
}

require_selected-Keeps : (id : ResultTokenId) → Keeps (require_selected id)
require_selected-Keeps id = record {
  keeps = λ m. (guard-Keeps (m.selected_id == id) selected_token_mismatch).keeps m;
}

set_state-Succeeds :
    (p : TurnPhase) (i : RequiredInput) (o : ResultOrigin) (id : ResultTokenId)
    → Succeeds (set_state p i o id)
set_state-Succeeds p i o id = modify-Succeeds _

on_queue_failed :
    {A : Type 0} (call : Exec Error ResultQueue A) (m : Machine) (e : Error)
    → Atomic call
    → (call m.queue).1 ≡ err e
    → record m { queue = (call m.queue).0 } ≡ m
on_queue_failed call m e k h = rw (k.atomic m.queue e h)

on_queue-Atomic :
    {A : Type 0} (call : Exec Error ResultQueue A) → Atomic call → Atomic (on_queue call)
on_queue-Atomic call k = record { atomic = λ m e h. on_queue_failed call m e k h }

append-Atomic : (token : ResultToken) → Atomic (Queue.append token)
append-Atomic token = record { atomic = λ q e h. append_refused token q h }

consume-Atomic : (id : ResultTokenId) → Atomic (consume_selected id)
consume-Atomic id = record {
  atomic = λ m e h.
      on_queue_failed (Queue.consume id m.movement_order) m e
        (record { atomic = λ q x k. consume_refused id m.movement_order q k }) h;
}

available-Keeps : Keeps available
unfolding Queue.available
available-Keeps = record { keeps = λ m. ground arith }

cap_throwing-Succeeds : Succeeds cap_throwing
cap_throwing-Succeeds = record { succeeds = λ m e h. ground arith }

after_throw-Succeeds : (token : ResultToken) → Succeeds (after_throw token)
after_throw-Succeeds token = record { succeeds = λ m e h. ground arith }

advance-Succeeds : (extra ended : Bool) → Succeeds (advance_after_resolution extra ended)
advance-Succeeds extra ended = record { succeeds = λ m e h. ground arith }

resolve_available-Succeeds : (ts : List ResultToken) → Succeeds (resolve_available ts)
resolve_available-Succeeds [] = set_state-Succeeds _ _ _ _
resolve_available-Succeeds (t ∷ ts) = record { succeeds = λ m e h. ground arith }

ruleset parts = (
  require_phase-Keeps, require_selected-Keeps, guard-Keeps, lift-Keeps, reads-Keeps,
  available-Keeps, set_state-Succeeds, cap_throwing-Succeeds, after_throw-Succeeds,
  advance-Succeeds, resolve_available-Succeeds, append-Atomic, consume-Atomic, on_queue-Atomic,
  >>=-Atomic, >>=-Atomic_last, >>=-Succeeds, Succeeds-Atomic, if-Atomic, if-Succeeds, pure-Succeeds,
)

start-Atomic : Atomic start
unfolding start
start-Atomic = search parts depth 14

record_throw-Atomic : (token : ResultToken) → Atomic (record_throw token)
unfolding record_throw
record_throw-Atomic token = search parts depth 14

resolve_queue-Atomic : Atomic resolve_queue
unfolding resolve_queue
resolve_queue-Atomic = search parts depth 14

select_move-Atomic :
    (id : ResultTokenId) (route_required : Bool) → Atomic (select_move id route_required)
unfolding select_move
select_move-Atomic id route_required = search parts depth 14

route_selected-Atomic : (id : ResultTokenId) → Atomic (route_selected id)
unfolding route_selected
route_selected-Atomic id = search parts depth 14

move_applied-Atomic : (id : ResultTokenId) → Atomic (move_applied id)
unfolding move_applied
move_applied-Atomic id = search parts depth 14

complete_move-Atomic :
    (id : ResultTokenId) (outcome : MoveOutcome) → Atomic (complete_move id outcome)
unfolding complete_move
complete_move-Atomic id outcome = search parts depth 14

discard_unusable_result-Atomic : (id : ResultTokenId) → Atomic (discard_unusable_result id)
unfolding discard_unusable_result
discard_unusable_result-Atomic id = search parts depth 14

complete_buk-Atomic : (id : ResultTokenId) (outcome : BukOutcome) → Atomic (complete_buk id outcome)
unfolding complete_buk
complete_buk-Atomic id outcome = search parts depth 14

begins_throw-Atomic : Atomic (step begins_throw)
unfolding step begin_throw
begins_throw-Atomic = search parts depth 14

step-Atomic : (c : Call) → Atomic (step c)
unfolding step
step-Atomic starts = start-Atomic
step-Atomic begins_throw = begins_throw-Atomic
step-Atomic resolves_queue = resolve_queue-Atomic
step-Atomic (records_throw token) = record_throw-Atomic token
step-Atomic (selects_move id route_required) = select_move-Atomic id route_required
step-Atomic (selects_route id) = route_selected-Atomic id
step-Atomic (applies_move id) = move_applied-Atomic id
step-Atomic (discards id) = discard_unusable_result-Atomic id
step-Atomic (completes_move id outcome) = complete_move-Atomic id outcome
step-Atomic (completes_buk id outcome) = complete_buk-Atomic id outcome

-- A call of any method of the machine that returns an error leaves the machine, its queue
-- included, as it was.
pub step_failed : (c : Call) (m : Machine) (e : Error) → (step c m).1 ≡ err e → (step c m).0 ≡ m
step_failed c m e h = (step-Atomic c).atomic m e h
