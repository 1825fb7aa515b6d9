-- ===== src/Turn/Machine/Steps.antt =====
-- The turn as a step relation: docs/03_turn_queue_state_machine.md, and the methods of the machine.
use buk_yutnori.Prelude.{
  ◌≤◌, ◌≡◌, Bool, true, false, List, [], ◌∷◌, ◌++◌, string_eq, length, ◌≢◌, ◌⊎◌, if◌then◌else◌,
}
use buk_yutnori.Prelude.Result.{ok}
use buk_yutnori.Domain.{
  ResultTokenId, TurnPhase, RequiredInput, ResultOrigin, yut_yut, yut_mo, yut_buk, turn_start,
  turn_wait_throw, turn_throwing_chain, turn_resolve_queue, turn_wait_move_selection,
  turn_wait_route_selection, turn_apply_move, turn_resolve_stack_capture_finish, turn_resolve_buk,
  turn_end, turn_match_end, input_none, input_throw, input_select_move, input_select_route,
  origin_initial_throw, origin_yut_extra, origin_mo_extra, origin_capture_extra, origin_other,
}
use buk_yutnori.Room.Settings.{movement_other}
use buk_yutnori.Turn.Token.{ResultToken}
use buk_yutnori.Turn.Queue
use buk_yutnori.Turn.Queue.{ResultQueue, available_tokens, max_result_queue_tokens}
use buk_yutnori.Turn.Queue.Validity.{Accepts, enqueued}
use buk_yutnori.Turn.Machine.{
  Machine, Call, starts, begins_throw, resolves_queue, records_throw, selects_move, selects_route,
  applies_move, discards, completes_move, completes_buk, MoveOutcome, BukOutcome, offers,
  validate_move_outcome, validate_buk_outcome,
}

-- The machine in another state, with its player, rules and queue.
abbrev pub moved : Machine → TurnPhase → RequiredInput → ResultOrigin → ResultTokenId → Machine
moved m p i o id = record m { phase = p; required_input = i; expected_origin = o; selected_id = id }

abbrev pub resolving : Machine → Machine
resolving m = moved m turn_resolve_queue input_none origin_other ""

abbrev pub waiting_throw : Machine → ResultOrigin → Machine
waiting_throw m o = moved m turn_wait_throw input_throw o ""

-- Where a resolved token leaves the turn.
abbrev pub resolved : Machine → Bool → Bool → Machine
resolved m extra ended =
    if ended
    then moved m turn_match_end input_none origin_other ""
    else if m.throwing_capped
    then resolving m
    else if extra
    then waiting_throw m origin_capture_extra
    else resolving m

abbrev pub with_queue : Machine → ResultQueue → Machine
with_queue m q = record m { queue = q }

abbrev pub gives_out : Machine → List ResultToken
gives_out m = available_tokens m.queue.tokens m.movement_order

-- What a throw must be to be recorded.
pub record Recordable (m : Machine) (t : ResultToken) : Type 0 where
  pub in_phase : m.phase ≡ turn_throwing_chain
  pub origin : t.origin ≡ m.expected_origin
  pub player : t.generated_by_player_id ≡ m.player_id
  pub accepted : Accepts m.queue t

abbrev pub recorded : Machine → ResultToken → Machine
recorded m t = with_queue m (enqueued m.queue t)

abbrev pub Fills : Machine → ResultToken → Type 0
Fills m t = max_result_queue_tokens ≤ length (m.queue.tokens ++ t ∷ [])

-- The queue without the token of an identifier that it gives out.
pub record Takes (m : Machine) (id : ResultTokenId) (q : ResultQueue) : Type 0 where
  pub token : ResultToken
  pub taken : Queue.consume id m.movement_order m.queue ≡ (q, ok token)

-- One accepted call, with the state that it leaves.
pub data Step (m : Machine) : Call → Machine → Type 0 where
  begin_turn : m.phase ≡ turn_start → Step m starts (waiting_throw m origin_initial_throw)
  throwing :
      m.phase ≡ turn_wait_throw
      → Step m begins_throw (moved m turn_throwing_chain input_none m.expected_origin "")
  queue_full :
      {t : ResultToken}
      → Recordable m t
      → Fills m t
      → Step m (records_throw t) (resolving (record (recorded m t) { throwing_capped = true }))
  stays_capped :
      {t : ResultToken}
      → Recordable m t
      → ¬ Fills m t
      → m.throwing_capped ≡ true
      → Step m (records_throw t) (resolving (recorded m t))
  yut_extra :
      {t : ResultToken}
      → Recordable m t
      → ¬ Fills m t
      → m.throwing_capped ≡ false
      → m.yut_mo_extra ≡ true
      → t.result ≡ yut_yut
      → Step m (records_throw t) (waiting_throw (recorded m t) origin_yut_extra)
  mo_extra :
      {t : ResultToken}
      → Recordable m t
      → ¬ Fills m t
      → m.throwing_capped ≡ false
      → m.yut_mo_extra ≡ true
      → t.result ≡ yut_mo
      → Step m (records_throw t) (waiting_throw (recorded m t) origin_mo_extra)
  last_throw :
      {t : ResultToken}
      → Recordable m t
      → ¬ Fills m t
      → (m.yut_mo_extra ≡ false) ⊎ ((t.result ≢ yut_yut) × (t.result ≢ yut_mo))
      → Step m (records_throw t) (resolving (recorded m t))
  drained :
      m.phase ≡ turn_resolve_queue
      → m.movement_order ≢ movement_other
      → gives_out m ≡ []
      → Step m resolves_queue (moved m turn_end input_none origin_other "")
  buk_next :
      {b : ResultToken} {ts : List ResultToken}
      → m.phase ≡ turn_resolve_queue
      → m.movement_order ≢ movement_other
      → gives_out m ≡ b ∷ ts
      → b.result ≡ yut_buk
      → Step m resolves_queue (moved m turn_resolve_buk input_none origin_other b.id)
  move_next :
      {t : ResultToken} {ts : List ResultToken}
      → m.phase ≡ turn_resolve_queue
      → m.movement_order ≢ movement_other
      → gives_out m ≡ t ∷ ts
      → t.result ≢ yut_buk
      → Step m resolves_queue (moved m turn_wait_move_selection input_select_move origin_other "")
  ask_route :
      {id : ResultTokenId}
      → m.phase ≡ turn_wait_move_selection
      → m.movement_order ≢ movement_other
      → offers (gives_out m) id ≡ true
      → Step m
          (selects_move id true)
          (moved m turn_wait_route_selection input_select_route origin_other id)
  select :
      {id : ResultTokenId}
      → m.phase ≡ turn_wait_move_selection
      → m.movement_order ≢ movement_other
      → offers (gives_out m) id ≡ true
      → Step m (selects_move id false) (moved m turn_apply_move input_none origin_other id)
  route :
      {id : ResultTokenId}
      → m.phase ≡ turn_wait_route_selection
      → m.selected_id ≡ id
      → Step m (selects_route id) (moved m turn_apply_move input_none origin_other id)
  apply_move :
      {id : ResultTokenId}
      → m.phase ≡ turn_apply_move
      → m.selected_id ≡ id
      → Step m
          (applies_move id)
          (moved m turn_resolve_stack_capture_finish input_none origin_other id)
  discard :
      {id : ResultTokenId} {q : ResultQueue}
      → m.phase ≡ turn_wait_move_selection
      → m.movement_order ≢ movement_other
      → offers (gives_out m) id ≡ true
      → Takes m id q
      → Step m (discards id) (resolving (with_queue m q))
  complete_move_step :
      {id : ResultTokenId} {o : MoveOutcome} {q : ResultQueue}
      → m.phase ≡ turn_resolve_stack_capture_finish
      → m.selected_id ≡ id
      → validate_move_outcome o ≡ ok tt
      → Takes m id q
      → Step m (completes_move id o) (resolved (with_queue m q) o.capture_extra_throw o.match_ended)
  no_candidate :
      {id : ResultTokenId} {o : BukOutcome} {q : ResultQueue}
      → m.phase ≡ turn_resolve_buk
      → m.selected_id ≡ id
      → validate_buk_outcome o ≡ ok tt
      → Takes m id q
      → o.no_candidate ≡ true
      → Step m (completes_buk id o) (moved (with_queue m q) turn_end input_none origin_other "")
  complete_buk_step :
      {id : ResultTokenId} {o : BukOutcome} {q : ResultQueue}
      → m.phase ≡ turn_resolve_buk
      → m.selected_id ≡ id
      → validate_buk_outcome o ≡ ok tt
      → Takes m id q
      → o.no_candidate ≡ false
      → Step m (completes_buk id o) (resolved (with_queue m q) o.capture_extra_throw o.match_ended)
