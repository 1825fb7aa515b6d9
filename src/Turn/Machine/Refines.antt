-- ===== src/Turn/Machine/Refines.antt =====
-- The machine's methods accept exactly the steps of the turn relation.
use buk_yutnori.Prelude.{
  ◌≡◌, refl, Bool, true, false, List, [], ◌∷◌, ◌++◌, arith, string_eq, length, Bool-cases, inl, inr,
}
use native.Mathlib.Decide.{dec_le}
use buk_yutnori.Prelude.Result.{ok, Result-cases}
use buk_yutnori.Domain.{ResultTokenId, yut_yut, yut_mo, yut_buk, YutResult-discrete}
use buk_yutnori.Turn.Token
use buk_yutnori.Turn.Token.{ResultToken}
use buk_yutnori.Turn.Queue
use buk_yutnori.Turn.Queue.{ResultQueue, available_tokens, max_result_queue_tokens}
use buk_yutnori.Turn.Queue.Validity.{append_accepted, append-Accepts}
use buk_yutnori.Turn.Machine.Steps.{
  gives_out, Recordable, Takes, Step, begin_turn, throwing, queue_full, stays_capped, yut_extra,
  mo_extra, last_throw, drained, buk_next, move_next, ask_route, select, route, apply_move, discard,
  complete_move_step, no_candidate, complete_buk_step,
}
use buk_yutnori.Turn.Machine.{
  Machine, Call, starts, begins_throw, resolves_queue, records_throw, selects_move, selects_route,
  applies_move, discards, completes_move, completes_buk, step, start, begin_throw, record_throw,
  resolve_queue, select_move, route_selected, move_applied, complete_move, discard_unusable_result,
  complete_buk, MoveOutcome, BukOutcome,
}

-- Every step of the relation is made by its call.
pub step_complete : {m m' : Machine} {c : Call} → Step m c m' → step c m ≡ (m', ok tt)
unfolding step
step_complete (begin_turn p) = unfold start in ground arith
step_complete (throwing p) = unfold begin_throw in ground arith
step_complete {m} (queue_full {t = t} r c) =
    let v : Token.validate t ≡ ok tt = r.accepted.valid in
    unfold record_throw in ground (arith, append_accepted t m.queue)
step_complete {m} (stays_capped {t = t} r c k) =
    let v : Token.validate t ≡ ok tt = r.accepted.valid in
    unfold record_throw in ground (arith, append_accepted t m.queue)
step_complete {m} (yut_extra {t = t} r c k y e) =
    let v : Token.validate t ≡ ok tt = r.accepted.valid in
    unfold record_throw in ground (arith, append_accepted t m.queue)
step_complete {m} (mo_extra {t = t} r c k y e) =
    let v : Token.validate t ≡ ok tt = r.accepted.valid in
    unfold record_throw in ground (arith, append_accepted t m.queue)
step_complete {m} (last_throw {t = t} r c k) =
    let v : Token.validate t ≡ ok tt = r.accepted.valid in
    unfold record_throw in ground (arith, append_accepted t m.queue)
step_complete {m} (drained p o g) = unfold resolve_queue Queue.available in ground arith
step_complete {m} (buk_next p o g b) = unfold resolve_queue Queue.available in ground arith
step_complete {m} (move_next p o g b) = unfold resolve_queue Queue.available in ground arith
step_complete {m} (ask_route p o g) = unfold select_move Queue.available in ground arith
step_complete {m} (select p o g) = unfold select_move Queue.available in ground arith
step_complete {m} (route p e) = unfold route_selected in ground arith
step_complete {m} (apply_move p e) = unfold move_applied in ground arith
step_complete {m} (discard p n o k) =
    let out = k.taken in unfold discard_unusable_result Queue.available in ground arith
step_complete {m} (complete_move_step {o = o} p e v k) =
    let out = k.taken in unfold complete_move in ground arith
step_complete {m} (no_candidate p e v k n) =
    let out = k.taken in unfold complete_buk in ground arith
step_complete {m} (complete_buk_step p e v k n) =
    let out = k.taken in unfold complete_buk in ground arith

-- A call that succeeds, with the step that it makes.
abbrev Made : Machine → Call → Type 0
Made m c = (m' : Machine) × Step m c m' × (step c m ≡ (m', ok tt))

made : {m m' : Machine} {c : Call} → Step m c m' → Made m c
made {m' = m'} s = (m', s, step_complete s)

start-Made : (m : Machine) → (start m).1 ≡ ok tt → Made m starts
unfolding start
start-Made m h = made (begin_turn (ground arith))

begin_throw-Made : (m : Machine) → (step begins_throw m).1 ≡ ok tt → Made m begins_throw
unfolding step begin_throw
begin_throw-Made m h = made (throwing (ground arith))

record_throw-Recordable :
    (t : ResultToken) (m : Machine) → (record_throw t m).1 ≡ ok tt → Recordable m t
unfolding record_throw
record_throw-Recordable t m h = ground (arith, append-Accepts t m.queue)

record_throw-Made :
    (t : ResultToken) (m : Machine) → (record_throw t m).1 ≡ ok tt → Made m (records_throw t)
record_throw-Made t m h =
    elim (dec_le max_result_queue_tokens (length (m.queue.tokens ++ t ∷ []))) [
      | yes f ↦ made (queue_full r f)
      | no f ↦ elim (Bool-cases m.throwing_capped) [
        | inl k ↦ made (stays_capped r f k)
        | inr k ↦ elim (Bool-cases m.yut_mo_extra) [
          | inr n ↦ made (last_throw r f (inl n))
          | inl y ↦ elim (YutResult-discrete t.result yut_yut) [
            | yes e ↦ made (yut_extra r f k y e)
            | no a ↦ elim (YutResult-discrete t.result yut_mo) [
              | yes e ↦ made (mo_extra r f k y e)
              | no b ↦ made (last_throw r f (inr (a, b)))
            ]
          ]
        ]
      ]
    ]
  where
    r : Recordable m t
    r = record_throw-Recordable t m h

resolve_queue-Made :
    (m : Machine) (ts : List ResultToken)
    → gives_out m ≡ ts
    → (resolve_queue m).1 ≡ ok tt
    → Made m resolves_queue
unfolding resolve_queue Queue.available
resolve_queue-Made m [] g h = made (drained (ground arith) (λ e. ground arith) g)
resolve_queue-Made m (t ∷ ts) g h = elim (YutResult-discrete t.result yut_buk) [
  | yes b ↦ made (buk_next (ground arith) (λ e. ground arith) g b)
  | no b ↦ made (move_next (ground arith) (λ e. ground arith) g b)
]

select_move-Made :
    (id : ResultTokenId) (route_required : Bool) (m : Machine)
    → (select_move id route_required m).1 ≡ ok tt
    → Made m (selects_move id route_required)
unfolding select_move Queue.available
select_move-Made id true m h = made (ask_route (ground arith) (λ e. ground arith) (ground arith))
select_move-Made id false m h = made (select (ground arith) (λ e. ground arith) (ground arith))

route_selected-Made :
    (id : ResultTokenId) (m : Machine) → (route_selected id m).1 ≡ ok tt → Made m (selects_route id)
unfolding route_selected
route_selected-Made id m h = made (route (ground arith) (ground arith))

move_applied-Made :
    (id : ResultTokenId) (m : Machine) → (move_applied id m).1 ≡ ok tt → Made m (applies_move id)
unfolding move_applied
move_applied-Made id m h = made (apply_move (ground arith) (ground arith))

Takes-of :
    (id : ResultTokenId) (m : Machine) {t : ResultToken}
    → (Queue.consume id m.movement_order m.queue).1 ≡ ok t
    → Takes m id (Queue.consume id m.movement_order m.queue).0
Takes-of id m {t} h = record { token = t; taken = ground arith }

discard-Made :
    (id : ResultTokenId) (m : Machine)
    → (discard_unusable_result id m).1 ≡ ok tt
    → Made m (discards id)
unfolding discard_unusable_result Queue.available
discard-Made id m h = elim (Result-cases (Queue.consume id m.movement_order m.queue).1) [
  | inl (t, e) ↦ made (discard (ground arith) (λ e. ground arith) (ground arith) (Takes-of id m e))
  | inr (x, e) ↦ absurd (ground arith)
]

complete_move-Made :
    (id : ResultTokenId) (o : MoveOutcome) (m : Machine)
    → (complete_move id o m).1 ≡ ok tt
    → Made m (completes_move id o)
unfolding complete_move
complete_move-Made id o m h = elim (Result-cases (Queue.consume id m.movement_order m.queue).1) [
  | inl (t, e) ↦
      made (complete_move_step (ground arith) (ground arith) (ground arith) (Takes-of id m e))
  | inr (x, e) ↦ absurd (ground arith)
]

complete_buk-Made :
    (id : ResultTokenId) (o : BukOutcome) (m : Machine)
    → (complete_buk id o m).1 ≡ ok tt
    → Made m (completes_buk id o)
unfolding complete_buk
complete_buk-Made id o m h = elim (Result-cases (Queue.consume id m.movement_order m.queue).1) [
  | inl (t, e) ↦ elim (Bool-cases o.no_candidate) [
    | inl n ↦ made (no_candidate (ground arith) (ground arith) (ground arith) (Takes-of id m e) n)
    | inr n ↦
        made (complete_buk_step (ground arith) (ground arith) (ground arith) (Takes-of id m e) n)
  ]
  | inr (x, e) ↦ absurd (ground arith)
]

step-Made : (c : Call) (m : Machine) → (step c m).1 ≡ ok tt → Made m c
unfolding step
step-Made starts m h = start-Made m h
step-Made begins_throw m h = begin_throw-Made m h
step-Made resolves_queue m h = resolve_queue-Made m (gives_out m) refl h
step-Made (records_throw token) m h = record_throw-Made token m h
step-Made (selects_move id route_required) m h = select_move-Made id route_required m h
step-Made (selects_route id) m h = route_selected-Made id m h
step-Made (applies_move id) m h = move_applied-Made id m h
step-Made (discards id) m h = discard-Made id m h
step-Made (completes_move id outcome) m h = complete_move-Made id outcome m h
step-Made (completes_buk id outcome) m h = complete_buk-Made id outcome m h

-- A call that succeeds makes a step of the relation, to the state that the call leaves.
pub step_sound : (c : Call) (m : Machine) → (step c m).1 ≡ ok tt → Step m c (step c m).0
step_sound c m h = let (m', s, e) = step-Made c m h in rw e s
