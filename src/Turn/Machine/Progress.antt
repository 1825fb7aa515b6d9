-- ===== src/Turn/Machine/Progress.antt =====
-- What a turn can always do next.
use buk_yutnori.Prelude.{
  ◌≡◌, refl, Bool, true, false, List, [], ◌∷◌, arith, ◌≢◌, inl, inr, Bool-cases, ap, string_eq,
}
use buk_yutnori.Prelude.Result.{Result, ok}
use buk_yutnori.Domain.{
  Error, ResultTokenId, TurnPhase, turn_end, turn_match_end, turn_cpu_control, turn_paused,
  YutResult-discrete, turn_resolve_stack_capture_finish, turn_resolve_buk, turn_resolve_queue,
  turn_wait_throw, turn_start, turn_throwing_chain, turn_wait_move_selection,
  turn_wait_route_selection, turn_apply_move, yut_buk, yut_eq,
}
use buk_yutnori.Turn.Token.{ResultToken}
use buk_yutnori.Turn.Queue
use buk_yutnori.Turn.Queue.{contains_token_id}
use buk_yutnori.Turn.Queue.Order.{consumes_available}
use buk_yutnori.Turn.Machine.{
  Machine, Call, step, MoveOutcome, BukOutcome, offers, validate_move_outcome, validate_buk_outcome,
  complete_move, complete_buk,
}
use buk_yutnori.Turn.Machine.Steps.{
  Step, begin_turn, throwing, drained, buk_next, move_next, select, route, apply_move,
  complete_move_step, no_candidate, complete_buk_step, Takes, gives_out,
}
use buk_yutnori.Turn.Machine.Refines.{step_complete}
use buk_yutnori.Turn.Machine.Invariant.{Inv, in_phase}

offered_contained :
    (ts : List ResultToken) (id : ResultTokenId)
    → offers ts id ≡ true
    → contains_token_id ts id ≡ true
unfolding offers contains_token_id
offered_contained [] id h = absurd (ground arith)
offered_contained (t ∷ ts) id h = ground (arith, offered_contained ts id)

Takes-available :
    (m : Machine) (id : ResultTokenId)
    → Inv m
    → contains_token_id (gives_out m) id ≡ true
    → Takes m id (Queue.consume id m.movement_order m.queue).0
Takes-available m id v a =
    let (t, e) = consumes_available id m.movement_order m.queue v.known_order a in
    record { token = t; taken = ground arith }

result_ok : {m m' : Machine} {c : Call} → Step m c m' → (step c m).1 ≡ ok tt
result_ok s = ap (λ (r : Machine × Result Error (Unit {0})). r.1) (step_complete s)

first_contained :
    (m : Machine) (b : ResultToken) (ts : List ResultToken)
    → gives_out m ≡ b ∷ ts
    → b.id ≡ m.selected_id
    → contains_token_id (gives_out m) m.selected_id ≡ true
unfolding contains_token_id
first_contained m b ts g e = rw g (ground arith)

-- The move that a valid turn has selected can be completed: in the phase that resolves it,
-- `complete_move` of the selected token fails for no consistent outcome.
pub complete_move_succeeds :
    (m : Machine) (outcome : MoveOutcome)
    → Inv m
    → m.phase ≡ turn_resolve_stack_capture_finish
    → validate_move_outcome outcome ≡ ok tt
    → (complete_move m.selected_id outcome m).1 ≡ ok tt
unfolding step
complete_move_succeeds m outcome v p w =
    let (_, offered) = in_phase v p in
    let k = Takes-available m m.selected_id v (offered_contained _ _ offered) in
    result_ok (complete_move_step {o = outcome} p refl w k)

-- The Buk that a valid turn resolves can be completed: `complete_buk` of the selected token fails
-- for no consistent outcome.
pub complete_buk_succeeds :
    (m : Machine) (outcome : BukOutcome)
    → Inv m
    → m.phase ≡ turn_resolve_buk
    → validate_buk_outcome outcome ≡ ok tt
    → (complete_buk m.selected_id outcome m).1 ≡ ok tt
unfolding step
complete_buk_succeeds m outcome v p w =
    let (_, b, ts, g, r, e) = in_phase v p in
    let k = Takes-available m m.selected_id v (first_contained m b ts g e) in
    elim (Bool-cases outcome.no_candidate) [
      | inl n ↦ result_ok (no_candidate {o = outcome} p refl w k n)
      | inr n ↦ result_ok (complete_buk_step {o = outcome} p refl w k n)
    ]

-- The phases in which the turn rests: a throw is under way, or the turn has ended or is suspended.
abbrev rests : TurnPhase → Bool
rests turn_throwing_chain = true
rests turn_end = true
rests turn_match_end = true
rests turn_cpu_control = true
rests turn_paused = true
rests _ = false

abbrev CanCall : Machine → Type 0
CanCall m = (c : Call) × ((step c m).1 ≡ ok tt)

can_call : {m m' : Machine} {c : Call} → Step m c m' → CanCall m
can_call {c = c} s = (c, result_ok s)

offers_first :
    (t : ResultToken) (ts : List ResultToken) → t.result ≢ yut_buk → offers (t ∷ ts) t.id ≡ true
unfolding offers
offers_first t ts n = ground arith

resolve-CanCall :
    (m : Machine) (ts : List ResultToken)
    → Inv m
    → m.phase ≡ turn_resolve_queue
    → gives_out m ≡ ts
    → CanCall m
resolve-CanCall m [] v p g = can_call (drained p v.known_order g)
resolve-CanCall m (t ∷ ts) v p g = elim (YutResult-discrete t.result yut_buk) [
  | yes b ↦ can_call (buk_next p v.known_order g b)
  | no b ↦ can_call (move_next p v.known_order g b)
]

move_done : MoveOutcome
move_done = record { capture_extra_throw = false; match_ended = false }

buk_done : BukOutcome
buk_done = record { no_candidate = false; capture_extra_throw = false; match_ended = false }

-- A turn with the invariant accepts some call, in every phase in which it does not rest.
pub never_stuck : (m : Machine) → Inv m → rests m.phase ≡ false → CanCall m
never_stuck m v r = at m.phase refl r
  where
    at : (p : TurnPhase) → m.phase ≡ p → rests p ≡ false → CanCall m
    at turn_start p r = can_call (begin_turn p)
    at turn_wait_throw p r = can_call (throwing p)
    at turn_resolve_queue p r = resolve-CanCall m (gives_out m) v p refl
    at turn_wait_move_selection p r =
        let (_, _, t, ts, g, n) = in_phase v p in
        can_call (select {id = t.id} p v.known_order (rw g (offers_first t ts n)))
    at turn_wait_route_selection p r = can_call (route p refl)
    at turn_apply_move p r = can_call (apply_move p refl)
    at turn_resolve_stack_capture_finish p r =
        let (_, o) = in_phase v p in
        can_call (
          complete_move_step {o = move_done} p refl (unfold move_done validate_move_outcome in refl)
            (Takes-available m m.selected_id v (offered_contained _ _ o)))
    at turn_resolve_buk p r =
        let (_, b, ts, g, _, e) = in_phase v p in
        can_call (
          complete_buk_step {o = buk_done} p refl (unfold buk_done validate_buk_outcome in refl)
            (Takes-available m m.selected_id v (first_contained m b ts g e))
            (unfold buk_done in refl))
    at _ p r = absurd (ground arith)
