-- ===== src/Turn/Machine/Runs.antt =====
-- Turns from `new_machine`, by any calls in any order, those that fail included.
use buk_yutnori.Prelude.{
  ◌≡◌, refl, Bool, true, false, List, [], ◌∷◌, arith, length, ◌≢◌, inl, inr, sym, subst, string_eq,
}
use buk_yutnori.Prelude.Result.{ok, Result-cases}
use buk_yutnori.Domain.{PlayerId, turn_start, turn_wait_throw, turn_throwing_chain, origin_other}
use buk_yutnori.Room.Settings
use buk_yutnori.Room.Settings.{Settings, movement_other}
use buk_yutnori.Room.Settings.Valid.{validate_iff}
use buk_yutnori.Turn.Queue.{max_result_queue_tokens, empty_queue}
use buk_yutnori.Turn.Queue.Validity.{IsValid}
use buk_yutnori.Turn.Machine.{Machine, Call, new_machine, step, run}
use buk_yutnori.Turn.Machine.Atomic.{step_failed}
use buk_yutnori.Turn.Machine.Steps.{
  Step, begin_turn, throwing, queue_full, stays_capped, yut_extra, mo_extra, last_throw, drained,
  buk_next, move_next, ask_route, select, route, apply_move, discard, complete_move_step,
  no_candidate, complete_buk_step,
}
use buk_yutnori.Turn.Machine.Refines.{step_sound}
use buk_yutnori.Turn.Machine.Invariant.{Inv, InPhase, in_phase, Step-Inv}

empty_queue-IsValid : IsValid empty_queue
empty_queue-IsValid = record {
  bounded = omega arith;
  distinct = tt;
  reserved = tt;
  one_buk = tt;
  well_formed = tt;
}

started :
    (m : Machine)
    → m.phase ≡ turn_start
    → m.expected_origin ≡ origin_other
    → m.throwing_capped ≡ false
    → m.selected_id ≡ ""
    → InPhase m.phase m
started m p o c s = subst (λ q. InPhase q m) (sym p) (o, c, s)

pub new_machine-Inv :
    (player : PlayerId) (settings : Settings) {m : Machine}
    → new_machine player settings ≡ ok m
    → Inv m
unfolding new_machine
new_machine-Inv player settings {m} h = elim (Result-cases (Settings.validate settings)) [
  | inl (tt, e) ↦
      let known = (validate_iff settings).0 e in
      let order = known.order in
      let valid : m.queue ≡ empty_queue = ground arith in
      record {
        queue_valid = subst IsValid (sym valid) empty_queue-IsValid;
        known_order = λ k. ground arith;
        input = ground arith;
        capped_when_full = λ k. ground arith;
        phase = started m (ground arith) (ground arith) (ground arith) (ground arith);
      }
  | inr (x, e) ↦ absurd (ground arith)
]

pub call-Inv : (c : Call) (m : Machine) → Inv m → Inv (step c m).0
call-Inv c m v = elim (Result-cases (step c m).1) [
  | inl (tt, e) ↦ Step-Inv v (step_sound c m e)
  | inr (x, e) ↦ subst Inv (sym (step_failed c m x e)) v
]

run-Inv : (m : Machine) (cs : List Call) → Inv m → Inv (run m cs)
unfolding run
run-Inv m [] v = v
run-Inv m (c ∷ cs) v = run-Inv (step c m).0 cs (call-Inv c m v)

-- A turn that starts with a valid player and valid settings keeps the invariant, whatever calls
-- follow.
pub run_new-Inv :
    (player : PlayerId) (settings : Settings) {m : Machine} (cs : List Call)
    → new_machine player settings ≡ ok m
    → Inv (run m cs)
run_new-Inv player settings {m} cs h = run-Inv m cs (new_machine-Inv player settings h)

Step-stays_capped :
    {m m' : Machine} {c : Call}
    → Inv m
    → Step m c m'
    → m.throwing_capped ≡ true
    → m'.throwing_capped ≡ true
Step-stays_capped v (begin_turn p) k = k
Step-stays_capped v (throwing p) k = k
Step-stays_capped v (queue_full r f) k = refl
Step-stays_capped v (stays_capped r f c) k = k
Step-stays_capped v (yut_extra r f c y e) k = k
Step-stays_capped v (mo_extra r f c y e) k = k
Step-stays_capped v (last_throw r f n) k = k
Step-stays_capped v (drained p o g) k = k
Step-stays_capped v (buk_next p o g b) k = k
Step-stays_capped v (move_next p o g b) k = k
Step-stays_capped v (ask_route p o g) k = k
Step-stays_capped v (select p o g) k = k
Step-stays_capped v (route p e) k = k
Step-stays_capped v (apply_move p e) k = k
Step-stays_capped v (discard p n o t) k = k
Step-stays_capped v (complete_move_step p e w t) k = ground arith
Step-stays_capped v (no_candidate p e w t n) k = k
Step-stays_capped v (complete_buk_step p e w t n) k = ground arith

call_stays_capped :
    (c : Call) (m : Machine)
    → Inv m
    → m.throwing_capped ≡ true
    → (step c m).0.throwing_capped ≡ true
call_stays_capped c m v k = elim (Result-cases (step c m).1) [
  | inl (tt, e) ↦ Step-stays_capped v (step_sound c m e) k
  | inr (x, e) ↦ rw (step_failed c m x e) k
]

run_stays_capped :
    (m : Machine) (cs : List Call)
    → Inv m
    → m.throwing_capped ≡ true
    → (run m cs).throwing_capped ≡ true
unfolding run
run_stays_capped m [] v k = k
run_stays_capped m (c ∷ cs) v k =
    run_stays_capped (step c m).0 cs (call-Inv c m v) (call_stays_capped c m v k)

-- From a turn with the invariant and a full queue, no calls lead to waiting for a throw or to
-- throwing: no Yut, Mo or capture extends the turn.
pub capped_turn_throws_no_more :
    (m : Machine) (cs : List Call)
    → Inv m
    → length m.queue.tokens ≡ max_result_queue_tokens
    → ((run m cs).phase ≢ turn_wait_throw) × ((run m cs).phase ≢ turn_throwing_chain)
capped_turn_throws_no_more m cs v full =
    let capped : m.throwing_capped ≡ true = was_capped m v full in
    let still = run_stays_capped m cs v capped in
    let after = run-Inv m cs v in
    (λ p. not_capped still (in_phase after p).1, λ p. not_capped still (in_phase after p).1)
  where
    was_capped :
        (m : Machine)
        → Inv m
        → length m.queue.tokens ≡ max_result_queue_tokens
        → m.throwing_capped ≡ true
    was_capped m v full = ground (arith, v.capped_when_full)

    not_capped : {b : Bool} → b ≡ true → ¬ (b ≡ false)
    not_capped p q = ground arith
