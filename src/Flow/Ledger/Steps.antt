-- ===== src/Flow/Ledger/Steps.antt =====
-- The parts of a turn tell nothing: they keep the order of what has been published.
use buk_yutnori.Prelude.{ℕ, ◌+◌, ◌≡◌, refl, List, Bool, true, false, if◌then◌else◌}
use buk_yutnori.Prelude.Result.{Result, ok, err}
use buk_yutnori.Prelude.Exec.{Exec, modify}
use buk_yutnori.Prelude.Exec.Keeps.{
  Sustains, >>=-Sustains, if-Sustains, pure-Sustains, lift-Sustains, reads-Sustains, guard-Sustains,
}
use buk_yutnori.Domain.{Error, ResultTokenId, PieceId}
use buk_yutnori.Turn.Token.{ResultToken}
use buk_yutnori.Turn.Machine.{Machine}
use buk_yutnori.Match.Game.{Game}
use buk_yutnori.Match.Types.{MoveOutcome}
use buk_yutnori.Flow.Events.{Event}
use buk_yutnori.Flow.Runtime.{
  Runtime, Method, TimerKind, timer_throw, timer_move, emit, emit_all, on_machine, on_game, wrapped,
  next_draw, next_token_id, cancel_timer, schedule_timer, schedule_throw_timer, schedule_move_timer,
}
use buk_yutnori.Flow.Resolution.{
  throw_result, perform_throw, stage_yut_result, stage_result_queue_updated, stage_turn_started,
  stage_move_selection, stage_move_outcome_events, finish_match, after_queue_resolved,
}
use buk_yutnori.Flow.Ledger.{Ledger}

abbrev pub Keeps : {A : Type 0} → Method A → Type 0
Keeps m = Sustains Ledger m

pub either-Ledger :
    {B : Type 0} (b : Bool) (x y : Runtime × B)
    → Ledger x.0
    → Ledger y.0
    → Ledger (if b then x else y).0
either-Ledger true x y p q = p
either-Ledger false x y p q = q

pub one_of-Ledger : (b : Bool) (s t : Runtime) → Ledger s → Ledger t → Ledger (if b then s else t)
one_of-Ledger true s t p q = p
one_of-Ledger false s t p q = q

pub modify-Keeps :
    (change : Runtime → Runtime)
    → ((rt : Runtime) → Ledger rt → Ledger (change rt))
    → Keeps (modify change)
modify-Keeps change h = record { sustains = h }

pub wrapped-Keeps : {A : Type 0} (e : Error) (call : Method A) → Keeps call → Keeps (wrapped e call)
wrapped-Keeps {A} e call k = record { sustains = λ rt v. go rt (call rt).1 refl (k.sustains rt v) }
  where
    go :
        (rt : Runtime) (r : Result Error A)
        → (call rt).1 ≡ r
        → Ledger (call rt).0
        → Ledger (wrapped e call rt).0
    go rt (ok a) q v = rw (wrapped, q) v
    go rt (err x) q v = rw (wrapped, q) v

pub on_machine-Keeps : {A : Type 0} (call : Exec Error Machine A) → Keeps (on_machine call)
on_machine-Keeps call = record { sustains = λ rt v. v }

pub on_game-Keeps : {A : Type 0} (call : Game → Result Error (Game × A)) → Keeps (on_game call)
on_game-Keeps {A} call = record { sustains = λ rt v. go rt (call rt.game) refl v }
  where
    go :
        (rt : Runtime) (r : Result Error (Game × A))
        → call rt.game ≡ r
        → Ledger rt
        → Ledger (on_game call rt).0
    go rt (ok (game, a)) q v = rw (on_game, q) v
    go rt (err x) q v = rw (on_game, q) v

pub emit-Keeps : (event : Event) → Keeps (emit event)
emit-Keeps event = record { sustains = λ rt v. v }

pub emit_all-Keeps : (events : List Event) → Keeps (emit_all events)
emit_all-Keeps events = record { sustains = λ rt v. v }

pub next_draw-Keeps : Keeps next_draw
next_draw-Keeps = record { sustains = λ rt v. v }

pub next_token_id-Keeps : Keeps next_token_id
unfolding next_token_id
next_token_id-Keeps = record { sustains = λ rt v. v }

pub cancel_timer-Keeps : Keeps cancel_timer
unfolding cancel_timer
cancel_timer-Keeps = record { sustains = λ rt v. v }

schedule_timer-Keeps : (kind : TimerKind) (duration : ℕ) → Keeps (schedule_timer kind duration)
unfolding schedule_timer cancel_timer
schedule_timer-Keeps kind duration = record {
  sustains = λ rt v.
      one_of-Ledger rt.cpu_controlled (cancel_timer rt).0
        (record (cancel_timer rt).0 { timer_kind = kind; timer_deadline = rt.now + duration }) v v;
}

pub schedule_throw_timer-Keeps : Keeps schedule_throw_timer
unfolding schedule_throw_timer
schedule_throw_timer-Keeps = record {
  sustains = λ rt v. (schedule_timer-Keeps timer_throw _).sustains rt v;
}

pub schedule_move_timer-Keeps : Keeps schedule_move_timer
unfolding schedule_move_timer
schedule_move_timer-Keeps = record {
  sustains = λ rt v. (schedule_timer-Keeps timer_move _).sustains rt v;
}

pub stage_turn_started-Keeps : Keeps stage_turn_started
unfolding stage_turn_started
stage_turn_started-Keeps = record { sustains = λ rt v. v }

pub stage_yut_result-Keeps : (token : ResultToken) → Keeps (stage_yut_result token)
unfolding stage_yut_result
stage_yut_result-Keeps token = record { sustains = λ rt v. v }

pub stage_result_queue_updated-Keeps : Keeps stage_result_queue_updated
unfolding stage_result_queue_updated
stage_result_queue_updated-Keeps = record { sustains = λ rt v. v }

pub stage_move_selection-Keeps :
    (token : ResultTokenId) (piece : PieceId) → Keeps (stage_move_selection token piece)
unfolding stage_move_selection
stage_move_selection-Keeps token piece = record { sustains = λ rt v. v }

pub stage_move_outcome_events-Keeps :
    (outcome : MoveOutcome) → Keeps (stage_move_outcome_events outcome)
unfolding stage_move_outcome_events
stage_move_outcome_events-Keeps outcome = record { sustains = λ rt v. v }

pub finish_match-Keeps : Keeps finish_match
unfolding finish_match cancel_timer
finish_match-Keeps = record { sustains = λ rt v. v }

pub ruleset parts = (
  modify-Keeps, >>=-Sustains, if-Sustains, pure-Sustains, lift-Sustains, reads-Sustains,
  guard-Sustains, wrapped-Keeps, next_draw-Keeps, emit-Keeps, emit_all-Keeps, cancel_timer-Keeps,
  schedule_throw_timer-Keeps, schedule_move_timer-Keeps, stage_turn_started-Keeps,
  stage_result_queue_updated-Keeps, stage_yut_result-Keeps, stage_move_selection-Keeps,
  stage_move_outcome_events-Keeps, finish_match-Keeps, next_token_id-Keeps, on_machine-Keeps,
  on_game-Keeps,
)

pub perform_throw-Keeps : Keeps perform_throw
unfolding perform_throw throw_result
perform_throw-Keeps = search parts depth 20

pub after_queue_resolved-Keeps : Keeps after_queue_resolved
unfolding after_queue_resolved
after_queue_resolved-Keeps = search parts depth 10
