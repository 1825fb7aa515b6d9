-- ===== src/Flow/Invariant/Steps.antt =====
-- The parts of a turn keep the agreement of the turn and the game: throws, queue, Buk and moves.
use buk_yutnori.Prelude.{
  ℕ, ◌≡◌, refl, sym, subst, Bool, true, false, some, inl, inr, Bool-cases, arith, if◌then◌else◌,
  List,
}
use buk_yutnori.Prelude.Result.{Result, ok, err}
use buk_yutnori.Prelude.Exec.{◌>>=◌, pure, modify}
use buk_yutnori.Prelude.Exec.Atomic.{bind_ok, bind_err}
use buk_yutnori.Prelude.Exec.Keeps.{
  Sustains, >>=-Sustains, if-Sustains, pure-Sustains, lift-Sustains, reads-Sustains, guard-Sustains,
}
use buk_yutnori.Domain.{Error, ResultTokenId, PieceId, phase_eq}
use buk_yutnori.Turn.Token.{ResultToken}
use buk_yutnori.Turn.Machine.{
  Machine, Call, starts, begins_throw, records_throw, resolves_queue, discards, selects_move,
  selects_route, step, start, begin_throw, record_throw, resolve_queue, discard_unusable_result,
  select_move, route_selected,
}
use buk_yutnori.Match.Game.{Game}
use buk_yutnori.Flow.Events.{Event}
use buk_yutnori.Flow.Runtime.{
  Runtime, Method, TimerKind, timer_throw, timer_move, emit, emit_all, on_machine, wrapped,
  next_draw, next_token_id, cancel_timer, schedule_timer, schedule_throw_timer, schedule_move_timer,
}
use buk_yutnori.Flow.Resolution.{
  throw_result, perform_throw, stage_yut_result, stage_result_queue_updated, stage_turn_started,
  stage_move_selection, finish_match, after_queue_resolved,
}
use buk_yutnori.Flow.Invariant.{SoundGame, Sound, Good, plain, plain_call-Sound}

-- A method that keeps the agreement, whether it succeeds or fails.
abbrev pub Keeps : {A : Type 0} → Method A → Type 0
Keeps m = Sustains Good m

-- Another source of random numbers changes nothing of the game.
redrawn-SoundGame :
    (game : Game) (source : _) → SoundGame game → SoundGame (record game { random_source = source })
redrawn-SoundGame game source v =
    let placed = v.placed in
    let decided = v.decided in
    record {
      playable = v.playable;
      placed = record { target = placed.target; placed = placed.placed };
      decided = record { undecided = decided.undecided; won = decided.won };
    }

redrawn : (rt : Runtime) → Good rt → Good (next_draw rt).0
redrawn rt v = record {
  turn = v.turn;
  pieces = redrawn-SoundGame rt.game (some (rt.draws 0)) v.pieces;
  over = v.over;
  going = v.going;
}

-- Either of two ways.
pub either-Good :
    {B : Type 0} (b : Bool) (x y : Runtime × B) → Good x.0 → Good y.0 → Good (if b then x else y).0
either-Good true x y p q = p
either-Good false x y p q = q

pub one_of-Good : (b : Bool) (s t : Runtime) → Good s → Good t → Good (if b then s else t)
one_of-Good true s t p q = p
one_of-Good false s t p q = q

pub modify-Keeps :
    (change : Runtime → Runtime)
    → ((rt : Runtime) → Good rt → Good (change rt))
    → Keeps (modify change)
modify-Keeps change h = record { sustains = h }

wrapped_state :
    {A : Type 0} (e : Error) (call : Method A) (rt : Runtime) → (wrapped e call rt).0 ≡ (call rt).0
wrapped_state {A} e call rt = go (call rt).1 refl
  where
    go : (r : Result Error A) → (call rt).1 ≡ r → (wrapped e call rt).0 ≡ (call rt).0
    go (ok a) k = rw (wrapped, k) refl
    go (err x) k = rw (wrapped, k) refl

pub wrapped-Keeps : {A : Type 0} (e : Error) (call : Method A) → Keeps call → Keeps (wrapped e call)
wrapped-Keeps e call k = record {
  sustains = λ rt v. subst Good (sym (wrapped_state e call rt)) (k.sustains rt v);
}

-- A call that must succeed before the rest is reached.
pub then-Good :
    {B : Type 0} (call : Method (Unit {0})) (rest : Method B) (rt : Runtime)
    → Good (call rt).0
    → ((call rt).1 ≡ ok tt → Good (rest (call rt).0).0)
    → Good ((call >>= λ _. rest) rt).0
then-Good {B} call rest rt v h = go (call rt).1 refl
  where
    Leaves : Runtime × Result Error B → Type 0
    Leaves r = Good r.0

    go : (r : Result Error (Unit {0})) → (call rt).1 ≡ r → Good ((call >>= λ _. rest) rt).0
    go (ok u) k = subst Leaves (sym (bind_ok call (λ _. rest) rt u k)) (h k)
    go (err x) k = subst Leaves (sym (bind_err call (λ _. rest) rt x k)) v

pub wrapped_then-Good :
    {B : Type 0} (e : Error) (call : Method (Unit {0})) (rest : Method B) (rt : Runtime)
    → Good (call rt).0
    → ((call rt).1 ≡ ok tt → Good (rest (call rt).0).0)
    → Good ((wrapped e call >>= λ _. rest) rt).0
wrapped_then-Good {B} e call rest rt v h =
    let same = wrapped_state e call rt in
    then-Good (wrapped e call) rest rt (subst Good (sym same) v)
      (λ k. subst (λ s. Good (rest s).0) (sym same) (h (accepted (call rt).1 refl k)))
  where
    fails : (x : Error) → (call rt).1 ≡ err x → (wrapped e call rt).1 ≡ err e
    fails x k = rw (wrapped, k) refl

    accepted :
        (r : Result Error (Unit {0})) → (call rt).1 ≡ r → (wrapped e call rt).1 ≡ ok tt → r ≡ ok tt
    accepted (ok u) k w = refl
    accepted (err x) k w = let f = fails x k in absurd (ground arith)

pub next_draw-Keeps : Keeps next_draw
next_draw-Keeps = record { sustains = λ rt v. redrawn rt v }

pub plain-Keeps : (c : Call) → plain c ≡ true → Keeps (on_machine (step c))
plain-Keeps c k = record { sustains = λ rt v. plain_call-Sound c rt.machine rt.game k v }

pub emit-Keeps : (event : Event) → Keeps (emit event)
emit-Keeps event = record { sustains = λ rt v. v }

pub cancel_timer-Keeps : Keeps cancel_timer
unfolding cancel_timer
cancel_timer-Keeps = record { sustains = λ rt v. v }

pub schedule_timer-Keeps : (kind : TimerKind) (duration : ℕ) → Keeps (schedule_timer kind duration)
unfolding schedule_timer cancel_timer
schedule_timer-Keeps kind duration = record {
  sustains = λ rt v. elim (Bool-cases rt.cpu_controlled) [ inl e ↦ rw e v | inr e ↦ rw e v ];
}

pub schedule_throw_timer-Keeps : Keeps schedule_throw_timer
unfolding schedule_throw_timer
schedule_throw_timer-Keeps = record {
  sustains = λ rt v. (schedule_timer-Keeps timer_throw _).sustains rt v;
}

pub schedule_move_timer-Keeps : Keeps schedule_move_timer
unfolding schedule_move_timer
schedule_move_timer-Keeps = record {
  sustains = λ rt v. (schedule_timer-Keeps timer_move _).sustains rt v;
}

pub stage_turn_started-Keeps : Keeps stage_turn_started
unfolding stage_turn_started
stage_turn_started-Keeps = record { sustains = λ rt v. v }

pub stage_yut_result-Keeps : (token : ResultToken) → Keeps (stage_yut_result token)
unfolding stage_yut_result
stage_yut_result-Keeps token = record { sustains = λ rt v. v }

pub stage_result_queue_updated-Keeps : Keeps stage_result_queue_updated
unfolding stage_result_queue_updated
stage_result_queue_updated-Keeps = record { sustains = λ rt v. v }

next_token_id-Keeps : Keeps next_token_id
unfolding next_token_id
next_token_id-Keeps = record { sustains = λ rt v. v }

begin_throw_state : (m : Machine) → (begin_throw m).0 ≡ (step begins_throw m).0
unfolding step
begin_throw_state m = go (begin_throw m).1 refl
  where
    go : (r : _) → (begin_throw m).1 ≡ r → (begin_throw m).0 ≡ ((begin_throw >>= λ o. pure tt) m).0
    go (ok o) e = rw (bind_ok begin_throw (λ o. pure tt) m o e) refl
    go (err x) e = rw (bind_err begin_throw (λ o. pure tt) m x e) refl

begin_throw-Keeps : Keeps (on_machine begin_throw)
begin_throw-Keeps = record {
  sustains = λ rt v.
      subst (λ m. Sound m rt.game) (sym (begin_throw_state rt.machine))
        (plain_call-Sound begins_throw rt.machine rt.game refl v);
}

record_throw-Keeps : (token : ResultToken) → Keeps (on_machine (record_throw token))
unfolding step
record_throw-Keeps token = plain-Keeps (records_throw token) refl

ruleset throws = (
  >>=-Sustains, if-Sustains, pure-Sustains, lift-Sustains, reads-Sustains, wrapped-Keeps,
  next_draw-Keeps, schedule_throw_timer-Keeps, stage_turn_started-Keeps, stage_yut_result-Keeps,
  stage_result_queue_updated-Keeps, next_token_id-Keeps, begin_throw-Keeps, record_throw-Keeps,
)

pub perform_throw-Keeps : Keeps perform_throw
unfolding perform_throw throw_result
perform_throw-Keeps = search throws depth 20

pub start-Keeps : Keeps (on_machine start)
unfolding step
start-Keeps = plain-Keeps starts refl

pub resolve_queue-Keeps : Keeps (on_machine resolve_queue)
unfolding step
resolve_queue-Keeps = plain-Keeps resolves_queue refl

pub discard-Keeps : (id : ResultTokenId) → Keeps (on_machine (discard_unusable_result id))
unfolding step
discard-Keeps id = plain-Keeps (discards id) refl

pub select_move-Keeps :
    (id : ResultTokenId) (required : Bool) → Keeps (on_machine (select_move id required))
unfolding step
select_move-Keeps id required = plain-Keeps (selects_move id required) refl

pub route_selected-Keeps : (id : ResultTokenId) → Keeps (on_machine (route_selected id))
unfolding step
route_selected-Keeps id = plain-Keeps (selects_route id) refl

pub emit_all-Keeps : (events : List Event) → Keeps (emit_all events)
emit_all-Keeps events = record { sustains = λ rt v. v }

pub stage_move_selection-Keeps :
    (token : ResultTokenId) (piece : PieceId) → Keeps (stage_move_selection token piece)
unfolding stage_move_selection
stage_move_selection-Keeps token piece = record { sustains = λ rt v. v }

pub finish_match-Keeps : Keeps finish_match
unfolding finish_match cancel_timer
finish_match-Keeps = record { sustains = λ rt v. v }

pub after_queue_resolved-Keeps : Keeps after_queue_resolved
unfolding after_queue_resolved
after_queue_resolved-Keeps =
    search (>>=-Sustains, if-Sustains, pure-Sustains, reads-Sustains, schedule_move_timer-Keeps)
      depth 12

pub ruleset parts = (
  modify-Keeps, >>=-Sustains, if-Sustains, pure-Sustains, lift-Sustains, reads-Sustains,
  guard-Sustains, wrapped-Keeps, next_draw-Keeps, emit-Keeps, emit_all-Keeps, cancel_timer-Keeps,
  schedule_throw_timer-Keeps, stage_turn_started-Keeps, stage_result_queue_updated-Keeps,
  stage_move_selection-Keeps, finish_match-Keeps, start-Keeps, resolve_queue-Keeps, discard-Keeps,
  select_move-Keeps, route_selected-Keeps, after_queue_resolved-Keeps, perform_throw-Keeps,
)
