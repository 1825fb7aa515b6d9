-- ===== src/Flow/Invariant.antt =====
-- What holds of a running match between two commands, and how the calls of the turn machine keep it.
pub mod Movements
pub mod Steps
pub mod Applied
pub mod Turns
pub mod Loops
pub mod Commands
use buk_yutnori.Prelude.{
  ◌≡◌, ◌≢◌, refl, sym, ap, subst, Bool, true, false, none, some, ◌⊎◌, inl, inr, Bool-cases, arith,
  String, string_eq,
}
use buk_yutnori.Prelude.Result.{Result, ok, err, Result-cases}
use buk_yutnori.Domain.{
  Error, ResultTokenId, TurnPhase, turn_start, turn_match_end, turn_resolve_stack_capture_finish,
  turn_resolve_buk, turn_wait_throw, turn_apply_move, input_none, origin_other,
}
use buk_yutnori.Turn.Machine.{
  Machine, Call, starts, begins_throw, completes_move, completes_buk, applies_move, MoveOutcome,
  BukOutcome, step, move_applied, complete_move, complete_buk, validate_move_outcome,
  validate_buk_outcome,
}
use buk_yutnori.Turn.Machine.Steps.{
  Step, begin_turn, throwing, queue_full, stays_capped, yut_extra, mo_extra, last_throw, drained,
  buk_next, move_next, ask_route, select, route, apply_move, discard, complete_move_step,
  no_candidate, complete_buk_step, moved,
}
use buk_yutnori.Turn.Machine.Refines.{step_sound, step_complete}
use buk_yutnori.Turn.Machine.Atomic.{step_failed}
use buk_yutnori.Turn.Machine.Invariant as Turn
use buk_yutnori.Turn.Machine.Invariant.{Step-Inv}
use buk_yutnori.Turn.Machine.Progress.{complete_move_succeeds, complete_buk_succeeds}
use buk_yutnori.Match.Game.{Game}
use buk_yutnori.Match.Invariant as Match
use buk_yutnori.Match.Runs.{IsPlayable}
use buk_yutnori.Match.Runs.Winner.{Decided}
use buk_yutnori.Flow.Runtime.{Runtime}

-- The game on its own.
pub record SoundGame (game : Game) : Type 0 where
  pub playable : IsPlayable game.planner
  pub placed : Match.Inv game
  pub decided : Decided game

-- The turn and the game, and their agreement on whether the match is over.
pub record Sound (m : Machine) (game : Game) : Type 0 where
  pub turn : Turn.Inv m
  pub pieces : SoundGame game
  pub over : m.phase ≡ turn_match_end → game.winner_team_id ≢ none
  pub going : m.phase ≢ turn_match_end → game.winner_team_id ≡ none

abbrev pub Good : Runtime → Type 0
Good rt = Sound rt.machine rt.game

-- The calls that finish nothing on the board.
abbrev pub plain : Call → Bool
plain (completes_move _ _) = false
plain (completes_buk _ _) = false
plain _ = true

Playing : Machine → Machine → Type 0
Playing m m' = (m.phase ≢ turn_match_end) × (m'.phase ≢ turn_match_end)

plain-Playing : {m m' : Machine} {c : Call} → plain c ≡ true → Step m c m' → Playing m m'
unfolding Playing
plain-Playing k (begin_turn p) = ground arith
plain-Playing k (throwing p) = ground arith
plain-Playing k (queue_full r f) = let p = r.in_phase in ground arith
plain-Playing k (stays_capped r f c) = let p = r.in_phase in ground arith
plain-Playing k (yut_extra r f c y e) = let p = r.in_phase in ground arith
plain-Playing k (mo_extra r f c y e) = let p = r.in_phase in ground arith
plain-Playing k (last_throw r f n) = let p = r.in_phase in ground arith
plain-Playing k (drained p o g) = ground arith
plain-Playing k (buk_next p o g b) = ground arith
plain-Playing k (move_next p o g b) = ground arith
plain-Playing k (ask_route p o g) = ground arith
plain-Playing k (select p o g) = ground arith
plain-Playing k (route p s) = ground arith
plain-Playing k (apply_move p s) = ground arith
plain-Playing k (discard p n o t) = ground arith
plain-Playing k (complete_move_step p e w t) = absurd (ground arith)
plain-Playing k (no_candidate p e w t n) = absurd (ground arith)
plain-Playing k (complete_buk_step p e w t n) = absurd (ground arith)

-- A call that finishes nothing keeps the agreement, whether it is accepted or refused.
pub plain_call-Sound :
    (c : Call) (m : Machine) (game : Game) → plain c ≡ true → Sound m game → Sound (step c m).0 game
unfolding Playing
plain_call-Sound c m game k v = elim (Result-cases (step c m).1) [
  | inr (x, e) ↦ subst (λ m. Sound m game) (sym (step_failed c m x e)) v
  | inl (tt, e) ↦
      let s = step_sound c m e in
      let (before, after) = plain-Playing k s in
      record {
        turn = Step-Inv v.turn s;
        pieces = v.pieces;
        over = λ p. absurd (after p);
        going = λ _. v.going before;
      }
]

completed-Sound :
    {m m' : Machine} {game : Game} {id : ResultTokenId} {outcome : MoveOutcome}
    → Turn.Inv m
    → SoundGame game
    → (outcome.match_ended ≡ true → game.winner_team_id ≢ none)
    → (outcome.match_ended ≡ false → game.winner_team_id ≡ none)
    → Step m (completes_move id outcome) m'
    → Sound m' game
completed-Sound {m} {m'} {game} v w ended unfinished (complete_move_step {o = o} p e c t) =
    elim (Bool-cases o.match_ended) [
      | inl y ↦ record {
        turn = Step-Inv v (complete_move_step {o = o} p e c t);
        pieces = w;
        over = λ _. ended y;
        going = λ n. absurd (n (ground arith));
      }
      | inr y ↦ record {
        turn = Step-Inv v (complete_move_step {o = o} p e c t);
        pieces = w;
        over = λ q. absurd (ground arith);
        going = λ _. unfinished y;
      }
    ]

-- A move that is reported as the game has made it can be completed, and the turn agrees again.
pub move_completed :
    (m : Machine) (game : Game) (id : ResultTokenId) (outcome : MoveOutcome)
    → Turn.Inv m
    → SoundGame game
    → m.phase ≡ turn_apply_move
    → m.selected_id ≡ id
    → validate_move_outcome outcome ≡ ok tt
    → (outcome.match_ended ≡ true → game.winner_team_id ≢ none)
    → (outcome.match_ended ≡ false → game.winner_team_id ≡ none)
    → let applied = step (applies_move id) m in
      let completed = step (completes_move id outcome) applied.0 in
      (applied.1 ≡ ok tt) × (completed.1 ≡ ok tt) × Sound completed.0 game
unfolding step
move_completed m game id outcome v w p s k ended unfinished =
    let first = apply_move {id = id} p s in
    let after = moved m turn_resolve_stack_capture_finish input_none origin_other id in
    let inv = Step-Inv v first in
    let accepted = complete_move_succeeds after outcome inv refl k in
    let sound =
      completed-Sound {outcome = outcome} inv w ended unfinished
        (step_sound (completes_move id outcome) after accepted) in
    rw (step_complete first) (refl, accepted, sound)

buk_Playing :
    {m m' : Machine} {id : ResultTokenId} {outcome : BukOutcome}
    → Step m (completes_buk id outcome) m'
    → outcome.match_ended ≡ false
    → m'.phase ≢ turn_match_end
buk_Playing (no_candidate p e w t n) k q = ground arith
buk_Playing (complete_buk_step p e w t n) k q = ground arith

-- A Buk that ends nothing can be completed, and the turn agrees again.
pub buk_completed :
    (m : Machine) (game : Game) (outcome : BukOutcome)
    → Turn.Inv m
    → SoundGame game
    → m.phase ≡ turn_resolve_buk
    → validate_buk_outcome outcome ≡ ok tt
    → outcome.match_ended ≡ false
    → game.winner_team_id ≡ none
    → let completed = step (completes_buk m.selected_id outcome) m in
      (completed.1 ≡ ok tt) × Sound completed.0 game
unfolding step
buk_completed m game outcome v w p k n nobody =
    let accepted = complete_buk_succeeds m outcome v p k in
    let s = step_sound (completes_buk m.selected_id outcome) m accepted in
    (
      accepted,
      record {
        turn = Step-Inv v s;
        pieces = w;
        over = λ e. absurd (buk_Playing s n e);
        going = λ _. nobody;
      },
    )
