-- ===== src/Flow/Invariant/Movements.antt =====
-- The movements of a game and what they report to the turn.
use buk_yutnori.Prelude.{◌≡◌, ◌≢◌, sym, subst, true, false, none, arith}
use buk_yutnori.Prelude.Result.{ok, >>=-eq-ok}
use buk_yutnori.Domain.{PieceId, TeamId, YutResult, yut_backdo, Route, route_empty, movement_backdo}
use buk_yutnori.Turn.Machine.{validate_move_outcome}
use buk_yutnori.Match.Types.{MoveOutcome, turn_outcome}
use buk_yutnori.Match.Game.{Game}
use buk_yutnori.Match.Resolution.{
  MoveResolutionPlan, apply_move_resolution, apply_ordinary_move_plan,
}
use buk_yutnori.Match.Resolution.Pieces.{turn_outcome-valid}
use buk_yutnori.Match.Movement.{
  still_open, ordinary_move_plans, select_ordinary_move_plan, apply_ordinary_move, backdo_move_plan,
  apply_backdo_move,
}
use buk_yutnori.Match.Buk.{BukOutcome, resolve_buk}
use buk_yutnori.Match.Buk.Resolved.{open-none, resolve_buk-Inv, resolve_buk-planner}
use buk_yutnori.Match.Invariant.Forward.{apply_ordinary_move-Inv, apply_ordinary_move-planner}
use buk_yutnori.Match.Invariant.Backward.{apply_backdo_move-Inv, apply_backdo_move-planner}
use buk_yutnori.Match.Runs.{IsPlayable}
use buk_yutnori.Match.Runs.Ends.{ordinary-Decided, backdo-Decided, buk-Decided}
use buk_yutnori.Flow.Invariant.{SoundGame}

-- A movement of a game that nobody has won, with what it tells the turn.
pub record Reported (game : Game) (outcome : MoveOutcome) : Type 0 where
  pub consistent : validate_move_outcome (turn_outcome outcome) ≡ ok tt
  pub ended : outcome.match_ended ≡ true → game.winner_team_id ≢ none
  pub unfinished : outcome.match_ended ≡ false → game.winner_team_id ≡ none

resolution-Reported :
    (game : Game) (team : TeamId) (id : PieceId) (result : YutResult) (plan : MoveResolutionPlan)
    → game.winner_team_id ≡ none
    → let (after, outcome) = apply_move_resolution game team id result plan in
      Reported after outcome
unfolding apply_move_resolution
resolution-Reported game team id result plan w = record {
  consistent = turn_outcome-valid game team id result plan;
  ended = λ e n. ground arith;
  unfinished = λ e. ground arith;
}

pub ordinary-Reported :
    (game : Game) (team : TeamId) (id : PieceId) (result : YutResult) (route : Route) {game' : Game}
    {outcome : MoveOutcome}
    → apply_ordinary_move game team id result route ≡ ok (game', outcome)
    → Reported game' outcome
unfolding apply_ordinary_move apply_ordinary_move_plan ordinary_move_plans
ordinary-Reported game team id result route {game'} {outcome} h =
    let ((plans, moving), made, h1) = >>=-eq-ok (ordinary_move_plans game team id result) _ h in
    let (plan, chosen, h2) = >>=-eq-ok (select_ordinary_move_plan plans route) _ h1 in
    let (_, o, _) = >>=-eq-ok (still_open game) _ made in
    let same : apply_ordinary_move_plan game team id result plan moving ≡ (game', outcome) =
      ground arith in
    subst (λ (x : Game × MoveOutcome). Reported x.0 x.1) same
      (resolution-Reported game team id result _ (open-none game o))

pub backdo-Reported :
    (game : Game) (team : TeamId) (id : PieceId) {game' : Game} {outcome : MoveOutcome}
    → apply_backdo_move game team id ≡ ok (game', outcome)
    → Reported game' outcome
unfolding apply_backdo_move backdo_move_plan
backdo-Reported game team id {game'} {outcome} h =
    let ((plan, moving), made, h1) = >>=-eq-ok (backdo_move_plan game team id) _ h in
    let (_, o, _) = >>=-eq-ok (still_open game) _ made in
    let resolution : MoveResolutionPlan = record {
      route = route_empty;
      movement_kind = movement_backdo;
      destination_state = plan.destination_state;
      destination_space_id = plan.destination_space_id;
      actual_previous_space = plan.actual_previous_space;
      moving_indices = moving;
    } in
    let same : apply_move_resolution game team id yut_backdo resolution ≡ (game', outcome) =
      ground arith in
    subst (λ (x : Game × MoveOutcome). Reported x.0 x.1) same
      (resolution-Reported game team id yut_backdo resolution (open-none game o))

pub ordinary-SoundGame :
    (game : Game) (team : TeamId) (id : PieceId) (result : YutResult) (route : Route) {game' : Game}
    {outcome : MoveOutcome}
    → SoundGame game
    → apply_ordinary_move game team id result route ≡ ok (game', outcome)
    → SoundGame game'
ordinary-SoundGame game team id result route {game'} {outcome} v h =
    let p = v.playable in
    record {
      playable = subst IsPlayable (sym (apply_ordinary_move-planner game team id result route h)) p;
      placed =
          apply_ordinary_move-Inv game team id result route p.sound p.closed p.start_known v.placed
            h;
      decided = ordinary-Decided game team id result route game' outcome v.decided h;
    }

pub backdo-SoundGame :
    (game : Game) (team : TeamId) (id : PieceId) {game' : Game} {outcome : MoveOutcome}
    → SoundGame game
    → apply_backdo_move game team id ≡ ok (game', outcome)
    → SoundGame game'
backdo-SoundGame game team id {game'} {outcome} v h = record {
  playable = subst IsPlayable (sym (apply_backdo_move-planner game team id h)) v.playable;
  placed = apply_backdo_move-Inv game team id v.placed h;
  decided = backdo-Decided game team id game' outcome v.decided h;
}

pub buk-SoundGame :
    (game : Game) (team : TeamId) {game' : Game} {outcome : BukOutcome}
    → SoundGame game
    → resolve_buk game team ≡ ok (game', outcome)
    → SoundGame game'
buk-SoundGame game team {game'} {outcome} v h = record {
  playable = subst IsPlayable (sym (resolve_buk-planner game team h)) v.playable;
  placed = resolve_buk-Inv game team v.placed h;
  decided = buk-Decided game team game' outcome v.decided h;
}
