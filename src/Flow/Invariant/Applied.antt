-- ===== src/Flow/Invariant/Applied.antt =====
-- The calls of the game that the flow makes: what they leave of the running match.
use buk_yutnori.Prelude.{◌≡◌, refl, inl, inr, Bool-cases, ◌==◌}
use buk_yutnori.Prelude.Result.{Result, ok, err, Result-cases}
use buk_yutnori.Domain.{Error, PieceId, YutResult, yut_backdo, yut_eq, Route}
use buk_yutnori.Match.Types.{MoveOutcome}
use buk_yutnori.Match.Game.{Game}
use buk_yutnori.Match.Movement.{apply_ordinary_move, apply_backdo_move}
use buk_yutnori.Flow.Runtime.{Runtime, on_game, current_team}
use buk_yutnori.Flow.Resolution.{apply_result}
use buk_yutnori.Flow.Invariant.{SoundGame}
use buk_yutnori.Flow.Invariant.Movements.{
  Reported, ordinary-Reported, backdo-Reported, ordinary-SoundGame, backdo-SoundGame,
}

-- A call of the game that succeeds changes the game alone; one that fails changes nothing.
pub data Called {A : Type 0} (call : Game → Result Error (Game × A)) (rt : Runtime) : Type 0 where
  made :
      (game : Game) (a : A)
      → call rt.game ≡ ok (game, a)
      → on_game call rt ≡ (record rt { game = game }, ok a)
      → Called call rt
  refused : (e : Error) → on_game call rt ≡ (rt, err e) → Called call rt

pub on_game_cases :
    {A : Type 0} (call : Game → Result Error (Game × A)) (rt : Runtime) → Called call rt
on_game_cases call rt = elim (Result-cases (call rt.game)) [
  | inl ((game, a), e) ↦ made game a e (rw (on_game, e) refl)
  | inr (x, e) ↦ refused x (rw (on_game, e) refl)
]

-- A movement that a player chose: it is made and reported, or refused.
pub data Applied (result : YutResult) (piece : PieceId) (way : Route) (rt : Runtime) : Type 0 where
  moved :
      (game : Game) (outcome : MoveOutcome)
      → apply_result result piece way rt ≡ (record rt { game = game }, ok outcome)
      → SoundGame game
      → Reported game outcome
      → Applied result piece way rt
  not_moved :
      (e : Error) → apply_result result piece way rt ≡ (rt, err e) → Applied result piece way rt

pub apply_result_cases :
    (result : YutResult) (piece : PieceId) (way : Route) (rt : Runtime)
    → SoundGame rt.game
    → Applied result piece way rt
apply_result_cases result piece way rt v =
    let team = current_team rt in
    elim (Bool-cases (result == yut_backdo)) [
      | inl b ↦ elim (on_game_cases (λ game. apply_backdo_move game team piece) rt) [
        | made game o h e ↦
            moved game o (rw (apply_result, b) e) (backdo-SoundGame rt.game team piece v h)
              (backdo-Reported rt.game team piece h)
        | refused x e ↦ not_moved x (rw (apply_result, b) e)
      ]
      | inr b ↦ elim (on_game_cases (λ game. apply_ordinary_move game team piece result way) rt) [
        | made game o h e ↦
            moved game o (rw (apply_result, b) e)
              (ordinary-SoundGame rt.game team piece result way v h)
              (ordinary-Reported rt.game team piece result way h)
        | refused x e ↦ not_moved x (rw (apply_result, b) e)
      ]
    ]
