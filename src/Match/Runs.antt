-- ===== src/Match/Runs.antt =====
-- A match, from its start through any movements: internal/domain/match/ordinary_movement.go,
-- backdo_movement.go and buk_movement.go on one game. A movement that is refused leaves the game. The
-- source of random numbers has a state of its own: each Buk brings what the source answers to it,
-- and a Buk draws once at most.
pub mod Winner
pub mod Ends
pub mod Opening
use buk_yutnori.Prelude.{ℕ, none, some, ◌≡◌, ◌≢◌, refl, sym, true, List, [], ◌∷◌, subst}
use buk_yutnori.Prelude.Result.{Result, ok, err}
use buk_yutnori.Domain.{Error, PieceId, TeamId, YutResult, Route}
use buk_yutnori.Room.Settings.{Settings}
use buk_yutnori.Board.Types.{Graph, known}
use buk_yutnori.Board.Forward.Shape.{IsSound}
use buk_yutnori.Board.Backdo.Reversal.{IsClosed}
use buk_yutnori.Match.Types.{TeamSetup}
use buk_yutnori.Match.BukDestination.{RandomSource, validate_buk_destination}
use buk_yutnori.Match.Game.{Game, new_game}
use buk_yutnori.Match.Movement.{apply_ordinary_move, apply_backdo_move}
use buk_yutnori.Match.Buk.{resolve_buk}
use buk_yutnori.Match.Buk.Resolved.{resolve_buk-Inv, resolve_buk-planner}
use buk_yutnori.Match.Invariant.{Inv}
use buk_yutnori.Match.Invariant.Forward.{apply_ordinary_move-Inv, apply_ordinary_move-planner}
use buk_yutnori.Match.Invariant.Backward.{apply_backdo_move-Inv, apply_backdo_move-planner}
use buk_yutnori.Match.Invariant.Start.{new_game-Inv, new_game-planner}

pub data Movement : Type 0 where
  forward : TeamId → PieceId → YutResult → Route → Movement
  backdo : TeamId → PieceId → Movement
  buk : (ℕ → ℕ) → TeamId → Movement

-- The game that a call leaves: the new one, or the old one when the call returns an error.
abbrev pub after : {A : Type 0} → Game → Result Error (Game × A) → Game
after game (ok (game', _)) = game'
after game (err _) = game

-- The source of a game, if it has one, with the answers to the next call.
abbrev pub redrawn : Game → (ℕ → ℕ) → Game
redrawn game draw = record game {
  random_source = elim game.random_source [ none ↦ none | some _ ↦ some draw ];
}

unfoldable pub move : Game → Movement → Game
move game (forward team id result route) =
    after game (apply_ordinary_move game team id result route)
move game (backdo team id) = after game (apply_backdo_move game team id)
move game (buk draw team) = after game (resolve_buk (redrawn game draw) team)

unfoldable pub play : Game → List Movement → Game
play game [] = game
play game (m ∷ ms) = play (move game m) ms

-- A board on which the movements keep their promises.
pub record IsPlayable (g : Graph) : Type 0 where
  pub sound : IsSound g
  pub closed : IsClosed g
  pub start_known : known g g.start_space ≡ true

after-Inv :
    {A : Type 0} (game : Game) (r : Result Error (Game × A))
    → Inv game
    → ((game' : Game) (a : A) → r ≡ ok (game', a) → Inv game')
    → Inv (after game r)
after-Inv game (ok (game', a)) v keeps = keeps game' a refl
after-Inv game (err e) v keeps = v

move-Inv : (game : Game) (m : Movement) → IsPlayable game.planner → Inv game → Inv (move game m)
unfolding move
move-Inv game (forward team id result route) p v =
    after-Inv game (apply_ordinary_move game team id result route) v
      (λ g o. apply_ordinary_move-Inv game team id result route p.sound p.closed p.start_known v)
move-Inv game (backdo team id) p v =
    after-Inv game (apply_backdo_move game team id) v (λ g o. apply_backdo_move-Inv game team id v)
move-Inv game (buk draw team) p v = after-Inv game (resolve_buk (redrawn game draw) team) v (λ g o.
    resolve_buk-Inv (redrawn game draw) team (record { target = v.target; placed = v.placed }))

after-planner :
    {A : Type 0} (game : Game) (r : Result Error (Game × A))
    → ((game' : Game) (a : A) → r ≡ ok (game', a) → game'.planner ≡ game.planner)
    → (after game r).planner ≡ game.planner
after-planner game (ok (game', a)) keeps = keeps game' a refl
after-planner game (err e) keeps = refl

move-planner : (game : Game) (m : Movement) → (move game m).planner ≡ game.planner
unfolding move
move-planner game (forward team id result route) =
    after-planner game (apply_ordinary_move game team id result route)
      (λ g o. apply_ordinary_move-planner game team id result route)
move-planner game (backdo team id) =
    after-planner game (apply_backdo_move game team id)
      (λ g o. apply_backdo_move-planner game team id)
move-planner game (buk draw team) =
    after-planner game (resolve_buk (redrawn game draw) team)
      (λ g o. resolve_buk-planner (redrawn game draw) team)

play-Inv :
    (game : Game) (ms : List Movement) → IsPlayable game.planner → Inv game → Inv (play game ms)
unfolding play
play-Inv game [] p v = v
play-Inv game (m ∷ ms) p v =
    play-Inv (move game m) ms (subst IsPlayable (sym (move-planner game m)) p) (move-Inv game m p v)

-- From a new match on a board that is sound and closed with a known start, and whose home
-- checkpoint is no destination of Buk, any movements, forward, Backdo and Buk, made or refused,
-- leave every piece placed, whatever the source of random numbers answers to each: off the board
-- with no history, or on a space of the board in its state, with a space of the board as its
-- history or none.
pub played-Inv :
    (planner : Graph) (settings : Settings) (teams : List TeamSetup) (source : RandomSource)
    (ms : List Movement) {game : Game}
    → IsPlayable planner
    → validate_buk_destination planner planner.home_checkpoint_space ≢ ok tt
    → new_game planner settings teams source ≡ ok game
    → Inv (play game ms)
played-Inv planner settings teams source ms {game} p away h =
    let same = new_game-planner planner settings teams source h in
    play-Inv game ms (subst IsPlayable (sym same) p)
      (new_game-Inv planner settings teams source away h)
