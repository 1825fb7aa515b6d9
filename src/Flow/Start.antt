-- ===== src/Flow/Start.antt =====
-- A match from its start: the first turn is begun on a new game.
use buk_yutnori.Prelude.{
  ◌≡◌, ◌≢◌, sym, subst, none, List, [], ℕ, arith, not, ◌&&◌, ◌==◌, nat_eq, length, contains,
}
use buk_yutnori.Prelude.Result.{ok, >>=-eq-ok, guard}
use buk_yutnori.Domain.{invalid_game_config, team_a, team_b, team_eq}
use buk_yutnori.Room.Settings
use buk_yutnori.Room.Settings.{Settings}
use buk_yutnori.Board.Types.{Graph}
use buk_yutnori.Turn.Machine.{Machine, new_machine}
use buk_yutnori.Match.Types.{TeamSetup}
use buk_yutnori.Match.Game.{Game, new_game, wrap_config, has_source, add_teams, config_of}
use buk_yutnori.Match.BukDestination.{
  RandomSource, initial_buk_destination, validate_buk_destination,
}
use buk_yutnori.Match.Invariant.Start.{new_game-Inv, new_game-planner}
use buk_yutnori.Match.Runs.{IsPlayable}
use buk_yutnori.Match.Runs.Opening.{new_game-Decided}
use buk_yutnori.Flow.Runtime.{Runtime, current_player}
use buk_yutnori.Flow.Tasks.{run_task}
use buk_yutnori.Flow.Commands.{World, Command, start_match_broadcasts, play}
use buk_yutnori.Flow.Invariant.{SoundGame, Good}
use buk_yutnori.Flow.Invariant.Turns.{begin_new-Good}
use buk_yutnori.Flow.Invariant.Loops.{run_task-Keeps}
use buk_yutnori.Flow.Invariant.Commands.{play-Sound}

new_game-SoundGame :
    (planner : Graph) (settings : Settings) (teams : List TeamSetup) (source : RandomSource)
    {game : Game}
    → IsPlayable planner
    → validate_buk_destination planner planner.home_checkpoint_space ≢ ok tt
    → new_game planner settings teams source ≡ ok game
    → SoundGame game
new_game-SoundGame planner settings teams source p away h = record {
  playable = subst IsPlayable (sym (new_game-planner planner settings teams source h)) p;
  placed = new_game-Inv planner settings teams source away h;
  decided = new_game-Decided planner settings teams source h;
}

new_game_open :
    (planner : Graph) (settings : Settings) (teams : List TeamSetup) (source : RandomSource)
    {game : Game}
    → new_game planner settings teams source ≡ ok game
    → game.winner_team_id ≡ none
unfolding new_game
new_game_open planner settings teams source h =
    let (_, _, h1) = >>=-eq-ok (wrap_config (Settings.validate settings)) _ h in
    let (_, _, h2) = >>=-eq-ok (guard (length teams == 2) invalid_game_config) _ h1 in
    let (_, _, h3) =
      >>=-eq-ok
        (guard (not (settings.buk_mode_enabled && not (has_source source))) invalid_game_config) _
        h2 in
    let ((seen, pieces), _, h4) = >>=-eq-ok (add_teams settings [] [] teams) _ h3 in
    let (_, _, h5) =
      >>=-eq-ok (guard (contains seen team_a && contains seen team_b) invalid_game_config) _ h4 in
    let (_, _, h6) = >>=-eq-ok (config_of (initial_buk_destination planner settings source)) _ h5 in
    ground arith

-- From a new game on a board that is sound and closed with a known start, and whose home checkpoint
-- is no destination of Buk, started with a player and settings that a turn can be made for: whatever
-- commands follow, refused ones included, with whatever the store and the source of random numbers
-- answer, and whatever number of rounds the loops may take, the turn and the game keep their
-- invariants, and the turn has ended the match exactly when the game has a winner.
pub started_play-Good :
    (planner : Graph) (settings : Settings) (teams : List TeamSetup) (source : RandomSource)
    (rt : Runtime) (fuel : ℕ) (commands : List (World × Command)) {m : Machine}
    → IsPlayable planner
    → validate_buk_destination planner planner.home_checkpoint_space ≢ ok tt
    → new_game planner settings teams source ≡ ok rt.game
    → new_machine (current_player rt) rt.settings ≡ ok m
    → Good (play fuel (start_match_broadcasts (run_task fuel) rt).0 commands)
unfolding start_match_broadcasts current_player
started_play-Good planner settings teams source rt fuel commands p away h n =
    play-Sound fuel _ commands (
      begin_new-Good (run_task fuel) (run_task-Keeps fuel) _
        (new_game-SoundGame planner settings teams source p away h)
        (new_game_open planner settings teams source h) n)
