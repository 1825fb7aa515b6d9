-- ===== src/Match/Runs/Opening.antt =====
-- A new match is undecided, and what follows from it.
use buk_yutnori.Prelude.{
  ◌≡◌, ◌<◌, refl, subst, true, false, not, ◌&&◌, List, [], ◌∷◌, ◌++◌, ◌==◌, string_eq, nat_eq,
  arith, inl, inr, contains, length,
}
use buk_yutnori.Prelude.Result.{Result, ok, err, guard, Result-cases, >>=-eq-ok}
use buk_yutnori.Domain.{
  Error, invalid_game_config, PieceId, TeamId, team_a, team_b, team_other, team_eq, TeamId-discrete,
  validate_team_id, validate_id, piece_state_eq,
}
use buk_yutnori.Room.Settings
use buk_yutnori.Room.Settings.{Settings}
use buk_yutnori.Room.Settings.Valid.{validate_iff}
use buk_yutnori.Board.Types.{Graph}
use buk_yutnori.Match.Types.{TeamSetup, Piece}
use buk_yutnori.Match.BukDestination.{RandomSource, initial_buk_destination}
use buk_yutnori.Match.Game.{
  Game, new_game, add_teams, add_pieces, waiting_piece, wrap_config, known_piece, has_source,
  config_of,
}
use buk_yutnori.Match.Movement.{apply_ordinary_move, apply_backdo_move}
use buk_yutnori.Match.Buk.{resolve_buk}
use buk_yutnori.Match.Resolution.{all_team_pieces_finished}
use buk_yutnori.Match.Runs.{Movement, forward, backdo, buk, after, redrawn, move, play}
use buk_yutnori.Match.Runs.Winner.{Decided}
use buk_yutnori.Match.Runs.Ends.{ordinary-Decided, backdo-Decided, buk-Decided}

all_finished-append :
    (ps qs : List Piece) (t : TeamId)
    → all_team_pieces_finished (ps ++ qs) t
      ≡ (all_team_pieces_finished ps t && all_team_pieces_finished qs t)
unfolding all_team_pieces_finished
all_finished-append [] qs t = refl
all_finished-append (p ∷ ps) qs t = ground (arith, all_finished-append ps qs t)

add_pieces-kept :
    (team : TeamId) (pieces : List Piece) (ids : List PieceId) {pieces' : List Piece} (t : TeamId)
    → add_pieces team pieces ids ≡ ok pieces'
    → all_team_pieces_finished pieces t ≡ false
    → all_team_pieces_finished pieces' t ≡ false
unfolding add_pieces
add_pieces-kept team pieces [] t h u = ground arith
add_pieces-kept team pieces (id ∷ ids) t h u =
    let (_, _, h1) = >>=-eq-ok (wrap_config (validate_id id)) _ h in
    let (_, _, h2) = >>=-eq-ok (guard (not (known_piece pieces id)) invalid_game_config) _ h1 in
    add_pieces-kept team (pieces ++ waiting_piece team id ∷ []) ids t h2
      (ground (arith, all_finished-append pieces (waiting_piece team id ∷ []) t))

waiting_unfinished :
    (team : TeamId) (id : PieceId)
    → all_team_pieces_finished (waiting_piece team id ∷ []) team ≡ false
unfolding all_team_pieces_finished
waiting_unfinished team id = ground arith

add_pieces-own :
    (team : TeamId) (pieces : List Piece) (ids : List PieceId) {pieces' : List Piece}
    → 0 < length ids
    → add_pieces team pieces ids ≡ ok pieces'
    → all_team_pieces_finished pieces' team ≡ false
unfolding add_pieces
add_pieces-own team pieces [] l h = absurd (ground arith)
add_pieces-own team pieces (id ∷ ids) l h =
    let (_, _, h1) = >>=-eq-ok (wrap_config (validate_id id)) _ h in
    let (_, _, h2) = >>=-eq-ok (guard (not (known_piece pieces id)) invalid_game_config) _ h1 in
    add_pieces-kept team (pieces ++ waiting_piece team id ∷ []) ids team h2 (
      ground (
        arith,
        all_finished-append pieces (waiting_piece team id ∷ []) team,
        waiting_unfinished team id,
      ))

Staffed : List TeamId → List Piece → Type 0
Staffed seen pieces =
    (t : TeamId) → contains seen t ≡ true → all_team_pieces_finished pieces t ≡ false

add_teams-Staffed :
    (settings : Settings) (seen : List TeamId) (pieces : List Piece) (setups : List TeamSetup)
    {seen' : List TeamId} {pieces' : List Piece}
    → 0 < settings.piece_count
    → Staffed seen pieces
    → add_teams settings seen pieces setups ≡ ok (seen', pieces')
    → Staffed seen' pieces'
unfolding add_teams Staffed
add_teams-Staffed settings seen pieces [] n s h = λ t c. let u = s t (ground arith) in ground arith
add_teams-Staffed settings seen pieces (setup ∷ setups) n s h =
    let team = setup.team_id in
    let (_, _, h1) = >>=-eq-ok (wrap_config (validate_team_id team)) _ h in
    let (_, _, h2) = >>=-eq-ok (guard (not (contains seen team)) invalid_game_config) _ h1 in
    let (_, count, h3) =
      >>=-eq-ok (guard (length setup.piece_ids == settings.piece_count) invalid_game_config) _ h2 in
    let (more, added, h4) = >>=-eq-ok (add_pieces team pieces setup.piece_ids) _ h3 in
    let same : length setup.piece_ids ≡ settings.piece_count = ground arith in
    let some_pieces : 0 < length setup.piece_ids = omega arith in
    add_teams-Staffed settings (team ∷ seen) more setups n
      (λ t c. elim (TeamId-discrete team t) [
        | yes e ↦
            subst (λ u. all_team_pieces_finished more u ≡ false) e
              (add_pieces-own team pieces setup.piece_ids some_pieces added)
        | no e ↦ add_pieces-kept team pieces setup.piece_ids t added (s t (ground arith))
      ])
      h4

settings_valid :
    (s : Settings) {u : Unit {0}}
    → wrap_config (Settings.validate s) ≡ ok u
    → Settings.validate s ≡ ok tt
settings_valid s v = elim (Result-cases (Settings.validate s)) [
  | inl (u, e) ↦ ground arith
  | inr (e, k) ↦ absurd (ground arith)
]

both_teams :
    (ps : List Piece) (t : TeamId)
    → validate_team_id t ≡ ok tt
    → all_team_pieces_finished ps team_a ≡ false
    → all_team_pieces_finished ps team_b ≡ false
    → all_team_pieces_finished ps t ≡ false
unfolding validate_team_id
both_teams ps team_a v a b = a
both_teams ps team_b v a b = b
both_teams ps team_other v a b = absurd (ground arith)

pub new_game-Decided :
    (planner : Graph) (settings : Settings) (teams : List TeamSetup) (source : RandomSource)
    {game : Game}
    → new_game planner settings teams source ≡ ok game
    → Decided game
unfolding new_game Staffed
new_game-Decided planner settings teams source {game} h =
    let (_, valid, h1) = >>=-eq-ok (wrap_config (Settings.validate settings)) _ h in
    let (_, _, h2) = >>=-eq-ok (guard (length teams == 2) invalid_game_config) _ h1 in
    let (_, _, h3) =
      >>=-eq-ok
        (guard (not (settings.buk_mode_enabled && not (has_source source))) invalid_game_config) _
        h2 in
    let ((seen, pieces), added, h4) = >>=-eq-ok (add_teams settings [] [] teams) _ h3 in
    let (_, both, h5) =
      >>=-eq-ok (guard (contains seen team_a && contains seen team_b) invalid_game_config) _ h4 in
    let (destination, _, h6) =
      >>=-eq-ok (config_of (initial_buk_destination planner settings source)) _ h5 in
    let allowed = (validate_iff settings).0 (settings_valid settings valid) in
    let count = allowed.pieces in
    let some_pieces : 0 < settings.piece_count = ground arith in
    let staffed =
      add_teams-Staffed settings [] [] teams some_pieces (λ t c. absurd (ground arith)) added in
    let a = staffed team_a (ground arith) in
    let b = staffed team_b (ground arith) in
    let same : pieces ≡ game.pieces = ground arith in
    record {
      undecided = λ w t v.
          subst (λ ps. all_team_pieces_finished ps t ≡ false) same (both_teams pieces t v a b);
      won = λ t w. absurd (ground arith);
    }

after-Decided :
    {A : Type 0} (game : Game) (r : Result Error (Game × A))
    → Decided game
    → ((game' : Game) (a : A) → r ≡ ok (game', a) → Decided game')
    → Decided (after game r)
after-Decided game (ok (game', a)) d keeps = keeps game' a refl
after-Decided game (err e) d keeps = d

move-Decided : (game : Game) (m : Movement) → Decided game → Decided (move game m)
unfolding move
move-Decided game (forward team id result route) d =
    after-Decided game (apply_ordinary_move game team id result route) d
      (λ g o. ordinary-Decided game team id result route g o d)
move-Decided game (backdo team id) d =
    after-Decided game (apply_backdo_move game team id) d (λ g o. backdo-Decided game team id g o d)
move-Decided game (buk draw team) d =
    after-Decided game (resolve_buk (redrawn game draw) team) d (λ g o.
      buk-Decided (redrawn game draw) team g o (record { undecided = d.undecided; won = d.won }))

play-Decided : (game : Game) (ms : List Movement) → Decided game → Decided (play game ms)
unfolding play
play-Decided game [] d = d
play-Decided game (m ∷ ms) d = play-Decided (move game m) ms (move-Decided game m d)

-- From a new match, whatever movements follow, forward, Backdo and Buk, made or refused, with
-- whatever the source of random numbers answers to each: while nobody has won, each of the two
-- teams has an unfinished piece, and a winner has none.
pub played-Decided :
    (planner : Graph) (settings : Settings) (teams : List TeamSetup) (source : RandomSource)
    (ms : List Movement) {game : Game}
    → new_game planner settings teams source ≡ ok game
    → Decided (play game ms)
played-Decided planner settings teams source ms {game} h =
    play-Decided game ms (new_game-Decided planner settings teams source h)
