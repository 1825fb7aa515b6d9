-- ===== src/Match/Invariant/Start.antt =====
-- A new match.
use buk_yutnori.Prelude.{
  ℕ, zero, suc, ◌≡◌, ◌≢◌, Option-cases, inr, string_eq, true, refl, subst, List, [], ◌∷◌, ◌++◌,
  some, arith, inl, All, All-append, get_elem?, not, contains, ◌==◌, nat_eq, length, ◌&&◌,
}
use buk_yutnori.Prelude.Result.{ok, >>=-eq-ok, guard, Result-cases}
use buk_yutnori.Domain.{
  SpaceId, PieceId, TeamId, team_eq, team_a, team_b, validate_id, validate_team_id,
  invalid_game_config,
}
use buk_yutnori.Room.Settings
use buk_yutnori.Room.Settings.{Settings}
use buk_yutnori.Board.Types.{Graph, node}
use buk_yutnori.Match.BukDestination.{
  RandomSource, initial_buk_destination, validate_buk_destination, invalid_unless,
}
use buk_yutnori.Match.BukDestination.Valid.{initial_buk_destination-valid}
use buk_yutnori.Match.Types.{TeamSetup, Piece}
use buk_yutnori.Match.Game.{
  Game, new_game, add_pieces, add_teams, waiting_piece, wrap_config, known_piece, has_source,
  config_of,
}
use buk_yutnori.Match.Invariant.{Placed, off_board, Inv, IsTarget}

abbrev Waits : Piece → Type 0
Waits p = (id : PieceId) × (team : TeamId) × (p ≡ waiting_piece team id)

add_pieces-Waits :
    (team : TeamId) (pieces : List Piece) (ids : List PieceId) {pieces' : List Piece}
    → All Waits pieces
    → add_pieces team pieces ids ≡ ok pieces'
    → All Waits pieces'
unfolding add_pieces
add_pieces-Waits team pieces [] w h = subst (All Waits) (ground arith) w
add_pieces-Waits team pieces (id ∷ ids) w h =
    let (_, _, h1) = >>=-eq-ok (wrap_config (validate_id id)) _ h in
    let (_, _, h2) = >>=-eq-ok (guard (not (known_piece pieces id)) invalid_game_config) _ h1 in
    add_pieces-Waits team (pieces ++ waiting_piece team id ∷ []) ids
      (All-append Waits pieces _ w ((id, team, refl), tt)) h2

add_teams-Waits :
    (settings : Settings) (seen : List TeamId) (pieces : List Piece) (setups : List TeamSetup)
    {seen' : List TeamId} {pieces' : List Piece}
    → All Waits pieces
    → add_teams settings seen pieces setups ≡ ok (seen', pieces')
    → All Waits pieces'
unfolding add_teams
add_teams-Waits settings seen pieces [] w h = subst (All Waits) (ground arith) w
add_teams-Waits settings seen pieces (setup ∷ setups) w h =
    let (_, _, h1) = >>=-eq-ok (wrap_config (validate_team_id setup.team_id)) _ h in
    let (_, _, h2) =
      >>=-eq-ok (guard (not (contains seen setup.team_id)) invalid_game_config) _ h1 in
    let (_, _, h3) =
      >>=-eq-ok (guard (length setup.piece_ids == settings.piece_count) invalid_game_config) _ h2 in
    let (more, added, h4) = >>=-eq-ok (add_pieces setup.team_id pieces setup.piece_ids) _ h3 in
    add_teams-Waits settings (setup.team_id ∷ seen) more setups
      (add_pieces-Waits setup.team_id pieces setup.piece_ids w added) h4

waiting_at :
    (g : Graph) (ps : List Piece) (i : ℕ) (p : Piece)
    → All Waits ps
    → get_elem? ps i ≡ some p
    → Placed g p
waiting_at g [] i p w h = absurd (ground arith)
waiting_at g (q ∷ ps) zero p ((id, team, e), ws) h =
    off_board (inl (ground arith)) (ground arith) (ground arith)
waiting_at g (q ∷ ps) (suc i) p (w, ws) h = waiting_at g ps i p ws h

chosen-IsTarget :
    (g : Graph) (settings : Settings) (source : RandomSource) {d : SpaceId}
    → validate_buk_destination g g.home_checkpoint_space ≢ ok tt
    → settings.buk_mode_enabled ≡ true
    → config_of (initial_buk_destination g settings source) ≡ ok d
    → IsTarget g d
unfolding validate_buk_destination
chosen-IsTarget g settings source {d} away b h =
    elim (Result-cases (initial_buk_destination g settings source)) [
      | inr (e, k) ↦ absurd (ground arith)
      | inl (d', k) ↦
          let same : d' ≡ d = ground arith in
          let valid =
            initial_buk_destination-valid g settings source b
              (subst (λ x. initial_buk_destination g settings source ≡ ok x) same k) in
          let (_, _, found) = >>=-eq-ok (invalid_unless (validate_id d)) _ valid in
          elim (Option-cases (node g d)) [
            | inl n ↦ absurd (ground arith)
            | inr (x, n) ↦ (
              ground arith,
              λ e. away (subst (λ s. validate_buk_destination g s ≡ ok tt) e valid),
            )
          ]
    ]

-- In a new match every piece is placed, where the home checkpoint is no destination of Buk.
pub new_game-Inv :
    (planner : Graph) (settings : Settings) (teams : List TeamSetup) (source : RandomSource)
    {game : Game}
    → validate_buk_destination planner planner.home_checkpoint_space ≢ ok tt
    → new_game planner settings teams source ≡ ok game
    → Inv game
unfolding new_game
new_game-Inv planner settings teams source {game} away h =
    let (_, _, h1) = >>=-eq-ok (wrap_config (Settings.validate settings)) _ h in
    let (_, _, h2) = >>=-eq-ok (guard (length teams == 2) invalid_game_config) _ h1 in
    let (_, _, h3) =
      >>=-eq-ok
        (guard (not (settings.buk_mode_enabled && not (has_source source))) invalid_game_config) _
        h2 in
    let ((seen, pieces), added, h4) = >>=-eq-ok (add_teams settings [] [] teams) _ h3 in
    let (_, _, h5) =
      >>=-eq-ok (guard (contains seen team_a && contains seen team_b) invalid_game_config) _ h4 in
    let (destination, chosen, h6) =
      >>=-eq-ok (config_of (initial_buk_destination planner settings source)) _ h5 in
    let waits = add_teams-Waits settings [] [] teams tt added in
    let same : pieces ≡ game.pieces = ground arith in
    record {
      target = λ b.
          let t = chosen-IsTarget planner settings source away (ground arith) chosen in
          (ground arith, λ e. t.1 (ground arith));
      placed = λ i p e. waiting_at game.planner game.pieces i p (subst (All Waits) same waits) e;
    }

pub new_game-planner :
    (planner : Graph) (settings : Settings) (teams : List TeamSetup) (source : RandomSource)
    {game : Game}
    → new_game planner settings teams source ≡ ok game
    → game.planner ≡ planner
unfolding new_game
new_game-planner planner settings teams source h =
    let (_, _, h1) = >>=-eq-ok (wrap_config (Settings.validate settings)) _ h in
    let (_, _, h2) = >>=-eq-ok (guard (length teams == 2) invalid_game_config) _ h1 in
    let (_, _, h3) =
      >>=-eq-ok
        (guard (not (settings.buk_mode_enabled && not (has_source source))) invalid_game_config) _
        h2 in
    let ((seen, pieces), _, h4) = >>=-eq-ok (add_teams settings [] [] teams) _ h3 in
    let (_, _, h5) =
      >>=-eq-ok (guard (contains seen team_a && contains seen team_b) invalid_game_config) _ h4 in
    let (destination, _, h6) =
      >>=-eq-ok (config_of (initial_buk_destination planner settings source)) _ h5 in
    ground arith
