-- ===== src/Match/Runs/Winner.antt =====
-- The winner of a match, from its start through any movements.
use buk_yutnori.Prelude.{
  ℕ, suc, ◌≡◌, ◌≢◌, refl, sym, subst, true, false, not, ◌&&◌, List, [], ◌∷◌, none, some, ◌==◌,
  string_eq, nat_eq, get_elem?, arith, inl, inr, Bool-cases, contains,
}
use buk_yutnori.Prelude.Result.{ok}
use buk_yutnori.Domain.{
  PieceId, TeamId, team_eq, TeamId-discrete, validate_team_id, YutResult, piece_finished,
  piece_state_eq,
}
use buk_yutnori.Match.Types.{Piece}
use buk_yutnori.Match.Game.{Game}
use buk_yutnori.Match.Resolution.{
  MoveResolutionPlan, apply_move_resolution, all_team_pieces_finished,
}
use buk_yutnori.Match.Resolution.Pieces.{fate, apply_move_resolution-fate}
use buk_yutnori.Match.Buk.Resolved.{unfinished}

-- While nobody has won, every team has a piece to finish; a winner has none.
pub record Decided (game : Game) : Type 0 where
  pub undecided :
      game.winner_team_id ≡ none
      → (team : TeamId) → validate_team_id team ≡ ok tt
      → all_team_pieces_finished game.pieces team ≡ false
  pub won :
      (team : TeamId)
      → game.winner_team_id ≡ some team
      → all_team_pieces_finished game.pieces team ≡ true

Unfinished : List Piece → TeamId → Type 0
Unfinished ps team =
    (i : ℕ) × (p : Piece) × (get_elem? ps i ≡ some p)
    × (p.team_id ≡ team)
    × (p.state ≢ piece_finished)

some-Unfinished :
    (ps : List Piece) (team : TeamId)
    → all_team_pieces_finished ps team ≡ false
    → Unfinished ps team
unfolding all_team_pieces_finished Unfinished
some-Unfinished [] team h = absurd (ground arith)
some-Unfinished (p ∷ ps) team h =
    elim (Bool-cases (p.team_id == team && not (p.state == piece_finished))) [
      | inl e ↦ (0, p, refl, ground arith, λ f. ground arith)
      | inr e ↦ let (i, q, g, o, f) = some-Unfinished ps team (ground arith) in (suc i, q, g, o, f)
    ]

-- No other team's piece is moved to the finish.
unfoldable pub Spares : Game → TeamId → MoveResolutionPlan → Type 0
Spares game team plan =
    plan.destination_state ≡ piece_finished
    → (i : ℕ) (p : Piece) → get_elem? game.pieces i ≡ some p
    → p.team_id ≢ team
    → contains plan.moving_indices i ≡ false

fate-unfinished :
    (game : Game) (team : TeamId) (plan : MoveResolutionPlan) (i : ℕ) (p : Piece)
    → Spares game team plan
    → get_elem? game.pieces i ≡ some p
    → p.team_id ≢ team
    → p.state ≢ piece_finished
    → ((fate game team plan i p).state ≢ piece_finished)
      × ((fate game team plan i p).team_id ≡ p.team_id)
unfolding Spares
fate-unfinished game team plan i p s e o f = (
  elim (Bool-cases (plan.destination_state == piece_finished)) [
    | inl d ↦ (λ k. let still = s (ground arith) i p e o in ground arith)
    | inr d ↦ (λ k. ground arith)
  ],
  ground arith,
)

resolution_ends :
    (game : Game) (team : TeamId) (id : PieceId) (result : YutResult) (plan : MoveResolutionPlan)
    → all_team_pieces_finished (apply_move_resolution game team id result plan).0.pieces team ≡ true
    → (apply_move_resolution game team id result plan).0.winner_team_id ≡ some team
unfolding apply_move_resolution
resolution_ends game team id result plan e = ground arith

resolution_goes_on :
    (game : Game) (team : TeamId) (id : PieceId) (result : YutResult) (plan : MoveResolutionPlan)
    → all_team_pieces_finished (apply_move_resolution game team id result plan).0.pieces team
      ≡ false
    → (apply_move_resolution game team id result plan).0.winner_team_id ≡ game.winner_team_id
unfolding apply_move_resolution
resolution_goes_on game team id result plan e = ground arith

still_unfinished :
    (game : Game) (team : TeamId) (id : PieceId) (result : YutResult) (plan : MoveResolutionPlan)
    (t : TeamId)
    → Spares game team plan
    → t ≢ team
    → all_team_pieces_finished game.pieces t ≡ false
    → all_team_pieces_finished (apply_move_resolution game team id result plan).0.pieces t ≡ false
unfolding Unfinished
still_unfinished game team id result plan t s n h =
    let (i, p, e, o, f) = some-Unfinished game.pieces t h in
    let other : p.team_id ≢ team = λ k. n (ground arith) in
    let (g, same) = fate-unfinished game team plan i p s e other f in
    unfinished (apply_move_resolution game team id result plan).0.pieces t i
      (fate game team plan i p) (apply_move_resolution-fate game team id result plan i e)
      (ground arith) g

pub resolution-Decided :
    (game : Game) (team : TeamId) (id : PieceId) (result : YutResult) (plan : MoveResolutionPlan)
    → game.winner_team_id ≡ none
    → Spares game team plan
    → Decided game
    → Decided (apply_move_resolution game team id result plan).0
resolution-Decided game team id result plan w s d =
    let after = (apply_move_resolution game team id result plan).0 in
    elim (Bool-cases (all_team_pieces_finished after.pieces team)) [
      | inl e ↦
          let ends = resolution_ends game team id result plan e in
          record {
            undecided = λ n t v. absurd (ground arith);
            won = λ t k.
                let same : team ≡ t = ground arith in
                subst (λ u. all_team_pieces_finished after.pieces u ≡ true) same e;
          }
      | inr e ↦
          let goes_on = resolution_goes_on game team id result plan e in
          record {
            undecided = λ n t v. elim (TeamId-discrete t team) [
              | yes same ↦ subst (λ u. all_team_pieces_finished after.pieces u ≡ false) (sym same) e
              | no other ↦ still_unfinished game team id result plan t s other (d.undecided w t v)
            ];
            won = λ t k. absurd (ground arith);
          }
    ]
