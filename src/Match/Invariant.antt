-- ===== src/Match/Invariant.antt =====
-- Where the pieces of a match are, between two movements.
pub mod Start
pub mod Forward
pub mod Backward
use buk_yutnori.Prelude.{
  ℕ, zero, suc, ◌≡◌, refl, sym, ap, subst, Bool, true, false, not, ◌&&◌, ◌||◌, List, [], ◌∷◌, ◌++◌,
  Option, none, some, ◌==◌, string_eq, nat_eq, if◌then◌else◌, arith, ◌≢◌, ◌⊎◌, inl, inr, All,
  All-append, get_elem?, Option-cases, Bool-cases, contains, map,
}
use buk_yutnori.Prelude.Result.{Result, ok, err, ◌>>=◌, Result-cases, >>=-eq-ok}
use buk_yutnori.Domain.{
  Error, PieceId, SpaceId, TeamId, YutResult, yut_backdo, Route, route_empty, route_eq,
  validate_route, validate_team_id, PieceState, piece_waiting, piece_finished, piece_on_board,
  piece_home_checkpoint, movement_backdo, ordinary_movement_spaces,
}
use buk_yutnori.Board.Types.{Graph, Position, known}
use buk_yutnori.Board.Forward.{ForwardPlan, forward_plans, finished_position}
use buk_yutnori.Board.Forward.Shape.{IsSound}
use buk_yutnori.Board.Forward.Lands.{Lands, finishes, stands, forward_plans-Lands}
use buk_yutnori.Board.Backdo.{BackdoPlan, backdo_plan, standing, check_backdo_position}
use buk_yutnori.Board.Backdo.Reversal.{IsClosed}
use buk_yutnori.Match.Types.{Piece, OrdinaryMovePlan, BackdoMovePlan, MoveOutcome}
use buk_yutnori.Match.Game.{Game, owned_piece, piece_index, moving_piece_indices, piece_ids}
use buk_yutnori.Match.Resolution.{
  MoveResolutionPlan, arrived, sent_back, apply_move_resolution, apply_ordinary_move_plan,
}
use buk_yutnori.Match.Resolution.Pieces.{
  fate, joins, captures, apply_move_resolution-fate, apply_move_resolution-none,
}
use buk_yutnori.Match.Movement.{
  position_of, as_ordinary, still_open, ordinary_move_plans, select_ordinary_move_plan, plan_by,
  plan_of_choice, apply_ordinary_move, backdo_move_plan, apply_backdo_move, board_shortcut_policy,
  validate_forward_plans, validate_backdo_plan,
}

-- A history: none, or a space of the board.
abbrev pub CameFrom : Graph → SpaceId → Type 0
CameFrom g previous = (previous ≡ "") ⊎ (known g previous ≡ true)

-- A piece waits or has finished off the board, with no history; or it stands on a known space, in
-- the state of that space, with the known space it came from, or none after a Buk from the start.
pub data Placed (g : Graph) (piece : Piece) : Type 0 where
  off_board :
      (piece.state ≡ piece_waiting) ⊎ (piece.state ≡ piece_finished)
      → piece.current_space_id ≡ ""
      → piece.actual_previous_space ≡ ""
      → Placed g piece
  on_space :
      position_of piece ≡ standing g piece.current_space_id
      → known g piece.current_space_id ≡ true
      → CameFrom g piece.actual_previous_space
      → Placed g piece

-- A space that Buk may lead to.
abbrev pub IsTarget : Graph → SpaceId → Type 0
IsTarget g space = (known g space ≡ true) × (space ≢ g.home_checkpoint_space)

pub record Inv (game : Game) : Type 0 where
  pub target :
      game.settings.buk_mode_enabled ≡ true → IsTarget game.planner game.buk_destination_space_id
  pub placed : (i : ℕ) (p : Piece) → get_elem? game.pieces i ≡ some p → Placed game.planner p

-- A resolution that finishes, or leads to a known space in its state from a known space.
abbrev pub Arrives : Graph → MoveResolutionPlan → Type 0
Arrives g plan =
    (plan.destination_state ≡ piece_finished)
    ⊎ (((record { state = plan.destination_state; space = plan.destination_space_id })
          ≡ standing g plan.destination_space_id)
        × (known g plan.destination_space_id ≡ true)
        × CameFrom g plan.actual_previous_space)

arrived-Placed :
    (g : Graph) (plan : MoveResolutionPlan) (p : Piece) → Arrives g plan → Placed g (arrived plan p)
arrived-Placed g plan p (inl e) = off_board (inr e) (ground arith) (ground arith)
arrived-Placed g plan p (inr (d, k, l)) =
    let not_finished : plan.destination_state ≢ piece_finished = λ e. ground arith in
    on_space (ground arith) (ground arith) (subst (CameFrom g) (ground arith) l)

fate-Placed :
    (game : Game) (team : TeamId) (plan : MoveResolutionPlan) (i : ℕ) (p : Piece)
    → Arrives game.planner plan
    → Placed game.planner p
    → Placed game.planner (fate game team plan i p)
fate-Placed game team plan i p a k =
    elim (Bool-cases (contains plan.moving_indices i || joins game team plan p)) [
      | inl e ↦ rw e (arrived-Placed game.planner plan p a)
      | inr e ↦ elim (Bool-cases (captures team plan p)) [
        | inl c ↦ rw (e, c) (off_board (inl refl) refl refl)
        | inr c ↦ rw (e, c) k
      ]
    ]

planner_kept :
    (game : Game) (team : TeamId) (id : PieceId) (result : YutResult) (plan : MoveResolutionPlan)
    → (apply_move_resolution game team id result plan).0.planner ≡ game.planner
unfolding apply_move_resolution
planner_kept game team id result plan = refl

pub apply_move_resolution-Inv :
    (game : Game) (team : TeamId) (id : PieceId) (result : YutResult) (plan : MoveResolutionPlan)
    → Inv game
    → Arrives game.planner plan
    → Inv (apply_move_resolution game team id result plan).0
unfolding apply_move_resolution
apply_move_resolution-Inv game team id result plan v a = record {
  target = v.target;
  placed = λ i q h. elim (Option-cases (get_elem? game.pieces i)) [
    | inl n ↦ absurd (ground (arith, apply_move_resolution-none game team id result plan i n))
    | inr (p, e) ↦
        let become = apply_move_resolution-fate game team id result plan i e in
        let same : fate game team plan i p ≡ q = ground arith in
        rw (planner_kept game team id result plan)
          (subst (Placed game.planner) same (fate-Placed game team plan i p a (v.placed i p e)))
  ];
}
