-- ===== src/Match/Invariant/Forward.antt =====
-- A forward movement keeps every piece placed.
use buk_yutnori.Prelude.{
  ℕ, ◌≡◌, ap, subst, true, List, [], ◌∷◌, ◌==◌, string_eq, nat_eq, arith, inl, inr, All, Bool-cases,
  map,
}
use buk_yutnori.Prelude.Result.{ok, >>=-eq-ok}
use buk_yutnori.Domain.{
  PieceId, TeamId, YutResult, Route, route_eq, validate_route, ordinary_movement_spaces,
}
use buk_yutnori.Board.Types.{Graph, Position, known}
use buk_yutnori.Board.Forward.{ForwardPlan, forward_plans}
use buk_yutnori.Board.Forward.Shape.{IsSound}
use buk_yutnori.Board.Forward.Lands.{Lands, finishes, stands, forward_plans-Lands}
use buk_yutnori.Board.Backdo.Reversal.{IsClosed}
use buk_yutnori.Match.Types.{OrdinaryMovePlan, MoveOutcome}
use buk_yutnori.Match.Game.{Game, owned_piece, moving_piece_indices, piece_ids}
use buk_yutnori.Match.Resolution.{apply_move_resolution, apply_ordinary_move_plan}
use buk_yutnori.Match.Movement.{
  position_of, as_ordinary, still_open, ordinary_move_plans, select_ordinary_move_plan, plan_by,
  apply_ordinary_move, board_shortcut_policy, validate_forward_plans,
}
use buk_yutnori.Match.Invariant.{Inv, apply_move_resolution-Inv}

-- A plan of the match as the board's plan that it was made from.
abbrev LandsAt : Graph → OrdinaryMovePlan → Type 0
LandsAt g plan = (q : ForwardPlan) × (ids : List PieceId) × (plan ≡ as_ordinary ids q) × Lands g q

plan_by-LandsAt :
    (g : Graph) (ids : List PieceId) (qs : List ForwardPlan) (route : Route) {p : OrdinaryMovePlan}
    → All (Lands g) qs
    → plan_by (map (as_ordinary ids) qs) route ≡ ok p
    → LandsAt g p
plan_by-LandsAt g ids [] route a h = absurd (ground arith)
plan_by-LandsAt g ids (q ∷ qs) route {p} a h = elim (Bool-cases (q.route == route)) [
  | inl e ↦ (q, ids, ground arith, a.0)
  | inr e ↦ plan_by-LandsAt g ids qs route a.1 (ground arith)
]

selected-LandsAt :
    (g : Graph) (ids : List PieceId) (qs : List ForwardPlan) (route : Route) {p : OrdinaryMovePlan}
    → All (Lands g) qs
    → select_ordinary_move_plan (map (as_ordinary ids) qs) route ≡ ok p
    → LandsAt g p
unfolding select_ordinary_move_plan validate_route
selected-LandsAt g ids [] route a h = absurd (ground arith)
selected-LandsAt g ids (q ∷ []) route {p} a h = (q, ids, ground arith, a.0)
selected-LandsAt g ids (q ∷ r ∷ qs) route {p} a h =
    plan_by-LandsAt g ids (q ∷ r ∷ qs) route a (ground arith)

ordinary_plans_made :
    (game : Game) (team : TeamId) (id : PieceId) (result : YutResult)
    {plans : List OrdinaryMovePlan} {moving : List ℕ}
    → ordinary_move_plans game team id result ≡ ok (plans, moving)
    → (position : Position) × (spaces : ℕ) × (qs : List ForwardPlan) × (ids : List PieceId)
      × (forward_plans game.planner position spaces
            (board_shortcut_policy game.settings.shortcut_policy)
          ≡ ok qs)
      × (plans ≡ map (as_ordinary ids) qs)
unfolding ordinary_move_plans
ordinary_plans_made game team id result {plans} {moving} h =
    let (_, _, h1) = >>=-eq-ok (still_open game) _ h in
    let ((index, selected), _, h2) = >>=-eq-ok (owned_piece game team id) _ h1 in
    let (spaces, _, h3) = >>=-eq-ok (ordinary_movement_spaces result) _ h2 in
    let (qs, made, h4) =
      >>=-eq-ok
        (forward_plans game.planner (position_of selected) spaces
          (board_shortcut_policy game.settings.shortcut_policy))
        _ h3 in
    let (_, _, h5) = >>=-eq-ok (validate_forward_plans qs game.settings.shortcut_policy) _ h4 in
    (
      position_of selected,
      spaces,
      qs,
      piece_ids game.pieces (moving_piece_indices game index selected),
      made,
      ground arith,
    )

apply_ordinary_move_plan-Inv :
    (game : Game) (team : TeamId) (id : PieceId) (result : YutResult) (plan : OrdinaryMovePlan)
    (moving : List ℕ)
    → Inv game
    → LandsAt game.planner plan
    → Inv (apply_ordinary_move_plan game team id result plan moving).0
unfolding apply_ordinary_move_plan
apply_ordinary_move_plan-Inv game team id result plan moving v (q, ids, e, finishes d p) =
    apply_move_resolution-Inv game team id result _ v (inl (ground arith))
apply_ordinary_move_plan-Inv game team id result plan moving v (q, ids, e, stands d k l) =
    apply_move_resolution-Inv game team id result _ v
      (inr (ground arith, ground arith, inr (ground arith)))

-- A forward movement that is made, on a sound and closed graph with a known start, keeps every
-- piece placed.
pub apply_ordinary_move-Inv :
    (game : Game) (team : TeamId) (id : PieceId) (result : YutResult) (route : Route) {game' : Game}
    {outcome : MoveOutcome}
    → IsSound game.planner
    → IsClosed game.planner
    → known game.planner game.planner.start_space ≡ true
    → Inv game
    → apply_ordinary_move game team id result route ≡ ok (game', outcome)
    → Inv game'
unfolding apply_ordinary_move
apply_ordinary_move-Inv game team id result route {game'} {outcome} s k l v h =
    let ((plans, moving), made, h1) = >>=-eq-ok (ordinary_move_plans game team id result) _ h in
    let (plan, chosen, h2) = >>=-eq-ok (select_ordinary_move_plan plans route) _ h1 in
    let (position, spaces, qs, ids, planned, same) = ordinary_plans_made game team id result made in
    let lands = forward_plans-Lands game.planner position spaces _ s k l planned in
    let at =
      selected-LandsAt game.planner ids qs route lands
        (subst (λ ps. select_ordinary_move_plan ps route ≡ ok plan) same chosen) in
    let committed : apply_ordinary_move_plan game team id result plan moving ≡ (game', outcome) =
      ground arith in
    subst Inv (ap (λ (r : Game × MoveOutcome). r.0) committed)
      (apply_ordinary_move_plan-Inv game team id result plan moving v at)

pub apply_ordinary_move-planner :
    (game : Game) (team : TeamId) (id : PieceId) (result : YutResult) (route : Route) {game' : Game}
    {outcome : MoveOutcome}
    → apply_ordinary_move game team id result route ≡ ok (game', outcome)
    → game'.planner ≡ game.planner
unfolding apply_ordinary_move apply_ordinary_move_plan apply_move_resolution
apply_ordinary_move-planner game team id result route h =
    let ((plans, moving), _, h1) = >>=-eq-ok (ordinary_move_plans game team id result) _ h in
    let (plan, _, h2) = >>=-eq-ok (select_ordinary_move_plan plans route) _ h1 in ground arith
