-- ===== src/Board/Forward/Lands.antt =====
-- Where the plans of a piece on the board take it: to the finish, or to a space of the board, with
-- the space it came from.
use buk_yutnori.Prelude.{
  ℕ, suc, zero, ◌<◌, ◌≡◌, refl, true, List, string_eq, arith, ◌≢◌, inl, inr, All, length,
}
use buk_yutnori.Prelude.Result.{ok}
use buk_yutnori.Domain.{
  SpaceId, PieceState, piece_waiting, piece_on_board, piece_home_checkpoint, piece_finished,
  piece_other,
}
use buk_yutnori.Board.Types.{Position, Graph, ShortcutPolicy, known}
use buk_yutnori.Board.Forward.{ForwardPlan, finished_position, forward_plans, forward_origin}
use buk_yutnori.Board.Forward.Shape.{IsSound, Shape}
use buk_yutnori.Board.Forward.Plans.{
  Plans, deterministic, selectable, forced_choice, origin_of, forward_plans-Plans,
}
use buk_yutnori.Board.Backdo.{standing}
use buk_yutnori.Board.Backdo.Reversal.{IsClosed, known-last, known-before_last, arrives-last}

pub data Lands (g : Graph) (plan : ForwardPlan) : Type 0 where
  finishes : plan.destination ≡ finished_position → plan.actual_previous_space ≡ "" → Lands g plan
  stands :
      plan.destination ≡ standing g plan.destination.space
      → known g plan.destination.space ≡ true
      → known g plan.actual_previous_space ≡ true
      → Lands g plan

pub Shape-Lands :
    (g : Graph) (origin : SpaceId) (spaces : ℕ) (plan : ForwardPlan)
    → IsClosed g
    → known g origin ≡ true
    → 0 < spaces
    → Shape g origin spaces plan
    → Lands g plan
Shape-Lands g origin spaces plan k l n s = elim s.ends [
  | inl (d, p, _, _) ↦ finishes d p
  | inr (d, t, p, c) ↦
      let some_step : 0 < length plan.traversed = omega arith in
      let at_last = known-last g origin plan.traversed k l s.chain in
      let at_previous = known-before_last g origin plan.traversed k l s.chain some_step in
      stands (ground (arith, arrives-last g origin plan.traversed some_step)) (rw d at_last)
        (rw p at_previous)
]

Plans-Lands :
    (g : Graph) (origin : SpaceId) (spaces : ℕ) (policy : ShortcutPolicy) {plans : List ForwardPlan}
    → IsClosed g
    → known g origin ≡ true
    → 0 < spaces
    → Plans g origin spaces policy plans
    → All (Lands g) plans
Plans-Lands g origin spaces policy k l n (deterministic {plan = p} c s) =
    (Shape-Lands g origin spaces p k l n s.0, tt)
Plans-Lands g origin spaces policy k l n (selectable {normal = p} {shortcut = q} e c s t) =
    (Shape-Lands g origin spaces p k l n s.0, (Shape-Lands g origin spaces q k l n t.0, tt))
Plans-Lands g origin spaces policy k l n (forced_choice {plan = p} e c s) =
    (Shape-Lands g origin spaces p k l n s.0, tt)

pub origin_known :
    (g : Graph) (position : Position) (spaces : ℕ) (policy : ShortcutPolicy)
    {plans : List ForwardPlan}
    → known g g.start_space ≡ true
    → position.state ≢ piece_home_checkpoint
    → forward_plans g position spaces policy ≡ ok plans
    → (known g (origin_of g position) ≡ true) × (0 < spaces)
unfolding forward_plans forward_origin
origin_known g position zero policy l n h = absurd (ground arith)
origin_known g position (suc spaces) policy {plans} l n h = (at position.state refl, omega arith)
  where
    at : (state : PieceState) → position.state ≡ state → known g (origin_of g position) ≡ true
    at piece_waiting e = rw e l
    at piece_on_board e = rw e (ground arith)
    at piece_home_checkpoint e = absurd (n e)
    at piece_finished e = absurd (ground arith)
    at piece_other e = absurd (ground arith)

-- On a sound and closed graph with a known start, each plan that is returned finishes, or leads to
-- a known space, in the state of a piece there, from a known space.
pub forward_plans-Lands :
    (g : Graph) (position : Position) (spaces : ℕ) (policy : ShortcutPolicy)
    {plans : List ForwardPlan}
    → IsSound g
    → IsClosed g
    → known g g.start_space ≡ true
    → forward_plans g position spaces policy ≡ ok plans
    → All (Lands g) plans
forward_plans-Lands g position spaces policy {plans} s k l h =
    elim (forward_plans-Plans g position spaces policy s h) [
      | inl (n, _, ps) ↦
          let (o, some_spaces) = origin_known g position spaces policy l n h in
          Plans-Lands g (origin_of g position) spaces policy k o some_spaces ps
      | inr (_, _, e) ↦ rw e (finishes refl refl, tt)
    ]
