-- ===== src/Board/Backdo/Reversal.antt =====
-- A Backdo takes back the last step, and a second Backdo takes back the first.
use buk_yutnori.Prelude.{
  ℕ, ◌≡◌, ◌<◌, refl, true, List, [], ◌∷◌, ◌==◌, string_eq, arith, ◌≢◌, inl, inr, length, ap,
}
use buk_yutnori.Prelude.Result.{ok, Result-cases}
use buk_yutnori.Domain.{SpaceId, piece_finished}
use buk_yutnori.Board.Types.{Position, Graph, known, has_forward_edge}
use buk_yutnori.Board.Forward.{ForwardPlan}
use buk_yutnori.Board.Forward.Shape.{Chain, last, before_last, arrives, Shape}
use buk_yutnori.Board.Backdo.{BackdoPlan, backdo_plan, check_backdo_position, standing}

-- A position of a piece on the board of the graph.
pub record Stands (g : Graph) (position : Position) : Type 0 where
  pub known_space : known g position.space ≡ true
  pub named : position.space ≢ ""
  pub at : position ≡ standing g position.space

accepts_standing :
    (g : Graph) (space previous : SpaceId)
    → known g space ≡ true
    → known g previous ≡ true
    → previous ≢ ""
    → backdo_plan g (standing g space) previous
      ≡ ok (record {
        destination = standing g previous;
        actual_previous_space = space;
        traversed = previous ∷ [];
      })
unfolding backdo_plan
accepts_standing g space previous k l n = ground arith

-- A Backdo of a piece on the board whose previous space is recorded is accepted, moves the piece
-- there, and records the space it left.
pub backdo-accepts :
    (g : Graph) (position : Position) (previous : SpaceId)
    → Stands g position
    → known g previous ≡ true
    → previous ≢ ""
    → backdo_plan g position previous
      ≡ ok (record {
        destination = standing g previous;
        actual_previous_space = position.space;
        traversed = previous ∷ [];
      })
backdo-accepts g position previous s l n =
    rw (s.at) (accepts_standing g position.space previous s.known_space l n)

backdo_made :
    (g : Graph) (position : Position) (previous : SpaceId) {plan : BackdoPlan}
    → backdo_plan g position previous ≡ ok plan
    → (known g previous ≡ true)
      × (previous ≢ "")
      × ((record {
        destination = standing g previous;
        actual_previous_space = position.space;
        traversed = previous ∷ [];
      })
          ≡ plan)
unfolding backdo_plan
backdo_made g position previous h = elim (Result-cases (check_backdo_position g position)) [
  | inl (u, e) ↦ (ground arith, (λ k. ground arith), ground arith)
  | inr (x, e) ↦ absurd (ground arith)
]

-- The Backdo of a Backdo that was accepted for a piece on the board: it leads back to the position that the first one left, with the
-- previous space recorded then.
pub backdo_twice :
    (g : Graph) (position : Position) (previous : SpaceId) {plan : BackdoPlan}
    → Stands g position
    → backdo_plan g position previous ≡ ok plan
    → backdo_plan g plan.destination plan.actual_previous_space
      ≡ ok (record {
        destination = position;
        actual_previous_space = previous;
        traversed = position.space ∷ [];
      })
backdo_twice g position previous {plan} s h =
    let (l, n, e) = backdo_made g position previous h in
    rw (← e, s.at) (accepts_standing g previous position.space l s.known_space s.named)

-- The edges lead to spaces of the graph, and its spaces have names: Graph.Validate checks it.
pub record IsClosed (g : Graph) : Type 0 where
  pub target : (s d : SpaceId) → has_forward_edge g s d ≡ true → known g d ≡ true
  pub named : (s : SpaceId) → known g s ≡ true → s ≢ ""

pub known-last :
    (g : Graph) (from : SpaceId) (xs : List SpaceId)
    → IsClosed g
    → known g from ≡ true
    → Chain g from xs
    → known g (last from xs) ≡ true
known-last g from [] k l c = l
known-last g from (x ∷ xs) k l c = known-last g x xs k (k.target from x c.0) c.1

pub known-before_last :
    (g : Graph) (from : SpaceId) (xs : List SpaceId)
    → IsClosed g
    → known g from ≡ true
    → Chain g from xs
    → 0 < length xs
    → known g (before_last from xs) ≡ true
known-before_last g from [] k l c n = absurd (omega arith)
known-before_last g from (x ∷ []) k l c n = l
known-before_last g from (x ∷ y ∷ xs) k l c n =
    known-before_last g x (y ∷ xs) k (k.target from x c.0) c.1 (omega arith)

pub arrives-last :
    (g : Graph) (from : SpaceId) (xs : List SpaceId)
    → 0 < length xs
    → arrives g from xs ≡ (last from xs == g.home_checkpoint_space)
arrives-last g from [] n = absurd (omega arith)
arrives-last g from (x ∷ xs) n = refl

-- On a closed graph, after a plan of the shape of a walk of at least one space from a known origin
-- that does not finish, a Backdo is accepted and takes back its last step: the piece goes to the space that it passed before its destination, or
-- to the origin of a movement of one space.
pub forward_then_backdo :
    (g : Graph) (origin : SpaceId) (spaces : ℕ) (plan : ForwardPlan)
    → IsClosed g
    → known g origin ≡ true
    → 0 < spaces
    → Shape g origin spaces plan
    → plan.destination.state ≢ piece_finished
    → backdo_plan g plan.destination plan.actual_previous_space
      ≡ ok (record {
        destination = standing g (before_last origin plan.traversed);
        actual_previous_space = last origin plan.traversed;
        traversed = before_last origin plan.traversed ∷ [];
      })
forward_then_backdo g origin spaces plan k l n s f = elim s.ends [
  | inl (d, _, _, _) ↦ absurd (f (ap (λ (p : Position). p.state) d))
  | inr (d, t, p, c) ↦
      let some_step : 0 < length plan.traversed = omega arith in
      let at_last = known-last g origin plan.traversed k l s.chain in
      let at_previous = known-before_last g origin plan.traversed k l s.chain some_step in
      let stands : plan.destination ≡ standing g (last origin plan.traversed) =
        ground (arith, arrives-last g origin plan.traversed some_step) in
      rw (stands, p)
        (accepts_standing g (last origin plan.traversed) (before_last origin plan.traversed) at_last
          at_previous (k.named _ at_previous))
]
