-- ===== src/Match/Movement/Accepted.antt =====
-- The match accepts the plans that the board makes.
use buk_yutnori.Prelude.{
  ◌≡◌, refl, true, List, [], ◌∷◌, string_eq, arith, ◌≢◌, inl, inr, length, ℕ, ◌<◌,
}
use buk_yutnori.Prelude.Result.{ok, Result-cases}
use buk_yutnori.Domain.{SpaceId, validate_id, validate_route, route_eq, piece_state_eq}
use buk_yutnori.Board.Types.{Graph, Position, known}
use buk_yutnori.Board.Forward.{ForwardPlan, forward_plans}
use buk_yutnori.Board.Forward.Shape.{IsSound, Shape, Chain, last, before_last}
use buk_yutnori.Board.Forward.Plans.{
  Plans, deterministic, selectable, forced_choice, origin_of, forward_plans-Plans,
}
use buk_yutnori.Board.Forward.Lands.{origin_known}
use buk_yutnori.Board.Backdo.Reversal.{IsClosed, known-last, known-before_last}
use buk_yutnori.Room.Settings
use buk_yutnori.Room.Settings.{shortcut_other, shortcut_forced, shortcut_selectable, shortcut_eq}
use buk_yutnori.Board.Backdo.{BackdoPlan, backdo_plan, check_backdo_position}
use buk_yutnori.Match.Movement.{
  validate_backdo_plan, validate_spaces, ends_at, comes_from, validate_forward_plan,
  validate_forward_plans, validate_plan_routes, validate_each, board_shortcut_policy,
}

-- Every Backdo plan that the board makes for a position passes the validation of the match.
pub backdo_plan_accepted :
    (g : Graph) (position : Position) (previous : SpaceId) {plan : BackdoPlan}
    → backdo_plan g position previous ≡ ok plan
    → validate_backdo_plan plan position.space ≡ ok tt
unfolding backdo_plan validate_backdo_plan validate_id
backdo_plan_accepted g position previous {plan} h =
    elim (Result-cases (check_backdo_position g position)) [
      | inl (u, e) ↦ ground arith
      | inr (x, e) ↦ absurd (ground arith)
    ]

spaces_named :
    (g : Graph) (from : SpaceId) (xs : List SpaceId)
    → IsClosed g
    → Chain g from xs
    → validate_spaces xs ≡ ok tt
unfolding validate_spaces validate_id
spaces_named g from [] k c = refl
spaces_named g from (x ∷ xs) k c =
    let named = k.named x (k.target from x c.0) in ground (arith, spaces_named g x xs k c.1)

ends_at-last :
    (from : SpaceId) (xs : List SpaceId) → 0 < length xs → ends_at xs (last from xs) ≡ true
unfolding ends_at
ends_at-last from [] n = absurd (omega arith)
ends_at-last from (x ∷ []) n = ground arith
ends_at-last from (x ∷ y ∷ xs) n = ends_at-last x (y ∷ xs) (omega arith)

comes_from-before_last :
    (from : SpaceId) (xs : List SpaceId) → comes_from xs (before_last from xs) ≡ true
unfolding comes_from
comes_from-before_last from [] = refl
comes_from-before_last from (x ∷ []) = refl
comes_from-before_last from (x ∷ y ∷ []) = ground arith
comes_from-before_last from (x ∷ y ∷ z ∷ xs) = comes_from-before_last x (y ∷ z ∷ xs)

plan_valid :
    (g : Graph) (origin : SpaceId) (spaces : ℕ) (plan : ForwardPlan)
    → IsClosed g
    → known g origin ≡ true
    → 0 < spaces
    → Shape g origin spaces plan
    → validate_route plan.route ≡ ok tt
    → validate_forward_plan plan ≡ ok tt
unfolding validate_forward_plan validate_id
plan_valid g origin spaces plan k l n s r = elim s.ends [
  | inl (d, p, _, _) ↦ ground (arith, spaces_named g origin plan.traversed k s.chain)
  | inr (d, t, p, c) ↦
      let some_step : 0 < length plan.traversed = omega arith in
      let at_last = k.named _ (known-last g origin plan.traversed k l s.chain) in
      let at_previous =
        k.named _ (known-before_last g origin plan.traversed k l s.chain some_step) in
      ground (
        arith,
        spaces_named g origin plan.traversed k s.chain,
        ends_at-last origin plan.traversed some_step,
        comes_from-before_last origin plan.traversed,
      )
]

Plans-valid :
    (g : Graph) (origin : SpaceId) (spaces : ℕ) (policy : Settings.ShortcutPolicy)
    {plans : List ForwardPlan}
    → policy ≢ shortcut_other
    → IsClosed g
    → known g origin ≡ true
    → 0 < spaces
    → Plans g origin spaces (board_shortcut_policy policy) plans
    → validate_forward_plans plans policy ≡ ok tt
unfolding validate_forward_plans validate_plan_routes validate_each validate_route
Plans-valid g origin spaces policy o k l n (deterministic {plan = p} c s) =
    ground (arith, plan_valid g origin spaces p k l n s.0 (ground arith))
Plans-valid g origin spaces policy o k l n (selectable {normal = p} {shortcut = q} e c s t) =
    ground (
      arith,
      plan_valid g origin spaces p k l n s.0 (ground arith),
      plan_valid g origin spaces q k l n t.0 (ground arith),
    )
Plans-valid g origin spaces policy o k l n (forced_choice {plan = p} e c s) =
    ground (arith, plan_valid g origin spaces p k l n s.0 (ground arith))

-- On a sound and closed graph with a known start, the forward plans that the board makes pass the
-- validation of the match, under the policy of valid settings that they were made for.
pub forward_plans_accepted :
    (g : Graph) (position : Position) (spaces : ℕ) (policy : Settings.ShortcutPolicy)
    {plans : List ForwardPlan}
    → IsSound g
    → IsClosed g
    → known g g.start_space ≡ true
    → policy ≢ shortcut_other
    → forward_plans g position spaces (board_shortcut_policy policy) ≡ ok plans
    → validate_forward_plans plans policy ≡ ok tt
unfolding validate_forward_plans validate_plan_routes validate_each validate_route
    validate_forward_plan validate_spaces
forward_plans_accepted g position spaces policy {plans} s k l o h =
    elim (forward_plans-Plans g position spaces (board_shortcut_policy policy) s h) [
      | inl (n, _, ps) ↦
          let (known_origin, some_spaces) = origin_known g position spaces _ l n h in
          Plans-valid g (origin_of g position) spaces policy o k known_origin some_spaces ps
      | inr (_, _, e) ↦ ground arith
    ]
