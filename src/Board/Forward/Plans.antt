-- ===== src/Board/Forward/Plans.antt =====
-- The plans that `forward_plans` returns: how many, by which routes, and of what shape.
use buk_yutnori.Prelude.{
  ℕ, zero, suc, ◌≡◌, refl, subst, Bool, true, false, List, [], ◌∷◌, Option, none, some, ◌==◌,
  string_eq, arith, ◌⊎◌, inl, inr, ◌≢◌, Option-cases,
}
use native.Mathlib.Nat.{zero-add}
use buk_yutnori.Prelude.Result.{ok, Result-cases}
use buk_yutnori.Domain.{
  SpaceId, PieceState, piece_waiting, piece_on_board, piece_home_checkpoint, piece_finished,
  piece_other, Route, route_normal, route_shortcut,
}
use buk_yutnori.Board.Types.{
  ShortcutPolicy, selectable_shortcuts, forced_shortcuts, other_shortcuts, policy_eq, Position,
  RouteChoice, Graph, choice, forced, validate_shortcut_policy,
}
use buk_yutnori.Board.Forward.{
  ForwardPlan, Walk, enter, walk, at_origin, chosen_space, build_forward_plan, plans_from,
  forward_plans, forward_origin, is_back_mo_shortcut_space, home_finish,
}
use buk_yutnori.Board.Forward.Shape.{Shape, IsSound, Starts, walk-Shape}

-- The space that a forward movement starts from.
abbrev pub origin_of : Graph → Position → SpaceId
origin_of g position = elim position.state [ piece_waiting ↦ g.start_space | _ ↦ position.space ]

walk_route :
    (g : Graph) (route : Route) (force continue_back_mo : Bool) (rounds : ℕ) (first : SpaceId)
    (w : Walk) {plan : ForwardPlan}
    → walk g route force continue_back_mo rounds first w ≡ ok plan
    → plan.route ≡ route
unfolding walk
walk_route g route force continue_back_mo zero first w h = ground arith
walk_route g route force continue_back_mo (suc rounds) first w {plan} h =
    elim (Result-cases (chosen_space g force continue_back_mo first w.current)) [
      | inl (x, e) ↦
          ground
            (arith, walk_route g route force continue_back_mo rounds "" (enter g w x) {plan = plan})
      | inr (x, e) ↦ ground arith
    ]

-- A plan by a route, with its shape.
abbrev pub PlanBy : Graph → SpaceId → ℕ → Route → ForwardPlan → Type 0
PlanBy g origin spaces route plan = Shape g origin spaces plan × (plan.route ≡ route)

built :
    (g : Graph) (origin : SpaceId) (spaces : ℕ) (route : Route) (first : SpaceId)
    (force continue_back_mo : Bool) {plan : ForwardPlan}
    → IsSound g
    → Starts g first origin
    → build_forward_plan g origin spaces route first force continue_back_mo ≡ ok plan
    → PlanBy g origin spaces route plan
unfolding build_forward_plan
built g origin spaces route first force continue_back_mo {plan} s f h = (
  subst (λ n. Shape g origin n plan) (zero-add spaces)
      (walk-Shape route force continue_back_mo spaces first (at_origin origin) s
        (record { chain = tt; at = refl; before = refl; reached = refl }) f h),
  walk_route g route force continue_back_mo spaces first (at_origin origin) h,
)

-- A selectable route choice has a normal and a shortcut plan; a forced one has a shortcut plan, and
-- any other origin a normal one.
pub data Plans (g : Graph) (origin : SpaceId) (spaces : ℕ) (policy : ShortcutPolicy)
    : List ForwardPlan → Type 0 where
  deterministic :
      {plan : ForwardPlan}
      → choice g origin ≡ none
      → PlanBy g origin spaces route_normal plan
      → Plans g origin spaces policy (plan ∷ [])
  selectable :
      {c : RouteChoice} {normal shortcut : ForwardPlan}
      → policy ≡ selectable_shortcuts
      → choice g origin ≡ some c
      → PlanBy g origin spaces route_normal normal
      → PlanBy g origin spaces route_shortcut shortcut
      → Plans g origin spaces policy (normal ∷ shortcut ∷ [])
  forced_choice :
      {c : RouteChoice} {plan : ForwardPlan}
      → policy ≡ forced_shortcuts
      → choice g origin ≡ some c
      → PlanBy g origin spaces route_shortcut plan
      → Plans g origin spaces policy (plan ∷ [])

plans_from-Plans :
    (g : Graph) (origin : SpaceId) (spaces : ℕ) (policy : ShortcutPolicy) (oc : Option RouteChoice)
    {plans : List ForwardPlan}
    → IsSound g
    → choice g origin ≡ oc
    → validate_shortcut_policy policy ≡ ok tt
    → plans_from g origin spaces policy oc ≡ ok plans
    → Plans g origin spaces policy plans
unfolding plans_from validate_shortcut_policy
plans_from-Plans g origin spaces selectable_shortcuts (some c) {plans} s e v h =
    elim (Result-cases (build_forward_plan g origin spaces route_normal c.normal false false)) [
      | inr (x, k) ↦ absurd (ground arith)
      | inl (p, k) ↦
          elim (Result-cases (
            build_forward_plan g origin spaces route_shortcut c.shortcut false
              (origin == "back_mo"))) [
                | inr (x, l) ↦ absurd (ground arith)
                | inl (q, l) ↦
                    let same : p ∷ q ∷ [] ≡ plans = ground arith in
                    subst (Plans g origin spaces selectable_shortcuts) same (
                      selectable refl e
                        (built g origin spaces _ _ _ _ s (inr (s.normal_edge origin c e)) k)
                        (built g origin spaces _ _ _ _ s (inr (s.shortcut_edge origin c e)) l))
              ]
    ]
plans_from-Plans g origin spaces forced_shortcuts (some c) {plans} s e v h =
    elim (Option-cases (forced g origin)) [
      | inl n ↦ absurd (ground arith)
      | inr (d, n) ↦
          elim (Result-cases (build_forward_plan g origin spaces route_shortcut d true false)) [
            | inr (x, k) ↦ absurd (ground arith)
            | inl (p, k) ↦
                let same : p ∷ [] ≡ plans = ground arith in
                subst (Plans g origin spaces forced_shortcuts) same (
                  forced_choice refl e
                    (built g origin spaces _ _ _ _ s (inr (s.forced_edge origin d n)) k))
          ]
    ]
plans_from-Plans g origin spaces other_shortcuts oc {plans} s e v h = absurd (ground arith)
plans_from-Plans g origin spaces policy none {plans} s e v h =
    elim (Result-cases (
      build_forward_plan g origin spaces route_normal "" (policy == forced_shortcuts)
        (is_back_mo_shortcut_space origin))) [
          | inr (x, k) ↦ absurd (ground arith)
          | inl (p, k) ↦
              let same : p ∷ [] ≡ plans = ground arith in
              subst (Plans g origin spaces policy) same
                (deterministic e (built g origin spaces _ _ _ _ s (inl refl) k))
        ]

pub forward_plans-Plans :
    (g : Graph) (position : Position) (spaces : ℕ) (policy : ShortcutPolicy)
    {plans : List ForwardPlan}
    → IsSound g
    → forward_plans g position spaces policy ≡ ok plans
    → ((position.state ≢ piece_home_checkpoint)
        × (position.state ≢ piece_finished)
        × Plans g (origin_of g position) spaces policy plans)
      ⊎ ((position.state ≡ piece_home_checkpoint)
          × (position.space ≡ g.home_checkpoint_space)
          × (plans ≡ home_finish ∷ []))
unfolding forward_plans forward_origin
forward_plans-Plans g position zero policy s h = absurd (ground arith)
forward_plans-Plans g position (suc spaces) policy {plans} s h = at position.state refl
  where
    valid : validate_shortcut_policy policy ≡ ok tt
    valid = ground arith

    moves :
        (origin : SpaceId)
        → plans_from g origin (suc spaces) policy (choice g origin) ≡ ok plans
        → Plans g origin (suc spaces) policy plans
    moves origin k = plans_from-Plans g origin (suc spaces) policy (choice g origin) s refl valid k

    at :
        (state : PieceState)
        → position.state ≡ state
        → ((position.state ≢ piece_home_checkpoint)
            × (position.state ≢ piece_finished)
            × Plans g (origin_of g position) (suc spaces) policy plans)
          ⊎ ((position.state ≡ piece_home_checkpoint)
              × (position.space ≡ g.home_checkpoint_space)
              × (plans ≡ home_finish ∷ []))
    at piece_waiting e =
        inl ((λ k. ground arith), (λ k. ground arith), rw e (moves g.start_space (ground arith)))
    at piece_on_board e =
        inl ((λ k. ground arith), (λ k. ground arith), rw e (moves position.space (ground arith)))
    at piece_home_checkpoint e = inr (e, ground arith, ground arith)
    at piece_finished e = absurd (ground arith)
    at piece_other e = absurd (ground arith)
