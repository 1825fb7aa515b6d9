-- ===== src/Board/Forward/Shape.antt =====
-- What a forward plan is: a route along the edges of the graph, with the position at its end.
use buk_yutnori.Prelude.{
  ℕ, zero, suc, ◌+◌, ◌<◌, ◌≡◌, refl, sym, subst, ◌∙◌, Bool, true, false, List, [], ◌∷◌, ◌++◌, some,
  ◌==◌, string_eq, if◌then◌else◌, length, length-append, contains, arith, ◌⊎◌, inl, inr, Bool-cases,
  Option-cases,
}
use buk_yutnori.Prelude.Result.{ok, Result-cases}
use buk_yutnori.Domain.{SpaceId, piece_on_board, piece_home_checkpoint, Route}
use buk_yutnori.Board.Types.{
  policy_eq, RouteChoice, Graph, has_forward_edge, adjacency, choice, forced,
}
use buk_yutnori.Board.Forward.{
  ForwardPlan, finished_position, Walk, enter, stop, finish, walk, normal_forward_space, next_space,
  chosen_space, single,
}

-- A chain of edges from a space.
abbrev pub Chain : Graph → SpaceId → List SpaceId → Type 0
Chain g from [] = Unit {0}
Chain g from (x ∷ xs) = (has_forward_edge g from x ≡ true) × Chain g x xs

-- The last space of a route from `from`, and the one before it.
abbrev pub last : SpaceId → List SpaceId → SpaceId
last from [] = from
last from (x ∷ xs) = last x xs

abbrev pub before_last : SpaceId → List SpaceId → SpaceId
before_last from [] = ""
before_last from (x ∷ []) = from
before_last from (x ∷ y ∷ xs) = before_last x (y ∷ xs)

-- A route enters the home checkpoint with its last step.
abbrev pub arrives : Graph → SpaceId → List SpaceId → Bool
arrives g from [] = false
arrives g from (x ∷ xs) = last x xs == g.home_checkpoint_space

last-append : (from : SpaceId) (xs : List SpaceId) (x : SpaceId) → last from (xs ++ x ∷ []) ≡ x
last-append from [] x = refl
last-append from (y ∷ xs) x = last-append y xs x

before_last-append :
    (from : SpaceId) (xs : List SpaceId) (x : SpaceId)
    → before_last from (xs ++ x ∷ []) ≡ last from xs
before_last-append from [] x = refl
before_last-append from (y ∷ []) x = refl
before_last-append from (y ∷ z ∷ xs) x = before_last-append y (z ∷ xs) x

arrives-append :
    (g : Graph) (from : SpaceId) (xs : List SpaceId) (x : SpaceId)
    → arrives g from (xs ++ x ∷ []) ≡ (x == g.home_checkpoint_space)
arrives-append g from [] x = refl
arrives-append g from (y ∷ xs) x = rw (last-append y xs x)

Chain-append :
    (g : Graph) (from : SpaceId) (xs : List SpaceId) (x : SpaceId)
    → Chain g from xs
    → has_forward_edge g (last from xs) x ≡ true
    → Chain g from (xs ++ x ∷ [])
Chain-append g from [] x c e = (e, tt)
Chain-append g from (y ∷ xs) x c e = (c.0, Chain-append g y xs x c.1 e)

-- The edges that the route choices and the forced routes name are edges of the graph:
-- Graph.Validate checks it.
pub record IsSound (g : Graph) : Type 0 where
  pub normal_edge :
      (s : SpaceId) (c : RouteChoice) → choice g s ≡ some c → has_forward_edge g s c.normal ≡ true
  pub shortcut_edge :
      (s : SpaceId) (c : RouteChoice) → choice g s ≡ some c → has_forward_edge g s c.shortcut ≡ true
  pub forced_edge : (s d : SpaceId) → forced g s ≡ some d → has_forward_edge g s d ≡ true

-- A plan of `spaces` from `origin`: it stops after that many steps, or it passes the home
-- checkpoint before and finishes there.
pub record Shape (g : Graph) (origin : SpaceId) (spaces : ℕ) (plan : ForwardPlan) : Type 0 where
  pub chain : Chain g origin plan.traversed
  pub ends :
      ((plan.destination ≡ finished_position)
        × (plan.actual_previous_space ≡ "")
        × (length plan.traversed < spaces)
        × (arrives g origin plan.traversed ≡ true))
      ⊎ ((plan.destination.space ≡ last origin plan.traversed)
          × (plan.destination.state
              ≡ (if arrives g origin plan.traversed then piece_home_checkpoint else piece_on_board))
          × (plan.actual_previous_space ≡ before_last origin plan.traversed)
          × (length plan.traversed ≡ spaces))

pub record Walked (g : Graph) (origin : SpaceId) (w : Walk) : Type 0 where
  pub chain : Chain g origin w.traversed
  pub at : w.current ≡ last origin w.traversed
  pub before : w.actual_previous ≡ before_last origin w.traversed
  pub reached : w.home_checkpoint_reached ≡ arrives g origin w.traversed

single_contained : (xs : List SpaceId) {d : SpaceId} → single xs ≡ ok d → contains xs d ≡ true
single_contained [] h = absurd (ground arith)
single_contained (x ∷ []) h = ground arith
single_contained (x ∷ y ∷ xs) h = absurd (ground arith)

normal_forward_space-edge :
    (g : Graph) (s : SpaceId) {d : SpaceId}
    → IsSound g
    → normal_forward_space g s ≡ ok d
    → has_forward_edge g s d ≡ true
unfolding normal_forward_space
normal_forward_space-edge g s {d} k h = elim (Option-cases (choice g s)) [
  | inl e ↦ unfold has_forward_edge in single_contained (adjacency g s) (ground arith)
  | inr (c, e) ↦ ground (arith, k.normal_edge s c)
]

next_space-edge :
    (g : Graph) (force continue_back_mo : Bool) (s : SpaceId) {d : SpaceId}
    → IsSound g
    → next_space g force continue_back_mo s ≡ ok d
    → has_forward_edge g s d ≡ true
unfolding next_space
next_space-edge g force continue_back_mo s {d} k h = elim (Option-cases (forced g s)) [
  | inl e ↦ ground (arith, normal_forward_space-edge g s {d = d} k)
  | inr (c, e) ↦ ground (arith, k.forced_edge s c, normal_forward_space-edge g s {d = d} k)
]

-- The first round may be given its destination, by an edge.
abbrev pub Starts : Graph → SpaceId → SpaceId → Type 0
Starts g first current = (first ≡ "") ⊎ (has_forward_edge g current first ≡ true)

chosen_space-edge :
    (g : Graph) (force continue_back_mo : Bool) (first current : SpaceId) {d : SpaceId}
    → IsSound g
    → Starts g first current
    → chosen_space g force continue_back_mo first current ≡ ok d
    → has_forward_edge g current d ≡ true
unfolding chosen_space
chosen_space-edge g force continue_back_mo first current {d} k s h =
    ground (arith, next_space-edge g force continue_back_mo current {d = d} k)

module _ {g : Graph} {origin : SpaceId} where
  enter-Walked :
      (w : Walk) (x : SpaceId)
      → Walked g origin w
      → has_forward_edge g w.current x ≡ true
      → Walked g origin (enter g w x)
  enter-Walked w x k e = record {
    chain = Chain-append g origin w.traversed x k.chain (rw (← k.at) e);
    at = sym (last-append origin w.traversed x);
    before = k.at ∙ sym (before_last-append origin w.traversed x);
    reached = sym (arrives-append g origin w.traversed x);
  }

  stop-Shape :
      (route : Route) (w : Walk)
      → Walked g origin w
      → Shape g origin (length w.traversed) (stop route w)
  stop-Shape route w k = record {
    chain = k.chain;
    ends = inr (k.at, rw k.reached refl, k.before, refl);
  }

  finish-Shape :
      (route : Route) (w : Walk) (spaces : ℕ)
      → Walked g origin w
      → w.home_checkpoint_reached ≡ true
      → length w.traversed < spaces
      → Shape g origin spaces (finish route w)
  finish-Shape route w spaces k r l = record {
    chain = k.chain;
    ends = inl (refl, refl, l, sym k.reached ∙ r);
  }

  pub walk-Shape :
      (route : Route) (force continue_back_mo : Bool) (rounds : ℕ) (first : SpaceId) (w : Walk)
      {plan : ForwardPlan}
      → IsSound g
      → Walked g origin w
      → Starts g first w.current
      → walk g route force continue_back_mo rounds first w ≡ ok plan
      → Shape g origin (length w.traversed + rounds) plan
  unfolding walk
  walk-Shape route force continue_back_mo zero first w {plan} s k f h =
      let same : stop route w ≡ plan = ground arith in
      let count : length w.traversed ≡ length w.traversed + 0 = omega arith in
      subst (λ p. Shape g origin (length w.traversed + 0) p) same
        (subst (λ n. Shape g origin n (stop route w)) count (stop-Shape route w k))
  walk-Shape route force continue_back_mo (suc rounds) first w {plan} s k f h =
      elim (Bool-cases w.home_checkpoint_reached) [
        | inl r ↦
            let same : finish route w ≡ plan = ground arith in
            subst (λ p. Shape g origin (length w.traversed + suc rounds) p) same
              (finish-Shape route w (length w.traversed + suc rounds) k r (omega arith))
        | inr r ↦ elim (Result-cases (chosen_space g force continue_back_mo first w.current)) [
          | inl (x, e) ↦
              let edge = chosen_space-edge g force continue_back_mo first w.current s f e in
              let goes : walk g route force continue_back_mo rounds "" (enter g w x) ≡ ok plan =
                ground arith in
              let shape =
                walk-Shape route force continue_back_mo rounds "" (enter g w x) s
                  (enter-Walked w x k edge) (inl refl) goes in
              subst (λ n. Shape g origin n plan) (omega (arith, length-append w.traversed (x ∷ [])))
                shape
          | inr (x, e) ↦ absurd (ground arith)
        ]
      ]
