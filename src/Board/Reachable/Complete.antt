-- ===== src/Board/Reachable/Complete.antt =====
-- The spaces that ReachableFrom returns are those at the ends of ways.
use buk_yutnori.Prelude.{
  ℕ, zero, suc, ◌≡◌, ◌↔◌, sym, subst, true, ◌||◌, List, [], ◌∷◌, some, string_eq, contains, arith,
  inl, inr, Bool-cases, Option-cases, text_discrete,
}
use buk_yutnori.Prelude.Result.{ok, guard, >>=-eq-ok}
use buk_yutnori.Domain.{unknown_space, SpaceId}
use buk_yutnori.Board.Types.{
  ShortcutPolicy, selectable_shortcuts, forced_shortcuts, other_shortcuts, validate_shortcut_policy,
  Graph, known, has_forward_edge, forced,
}
use buk_yutnori.Board.Forward.Shape.{IsSound}
use buk_yutnori.Board.Backdo.Reversal.{IsClosed}
use buk_yutnori.Board.Distance.{forward_for_policy, search_fuel}
use buk_yutnori.Board.Distance.Search.{Way, stay, advance}
use buk_yutnori.Board.Reachable.{enqueue, reach, reachable_from}
use buk_yutnori.Board.Reachable.Rounds.{enqueue-keeps}

-- The visited spaces are done or queued, and the successors of what is done are visited.
record Frontier (g : Graph) (policy : ShortcutPolicy) (finished visited queue : List SpaceId)
    : Type 0 where
  covered :
      (x : SpaceId) → contains visited x ≡ true → (contains finished x || contains queue x) ≡ true
  expanded :
      (s d : SpaceId)
      → contains finished s ≡ true
      → contains (forward_for_policy g s policy) d ≡ true
      → known g d ≡ true
      → contains visited d ≡ true

Frontier-next :
    (g : Graph) (policy : ShortcutPolicy) (finished visited queue : List SpaceId) (c : SpaceId)
    → Frontier g policy finished visited (c ∷ queue)
    → Frontier g policy
        (c ∷ finished)
        (enqueue g (forward_for_policy g c policy) visited queue).0
        (enqueue g (forward_for_policy g c policy) visited queue).1
Frontier-next g policy finished visited queue c f =
    let ds = forward_for_policy g c policy in
    record {
      covered = λ x h.
          let (_, b, _, e, _) = enqueue-keeps g ds visited queue x in
          let new = e h in
          elim (Bool-cases (contains visited x)) [
            | inl v ↦ let old = f.covered x v in ground arith
            | inr v ↦ ground arith
          ];
      expanded = λ s d h m k.
          let (a, _, n, _, _) = enqueue-keeps g ds visited queue d in
          elim (text_discrete c s) [
            | yes same ↦
                n (subst (λ t. contains (forward_for_policy g t policy) d ≡ true) (sym same) m) k
            | no other ↦ a (f.expanded s d (ground arith) m k)
          ];
    }

-- What is done, with what the search finds, holds what it was started with and has its successors.
abbrev Closed : Graph → ShortcutPolicy → List SpaceId → List SpaceId → Type 0
Closed g policy finished r =
    (s d : SpaceId)
    → (contains finished s || contains r s) ≡ true
    → contains (forward_for_policy g s policy) d ≡ true
    → known g d ≡ true
    → (contains finished d || contains r d) ≡ true

reach-Closed :
    (g : Graph) (policy : ShortcutPolicy) (fuel : ℕ) (finished visited queue : List SpaceId)
    {r : List SpaceId}
    → Frontier g policy finished visited queue
    → reach g policy fuel visited queue ≡ some r
    → Closed g policy finished r
unfolding reach
reach-Closed g policy zero finished visited queue f h = absurd (ground arith)
reach-Closed g policy (suc fuel) finished visited [] f h =
    λ s d i m k. let v = f.expanded s d (ground arith) m k in let c = f.covered d v in ground arith
reach-Closed g policy (suc fuel) finished visited (c ∷ queue) {r} f h =
    let ds = forward_for_policy g c policy in
    elim (Option-cases
      (reach g policy fuel (enqueue g ds visited queue).0 (enqueue g ds visited queue).1)) [
        | inl n ↦ absurd (ground arith)
        | inr (r', e) ↦
            let rest =
              reach-Closed g policy fuel (c ∷ finished) (enqueue g ds visited queue).0
                (enqueue g ds visited queue).1 (Frontier-next g policy finished visited queue c f)
                e in
            λ s d i m k. let q = rest s d (ground arith) m k in ground arith
      ]

reach-queue :
    (g : Graph) (policy : ShortcutPolicy) (fuel : ℕ) (visited queue : List SpaceId)
    {r : List SpaceId} (x : SpaceId)
    → reach g policy fuel visited queue ≡ some r
    → contains queue x ≡ true
    → contains r x ≡ true
unfolding reach
reach-queue g policy zero visited queue x h i = absurd (ground arith)
reach-queue g policy (suc fuel) visited [] x h i = absurd (ground arith)
reach-queue g policy (suc fuel) visited (c ∷ queue) x h i =
    let ds = forward_for_policy g c policy in
    let (_, b, _, _, _) = enqueue-keeps g ds visited queue x in
    elim (Option-cases
      (reach g policy fuel (enqueue g ds visited queue).0 (enqueue g ds visited queue).1)) [
        | inl n ↦ absurd (ground arith)
        | inr (r', e) ↦ elim (text_discrete c x) [
          | yes same ↦ ground arith
          | no other ↦
              let q =
                reach-queue g policy fuel (enqueue g ds visited queue).0
                  (enqueue g ds visited queue).1 x e (b (ground arith)) in
              ground arith
        ]
      ]

abbrev Reaches : Graph → ShortcutPolicy → SpaceId → SpaceId → Type 0
Reaches g policy origin d = (n : ℕ) × Way g policy origin d n

reach_sound :
    (g : Graph) (policy : ShortcutPolicy) (origin : SpaceId) (fuel : ℕ)
    (visited queue : List SpaceId) {r : List SpaceId} (x : SpaceId)
    → ((y : SpaceId) → contains queue y ≡ true → Reaches g policy origin y)
    → reach g policy fuel visited queue ≡ some r
    → contains r x ≡ true
    → Reaches g policy origin x
unfolding reach
reach_sound g policy origin zero visited queue x w h i = absurd (ground arith)
reach_sound g policy origin (suc fuel) visited [] x w h i = absurd (ground arith)
reach_sound g policy origin (suc fuel) visited (c ∷ queue) x w h i =
    let ds = forward_for_policy g c policy in
    let here = w c (ground arith) in
    elim (Option-cases
      (reach g policy fuel (enqueue g ds visited queue).0 (enqueue g ds visited queue).1)) [
        | inl n ↦ absurd (ground arith)
        | inr (r', e) ↦ elim (text_discrete c x) [
          | yes same ↦ subst (Reaches g policy origin) same here
          | no other ↦
              reach_sound g policy origin fuel (enqueue g ds visited queue).0
                (enqueue g ds visited queue).1 x
                (λ y j.
                  let (_, _, _, _, new) = enqueue-keeps g ds visited queue y in
                  elim (Bool-cases (contains queue y)) [
                    | inl q ↦ w y (ground arith)
                    | inr q ↦ (suc here.0, advance here.1 (ground (arith, new j)))
                  ])
                e (ground arith)
        ]
      ]

forward-known :
    (g : Graph) (policy : ShortcutPolicy) (s d : SpaceId)
    → IsSound g
    → IsClosed g
    → contains (forward_for_policy g s policy) d ≡ true
    → known g d ≡ true
unfolding forward_for_policy
forward-known g selectable_shortcuts s d k l h = l.target s d (unfold has_forward_edge in h)
forward-known g other_shortcuts s d k l h = l.target s d (unfold has_forward_edge in h)
forward-known g forced_shortcuts s d k l h = elim (Option-cases (forced g s)) [
  | inl n ↦ l.target s d (unfold has_forward_edge in ground arith)
  | inr (c, e) ↦
      let same : c ≡ d = ground arith in
      subst (λ t. known g t ≡ true) same (l.target s c (k.forced_edge s c e))
]

Way-found :
    (g : Graph) (policy : ShortcutPolicy) (origin : SpaceId) (r : List SpaceId) {d : SpaceId}
    {n : ℕ}
    → IsSound g
    → IsClosed g
    → Closed g policy [] r
    → contains r origin ≡ true
    → Way g policy origin d n
    → contains r d ≡ true
Way-found g policy origin r k l c o stay = o
Way-found g policy origin r k l c o (advance {s = s} {d = d} w m) =
    let at = Way-found g policy origin r k l c o w in
    let q = c s d (ground arith) m (forward-known g policy s d k l m) in ground arith

-- On a sound and closed graph, the spaces that ReachableFrom returns are exactly those at the end
-- of a way of legal forward steps from the origin.
pub reachable_from_iff :
    (g : Graph) (origin : SpaceId) (policy : ShortcutPolicy) {r : List SpaceId} (d : SpaceId)
    → IsSound g
    → IsClosed g
    → reachable_from g origin policy ≡ ok (some r)
    → (contains r d ≡ true) ↔ ((n : ℕ) × Way g policy origin d n)
unfolding reachable_from
reachable_from_iff g origin policy {r} d k l h =
    let (_, _, h1) = >>=-eq-ok (guard (known g origin) unknown_space) _ h in
    let (_, _, h2) = >>=-eq-ok (validate_shortcut_policy policy) _ h1 in
    let e : reach g policy (search_fuel g) (origin ∷ []) (origin ∷ []) ≡ some r = ground arith in
    let start : Frontier g policy [] (origin ∷ []) (origin ∷ []) = record {
      covered = λ x i. ground arith;
      expanded = λ s t i m q. absurd (ground arith);
    } in
    (
      λ i.
          reach_sound g policy origin (search_fuel g) (origin ∷ []) (origin ∷ []) d
            (λ y j.
              let same : origin ≡ y = ground arith in
              subst (Reaches g policy origin) same (0, stay))
            e i,
      λ w.
          Way-found g policy origin r k l
            (reach-Closed g policy (search_fuel g) [] (origin ∷ []) (origin ∷ []) start e)
            (reach-queue g policy (search_fuel g) (origin ∷ []) (origin ∷ []) origin e
              (ground arith))
            w.1,
    )
