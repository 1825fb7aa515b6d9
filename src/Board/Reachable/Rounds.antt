-- ===== src/Board/Reachable/Rounds.antt =====
-- What a round of ReachableFrom keeps, and that the rounds end.
use buk_yutnori.Prelude.{
  ℕ, zero, suc, ◌+◌, ◌≤◌, ◌<◌, ◌≡◌, ◌≢◌, true, ◌||◌, List, [], ◌∷◌, ◌++◌, none, ◌==◌, string_eq,
  contains, length, length-append, arith, inl, inr, Bool-cases, Option-cases, text_discrete,
}
use buk_yutnori.Prelude.Result.{ok}
use buk_yutnori.Domain.{SpaceId}
use buk_yutnori.Board.Types.{ShortcutPolicy, Graph, known, node}
use buk_yutnori.Board.Distance.{forward_for_policy, search_fuel}
use buk_yutnori.Board.Distance.Search.{unvisited, unvisited-le, unvisited_drop}
use buk_yutnori.Board.Reachable.{enqueue, reach, reachable_from}

abbrev work : Graph → List SpaceId → List SpaceId → ℕ
work g visited queue = length queue + unvisited g.nodes visited

enqueue-work :
    (g : Graph) (ds visited queue : List SpaceId)
    → work g (enqueue g ds visited queue).0 (enqueue g ds visited queue).1 ≤ work g visited queue
unfolding enqueue node
enqueue-work g [] visited queue = omega arith
enqueue-work g (d ∷ ds) visited queue = ground (
  arith,
  enqueue-work g ds visited queue,
  enqueue-work g ds (d ∷ visited) (queue ++ d ∷ []),
  unvisited_drop g.nodes visited d,
  length-append queue (d ∷ []),
)

reach_ends :
    (g : Graph) (policy : ShortcutPolicy) (fuel : ℕ) (visited queue : List SpaceId)
    → work g visited queue < fuel
    → reach g policy fuel visited queue ≢ none
unfolding reach
reach_ends g policy zero visited queue h = elim h [ ]
reach_ends g policy (suc fuel) visited [] h = λ e. ground arith
reach_ends g policy (suc fuel) visited (c ∷ queue) h =
    let spaces = forward_for_policy g c policy in
    let less = enqueue-work g spaces visited queue in
    let rest =
      reach_ends g policy fuel (enqueue g spaces visited queue).0 (enqueue g spaces visited queue).1
        (omega arith) in
    λ k.
      elim (Option-cases (
        reach g policy fuel (enqueue g spaces visited queue).0
          (enqueue g spaces visited queue).1)) [ inl n ↦ rest n | inr (r, e) ↦ ground arith ]

contains_last :
    (xs : List SpaceId) (d x : SpaceId) → contains (xs ++ d ∷ []) x ≡ (contains xs x || d == x)
contains_last [] d x = ground arith
contains_last (y ∷ xs) d x = ground (arith, contains_last xs d x)

-- What the inner loop keeps: visited and queued spaces stay so, known successors are visited, and
-- what is newly visited is queued.
pub enqueue-keeps :
    (g : Graph) (ds visited queue : List SpaceId) (x : SpaceId)
    → (contains visited x ≡ true → contains (enqueue g ds visited queue).0 x ≡ true)
      × (contains queue x ≡ true → contains (enqueue g ds visited queue).1 x ≡ true)
      × (contains ds x ≡ true → known g x ≡ true → contains (enqueue g ds visited queue).0 x ≡ true)
      × (contains (enqueue g ds visited queue).0 x ≡ true
          → (contains visited x || contains (enqueue g ds visited queue).1 x) ≡ true)
      × (contains (enqueue g ds visited queue).1 x ≡ true
          → (contains queue x || contains ds x) ≡ true)
unfolding enqueue
enqueue-keeps g [] visited queue x =
    ((λ h. h), (λ h. h), (λ h k. absurd (ground arith)), (λ h. ground arith), (λ h. ground arith))
enqueue-keeps g (d ∷ ds) visited queue x =
    let (a, b, c, e, f) = enqueue-keeps g ds visited queue x in
    let (a', b', c', e', f') = enqueue-keeps g ds (d ∷ visited) (queue ++ d ∷ []) x in
    let last = contains_last queue d x in
    elim (Bool-cases (contains visited d)) [
      | inl v ↦ rw v (
        a,
        b,
        (λ h k. elim (text_discrete d x) [
          | yes same ↦ a (ground arith)
          | no other ↦ c (ground arith) k
        ]),
        e,
        (λ h. ground (arith, f h)),
      )
      | inr v ↦ elim (Bool-cases (known g d)) [
        | inr n ↦
            rw (v, n)
              (
                a,
                b,
                (λ h k. elim (text_discrete d x) [
                  | yes same ↦ absurd (ground arith)
                  | no other ↦ c (ground arith) k
                ]),
                e,
                (λ h. ground (arith, f h)),
              )
        | inl n ↦
            rw (v, n)
              (
                (λ h. a' (ground arith)),
                (λ h. b' (ground arith)),
                (λ h k. elim (text_discrete d x) [
                  | yes same ↦ a' (ground arith)
                  | no other ↦ c' (ground arith) k
                ]),
                (λ h. elim (text_discrete d x) [
                  | yes same ↦ let q = b' (ground arith) in ground arith
                  | no other ↦ let q = e' h in ground arith
                ]),
                (λ h. let q = f' h in ground arith),
              )
      ]
    ]

-- The search of ReachableFrom never runs out of its fuel.
pub reachable_from_ends :
    (g : Graph) (origin : SpaceId) (policy : ShortcutPolicy)
    → reachable_from g origin policy ≢ ok none
unfolding reachable_from
reachable_from_ends g origin policy e =
    let enough =
      reach_ends g policy (search_fuel g) (origin ∷ []) (origin ∷ [])
        (omega (arith, unvisited-le g.nodes (origin ∷ []))) in
    ground arith
