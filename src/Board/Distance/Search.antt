-- ===== src/Board/Distance/Search.antt =====
-- The search for a shortest way ends, and the distance that it returns is the length of a way.
use buk_yutnori.Prelude.{
  ℕ, zero, suc, ◌+◌, ◌≤◌, ◌<◌, ◌≡◌, refl, subst, true, false, List, [], ◌∷◌, ◌++◌, string_eq,
  if◌then◌else◌, contains, length, length-append, arith, ◌≢◌, All, ◌⊎◌, All-append, Bool-cases, inl,
  inr, text_discrete,
}
use buk_yutnori.Prelude.Result.{ok}
use buk_yutnori.Domain.{SpaceId}
use buk_yutnori.Board.Types.{ShortcutPolicy, Node, Graph, known, node, is_some, find_node}
use buk_yutnori.Board.Distance.{
  forward_for_policy, distance, out_of_fuel, Round, arrived, goes_on, scan, search, search_fuel,
  shortest_distance,
}

-- A way of `n` legal forward steps.
pub data Way (g : Graph) (policy : ShortcutPolicy) (from : SpaceId) : SpaceId → ℕ → Type 0 where
  stay : Way g policy from from 0
  advance :
      {s d : SpaceId} {n : ℕ}
      → Way g policy from s n
      → contains (forward_for_policy g s policy) d ≡ true
      → Way g policy from d (suc n)

-- The nodes that are not visited.
unfoldable pub unvisited : List Node → List SpaceId → ℕ
unvisited [] visited = 0
unvisited (n ∷ ns) visited =
    let rest = unvisited ns visited in if contains visited n.id then rest else suc rest

pub unvisited-le : (ns : List Node) (visited : List SpaceId) → unvisited ns visited ≤ length ns
unfolding unvisited
unvisited-le [] visited = omega arith
unvisited-le (n ∷ ns) visited = ground (arith, unvisited-le ns visited)

unvisited_mono :
    (ns : List Node) (visited : List SpaceId) (s : SpaceId)
    → unvisited ns (s ∷ visited) ≤ unvisited ns visited
unfolding unvisited
unvisited_mono [] visited s = omega arith
unvisited_mono (n ∷ ns) visited s = ground (arith, unvisited_mono ns visited s)

pub unvisited_drop :
    (ns : List Node) (visited : List SpaceId) (s : SpaceId)
    → is_some (find_node ns s) ≡ true
    → contains visited s ≡ false
    → unvisited ns (s ∷ visited) < unvisited ns visited
unfolding unvisited
unvisited_drop [] visited s k h = absurd (ground arith)
unvisited_drop (n ∷ ns) visited s k h = elim (text_discrete n.id s) [
  | yes e ↦ ground (arith, unvisited_mono ns visited s)
  | no e ↦ ground (arith, unvisited_drop ns visited s)
]

-- What is left to do: the queued spaces, and the nodes that may still be queued.
abbrev work : Graph → List SpaceId → List (SpaceId × ℕ) → ℕ
work g visited queue = length queue + unvisited g.nodes visited

scan-work :
    (g : Graph) (destination : SpaceId) (d : ℕ) (spaces visited : List SpaceId)
    (queue : List (SpaceId × ℕ)) {visited' : List SpaceId} {queue' : List (SpaceId × ℕ)}
    → scan g destination d spaces visited queue ≡ goes_on visited' queue'
    → work g visited' queue' ≤ work g visited queue
unfolding scan node
scan-work g destination d [] visited queue h = ground arith
scan-work g destination d (s ∷ spaces) visited queue {visited'} {queue'} h = ground (
  arith,
  scan-work g destination d spaces visited queue {visited' = visited'} {queue' = queue'},
  scan-work g destination d spaces (s ∷ visited) (queue ++ (s, d) ∷ []) {visited' = visited'}
      {queue' = queue'},
  unvisited_drop g.nodes visited s,
  length-append queue ((s, d) ∷ []),
)

Round-cases :
    (r : Round)
    → ((n : ℕ) × (r ≡ arrived n))
      ⊎ ((v : List SpaceId) × (q : List (SpaceId × ℕ)) × (r ≡ goes_on v q))
Round-cases (arrived n) = inl (n, refl)
Round-cases (goes_on v q) = inr (v, q, refl)

-- With more fuel than work the search does not run out of it.
search_ends :
    (g : Graph) (policy : ShortcutPolicy) (destination : SpaceId) (fuel : ℕ)
    (visited : List SpaceId) (queue : List (SpaceId × ℕ))
    → work g visited queue < fuel
    → search g policy destination fuel visited queue ≢ out_of_fuel
unfolding search
search_ends g policy destination zero visited queue h = elim h [ ]
search_ends g policy destination (suc fuel) visited [] h = λ e. ground arith
search_ends g policy destination (suc fuel) visited ((s, d) ∷ queue) h =
    elim (Round-cases (scan g destination (d + 1) (forward_for_policy g s policy) visited queue)) [
      | inl (n, e) ↦ λ k. ground arith
      | inr (v, q, e) ↦
          let less =
            scan-work g destination (d + 1) (forward_for_policy g s policy) visited queue e in
          let rest = search_ends g policy destination fuel v q (omega arith) in
          λ k. rest (ground arith)
    ]

-- Every queued space is at the end of a way of its distance.
abbrev Ways : Graph → ShortcutPolicy → SpaceId → List (SpaceId × ℕ) → Type 0
Ways g policy from = All (λ (p : SpaceId × ℕ). Way g policy from p.0 p.1)

-- All spaces of a list are one step from the end of a way.
abbrev Steps : Graph → ShortcutPolicy → SpaceId → ℕ → List SpaceId → Type 0
Steps g policy from d = All (λ s. Way g policy from s d)

-- What a round leaves: the way to the destination, or queued spaces at the ends of ways.
abbrev Sound : Graph → ShortcutPolicy → SpaceId → SpaceId → Round → Type 0
Sound g policy from destination (arrived n) = Way g policy from destination n
Sound g policy from destination (goes_on visited queue) = Ways g policy from queue

scan-Sound :
    (g : Graph) (policy : ShortcutPolicy) (from destination : SpaceId) (d : ℕ)
    (spaces visited : List SpaceId) (queue : List (SpaceId × ℕ))
    → Steps g policy from d spaces
    → Ways g policy from queue
    → Sound g policy from destination (scan g destination d spaces visited queue)
unfolding scan
scan-Sound g policy from destination d [] visited queue s w = w
scan-Sound g policy from destination d (next ∷ spaces) visited queue s w =
    let skip = scan-Sound g policy from destination d spaces visited queue s.1 w in
    let enqueue =
      scan-Sound g policy from destination d spaces (next ∷ visited) (queue ++ (next, d) ∷ []) s.1 (
        All-append (λ (p : SpaceId × ℕ). Way g policy from p.0 p.1) queue ((next, d) ∷ []) w
          (s.0, tt)) in
    elim (Bool-cases (known g next)) [
      | inr n ↦ subst (Sound g policy from destination) (ground arith) skip
      | inl n ↦ elim (Bool-cases (contains visited next)) [
        | inl c ↦ subst (Sound g policy from destination) (ground arith) skip
        | inr c ↦ elim (text_discrete next destination) [
          | yes e ↦
              subst (Sound g policy from destination) {x = arrived d} (ground arith)
                (subst (λ t. Way g policy from t d) e s.0)
          | no e ↦ subst (Sound g policy from destination) (ground arith) enqueue
        ]
      ]
    ]

next-Steps :
    (g : Graph) (policy : ShortcutPolicy) (from s : SpaceId) (d : ℕ) (spaces : List SpaceId)
    → Way g policy from s d
    → ((t : SpaceId) → contains spaces t ≡ true → contains (forward_for_policy g s policy) t ≡ true)
    → Steps g policy from (d + 1) spaces
next-Steps g policy from s d [] w h = tt
next-Steps g policy from s d (t ∷ spaces) w h = (
  subst (Way g policy from t) (omega arith) (advance w (h t (ground arith))),
  next-Steps g policy from s d spaces w (λ u k. h u (ground arith)),
)

search_sound :
    (g : Graph) (policy : ShortcutPolicy) (from destination : SpaceId) (fuel : ℕ)
    (visited : List SpaceId) (queue : List (SpaceId × ℕ)) {n : ℕ}
    → Ways g policy from queue
    → search g policy destination fuel visited queue ≡ distance n
    → Way g policy from destination n
unfolding search
search_sound g policy from destination zero visited queue w h = absurd (ground arith)
search_sound g policy from destination (suc fuel) visited [] w h = absurd (ground arith)
search_sound g policy from destination (suc fuel) visited ((s, d) ∷ queue) {n} w h =
    let spaces = forward_for_policy g s policy in
    let sound =
      scan-Sound g policy from destination (d + 1) spaces visited queue
        (next-Steps g policy from s d spaces w.0 (λ t k. k)) w.1 in
    elim (Round-cases (scan g destination (d + 1) spaces visited queue)) [
      | inl (m, e) ↦
          let way : Way g policy from destination m =
            subst (Sound g policy from destination) e sound in
          subst (Way g policy from destination) (ground arith) way
      | inr (v, q, e) ↦
          search_sound g policy from destination fuel v q
            (subst (Sound g policy from destination) e sound) (ground arith)
    ]

-- The search of `shortest_distance` always ends in an answer.
pub shortest_distance_ends :
    (g : Graph) (origin destination : SpaceId) (policy : ShortcutPolicy)
    → shortest_distance g origin destination policy ≢ ok out_of_fuel
unfolding shortest_distance
shortest_distance_ends g origin destination policy e =
    let enough =
      search_ends g policy destination (search_fuel g) (origin ∷ []) ((origin, 0) ∷ [])
        (omega (arith, unvisited-le g.nodes (origin ∷ []))) in
    ground arith

-- A distance that `shortest_distance` answers is the length of a way of legal forward steps.
pub shortest_distance_sound :
    (g : Graph) (origin destination : SpaceId) (policy : ShortcutPolicy) {n : ℕ}
    → shortest_distance g origin destination policy ≡ ok (distance n)
    → Way g policy origin destination n
unfolding shortest_distance
shortest_distance_sound g origin destination policy {n} h =
    elim (text_discrete origin destination) [
      | yes e ↦
          subst (Way g policy origin destination) (ground arith)
            (subst (λ t. Way g policy origin t 0) e stay)
      | no e ↦
          search_sound g policy origin destination (search_fuel g) (origin ∷ []) ((origin, 0) ∷ [])
            (stay, tt) (ground arith)
    ]
