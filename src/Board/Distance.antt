-- ===== src/Board/Distance.antt =====
-- internal/domain/board/distance.go, the distances. The search takes fuel for the rounds of its `for`
-- loop; `search_fuel` is enough.
pub mod Search
use buk_yutnori.Prelude.{
  ℕ, zero, suc, ◌+◌, Bool, true, false, not, List, [], ◌∷◌, ◌++◌, Option, none, some, ◌==◌,
  string_eq, if◌then◌else◌, contains, length,
}
use buk_yutnori.Prelude.Result.{Result, ok, err, ◌>>=◌, ◌>>◌, guard}
use buk_yutnori.Domain.{
  Error, unknown_space, invalid_position, finish_distance_unavailable, no_finish_path, SpaceId,
  piece_waiting, piece_on_board, piece_home_checkpoint, piece_finished, piece_other,
}
use buk_yutnori.Board.Types.{
  ShortcutPolicy, selectable_shortcuts, forced_shortcuts, other_shortcuts, validate_shortcut_policy,
  Position, Graph, known, adjacency, forced,
}

unfoldable pub forward_for_policy : Graph → SpaceId → ShortcutPolicy → List SpaceId
forward_for_policy g origin forced_shortcuts = elim (forced g origin) [
  | some destination ↦ destination ∷ []
  | none ↦ adjacency g origin
]
forward_for_policy g origin _ = adjacency g origin

-- What a search comes to. `out_of_fuel` is never the result of `shortest_distance`.
pub data Outcome : Type 0 where
  distance : ℕ → Outcome
  not_found out_of_fuel : Outcome

-- The inner loop: it ends at the destination, or goes on with more spaces visited and queued.
pub data Round : Type 0 where
  arrived : ℕ → Round
  goes_on : List SpaceId → List (SpaceId × ℕ) → Round

unfoldable pub scan : Graph → SpaceId → ℕ → List SpaceId → List SpaceId → List (SpaceId × ℕ) → Round
scan g destination next_distance [] visited queue = goes_on visited queue
scan g destination next_distance (next ∷ rest) visited queue =
    let skip = scan g destination next_distance rest visited queue in
    let enqueue =
      scan g destination next_distance rest (next ∷ visited)
        (queue ++ (next, next_distance) ∷ []) in
    if not (known g next)
    then skip
    else if contains visited next
    then skip
    else if next == destination
    then arrived next_distance
    else enqueue

unfoldable pub search :
    Graph → ShortcutPolicy → SpaceId → ℕ → List SpaceId → List (SpaceId × ℕ) → Outcome
search g policy destination zero visited queue = out_of_fuel
search g policy destination (suc fuel) visited [] = not_found
search g policy destination (suc fuel) visited ((space, d) ∷ queue) =
    elim (scan g destination (d + 1) (forward_for_policy g space policy) visited queue) [
      | arrived n ↦ distance n
      | goes_on visited' queue' ↦ search g policy destination fuel visited' queue'
    ]

abbrev pub search_fuel : Graph → ℕ
search_fuel g = length g.nodes + 2

unfoldable pub shortest_distance : Graph → SpaceId → SpaceId → ShortcutPolicy → Result Error Outcome
shortest_distance g origin destination policy = do
  guard (known g origin) unknown_space
  guard (known g destination) unknown_space
  validate_shortcut_policy policy
  ok (
      if origin == destination
      then distance 0
      else search g policy destination (search_fuel g) (origin ∷ []) ((origin, 0) ∷ []))

abbrev finish_from : Graph → Outcome → Result Error ℕ
finish_from g (distance n) = ok (n + g.home_checkpoint_distance)
finish_from g _ = err no_finish_path

unfoldable pub remaining_forward_distance : Graph → Position → ShortcutPolicy → Result Error ℕ
remaining_forward_distance g position policy = do
  validate_shortcut_policy policy
  elim position.state [
    | piece_waiting ↦ err finish_distance_unavailable
    | piece_finished ↦ err finish_distance_unavailable
    | piece_home_checkpoint ↦
        if position.space == g.home_checkpoint_space
        then ok g.home_checkpoint_distance
        else err invalid_position
    | piece_on_board ↦
        if not (known g position.space)
        then err unknown_space
        else if position.space == g.home_checkpoint_space
        then err invalid_position
        else shortest_distance g position.space g.home_checkpoint_space policy >>= finish_from g
    | piece_other ↦ err invalid_position
  ]
