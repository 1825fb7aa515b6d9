-- ===== src/Board/Reachable.antt =====
-- internal/domain/board/distance.go, ReachableFrom. The search takes fuel for the rounds of its
-- loop; without enough it gives none.
pub mod Rounds
pub mod Complete
use buk_yutnori.Prelude.{
  ℕ, zero, suc, Bool, true, false, not, List, [], ◌∷◌, ◌++◌, Option, none, some, string_eq,
  if◌then◌else◌, contains,
}
use buk_yutnori.Prelude.Result.{Result, ok, err, ◌>>=◌, ◌>>◌, guard}
use buk_yutnori.Domain.{Error, unknown_space, SpaceId}
use buk_yutnori.Board.Types.{ShortcutPolicy, validate_shortcut_policy, Graph, known}
use buk_yutnori.Board.Distance.{forward_for_policy, search_fuel}

-- The inner loop: the visited and the queued spaces.
unfoldable pub enqueue :
    Graph → List SpaceId → List SpaceId → List SpaceId → List SpaceId × List SpaceId
enqueue g [] visited queue = (visited, queue)
enqueue g (d ∷ ds) visited queue =
    let skip = enqueue g ds visited queue in
    let add = enqueue g ds (d ∷ visited) (queue ++ d ∷ []) in
    if contains visited d then skip else if not (known g d) then skip else add

-- `append(result, current)`, and what follows.
abbrev pub found : SpaceId → Option (List SpaceId) → Option (List SpaceId)
found current none = none
found current (some rest) = some (current ∷ rest)

unfoldable pub reach :
    Graph → ShortcutPolicy → ℕ → List SpaceId → List SpaceId → Option (List SpaceId)
reach g policy zero visited queue = none
reach g policy (suc fuel) visited [] = some []
reach g policy (suc fuel) visited (current ∷ queue) =
    let (visited', queue') = enqueue g (forward_for_policy g current policy) visited queue in
    found current (reach g policy fuel visited' queue')

unfoldable pub reachable_from :
    Graph → SpaceId → ShortcutPolicy → Result Error (Option (List SpaceId))
reachable_from g origin policy = do
  guard (known g origin) unknown_space
  validate_shortcut_policy policy
  ok (reach g policy (search_fuel g) (origin ∷ []) (origin ∷ []))
