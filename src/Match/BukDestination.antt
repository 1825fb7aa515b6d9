-- ===== src/Match/BukDestination.antt =====
-- internal/domain/match/buk_movement.go, the destination of Buk that a new match chooses. The random
-- source is the answer that it gives for a limit, or none where it is nil.
pub mod Valid
use buk_yutnori.Prelude.{
  ℕ, Bool, true, false, not, ◌&&◌, ◌||◌, List, [], ◌∷◌, Option, none, some, ◌==◌, string_eq, nat_eq,
  if◌then◌else◌, contains, length, get_elem?, leb,
}
use buk_yutnori.Prelude.Result.{Result, ok, err, ◌>>=◌, ◌>>◌, guard}
use buk_yutnori.Domain.{
  Error, invalid_buk_planner, nil_random_source, random_source_out_of_range, SpaceId, validate_id,
}
use buk_yutnori.Room.Settings.{Settings}
use buk_yutnori.Board.Types.{
  Graph, Node, node, has_tag, tag_center, tag_route_choice, tag_buk_candidate,
}

abbrev pub RandomSource : Type 0
RandomSource = Option (ℕ → ℕ)

abbrev pub invalid_unless : Result Error (Unit {0}) → Result Error (Unit {0})
invalid_unless (ok u) = ok u
invalid_unless (err e) = err invalid_buk_planner

abbrev pub check_node : Option Node → Result Error (Unit {0})
check_node none = err invalid_buk_planner
check_node (some n) = do
  guard (not (has_tag n tag_center || has_tag n tag_route_choice)) invalid_buk_planner
  guard (has_tag n tag_buk_candidate) invalid_buk_planner

unfoldable pub validate_buk_destination : Graph → SpaceId → Result Error (Unit {0})
validate_buk_destination g destination = do
  invalid_unless (validate_id destination)
  check_node (node g destination)

-- The loop over the candidates.
unfoldable pub validate_candidates :
    Graph → List SpaceId → List SpaceId → Result Error (List SpaceId)
validate_candidates g seen [] = ok seen
validate_candidates g seen (candidate ∷ candidates) = do
  guard (not (contains seen candidate)) invalid_buk_planner
  validate_buk_destination g candidate
  validate_candidates g (candidate ∷ seen) candidates

-- The source has a state of its own: a `RandomSource` is what it answers in one call of the game, by
-- the limit, and a call of the game draws once at most.
unfoldable pub random_ticket : RandomSource → ℕ → Result Error ℕ
random_ticket none limit = err nil_random_source
random_ticket (some source) limit =
    if limit == 0
    then err random_source_out_of_range
    else if leb limit (source limit)
    then err random_source_out_of_range
    else ok (source limit)

-- `candidates[ticket]`, where a ticket is below the length.
abbrev pub candidate_at : List SpaceId → ℕ → Result Error SpaceId
candidate_at candidates ticket = elim (get_elem? candidates ticket) [
  | some space ↦ ok space
  | none ↦ err random_source_out_of_range
]

unfoldable pub initial_buk_destination : Graph → Settings → RandomSource → Result Error SpaceId
initial_buk_destination g settings source =
    if not settings.buk_mode_enabled
    then ok ""
    else if not settings.random_buk_destination
    then validate_buk_destination g g.fixed_buk_destination >> ok g.fixed_buk_destination
    else (do
      guard (length g.buk_candidates == 10) invalid_buk_planner
      seen ← validate_candidates g [] g.buk_candidates
      guard (contains seen g.fixed_buk_destination) invalid_buk_planner
      ticket ← random_ticket source (length g.buk_candidates)
      candidate_at g.buk_candidates ticket)
