-- ===== src/Board/Validate.antt =====
-- internal/domain/board/validate.go, the checks of Validate on the identifiers, the edges and the
-- route choices. A problem is a constructor with what its text names; problems stand in the order of
-- the graph's lists, where the code sorts some of them.
pub mod Playable
use buk_yutnori.Prelude.{
  ℕ, zero, suc, Bool, true, false, not, ◌||◌, ◌&&◌, List, [], ◌∷◌, ◌++◌, Option, none, some, ◌==◌,
  string_eq, nat_eq, if◌then◌else◌, contains, length, leb,
}
use buk_yutnori.Domain.{SpaceId}
use buk_yutnori.Board.Types.{
  Node, RouteChoice, Graph, known, adjacency, has_forward_edge, choice, forced, is_some,
}

pub data Problem : Type 0 where
  empty_id : ℕ → Problem
  unknown_start unknown_home start_not_home : Problem
  unknown_source unknown_destination : SpaceId → Problem
  self_edge duplicate_edge : SpaceId → SpaceId → Problem
  unknown_choice unknown_normal unknown_shortcut same_destinations : SpaceId → Problem
  normal_not_an_edge shortcut_not_an_edge not_two_edges : SpaceId → Problem
  branch_without_choice forced_without_choice forced_not_shortcut : SpaceId → Problem
  choice_without_forced : SpaceId → Problem

-- `if ... { problems = append(problems, p) }`
abbrev pub when : Bool → Problem → List Problem
when test problem = if test then problem ∷ [] else []

-- The check of the identifier in the loop over the nodes, from the place `index`.
unfoldable pub id_problems : ℕ → List Node → List Problem
id_problems index [] = []
id_problems index (n ∷ ns) = when (n.id == "") (empty_id index) ++ id_problems (suc index) ns

unfoldable pub space_problems : Graph → List Problem
space_problems g =
    when (not (known g g.start_space)) unknown_start
    ++ (when (not (known g g.home_checkpoint_space)) unknown_home
        ++ when (not (g.start_space == g.home_checkpoint_space)) start_not_home)

-- The loop over the edges.
unfoldable pub edge_problems : Graph → List (SpaceId × SpaceId) → List Problem
edge_problems g [] = []
edge_problems g ((from, to) ∷ es) =
    when (not (known g from)) (unknown_source from)
    ++ (when (not (known g to)) (unknown_destination to)
        ++ (when (from == to) (self_edge from to) ++ edge_problems g es))

-- `counts[item]`
abbrev pub edge_count : SpaceId → SpaceId → List (SpaceId × SpaceId) → ℕ
edge_count from to [] = 0
edge_count from to ((f, t) ∷ es) =
    let rest = edge_count from to es in if f == from && t == to then suc rest else rest

-- The loop over `sortedDuplicateEdges`: each edge that stands more than once, at its last but one.
unfoldable pub duplicate_edges : List (SpaceId × SpaceId) → List Problem
duplicate_edges [] = []
duplicate_edges ((from, to) ∷ es) =
    when (edge_count from to es == 1) (duplicate_edge from to) ++ duplicate_edges es

-- The body of the first loop over the route choices.
unfoldable pub choice_problem : Graph → SpaceId → RouteChoice → List Problem
choice_problem g source c =
    when (not (known g source)) (unknown_choice source)
    ++ (when (not (known g c.normal)) (unknown_normal source)
        ++ (when (not (known g c.shortcut)) (unknown_shortcut source)
            ++ (when (c.normal == c.shortcut) (same_destinations source)
                ++ (when (not (has_forward_edge g source c.normal)) (normal_not_an_edge source)
                    ++ (when (not (has_forward_edge g source c.shortcut))
                          (shortcut_not_an_edge source)
                        ++ when (not (length (adjacency g source) == 2)) (not_two_edges source))))))

unfoldable pub choice_problems : Graph → List (SpaceId × RouteChoice) → List Problem
choice_problems g [] = []
choice_problems g ((source, c) ∷ cs) = choice_problem g source c ++ choice_problems g cs

-- The loop over the nodes: a branch has a route choice.
unfoldable pub branch_problems : Graph → List Node → List Problem
branch_problems g [] = []
branch_problems g (n ∷ ns) =
    when (not (leb (length (adjacency g n.id)) 1) && not (is_some (choice g n.id)))
      (branch_without_choice n.id)
    ++ branch_problems g ns

abbrev pub forced_problem : SpaceId → SpaceId → Option RouteChoice → List Problem
forced_problem source destination none = forced_without_choice source ∷ []
forced_problem source destination (some c) =
    when (not (destination == c.shortcut)) (forced_not_shortcut source)

-- The loop over the forced edges.
unfoldable pub forced_problems : Graph → List (SpaceId × SpaceId) → List Problem
forced_problems g [] = []
forced_problems g ((source, destination) ∷ es) =
    forced_problem source destination (choice g source) ++ forced_problems g es

-- The loop that asks a forced edge of every route choice.
unfoldable pub unforced_problems : Graph → List (SpaceId × RouteChoice) → List Problem
unforced_problems g [] = []
unforced_problems g ((source, _) ∷ cs) =
    when (not (is_some (forced g source))) (choice_without_forced source) ++ unforced_problems g cs
