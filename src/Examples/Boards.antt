-- ===== src/Examples/Boards.antt =====
-- Movements on the canonical board.
use buk_yutnori.Prelude.{
  none, ◌≡◌, refl, some, ◌++◌, List, ◌↔◌, ℕ, contains, ℕ_discrete, [], ◌∷◌, ◌≢◌, String, inr,
  text_discrete, string_eq, true, arith,
}
use buk_yutnori.Prelude.Result.{ok}
use buk_yutnori.Domain.{piece_on_board, piece_finished, route_normal}
use buk_yutnori.Board.Types.{
  forced, Position, validate_shortcut_policy, selectable_shortcuts, forced_shortcuts, known, node,
  choice, adjacency, policy_eq, has_forward_edge,
}
use buk_yutnori.Board.Forward.{ForwardPlan}
use buk_yutnori.Board.Forward.Shape.{IsSound, Shape, before_last, last}
use buk_yutnori.Board.Forward.Plans.{Plans}
use buk_yutnori.Board.Backdo.{backdo_plan, standing}
use buk_yutnori.Board.Backdo.Reversal.{
  IsClosed, Stands, backdo-accepts, backdo_twice, forward_then_backdo,
}
use buk_yutnori.Board.Distance.{
  shortest_distance, distance, out_of_fuel, search, scan, forward_for_policy,
}
use buk_yutnori.Board.Reachable.{reachable_from, reach, enqueue}
use buk_yutnori.Board.Reachable.Rounds.{reachable_from_ends}
use buk_yutnori.Board.Reachable.Complete.{reachable_from_iff}
use buk_yutnori.Board.Distance.Search.{Way, shortest_distance_ends, shortest_distance_sound}
use buk_yutnori.Board.Validate.{
  id_problems, space_problems, edge_problems, choice_problem, choice_problems, forced_problems,
  duplicate_edges, branch_problems, unforced_problems,
}
use buk_yutnori.Board.Validate.Playable.{validated}
use buk_yutnori.Board.Canonical.{canonical_graph}
use buk_yutnori.Board.Canonical.Sound.{canonical-IsSound, canonical-IsClosed}

abbrev on_gae : Position
on_gae = record { state = piece_on_board; space = "gae" }

-- Three steps from 개: to 모, past 걸 and 윷.
abbrev gae_to_mo : ForwardPlan
gae_to_mo = record {
  route = route_normal;
  destination = record { state = piece_on_board; space = "mo" };
  actual_previous_space = "yut";
  traversed = "geol" ∷ "yut" ∷ "mo" ∷ [];
}

gae_known : known canonical_graph "gae" ≡ true
unfolding node text_discrete
gae_known = refl

gae_Stands : Stands canonical_graph on_gae
unfolding node text_discrete
gae_Stands = record {
  known_space = refl;
  named = canonical-IsClosed.named on_gae.space gae_known;
  at = refl;
}

do_known : known canonical_graph "do" ≡ true
unfolding node text_discrete
do_known = refl

abbrev do_space : String
do_space = "do"

do_named : do_space ≢ ""
do_named = canonical-IsClosed.named do_space do_known

backdo-accepts_example :
    backdo_plan canonical_graph on_gae do_space
    ≡ ok (record {
      destination = standing canonical_graph do_space;
      actual_previous_space = "gae";
      traversed = do_space ∷ [];
    })
backdo-accepts_example = backdo-accepts canonical_graph on_gae do_space gae_Stands do_known do_named

backdo_twice_example :
    backdo_plan canonical_graph (standing canonical_graph do_space) "gae"
    ≡ ok (record { destination = on_gae; actual_previous_space = do_space; traversed = "gae" ∷ [] })
backdo_twice_example =
    backdo_twice canonical_graph on_gae do_space gae_Stands backdo-accepts_example

gae_Shape : Shape canonical_graph "gae" 3 gae_to_mo
unfolding has_forward_edge adjacency text_discrete
gae_Shape = record { chain = (refl, (refl, (refl, tt))); ends = inr (refl, refl, refl, refl) }

on_board_not_finished : piece_on_board ≢ piece_finished
on_board_not_finished e = ground arith

forward_then_backdo_example :
    backdo_plan canonical_graph gae_to_mo.destination "yut"
    ≡ ok (record {
      destination = standing canonical_graph (before_last "gae" gae_to_mo.traversed);
      actual_previous_space = last "gae" gae_to_mo.traversed;
      traversed = before_last "gae" gae_to_mo.traversed ∷ [];
    })
forward_then_backdo_example =
    forward_then_backdo canonical_graph "gae" 3 gae_to_mo canonical-IsClosed gae_known (omega arith)
      gae_Shape on_board_not_finished

-- The shortcut from 방 to 참먹이.
bang_distance :
    shortest_distance canonical_graph "bang" "chammeogi" selectable_shortcuts ≡ ok (distance 3)
unfolding shortest_distance node text_discrete validate_shortcut_policy search scan
    forward_for_policy adjacency
bang_distance = refl

shortest_distance_sound_example : Way canonical_graph selectable_shortcuts "bang" "chammeogi" 3
shortest_distance_sound_example =
    shortest_distance_sound canonical_graph "bang" "chammeogi" selectable_shortcuts bang_distance

shortest_distance_ends_example :
    shortest_distance canonical_graph "bang" "chammeogi" forced_shortcuts ≢ ok out_of_fuel
shortest_distance_ends_example =
    shortest_distance_ends canonical_graph "bang" "chammeogi" forced_shortcuts

no_id_problems : id_problems 0 canonical_graph.nodes ≡ []
unfolding id_problems text_discrete
no_id_problems = refl

no_space_problems : space_problems canonical_graph ≡ []
unfolding space_problems node text_discrete
no_space_problems = refl

no_edge_problems : edge_problems canonical_graph canonical_graph.edges ≡ []
unfolding edge_problems node text_discrete
no_edge_problems = refl

no_choice_problems : choice_problems canonical_graph canonical_graph.route_choices ≡ []
unfolding choice_problems choice_problem node text_discrete has_forward_edge adjacency ℕ_discrete
no_choice_problems = refl

no_forced_problems : forced_problems canonical_graph canonical_graph.forced_edges ≡ []
unfolding forced_problems choice text_discrete
no_forced_problems = refl

no_other_problems :
    duplicate_edges canonical_graph.edges
      ++ (branch_problems canonical_graph canonical_graph.nodes
          ++ unforced_problems canonical_graph canonical_graph.route_choices)
    ≡ []
unfolding duplicate_edges branch_problems unforced_problems ℕ_discrete text_discrete adjacency
    choice forced
no_other_problems = refl

validated_example :
    IsSound canonical_graph
    × IsClosed canonical_graph
    × (known canonical_graph canonical_graph.start_space ≡ true)
validated_example =
    validated canonical_graph no_id_problems no_space_problems no_edge_problems no_choice_problems
      no_forced_problems

abbrev all_spaces : List String
all_spaces =
    "bang" ∷ "sok_yut" ∷ "bangsugi" ∷ "sok_mo" ∷ "anjji" ∷ "jji_mo" ∷ "chammeogi" ∷ "nal_do" ∷ "do"
    ∷ "nal_gae" ∷ "gae" ∷ "nal_geol" ∷ "geol" ∷ "nal_yut" ∷ "yut" ∷ "mo" ∷ "back_do" ∷ "mo_do"
    ∷ "back_gae" ∷ "mo_gae" ∷ "back_geol" ∷ "back_yut" ∷ "back_mo" ∷ "jji_do" ∷ "back_mo_do"
    ∷ "jji_gae" ∷ "back_mo_gae" ∷ "jji_geol" ∷ "jji_yut" ∷ []

from_bang : reachable_from canonical_graph "bang" selectable_shortcuts ≡ ok (some all_spaces)
unfolding reachable_from node text_discrete validate_shortcut_policy reach enqueue
    forward_for_policy adjacency
from_bang = refl

reachable_from_ends_example : reachable_from canonical_graph "bang" selectable_shortcuts ≢ ok none
reachable_from_ends_example = reachable_from_ends canonical_graph "bang" selectable_shortcuts

reachable_from_iff_example :
    (contains all_spaces "mo_do" ≡ true)
    ↔ ((n : ℕ) × Way canonical_graph selectable_shortcuts "bang" "mo_do" n)
reachable_from_iff_example =
    reachable_from_iff canonical_graph "bang" selectable_shortcuts "mo_do" canonical-IsSound
      canonical-IsClosed from_bang
