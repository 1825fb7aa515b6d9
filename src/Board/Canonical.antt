-- ===== src/Board/Canonical.antt =====
-- spec/board_graph.yaml, the board that the server loads: its spaces, its edges and its route
-- choices.
pub mod Sound
use buk_yutnori.Prelude.{List, [], ◌∷◌}
use buk_yutnori.Domain.{SpaceId}
use buk_yutnori.Board.Types.{
  Tag, tag_start, tag_home_checkpoint, tag_outer, tag_outer_corner, tag_shortcut_entry, tag_inner,
  tag_center, tag_route_choice, tag_shortcut, tag_buk_candidate, Node, RouteChoice, Graph,
}

abbrev space : SpaceId → List Tag → Node
space id tags = record { id = id; tags = tags }

abbrev canonical_nodes : List Node
canonical_nodes =
    space "chammeogi" (tag_start ∷ tag_home_checkpoint ∷ tag_outer_corner ∷ [])
    ∷ space "do" (tag_outer ∷ [])
    ∷ space "gae" (tag_outer ∷ [])
    ∷ space "geol" (tag_outer ∷ [])
    ∷ space "yut" (tag_outer ∷ [])
    ∷ space "mo" (tag_outer_corner ∷ tag_shortcut_entry ∷ [])
    ∷ space "back_do" (tag_outer ∷ tag_buk_candidate ∷ [])
    ∷ space "back_gae" (tag_outer ∷ tag_buk_candidate ∷ [])
    ∷ space "back_geol" (tag_outer ∷ tag_buk_candidate ∷ [])
    ∷ space "back_yut" (tag_outer ∷ tag_buk_candidate ∷ [])
    ∷ space "back_mo" (tag_outer_corner ∷ tag_shortcut_entry ∷ [])
    ∷ space "jji_do" (tag_outer ∷ tag_buk_candidate ∷ [])
    ∷ space "jji_gae" (tag_outer ∷ tag_buk_candidate ∷ [])
    ∷ space "jji_geol" (tag_outer ∷ tag_buk_candidate ∷ [])
    ∷ space "jji_yut" (tag_outer ∷ tag_buk_candidate ∷ [])
    ∷ space "jji_mo" (tag_outer_corner ∷ [])
    ∷ space "nal_do" (tag_outer ∷ [])
    ∷ space "nal_gae" (tag_outer ∷ [])
    ∷ space "nal_geol" (tag_outer ∷ [])
    ∷ space "nal_yut" (tag_outer ∷ [])
    ∷ space "mo_do" (tag_inner ∷ [])
    ∷ space "mo_gae" (tag_inner ∷ [])
    ∷ space "back_mo_do" (tag_inner ∷ [])
    ∷ space "back_mo_gae" (tag_inner ∷ [])
    ∷ space "bang" (tag_center ∷ tag_route_choice ∷ [])
    ∷ space "sok_yut" (tag_inner ∷ tag_buk_candidate ∷ [])
    ∷ space "sok_mo" (tag_inner ∷ tag_buk_candidate ∷ [])
    ∷ space "bangsugi" (tag_inner ∷ tag_shortcut ∷ [])
    ∷ space "anjji" (tag_inner ∷ tag_shortcut ∷ [])
    ∷ []

abbrev canonical_edges : List (SpaceId × SpaceId)
canonical_edges =
    ("chammeogi", "do")
    ∷ ("do", "gae")
    ∷ ("gae", "geol")
    ∷ ("geol", "yut")
    ∷ ("yut", "mo")
    ∷ ("mo", "back_do")
    ∷ ("back_do", "back_gae")
    ∷ ("back_gae", "back_geol")
    ∷ ("back_geol", "back_yut")
    ∷ ("back_yut", "back_mo")
    ∷ ("back_mo", "jji_do")
    ∷ ("jji_do", "jji_gae")
    ∷ ("jji_gae", "jji_geol")
    ∷ ("jji_geol", "jji_yut")
    ∷ ("jji_yut", "jji_mo")
    ∷ ("jji_mo", "nal_do")
    ∷ ("nal_do", "nal_gae")
    ∷ ("nal_gae", "nal_geol")
    ∷ ("nal_geol", "nal_yut")
    ∷ ("nal_yut", "chammeogi")
    ∷ ("mo", "mo_do")
    ∷ ("mo_do", "mo_gae")
    ∷ ("mo_gae", "bang")
    ∷ ("back_mo", "back_mo_do")
    ∷ ("back_mo_do", "back_mo_gae")
    ∷ ("back_mo_gae", "bang")
    ∷ ("bang", "sok_yut")
    ∷ ("sok_yut", "sok_mo")
    ∷ ("sok_mo", "jji_mo")
    ∷ ("bang", "bangsugi")
    ∷ ("bangsugi", "anjji")
    ∷ ("anjji", "chammeogi")
    ∷ []

abbrev pub canonical_graph : Graph
canonical_graph = record {
  start_space = "chammeogi";
  home_checkpoint_space = "chammeogi";
  nodes = canonical_nodes;
  edges = canonical_edges;
  route_choices =
      ("mo", record { normal = "back_do"; shortcut = "mo_do" })
      ∷ ("back_mo", record { normal = "jji_do"; shortcut = "back_mo_do" })
      ∷ ("bang", record { normal = "sok_yut"; shortcut = "bangsugi" })
      ∷ [];
  forced_edges = ("mo", "mo_do") ∷ ("back_mo", "back_mo_do") ∷ ("bang", "bangsugi") ∷ [];
  fixed_buk_destination = "jji_do";
  buk_candidates =
      "back_do" ∷ "back_gae" ∷ "back_geol" ∷ "back_yut" ∷ "jji_do" ∷ "jji_gae" ∷ "jji_geol"
      ∷ "jji_yut" ∷ "sok_yut" ∷ "sok_mo" ∷ [];
  home_checkpoint_distance = 1;
}
