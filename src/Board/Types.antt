-- ===== src/Board/Types.antt =====
-- internal/domain/board/types.go, and of load.go the maps that `rebuildAdjacency` and the loader
-- derive from the document. The fields that only `Validate` reads are left out.
use buk_yutnori.Prelude.{
  ℕ, Bool, true, false, List, [], ◌∷◌, Option, none, some, Eq, ◌==◌, string_eq, if◌then◌else◌,
  contains, lookup,
}
use buk_yutnori.Prelude.Result.{Result, ok, err}
use buk_yutnori.Domain.{Error, invalid_shortcut_policy, unknown_space, SpaceId, PieceState}

pub data Tag : Type 0 where
  tag_start tag_home_checkpoint tag_outer tag_outer_corner tag_shortcut_entry tag_inner : Tag
  tag_center tag_route_choice tag_shortcut tag_buk_candidate tag_other : Tag

unfoldable pub Tag-discrete : Discrete Tag
Tag-discrete = hlevel

instance abbrev pub tag_eq : Eq Tag
tag_eq = record { dec = Tag-discrete }

pub record Node : Type 0 where
  pub id : SpaceId
  pub tags : List Tag

abbrev pub has_tag : Node → Tag → Bool
has_tag node tag = contains node.tags tag

pub data ShortcutPolicy : Type 0 where
  selectable_shortcuts forced_shortcuts other_shortcuts : ShortcutPolicy

unfoldable pub ShortcutPolicy-discrete : Discrete ShortcutPolicy
ShortcutPolicy-discrete = hlevel

instance abbrev pub policy_eq : Eq ShortcutPolicy
policy_eq = record { dec = ShortcutPolicy-discrete }

unfoldable pub validate_shortcut_policy : ShortcutPolicy → Result Error (Unit {0})
validate_shortcut_policy other_shortcuts = err invalid_shortcut_policy
validate_shortcut_policy _ = ok tt

-- The empty space is that of a piece that is off the board.
pub record Position : Type 0 where
  pub state : PieceState
  pub space : SpaceId

pub record RouteChoice : Type 0 where
  pub normal : SpaceId
  pub shortcut : SpaceId

pub record Graph : Type 0 where
  pub start_space : SpaceId
  pub home_checkpoint_space : SpaceId
  pub nodes : List Node
  pub edges : List (SpaceId × SpaceId)
  pub route_choices : List (SpaceId × RouteChoice)
  pub forced_edges : List (SpaceId × SpaceId)
  pub fixed_buk_destination : SpaceId
  pub buk_candidates : List SpaceId
  pub home_checkpoint_distance : ℕ

abbrev pub find_node : List Node → SpaceId → Option Node
find_node [] id = none
find_node (n ∷ ns) id = if n.id == id then some n else find_node ns id

-- `nodeByID`: the first node with the identifier.
unfoldable pub node : Graph → SpaceId → Option Node
node g id = find_node g.nodes id

abbrev pub is_some {ℓ} : {A : Type ℓ} → Option A → Bool
is_some none = false
is_some (some _) = true

abbrev pub known : Graph → SpaceId → Bool
known g id = is_some (node g id)

abbrev pub targets : List (SpaceId × SpaceId) → SpaceId → List SpaceId
targets [] id = []
targets ((from, to) ∷ es) id = if from == id then to ∷ targets es id else targets es id

-- `adjacency`: the destinations of the edges that leave a space, in the order of the document.
unfoldable pub adjacency : Graph → SpaceId → List SpaceId
adjacency g id = targets g.edges id

unfoldable pub forward_spaces : Graph → SpaceId → Result Error (List SpaceId)
forward_spaces g id = if known g id then ok (adjacency g id) else err unknown_space

unfoldable pub has_forward_edge : Graph → SpaceId → SpaceId → Bool
has_forward_edge g from to = contains (adjacency g from) to

unfoldable pub choice : Graph → SpaceId → Option RouteChoice
choice g id = lookup id g.route_choices

unfoldable pub forced : Graph → SpaceId → Option SpaceId
forced g id = lookup id g.forced_edges
