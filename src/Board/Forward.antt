-- ===== src/Board/Forward.antt =====
-- internal/domain/board/forward.go
pub mod Shape
pub mod Plans
pub mod Lands
use buk_yutnori.Prelude.{
  ℕ, zero, suc, Bool, true, false, not, ◌&&◌, ◌||◌, List, [], ◌∷◌, ◌++◌, Option, none, some, ◌==◌,
  string_eq, if◌then◌else◌,
}
use buk_yutnori.Prelude.Result.{Result, ok, err, ◌>>=◌, ◌>>◌}
use buk_yutnori.Domain.{
  Error, unknown_space, invalid_position, invalid_forward_spaces, forward_movement_unavailable,
  no_forward_space, SpaceId, PieceState, piece_waiting, piece_on_board, piece_home_checkpoint,
  piece_finished, piece_other, Route, route_normal, route_shortcut,
}
use buk_yutnori.Board.Types.{
  ShortcutPolicy, selectable_shortcuts, forced_shortcuts, other_shortcuts, policy_eq,
  validate_shortcut_policy, Position, RouteChoice, Graph, known, adjacency, choice, forced,
}

-- `Traversed` holds the spaces entered, and not the conceptual finish.
pub record ForwardPlan : Type 0 where
  pub route : Route
  pub destination : Position
  pub actual_previous_space : SpaceId
  pub traversed : List SpaceId

abbrev pub finished_position : Position
finished_position = record { state = piece_finished; space = "" }

unfoldable pub is_back_mo_shortcut_space : SpaceId → Bool
is_back_mo_shortcut_space space =
    space == "back_mo" || (space == "back_mo_do" || space == "back_mo_gae")

-- The origin, and whether the piece stands at the home checkpoint.
unfoldable pub forward_origin : Graph → Position → Result Error (SpaceId × Bool)
forward_origin g position = elim position.state [
  | piece_waiting ↦ if position.space == "" then ok (g.start_space, false) else err invalid_position
  | piece_on_board ↦
      if not (known g position.space)
      then err unknown_space
      else if position.space == g.home_checkpoint_space
      then err invalid_position
      else ok (position.space, false)
  | piece_home_checkpoint ↦
      if position.space == g.home_checkpoint_space
      then ok (position.space, true)
      else err invalid_position
  | piece_finished ↦
      if position.space == "" then err forward_movement_unavailable else err invalid_position
  | piece_other ↦ err invalid_position
]

abbrev single : List SpaceId → Result Error SpaceId
single (destination ∷ []) = ok destination
single _ = err no_forward_space

unfoldable pub normal_forward_space : Graph → SpaceId → Result Error SpaceId
normal_forward_space g origin = elim (choice g origin) [
  | some c ↦ ok c.normal
  | none ↦ single (adjacency g origin)
]

-- The space after `current`, where no first destination is given.
unfoldable pub next_space : Graph → Bool → Bool → SpaceId → Result Error SpaceId
next_space g force_shortcuts continue_back_mo_shortcut current =
    if force_shortcuts || (continue_back_mo_shortcut && current == "bang")
    then elim (forced g current) [
      | some destination ↦ ok destination
      | none ↦ normal_forward_space g current
    ]
    else normal_forward_space g current

-- The variables of the loop in buildForwardPlan.
pub record Walk : Type 0 where
  pub current : SpaceId
  pub actual_previous : SpaceId
  pub traversed : List SpaceId
  pub home_checkpoint_reached : Bool

abbrev pub enter : Graph → Walk → SpaceId → Walk
enter g w next = record {
  current = next;
  actual_previous = w.current;
  traversed = w.traversed ++ next ∷ [];
  home_checkpoint_reached = next == g.home_checkpoint_space;
}

abbrev pub stop : Route → Walk → ForwardPlan
stop route w = record {
  route = route;
  destination = record {
    state = if w.home_checkpoint_reached then piece_home_checkpoint else piece_on_board;
    space = w.current;
  };
  actual_previous_space = w.actual_previous;
  traversed = w.traversed;
}

abbrev pub finish : Route → Walk → ForwardPlan
finish route w = record {
  route = route;
  destination = finished_position;
  actual_previous_space = "";
  traversed = w.traversed;
}

-- `first` is the destination given for this round, if it is not empty.
unfoldable pub chosen_space : Graph → Bool → Bool → SpaceId → SpaceId → Result Error SpaceId
chosen_space g force_shortcuts continue_back_mo first current =
    if first == "" then next_space g force_shortcuts continue_back_mo current else ok first

-- The rounds of the loop that are left. `first` is the first destination in the first round, and
-- empty in the others.
unfoldable pub walk : Graph → Route → Bool → Bool → ℕ → SpaceId → Walk → Result Error ForwardPlan
walk g route force_shortcuts continue_back_mo zero first w = ok (stop route w)
walk g route force_shortcuts continue_back_mo (suc rounds) first w =
    let rest = chosen_space g force_shortcuts continue_back_mo first w.current >>= λ next.
    walk g route force_shortcuts continue_back_mo rounds "" (enter g w next) in
    if w.home_checkpoint_reached then ok (finish route w) else rest

abbrev pub at_origin : SpaceId → Walk
at_origin origin = record {
  current = origin;
  actual_previous = "";
  traversed = [];
  home_checkpoint_reached = false;
}

unfoldable pub build_forward_plan :
    Graph → SpaceId → ℕ → Route → SpaceId → Bool → Bool → Result Error ForwardPlan
build_forward_plan g origin spaces route first_destination force_shortcuts continue_back_mo =
    walk g route force_shortcuts continue_back_mo spaces first_destination (at_origin origin)

unfoldable pub plans_from :
    Graph → SpaceId → ℕ → ShortcutPolicy → Option RouteChoice → Result Error (List ForwardPlan)
plans_from g origin spaces selectable_shortcuts (some c) = do
  normal ← build_forward_plan g origin spaces route_normal c.normal false false
  shortcut ←
      build_forward_plan g origin spaces route_shortcut c.shortcut false (origin == "back_mo")
  ok (normal ∷ shortcut ∷ [])
plans_from g origin spaces forced_shortcuts (some c) = elim (forced g origin) [
  | none ↦ err no_forward_space
  | some destination ↦ do
    plan ← build_forward_plan g origin spaces route_shortcut destination true false
    ok (plan ∷ [])
]
plans_from g origin spaces policy _ = do
  plan ←
      build_forward_plan g origin spaces route_normal "" (policy == forced_shortcuts)
        (is_back_mo_shortcut_space origin)
  ok (plan ∷ [])

abbrev pub home_finish : ForwardPlan
home_finish = record {
  route = route_normal;
  destination = finished_position;
  actual_previous_space = "";
  traversed = [];
}

-- `spaces` is not negative here: the callers pass the length of a throw.
unfoldable pub forward_plans :
    Graph → Position → ℕ → ShortcutPolicy → Result Error (List ForwardPlan)
forward_plans g position zero policy = err invalid_forward_spaces
forward_plans g position (suc spaces) policy = do
  validate_shortcut_policy policy
  (origin, at_home_checkpoint) ← forward_origin g position
  (if at_home_checkpoint
      then ok (home_finish ∷ [])
      else plans_from g origin (suc spaces) policy (choice g origin))
