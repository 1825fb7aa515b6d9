-- ===== src/Domain/Enums.antt =====
-- internal/domain/enums.go, ids.go, result_token.go, yut_result.go. The code's enumerations are
-- texts: a constructor stands for each constant, and one more for every other text, which
-- `validate` refuses. Identifiers are texts, of which only the empty one is refused.
use buk_yutnori.Prelude.{ℕ, String, Eq, ◌==◌, string_eq, if◌then◌else◌}
use buk_yutnori.Prelude.Result.{Result, ok, err}
use buk_yutnori.Domain.Errors.{Error, invalid_id, invalid_enum_value, not_ordinary_yut_result}

-- PlayerID, PieceID, SpaceID, ResultTokenID: texts.
abbrev pub PlayerId : Type 0
PlayerId = String

abbrev pub PieceId : Type 0
PieceId = String

abbrev pub SpaceId : Type 0
SpaceId = String

abbrev pub ResultTokenId : Type 0
ResultTokenId = String

unfoldable pub validate_id : String → Result Error (Unit {0})
validate_id value = if value == "" then err invalid_id else ok tt

pub data TeamId : Type 0 where
  team_a team_b team_other : TeamId

pub data PieceState : Type 0 where
  piece_waiting piece_on_board piece_home_checkpoint piece_finished piece_other : PieceState

pub data YutResult : Type 0 where
  yut_do yut_gae yut_geol yut_yut yut_mo yut_backdo yut_buk yut_other : YutResult

pub data TurnPhase : Type 0 where
  turn_start turn_wait_throw turn_throwing_chain turn_resolve_queue : TurnPhase
  turn_wait_move_selection turn_wait_route_selection turn_apply_move : TurnPhase
  turn_resolve_stack_capture_finish turn_resolve_buk turn_cpu_control : TurnPhase
  turn_paused turn_end turn_match_end : TurnPhase

pub data RequiredInput : Type 0 where
  input_none input_throw input_select_move input_select_route : RequiredInput

-- `route_empty` is the empty text, by which a caller selects no route.
pub data Route : Type 0 where
  route_normal route_shortcut route_empty route_other : Route

pub data MovementKind : Type 0 where
  movement_forward movement_backdo movement_buk movement_finish : MovementKind

-- `origin_other` stands for the empty text too, the origin of no pending throw.
pub data ResultOrigin : Type 0 where
  origin_initial_throw origin_yut_extra origin_mo_extra origin_capture_extra : ResultOrigin
  origin_other : ResultOrigin

unfoldable pub TeamId-discrete : Discrete TeamId
TeamId-discrete = hlevel

unfoldable pub PieceState-discrete : Discrete PieceState
PieceState-discrete = hlevel

unfoldable pub YutResult-discrete : Discrete YutResult
YutResult-discrete = hlevel

unfoldable pub TurnPhase-discrete : Discrete TurnPhase
TurnPhase-discrete = hlevel

unfoldable pub RequiredInput-discrete : Discrete RequiredInput
RequiredInput-discrete = hlevel

unfoldable pub Route-discrete : Discrete Route
Route-discrete = hlevel

unfoldable pub ResultOrigin-discrete : Discrete ResultOrigin
ResultOrigin-discrete = hlevel

unfoldable pub MovementKind-discrete : Discrete MovementKind
MovementKind-discrete = hlevel

instance abbrev pub team_eq : Eq TeamId
team_eq = record { dec = TeamId-discrete }

instance abbrev pub piece_state_eq : Eq PieceState
piece_state_eq = record { dec = PieceState-discrete }

instance abbrev pub yut_eq : Eq YutResult
yut_eq = record { dec = YutResult-discrete }

instance abbrev pub phase_eq : Eq TurnPhase
phase_eq = record { dec = TurnPhase-discrete }

instance abbrev pub route_eq : Eq Route
route_eq = record { dec = Route-discrete }

instance abbrev pub origin_eq : Eq ResultOrigin
origin_eq = record { dec = ResultOrigin-discrete }

unfoldable pub validate_team_id : TeamId → Result Error (Unit {0})
validate_team_id team_other = err invalid_enum_value
validate_team_id _ = ok tt

unfoldable pub validate_yut_result : YutResult → Result Error (Unit {0})
validate_yut_result yut_other = err invalid_enum_value
validate_yut_result _ = ok tt

unfoldable pub ordinary_movement_spaces : YutResult → Result Error ℕ
ordinary_movement_spaces yut_do = ok 1
ordinary_movement_spaces yut_gae = ok 2
ordinary_movement_spaces yut_geol = ok 3
ordinary_movement_spaces yut_yut = ok 4
ordinary_movement_spaces yut_mo = ok 5
ordinary_movement_spaces yut_other = err invalid_enum_value
ordinary_movement_spaces _ = err not_ordinary_yut_result

unfoldable pub validate_route : Route → Result Error (Unit {0})
validate_route route_normal = ok tt
validate_route route_shortcut = ok tt
validate_route _ = err invalid_enum_value

unfoldable pub validate_origin : ResultOrigin → Result Error (Unit {0})
validate_origin origin_other = err invalid_enum_value
validate_origin _ = ok tt
