-- ===== src/Flow/Events.antt =====
-- internal/application/match_events.go and internal/protocol/match_events.go: the events of a
-- running match with their payloads, without the identifiers of the room and of the match.
use buk_yutnori.Prelude.{ℕ, Bool, List, Option}
use buk_yutnori.Domain.{
  PlayerId, PieceId, SpaceId, ResultTokenId, TeamId, YutResult, TurnPhase, RequiredInput, Route,
  MovementKind, ResultOrigin,
}

-- `ResultTokenView`
pub record TokenView : Type 0 where
  pub token_id : ResultTokenId
  pub result : YutResult
  pub origin : ResultOrigin

-- The previews, which nothing of the flow sets or reads, are left out.
pub record MoveCandidate : Type 0 where
  pub token_id : ResultTokenId
  pub piece_id : PieceId
  pub routes : List Route

pub data CpuControlReason : Type 0 where
  reason_none reason_timeout reason_disconnected reason_lobby_player : CpuControlReason

pub data RoomStatus : Type 0 where
  status_in_match status_post_match : RoomStatus

pub data PauseReason : Type 0 where
  reason_host_request reason_storage_failure : PauseReason

pub data ResumeReason : Type 0 where
  resumed_by_host pause_expired : ResumeReason

-- A stack is named by the team and the space that `stackIDFor` writes into its identifier.
pub data Event : Type 0 where
  game_started : PlayerId → SpaceId → Event
  turn_started : PlayerId → TurnPhase → RequiredInput → ℕ → Event
  cpu_control_started : PlayerId → CpuControlReason → Event
  yut_result : PlayerId → TokenView → Event
  result_queue_updated : List TokenView → Event
  result_selected : ResultTokenId → Event
  piece_selected : ResultTokenId → PieceId → Event
  move_required : RequiredInput → List MoveCandidate → Event
  piece_moved : List PieceId → Option SpaceId → Option SpaceId → MovementKind → Event
  pieces_stacked : TeamId × SpaceId → List PieceId → SpaceId → Option SpaceId → Event
  pieces_captured : List PieceId → SpaceId → Event
  buk_resolved :
      ResultTokenId → SpaceId → List PieceId → Option SpaceId → List SpaceId → Bool → Event
  game_ended : Option TeamId → Event
  room_updated : RoomStatus → Event
  game_paused : PauseReason → ℕ → Event
  game_resumed : ResumeReason → Event
