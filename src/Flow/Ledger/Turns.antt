-- ===== src/Flow/Ledger/Turns.antt =====
-- The resolution of a turn tells nothing.
use buk_yutnori.Prelude.{
  Bool, Bool-cases, inl, inr, List, [], ◌∷◌, Option, none, some, ◌==◌, nat_eq, length,
}
use buk_yutnori.Prelude.Result.{Result, ok, err}
use buk_yutnori.Domain.{
  Error, ResultTokenId, PieceId, Route, YutResult, yut_backdo, yut_eq, invalid_configuration,
  TurnPhase, turn_resolve_queue, turn_resolve_buk, turn_wait_move_selection, turn_end,
  turn_match_end,
}
use buk_yutnori.Turn.Machine.{Machine, new_machine}
use buk_yutnori.Match.Types.{MoveOutcome}
use buk_yutnori.Flow.Events.{MoveCandidate}
use buk_yutnori.Flow.Runtime.{Runtime, Method, current_player, current_team, on_game}
use buk_yutnori.Match.Movement.{apply_ordinary_move, apply_backdo_move}
use buk_yutnori.Flow.Resolution.{
  Task, with_machine, apply_result, resolve_buk_head, current_candidates, discard_only,
  require_move, enter_move_selection, open_turn, begin_turn, end_turn, complete_move_flow,
  apply_found, apply_selected_move, ask_for_route, take_candidate, take_found, select_move_internal,
  step_by, step_resolution,
}
use buk_yutnori.Flow.Ledger.{Ledger}
use buk_yutnori.Flow.Ledger.Steps.{
  Keeps, parts, either-Ledger, on_game-Keeps, after_queue_resolved-Keeps,
}

apply_result-Keeps :
    (result : YutResult) (piece : PieceId) (route : Route) → Keeps (apply_result result piece route)
apply_result-Keeps result piece route = record {
  sustains = λ rt v.
      either-Ledger (result == yut_backdo)
        (on_game (λ game. apply_backdo_move game (current_team rt) piece) rt)
        (on_game (λ game. apply_ordinary_move game (current_team rt) piece result route) rt)
        ((on_game-Keeps (λ game. apply_backdo_move game (current_team rt) piece)).sustains rt v)
        ((on_game-Keeps
            (λ game. apply_ordinary_move game (current_team rt) piece result route)).sustains
          rt v);
}

resolve_buk_head-Keeps : (id : ResultTokenId) → Keeps (resolve_buk_head id)
unfolding resolve_buk_head
resolve_buk_head-Keeps id = search parts depth 24

current_candidates-Keeps : Keeps current_candidates
unfolding current_candidates
current_candidates-Keeps = record { sustains = λ rt v. v }

require_move-Keeps : (candidates : List MoveCandidate) → Keeps (require_move candidates)
require_move-Keeps candidates = record {
  sustains = λ rt v. elim (Bool-cases rt.cpu_controlled) [ inl e ↦ rw e v | inr e ↦ rw e v ];
}

discard_only-Keeps : (unusable : List ResultTokenId) → Keeps (discard_only unusable)
discard_only-Keeps [] = record { sustains = λ rt v. v }
discard_only-Keeps (id ∷ []) = search parts depth 10
discard_only-Keeps (id ∷ other ∷ more) = record { sustains = λ rt v. v }

enter_move_selection-Keeps : Keeps enter_move_selection
unfolding enter_move_selection
enter_move_selection-Keeps =
    search (parts, current_candidates-Keeps, require_move-Keeps, discard_only-Keeps) depth 12

module _ (go : Task → Method (Unit {0})) (kept : (t : Task) → Keeps (go t)) where
  open_turn-Keeps : Keeps (open_turn go)
  open_turn-Keeps = search (parts, kept) depth 20

  begin_turn-Keeps : Keeps (begin_turn go)
  unfolding begin_turn
  begin_turn-Keeps = record {
    sustains = λ rt v. begun rt (new_machine (current_player rt) rt.settings) v;
  }
    where
      begun :
          (rt : Runtime) (r : Result Error Machine)
          → Ledger rt
          → Ledger
              (elim r as (λ _. Runtime × Result Error (Unit {0})) [
                | err _ ↦ (rt, err invalid_configuration)
                | ok machine ↦ open_turn go (with_machine machine rt)
              ]).0
      begun rt (err e) v = v
      begun rt (ok machine) v = open_turn-Keeps.sustains (with_machine machine rt) v

  end_turn-Keeps : Keeps (end_turn go)
  unfolding end_turn
  end_turn-Keeps = search (parts, begin_turn-Keeps) depth 10

  complete_move_flow-Keeps :
      (id : ResultTokenId) (outcome : MoveOutcome) → Keeps (complete_move_flow go id outcome)
  unfolding complete_move_flow
  complete_move_flow-Keeps id outcome = search (parts, kept) depth 24

  apply_found-Keeps :
      (id : ResultTokenId) (piece : PieceId) (route : Route) (result : Option YutResult)
      → Keeps (apply_found go id piece route result)
  apply_found-Keeps id piece route none = record { sustains = λ rt v. v }
  apply_found-Keeps id piece route (some result) =
      search (parts, apply_result-Keeps, complete_move_flow-Keeps) depth 8

  pub apply_selected_move-Keeps :
      (id : ResultTokenId) (piece : PieceId) (route : Route)
      → Keeps (apply_selected_move go id piece route)
  unfolding apply_selected_move
  apply_selected_move-Keeps id piece route = record {
    sustains = λ rt v. (apply_found-Keeps id piece route _).sustains rt v;
  }

  ask_for_route-Keeps : (id : ResultTokenId) (piece : PieceId) → Keeps (ask_for_route go id piece)
  ask_for_route-Keeps id piece = record {
    sustains = λ rt v. elim (Bool-cases rt.cpu_controlled) [ inl e ↦ rw e v | inr e ↦ rw e v ];
  }

  take_candidate-Keeps :
      (two : Bool) (id : ResultTokenId) (piece : PieceId) → Keeps (take_candidate go two id piece)
  unfolding take_candidate
  take_candidate-Keeps two id piece =
      search (parts, ask_for_route-Keeps, apply_selected_move-Keeps) depth 14

  take_found-Keeps :
      (id : ResultTokenId) (piece : PieceId) (found : Option MoveCandidate)
      → Keeps (take_found go id piece found)
  take_found-Keeps id piece none = record { sustains = λ rt v. v }
  take_found-Keeps id piece (some c) = take_candidate-Keeps (length c.routes == 2) id piece

  pub select_move_internal-Keeps :
      (id : ResultTokenId) (piece : PieceId) → Keeps (select_move_internal go id piece)
  unfolding select_move_internal
  select_move_internal-Keeps id piece =
      search (parts, current_candidates-Keeps, take_found-Keeps) depth 8

  step_by-Keeps : (p : TurnPhase) → Keeps (step_by go p)
  step_by-Keeps turn_resolve_queue = search (parts, after_queue_resolved-Keeps) depth 6
  step_by-Keeps turn_resolve_buk = search (parts, resolve_buk_head-Keeps) depth 6
  step_by-Keeps turn_wait_move_selection = search (parts, enter_move_selection-Keeps) depth 6
  step_by-Keeps turn_end = search (parts, end_turn-Keeps) depth 6
  step_by-Keeps turn_match_end = search parts depth 6
  step_by-Keeps _ = record { sustains = λ rt v. v }

  pub step_resolution-Keeps : Keeps (step_resolution go)
  unfolding step_resolution
  step_resolution-Keeps = record {
    sustains = λ rt v. (step_by-Keeps rt.machine.phase).sustains rt v;
  }
