-- ===== src/Flow/Tasks.antt =====
-- internal/application/match_flow.go: the loops of the flow. The automatic steps end a turn, which
-- may begin the computer player's, whose actions run the automatic steps: the knot is tied by fuel.
use buk_yutnori.Prelude.{
  ℕ, zero, suc, Bool, true, false, not, ◌&&◌, ◌||◌, ◌==◌, if◌then◌else◌, ltb, eqb,
}
use buk_yutnori.Prelude.Result.{Result, ok, err}
use buk_yutnori.Prelude.Exec.{◌>>=◌, ◌>>◌, pure, fail, lift, reads, modify, guard}
use buk_yutnori.Domain.{
  Error, TurnPhase, invalid_turn_action, out_of_steps, turn_wait_throw, turn_resolve_queue,
  turn_wait_move_selection, turn_wait_route_selection, turn_match_end, phase_eq, validate_route,
}
use buk_yutnori.Turn.Machine.{route_selected, discard_unusable_result}
use buk_yutnori.Cpu.Policy.{Decision, Action, decide, reader, action_discard_result}
use buk_yutnori.Flow.Runtime.{Method, current_team, next_draw, on_machine, next_u64}
use buk_yutnori.Flow.Resolution.{
  Task, advances_turn, runs_cpu_turn, ResolutionStep, step_continue, stage_result_queue_updated,
  perform_throw, apply_selected_move, select_move_internal, step_resolution,
}

abbrev pub dropped : Result Error (Unit {0}) → Result Error Bool
dropped (ok _) = ok true
dropped (err out_of_steps) = err out_of_steps
dropped (err _) = ok false

-- A call whose error is dropped, but for the model's own: whether it succeeded.
abbrev pub attempt : Method (Unit {0}) → Method Bool
attempt call rt = ((call rt).0, dropped (call rt).1)

abbrev pub valid_route : Result Error (Unit {0}) → Bool
valid_route (ok _) = true
valid_route (err _) = false

module _ (go : Task → Method (Unit {0})) where
  abbrev pub choose_route : Decision → Method (Unit {0})
  choose_route decision = do
    piece ← reads (λ rt. rt.pending_move_piece)
    guard (valid_route (validate_route decision.route)) invalid_turn_action
    on_machine (route_selected decision.token_id)
    apply_selected_move go decision.token_id piece decision.route

  abbrev pub choose_move : Action → Decision → Method (Unit {0})
  choose_move action_discard_result decision =
      on_machine (discard_unusable_result decision.token_id) >> stage_result_queue_updated
  choose_move _ decision = select_move_internal go decision.token_id decision.piece_id

  abbrev pub decision_by : TurnPhase → Decision → Method (Unit {0})
  decision_by turn_wait_move_selection decision = choose_move decision.action decision
  decision_by turn_wait_route_selection decision = choose_route decision
  decision_by _ decision = fail invalid_turn_action

  unfoldable pub apply_cpu_decision : Decision → Method (Unit {0})
  apply_cpu_decision decision rt = decision_by rt.machine.phase decision rt

  unfoldable pub decide_and_apply : Method (Unit {0})
  decide_and_apply = do
    source ← next_draw
    rt ← reads (λ rt. rt)
    decision ← lift (decide rt.cpu (reader rt.game) rt.machine.queue.tokens (current_team rt))
    apply_cpu_decision decision

  -- The actions of a computer player, by the phase of the turn.
  abbrev pub action_by : TurnPhase → Method (Unit {0})
  action_by turn_wait_throw = perform_throw
  action_by turn_resolve_queue = go advances_turn
  action_by turn_wait_move_selection = decide_and_apply
  action_by turn_wait_route_selection = decide_and_apply
  action_by _ = fail invalid_turn_action

  unfoldable pub cpu_action : Method (Unit {0})
  cpu_action rt = action_by rt.machine.phase rt

  unfoldable pub run_cpu_step : Method Bool
  run_cpu_step rt = if rt.cpu_controlled then attempt cpu_action rt else (rt, ok false)

  unfoldable pub schedule_cpu_action : Method (Unit {0})
  schedule_cpu_action = modify (λ rt.
      if rt.cpu_action_timer || (not rt.cpu_controlled || eqb rt.cpu_action_delay 0)
      then rt
      else record rt {
        cpu_action_generation = next_u64 rt.cpu_action_generation;
        cpu_action_timer = true;
      })

  -- With a delay one action is taken and the next is scheduled; without, the actions follow each
  -- other until the turn ends.
  unfoldable pub run_cpu_turn : Method (Unit {0})
  run_cpu_turn = do
    acted ← run_cpu_step
    rt ← reads (λ rt. rt)
    (if ltb 0 rt.cpu_action_delay
        then (if acted && (rt.cpu_controlled && not (rt.machine.phase == turn_match_end))
            then schedule_cpu_action
            else pure tt)
        else if acted && rt.cpu_controlled
        then go runs_cpu_turn
        else pure tt)

  abbrev pub next_step : ResolutionStep → Method (Unit {0})
  next_step step_continue = go advances_turn
  next_step _ = pure tt

  unfoldable pub advance_turn : Method (Unit {0})
  advance_turn = do step ← step_resolution go; next_step step

  unfoldable pub task_body : Task → Method (Unit {0})
  task_body advances_turn = advance_turn
  task_body runs_cpu_turn = run_cpu_turn

-- A loop with the number of rounds that it and the loops that it starts may take.
unfoldable pub run_task : ℕ → Task → Method (Unit {0})
run_task zero task = fail out_of_steps
run_task (suc fuel) task = task_body (run_task fuel) task
