-- ===== src/Flow/Ledger/Tasks.antt =====
-- The loops of the flow tell nothing, however many rounds they take.
use buk_yutnori.Prelude.{ℕ, zero, suc, eqb, not, ◌||◌, true, false}
use buk_yutnori.Prelude.Result.{ok}
use buk_yutnori.Prelude.Exec.Keeps.{>>=-Sustains, pure-Sustains}
use buk_yutnori.Domain.{
  TurnPhase, turn_wait_throw, turn_resolve_queue, turn_wait_move_selection,
  turn_wait_route_selection,
}
use buk_yutnori.Cpu.Policy.{
  Decision, Action, action_move_piece, action_resolve_buk, action_discard_result,
}
use buk_yutnori.Flow.Runtime.{Method, next_u64}
use buk_yutnori.Flow.Resolution.{
  Task, advances_turn, runs_cpu_turn, ResolutionStep, step_continue, step_await_input, step_stopped,
  step_resolution,
}
use buk_yutnori.Flow.Tasks.{
  attempt, choose_route, choose_move, decision_by, apply_cpu_decision, decide_and_apply, action_by,
  cpu_action, run_cpu_step, schedule_cpu_action, run_cpu_turn, next_step, advance_turn, task_body,
  run_task,
}
use buk_yutnori.Flow.Ledger.{Ledger}
use buk_yutnori.Flow.Ledger.Steps.{Keeps, parts, either-Ledger, one_of-Ledger, perform_throw-Keeps}
use buk_yutnori.Flow.Ledger.Turns.{
  apply_selected_move-Keeps, select_move_internal-Keeps, step_resolution-Keeps,
}

module _ (go : Task → Method (Unit {0})) (kept : (t : Task) → Keeps (go t)) where
  next_step-Keeps : (s : ResolutionStep) → Keeps (next_step go s)
  next_step-Keeps step_continue = kept advances_turn
  next_step-Keeps step_await_input = pure-Sustains Ledger tt
  next_step-Keeps step_stopped = pure-Sustains Ledger tt

  advance_turn-Keeps : Keeps (advance_turn go)
  unfolding advance_turn
  advance_turn-Keeps =
      >>=-Sustains Ledger (step_resolution go) (next_step go) (step_resolution-Keeps go kept)
        next_step-Keeps

  choose_route-Keeps : (d : Decision) → Keeps (choose_route go d)
  choose_route-Keeps d = let applied = apply_selected_move-Keeps go kept in search parts depth 10

  choose_move-Keeps : (a : Action) (d : Decision) → Keeps (choose_move go a d)
  choose_move-Keeps action_discard_result d = search parts depth 8
  choose_move-Keeps action_move_piece d = select_move_internal-Keeps go kept d.token_id d.piece_id
  choose_move-Keeps action_resolve_buk d = select_move_internal-Keeps go kept d.token_id d.piece_id

  decision_by-Keeps : (p : TurnPhase) (d : Decision) → Keeps (decision_by go p d)
  decision_by-Keeps turn_wait_move_selection d = choose_move-Keeps d.action d
  decision_by-Keeps turn_wait_route_selection d = choose_route-Keeps d
  decision_by-Keeps _ d = record { sustains = λ rt v. v }

  apply_cpu_decision-Keeps : (d : Decision) → Keeps (apply_cpu_decision go d)
  unfolding apply_cpu_decision
  apply_cpu_decision-Keeps d = record {
    sustains = λ rt v. (decision_by-Keeps rt.machine.phase d).sustains rt v;
  }

  decide_and_apply-Keeps : Keeps (decide_and_apply go)
  unfolding decide_and_apply
  decide_and_apply-Keeps = search (parts, apply_cpu_decision-Keeps) depth 8

  action_by-Keeps : (p : TurnPhase) → Keeps (action_by go p)
  action_by-Keeps turn_wait_throw = perform_throw-Keeps
  action_by-Keeps turn_resolve_queue = kept advances_turn
  action_by-Keeps turn_wait_move_selection = decide_and_apply-Keeps
  action_by-Keeps turn_wait_route_selection = decide_and_apply-Keeps
  action_by-Keeps _ = record { sustains = λ rt v. v }

  cpu_action-Keeps : Keeps (cpu_action go)
  unfolding cpu_action
  cpu_action-Keeps = record { sustains = λ rt v. (action_by-Keeps rt.machine.phase).sustains rt v }

  run_cpu_step-Keeps : Keeps (run_cpu_step go)
  unfolding run_cpu_step
  run_cpu_step-Keeps = record {
    sustains = λ rt v.
        either-Ledger rt.cpu_controlled (attempt (cpu_action go) rt) (rt, ok false)
          (cpu_action-Keeps.sustains rt v) v;
  }

  schedule_cpu_action-Keeps : Keeps (schedule_cpu_action go)
  unfolding schedule_cpu_action
  schedule_cpu_action-Keeps = record {
    sustains = λ rt v.
        one_of-Ledger (rt.cpu_action_timer || (not rt.cpu_controlled || eqb rt.cpu_action_delay 0))
          rt
          (record rt {
            cpu_action_generation = next_u64 rt.cpu_action_generation;
            cpu_action_timer = true;
          })
          v v;
  }

  run_cpu_turn-Keeps : Keeps (run_cpu_turn go)
  unfolding run_cpu_turn
  run_cpu_turn-Keeps = search (parts, kept, run_cpu_step-Keeps, schedule_cpu_action-Keeps) depth 12

  task_body-Keeps : (t : Task) → Keeps (task_body go t)
  unfolding task_body
  task_body-Keeps advances_turn = advance_turn-Keeps
  task_body-Keeps runs_cpu_turn = run_cpu_turn-Keeps

pub run_task-Keeps : (fuel : ℕ) (t : Task) → Keeps (run_task fuel t)
unfolding run_task
run_task-Keeps zero t = record { sustains = λ rt v. v }
run_task-Keeps (suc fuel) t = task_body-Keeps (run_task fuel) (run_task-Keeps fuel) t
