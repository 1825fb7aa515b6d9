-- ===== src/Flow/Invariant/Loops.antt =====
-- The loops of the flow keep the agreement of the turn and the game, however many rounds they take.
use buk_yutnori.Prelude.{
  ◌≡◌, refl, true, false, inl, inr, Bool-cases, arith, if◌then◌else◌, List, [], ◌∷◌, ℕ, zero, suc,
  eqb, not, ◌||◌,
}
use buk_yutnori.Prelude.Result.{ok}
use buk_yutnori.Prelude.Exec.{◌>>=◌, ◌>>◌, pure, guard}
use buk_yutnori.Prelude.Exec.Keeps.{>>=-Sustains, if-Sustains, pure-Sustains, guard-Sustains}
use buk_yutnori.Domain.{
  TurnPhase, turn_wait_throw, turn_resolve_queue, turn_wait_move_selection,
  turn_wait_route_selection, turn_apply_move, turn_resolve_buk, turn_end, turn_match_end,
  ResultTokenId, PieceId, Route, phase_eq, validate_route, invalid_turn_action,
}
use buk_yutnori.Turn.Machine.{Machine, step, selects_route, route_selected, resolve_queue}
use buk_yutnori.Turn.Machine.Steps.{Step, route}
use buk_yutnori.Turn.Machine.Refines.{step_sound}
use buk_yutnori.Cpu.Policy.{
  Decision, Action, action_move_piece, action_resolve_buk, action_discard_result,
}
use buk_yutnori.Flow.Events.{MoveCandidate}
use buk_yutnori.Flow.Runtime.{Runtime, Method, on_machine, cancel_timer, next_u64}
use buk_yutnori.Flow.Resolution.{
  Task, advances_turn, runs_cpu_turn, ResolutionStep, step_continue, step_await_input, step_stopped,
  discard_only, require_move, enter_move_selection, end_turn, finish_match, after_queue_resolved,
  step_by, step_resolution, apply_selected_move,
}
use buk_yutnori.Flow.Tasks.{
  attempt, valid_route, choose_route, choose_move, decision_by, apply_cpu_decision,
  decide_and_apply, action_by, cpu_action, run_cpu_step, schedule_cpu_action, run_cpu_turn,
  next_step, advance_turn, task_body, run_task,
}
use buk_yutnori.Flow.Invariant.{Good}
use buk_yutnori.Flow.Invariant.Steps.{
  Keeps, parts, then-Good, either-Good, one_of-Good, perform_throw-Keeps, finish_match-Keeps,
  route_selected-Keeps,
}
use buk_yutnori.Flow.Invariant.Turns.{
  begin_turn-Good, apply_selected_move-Good, resolve_buk_head-Good, select_move_internal-Keeps,
  current_candidates-Keeps,
}

require_move-Keeps : (candidates : List MoveCandidate) → Keeps (require_move candidates)
require_move-Keeps candidates = record {
  sustains = λ rt v. elim (Bool-cases rt.cpu_controlled) [ inl e ↦ rw e v | inr e ↦ rw e v ];
}

discard_only-Keeps : (unusable : List ResultTokenId) → Keeps (discard_only unusable)
discard_only-Keeps [] = record { sustains = λ rt v. v }
discard_only-Keeps (id ∷ []) = search parts depth 10
discard_only-Keeps (id ∷ other ∷ more) = record { sustains = λ rt v. v }

enter_move_selection-Keeps : Keeps enter_move_selection
unfolding enter_move_selection
enter_move_selection-Keeps =
    search
      (
        >>=-Sustains, if-Sustains, pure-Sustains, current_candidates-Keeps, require_move-Keeps,
        discard_only-Keeps,
      )
      depth 10

-- What the choice of a route leaves.
pub route_ready :
    (m : Machine) (id : ResultTokenId)
    → (step (selects_route id) m).1 ≡ ok tt
    → ((step (selects_route id) m).0.phase ≡ turn_apply_move)
      × ((step (selects_route id) m).0.selected_id ≡ id)
route_ready m id h = ready (step_sound (selects_route id) m h)
  where
    ready :
        {m' : Machine}
        → Step m (selects_route id) m'
        → (m'.phase ≡ turn_apply_move) × (m'.selected_id ≡ id)
    ready (route p o) = (refl, refl)

module _ (go : Task → Method (Unit {0})) (kept : (t : Task) → Keeps (go t)) where
  end_turn-Good : (rt : Runtime) → Good rt → rt.machine.phase ≡ turn_end → Good (end_turn go rt).0
  unfolding end_turn cancel_timer
  end_turn-Good rt v p = begin_turn-Good go kept _ v (v.going (λ q. ground arith))

  pub routed-Good :
      (rt : Runtime) (id : ResultTokenId) (piece : PieceId) (way : Route)
      → Good rt
      → Good ((on_machine (route_selected id) >>= λ _. apply_selected_move go id piece way) rt).0
  unfolding step
  routed-Good rt id piece way v =
      then-Good (on_machine (route_selected id)) (apply_selected_move go id piece way) rt
        ((route_selected-Keeps id).sustains rt v)
        (λ h.
          let (p, s) = route_ready rt.machine id h in
          apply_selected_move-Good go kept _ id piece way ((route_selected-Keeps id).sustains rt v)
            p s)

  step_by-Good :
      (p : TurnPhase) (rt : Runtime) → rt.machine.phase ≡ p → Good rt → Good (step_by go p rt).0
  step_by-Good turn_resolve_queue rt e v =
      let both : Keeps (on_machine resolve_queue >> after_queue_resolved) = search parts depth 6 in
      both.sustains rt v
  step_by-Good turn_resolve_buk rt e v = resolve_buk_head-Good rt rt.machine.selected_id v e refl
  step_by-Good turn_wait_move_selection rt e v =
      (>>=-Sustains Good enter_move_selection
          (λ awaiting. pure (if awaiting then step_await_input else step_continue))
          enter_move_selection-Keeps (λ awaiting. pure-Sustains Good _)).sustains
        rt v
  step_by-Good turn_end rt e v =
      then-Good (end_turn go) (pure step_stopped) rt (end_turn-Good rt v e)
        (λ _. end_turn-Good rt v e)
  step_by-Good turn_match_end rt e v =
      (>>=-Sustains Good finish_match (λ _. pure step_stopped) finish_match-Keeps
          (λ _. pure-Sustains Good step_stopped)).sustains
        rt v
  step_by-Good _ rt e v = v

  step_resolution-Keeps : Keeps (step_resolution go)
  unfolding step_resolution
  step_resolution-Keeps = record { sustains = λ rt v. step_by-Good rt.machine.phase rt refl v }

  next_step-Keeps : (s : ResolutionStep) → Keeps (next_step go s)
  next_step-Keeps step_continue = kept advances_turn
  next_step-Keeps step_await_input = pure-Sustains Good tt
  next_step-Keeps step_stopped = pure-Sustains Good tt

  advance_turn-Keeps : Keeps (advance_turn go)
  unfolding advance_turn
  advance_turn-Keeps =
      >>=-Sustains Good (step_resolution go) (next_step go) step_resolution-Keeps next_step-Keeps

  choose_route-Keeps : (d : Decision) → Keeps (choose_route go d)
  choose_route-Keeps d = record {
    sustains = λ rt v.
        (>>=-Sustains Good (guard (valid_route (validate_route d.route)) invalid_turn_action)
            (λ _.
              on_machine (route_selected d.token_id)
              >> apply_selected_move go d.token_id rt.pending_move_piece d.route)
            (guard-Sustains Good _ invalid_turn_action)
            (λ _. record {
              sustains = λ s. routed-Good s d.token_id rt.pending_move_piece d.route;
            })).sustains
          rt v;
  }

  choose_move-Keeps : (a : Action) (d : Decision) → Keeps (choose_move go a d)
  choose_move-Keeps action_discard_result d = search parts depth 8
  choose_move-Keeps action_move_piece d = select_move_internal-Keeps go kept d.token_id d.piece_id
  choose_move-Keeps action_resolve_buk d = select_move_internal-Keeps go kept d.token_id d.piece_id

  decision_by-Keeps : (p : TurnPhase) (d : Decision) → Keeps (decision_by go p d)
  decision_by-Keeps turn_wait_move_selection d = choose_move-Keeps d.action d
  decision_by-Keeps turn_wait_route_selection d = choose_route-Keeps d
  decision_by-Keeps _ d = record { sustains = λ rt v. v }

  apply_cpu_decision-Keeps : (d : Decision) → Keeps (apply_cpu_decision go d)
  unfolding apply_cpu_decision
  apply_cpu_decision-Keeps d = record {
    sustains = λ rt v. (decision_by-Keeps rt.machine.phase d).sustains rt v;
  }

  decide_and_apply-Keeps : Keeps (decide_and_apply go)
  unfolding decide_and_apply
  decide_and_apply-Keeps = search (parts, apply_cpu_decision-Keeps) depth 8

  action_by-Keeps : (p : TurnPhase) → Keeps (action_by go p)
  action_by-Keeps turn_wait_throw = perform_throw-Keeps
  action_by-Keeps turn_resolve_queue = kept advances_turn
  action_by-Keeps turn_wait_move_selection = decide_and_apply-Keeps
  action_by-Keeps turn_wait_route_selection = decide_and_apply-Keeps
  action_by-Keeps _ = record { sustains = λ rt v. v }

  cpu_action-Keeps : Keeps (cpu_action go)
  unfolding cpu_action
  cpu_action-Keeps = record { sustains = λ rt v. (action_by-Keeps rt.machine.phase).sustains rt v }

  run_cpu_step-Keeps : Keeps (run_cpu_step go)
  unfolding run_cpu_step
  run_cpu_step-Keeps = record {
    sustains = λ rt v.
        either-Good rt.cpu_controlled (attempt (cpu_action go) rt) (rt, ok false)
          (cpu_action-Keeps.sustains rt v) v;
  }

  schedule_cpu_action-Keeps : Keeps (schedule_cpu_action go)
  unfolding schedule_cpu_action
  schedule_cpu_action-Keeps = record {
    sustains = λ rt v.
        one_of-Good (rt.cpu_action_timer || (not rt.cpu_controlled || eqb rt.cpu_action_delay 0)) rt
          (record rt {
            cpu_action_generation = next_u64 rt.cpu_action_generation;
            cpu_action_timer = true;
          })
          v v;
  }

  run_cpu_turn-Keeps : Keeps (run_cpu_turn go)
  unfolding run_cpu_turn
  run_cpu_turn-Keeps = search (parts, run_cpu_step-Keeps, schedule_cpu_action-Keeps) depth 12

  task_body-Keeps : (t : Task) → Keeps (task_body go t)
  unfolding task_body
  task_body-Keeps advances_turn = advance_turn-Keeps
  task_body-Keeps runs_cpu_turn = run_cpu_turn-Keeps

pub run_task-Keeps : (fuel : ℕ) (t : Task) → Keeps (run_task fuel t)
unfolding run_task
run_task-Keeps zero t = record { sustains = λ rt v. v }
run_task-Keeps (suc fuel) t = task_body-Keeps (run_task fuel) (run_task-Keeps fuel) t
