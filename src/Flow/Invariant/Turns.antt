-- ===== src/Flow/Invariant/Turns.antt =====
-- The automatic steps and the actions of a computer player keep the agreement of the turn and the
-- game, however many rounds their loops take.
use buk_yutnori.Prelude.{
  ◌≡◌, ◌∙◌, refl, sym, subst, Bool, true, false, none, some, inl, inr, Bool-cases, arith,
  if◌then◌else◌, [], Option,
}
use buk_yutnori.Prelude.Result.{Result, ok, Result-cases}
use buk_yutnori.Prelude.Exec.{◌>>=◌, ◌>>◌, pure, modify}
use buk_yutnori.Prelude.Exec.Atomic.{bind_ok, bind_to, bind_fail}
use buk_yutnori.Prelude.Exec.Keeps.{>>=-Sustains, pure-Sustains}
use buk_yutnori.Domain.{
  Error, turn_start, turn_apply_move, turn_resolve_buk, TeamId, YutResult, ResultTokenId, PlayerId,
  PieceId, Route, route_empty, invalid_turn_action,
}
use buk_yutnori.Room.Settings.{Settings}
use buk_yutnori.Turn.Machine.{
  Machine, new_machine, step, applies_move, completes_move, completes_buk, complete_buk,
  selects_move, validate_buk_outcome, select_move, move_applied, complete_move,
}
use buk_yutnori.Turn.Machine.Invariant as Turn
use buk_yutnori.Turn.Machine.Steps.{Step, select}
use buk_yutnori.Turn.Machine.Refines.{step_sound}
use buk_yutnori.Turn.Machine.Runs.{new_machine-Inv}
use buk_yutnori.Match.Types.{MoveOutcome, turn_outcome}
use buk_yutnori.Match.Game.{Game}
use buk_yutnori.Match.Buk.{BukOutcome, resolve_buk, buk_turn_outcome}
use buk_yutnori.Match.Buk.Resolved.{resolve_buk_ends_nothing, resolve_buk_unended}
use buk_yutnori.Flow.Runtime.{
  Runtime, Method, on_machine, on_game, current_player, current_team, next_draw, emit, emit_all,
}
use buk_yutnori.Flow.Events.{MoveCandidate}
use buk_yutnori.Flow.Resolution.{
  Task, current_candidates, take_found, select_move_internal, after_buk, resolve_buk_head,
  buk_resolved_event, all_move_events, step_stopped, step_continue, ResolutionStep, apply_result,
  apply_selected_move, apply_found, take_candidate, ask_for_route, stage_move_selection, open_turn,
  with_machine, after_outcome, after_move, stage_result_queue_updated, stage_move_outcome_events,
  advances_turn, begin_turn, complete_move_flow,
}
use buk_yutnori.Flow.Invariant.{SoundGame, Sound, Good, move_completed, buk_completed}
use buk_yutnori.Flow.Invariant.Movements.{Reported, buk-SoundGame}
use buk_yutnori.Flow.Invariant.Applied.{
  made, refused, on_game_cases, moved, not_moved, apply_result_cases,
}
use buk_yutnori.Flow.Candidates.{result_of_token, find_candidate}
use buk_yutnori.Flow.Invariant.Steps.{
  Keeps, parts, stage_result_queue_updated-Keeps, select_move-Keeps, next_draw-Keeps,
  wrapped_then-Good,
}

new_machine_starts :
    (player : PlayerId) (settings : Settings) {m : Machine}
    → new_machine player settings ≡ ok m
    → m.phase ≡ turn_start
unfolding new_machine
new_machine_starts player settings h = ground arith

new_turn :
    (player : PlayerId) (settings : Settings) (game : Game) {m : Machine}
    → SoundGame game
    → game.winner_team_id ≡ none
    → new_machine player settings ≡ ok m
    → Sound m game
new_turn player settings game v w h =
    let s = new_machine_starts player settings h in
    record {
      turn = new_machine-Inv player settings h;
      pieces = v;
      over = λ e. absurd (ground arith);
      going = λ _. w;
    }

after_outcome-Keeps :
    {A : Type 0} (a : A) (rest : Method A) → Keeps rest → Keeps (after_outcome a rest)
after_outcome-Keeps {A} a rest k = search parts depth 16

pub current_candidates-Keeps : Keeps current_candidates
unfolding current_candidates
current_candidates-Keeps = record { sustains = λ rt v. v }

after_buk-Keeps : Keeps after_buk
after_buk-Keeps =
    >>=-Sustains Good stage_result_queue_updated
      (λ _. after_outcome step_stopped (pure step_continue)) stage_result_queue_updated-Keeps
      (λ _.
        after_outcome-Keeps step_stopped (pure step_continue) (pure-Sustains Good step_continue))

-- What follows a Buk that the game has resolved.
finish_buk : ResultTokenId → TeamId → BukOutcome → Method ResolutionStep
finish_buk id team outcome = do
  emit (buk_resolved_event id outcome)
  emit_all (if outcome.moved then all_move_events team outcome.moves else [])
  on_machine (complete_buk id (buk_turn_outcome outcome))
  after_buk

finish_buk-Good :
    (rt : Runtime) (team : TeamId) (outcome : BukOutcome) {id : ResultTokenId}
    → Turn.Inv rt.machine
    → SoundGame rt.game
    → rt.machine.phase ≡ turn_resolve_buk
    → rt.machine.selected_id ≡ id
    → validate_buk_outcome (buk_turn_outcome outcome) ≡ ok tt
    → (buk_turn_outcome outcome).match_ended ≡ false
    → rt.game.winner_team_id ≡ none
    → Good (finish_buk id team outcome rt).0
unfolding finish_buk step
finish_buk-Good rt team outcome {id} v w p s k n nobody =
    let (completed, sound) =
      buk_completed rt.machine rt.game (buk_turn_outcome outcome) v w p k n nobody in
    let result : (step (completes_buk id (buk_turn_outcome outcome)) rt.machine).1 ≡ ok tt =
      subst (λ i. (step (completes_buk i (buk_turn_outcome outcome)) rt.machine).1 ≡ ok tt) s
        completed in
    let left : Sound (step (completes_buk id (buk_turn_outcome outcome)) rt.machine).0 rt.game =
      subst (λ i. Sound (step (completes_buk i (buk_turn_outcome outcome)) rt.machine).0 rt.game) s
        sound in
    let staged =
      ((emit (buk_resolved_event id outcome)
          >> emit_all (if outcome.moved then all_move_events team outcome.moves else []))
        rt).0 in
    subst (λ (r : Runtime × Result Error ResolutionStep). Good r.0)
      (sym (
        bind_ok (on_machine (complete_buk id (buk_turn_outcome outcome))) (λ _. after_buk) staged tt
          result))
      (after_buk-Keeps.sustains _ left)

pub resolve_buk_head-Good :
    (rt : Runtime) (id : ResultTokenId)
    → Good rt
    → rt.machine.phase ≡ turn_resolve_buk
    → rt.machine.selected_id ≡ id
    → Good (resolve_buk_head id rt).0
unfolding resolve_buk_head finish_buk
resolve_buk_head-Good rt id v p s =
    let drawn = (next_draw rt).0 in
    let w = next_draw-Keeps.sustains rt v in
    let team = current_team drawn in
    let call = on_game (λ game. resolve_buk game team) in
    elim (on_game_cases (λ game. resolve_buk game team) drawn) [
      | refused x e ↦
          subst (λ (r : Runtime × Result Error ResolutionStep). Good r.0)
            (sym (bind_fail call (finish_buk id team) drawn e)) w
      | made game o h e ↦
          let (nobody, valid) = resolve_buk_ends_nothing drawn.game team h in
          subst (λ (r : Runtime × Result Error ResolutionStep). Good r.0)
            (sym (bind_to call (finish_buk id team) drawn e))
            (finish_buk-Good (record drawn { game = game }) team o w.turn
              (buk-SoundGame drawn.game team w.pieces h) p s valid
              (resolve_buk_unended drawn.game team h) nobody)
    ]

module _ (go : Task → Method (Unit {0})) (kept : (t : Task) → Keeps (go t)) where
  open_turn-Keeps : Keeps (open_turn go)
  open_turn-Keeps = search (parts, kept) depth 16

  pub begin_new-Good :
      (rt : Runtime) {m : Machine}
      → SoundGame rt.game
      → rt.game.winner_team_id ≡ none
      → new_machine (current_player rt) rt.settings ≡ ok m
      → Good (begin_turn go rt).0
  unfolding begin_turn
  begin_new-Good rt {m} v w p =
      rw (begin_turn, p)
        (open_turn-Keeps.sustains (with_machine m rt)
          (new_turn (current_player rt) rt.settings rt.game v w p))

  pub begin_turn-Good :
      (rt : Runtime) → Good rt → rt.game.winner_team_id ≡ none → Good (begin_turn go rt).0
  unfolding begin_turn
  begin_turn-Good rt v w = elim (Result-cases (new_machine (current_player rt) rt.settings)) [
    | inl (m, p) ↦ begin_new-Good rt v.pieces w p
    | inr (e, p) ↦ rw (begin_turn, p) v
  ]

  after_move-Keeps : Keeps (after_move go)
  after_move-Keeps =
      >>=-Sustains Good stage_result_queue_updated (λ _. after_outcome tt (go advances_turn))
        stage_result_queue_updated-Keeps
        (λ _. after_outcome-Keeps tt (go advances_turn) (kept advances_turn))

  complete_move_flow-Good :
      (rt : Runtime) (id : ResultTokenId) (outcome : MoveOutcome)
      → Turn.Inv rt.machine
      → SoundGame rt.game
      → Reported rt.game outcome
      → rt.machine.phase ≡ turn_apply_move
      → rt.machine.selected_id ≡ id
      → Good (complete_move_flow go id outcome rt).0
  unfolding complete_move_flow step turn_outcome stage_move_outcome_events
  complete_move_flow-Good rt id outcome v w r p s =
      let (applied, completed, sound) =
        move_completed rt.machine rt.game id (turn_outcome outcome) v w p s r.consistent r.ended
          r.unfinished in
      let after_applied : Runtime = record rt { machine = (step (applies_move id) rt.machine).0 } in
      let after_staged = (stage_move_outcome_events outcome after_applied).0 in
      let after_completed : Runtime = record after_staged {
        machine = (step (completes_move id (turn_outcome outcome)) after_applied.machine).0;
      } in
      let first =
        bind_ok (on_machine (move_applied id))
          (λ _.
            stage_move_outcome_events outcome
            >> (on_machine (complete_move id (turn_outcome outcome)) >> after_move go))
          rt tt applied in
      let second =
        bind_ok (on_machine (complete_move id (turn_outcome outcome))) (λ _. after_move go)
          after_staged tt completed in
      let same : complete_move_flow go id outcome rt ≡ after_move go after_completed =
        first ∙ second in
      subst (λ (x : Runtime × Result Error (Unit {0})). Good x.0) (sym same)
        (after_move-Keeps.sustains after_completed sound)

  apply_token-Good :
      (rt : Runtime) (id : ResultTokenId) (result : YutResult) (piece : PieceId) (way : Route)
      → Good rt
      → rt.machine.phase ≡ turn_apply_move
      → rt.machine.selected_id ≡ id
      → Good ((apply_result result piece way >>= complete_move_flow go id) rt).0
  apply_token-Good rt id result piece way v p s =
      let call = apply_result result piece way in
      elim (apply_result_cases result piece way rt v.pieces) [
        | not_moved x e ↦
            subst (λ (x : Runtime × Result Error (Unit {0})). Good x.0)
              (sym (bind_fail call (complete_move_flow go id) rt e)) v
        | moved game o e w r ↦
            subst (λ (x : Runtime × Result Error (Unit {0})). Good x.0)
              (sym (bind_to call (complete_move_flow go id) rt e))
              (complete_move_flow-Good (record rt { game = game }) id o v.turn w r p s)
      ]

  apply_found-Good :
      (rt : Runtime) (id : ResultTokenId) (piece : PieceId) (way : Route) (found : Option YutResult)
      → Good rt
      → rt.machine.phase ≡ turn_apply_move
      → rt.machine.selected_id ≡ id
      → Good (apply_found go id piece way found rt).0
  apply_found-Good rt id piece way none v p s = v
  apply_found-Good rt id piece way (some result) v p s =
      apply_token-Good rt id result piece way v p s

  pub apply_selected_move-Good :
      (rt : Runtime) (id : ResultTokenId) (piece : PieceId) (way : Route)
      → Good rt
      → rt.machine.phase ≡ turn_apply_move
      → rt.machine.selected_id ≡ id
      → Good (apply_selected_move go id piece way rt).0
  unfolding apply_selected_move
  apply_selected_move-Good rt id piece way v p s =
      apply_found-Good rt id piece way (result_of_token rt.machine.queue.tokens id) v p s

  ask_for_route-Keeps : (id : ResultTokenId) (piece : PieceId) → Keeps (ask_for_route go id piece)
  ask_for_route-Keeps id piece = record {
    sustains = λ rt v. elim (Bool-cases rt.cpu_controlled) [ inl e ↦ rw e v | inr e ↦ rw e v ];
  }

  -- What a selection leaves when it needs no route.
  select_move_ready :
      (m : Machine) (id : ResultTokenId)
      → (step (selects_move id false) m).1 ≡ ok tt
      → ((step (selects_move id false) m).0.phase ≡ turn_apply_move)
        × ((step (selects_move id false) m).0.selected_id ≡ id)
  select_move_ready m id h = ready (step_sound (selects_move id false) m h)
    where
      ready :
          {m' : Machine}
          → Step m (selects_move id false) m'
          → (m'.phase ≡ turn_apply_move) × (m'.selected_id ≡ id)
      ready (select p o g) = (refl, refl)

  take_candidate-Good :
      (rt : Runtime) (required : Bool) (id : ResultTokenId) (piece : PieceId)
      → Good rt
      → Good (take_candidate go required id piece rt).0
  unfolding take_candidate step stage_move_selection
  take_candidate-Good rt true id piece v =
      let asked = ask_for_route-Keeps id piece in
      wrapped_then-Good invalid_turn_action (on_machine (select_move id true))
        (stage_move_selection id piece
          >> (modify (λ rt. record rt { pending_move_piece = piece }) >> ask_for_route go id piece))
        rt ((select_move-Keeps id true).sustains rt v)
        (λ h. asked.sustains _ ((select_move-Keeps id true).sustains rt v))
  take_candidate-Good rt false id piece v =
      wrapped_then-Good invalid_turn_action (on_machine (select_move id false))
        (stage_move_selection id piece >> apply_selected_move go id piece route_empty) rt
        ((select_move-Keeps id false).sustains rt v)
        (λ h.
          let (p, s) = select_move_ready rt.machine id h in
          apply_selected_move-Good _ id piece route_empty
            ((select_move-Keeps id false).sustains rt v) p s)

  take_candidate-Keeps :
      (required : Bool) (id : ResultTokenId) (piece : PieceId)
      → Keeps (take_candidate go required id piece)
  take_candidate-Keeps required id piece = record {
    sustains = λ rt. take_candidate-Good rt required id piece;
  }

  take_found-Keeps :
      (id : ResultTokenId) (piece : PieceId) (found : Option MoveCandidate)
      → Keeps (take_found go id piece found)
  take_found-Keeps id piece none = record { sustains = λ rt v. v }
  take_found-Keeps id piece (some c) = take_candidate-Keeps _ id piece

  pub select_move_internal-Keeps :
      (id : ResultTokenId) (piece : PieceId) → Keeps (select_move_internal go id piece)
  unfolding select_move_internal
  select_move_internal-Keeps id piece =
      >>=-Sustains Good current_candidates
        (λ r. take_found go id piece (find_candidate r.0 id piece)) current_candidates-Keeps
        (λ r. take_found-Keeps id piece (find_candidate r.0 id piece))
