-- ===== src/Flow/Invariant/Commands.antt =====
-- The commands of a running match keep the agreement of the turn and the game, in any order, when
-- they are refused, and when the store fails.
use buk_yutnori.Prelude.{true, not, ◌&&◌, List, [], ◌∷◌, ℕ, ltb, String}
use buk_yutnori.Prelude.Result.{ok, err}
use buk_yutnori.Prelude.Exec.{Exec, ◌>>=◌, ◌>>◌}
use buk_yutnori.Prelude.Exec.Keeps.{
  >>=-Sustains, if-Sustains, pure-Sustains, reads-Sustains, guard-Sustains,
}
use buk_yutnori.Domain.{
  Error, event_store_unavailable, PlayerId, PieceId, ResultTokenId, Route, invalid_turn_action,
}
use buk_yutnori.Turn.Machine.{step, route_selected}
use buk_yutnori.Flow.Sequences
use buk_yutnori.Flow.Sequences.{RoomEventSequences, commit_next}
use buk_yutnori.Flow.Events.{Event, ResumeReason}
use buk_yutnori.Flow.Runtime.{
  Store, no_store, store_appends, store_fails, Runtime, Method, on_machine, wrapped, timer_none,
  timer_throw, timer_move, TimerKind,
}
use buk_yutnori.Flow.Resolution.{Task, apply_selected_move}
use buk_yutnori.Flow.Tasks.{run_task}
use buk_yutnori.Flow.Flush.{
  on_sequences, publish, commit_each, detach_finished_match, preserve_window, enter_storage_pause,
  commit_and_publish, flush_rows, flush_of, preserved, flush, built, append_failed, has_result,
  append_to,
}
use buk_yutnori.Flow.Commands.{
  new_tx, live_match, acting, throw_yut, select_move, select_route, substitute, fire_turn_timeout,
  fire_cpu_action, pause_game, arm_timer, restore_kind, restore_window, resume_match, resume_game,
  fire_pause_expiry, Command, throws_yut, selects_move, selects_route, pauses_game, resumes_game,
  act_now, expire_pause, turn_timeout, cpu_acts, pause_expires, World, in_world, perform, play,
}
use buk_yutnori.Flow.Invariant.{Good}
use buk_yutnori.Flow.Invariant.Steps.{
  Keeps, parts, then-Good, wrapped_then-Good, either-Good, route_selected-Keeps,
}
use buk_yutnori.Flow.Invariant.Turns.{apply_selected_move-Good, select_move_internal-Keeps}
use buk_yutnori.Flow.Invariant.Loops.{run_task-Keeps, route_ready}

on_sequences-Keeps :
    {A : Type 0} (call : Exec Error RoomEventSequences A) → Keeps (on_sequences call)
on_sequences-Keeps call = record { sustains = λ rt v. v }

built-Keeps : (boundary : ℕ) (events : List Event) → Keeps (built boundary events)
built-Keeps boundary events = record { sustains = λ rt v. v }

commit_each-Keeps : (rows : List (ℕ × Event)) → Keeps (commit_each rows)
unfolding commit_each
commit_each-Keeps [] = pure-Sustains Good tt
commit_each-Keeps (row ∷ rows) =
    let rest = commit_each-Keeps rows in
    search (>>=-Sustains, reads-Sustains, on_sequences-Keeps) depth 8

publish-Keeps : (rows : List (ℕ × Event)) → Keeps (publish rows)
publish-Keeps rows = record { sustains = λ rt v. v }

detach-Keeps : Keeps detach_finished_match
unfolding detach_finished_match
detach-Keeps = record { sustains = λ rt v. v }

commit_and_publish-Keeps : (rows : List (ℕ × Event)) → Keeps (commit_and_publish rows)
unfolding commit_and_publish
commit_and_publish-Keeps rows =
    search
      (
        >>=-Sustains, if-Sustains, reads-Sustains, pure-Sustains, commit_each-Keeps, publish-Keeps,
        detach-Keeps,
      )
      depth 12

preserve_window-Keeps : Keeps preserve_window
preserve_window-Keeps = record {
  sustains = λ rt v. kept rt v rt.preserved_timer_kind rt.timer_kind;
}
  where
    kept : (rt : Runtime) → Good rt → (p k : TimerKind) → Good (preserved rt p k)
    kept rt v timer_none timer_none = v
    kept rt v timer_none timer_throw = v
    kept rt v timer_none timer_move = v
    kept rt v timer_throw k = v
    kept rt v timer_move k = v

enter_storage_pause-Keeps : (rows : List (ℕ × Event)) → Keeps (enter_storage_pause rows)
unfolding enter_storage_pause
enter_storage_pause-Keeps rows =
    search (parts, on_sequences-Keeps, built-Keeps, preserve_window-Keeps) depth 16

append_to-Keeps : (store : Store) (rows : List (ℕ × Event)) → Keeps (append_to store rows)
append_to-Keeps no_store rows = record {
  sustains = λ rt. (commit_and_publish-Keeps rows).sustains rt;
}
append_to-Keeps store_appends rows = record {
  sustains = λ rt v.
      either-Good (has_result rt.tx.match_result && not rt.saves_results)
        (rt, err event_store_unavailable) (commit_and_publish rows rt) v
        ((commit_and_publish-Keeps rows).sustains rt v);
}
append_to-Keeps store_fails rows = record {
  sustains = λ rt v.
      either-Good (has_result rt.tx.match_result && not rt.saves_results)
        (rt, err event_store_unavailable) ((append_failed rows rt).0, err event_store_unavailable) v
        (either-Good rt.started (enter_storage_pause rows rt) (record rt { poisoned = true }, ok tt)
          ((enter_storage_pause-Keeps rows).sustains rt v) v);
}

flush_rows-Keeps : (rows : List (ℕ × Event)) → Keeps (flush_rows rows)
unfolding flush_rows
flush_rows-Keeps rows = record { sustains = λ rt v. (append_to-Keeps rt.store rows).sustains rt v }

flush_of-Keeps : (events : List Event) → Keeps (flush_of events)
flush_of-Keeps [] = record { sustains = λ rt v. v }
flush_of-Keeps (event ∷ events) = record {
  sustains = λ rt v.
      (>>=-Sustains Good (on_sequences (Sequences.boundary rt.room_id))
          (λ boundary. built boundary (event ∷ events) >>= flush_rows) (on_sequences-Keeps _)
          (λ boundary.
            >>=-Sustains Good (built boundary (event ∷ events)) flush_rows
              (built-Keeps boundary (event ∷ events)) flush_rows-Keeps)).sustains
        rt v;
}

flush-Keeps : Keeps flush
unfolding flush
flush-Keeps = record { sustains = λ rt v. (flush_of-Keeps rt.tx.events).sustains rt v }

live_match-Keeps : (user : PlayerId) (match_id : String) → Keeps (live_match user match_id)
unfolding live_match
live_match-Keeps user match_id = search parts depth 16

acting-Keeps : (user : PlayerId) (match_id : String) → Keeps (acting user match_id)
unfolding acting
acting-Keeps user match_id = search (parts, live_match-Keeps) depth 10

module _ (go : Task → Method (Unit {0})) (kept : (t : Task) → Keeps (go t)) where
  throw_yut-Keeps : (user : PlayerId) (match_id : String) → Keeps (throw_yut go user match_id)
  unfolding throw_yut
  throw_yut-Keeps user match_id = search (parts, kept, acting-Keeps, flush-Keeps) depth 16

  select_move-Keeps :
      (user : PlayerId) (match_id : String) (token : ResultTokenId) (piece : PieceId)
      → Keeps (select_move go user match_id token piece)
  unfolding select_move
  select_move-Keeps user match_id token piece =
      let selected = select_move_internal-Keeps go kept token piece in
      search (parts, acting-Keeps, flush-Keeps) depth 16

  apply_and_flush-Good :
      (rt : Runtime) (id : ResultTokenId) (piece : PieceId) (way : Route)
      → Good rt
      → Good
          ((wrapped invalid_turn_action (on_machine (route_selected id)) >>= λ _.
              new_tx >> (apply_selected_move go id piece way >> flush))
            rt).0
  unfolding step
  apply_and_flush-Good rt id piece way v =
      let w = (route_selected-Keeps id).sustains rt v in
      wrapped_then-Good invalid_turn_action (on_machine (route_selected id))
        (new_tx >> (apply_selected_move go id piece way >> flush)) rt w
        (λ h.
          let (p, s) = route_ready rt.machine id h in
          let applied = apply_selected_move-Good go kept _ id piece way w p s in
          then-Good (apply_selected_move go id piece way) flush _ applied
            (λ _. flush-Keeps.sustains _ applied))

  apply_and_flush-Keeps :
      (id : ResultTokenId) (piece : PieceId) (way : Route)
      → Keeps (
          wrapped invalid_turn_action (on_machine (route_selected id)) >>= λ _.
          new_tx >> (apply_selected_move go id piece way >> flush))
  apply_and_flush-Keeps id piece way = record {
    sustains = λ rt. apply_and_flush-Good rt id piece way;
  }

  select_route-Keeps :
      (user : PlayerId) (match_id : String) (token : ResultTokenId) (piece : PieceId) (way : Route)
      → Keeps (select_route go user match_id token piece way)
  unfolding select_route
  select_route-Keeps user match_id token piece way =
      search (>>=-Sustains, reads-Sustains, guard-Sustains, acting-Keeps, apply_and_flush-Keeps)
        depth 12

  substitute-Keeps : Keeps (substitute go)
  substitute-Keeps = search (parts, kept, flush-Keeps) depth 16

  fire_turn_timeout-Keeps : (generation : ℕ) → Keeps (fire_turn_timeout go generation)
  unfolding fire_turn_timeout
  fire_turn_timeout-Keeps generation = record {
    sustains =
        λ rt v. either-Good _ (rt, ok tt) (substitute go rt) v (substitute-Keeps.sustains rt v);
  }

  act_now-Keeps : Keeps (act_now go)
  act_now-Keeps = search (parts, kept, flush-Keeps) depth 16

  fire_cpu_action-Keeps : (generation : ℕ) → Keeps (fire_cpu_action go generation)
  unfolding fire_cpu_action
  fire_cpu_action-Keeps generation = record {
    sustains = λ rt v. either-Good _ (rt, ok tt) (act_now go rt) v (act_now-Keeps.sustains rt v);
  }

  pause_game-Keeps :
      (user : PlayerId) (match_id : String) (minutes : ℕ)
      → Keeps (pause_game go user match_id minutes)
  unfolding pause_game
  pause_game-Keeps user match_id minutes = search (parts, live_match-Keeps, flush-Keeps) depth 24

  arm_timer-Keeps : (kind : TimerKind) (duration : ℕ) → Keeps (arm_timer go kind duration)
  unfolding arm_timer
  arm_timer-Keeps kind duration = record { sustains = λ rt v. v }

  restore_kind-Keeps : (kind : TimerKind) (remaining : ℕ) → Keeps (restore_kind go kind remaining)
  restore_kind-Keeps timer_none remaining = pure-Sustains Good tt
  restore_kind-Keeps timer_throw remaining = arm_timer-Keeps timer_throw remaining
  restore_kind-Keeps timer_move remaining = arm_timer-Keeps timer_move remaining

  restore_window-Keeps : Keeps (restore_window go)
  restore_window-Keeps = record {
    sustains = λ rt v.
        either-Good (ltb 0 rt.preserved_remaining && not rt.cpu_controlled)
          (restore_kind go rt.preserved_timer_kind rt.preserved_remaining rt) (rt, ok tt)
          ((restore_kind-Keeps rt.preserved_timer_kind rt.preserved_remaining).sustains rt v) v;
  }

  resume_match-Keeps : (reason : ResumeReason) → Keeps (resume_match go reason)
  unfolding resume_match
  resume_match-Keeps reason = search (parts, kept, restore_window-Keeps) depth 16

  resume_game-Keeps : (user : PlayerId) (match_id : String) → Keeps (resume_game go user match_id)
  unfolding resume_game
  resume_game-Keeps user match_id =
      search (parts, live_match-Keeps, flush-Keeps, resume_match-Keeps) depth 16

  expire_pause-Keeps : (deadline : ℕ) → Keeps (expire_pause go deadline)
  expire_pause-Keeps deadline = search (parts, flush-Keeps, resume_match-Keeps) depth 16

  fire_pause_expiry-Keeps : (deadline : ℕ) → Keeps (fire_pause_expiry go deadline)
  unfolding fire_pause_expiry
  fire_pause_expiry-Keeps deadline = record {
    sustains = λ rt v.
        either-Good _ (rt, ok tt) (expire_pause go deadline rt) v
          ((expire_pause-Keeps deadline).sustains rt v);
  }

  perform-Keeps : (c : Command) → Keeps (perform go c)
  unfolding perform
  perform-Keeps (throws_yut user match_id) = throw_yut-Keeps user match_id
  perform-Keeps (selects_move user match_id token piece) =
      select_move-Keeps user match_id token piece
  perform-Keeps (selects_route user match_id token piece way) =
      select_route-Keeps user match_id token piece way
  perform-Keeps (pauses_game user match_id minutes) = pause_game-Keeps user match_id minutes
  perform-Keeps (resumes_game user match_id) = resume_game-Keeps user match_id
  perform-Keeps (turn_timeout generation) = fire_turn_timeout-Keeps generation
  perform-Keeps (cpu_acts generation) = fire_cpu_action-Keeps generation
  perform-Keeps (pause_expires deadline) = fire_pause_expiry-Keeps deadline

-- Whatever commands a running match is given, refused ones included, and whatever the store and the
-- source of random numbers answer, the turn and the game stay sound and agree on whether the match
-- is over: the turn has ended the match exactly when the game has a winner.
pub play-Sound :
    (fuel : ℕ) (rt : Runtime) (commands : List (World × Command))
    → Good rt
    → Good (play fuel rt commands)
unfolding play
play-Sound fuel rt [] v = v
play-Sound fuel rt ((world, command) ∷ more) v =
    play-Sound fuel (perform (run_task fuel) command (in_world world rt)).0 more
      ((perform-Keeps (run_task fuel) (run_task-Keeps fuel) command).sustains (in_world world rt) v)
