-- ===== src/Flow/Ledger/Commands.antt =====
-- What is published stays in order, whatever commands a match is given.
use buk_yutnori.Prelude.{ℕ, List, [], ◌∷◌, String, ltb, not, ◌&&◌}
use buk_yutnori.Prelude.Result.{ok}
use buk_yutnori.Prelude.Exec.Keeps.{pure-Sustains}
use buk_yutnori.Domain.{PlayerId, PieceId, ResultTokenId, Route}
use buk_yutnori.Flow.Events.{ResumeReason}
use buk_yutnori.Flow.Runtime.{Runtime, Method, TimerKind, timer_none, timer_throw, timer_move}
use buk_yutnori.Flow.Resolution.{Task}
use buk_yutnori.Flow.Tasks.{run_task}
use buk_yutnori.Flow.Flush.{flush}
use buk_yutnori.Flow.Commands.{
  live_match, acting, throw_yut, select_move, select_route, substitute, fire_turn_timeout,
  fire_cpu_action, pause_game, arm_timer, restore_kind, restore_window, resume_match, resume_game,
  fire_pause_expiry, Command, throws_yut, selects_move, selects_route, pauses_game, resumes_game,
  act_now, expire_pause, turn_timeout, cpu_acts, pause_expires, World, in_world, perform, play,
}
use buk_yutnori.Flow.Ledger.{Ledger}
use buk_yutnori.Flow.Ledger.Flushed.{flush_in_order}
use buk_yutnori.Flow.Ledger.Steps.{Keeps, parts, either-Ledger, perform_throw-Keeps}
use buk_yutnori.Flow.Ledger.Turns.{apply_selected_move-Keeps, select_move_internal-Keeps}
use buk_yutnori.Flow.Ledger.Tasks.{run_task-Keeps}

flush-Keeps : Keeps flush
flush-Keeps = record { sustains = λ rt k. (flush_in_order rt k).1 }

live_match-Keeps : (user : PlayerId) (match_id : String) → Keeps (live_match user match_id)
unfolding live_match
live_match-Keeps user match_id = search parts depth 16

acting-Keeps : (user : PlayerId) (match_id : String) → Keeps (acting user match_id)
unfolding acting
acting-Keeps user match_id = search (parts, live_match-Keeps) depth 10

module _ (go : Task → Method (Unit {0})) (kept : (t : Task) → Keeps (go t)) where
  throw_yut-Keeps : (user : PlayerId) (match_id : String) → Keeps (throw_yut go user match_id)
  unfolding throw_yut
  throw_yut-Keeps user match_id =
      search (parts, perform_throw-Keeps, kept, acting-Keeps, flush-Keeps) depth 16

  select_move-Keeps :
      (user : PlayerId) (match_id : String) (token : ResultTokenId) (piece : PieceId)
      → Keeps (select_move go user match_id token piece)
  unfolding select_move
  select_move-Keeps user match_id token piece =
      let selected = select_move_internal-Keeps go kept token piece in
      search (parts, acting-Keeps, flush-Keeps) depth 16

  select_route-Keeps :
      (user : PlayerId) (match_id : String) (token : ResultTokenId) (piece : PieceId) (way : Route)
      → Keeps (select_route go user match_id token piece way)
  unfolding select_route
  select_route-Keeps user match_id token piece way =
      let applied = apply_selected_move-Keeps go kept token piece way in
      search (parts, acting-Keeps, flush-Keeps) depth 16

  substitute-Keeps : Keeps (substitute go)
  substitute-Keeps = search (parts, kept, flush-Keeps) depth 16

  fire_turn_timeout-Keeps : (generation : ℕ) → Keeps (fire_turn_timeout go generation)
  unfolding fire_turn_timeout
  fire_turn_timeout-Keeps generation = record {
    sustains =
        λ rt v. either-Ledger _ (rt, ok tt) (substitute go rt) v (substitute-Keeps.sustains rt v);
  }

  act_now-Keeps : Keeps (act_now go)
  act_now-Keeps = search (parts, kept, flush-Keeps) depth 16

  fire_cpu_action-Keeps : (generation : ℕ) → Keeps (fire_cpu_action go generation)
  unfolding fire_cpu_action
  fire_cpu_action-Keeps generation = record {
    sustains = λ rt v. either-Ledger _ (rt, ok tt) (act_now go rt) v (act_now-Keeps.sustains rt v);
  }

  pause_game-Keeps :
      (user : PlayerId) (match_id : String) (minutes : ℕ)
      → Keeps (pause_game go user match_id minutes)
  unfolding pause_game
  pause_game-Keeps user match_id minutes = search (parts, live_match-Keeps, flush-Keeps) depth 24

  arm_timer-Keeps : (kind : TimerKind) (duration : ℕ) → Keeps (arm_timer go kind duration)
  unfolding arm_timer
  arm_timer-Keeps kind duration = record { sustains = λ rt v. v }

  restore_kind-Keeps : (kind : TimerKind) (remaining : ℕ) → Keeps (restore_kind go kind remaining)
  restore_kind-Keeps timer_none remaining = pure-Sustains Ledger tt
  restore_kind-Keeps timer_throw remaining = arm_timer-Keeps timer_throw remaining
  restore_kind-Keeps timer_move remaining = arm_timer-Keeps timer_move remaining

  restore_window-Keeps : Keeps (restore_window go)
  restore_window-Keeps = record {
    sustains = λ rt v.
        either-Ledger (ltb 0 rt.preserved_remaining && not rt.cpu_controlled)
          (restore_kind go rt.preserved_timer_kind rt.preserved_remaining rt) (rt, ok tt)
          ((restore_kind-Keeps rt.preserved_timer_kind rt.preserved_remaining).sustains rt v) v;
  }

  resume_match-Keeps : (reason : ResumeReason) → Keeps (resume_match go reason)
  unfolding resume_match
  resume_match-Keeps reason = search (parts, kept, restore_window-Keeps) depth 16

  resume_game-Keeps : (user : PlayerId) (match_id : String) → Keeps (resume_game go user match_id)
  unfolding resume_game
  resume_game-Keeps user match_id =
      search (parts, live_match-Keeps, flush-Keeps, resume_match-Keeps) depth 16

  expire_pause-Keeps : (deadline : ℕ) → Keeps (expire_pause go deadline)
  expire_pause-Keeps deadline = search (parts, flush-Keeps, resume_match-Keeps) depth 16

  fire_pause_expiry-Keeps : (deadline : ℕ) → Keeps (fire_pause_expiry go deadline)
  unfolding fire_pause_expiry
  fire_pause_expiry-Keeps deadline = record {
    sustains = λ rt v.
        either-Ledger _ (rt, ok tt) (expire_pause go deadline rt) v
          ((expire_pause-Keeps deadline).sustains rt v);
  }

  perform-Keeps : (c : Command) → Keeps (perform go c)
  unfolding perform
  perform-Keeps (throws_yut user match_id) = throw_yut-Keeps user match_id
  perform-Keeps (selects_move user match_id token piece) =
      select_move-Keeps user match_id token piece
  perform-Keeps (selects_route user match_id token piece way) =
      select_route-Keeps user match_id token piece way
  perform-Keeps (pauses_game user match_id minutes) = pause_game-Keeps user match_id minutes
  perform-Keeps (resumes_game user match_id) = resume_game-Keeps user match_id
  perform-Keeps (turn_timeout generation) = fire_turn_timeout-Keeps generation
  perform-Keeps (cpu_acts generation) = fire_cpu_action-Keeps generation
  perform-Keeps (pause_expires deadline) = fire_pause_expiry-Keeps deadline

-- Of a match whose ledger is in order, with sequences from 1 on in 64 bits and the sequence of the
-- room, a number of 64 bits, the last of them: whatever commands follow, refused ones included,
-- with whatever the store and the source of random numbers answer, and whatever number of rounds
-- the loops may take, the events published bear the sequences from 1 on in 64 bits, without a gap,
-- and the sequence of the room is the last of them.
pub play_in_order :
    (fuel : ℕ) (rt : Runtime) (commands : List (World × Command))
    → Ledger rt
    → Ledger (play fuel rt commands)
unfolding play
play_in_order fuel rt [] k = k
play_in_order fuel rt ((world, command) ∷ more) k =
    play_in_order fuel (perform (run_task fuel) command (in_world world rt)).0 more
      ((perform-Keeps (run_task fuel) (run_task-Keeps fuel) command).sustains (in_world world rt) k)
