-- ===== src/Flow/Commands.antt =====
-- internal/application/match_flow.go and match_runtime.go: the commands of players on a running
-- match, its timers and its pauses. The room exists; its other parts are the parameters of `Runtime`.
use buk_yutnori.Prelude.{
  ℕ, ◌+◌, ◌*◌, Bool, true, false, not, ◌&&◌, ◌||◌, List, [], ◌∷◌, ◌==◌, string_eq, nat_eq,
  if◌then◌else◌, ltb, eqb, String,
}
use buk_yutnori.Prelude.Result.{Result, ok, err}
use buk_yutnori.Prelude.Exec.{◌>>=◌, ◌>>◌, pure, reads, modify, guard}
use buk_yutnori.Domain.{
  Error, unauthenticated, event_store_unavailable, not_member, match_not_active,
  match_scope_mismatch, match_paused, match_not_paused, match_pause_used, not_turn_player,
  invalid_turn_action, not_room_host, invalid_command, validate_id, PlayerId, PieceId,
  ResultTokenId, Route, RequiredInput, RequiredInput-discrete, input_throw, input_select_move,
  input_select_route,
}
use buk_yutnori.Turn.Machine.{route_selected}
use buk_yutnori.Flow.Events.{
  reason_timeout, cpu_control_started, game_started, game_paused, reason_host_request, game_resumed,
  ResumeReason, resumed_by_host, pause_expired,
}
use buk_yutnori.Flow.Runtime.{
  Store, Runtime, Method, new_event_tx, current_player, timer_none, TimerKind, on_machine, wrapped,
  emit, cancel_timer, remaining_ms, next_u64,
}
use buk_yutnori.Flow.Resolution.{
  Task, advances_turn, runs_cpu_turn, perform_throw, begin_turn, select_move_internal,
  apply_selected_move,
}
use buk_yutnori.Flow.Tasks.{run_task}
use buk_yutnori.Flow.Flush.{flush}

abbrev pub is_ok : {A : Type 0} → Result Error A → Bool
is_ok (ok _) = true
is_ok (err _) = false

-- `newEventTx`
abbrev pub new_tx : Method (Unit {0})
new_tx = modify (λ rt. record rt { tx = new_event_tx })

unfoldable pub live_match : PlayerId → String → Method (Unit {0})
live_match user match_id = do
  rt ← reads (λ rt. rt)
  guard (is_ok (validate_id user)) unauthenticated
  guard (not rt.poisoned) event_store_unavailable
  guard (not (rt.started && rt.storage_paused)) event_store_unavailable
  guard (rt.is_member user) not_member
  guard rt.started match_not_active
  guard (rt.match_id == match_id) match_scope_mismatch

abbrev pub input_is : RequiredInput → RequiredInput → Bool
input_is a b = elim (RequiredInput-discrete a b) [ yes _ ↦ true | no _ ↦ false ]

-- What the three commands of a turn check first.
unfoldable pub acting : PlayerId → String → Method (Unit {0})
acting user match_id = do
  live_match user match_id
  rt ← reads (λ rt. rt)
  guard (not rt.paused) match_paused
  guard (current_player rt == user) not_turn_player

module _ (go : Task → Method (Unit {0})) where
  abbrev pub throw_now : Method (Unit {0})
  throw_now = do
    rt ← reads (λ rt. rt)
    guard (input_is rt.machine.required_input input_throw) invalid_turn_action
    new_tx
    perform_throw
    go advances_turn
    flush

  unfoldable pub throw_yut : PlayerId → String → Method (Unit {0})
  throw_yut user match_id = do acting user match_id; throw_now

  abbrev pub move_now : ResultTokenId → PieceId → Method (Unit {0})
  move_now token_id piece_id = do
    rt ← reads (λ rt. rt)
    guard (input_is rt.machine.required_input input_select_move) invalid_turn_action
    new_tx
    select_move_internal go token_id piece_id
    flush

  unfoldable pub select_move : PlayerId → String → ResultTokenId → PieceId → Method (Unit {0})
  select_move user match_id token_id piece_id = do acting user match_id; move_now token_id piece_id

  abbrev pub route_now : ResultTokenId → PieceId → Route → Method (Unit {0})
  route_now token_id piece_id route = do
    rt ← reads (λ rt. rt)
    guard
        (input_is rt.machine.required_input input_select_route
          && (rt.machine.selected_id == token_id && rt.pending_move_piece == piece_id))
        invalid_turn_action
    wrapped invalid_turn_action (on_machine (route_selected token_id))
    new_tx
    apply_selected_move go token_id piece_id route
    flush

  unfoldable pub select_route :
      PlayerId → String → ResultTokenId → PieceId → Route → Method (Unit {0})
  select_route user match_id token_id piece_id route = do
    acting user match_id
    route_now token_id piece_id route

  abbrev pub substitute : Method (Unit {0})
  substitute = do
    rt ← reads (λ rt. rt)
    modify (λ rt. record rt { cpu_controlled = true; cpu_control_reason = reason_timeout })
    cancel_timer
    new_tx
    emit (cpu_control_started (current_player rt) reason_timeout)
    go runs_cpu_turn
    flush

  abbrev no_timer : TimerKind → Bool
  no_timer timer_none = true
  no_timer _ = false

  -- The deadline of a turn passes. A generation that is no longer current is ignored.
  unfoldable pub fire_turn_timeout : ℕ → Method (Unit {0})
  fire_turn_timeout generation rt =
      if not rt.started
        || (rt.poisoned
            || (not (eqb generation rt.timer_generation)
                || (no_timer rt.timer_kind || (rt.cpu_controlled || rt.paused))))
      then (rt, ok tt)
      else substitute rt

  abbrev pub act_now : Method (Unit {0})
  act_now = do
    modify (λ rt. record rt { cpu_action_timer = false })
    new_tx
    go runs_cpu_turn
    flush

  -- The callback of scheduleCPUActionLocked.
  unfoldable pub fire_cpu_action : ℕ → Method (Unit {0})
  fire_cpu_action generation rt =
      if not rt.started
        || (rt.poisoned || (not (eqb rt.cpu_action_generation generation) || not rt.cpu_controlled))
      then (rt, ok tt)
      else act_now rt

  -- `rt.order[0]`, the empty text where the code panics.
  abbrev pub first_player : List PlayerId → PlayerId
  first_player [] = ""
  first_player (player ∷ _) = player

  -- The match is attached to its room, and the first turn begins.
  unfoldable pub start_match_broadcasts : Method (Unit {0})
  start_match_broadcasts = do
    modify (λ rt. record rt { started = true })
    rt ← reads (λ rt. rt)
    emit (game_started (first_player rt.order) rt.game.buk_destination_space_id)
    begin_turn go

  unfoldable pub pause_game : PlayerId → String → ℕ → Method (Unit {0})
  pause_game user match_id minutes = do
    live_match user match_id
    rt ← reads (λ rt. rt)
    guard (rt.host == user) not_room_host
    guard (not (ltb minutes 1 || ltb 30 minutes)) invalid_command
    guard (not rt.paused) match_paused
    guard (not rt.pause_used) match_pause_used
    let preserved = remaining_ms rt
    modify (λ rt. record rt {
      pause_used = true;
      paused = true;
      preserved_timer_kind = rt.timer_kind;
      preserved_remaining = preserved;
    })
    cancel_timer
    modify
        (λ rt. record rt { pause_ends_at = rt.now + minutes * 60_000; pause_expiry_timer = true })
    new_tx
    emit (game_paused reason_host_request preserved)
    flush

  unfoldable pub arm_timer : TimerKind → ℕ → Method (Unit {0})
  arm_timer kind duration = modify (λ rt. record rt {
    timer_generation = next_u64 rt.timer_generation;
    timer_kind = kind;
    timer_deadline = rt.now + duration;
  })

  -- `switch rt.preservedTimerKind`
  abbrev pub restore_kind : TimerKind → ℕ → Method (Unit {0})
  restore_kind timer_none remaining = pure tt
  restore_kind kind remaining = arm_timer kind remaining

  abbrev pub restore_window : Method (Unit {0})
  restore_window rt =
      if ltb 0 rt.preserved_remaining && not rt.cpu_controlled
      then restore_kind rt.preserved_timer_kind rt.preserved_remaining rt
      else (rt, ok tt)

  abbrev pub forget_window : Method (Unit {0})
  forget_window =
      modify (λ rt. record rt { preserved_timer_kind = timer_none; preserved_remaining = 0 })

  unfoldable pub resume_match : ResumeReason → Method (Unit {0})
  resume_match reason = do
    modify (λ rt. record rt { paused = false })
    rt ← reads (λ rt. rt)
    (if rt.storage_paused then pure tt else restore_window >> forget_window)
    emit (game_resumed reason)
    (if not rt.storage_paused && rt.cpu_controlled then go runs_cpu_turn else pure tt)

  unfoldable pub resume_game : PlayerId → String → Method (Unit {0})
  resume_game user match_id = do
    live_match user match_id
    rt ← reads (λ rt. rt)
    guard (rt.host == user) not_room_host
    guard rt.paused match_not_paused
    modify (λ rt. record rt { pause_expiry_timer = false })
    new_tx
    resume_match resumed_by_host
    flush

  abbrev pub expire_pause : ℕ → Method (Unit {0})
  expire_pause deadline = do
    modify (λ rt. record rt { pause_expiry_timer = false })
    rt ← reads (λ rt. rt)
    (if rt.storage_paused || (not rt.paused || not (eqb rt.pause_ends_at deadline))
        then pure tt
        else new_tx >> (resume_match pause_expired >> flush))

  unfoldable pub fire_pause_expiry : ℕ → Method (Unit {0})
  fire_pause_expiry deadline rt =
      if rt.poisoned || not rt.started then (rt, ok tt) else expire_pause deadline rt

-- A command, or a timer that fires.
pub data Command : Type 0 where
  throws_yut : PlayerId → String → Command
  selects_move : PlayerId → String → ResultTokenId → PieceId → Command
  selects_route : PlayerId → String → ResultTokenId → PieceId → Route → Command
  pauses_game : PlayerId → String → ℕ → Command
  resumes_game : PlayerId → String → Command
  turn_timeout cpu_acts pause_expires : ℕ → Command

-- The instant of a command, what the source of random numbers and the store answer during it, and
-- which players are connected.
pub record World : Type 0 where
  pub now : ℕ
  pub draws : ℕ → ℕ → ℕ
  pub store : Store
  pub connected : PlayerId → Bool

abbrev pub in_world : World → Runtime → Runtime
in_world world rt = record rt {
  now = world.now;
  draws = world.draws;
  store = world.store;
  connected = world.connected;
}

unfoldable pub perform : (Task → Method (Unit {0})) → Command → Method (Unit {0})
perform go (throws_yut user match_id) = throw_yut go user match_id
perform go (selects_move user match_id token piece) = select_move go user match_id token piece
perform go (selects_route user match_id token piece route) =
    select_route go user match_id token piece route
perform go (pauses_game user match_id minutes) = pause_game go user match_id minutes
perform go (resumes_game user match_id) = resume_game go user match_id
perform go (turn_timeout generation) = fire_turn_timeout go generation
perform go (cpu_acts generation) = fire_cpu_action go generation
perform go (pause_expires deadline) = fire_pause_expiry go deadline

-- The commands of a match, each in its world, with the rounds that its loops may take.
unfoldable pub play : ℕ → Runtime → List (World × Command) → Runtime
play fuel rt [] = rt
play fuel rt ((world, command) ∷ more) =
    play fuel (perform (run_task fuel) command (in_world world rt)).0 more
