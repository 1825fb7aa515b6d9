-- ===== src/Examples/Rooms.antt =====
-- A lobby of a player and a CPU player, and an attempt to start its match.
use buk_yutnori.Prelude.{
  ◌≡◌, ◌≢◌, ◌≤◌, ◌↔◌, refl, true, false, List, [], ◌∷◌, none, subst, contains, arith, if◌then◌else◌,
  text_discrete, string_eq, ℕ_discrete,
}
use buk_yutnori.Prelude.Sort.{none_of}
use buk_yutnori.Prelude.Result.{ok, err}
use buk_yutnori.Domain.{
  PlayerId, team_a, team_b, TeamId-discrete, validate_id, validate_team_id, player_already_exists,
}
use buk_yutnori.Room.Settings
use buk_yutnori.Room.Settings.{Settings, default_settings}
use buk_yutnori.Room.Lobby
use buk_yutnori.Room.Lobby.{
  Player, Lobby, Call, adds_player, adds_cpu_player, sets_ready, new_lobby, validate_start,
  find_player, has_player, add_player, add_cpu_player, set_ready, put_player, make_cpu, team_count,
  all_ready,
}
use buk_yutnori.Room.Lobby.Invariant
use buk_yutnori.Room.Lobby.Invariant.{run_new-IsValid}
use buk_yutnori.Room.Lobby.Start.{step_refused, CanStart, validate_start_iff}
use buk_yutnori.Room.StartConfirmation
use buk_yutnori.Room.StartConfirmation.{
  StartConfirmation, Status, Status-discrete, pending, confirmed, failed, Attempt, Event, confirms,
  disconnects, expires, new_start_confirmation, roster, pending_player_ids, unanswered, answer,
  confirm, mark_disconnected, expire,
}
use buk_yutnori.Room.StartConfirmation.Responses.{keys, humans, run_new-unanimous}
use buk_yutnori.Room.StartConfirmation.Timeout.{back_in_lobby, expire_effect}

abbrev empty : Lobby
empty = record { settings = default_settings; players = [] }

made : new_lobby default_settings ≡ ok empty
unfolding new_lobby Settings.validate ℕ_discrete Settings.CaptureExtraThrowPolicy-discrete
    Settings.ShortcutPolicy-discrete Settings.MovementOrder-discrete
made = refl

abbrev calls : List Call
calls = adds_player "ann" team_a ∷ adds_cpu_player "cpu" team_b ∷ sets_ready "ann" true ∷ []

abbrev two : Lobby
two = record {
  settings = default_settings;
  players =
      record { id = "ann"; team = team_a; ready = true; cpu = false }
      ∷ record { id = "cpu"; team = team_b; ready = true; cpu = true }
      ∷ [];
}

filled : Lobby.run empty calls ≡ two
unfolding Lobby.run Lobby.step set_ready Lobby.player validate_id text_discrete find_player
    add_cpu_player add_player validate_team_id make_cpu put_player
filled = refl

run_new-IsValid_example : Invariant.IsValid (Lobby.run empty calls)
run_new-IsValid_example = run_new-IsValid default_settings calls made

two-IsValid : Invariant.IsValid two
two-IsValid = subst Invariant.IsValid filled (run_new-IsValid default_settings calls made)

validate_start_iff_example : (validate_start two ≡ ok tt) ↔ CanStart two
validate_start_iff_example = validate_start_iff two two-IsValid

twice : (Lobby.step (adds_player "ann" team_b) two).1 ≡ err player_already_exists
unfolding Lobby.step add_player validate_id text_discrete validate_team_id find_player
twice = refl

step_refused_example : (Lobby.step (adds_player "ann" team_b) two).0 ≡ two
step_refused_example = step_refused (adds_player "ann" team_b) two player_already_exists twice

abbrev asked : StartConfirmation
asked = record {
  match_id = "m1";
  deadline_at = 10_000_000_005;
  status = pending;
  responses = ("ann", false) ∷ [];
}

asked_made : new_start_confirmation two "m1" 5 ≡ ok asked
unfolding new_start_confirmation validate_id text_discrete validate_start team_count TeamId-discrete
    all_ready roster
asked_made = refl

abbrev waiting : Attempt
waiting = record { confirmation = asked; lobby = two }

-- The player answers, is disconnected, and answers again in time.
abbrev answers : List Event
answers = confirms "bob" 6 ∷ disconnects "ann" ∷ confirms "ann" 7 ∷ []

all_answered : (StartConfirmation.run waiting answers).confirmation.status ≡ confirmed
unfolding StartConfirmation.run StartConfirmation.step confirm validate_id text_discrete
    Status-discrete mark_disconnected answer pending_player_ids
all_answered = refl

run_new-unanimous_example :
    (keys (StartConfirmation.run waiting answers).confirmation.responses ≡ humans two.players)
    × (unanswered (StartConfirmation.run waiting answers).confirmation.responses ≡ [])
run_new-unanimous_example = run_new-unanimous two two "m1" 5 answers asked_made all_answered

abbrev over : Attempt
over = record { confirmation = record asked { status = failed }; lobby = empty }

failed_not_pending : failed ≢ pending
failed_not_pending e = ground arith

timed_out : (expire 10_000_000_005 waiting).1 ≡ ok ("ann" ∷ [])
unfolding expire Status-discrete Lobby.fail_start_confirmation pending_player_ids
    Lobby.check_nonresponders validate_id text_discrete find_player
timed_out = refl

expire_effect_example :
    (waiting.confirmation.status ≡ pending)
    × (waiting.confirmation.deadline_at ≤ 10_000_000_005)
    × ((expire 10_000_000_005 waiting).0.confirmation.status ≡ failed)
    × ((id : PlayerId)
        → contains ("ann" ∷ []) id ≡ contains (unanswered waiting.confirmation.responses) id)
    × ((id : PlayerId)
        → find_player (expire 10_000_000_005 waiting).0.lobby.players id ≡ (
            if contains ("ann" ∷ []) id
            then none
            else back_in_lobby (find_player waiting.lobby.players id)))
expire_effect_example = expire_effect 10_000_000_005 waiting timed_out

someone_missing : none_of (unanswered waiting.confirmation.responses) ≡ false
someone_missing = refl

still_there :
    (id : PlayerId)
    → contains (unanswered waiting.confirmation.responses) id ≡ true
    → (validate_id id ≡ ok tt) × (has_player two.players id ≡ true)
unfolding validate_id find_player text_discrete
still_there id c =
    let same : "ann" ≡ id = ground arith in
    subst (λ j. (validate_id j ≡ ok tt) × (has_player two.players j ≡ true)) same (refl, refl)
