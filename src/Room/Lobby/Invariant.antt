-- ===== src/Room/Lobby/Invariant.antt =====
-- What a lobby keeps through any commands.
use buk_yutnori.Prelude.{
  ◌≤◌, ◌≡◌, subst, Bool, false, List, [], ◌∷◌, ◌++◌, string_eq, length, length-append, arith, All,
  All-append, Option-cases, inl, inr, ◌<◌,
}
use buk_yutnori.Prelude.Result.{ok, Result-cases}
use buk_yutnori.Domain.{PlayerId, TeamId}
use buk_yutnori.Room.Settings
use buk_yutnori.Room.Settings.{Settings}
use buk_yutnori.Room.Lobby.{
  Player, Lobby, Call, adds_player, adds_cpu_player, removes_cpu_player, removes_player, sets_ready,
  changes_team, updates_settings, fails_start_confirmation, find_player, has_player, put_player,
  delete_players, player, new_lobby, add_player, add_cpu_player, remove_cpu_player, remove_player,
  set_ready, change_team, update_settings, fail_start_confirmation, step, run,
}
use buk_yutnori.Room.Lobby.Players.{
  Distinct, Known, Shrinks, find_player-Known, put_player-Shrinks, delete_player-Shrinks,
  delete_players-Shrinks, make_cpu-Shrinks, reset_ready-Shrinks, Distinct-append,
}

-- Valid settings, no more players than they admit, and a map of known players.
pub record IsValid (l : Lobby) : Type 0 where
  pub settings_valid : Settings.validate l.settings ≡ ok tt
  pub bounded : length l.players ≤ l.settings.max_players
  pub distinct : Distinct l.players
  pub known : All Known l.players

Shrinks-IsValid :
    (l : Lobby) {qs : List Player}
    → IsValid l
    → Shrinks l.players qs
    → IsValid (record l { players = qs })
Shrinks-IsValid l v s = record {
  settings_valid = v.settings_valid;
  bounded = omega (arith, s.shorter, v.bounded);
  distinct = s.distinct v.distinct;
  known = s.known v.known;
}

admitted-IsValid :
    (l : Lobby) (p : Player)
    → IsValid l
    → Known p
    → has_player l.players p.id ≡ false
    → length l.players < l.settings.max_players
    → IsValid (record l { players = l.players ++ p ∷ [] })
admitted-IsValid l p v k h b = record {
  settings_valid = v.settings_valid;
  bounded = omega (arith, length-append l.players (p ∷ []));
  distinct = Distinct-append l.players p v.distinct h;
  known = All-append Known l.players (p ∷ []) v.known (k, tt);
}

abbrev newcomer : PlayerId → TeamId → Player
newcomer id team = record { id = id; team = team; ready = false; cpu = false }

add_player-IsValid :
    (id : PlayerId) (team : TeamId) (l : Lobby) → IsValid l → IsValid (add_player id team l).0
unfolding add_player
add_player-IsValid id team l v = let a = admitted-IsValid l (newcomer id team) v in ground arith

add_cpu_player-IsValid :
    (id : PlayerId) (team : TeamId) (l : Lobby) → IsValid l → IsValid (add_cpu_player id team l).0
unfolding add_cpu_player
add_cpu_player-IsValid id team l v =
    let w = add_player-IsValid id team l v in
    let s =
      Shrinks-IsValid (add_player id team l).0 w
        (make_cpu-Shrinks id (add_player id team l).0.players) in
    ground arith

remove_player-IsValid : (id : PlayerId) (l : Lobby) → IsValid l → IsValid (remove_player id l).0
unfolding remove_player
remove_player-IsValid id l v =
    let s = Shrinks-IsValid l v (delete_player-Shrinks id l.players) in ground arith

remove_cpu_player-IsValid :
    (id : PlayerId) (l : Lobby) → IsValid l → IsValid (remove_cpu_player id l).0
unfolding remove_cpu_player player
remove_cpu_player-IsValid id l v =
    let s = Shrinks-IsValid l v (delete_player-Shrinks id l.players) in ground arith

put-IsValid :
    (l : Lobby) (p : Player)
    → IsValid l
    → Known p
    → IsValid (record l { players = put_player p l.players })
put-IsValid l p v k = Shrinks-IsValid l v (put_player-Shrinks p l.players k)

set_ready-IsValid :
    (id : PlayerId) (ready : Bool) (l : Lobby) → IsValid l → IsValid (set_ready id ready l).0
unfolding set_ready player
set_ready-IsValid id ready l v = elim (Option-cases (find_player l.players id)) [
  | inl n ↦ ground arith
  | inr (p, e) ↦
      let s =
        put-IsValid l (record p { ready = ready }) v (find_player-Known l.players id v.known e) in
      ground arith
]

change_team-IsValid :
    (id : PlayerId) (team : TeamId) (l : Lobby) → IsValid l → IsValid (change_team id team l).0
unfolding change_team player
change_team-IsValid id team l v = elim (Option-cases (find_player l.players id)) [
  | inl n ↦ ground arith
  | inr (p, e) ↦
      let known = find_player-Known l.players id v.known e in
      let s = put-IsValid l (record p { team = team }) v in ground arith
]

update_settings-IsValid :
    (settings : Settings) (l : Lobby) → IsValid l → IsValid (update_settings settings l).0
unfolding update_settings
update_settings-IsValid settings l v = ground arith

fail_start_confirmation-IsValid :
    (ids : List PlayerId) (l : Lobby) → IsValid l → IsValid (fail_start_confirmation ids l).0
unfolding fail_start_confirmation
fail_start_confirmation-IsValid ids l v =
    let s = Shrinks-IsValid l v (delete_players-Shrinks ids l.players) in
    let t =
      Shrinks-IsValid (record l { players = delete_players ids l.players }) s
        (reset_ready-Shrinks (delete_players ids l.players)) in
    ground arith

-- Every command, accepted or refused, keeps a valid lobby valid.
pub step-IsValid : (c : Call) (l : Lobby) → IsValid l → IsValid (step c l).0
unfolding step
step-IsValid (adds_player id team) l v = add_player-IsValid id team l v
step-IsValid (adds_cpu_player id team) l v = add_cpu_player-IsValid id team l v
step-IsValid (removes_cpu_player id) l v = remove_cpu_player-IsValid id l v
step-IsValid (removes_player id) l v = remove_player-IsValid id l v
step-IsValid (sets_ready id ready) l v = set_ready-IsValid id ready l v
step-IsValid (changes_team id team) l v = change_team-IsValid id team l v
step-IsValid (updates_settings settings) l v = update_settings-IsValid settings l v
step-IsValid (fails_start_confirmation ids) l v = fail_start_confirmation-IsValid ids l v

run-IsValid : (l : Lobby) (cs : List Call) → IsValid l → IsValid (run l cs)
unfolding run
run-IsValid l [] v = v
run-IsValid l (c ∷ cs) v = run-IsValid (step c l).0 cs (step-IsValid c l v)

new_lobby-IsValid : (settings : Settings) {l : Lobby} → new_lobby settings ≡ ok l → IsValid l
unfolding new_lobby
new_lobby-IsValid settings {l} h = elim (Result-cases (Settings.validate settings)) [
  | inl (tt, e) ↦
      let same : record { settings = settings; players = [] } ≡ l = ground arith in
      subst IsValid same
        (record { settings_valid = e; bounded = omega arith; distinct = tt; known = tt })
  | inr (x, e) ↦ absurd (ground arith)
]

-- A lobby made by `new_lobby` stays valid, whatever commands follow.
pub run_new-IsValid :
    (settings : Settings) {l : Lobby} (cs : List Call)
    → new_lobby settings ≡ ok l
    → IsValid (run l cs)
run_new-IsValid settings {l} cs h = run-IsValid l cs (new_lobby-IsValid settings h)
