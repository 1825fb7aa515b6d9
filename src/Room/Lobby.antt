-- ===== src/Room/Lobby.antt =====
-- internal/domain/room/lobby.go. The map of players is the list of its values, with one for each
-- identifier; the code reads it in no order.
pub mod Players
pub mod Invariant
pub mod Start
use buk_yutnori.Prelude.{
  ℕ, suc, Bool, true, false, not, ◌&&◌, ◌||◌, List, [], ◌∷◌, ◌++◌, Option, none, some, ◌==◌,
  string_eq, if◌then◌else◌, contains, length, ltb, leb, eqb,
}
use buk_yutnori.Prelude.Result.{Result, ok, err}
use buk_yutnori.Prelude.Exec.{Exec, ◌>>=◌, ◌>>◌, pure, fail, lift, reads, modify, guard}
use buk_yutnori.Domain.{
  Error, PlayerId, TeamId, team_a, team_b, team_eq, validate_id, validate_team_id,
  player_already_exists, player_not_found, cpu_player_required, lobby_full,
  ready_player_team_change, settings_below_player_count, start_not_enough_players,
  start_teams_unbalanced, start_players_not_ready, no_start_confirmation_failure,
}
use buk_yutnori.Room.Settings
use buk_yutnori.Room.Settings.{Settings}

pub record Player : Type 0 where
  pub id : PlayerId
  pub team : TeamId
  pub ready : Bool
  pub cpu : Bool

pub record Lobby : Type 0 where
  pub settings : Settings
  pub players : List Player

abbrev pub Method : Type 0 → Type 0
Method = Exec Error Lobby

-- `players[id]`
unfoldable pub find_player : List Player → PlayerId → Option Player
find_player [] id = none
find_player (p ∷ ps) id = if p.id == id then some p else find_player ps id

abbrev pub has_player : List Player → PlayerId → Bool
has_player players id = elim (find_player players id) [ none ↦ false | some _ ↦ true ]

-- `players[player.ID] = player` for a key that the map has.
unfoldable pub put_player : Player → List Player → List Player
put_player player [] = []
put_player player (p ∷ ps) = if p.id == player.id then player ∷ ps else p ∷ put_player player ps

-- `delete(players, id)`
unfoldable pub delete_player : PlayerId → List Player → List Player
delete_player id [] = []
delete_player id (p ∷ ps) = if p.id == id then ps else p ∷ delete_player id ps

unfoldable pub new_lobby : Settings → Result Error Lobby
new_lobby settings = elim (Settings.validate settings) [
  | err e ↦ err e
  | ok _ ↦ ok (record { settings = settings; players = [] })
]

-- `lobby.player(id)`
unfoldable pub player : PlayerId → Method Player
player id = do
  lift (validate_id id)
  players ← reads (λ l. l.players)
  elim (find_player players id) [ none ↦ fail player_not_found | some p ↦ pure p ]

abbrev pub set_players : (List Player → List Player) → Method (Unit {0})
set_players change = modify (λ l. record l { players = change l.players })

unfoldable pub add_player : PlayerId → TeamId → Method (Unit {0})
add_player id team = do
  lift (validate_id id)
  lift (validate_team_id team)
  lobby ← reads (λ l. l)
  guard (not (has_player lobby.players id)) player_already_exists
  guard (ltb (length lobby.players) lobby.settings.max_players) lobby_full
  set_players (λ ps. ps ++ record { id = id; team = team; ready = false; cpu = false } ∷ [])

-- `player := players[id]; player.CPU, player.Ready = true, true; players[id] = player`
unfoldable pub make_cpu : PlayerId → List Player → List Player
make_cpu id [] = []
make_cpu id (p ∷ ps) =
    if p.id == id then record p { cpu = true; ready = true } ∷ ps else p ∷ make_cpu id ps

unfoldable pub add_cpu_player : PlayerId → TeamId → Method (Unit {0})
add_cpu_player id team = do add_player id team; set_players (make_cpu id)

unfoldable pub remove_cpu_player : PlayerId → Method (Unit {0})
remove_cpu_player id = do
  p ← player id
  guard p.cpu cpu_player_required
  set_players (delete_player id)

unfoldable pub remove_player : PlayerId → Method (Unit {0})
remove_player id = do
  lift (validate_id id)
  players ← reads (λ l. l.players)
  guard (has_player players id) player_not_found
  set_players (delete_player id)

unfoldable pub set_ready : PlayerId → Bool → Method (Unit {0})
set_ready id ready = do p ← player id; set_players (put_player (record p { ready = ready }))

unfoldable pub change_team : PlayerId → TeamId → Method (Unit {0})
change_team id team = do
  lift (validate_team_id team)
  p ← player id
  (if p.team == team then pure tt else (do
    guard (not p.ready) ready_player_team_change
    set_players (put_player (record p { team = team }))))

unfoldable pub update_settings : Settings → Method (Unit {0})
update_settings settings = do
  lift (Settings.validate settings)
  players ← reads (λ l. l.players)
  guard (leb (length players) settings.max_players) settings_below_player_count
  modify (λ l. record l { settings = settings })

-- `teamCounts[team]`
unfoldable pub team_count : TeamId → List Player → ℕ
team_count team [] = 0
team_count team (p ∷ ps) =
    let rest = team_count team ps in if p.team == team then suc rest else rest

unfoldable pub all_ready : List Player → Bool
all_ready [] = true
all_ready (p ∷ ps) = (p.cpu || p.ready) && all_ready ps

unfoldable pub validate_start : Lobby → Result Error (Unit {0})
validate_start lobby =
    if ltb (length lobby.players) 2
    then err start_not_enough_players
    else if eqb (team_count team_a lobby.players) 0
        || not (eqb (team_count team_a lobby.players) (team_count team_b lobby.players))
    then err start_teams_unbalanced
    else if all_ready lobby.players
    then ok tt
    else err start_players_not_ready

-- The loop that checks the nonresponders; the set of them holds what the list does.
unfoldable pub check_nonresponders : List Player → List PlayerId → Result Error (Unit {0})
check_nonresponders players [] = ok tt
check_nonresponders players (id ∷ ids) = elim (validate_id id) [
  | err e ↦ err e
  | ok _ ↦ if has_player players id then check_nonresponders players ids else err player_not_found
]

-- The loop that deletes them.
unfoldable pub delete_players : List PlayerId → List Player → List Player
delete_players ids [] = []
delete_players ids (p ∷ ps) =
    if contains ids p.id then delete_players ids ps else p ∷ delete_players ids ps

-- `player.Ready = player.CPU`
abbrev pub not_ready : Player → Player
not_ready p = record p { ready = p.cpu }

unfoldable pub reset_ready : List Player → List Player
reset_ready [] = []
reset_ready (p ∷ ps) = not_ready p ∷ reset_ready ps

abbrev pub some_ids : List PlayerId → Bool
some_ids [] = false
some_ids (_ ∷ _) = true

unfoldable pub fail_start_confirmation : List PlayerId → Method (Unit {0})
fail_start_confirmation nonresponders = do
  guard (some_ids nonresponders) no_start_confirmation_failure
  players ← reads (λ l. l.players)
  lift (check_nonresponders players nonresponders)
  set_players (λ ps. reset_ready (delete_players nonresponders ps))

-- The commands of a lobby, as calls.
pub data Call : Type 0 where
  adds_player adds_cpu_player : PlayerId → TeamId → Call
  removes_cpu_player removes_player : PlayerId → Call
  sets_ready : PlayerId → Bool → Call
  changes_team : PlayerId → TeamId → Call
  updates_settings : Settings → Call
  fails_start_confirmation : List PlayerId → Call

unfoldable pub step : Call → Method (Unit {0})
step (adds_player id team) = add_player id team
step (adds_cpu_player id team) = add_cpu_player id team
step (removes_cpu_player id) = remove_cpu_player id
step (removes_player id) = remove_player id
step (sets_ready id ready) = set_ready id ready
step (changes_team id team) = change_team id team
step (updates_settings settings) = update_settings settings
step (fails_start_confirmation ids) = fail_start_confirmation ids

-- The calls in order, those that fail included.
unfoldable pub run : Lobby → List Call → Lobby
run l [] = l
run l (c ∷ cs) = run (step c l).0 cs
