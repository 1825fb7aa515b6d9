-- ===== src/Room/Lobby/Start.antt =====
-- When a match may start, and what a failed start does; and that a refused command does nothing.
use buk_yutnori.Prelude.{
  ℕ, ◌+◌, ◌<◌, ◌≡◌, refl, true, List, [], ◌∷◌, string_eq, length, arith, All, ◌⊎◌, ◌↔◌,
}
use buk_yutnori.Prelude.Result.{ok, err}
use buk_yutnori.Prelude.Exec.Atomic.{
  Keeps, Atomic, Succeeds-Atomic, if-Atomic, pure-Succeeds, >>=-Atomic, >>=-Atomic_last,
  guard-Keeps, lift-Keeps, reads-Keeps, modify-Succeeds, >>=-Succeeds,
}
use buk_yutnori.Domain.{Error, PlayerId, TeamId, team_a, team_b, team_eq, validate_team_id}
use buk_yutnori.Room.Lobby.{
  Player, Lobby, Call, adds_player, adds_cpu_player, removes_cpu_player, removes_player, sets_ready,
  changes_team, updates_settings, fails_start_confirmation, player, add_player, add_cpu_player,
  remove_cpu_player, remove_player, set_ready, change_team, update_settings,
  fail_start_confirmation, step, team_count, all_ready, validate_start,
}
use buk_yutnori.Room.Lobby.Players.{Known}
use buk_yutnori.Room.Lobby.Invariant.{IsValid}

player-Keeps : (id : PlayerId) → Keeps (player id)
unfolding player
player-Keeps id = record { keeps = λ l. ground arith }

ruleset parts = (
  player-Keeps, guard-Keeps, lift-Keeps, reads-Keeps, modify-Succeeds, >>=-Atomic, >>=-Atomic_last,
  >>=-Succeeds, Succeeds-Atomic, if-Atomic, pure-Succeeds,
)

add_player-Atomic : (id : PlayerId) (team : TeamId) → Atomic (add_player id team)
unfolding add_player
add_player-Atomic id team = search parts depth 14

step-Atomic : (c : Call) → Atomic (step c)
unfolding step add_cpu_player remove_cpu_player remove_player set_ready change_team update_settings
    fail_start_confirmation
step-Atomic (adds_player id team) = add_player-Atomic id team
step-Atomic (adds_cpu_player id team) = search (parts, add_player-Atomic) depth 14
step-Atomic (removes_cpu_player id) = search parts depth 14
step-Atomic (removes_player id) = search parts depth 14
step-Atomic (sets_ready id ready) = search parts depth 14
step-Atomic (changes_team id team) = search parts depth 14
step-Atomic (updates_settings settings) = search parts depth 14
step-Atomic (fails_start_confirmation ids) = search parts depth 14

-- A command that is refused leaves the lobby as it was.
pub step_refused : (c : Call) (l : Lobby) (e : Error) → (step c l).1 ≡ err e → (step c l).0 ≡ l
step_refused c l e h = (step-Atomic c).atomic l e h

-- A player that is ready: a CPU player always is.
abbrev pub IsReady : Player → Type 0
IsReady p = (p.cpu ≡ true) ⊎ (p.ready ≡ true)

all_ready_iff : (ps : List Player) → (all_ready ps ≡ true) ↔ All IsReady ps
unfolding all_ready
all_ready_iff [] = (λ h. tt, λ h. refl)
all_ready_iff (p ∷ ps) =
    let (f, g) = all_ready_iff ps in
    (λ h. (ground arith, f (ground arith)), λ h. ground (arith, g h.1))

counts : (ps : List Player) → All Known ps → team_count team_a ps + team_count team_b ps ≡ length ps
unfolding team_count validate_team_id
counts [] k = omega arith
counts (p ∷ ps) k = ground (arith, counts ps k.1)

-- Two teams of as many players, at least one each, and everyone ready.
pub record CanStart (l : Lobby) : Type 0 where
  pub size : ℕ
  pub some_players : 0 < size
  pub team_a_size : team_count team_a l.players ≡ size
  pub team_b_size : team_count team_b l.players ≡ size
  pub ready : All IsReady l.players

-- A valid lobby may start just when it has two teams of the same size, not empty, and every player
-- is ready.
pub validate_start_iff : (l : Lobby) → IsValid l → (validate_start l ≡ ok tt) ↔ CanStart l
unfolding validate_start
validate_start_iff l v =
    let (f, g) = all_ready_iff l.players in
    let sum = counts l.players v.known in
    (
      λ h. record {
        size = team_count team_a l.players;
        some_players = ground arith;
        team_a_size = refl;
        team_b_size = ground arith;
        ready = f (ground arith);
      },
      λ c.
          let r = g c.ready in
          let some_players = c.some_players in
          let a = c.team_a_size in let b = c.team_b_size in ground arith,
    )
