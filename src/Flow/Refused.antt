-- ===== src/Flow/Refused.antt =====
-- Commands of a turn from anyone but the acting player.
use buk_yutnori.Prelude.{
  ◌≡◌, ◌≢◌, ◌∙◌, ◌==◌, not, inl, inr, Bool-cases, refl, String, string_eq, arith, Option, none,
  some,
}
use buk_yutnori.Prelude.Result.{err, Result-cases}
use buk_yutnori.Prelude.Exec.{◌>>=◌, ◌>>◌, reads, guard}
use buk_yutnori.Prelude.Exec.Atomic.{bind_to, bind_fail}
use buk_yutnori.Prelude.Exec.Keeps.{Sustains, >>=-Sustains, reads-Sustains, guard-Sustains}
use buk_yutnori.Domain.{Error, match_paused, not_turn_player, PlayerId}
use buk_yutnori.Flow.Runtime.{Runtime, Method, current_player}
use buk_yutnori.Flow.Resolution.{Task}
use buk_yutnori.Flow.Commands.{
  live_match, acting, throw_now, move_now, route_now, throw_yut, select_move, select_route, Command,
  throws_yut, selects_move, selects_route, pauses_game, resumes_game, turn_timeout, cpu_acts,
  pause_expires, perform,
}

-- Who sends a command of a turn.
abbrev pub turn_user : Command → Option PlayerId
turn_user (throws_yut user _) = some user
turn_user (selects_move user _ _ _) = some user
turn_user (selects_route user _ _ _ _) = some user
turn_user _ = none

-- A call that returns an error and leaves the state.
abbrev pub Refuses : {A : Type 0} → Method A → Runtime → Type 0
Refuses m rt = (e : Error) × (m rt ≡ (rt, err e))

live_match_reads :
    (rt : Runtime) (user : PlayerId) (match_id : String) → (live_match user match_id rt).0 ≡ rt
unfolding live_match
live_match_reads rt user match_id =
    let reads_only : Sustains (λ s. s ≡ rt) (live_match user match_id) =
      search (>>=-Sustains, reads-Sustains, guard-Sustains) depth 16 in
    reads_only.sustains rt refl

-- The rest of what a command of a turn checks first.
own_turn : PlayerId → Method (Unit {0})
own_turn user = do
  rt ← reads (λ rt. rt)
  guard (not rt.paused) match_paused
  guard (current_player rt == user) not_turn_player

own_turn-Refuses :
    (rt : Runtime) (user : PlayerId) → current_player rt ≢ user → Refuses (own_turn user) rt
unfolding own_turn
own_turn-Refuses rt user n = elim (Bool-cases rt.paused) [
  | inl p ↦ (match_paused, rw (p, guard) refl)
  | inr p ↦ elim (Bool-cases (current_player rt == user)) [
    | inl e ↦ absurd (n (ground arith))
    | inr e ↦ (not_turn_player, ground arith)
  ]
]

both : {A : Type 0} {r : Runtime × A} {s : Runtime} {a : A} → r.0 ≡ s → r.1 ≡ a → r ≡ (s, a)
both p q = ground arith

acting-Refuses :
    (rt : Runtime) (user : PlayerId) (match_id : String)
    → current_player rt ≢ user
    → Refuses (acting user match_id) rt
unfolding acting own_turn
acting-Refuses rt user match_id n =
    let state = live_match_reads rt user match_id in
    elim (Result-cases (live_match user match_id rt).1) [
      | inr (x, e) ↦
          (x, bind_fail (live_match user match_id) (λ _. own_turn user) rt (both state e))
      | inl (u, e) ↦
          let (x, refused) = own_turn-Refuses rt user n in
          (x, bind_to (live_match user match_id) (λ _. own_turn user) rt (both state e) ∙ refused)
    ]

then-Refuses :
    {A B : Type 0} (m : Method A) (f : A → Method B) (rt : Runtime)
    → Refuses m rt
    → Refuses (m >>= f) rt
then-Refuses m f rt (e, h) = (e, bind_fail m f rt h)

-- A throw, a move or a route that anyone but the acting player sends is refused with an error, and
-- nothing of the match changes.
pub perform_refused :
    (go : Task → Method (Unit {0})) (command : Command) (rt : Runtime) {user : PlayerId}
    → turn_user command ≡ some user
    → current_player rt ≢ user
    → Refuses (perform go command) rt
unfolding perform throw_yut select_move select_route
perform_refused go (throws_yut user m) rt e n =
    then-Refuses (acting user m) (λ _. throw_now go) rt
      (acting-Refuses rt user m (λ s. n (ground arith)))
perform_refused go (selects_move user m token piece) rt e n =
    then-Refuses (acting user m) (λ _. move_now go token piece) rt
      (acting-Refuses rt user m (λ s. n (ground arith)))
perform_refused go (selects_route user m token piece way) rt e n =
    then-Refuses (acting user m) (λ _. route_now go token piece way) rt
      (acting-Refuses rt user m (λ s. n (ground arith)))
perform_refused go (pauses_game user m d) rt e n = absurd (ground arith)
perform_refused go (resumes_game user m) rt e n = absurd (ground arith)
perform_refused go (turn_timeout g) rt e n = absurd (ground arith)
perform_refused go (cpu_acts g) rt e n = absurd (ground arith)
perform_refused go (pause_expires d) rt e n = absurd (ground arith)
