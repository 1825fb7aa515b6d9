-- ===== src/Room/StartConfirmation.antt =====
-- internal/domain/room/start_confirmation.go. A time is a number of nanoseconds. The map of
-- responses is the list of its entries, with one for each player; the code reads it in no order.
pub mod Responses
pub mod Timeout
use buk_yutnori.Prelude.{
  ℕ, ◌+◌, Bool, true, false, not, List, [], ◌∷◌, Option, none, some, String, ◌==◌, string_eq, Eq,
  if◌then◌else◌, lookup, ltb,
}
use buk_yutnori.Prelude.Sort.{sorted, none_of}
use buk_yutnori.Prelude.Result.{Result, ok, err}
use buk_yutnori.Prelude.Exec.{Exec, ◌>>=◌, ◌>>◌, pure, fail, lift, reads, modify, guard}
use buk_yutnori.Domain.{
  Error, PlayerId, validate_id, start_confirmation_expired, start_confirmation_closed,
  start_confirmation_not_expired, start_confirmation_player_not_found,
}
use buk_yutnori.Room.Lobby.{Player, Lobby, validate_start, fail_start_confirmation}

-- `10 * time.Second`
abbrev pub start_confirmation_window : ℕ
start_confirmation_window = 10_000_000_000

pub data Status : Type 0 where
  pending confirmed failed : Status

unfoldable pub Status-discrete : Discrete Status
Status-discrete = hlevel

instance abbrev pub status_eq : Eq Status
status_eq = record { dec = Status-discrete }

pub record StartConfirmation : Type 0 where
  pub match_id : String
  pub deadline_at : ℕ
  pub status : Status
  pub responses : List (PlayerId × Bool)

abbrev pub Method : Type 0 → Type 0
Method = Exec Error StartConfirmation

-- The loop over the players of the lobby.
unfoldable pub roster : List Player → List (PlayerId × Bool)
roster [] = []
roster (p ∷ ps) = let rest = roster ps in if p.cpu then rest else (p.id, false) ∷ rest

unfoldable pub new_start_confirmation : Lobby → String → ℕ → Result Error StartConfirmation
new_start_confirmation lobby match_id started_at = elim (validate_id match_id) [
  | err e ↦ err e
  | ok _ ↦ elim (validate_start lobby) [
    | err e ↦ err e
    | ok _ ↦ ok (record {
      match_id = match_id;
      deadline_at = started_at + start_confirmation_window;
      status = pending;
      responses = roster lobby.players;
    })
  ]
]

abbrev pub unanswered : List (PlayerId × Bool) → List PlayerId
unanswered [] = []
unanswered ((id, answered) ∷ rs) = if answered then unanswered rs else id ∷ unanswered rs

unfoldable pub pending_player_ids : StartConfirmation → List PlayerId
pending_player_ids c = sorted (unanswered c.responses)

-- `confirmed[id] = answered` for a key that the map has.
unfoldable pub answer : PlayerId → Bool → List (PlayerId × Bool) → List (PlayerId × Bool)
answer id answered [] = []
answer id answered ((j, a) ∷ rs) =
    if j == id then (j, answered) ∷ rs else (j, a) ∷ answer id answered rs

abbrev pub record_answer : PlayerId → Bool → Method (Unit {0})
record_answer id answered = modify (λ c. record c { responses = answer id answered c.responses })

-- What is left of `Confirm` when the response of the player is known.
abbrev pub confirm_known : PlayerId → Bool → Method Bool
confirm_known id true = pure false
confirm_known id false = do
  record_answer id true
  c ← reads (λ c. c)
  (if none_of (pending_player_ids c)
      then (do modify (λ c. record c { status = confirmed }); pure true)
      else pure false)

unfoldable pub confirm : PlayerId → ℕ → Method Bool
confirm id received_at = do
  lift (validate_id id)
  c ← reads (λ c. c)
  guard (not (c.status == failed)) start_confirmation_expired
  guard (c.status == pending) start_confirmation_closed
  guard (ltb received_at c.deadline_at) start_confirmation_expired
  elim (lookup id c.responses) [
    | none ↦ fail start_confirmation_player_not_found
    | some answered ↦ confirm_known id answered
  ]

abbrev pub is_known : PlayerId → List (PlayerId × Bool) → Bool
is_known id responses = elim (lookup id responses) [ none ↦ false | some _ ↦ true ]

unfoldable pub mark_disconnected : PlayerId → Method (Unit {0})
mark_disconnected id = do
  lift (validate_id id)
  c ← reads (λ c. c)
  guard (c.status == pending) start_confirmation_closed
  guard (is_known id c.responses) start_confirmation_player_not_found
  record_answer id false

-- The attempt and the lobby that the timeout changes.
pub record Attempt : Type 0 where
  pub confirmation : StartConfirmation
  pub lobby : Lobby

-- A call of a method of the lobby.
abbrev pub on_lobby : {A : Type 0} → Exec Error Lobby A → Exec Error Attempt A
on_lobby call a = let (l, r) = call a.lobby in (record a { lobby = l }, r)

unfoldable pub expire : ℕ → Exec Error Attempt (List PlayerId)
expire now = do
  a ← reads (λ a. a)
  guard (a.confirmation.status == pending) start_confirmation_closed
  guard (not (ltb now a.confirmation.deadline_at)) start_confirmation_not_expired
  on_lobby (fail_start_confirmation (pending_player_ids a.confirmation))
  modify (λ a. record a { confirmation = record a.confirmation { status = failed } })
  pure (pending_player_ids a.confirmation)

-- What reaches an attempt: responses, disconnections and the timer.
pub data Event : Type 0 where
  confirms : PlayerId → ℕ → Event
  disconnects : PlayerId → Event
  expires : ℕ → Event

-- A call of a method of the attempt.
abbrev pub on_confirmation : {A : Type 0} → Method A → Exec Error Attempt A
on_confirmation call a = let (c, r) = call a.confirmation in (record a { confirmation = c }, r)

unfoldable pub step : Event → Attempt → Attempt
step (confirms id received_at) a = (on_confirmation (confirm id received_at) a).0
step (disconnects id) a = (on_confirmation (mark_disconnected id) a).0
step (expires now) a = (expire now a).0

-- The events in order, those that are refused included.
unfoldable pub run : Attempt → List Event → Attempt
run a [] = a
run a (e ∷ es) = run (step e a) es
