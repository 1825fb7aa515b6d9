-- ===== src/Room/StartConfirmation/Timeout.antt =====
-- What the timeout of an attempt does to the lobby.
use buk_yutnori.Prelude.{
  ℕ, ◌≡◌, refl, sym, ◌∙◌, true, false, List, [], ◌∷◌, Option, none, some, string_eq, if◌then◌else◌,
  contains, arith, inl, inr, ◌≤◌,
}
use buk_yutnori.Prelude.Sort.{sorted, none_of, contains-sorted, none_of-sorted}
use buk_yutnori.Prelude.Result.{ok, err, Result-cases}
use buk_yutnori.Domain.{Error, PlayerId, validate_id}
use buk_yutnori.Room.Lobby.{
  Player, fail_start_confirmation, find_player, has_player, delete_players, reset_ready, not_ready,
  check_nonresponders,
}
use buk_yutnori.Room.StartConfirmation.{
  pending, failed, status_eq, pending_player_ids, unanswered, Attempt, expire,
}

abbrev pub back_in_lobby : Option Player → Option Player
back_in_lobby none = none
back_in_lobby (some p) = some (not_ready p)

find_player-failed :
    (ids : List PlayerId) (ps : List Player) (id : PlayerId)
    → find_player (reset_ready (delete_players ids ps)) id
      ≡ (if contains ids id then none else back_in_lobby (find_player ps id))
unfolding find_player reset_ready delete_players
find_player-failed ids [] id = ground arith
find_player-failed ids (p ∷ ps) id = ground (arith, find_player-failed ids ps id)

-- When the timeout is applied, the attempt was pending and its deadline had passed; it has failed,
-- the players who had not answered are returned and are out of the lobby, and every other player
-- is still there, ready only if it is a CPU player.
pub expire_effect :
    (now : ℕ) (a : Attempt) {ids : List PlayerId}
    → (expire now a).1 ≡ ok ids
    → (a.confirmation.status ≡ pending)
      × (a.confirmation.deadline_at ≤ now)
      × ((expire now a).0.confirmation.status ≡ failed)
      × ((id : PlayerId) → contains ids id ≡ contains (unanswered a.confirmation.responses) id)
      × ((id : PlayerId)
          → find_player (expire now a).0.lobby.players id
            ≡ (if contains ids id then none else back_in_lobby (find_player a.lobby.players id)))
unfolding expire fail_start_confirmation
expire_effect now a {ids} h =
    elim (Result-cases (check_nonresponders a.lobby.players (pending_player_ids a.confirmation))) [
      | inr (_, e) ↦ absurd (ground arith)
      | inl (_, e) ↦ (
        ground arith,
        ground arith,
        ground arith,
        (λ id.
            unfold pending_player_ids in
            ground (arith, contains-sorted (unanswered a.confirmation.responses) id)),
        (λ id.
            ground
              (arith, find_player-failed (pending_player_ids a.confirmation) a.lobby.players id)),
      )
    ]

-- A timeout that is refused leaves the attempt and the lobby.
pub expire_refused :
    (now : ℕ) (a : Attempt) {e : Error} → (expire now a).1 ≡ err e → (expire now a).0 ≡ a
unfolding expire fail_start_confirmation
expire_refused now a h = ground arith

checked :
    (ps : List Player) (ids : List PlayerId)
    → ((id : PlayerId)
        → contains ids id ≡ true
        → (validate_id id ≡ ok tt) × (has_player ps id ≡ true))
    → check_nonresponders ps ids ≡ ok tt
unfolding check_nonresponders
checked ps [] f = refl
checked ps (id ∷ ids) f =
    let (v, k) = f id (ground arith) in
    let rest = checked ps ids (λ j m. f j (ground arith)) in ground arith

-- The timeout of a pending attempt is applied at its deadline or later, if someone has not answered
-- and those who have not are still in the lobby.
pub expire_succeeds :
    (now : ℕ) (a : Attempt)
    → a.confirmation.status ≡ pending
    → a.confirmation.deadline_at ≤ now
    → none_of (unanswered a.confirmation.responses) ≡ false
    → ((id : PlayerId)
        → contains (unanswered a.confirmation.responses) id ≡ true
        → (validate_id id ≡ ok tt) × (has_player a.lobby.players id ≡ true))
    → (expire now a).1 ≡ ok (pending_player_ids a.confirmation)
unfolding expire fail_start_confirmation pending_player_ids
expire_succeeds now a p d n f =
    let ids = unanswered a.confirmation.responses in
    let accepted =
      checked a.lobby.players (sorted ids) (λ id c. f id (sym (contains-sorted ids id) ∙ c)) in
    ground (arith, none_of-sorted ids)
