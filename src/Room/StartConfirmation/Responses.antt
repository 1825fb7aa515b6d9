-- ===== src/Room/StartConfirmation/Responses.antt =====
-- Who has answered an attempt, and that an attempt is confirmed by everyone, once and for all.
use buk_yutnori.Prelude.{
  ℕ, ◌≡◌, ◌≢◌, refl, ◌∙◌, Bool, true, false, List, [], ◌∷◌, String, string_eq, if◌then◌else◌,
  lookup, arith, Option-cases, inl, inr, ◌⊎◌,
}
use buk_yutnori.Prelude.Sort.{none_of, none_of-sorted}
use buk_yutnori.Prelude.Result.{ok, Result-cases}
use buk_yutnori.Domain.{PlayerId, validate_id}
use buk_yutnori.Room.Lobby.{Player, Lobby, fail_start_confirmation, validate_start}
use buk_yutnori.Room.StartConfirmation.{
  StartConfirmation, pending, confirmed, status_eq, roster, new_start_confirmation, unanswered,
  pending_player_ids, answer, confirm, is_known, mark_disconnected, Attempt, expire, Event,
  confirms, disconnects, expires, step, run,
}

abbrev pub keys : List (PlayerId × Bool) → List PlayerId
keys [] = []
keys ((id, _) ∷ rs) = id ∷ keys rs

keys-answer :
    (id : PlayerId) (b : Bool) (rs : List (PlayerId × Bool)) → keys (answer id b rs) ≡ keys rs
unfolding answer
keys-answer id b [] = refl
keys-answer id b ((j, a) ∷ rs) = ground (arith, keys-answer id b rs)

-- An answer that is taken back is open.
withdrawn :
    (id : PlayerId) (rs : List (PlayerId × Bool))
    → is_known id rs ≡ true
    → none_of (unanswered (answer id false rs)) ≡ false
unfolding answer
withdrawn id [] h = absurd (ground arith)
withdrawn id ((j, a) ∷ rs) h = ground (arith, withdrawn id rs)

-- Between two events: a confirmed attempt has every answer, and a pending one lacks some, unless
-- nobody is asked.
pub record IsValid (c : StartConfirmation) : Type 0 where
  pub unanimous : c.status ≡ confirmed → unanswered c.responses ≡ []
  pub unfinished :
      c.status ≡ pending → (keys c.responses ≡ []) ⊎ (none_of (unanswered c.responses) ≡ false)

none_of-nil : (ids : List PlayerId) → none_of ids ≡ true → ids ≡ []
none_of-nil [] h = refl
none_of-nil (id ∷ ids) h = absurd (ground arith)

confirm-IsValid :
    (id : PlayerId) (t : ℕ) (c : StartConfirmation) → IsValid c → IsValid (confirm id t c).0
unfolding confirm pending_player_ids
confirm-IsValid id t c v = elim (Option-cases (lookup id c.responses)) [
  | inl n ↦ ground arith
  | inr (true, e) ↦ ground arith
  | inr (false, e) ↦
      let all_in = none_of-sorted (unanswered (answer id true c.responses)) in
      let nil = none_of-nil (unanswered (answer id true c.responses)) in ground arith
]

mark_disconnected-IsValid :
    (id : PlayerId) (c : StartConfirmation) → IsValid c → IsValid (mark_disconnected id c).0
unfolding mark_disconnected
mark_disconnected-IsValid id c v = let w = withdrawn id c.responses in ground arith

expire-IsValid :
    (now : ℕ) (a : Attempt) → IsValid a.confirmation → IsValid (expire now a).0.confirmation
unfolding expire
expire-IsValid now a v =
    elim (Result-cases (fail_start_confirmation (pending_player_ids a.confirmation) a.lobby).1) [
      | inl (_, e) ↦ ground arith
      | inr (_, e) ↦ ground arith
    ]

step-IsValid : (e : Event) (a : Attempt) → IsValid a.confirmation → IsValid (step e a).confirmation
unfolding step
step-IsValid (confirms id t) a v = confirm-IsValid id t a.confirmation v
step-IsValid (disconnects id) a v = mark_disconnected-IsValid id a.confirmation v
step-IsValid (expires now) a v = expire-IsValid now a v

confirm-keys :
    (id : PlayerId) (t : ℕ) (c : StartConfirmation)
    → keys (confirm id t c).0.responses ≡ keys c.responses
unfolding confirm
confirm-keys id t c = elim (Option-cases (lookup id c.responses)) [
  | inl n ↦ ground arith
  | inr (true, e) ↦ ground arith
  | inr (false, e) ↦ ground (arith, keys-answer id true c.responses)
]

mark_disconnected-keys :
    (id : PlayerId) (c : StartConfirmation)
    → keys (mark_disconnected id c).0.responses ≡ keys c.responses
unfolding mark_disconnected
mark_disconnected-keys id c = ground (arith, keys-answer id false c.responses)

expire-keys :
    (now : ℕ) (a : Attempt)
    → keys (expire now a).0.confirmation.responses ≡ keys a.confirmation.responses
unfolding expire
expire-keys now a =
    elim (Result-cases (fail_start_confirmation (pending_player_ids a.confirmation) a.lobby).1) [
      | inl (_, e) ↦ ground arith
      | inr (_, e) ↦ ground arith
    ]

step-keys :
    (e : Event) (a : Attempt)
    → keys (step e a).confirmation.responses ≡ keys a.confirmation.responses
unfolding step
step-keys (confirms id t) a = confirm-keys id t a.confirmation
step-keys (disconnects id) a = mark_disconnected-keys id a.confirmation
step-keys (expires now) a = expire-keys now a

run-IsValid :
    (a : Attempt) (es : List Event)
    → IsValid a.confirmation
    → IsValid (run a es).confirmation
      × (keys (run a es).confirmation.responses ≡ keys a.confirmation.responses)
unfolding run
run-IsValid a [] v = (v, refl)
run-IsValid a (e ∷ es) v =
    let (w, k) = run-IsValid (step e a) es (step-IsValid e a v) in (w, k ∙ step-keys e a)

-- The players that an attempt asks: those of the lobby that are not CPU players.
abbrev pub humans : List Player → List PlayerId
humans [] = []
humans (p ∷ ps) = if p.cpu then humans ps else p.id ∷ humans ps

roster-keys : (ps : List Player) → keys (roster ps) ≡ humans ps
unfolding roster
roster-keys [] = refl
roster-keys (p ∷ ps) = ground (arith, roster-keys ps)

roster-unanswered : (ps : List Player) → unanswered (roster ps) ≡ humans ps
unfolding roster
roster-unanswered [] = refl
roster-unanswered (p ∷ ps) = ground (arith, roster-unanswered ps)

nil_or_not : (ids : List PlayerId) → (ids ≡ []) ⊎ (none_of ids ≡ false)
nil_or_not [] = inl refl
nil_or_not (id ∷ ids) = inr refl

new_start_confirmation-IsValid :
    (l : Lobby) (match_id : String) (t : ℕ) {c : StartConfirmation}
    → new_start_confirmation l match_id t ≡ ok c
    → IsValid c × (keys c.responses ≡ humans l.players)
unfolding new_start_confirmation
new_start_confirmation-IsValid l match_id t {c} h = elim (Result-cases (validate_id match_id)) [
  | inr (_, e) ↦ absurd (ground arith)
  | inl (_, e) ↦ elim (Result-cases (validate_start l)) [
    | inr (_, k) ↦ absurd (ground arith)
    | inl (_, k) ↦
        let same : c.responses ≡ roster l.players = ground arith in
        let at : c.status ≡ pending = ground arith in
        let cases = nil_or_not (humans l.players) in
        (
          record {
            unanimous = λ q. ground arith;
            unfinished = λ q. ground (arith, roster-keys l.players, roster-unanswered l.players);
          },
          rw same (roster-keys l.players),
        )
  ]
]

run_new-IsValid :
    (l later : Lobby) (match_id : String) (t : ℕ) (es : List Event) {c : StartConfirmation}
    → new_start_confirmation l match_id t ≡ ok c
    → IsValid (run (record { confirmation = c; lobby = later }) es).confirmation
      × (keys (run (record { confirmation = c; lobby = later }) es).confirmation.responses
          ≡ humans l.players)
run_new-IsValid l later match_id t es {c} h =
    let (v, k) = new_start_confirmation-IsValid l match_id t h in
    let (w, j) = run-IsValid (record { confirmation = c; lobby = later }) es v in (w, j ∙ k)

-- An attempt that is confirmed, after any events, asked every player of the lobby that was not a
-- CPU player when it began, and has the answer of each.
pub run_new-unanimous :
    (l later : Lobby) (match_id : String) (t : ℕ) (es : List Event) {c : StartConfirmation}
    → new_start_confirmation l match_id t ≡ ok c
    → (run (record { confirmation = c; lobby = later }) es).confirmation.status ≡ confirmed
    → (keys (run (record { confirmation = c; lobby = later }) es).confirmation.responses
        ≡ humans l.players)
      × (unanswered (run (record { confirmation = c; lobby = later }) es).confirmation.responses
          ≡ [])
run_new-unanimous l later match_id t es {c} h q =
    let (v, k) = run_new-IsValid l later match_id t es h in (k, v.unanimous q)

confirm_closed :
    (id : PlayerId) (t : ℕ) (c : StartConfirmation) → c.status ≢ pending → (confirm id t c).0 ≡ c
unfolding confirm
confirm_closed id t c n = ground arith

mark_disconnected_closed :
    (id : PlayerId) (c : StartConfirmation) → c.status ≢ pending → (mark_disconnected id c).0 ≡ c
unfolding mark_disconnected
mark_disconnected_closed id c n = ground arith

step_closed : (e : Event) (a : Attempt) → a.confirmation.status ≢ pending → step e a ≡ a
unfolding step expire
step_closed (confirms id t) a n = ground (arith, confirm_closed id t a.confirmation n)
step_closed (disconnects id) a n = ground (arith, mark_disconnected_closed id a.confirmation n)
step_closed (expires now) a n = ground arith

-- An attempt that is confirmed or has failed is over: no event changes it, or its lobby.
pub run_closed : (a : Attempt) (es : List Event) → a.confirmation.status ≢ pending → run a es ≡ a
unfolding run
run_closed a [] n = refl
run_closed a (e ∷ es) n = let same = step_closed e a n in rw same (run_closed a es n)
