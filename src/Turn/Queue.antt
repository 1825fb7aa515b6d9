-- ===== src/Turn/Queue.antt =====
-- internal/domain/turn/queue.go. The mutex is left out: each method is one step.
pub mod Tokens
pub mod Validity
pub mod Order
use buk_yutnori.Prelude.{
  ℕ, Bool, true, false, ◌&&◌, ◌||◌, not, List, [], ◌∷◌, ◌++◌, Option, none, some, ◌==◌, string_eq,
  if◌then◌else◌, length, contains, leb,
}
use buk_yutnori.Prelude.Result.{Result, ok, err}
use buk_yutnori.Prelude.Exec.{Exec, ◌>>=◌, ◌>>◌, pure, fail, lift, reads, modify, guard}
use buk_yutnori.Domain.{
  Error, duplicate_result_token_id, result_token_not_available, result_token_not_found,
  result_token_already_consumed, invalid_movement_order, stacked_buk, result_queue_full,
  ResultTokenId, yut_buk, yut_eq,
}
use buk_yutnori.Room.Settings.{MovementOrder, movement_fifo, movement_free, movement_other}
use buk_yutnori.Turn.Token.{ResultToken, validate}

abbrev pub max_result_queue_tokens : ℕ
max_result_queue_tokens = 32

-- `seen_ids` lists the keys of the map.
pub record ResultQueue : Type 0 where
  pub tokens : List ResultToken
  pub seen_ids : List ResultTokenId

abbrev pub empty_queue : ResultQueue
empty_queue = record { tokens = []; seen_ids = [] }

-- The loops that look for a queued Buk.
unfoldable pub first_buk : List ResultToken → Option ResultToken
first_buk [] = none
first_buk (t ∷ ts) = if t.result == yut_buk then some t else first_buk ts

abbrev pub is_some {ℓ} : {A : Type ℓ} → Option A → Bool
is_some none = false
is_some (some _) = true

unfoldable pub append : ResultToken → Exec Error ResultQueue (Unit {0})
append token = do
  lift (validate token)
  queue ← reads (λ q. q)
  guard (not (contains queue.seen_ids token.id)) duplicate_result_token_id
  guard (not (leb max_result_queue_tokens (length queue.tokens))) result_queue_full
  guard (not (token.result == yut_buk && is_some (first_buk queue.tokens))) stacked_buk
  modify (λ q. record q { tokens = q.tokens ++ token ∷ []; seen_ids = token.id ∷ q.seen_ids })

-- NewResultQueue: the tokens given are appended in order, and the first error is returned.
unfoldable pub append_all : List ResultToken → Exec Error ResultQueue (Unit {0})
append_all [] = pure tt
append_all (token ∷ rest) = append token >> append_all rest

abbrev first_token : List ResultToken → List ResultToken
first_token [] = []
first_token (t ∷ ts) = t ∷ []

abbrev ordinary_tokens : List ResultToken → MovementOrder → List ResultToken
ordinary_tokens tokens movement_fifo = first_token tokens
ordinary_tokens tokens _ = tokens

unfoldable pub available_tokens : List ResultToken → MovementOrder → List ResultToken
available_tokens tokens order = elim (first_buk tokens) [
  | some buk ↦ buk ∷ []
  | none ↦ ordinary_tokens tokens order
]

unfoldable pub contains_token_id : List ResultToken → ResultTokenId → Bool
contains_token_id [] id = false
contains_token_id (t ∷ ts) id = if t.id == id then true else contains_token_id ts id

unfoldable pub validate_movement_order : MovementOrder → Result Error (Unit {0})
validate_movement_order movement_other = err invalid_movement_order
validate_movement_order _ = ok tt

unfoldable pub available : MovementOrder → Exec Error ResultQueue (List ResultToken)
unfolding validate_movement_order
available order = do
  lift (validate_movement_order order)
  reads (λ q. available_tokens q.tokens order)

-- indexOf, `tokens[index]`, and the copy that closes the gap: the first token with the identifier,
-- and the tokens without it.
unfoldable pub take_out : ResultTokenId → List ResultToken → Option (ResultToken × List ResultToken)
take_out id [] = none
take_out id (t ∷ ts) =
    if t.id == id
    then some (t, ts)
    else elim (take_out id ts) [ none ↦ none | some (u, us) ↦ some (u, t ∷ us) ]

unfoldable pub consume : ResultTokenId → MovementOrder → Exec Error ResultQueue ResultToken
unfolding validate_movement_order
consume id order = do
  lift (validate_movement_order order)
  queue ← reads (λ q. q)
  elim (take_out id queue.tokens) [
    | none ↦
        if contains queue.seen_ids id
        then fail result_token_already_consumed
        else fail result_token_not_found
    | some (token, rest) ↦ do
      guard (contains_token_id (available_tokens queue.tokens order) id) result_token_not_available
      modify (λ q. record q { tokens = rest })
      pure token
  ]
