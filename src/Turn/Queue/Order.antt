-- ===== src/Turn/Queue/Order.antt =====
-- Which token the queue gives out next, and what a caller is told of the others.
use buk_yutnori.Prelude.{
  ◌≡◌, true, false, List, [], ◌∷◌, none, some, string_eq, if◌then◌else◌, contains, arith, inl, inr,
  Option-cases, Bool-cases, ◌≢◌, ◌↔◌, ◌∙◌,
}
use buk_yutnori.Prelude.Result.{ok, err}
use buk_yutnori.Domain.{
  result_token_not_available, result_token_not_found, result_token_already_consumed, ResultTokenId,
  yut_buk, yut_eq,
}
use buk_yutnori.Room.Settings.{MovementOrder, movement_fifo, movement_free, movement_other}
use buk_yutnori.Turn.Token.{ResultToken}
use buk_yutnori.Turn.Queue.{ResultQueue, first_buk, available_tokens, contains_token_id, consume}
use buk_yutnori.Turn.Queue.Tokens.{take_out_cases, Removes-Distinct, Removes-All, Removes-member}
use buk_yutnori.Turn.Queue.Validity.{IsValid, consume_taken}

first_buk_contained :
    (ts : List ResultToken) {b : ResultToken}
    → first_buk ts ≡ some b
    → (b.result ≡ yut_buk) × (contains_token_id ts b.id ≡ true)
unfolding first_buk contains_token_id
first_buk_contained [] h = absurd (ground arith)
first_buk_contained (t ∷ ts) {b} h = ground (arith, first_buk_contained ts {b = b})

pub available_contained :
    (ts : List ResultToken) (order : MovementOrder) (id : ResultTokenId)
    → contains_token_id (available_tokens ts order) id ≡ true
    → contains_token_id ts id ≡ true
unfolding available_tokens contains_token_id
available_contained ts order id h = elim (Option-cases (first_buk ts)) [
  | inr (b, e) ↦ ground (arith, first_buk_contained ts {b = b})
  | inl e ↦ available_ordinary ts order h e
]
  where
    available_ordinary :
        (ts : List ResultToken) (order : MovementOrder)
        → contains_token_id (available_tokens ts order) id ≡ true
        → first_buk ts ≡ none
        → contains_token_id ts id ≡ true
    available_ordinary [] movement_fifo h e = ground arith
    available_ordinary (t ∷ ts) movement_fifo h e = ground arith
    available_ordinary ts movement_free h e = ground arith
    available_ordinary ts movement_other h e = ground arith

pub consumes_available :
    (id : ResultTokenId) (order : MovementOrder) (q : ResultQueue)
    → order ≢ movement_other
    → contains_token_id (available_tokens q.tokens order) id ≡ true
    → (t : ResultToken) × ((consume id order q).1 ≡ ok t)
unfolding consume
consumes_available id order q o h = elim (take_out_cases id q.tokens) [
  | inl (e, c) ↦ absurd (ground (arith, available_contained q.tokens order id h))
  | inr (u, us, e, i, r) ↦ (u, ground arith)
]

-- With a movement order of the game, a call of `consume` succeeds for exactly the identifiers
-- that the queue gives out.
pub consume_iff :
    (id : ResultTokenId) (order : MovementOrder) (q : ResultQueue)
    → order ≢ movement_other
    → ((t : ResultToken) × ((consume id order q).1 ≡ ok t))
      ↔ (contains_token_id (available_tokens q.tokens order) id ≡ true)
consume_iff id order q o =
    (λ (t, e). (consume_taken id order q e).4, λ h. consumes_available id order q o h)

-- With a movement order of the game, and an identifier that the queue does not give out, the error
-- says whether the token waits behind an ordering rule, was consumed before, or was never seen.
consume_error :
    (id : ResultTokenId) (order : MovementOrder) (q : ResultQueue)
    → order ≢ movement_other
    → contains_token_id (available_tokens q.tokens order) id ≡ false
    → (consume id order q).1
      ≡ err (
          if contains_token_id q.tokens id
          then result_token_not_available
          else if contains q.seen_ids id
          then result_token_already_consumed
          else result_token_not_found)
unfolding consume
consume_error id order q o h = elim (take_out_cases id q.tokens) [
  | inl (e, c) ↦ ground arith
  | inr (u, us, e, i, r) ↦ ground (arith, Removes-member r)
]

-- A token of a valid queue is consumed once: after a call that returned it, a second call with its
-- identifier, in either order of the game, reports that it was consumed.
pub consume_twice :
    (id : ResultTokenId) (order later : MovementOrder) (q : ResultQueue) {t : ResultToken}
    → IsValid q
    → later ≢ movement_other
    → (consume id order q).1 ≡ ok t
    → (consume id later (consume id order q).0).1 ≡ err result_token_already_consumed
consume_twice id order later q {t} v o e =
    let (us, s, i, r, _) = consume_taken id order q e in
    let gone : contains_token_id us id ≡ false = rw (← i) ((Removes-Distinct r v.distinct).1) in
    let seen : contains q.seen_ids id ≡ true =
      rw (← i) ((Removes-All (λ u. contains q.seen_ids u.id ≡ true) r v.reserved).0) in
    rw s (again us gone seen)
  where
    again :
        (us : List ResultToken)
        → contains_token_id us id ≡ false
        → contains q.seen_ids id ≡ true
        → (consume id later (record q { tokens = us })).1 ≡ err result_token_already_consumed
    again us gone seen = elim (Bool-cases (contains_token_id (available_tokens us later) id)) [
      | inl a ↦ absurd (ground (arith, available_contained us later id a))
      | inr a ↦ consume_error id later (record q { tokens = us }) o a ∙ ground arith
    ]
