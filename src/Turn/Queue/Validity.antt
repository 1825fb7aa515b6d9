-- ===== src/Turn/Queue/Validity.antt =====
-- What the result queue keeps between two calls, and what `append` and `consume` do.
use buk_yutnori.Prelude.{
  ◌≤◌, ◌<◌, ◌≡◌, refl, true, false, List, [], ◌∷◌, ◌++◌, none, string_eq, length, length-append,
  contains, arith, All, All-append, inl, inr, Option-cases,
}
use buk_yutnori.Prelude.Result.{Result, ok, err}
use buk_yutnori.Domain.{Error, ResultTokenId, yut_buk, yut_eq}
use buk_yutnori.Room.Settings.{MovementOrder}
use buk_yutnori.Turn.Token.{ResultToken, IsToken}
use buk_yutnori.Turn.Queue.{
  ResultQueue, first_buk, append, available_tokens, contains_token_id, take_out, consume,
  max_result_queue_tokens,
}
use buk_yutnori.Turn.Queue.Tokens.{
  Distinct, OneBuk, Seen, not-Seen_not_contained, Distinct-append, OneBuk-append, Seen-cons,
  Removes, take_out_cases, Removes-Distinct, Removes-OneBuk, Removes-length, Removes-All,
}

pub record IsValid (q : ResultQueue) : Type 0 where
  pub bounded : length q.tokens ≤ max_result_queue_tokens
  pub distinct : Distinct q.tokens
  pub reserved : Seen q.seen_ids q.tokens
  pub one_buk : OneBuk q.tokens
  pub well_formed : All IsToken q.tokens

-- What `append` asks of a token and of the queue.
pub record Accepts (q : ResultQueue) (token : ResultToken) : Type 0 where
  pub valid : IsToken token
  pub fresh : contains q.seen_ids token.id ≡ false
  pub room : length q.tokens < max_result_queue_tokens
  pub lone : token.result ≡ yut_buk → first_buk q.tokens ≡ none

abbrev pub enqueued : ResultQueue → ResultToken → ResultQueue
enqueued q token = record { tokens = q.tokens ++ token ∷ []; seen_ids = token.id ∷ q.seen_ids }

pub append_accepted :
    (token : ResultToken) (q : ResultQueue)
    → Accepts q token
    → append token q ≡ (enqueued q token, ok tt)
unfolding append
append_accepted token q a = ground arith

-- An `append` that fails leaves the queue.
pub append_refused :
    (token : ResultToken) (q : ResultQueue) {e : Error}
    → (append token q).1 ≡ err e
    → (append token q).0 ≡ q
unfolding append
append_refused token q h = ground arith

pub append-Accepts :
    (token : ResultToken) (q : ResultQueue) → (append token q).1 ≡ ok tt → Accepts q token
unfolding append
append-Accepts token q h = ground arith

pub enqueued-IsValid :
    (q : ResultQueue) (token : ResultToken)
    → IsValid q
    → Accepts q token
    → IsValid (enqueued q token)
enqueued-IsValid q token v a = record {
  bounded = omega (arith, length-append q.tokens (token ∷ []), a.room);
  distinct =
      Distinct-append q.tokens token v.distinct
        (not-Seen_not_contained q.seen_ids token.id q.tokens v.reserved a.fresh);
  reserved =
      All-append _ q.tokens (token ∷ []) (Seen-cons token.id q.seen_ids q.tokens v.reserved)
        (ground arith);
  one_buk = OneBuk-append q.tokens token v.one_buk a.lone;
  well_formed = All-append _ q.tokens (token ∷ []) v.well_formed (a.valid, tt);
}

-- Every call of `append`, accepted or refused, keeps the queue valid.
pub append-IsValid :
    (token : ResultToken) (q : ResultQueue) → IsValid q → IsValid (append token q).0
append-IsValid token q v = go (append token q).1 refl
  where
    go : (r : Result Error (Unit {0})) → (append token q).1 ≡ r → IsValid (append token q).0
    go (ok tt) e =
        let a = append-Accepts token q e in
        rw (append_accepted token q a) (enqueued-IsValid q token v a)
    go (err x) e = rw (append_refused token q e) v

-- Taking a token out keeps the queue valid.
pub removed-IsValid :
    (q : ResultQueue) {t : ResultToken} {us : List ResultToken}
    → IsValid q
    → Removes t q.tokens us
    → IsValid (record q { tokens = us })
removed-IsValid q {t} {us} v r = record {
  bounded = omega (arith, Removes-length r, v.bounded);
  distinct = (Removes-Distinct r v.distinct).0;
  reserved = (Removes-All (λ u. contains q.seen_ids u.id ≡ true) r v.reserved).1;
  one_buk = Removes-OneBuk r v.one_buk;
  well_formed = (Removes-All IsToken r v.well_formed).1;
}

-- A `consume` that fails leaves the queue.
pub consume_refused :
    (id : ResultTokenId) (order : MovementOrder) (q : ResultQueue) {e : Error}
    → (consume id order q).1 ≡ err e
    → (consume id order q).0 ≡ q
unfolding consume
consume_refused id order q h = elim (Option-cases (take_out id q.tokens)) [
  | inl e ↦ ground arith
  | inr ((t, us), e) ↦ ground arith
]

-- A `consume` that succeeds returns an available token and takes it out.
pub consume_taken :
    (id : ResultTokenId) (order : MovementOrder) (q : ResultQueue) {t : ResultToken}
    → (consume id order q).1 ≡ ok t
    → (us : List ResultToken) × ((consume id order q).0 ≡ record q { tokens = us })
      × (t.id ≡ id)
      × Removes t q.tokens us
      × (contains_token_id (available_tokens q.tokens order) id ≡ true)
unfolding consume
consume_taken id order q {t} h = elim (take_out_cases id q.tokens) [
  | inl (e, c) ↦ absurd (ground arith)
  | inr (u, us, e, i, r) ↦
      let same : u ≡ t = ground arith in
      (us, ground arith, ground arith, rw (← same) r, ground arith)
]

-- Every call of `consume`, accepted or refused, keeps the queue valid.
pub consume-IsValid :
    (id : ResultTokenId) (order : MovementOrder) (q : ResultQueue)
    → IsValid q
    → IsValid (consume id order q).0
consume-IsValid id order q v = go (consume id order q).1 refl
  where
    go :
        (r : Result Error ResultToken) → (consume id order q).1 ≡ r → IsValid (consume id order q).0
    go (ok t) e = let (us, s, _, r, _) = consume_taken id order q e in rw s (removed-IsValid q v r)
    go (err x) e = rw (consume_refused id order q e) v
