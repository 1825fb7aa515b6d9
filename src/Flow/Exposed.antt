-- ===== src/Flow/Exposed.antt =====
-- The tokens that the flow exposes to players are those that the queue gives out.
use buk_yutnori.Prelude.{
  ◌≡◌, refl, List, [], ◌∷◌, Option, none, some, ◌==◌, inl, inr, Bool-cases, Option-cases, ◌∙◌,
}
use buk_yutnori.Domain.{yut_buk, yut_eq}
use buk_yutnori.Room.Settings.{MovementOrder, movement_fifo, movement_free, movement_other}
use buk_yutnori.Turn.Token.{ResultToken}
use buk_yutnori.Turn.Queue.{first_buk, available_tokens}
use buk_yutnori.Flow.Candidates.{buk_or, available_tokens_for}

first_or : List ResultToken → Option ResultToken → List ResultToken
first_or whole none = whole
first_or whole (some buk) = buk ∷ []

buk_or-first_buk :
    (whole tokens : List ResultToken) → buk_or whole tokens ≡ first_or whole (first_buk tokens)
unfolding first_buk first_or
buk_or-first_buk whole [] = refl
buk_or-first_buk whole (token ∷ tokens) =
    let rest = buk_or-first_buk whole tokens in
    elim (Bool-cases (token.result == yut_buk)) [ inl e ↦ rw e refl | inr e ↦ rw e rest ]

in_any_order :
    (ts : List ResultToken) → buk_or ts ts ≡ elim (first_buk ts) [ some buk ↦ buk ∷ [] | none ↦ ts ]
unfolding first_or
in_any_order ts =
    let found = buk_or-first_buk ts ts in
    elim (Option-cases (first_buk ts)) [
      | inl e ↦ found ∙ rw e refl
      | inr (b, e) ↦ found ∙ rw e refl
    ]

-- The tokens that the flow computes from a snapshot, the first Buk alone, or else the first token
-- in FIFO order and all in any order, are those that the queue gives out, for every queue and every
-- order.
pub available_tokens_for-eq :
    (order : MovementOrder) (tokens : List ResultToken)
    → available_tokens_for order tokens ≡ available_tokens tokens order
unfolding available_tokens_for available_tokens first_or
available_tokens_for-eq movement_fifo [] = unfold first_buk in refl
available_tokens_for-eq movement_fifo (t ∷ ts) =
    let found = buk_or-first_buk (t ∷ []) (t ∷ ts) in
    elim (Option-cases (first_buk (t ∷ ts))) [
      | inl e ↦ found ∙ rw (available_tokens, e) refl
      | inr (b, e) ↦ found ∙ rw (available_tokens, e) refl
    ]
available_tokens_for-eq movement_free ts = in_any_order ts
available_tokens_for-eq movement_other ts = in_any_order ts
