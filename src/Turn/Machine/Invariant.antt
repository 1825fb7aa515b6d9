-- ===== src/Turn/Machine/Invariant.antt =====
-- What holds of a turn between two calls: which input it waits for, which throw it expects, and
-- that the token it has selected can be consumed.
use buk_yutnori.Prelude.{
  sym, ◌∙◌, ap, subst, ◌<◌, ◌≡◌, refl, Bool, true, false, List, ◌∷◌, arith, string_eq, length, ◌≢◌,
}
use buk_yutnori.Prelude.Result.{Result, ok}
use buk_yutnori.Domain.{
  Error, ResultTokenId, TurnPhase, RequiredInput, ResultOrigin, yut_buk, turn_start,
  turn_wait_throw, turn_throwing_chain, turn_wait_move_selection, turn_wait_route_selection,
  turn_apply_move, turn_resolve_stack_capture_finish, turn_resolve_buk, input_none, input_throw,
  input_select_move, input_select_route, origin_yut_extra, origin_mo_extra, origin_other,
}
use buk_yutnori.Room.Settings.{movement_other}
use buk_yutnori.Turn.Token.{ResultToken}
use buk_yutnori.Turn.Queue
use buk_yutnori.Turn.Queue.{ResultQueue, first_buk, available_tokens, max_result_queue_tokens}
use buk_yutnori.Turn.Queue.Validity.{
  IsValid, enqueued-IsValid, consume-IsValid, consume_taken, enqueued,
}
use buk_yutnori.Turn.Queue.Tokens.{Removes-length}
use buk_yutnori.Turn.Machine.Steps.{
  resolving, resolved, with_queue, gives_out, Recordable, recorded, waiting_throw, Fills, Takes,
  Step, begin_turn, throwing, queue_full, stays_capped, yut_extra, mo_extra, last_throw, drained,
  buk_next, move_next, ask_route, select, route, apply_move, discard, complete_move_step,
  no_candidate, complete_buk_step,
}
use buk_yutnori.Turn.Machine.{Machine, Call, offers}

abbrev input_for : TurnPhase → RequiredInput
input_for turn_wait_throw = input_throw
input_for turn_wait_move_selection = input_select_move
input_for turn_wait_route_selection = input_select_route
input_for _ = input_none

abbrev NoThrow : Machine → Type 0
NoThrow m = m.expected_origin ≡ origin_other

-- What each phase says of the throw expected and of the token selected: a throw is expected only
-- while throws are not capped, and a selected token is one that the queue gives out.
abbrev pub InPhase : TurnPhase → Machine → Type 0
InPhase turn_start m = NoThrow m × (m.throwing_capped ≡ false) × (m.selected_id ≡ "")
InPhase turn_wait_throw m =
    (m.expected_origin ≢ origin_other) × (m.throwing_capped ≡ false) × (m.selected_id ≡ "")
InPhase turn_throwing_chain m =
    (m.expected_origin ≢ origin_other) × (m.throwing_capped ≡ false) × (m.selected_id ≡ "")
InPhase turn_wait_move_selection m =
    NoThrow m
    × (m.selected_id ≡ "")
    × (t : ResultToken) × (ts : List ResultToken) × (gives_out m ≡ t ∷ ts)
    × (t.result ≢ yut_buk)
InPhase turn_wait_route_selection m = NoThrow m × (offers (gives_out m) m.selected_id ≡ true)
InPhase turn_apply_move m = NoThrow m × (offers (gives_out m) m.selected_id ≡ true)
InPhase turn_resolve_stack_capture_finish m =
    NoThrow m × (offers (gives_out m) m.selected_id ≡ true)
InPhase turn_resolve_buk m =
    NoThrow m
    × (b : ResultToken) × (ts : List ResultToken) × (gives_out m ≡ b ∷ ts)
    × (b.result ≡ yut_buk)
    × (b.id ≡ m.selected_id)
InPhase _ m = NoThrow m × (m.selected_id ≡ "")

pub record Inv (m : Machine) : Type 0 where
  pub queue_valid : IsValid m.queue
  pub known_order : m.movement_order ≢ movement_other
  pub input : m.required_input ≡ input_for m.phase
  pub capped_when_full : m.throwing_capped ≡ false → length m.queue.tokens < max_result_queue_tokens
  pub phase : InPhase m.phase m

module _ {m : Machine} (v : Inv m) where
  pub in_phase : {p : TurnPhase} → m.phase ≡ p → InPhase p m
  in_phase e = subst (λ p. InPhase p m) e v.phase

  Takes-IsValid : {id : ResultTokenId} {q : ResultQueue} → Takes m id q → IsValid q
  Takes-IsValid {id} {q} k =
      subst IsValid (ap (λ (p : ResultQueue × Result Error ResultToken). p.0) k.taken)
        (consume-IsValid id m.movement_order m.queue v.queue_valid)

  recorded-IsValid : {t : ResultToken} → Recordable m t → IsValid (enqueued m.queue t)
  recorded-IsValid {t} r = enqueued-IsValid m.queue t v.queue_valid r.accepted

  Takes-room :
      {id : ResultTokenId} {q : ResultQueue}
      → Takes m id q
      → m.throwing_capped ≡ false
      → length q.tokens < max_result_queue_tokens
  Takes-room {id} {q} k c =
      let consumed : (Queue.consume id m.movement_order m.queue).1 ≡ ok k.token =
        ap (λ (p : ResultQueue × Result Error ResultToken). p.1) k.taken in
      let (us, s, _, r, _) = consume_taken id m.movement_order m.queue consumed in
      let left : q ≡ record m.queue { tokens = us } =
        sym (ap (λ (p : ResultQueue × Result Error ResultToken). p.0) k.taken) ∙ s in
      let shorter = ap (λ (p : ResultQueue). length p.tokens) left in
      omega (arith, Removes-length r, v.capped_when_full c, shorter)

  record_throw-Inv :
      {t : ResultToken} → Recordable m t → ¬ Fills m t → Inv (resolving (recorded m t))
  record_throw-Inv r f = record {
    queue_valid = recorded-IsValid r;
    known_order = v.known_order;
    input = refl;
    capped_when_full = λ c. omega arith;
    phase = (refl, refl);
  }

  throw_again-Inv :
      {t : ResultToken} (o : ResultOrigin)
      → Recordable m t
      → ¬ Fills m t
      → m.throwing_capped ≡ false
      → o ≢ origin_other
      → Inv (waiting_throw (recorded m t) o)
  throw_again-Inv o r f c n = record {
    queue_valid = recorded-IsValid r;
    known_order = v.known_order;
    input = refl;
    capped_when_full = λ c. omega arith;
    phase = (n, c, refl);
  }

  consumed-Inv :
      {id : ResultTokenId} {q : ResultQueue} → Takes m id q → Inv (resolving (with_queue m q))
  consumed-Inv k = record {
    queue_valid = Takes-IsValid k;
    known_order = v.known_order;
    input = refl;
    capped_when_full = Takes-room k;
    phase = (refl, refl);
  }

  resolved-Inv :
      {id : ResultTokenId} {q : ResultQueue} (extra ended : Bool)
      → Takes m id q
      → Inv (resolved (with_queue m q) extra ended)
  resolved-Inv extra ended k = let i = consumed-Inv k in ground arith

-- Every step of the relation keeps the invariant.
pub Step-Inv : {m m' : Machine} {c : Call} → Inv m → Step m c m' → Inv m'
Step-Inv v (begin_turn p) = let i = in_phase v p in ground arith
Step-Inv v (throwing p) = let i = in_phase v p in ground arith
Step-Inv v (queue_full r f) = let q = recorded-IsValid v r in ground arith
Step-Inv v (stays_capped r f k) = record_throw-Inv v r f
Step-Inv v (yut_extra r f k y e) = throw_again-Inv v origin_yut_extra r f k (λ x. cc)
Step-Inv v (mo_extra r f k y e) = throw_again-Inv v origin_mo_extra r f k (λ x. cc)
Step-Inv v (last_throw r f n) = record_throw-Inv v r f
Step-Inv v (drained p o g) = let i = in_phase v p in ground arith
Step-Inv v (buk_next {b = b} {ts = ts} p o g e) = record {
  queue_valid = v.queue_valid;
  known_order = o;
  input = refl;
  capped_when_full = v.capped_when_full;
  phase = (refl, b, ts, g, e, refl);
}
Step-Inv v (move_next {t = t} {ts = ts} p o g e) = record {
  queue_valid = v.queue_valid;
  known_order = o;
  input = refl;
  capped_when_full = v.capped_when_full;
  phase = (refl, refl, t, ts, g, e);
}
Step-Inv v (ask_route p o g) = let i = in_phase v p in ground arith
Step-Inv v (select p o g) = let i = in_phase v p in ground arith
Step-Inv v (route p e) = let i = in_phase v p in ground arith
Step-Inv v (apply_move p e) = let i = in_phase v p in ground arith
Step-Inv v (discard p n o k) = consumed-Inv v k
Step-Inv v (complete_move_step {o = o} p e w k) =
    resolved-Inv v o.capture_extra_throw o.match_ended k
Step-Inv v (no_candidate p e w k n) = let i = consumed-Inv v k in ground arith
Step-Inv v (complete_buk_step {o = o} p e w k n) =
    resolved-Inv v o.capture_extra_throw o.match_ended k
