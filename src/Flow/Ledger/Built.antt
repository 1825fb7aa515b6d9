-- ===== src/Flow/Ledger/Built.antt =====
-- What the builders of the events of a flush leave when they all succeed.
use Prim.Native.Nat.{◌%◌}
use buk_yutnori.Prelude.{
  ℕ, ◌+◌, Bool-cases, inl, inr, ◌≡◌, ◌≢◌, ◌≤◌, ap, sym, ◌∙◌, arith, List, [], ◌∷◌, length, String,
  ◌==◌, nat_eq,
}
use buk_yutnori.Prelude.Result.{ok, >>=-eq-ok}
use buk_yutnori.Domain.{validate_id}
use buk_yutnori.Flow.Sequences.{max_uint64}
use buk_yutnori.Flow.Events.{Event, room_updated}
use buk_yutnori.Flow.Builders.{
  checked, validate_room_event_scope, validate_match_event_scope, validate_scope, build, build_all,
}
use buk_yutnori.Flow.Ledger.{numbered}

room_scope-positive :
    (room : String) (sequence : ℕ) → validate_room_event_scope room sequence ≡ ok tt → sequence ≢ 0
unfolding validate_room_event_scope
room_scope-positive room sequence h z =
    let (_, _, h1) = >>=-eq-ok (checked (validate_id room)) _ h in ground arith

match_scope-positive :
    (room match_id : String) (sequence : ℕ)
    → validate_match_event_scope room match_id sequence ≡ ok tt
    → sequence ≢ 0
unfolding validate_match_event_scope
match_scope-positive room match_id sequence h z =
    let (_, _, h1) = >>=-eq-ok (checked (validate_id room)) _ h in
    let (_, _, h2) = >>=-eq-ok (checked (validate_id match_id)) _ h1 in ground arith

scope-positive :
    (room match_id : String) (sequence : ℕ) (event : Event)
    → validate_scope room match_id sequence event ≡ ok tt
    → sequence ≢ 0
scope-positive room match_id sequence (room_updated status) h = room_scope-positive room sequence h
scope-positive room match_id sequence _ h = match_scope-positive room match_id sequence h

build-positive :
    (room match_id : String) (sequence : ℕ) (event : Event)
    → build room match_id sequence event ≡ ok tt
    → sequence ≢ 0
unfolding build
build-positive room match_id sequence event h =
    let (tt, s, _) = >>=-eq-ok (validate_scope room match_id sequence event) _ h in
    scope-positive room match_id sequence event s

-- One built event: its sequence does not wrap.
next_sequence :
    (b : ℕ) → b ≤ max_uint64 → (b + 1) % 18_446_744_073_709_551_616 ≢ 0 → b + 1 ≤ max_uint64
next_sequence b m n = elim (Bool-cases (b == max_uint64)) [
  | inl e ↦
      let last : b ≡ max_uint64 = ground arith in
      absurd (n (ap (λ c. (c + 1) % 18_446_744_073_709_551_616) last))
  | inr e ↦ let before : b ≢ max_uint64 = ground arith in omega arith
]

-- The rows are the events, numbered after the boundary, and the room has a sequence for each.
pub record Built (b : ℕ) (events : List Event) (rows : List (ℕ × Event)) : Type 0 where
  pub rows_numbered : rows ≡ numbered b events
  pub within : b + length events ≤ max_uint64

-- When the boundary is a number of 64 bits and all the builders of a flush make their messages,
-- the rows are the events with the sequences after the boundary, and the last of these is a number
-- of 64 bits too.
pub build_all-Built :
    (room match_id : String) (b : ℕ) (events : List Event) {rows : List (ℕ × Event)}
    → b ≤ max_uint64
    → build_all room match_id b events ≡ ok rows
    → Built b events rows
unfolding build_all numbered
build_all-Built room match_id b [] m h = record {
  rows_numbered = ground arith;
  within = omega arith;
}
build_all-Built room match_id b (e ∷ es) {rows = rows} m h =
    let sequence = (b + 1) % 18_446_744_073_709_551_616 in
    let (tt, made, h1) = >>=-eq-ok (build room match_id sequence e) _ h in
    let (rest, all, h2) = >>=-eq-ok (build_all room match_id (b + 1) es) _ h1 in
    let next = next_sequence b m (build-positive room match_id sequence e made) in
    let k = build_all-Built room match_id (b + 1) es next all in
    let all_rows : (sequence, e) ∷ rest ≡ rows = ground arith in
    record {
      rows_numbered = sym all_rows ∙ ap (◌∷◌ (sequence, e)) k.rows_numbered;
      within = let w = k.within in omega arith;
    }
