-- ===== src/Flow/Ledger.antt =====
-- What has been published of a match, and the sequence that its room has reached.
pub mod Built
pub mod Paused
pub mod Flushed
pub mod Steps
pub mod Turns
pub mod Tasks
pub mod Commands
use Prim.Native.Nat.{◌%◌}
use buk_yutnori.Prelude.{
  ℕ, suc, ◌+◌, Bool-cases, ◌==◌, nat_eq, string_eq, ◌<◌, ◌≤◌, ◌≡◌, ◌≢◌, refl, sym, ap, subst, ◌∙◌,
  true, false, List, [], ◌∷◌, ◌++◌, map, length, length-append, ◌⊎◌, inl, inr, arith, String,
}
use buk_yutnori.Prelude.Result.{Result, ok, err, Result-cases}
use buk_yutnori.Prelude.Exec.{◌>>=◌, ◌>>◌, reads}
use buk_yutnori.Prelude.Exec.Atomic.{bind_to, bind_fail}
use buk_yutnori.Domain.{
  Error, validate_id, invalid_room_event_sequence, room_event_sequence_exhausted,
}
use buk_yutnori.Flow.Sequences
use buk_yutnori.Flow.Sequences.{RoomEventSequences, commit_next, known_room, set_value, max_uint64}
use buk_yutnori.Flow.Events.{Event}
use buk_yutnori.Flow.Runtime.{Runtime}
use buk_yutnori.Flow.Flush.{commit_each, on_sequences}

-- Events with the sequences after the boundary, in 64 bits.
unfoldable pub numbered : ℕ → List Event → List (ℕ × Event)
numbered boundary [] = []
numbered boundary (event ∷ events) =
    ((boundary + 1) % 18_446_744_073_709_551_616, event) ∷ numbered (boundary + 1) events

abbrev pub events_of : List (ℕ × Event) → List Event
events_of = map (λ row. row.1)

-- The rows published bear the numbers from 1 on, in 64 bits and without a gap, and the sequence of
-- the room, a number of 64 bits, is the last of them.
pub record Kept (rows : List (ℕ × Event)) (sequences : RoomEventSequences) (room : String)
    : Type 0 where
  pub in_order : rows ≡ numbered 0 (events_of rows)
  pub counted : length rows ≡ sequences.values room
  pub bounded : sequences.values room ≤ max_uint64

abbrev pub Ledger : Runtime → Type 0
Ledger rt = Kept rt.published rt.sequences rt.room_id

pub events_of-numbered : (b : ℕ) (events : List Event) → events_of (numbered b events) ≡ events
unfolding numbered
events_of-numbered b [] = refl
events_of-numbered b (e ∷ es) = rw (events_of-numbered (b + 1) es) refl

pub length-numbered : (b : ℕ) (events : List Event) → length (numbered b events) ≡ length events
unfolding numbered
length-numbered b [] = refl
length-numbered b (e ∷ es) = rw (length-numbered (b + 1) es) refl

pub numbered-append :
    (b : ℕ) (xs ys : List Event)
    → numbered b (xs ++ ys) ≡ numbered b xs ++ numbered (b + length xs) ys
unfolding numbered
numbered-append b [] ys = ap (λ c. numbered c ys) (omega arith)
numbered-append b (x ∷ xs) ys =
    let shift : b + 1 + length xs ≡ b + suc (length xs) = omega arith in
    rw (numbered-append (b + 1) xs ys, shift) refl

set_value_there :
    (room : String) (v : ℕ) (s : RoomEventSequences) → (set_value room v s).values room ≡ v
set_value_there room v s = ground arith

-- The three ways of a commit.
pub data Committing (room : String) (s : RoomEventSequences) : Type 0 where
  no_room :
      (x : Error)
      → validate_id room ≡ err x
      → (e : Error) → commit_next room s ≡ (s, err e)
      → Committing room s
  exhausted :
      s.values room ≡ max_uint64 → (e : Error) → commit_next room s ≡ (s, err e) → Committing room s
  advanced :
      {u : Unit {0}}
      → validate_id room ≡ ok u
      → commit_next room s ≡ (set_value room (s.values room + 1) s, ok (s.values room + 1))
      → Committing room s

commit_next_cases : (room : String) (s : RoomEventSequences) → Committing room s
unfolding commit_next
commit_next_cases room s = elim (Result-cases (validate_id room)) [
  | inr (x, e) ↦ no_room x e invalid_room_event_sequence (rw (known_room, e) refl)
  | inl (u, e) ↦ elim (Bool-cases (s.values room == max_uint64)) [
    | inl m ↦
        exhausted (ground arith) room_event_sequence_exhausted (rw (known_room, e) (rw m refl))
    | inr m ↦ advanced e (rw (known_room, e) (rw m refl))
  ]
]

-- What the commits of a batch leave: nothing is published, and the sequence of the room goes on by
-- their number, or a commit fails because the room is unknown or has not so many sequences left.
pub record Committed (rows : List (ℕ × Event)) (rt : Runtime)
    (r : Runtime × Result Error (Unit {0})) : Type 0 where
  pub same_rows : r.0.published ≡ rt.published
  pub same_room : r.0.room_id ≡ rt.room_id
  pub counts :
      ((r.1 ≡ ok tt)
        × (r.0.sequences.values rt.room_id ≡ rt.sequences.values rt.room_id + length rows))
      ⊎ (((x : Error) × (validate_id rt.room_id ≡ err x))
          ⊎ (max_uint64 < rt.sequences.values rt.room_id + length rows))

refused-Committed :
    (rows : List (ℕ × Event)) (rt : Runtime) (e : Error)
    → ((x : Error) × (validate_id rt.room_id ≡ err x))
      ⊎ (max_uint64 < rt.sequences.values rt.room_id + length rows)
    → Committed rows rt (rt, err e)
refused-Committed rows rt e w = record { same_rows = refl; same_room = refl; counts = inr w }

advanced-Committed :
    (row : ℕ × Event) (rows : List (ℕ × Event)) (rt : Runtime)
    {r : Runtime × Result Error (Unit {0})}
    → Committed rows
        (record rt {
          sequences = set_value rt.room_id (rt.sequences.values rt.room_id + 1) rt.sequences;
        })
        r
    → Committed (row ∷ rows) rt r
advanced-Committed row rows rt {r = r} c =
    let v = rt.sequences.values rt.room_id in
    let there = set_value_there rt.room_id (v + 1) rt.sequences in
    record {
      same_rows = c.same_rows;
      same_room = c.same_room;
      counts = elim c.counts [
        | inl (o, n) ↦ inl (o, n ∙ (ap (λ k. k + length rows) there ∙ (omega arith)))
        | inr (inl i) ↦ inr (inl i)
        | inr (inr m) ↦
            let m' = subst (λ k. max_uint64 < k + length rows) there m in inr (inr (omega arith))
      ];
    }

pub commit_each-Committed :
    (rows : List (ℕ × Event)) (rt : Runtime) → Committed rows rt (commit_each rows rt)
unfolding commit_each
commit_each-Committed [] rt = record {
  same_rows = refl;
  same_room = refl;
  counts = inl (refl, omega arith);
}
commit_each-Committed (row ∷ rows) rt =
    let first = on_sequences (commit_next rt.room_id) in
    let v = rt.sequences.values rt.room_id in
    let next : Runtime = record rt { sequences = set_value rt.room_id (v + 1) rt.sequences } in
    elim (commit_next_cases rt.room_id rt.sequences) [
      | no_room x i e k ↦
          let q : first rt ≡ (rt, err e) =
            ap (λ (p : RoomEventSequences × Result Error ℕ). (record rt { sequences = p.0 }, p.1))
              k in
          subst (Committed (row ∷ rows) rt) (sym (bind_fail first (λ _. commit_each rows) rt q))
            (refused-Committed (row ∷ rows) rt e (inl (x, i)))
      | exhausted m e k ↦
          let q : first rt ≡ (rt, err e) =
            ap (λ (p : RoomEventSequences × Result Error ℕ). (record rt { sequences = p.0 }, p.1))
              k in
          subst (Committed (row ∷ rows) rt) (sym (bind_fail first (λ _. commit_each rows) rt q))
            (refused-Committed (row ∷ rows) rt e (inr (omega arith)))
      | advanced i k ↦
          let q : first rt ≡ (next, ok (v + 1)) =
            ap (λ (p : RoomEventSequences × Result Error ℕ). (record rt { sequences = p.0 }, p.1))
              k in
          subst (Committed (row ∷ rows) rt) (sym (bind_to first (λ _. commit_each rows) rt q))
            (advanced-Committed row rows rt (commit_each-Committed rows next))
    ]

length-events_of : (rows : List (ℕ × Event)) → length (events_of rows) ≡ length rows
length-events_of [] = refl
length-events_of (row ∷ rows) = ap suc (length-events_of rows)

events_of-append :
    (rows more : List (ℕ × Event)) → events_of (rows ++ more) ≡ events_of rows ++ events_of more
events_of-append [] more = refl
events_of-append (row ∷ rows) more = ap (◌∷◌ row.1) (events_of-append rows more)

pub append-in_order :
    (rows : List (ℕ × Event)) (events : List Event) (b : ℕ)
    → rows ≡ numbered 0 (events_of rows)
    → length rows ≡ b
    → rows ++ numbered b events ≡ numbered 0 (events_of (rows ++ numbered b events))
append-in_order rows events b h n =
    let count : 0 + length (events_of rows) ≡ b = grind (arith, length-events_of rows, n) in
    ap (λ xs. xs ++ numbered b events) h
    ∙ sym (
        ap (numbered 0) (
          events_of-append rows (numbered b events)
          ∙ ap (λ xs. events_of rows ++ xs) (events_of-numbered b events))
        ∙ (numbered-append 0 (events_of rows) events
            ∙ ap (λ c. numbered 0 (events_of rows) ++ numbered c events) count))
