-- ===== src/Flow/Sequences.antt =====
-- internal/application/room_event_sequences.go. The map is a function, zero for a missing key, and
-- the mutex is left out: each method is one step.
use buk_yutnori.Prelude.{ℕ, ◌+◌, not, String, ◌==◌, string_eq, nat_eq, if◌then◌else◌, ltb}
use buk_yutnori.Prelude.Result.{ok, err}
use buk_yutnori.Prelude.Exec.{Exec, ◌>>=◌, ◌>>◌, pure, reads, modify, guard}
use buk_yutnori.Domain.{
  Error, invalid_room_event_sequence, room_event_sequence_exhausted, validate_id,
}

-- `math.MaxUint64`
abbrev pub max_uint64 : ℕ
max_uint64 = 18_446_744_073_709_551_615

pub record RoomEventSequences : Type 0 where
  pub values : String → ℕ

abbrev pub new_sequences : RoomEventSequences
new_sequences = record { values = λ room. 0 }

-- `sequences.values[roomID] = value`
abbrev pub set_value : String → ℕ → RoomEventSequences → RoomEventSequences
set_value room value sequences = record {
  values = λ other. if other == room then value else sequences.values other;
}

abbrev pub known_room : {S : Type 0} → String → Exec Error S (Unit {0})
known_room room s = elim (validate_id room) [
  | ok _ ↦ (s, ok tt)
  | err _ ↦ (s, err invalid_room_event_sequence)
]

unfoldable pub commit_next : String → Exec Error RoomEventSequences ℕ
commit_next room = do
  known_room room
  current ← reads (λ sequences. sequences.values room)
  guard (not (current == max_uint64)) room_event_sequence_exhausted
  modify (set_value room (current + 1))
  pure (current + 1)

unfoldable pub boundary : String → Exec Error RoomEventSequences ℕ
boundary room = do known_room room; reads (λ sequences. sequences.values room)

unfoldable pub restore_boundary : String → ℕ → Exec Error RoomEventSequences (Unit {0})
restore_boundary room value = do
  known_room room
  current ← reads (λ sequences. sequences.values room)
  guard (not (ltb value current)) invalid_room_event_sequence
  modify (set_value room value)

unfoldable pub forget_closed_room : String → Exec Error RoomEventSequences (Unit {0})
forget_closed_room room sequences = elim (validate_id room) [
  | ok _ ↦ (set_value room 0 sequences, ok tt)
  | err _ ↦ (sequences, ok tt)
]
