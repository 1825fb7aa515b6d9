-- ===== src/Flow/Ledger/Paused.antt =====
-- The operational pause that a failed append begins publishes nothing and commits no sequence.
use buk_yutnori.Prelude.{
  Bool, true, false, if◌then◌else◌, ◌≡◌, refl, ap, ◌∙◌, List, ℕ, String, ◌⊎◌, inl, inr,
}
use buk_yutnori.Prelude.Result.{Result, ok, err, Result-cases}
use buk_yutnori.Prelude.Exec.{modify}
use buk_yutnori.Prelude.Exec.Keeps.{
  Sustains, >>=-Sustains, if-Sustains, pure-Sustains, reads-Sustains,
}
use buk_yutnori.Domain.{Error, validate_id, invalid_room_event_sequence}
use buk_yutnori.Flow.Sequences
use buk_yutnori.Flow.Sequences.{RoomEventSequences, known_room}
use buk_yutnori.Flow.Events.{Event}
use buk_yutnori.Flow.Runtime.{
  Runtime, Method, timer_none, timer_throw, timer_move, TimerKind, cancel_timer,
}
use buk_yutnori.Flow.Flush.{
  on_sequences, enter_storage_pause, hold_window, preserve_window, preserved, built, append_failed,
}

-- The rows published, the sequences and the room are what they were.
abbrev pub Untouched : Runtime → Runtime → Type 0
Untouched rt t =
    (t.published ≡ rt.published) × (t.sequences ≡ rt.sequences) × (t.room_id ≡ rt.room_id)

pub boundary_cases :
    (room : String) (s : RoomEventSequences)
    → ((u : Unit {0}) × (validate_id room ≡ ok u)
        × (Sequences.boundary room s ≡ (s, ok (s.values room))))
      ⊎ ((x : Error) × (y : Error) × (validate_id room ≡ err x)
          × (Sequences.boundary room s ≡ (s, err y)))
unfolding Sequences.boundary
boundary_cases room s = elim (Result-cases (validate_id room)) [
  | inl (u, i) ↦ inl (u, i, rw (known_room, i) refl)
  | inr (x, i) ↦ inr (x, invalid_room_event_sequence, i, rw (known_room, i) refl)
]

module _ (rt : Runtime) where
  boundary-Untouched :
      (room : String) → Sustains (Untouched rt) (on_sequences (Sequences.boundary room))
  boundary-Untouched room = record {
    sustains = λ s p.
        let same : (Sequences.boundary room s.sequences).0 ≡ s.sequences =
          elim (boundary_cases room s.sequences) [
            | inl (u, i, q) ↦ ap (λ (r : RoomEventSequences × Result Error ℕ). r.0) q
            | inr (x, y, i, q) ↦ ap (λ (r : RoomEventSequences × Result Error ℕ). r.0) q
          ] in
        (p.0, same ∙ p.1, p.2);
  }

  built-Untouched :
      (boundary : ℕ) (events : List Event) → Sustains (Untouched rt) (built boundary events)
  built-Untouched boundary events = record { sustains = λ s p. p }

  preserve_window-Untouched : Sustains (Untouched rt) preserve_window
  preserve_window-Untouched = record {
    sustains = λ s p. held s p s.preserved_timer_kind s.timer_kind;
  }
    where
      held : (s : Runtime) → Untouched rt s → (p k : TimerKind) → Untouched rt (preserved s p k)
      held s u timer_none timer_none = u
      held s u timer_none timer_throw = u
      held s u timer_none timer_move = u
      held s u timer_throw k = u
      held s u timer_move k = u

  cancel_timer-Untouched : Sustains (Untouched rt) cancel_timer
  unfolding cancel_timer
  cancel_timer-Untouched = record { sustains = λ s p. p }

  modify-Untouched :
      (f : Runtime → Runtime)
      → ((s : Runtime) → Untouched rt s → Untouched rt (f s))
      → Sustains {E = Error} (Untouched rt) (modify f)
  modify-Untouched f h = record { sustains = h }

  abbrev Holds : {A : Type 0} → Method A → Type 0
  Holds = Sustains (Untouched rt)

  hold_window-Untouched : (waiting : ℕ) → Holds (hold_window waiting)
  hold_window-Untouched waiting =
      search
        (
          >>=-Sustains (Untouched rt),
          reads-Sustains (Untouched rt),
          boundary-Untouched,
          built-Untouched,
          preserve_window-Untouched,
          cancel_timer-Untouched,
          modify-Untouched,
        )
        depth 14

  enter_storage_pause-Sustains : (rows : List (ℕ × Event)) → Holds (enter_storage_pause rows)
  unfolding enter_storage_pause
  enter_storage_pause-Sustains rows =
      search
        (
          >>=-Sustains (Untouched rt),
          reads-Sustains (Untouched rt),
          if-Sustains (Untouched rt),
          pure-Sustains (Untouched rt),
          hold_window-Untouched,
          modify-Untouched,
        )
        depth 14

pub append_failed-Untouched :
    (rows : List (ℕ × Event)) (rt : Runtime) → Untouched rt (append_failed rows rt).0
append_failed-Untouched rows rt = either rt.started
  where
    either :
        (b : Bool)
        → Untouched rt
            (if b then enter_storage_pause rows rt else (record rt { poisoned = true }, ok tt)).0
    either true = (enter_storage_pause-Sustains rt rows).sustains rt (refl, refl, refl)
    either false = (refl, refl, refl)
