-- ===== src/Flow/Flush.antt =====
-- internal/application/event_tx.go, and the operational pause of match_runtime.go that a failed
-- append begins. The messages' encoding is left out: a row is a sequence and its event, and the rows
-- stand for the messages too. The room of the match is registered, and the timer of the retries is
-- left out.
use buk_yutnori.Prelude.{
  ℕ, Bool, not, ◌&&◌, Option, none, some, ◌+◌, true, false, List, [], ◌∷◌, ◌++◌, if◌then◌else◌,
  length,
}
use buk_yutnori.Prelude.Result.{ok, err}
use buk_yutnori.Prelude.Exec.{Exec, ◌>>=◌, ◌>>◌, pure, lift, reads, modify}
use buk_yutnori.Domain.{Error, event_store_unavailable}
use buk_yutnori.Flow.Builders.{build_all}
use buk_yutnori.Flow.Sequences
use buk_yutnori.Flow.Sequences.{RoomEventSequences, commit_next}
use buk_yutnori.Flow.Events.{Event, game_paused, reason_storage_failure}
use buk_yutnori.Flow.Runtime.{
  MatchResult, Store, no_store, store_appends, store_fails, Runtime, Method, timer_none, TimerKind,
  cancel_timer, remaining_ms,
}

abbrev pub on_sequences : {A : Type 0} → Exec Error RoomEventSequences A → Method A
on_sequences call rt = ((record rt { sequences = (call rt.sequences).0 }), (call rt.sequences).1)

abbrev pub built : ℕ → List Event → Method (List (ℕ × Event))
built boundary events rt = lift (build_all rt.room_id rt.match_id boundary events) rt

-- `for range messages`: one sequence is consumed for each.
unfoldable pub commit_each : List (ℕ × Event) → Method (Unit {0})
commit_each [] = pure tt
commit_each (row ∷ rows) = do
  room ← reads (λ rt. rt.room_id)
  sequence ← on_sequences (commit_next room)
  commit_each rows

abbrev pub publish : List (ℕ × Event) → Method (Unit {0})
publish rows = modify (λ rt. record rt { published = rt.published ++ rows })

-- The room lets the match go. Its confirmation is not part of the state.
unfoldable pub detach_finished_match : Method (Unit {0})
detach_finished_match = modify (λ rt. record rt { started = false })

-- `rt.preservedTimerKind == "" && rt.timerKind != ""`
abbrev pub preserved : Runtime → TimerKind → TimerKind → Runtime
preserved rt timer_none timer_none = rt
preserved rt timer_none kind = record rt {
  preserved_timer_kind = kind;
  preserved_remaining = remaining_ms rt;
}
preserved rt _ kind = rt

abbrev pub preserve_window : Method (Unit {0})
preserve_window = modify (λ rt. preserved rt rt.preserved_timer_kind rt.timer_kind)

-- The turn's window is held, and the pause is announced behind the rows that wait.
abbrev pub hold_window : ℕ → Method (Unit {0})
hold_window waiting = do
  preserve_window
  cancel_timer
  room ← reads (λ rt. rt.room_id)
  boundary ← on_sequences (Sequences.boundary room)
  remaining ← reads (λ rt. rt.preserved_remaining)
  marker ← built (boundary + waiting) (game_paused reason_storage_failure remaining ∷ [])
  modify (λ rt. record rt { pending_events = rt.pending_events ++ marker })

unfoldable pub enter_storage_pause : List (ℕ × Event) → Method (Unit {0})
enter_storage_pause rows = do
  modify (λ rt. record rt {
    storage_paused = true;
    retry_attempt = 0;
    pending_events = rows;
    pending_result = rt.tx.match_result;
    finish_after_save = rt.tx.finish_match;
  })
  finish ← reads (λ rt. rt.finish_after_save)
  (if finish then pure tt else hold_window (length rows))

unfoldable pub commit_and_publish : List (ℕ × Event) → Method (Unit {0})
commit_and_publish rows = do
  commit_each rows
  publish rows
  finish ← reads (λ rt. rt.tx.finish_match)
  (if finish then detach_finished_match else pure tt)

-- A match that runs keeps the rows for the retries of the operational pause; a room whose match does
-- not run is closed to what follows.
abbrev pub append_failed : List (ℕ × Event) → Method (Unit {0})
append_failed rows rt =
    if rt.started then enter_storage_pause rows rt else (record rt { poisoned = true }, ok tt)

abbrev pub has_result : Option MatchResult → Bool
has_result none = false
has_result (some _) = true

-- `registry.store.(storage.MatchResultStore)` is asked for only when there is a result to save.
abbrev pub append_to : Store → List (ℕ × Event) → Method (Unit {0})
append_to no_store rows rt = commit_and_publish rows rt
append_to store_appends rows rt =
    if has_result rt.tx.match_result && not rt.saves_results
    then (rt, err event_store_unavailable)
    else commit_and_publish rows rt
append_to store_fails rows rt =
    if has_result rt.tx.match_result && not rt.saves_results
    then (rt, err event_store_unavailable)
    else ((append_failed rows rt).0, err event_store_unavailable)

unfoldable pub flush_rows : List (ℕ × Event) → Method (Unit {0})
flush_rows rows rt = append_to rt.store rows rt

abbrev pub flush_of : List Event → Method (Unit {0})
flush_of [] rt = (rt, ok tt)
flush_of (event ∷ events) rt =
    (on_sequences (Sequences.boundary rt.room_id) >>= λ boundary.
    built boundary (event ∷ events) >>= flush_rows)
      rt

unfoldable pub flush : Method (Unit {0})
flush rt = flush_of rt.tx.events rt
