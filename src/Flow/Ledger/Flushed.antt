-- ===== src/Flow/Ledger/Flushed.antt =====
-- The flush of a command's events: what is published of them, on every way.
use buk_yutnori.Prelude.{
  ℕ, ◌+◌, ◌≡◌, ◌≢◌, ◌≤◌, refl, sym, ap, subst, ◌∙◌, Bool, true, false, not, ◌&&◌, List, [], ◌∷◌,
  ◌++◌, length, length-append, ◌⊎◌, inl, inr, arith, Bool-cases, if◌then◌else◌,
}
use buk_yutnori.Prelude.Result.{Result, ok, err, Result-cases}
use buk_yutnori.Prelude.Exec.{◌>>=◌, ◌>>◌, reads, pure}
use buk_yutnori.Prelude.Exec.Atomic.{bind_to, bind_fail, bind_ok, bind_err}
use buk_yutnori.Domain.{Error, validate_id, event_store_unavailable}
use buk_yutnori.Flow.Sequences
use buk_yutnori.Flow.Sequences.{RoomEventSequences, max_uint64}
use buk_yutnori.Flow.Events.{Event}
use buk_yutnori.Flow.Builders.{build_all}
use buk_yutnori.Flow.Runtime.{Store, no_store, store_appends, store_fails, Runtime, Method}
use buk_yutnori.Flow.Flush.{
  commit_each, publish, detach_finished_match, commit_and_publish, append_failed, has_result,
  append_to, built, flush_rows, flush_of, flush, on_sequences,
}
use buk_yutnori.Flow.Ledger.{
  numbered, events_of, Ledger, commit_each-Committed, append-in_order, length-numbered,
}
use buk_yutnori.Flow.Ledger.Built.{Built, build_all-Built}
use buk_yutnori.Flow.Ledger.Paused.{Untouched, boundary_cases, append_failed-Untouched}

-- Why a flush fails.
pub data Unflushed (events : List Event) (rt : Runtime) : Type 0 where
  room_unknown : (x : Error) → validate_id rt.room_id ≡ err x → Unflushed events rt
  event_refused :
      (x : Error)
      → build_all rt.room_id rt.match_id (rt.sequences.values rt.room_id) events ≡ err x
      → Unflushed events rt
  result_unsaved :
      rt.store ≢ no_store
      → has_result rt.tx.match_result ≡ true
      → rt.saves_results ≡ false
      → Unflushed events rt
  store_failed : rt.store ≡ store_fails → Unflushed events rt

-- The flush has published all the events, numbered after the sequence of the room, and consumed a
-- sequence for each, or has failed, published none and consumed none.
pub record Told (events : List Event) (rt : Runtime) (r : Runtime × Result Error (Unit {0}))
    : Type 0 where
  pub same_room : r.0.room_id ≡ rt.room_id
  pub ways :
      ((r.1 ≡ ok tt)
        × (r.0.published ≡ rt.published ++ numbered (rt.sequences.values rt.room_id) events)
        × (r.0.sequences.values rt.room_id ≡ rt.sequences.values rt.room_id + length events)
        × (r.0.sequences.values rt.room_id ≤ max_uint64))
      ⊎ ((e : Error) × (r.1 ≡ err e)
          × (r.0.published ≡ rt.published)
          × (r.0.sequences ≡ rt.sequences)
          × Unflushed events rt)

Told-Ledger :
    (events : List Event) (rt : Runtime) (r : Runtime × Result Error (Unit {0}))
    → Told events rt r
    → Ledger rt
    → Ledger r.0
Told-Ledger events rt r t k =
    let v = rt.sequences.values rt.room_id in
    let count : length (rt.published ++ numbered v events) ≡ length rt.published + length events =
      length-append rt.published (numbered v events)
      ∙ ap (λ c. length rt.published + c) (length-numbered v events) in
    let here = ap r.0.sequences.values t.same_room in
    elim t.ways [
      | inl (o, p, n, m) ↦ record {
        in_order =
            subst (λ xs. xs ≡ numbered 0 (events_of xs)) (sym p)
              (append-in_order rt.published events v k.in_order k.counted);
        counted =
            ap length p ∙ (count ∙ (ap (λ c. c + length events) k.counted ∙ (sym n ∙ sym here)));
        bounded = subst (λ c. c ≤ max_uint64) (sym here) m;
      }
      | inr (e, f, p, q, w) ↦
          let same = ap (λ c. c.values rt.room_id) q in
          record {
            in_order = subst (λ xs. xs ≡ numbered 0 (events_of xs)) (sym p) k.in_order;
            counted = ap length p ∙ (k.counted ∙ (sym same ∙ sym here));
            bounded = subst (λ c. c ≤ max_uint64) (sym (here ∙ same)) k.bounded;
          }
    ]

append_nil : (rows : List (ℕ × Event)) → rows ++ [] ≡ rows
append_nil [] = refl
append_nil (row ∷ rows) = ap (◌∷◌ row) (append_nil rows)

abbrev after_commit : List (ℕ × Event) → Method (Unit {0})
after_commit rows = do
  publish rows
  finish ← reads (λ rt. rt.tx.finish_match)
  (if finish then detach_finished_match else pure tt)

-- What is done once all is committed publishes the rows, whether the match is let go or not.
record Published (rows : List (ℕ × Event)) (rt : Runtime) (r : Runtime × Result Error (Unit {0}))
    : Type 0 where
  succeeded : r.1 ≡ ok tt
  all_rows : r.0.published ≡ rt.published ++ rows
  same_sequences : r.0.sequences ≡ rt.sequences
  same_room : r.0.room_id ≡ rt.room_id

after_commit-Published :
    (rows : List (ℕ × Event)) (rt : Runtime) → Published rows rt (after_commit rows rt)
unfolding detach_finished_match
after_commit-Published rows rt = elim (Bool-cases rt.tx.finish_match) [
  | inl b ↦
      rw b (record { succeeded = refl; all_rows = refl; same_sequences = refl; same_room = refl })
  | inr b ↦
      rw b (record { succeeded = refl; all_rows = refl; same_sequences = refl; same_room = refl })
]

-- The rows of a flush: a known room, and a sequence left for each row.
record Ready (events : List Event) (rows : List (ℕ × Event)) (rt : Runtime) : Type 0 where
  known : validate_id rt.room_id ≡ ok tt
  made : Built (rt.sequences.values rt.room_id) events rows

commit_and_publish-Told :
    (events : List Event) (rows : List (ℕ × Event)) (rt : Runtime)
    → Ready events rows rt
    → Told events rt (commit_and_publish rows rt)
unfolding commit_and_publish
commit_and_publish-Told events rows rt d =
    let v = rt.sequences.values rt.room_id in
    let c = commit_each-Committed rows rt in
    let many : length rows ≡ length events =
      ap length d.made.rows_numbered ∙ length-numbered v events in
    let within = d.made.within in
    elim c.counts [
      | inl (o, n) ↦
          let p = after_commit-Published rows (commit_each rows rt).0 in
          let count = ap (λ s. s.values rt.room_id) p.same_sequences ∙ (n ∙ ap (λ k. v + k) many) in
          subst (Told events rt) (sym (bind_ok (commit_each rows) (λ _. after_commit rows) rt tt o))
            (record {
              same_room = p.same_room ∙ c.same_room;
              ways = inl (
                p.succeeded,
                p.all_rows
                    ∙ (ap (λ xs. xs ++ rows) c.same_rows
                        ∙ ap (λ xs. rt.published ++ xs) d.made.rows_numbered),
                count,
                subst (λ k. k ≤ max_uint64) (sym count) within,
              );
            })
      | inr (inl (x, i)) ↦ let k = d.known in absurd (ground arith)
      | inr (inr m) ↦ absurd (omega arith)
    ]

unchanged-Told :
    (events : List Event) (rt t : Runtime) (e : Error)
    → Untouched rt t
    → Unflushed events rt
    → Told events rt (t, err e)
unchanged-Told events rt t e u w = record { same_room = u.2; ways = inr (e, refl, u.0, u.1, w) }

-- A store that saves no results is not asked to append an event with one.
saved-Told :
    (events : List Event) (rt : Runtime) (r : Runtime × Result Error (Unit {0})) (b c : Bool)
    → rt.store ≢ no_store
    → has_result rt.tx.match_result ≡ b
    → rt.saves_results ≡ c
    → Told events rt r
    → Told events rt (if b && not c then (rt, err event_store_unavailable) else r)
saved-Told events rt r true false a h k t =
    unchanged-Told events rt rt event_store_unavailable (refl, refl, refl) (result_unsaved a h k)
saved-Told events rt r true true a h k t = t
saved-Told events rt r false c a h k t = t

append_to-Told :
    (store : Store) (events : List Event) (rows : List (ℕ × Event)) (rt : Runtime)
    → rt.store ≡ store
    → Ready events rows rt
    → Told events rt (append_to store rows rt)
append_to-Told no_store events rows rt e d = commit_and_publish-Told events rows rt d
append_to-Told store_appends events rows rt e d =
    saved-Told events rt (commit_and_publish rows rt) (has_result rt.tx.match_result)
      rt.saves_results (λ n. ground arith) refl refl (commit_and_publish-Told events rows rt d)
append_to-Told store_fails events rows rt e d =
    saved-Told events rt ((append_failed rows rt).0, err event_store_unavailable)
      (has_result rt.tx.match_result) rt.saves_results (λ n. ground arith) refl refl
      (unchanged-Told events rt (append_failed rows rt).0 event_store_unavailable
        (append_failed-Untouched rows rt) (store_failed e))

flush_rows-Told :
    (events : List Event) (rows : List (ℕ × Event)) (rt : Runtime)
    → Ready events rows rt
    → Told events rt (flush_rows rows rt)
unfolding flush_rows
flush_rows-Told events rows rt d = append_to-Told rt.store events rows rt refl d

-- What the builders return decides whether the store is asked.
built-Told :
    (events : List Event) (rt : Runtime)
    → validate_id rt.room_id ≡ ok tt
    → rt.sequences.values rt.room_id ≤ max_uint64
    → Told events rt ((built (rt.sequences.values rt.room_id) events >>= flush_rows) rt)
built-Told events rt i m =
    let v = rt.sequences.values rt.room_id in
    elim (Result-cases (build_all rt.room_id rt.match_id v events)) [
      | inl (rows, b) ↦
          subst (Told events rt) (sym (bind_ok (built v events) flush_rows rt rows b)) (
            flush_rows-Told events rows rt
              (record { known = i; made = build_all-Built rt.room_id rt.match_id v events m b }))
      | inr (x, b) ↦
          subst (Told events rt) (sym (bind_err (built v events) flush_rows rt x b))
            (unchanged-Told events rt rt x (refl, refl, refl) (event_refused x b))
    ]

flush_of-Told :
    (events : List Event) (rt : Runtime)
    → rt.sequences.values rt.room_id ≤ max_uint64
    → Told events rt (flush_of events rt)
unfolding numbered
flush_of-Told [] rt m = record {
  same_room = refl;
  ways = inl (refl, sym (append_nil rt.published), omega arith, m);
}
flush_of-Told (event ∷ events) rt m =
    let first = on_sequences (Sequences.boundary rt.room_id) in
    let rest : ℕ → Method (Unit {0}) = λ boundary. built boundary (event ∷ events) >>= flush_rows in
    elim (boundary_cases rt.room_id rt.sequences) [
      | inl (u, i, q) ↦
          let k : first rt ≡ (rt, ok (rt.sequences.values rt.room_id)) =
            ap (λ (p : RoomEventSequences × Result Error ℕ). (record rt { sequences = p.0 }, p.1))
              q in
          subst (Told (event ∷ events) rt) (sym (bind_to first rest rt k))
            (built-Told (event ∷ events) rt i m)
      | inr (x, y, i, q) ↦
          let k : first rt ≡ (rt, err y) =
            ap (λ (p : RoomEventSequences × Result Error ℕ). (record rt { sequences = p.0 }, p.1))
              q in
          subst (Told (event ∷ events) rt) (sym (bind_fail first rest rt k))
            (unchanged-Told (event ∷ events) rt rt y (refl, refl, refl) (room_unknown x i))
    ]

-- On a ledger in order, with sequences from 1 on in 64 bits and the sequence of the room, a number
-- of 64 bits, the last of them, every flush succeeds, and then the events stand behind what was
-- published, numbered from the sequence of the room on, which has advanced by one for each and not
-- beyond 64 bits; or it fails, publishes nothing and consumes no sequence, because the room is
-- unknown, a builder refuses its event, the store fails, or a store is attached that does not save
-- the result of the match. The ledger is in order after it.
pub flush_in_order :
    (rt : Runtime) → Ledger rt → Told rt.tx.events rt (flush rt) × Ledger (flush rt).0
unfolding flush
flush_in_order rt k =
    let t = flush_of-Told rt.tx.events rt k.bounded in
    (t, Told-Ledger rt.tx.events rt (flush rt) t k)
