-- ===== src/Cpu/Ranking/Unbeaten.antt =====
-- The ranking is a comparison, and the best candidates are those that no candidate beats.
use buk_yutnori.Prelude.{
  ◌≡◌, refl, ◌∙◌, Bool, true, false, ◌&&◌, not, List, [], ◌∷◌, ◌++◌, if◌then◌else◌, arith, inl, inr,
  ◌⊎◌,
}
use buk_yutnori.Cpu.Ranking.{
  MoveCandidate, Comparison, worse, same, better, compare_bool, then_by, compare_distance,
  compare_candidates, Best, compared, rank, best_candidates,
}

abbrev opposite : Comparison → Comparison
opposite worse = better
opposite same = same
opposite better = worse

pub record IsComparison {A : Type 0} (cmp : A → A → Comparison) : Type 0 where
  pub flips : (x y : A) → cmp y x ≡ opposite (cmp x y)
  pub same_left : (x y z : A) → cmp x y ≡ same → cmp x z ≡ cmp y z
  pub better_trans : (x y z : A) → cmp x y ≡ better → cmp y z ≡ better → cmp x z ≡ better

Comparison-cases : (c : Comparison) → (c ≡ worse) ⊎ ((c ≡ same) ⊎ (c ≡ better))
Comparison-cases worse = inl refl
Comparison-cases same = inr (inl refl)
Comparison-cases better = inr (inr refl)

then_by-IsComparison :
    {A : Type 0} (c d : A → A → Comparison)
    → IsComparison c
    → IsComparison d
    → IsComparison (λ x y. then_by (c x y) (d x y))
then_by-IsComparison c d p q = record {
  flips = λ x y. ground (arith, p.flips x y, q.flips x y);
  same_left = λ x y z e. elim (Comparison-cases (c x y)) [
    | inl k ↦ absurd (ground arith)
    | inr (inl k) ↦ ground (arith, p.same_left x y z, q.same_left x y z)
    | inr (inr k) ↦ absurd (ground arith)
  ];
  better_trans = λ x y z e f. elim (Comparison-cases (c x y)) [
    | inl k ↦ absurd (ground arith)
    | inr (inl k) ↦ ground (arith, p.same_left x y z k, q.better_trans x y z)
    | inr (inr k) ↦ elim (Comparison-cases (c y z)) [
      | inl l ↦ absurd (ground arith)
      | inr (inl l) ↦ ground (arith, p.same_left y z x l, p.flips x y, p.flips x z)
      | inr (inr l) ↦ ground (arith, p.better_trans x y z k l)
    ]
  ];
}

by_bool-IsComparison : {A : Type 0} (f : A → Bool) → IsComparison (λ x y. compare_bool (f x) (f y))
by_bool-IsComparison f = record {
  flips = λ x y. ground arith;
  same_left = λ x y z e. ground arith;
  better_trans = λ x y z e h. ground arith;
}

abbrev compare_reach : MoveCandidate → MoveCandidate → Comparison
compare_reach x y = then_by (compare_bool x.has_distance y.has_distance) (compare_distance x y)

reach-IsComparison : IsComparison compare_reach
reach-IsComparison = record {
  flips = λ x y. ground arith;
  same_left = λ x y z e. ground arith;
  better_trans = λ x y z e h. ground arith;
}

compare_candidates-IsComparison : IsComparison compare_candidates
unfolding compare_candidates
compare_candidates-IsComparison =
    then_by-IsComparison _ _ (by_bool-IsComparison (λ (c : MoveCandidate). c.immediate_finish)) (
      then_by-IsComparison _ _ (by_bool-IsComparison (λ (c : MoveCandidate). c.captures)) (
        then_by-IsComparison _ _ (by_bool-IsComparison (λ (c : MoveCandidate). c.stacks)) (
          then_by-IsComparison _ _ (by_bool-IsComparison (λ (c : MoveCandidate). c.enters_shortcut))
            reach-IsComparison)))

abbrev is_same : Comparison → Bool
is_same same = true
is_same _ = false

abbrev is_better : Comparison → Bool
is_better better = true
is_better _ = false

abbrev pub keep : (MoveCandidate → Bool) → List MoveCandidate → List MoveCandidate
keep f [] = []
keep f (c ∷ cs) = if f c then c ∷ keep f cs else keep f cs

-- No candidate of the list is better.
abbrev pub unbeaten : List MoveCandidate → MoveCandidate → Bool
unbeaten [] x = true
unbeaten (y ∷ ys) x = not (is_better (compare_candidates y x)) && unbeaten ys x

-- The best of the candidates seen so far.
record Leads (best : Best) (seen : List MoveCandidate) : Type 0 where
  tied : best.top ∷ best.others ≡ keep (λ x. is_same (compare_candidates x best.top)) seen
  top_unbeaten : unbeaten seen best.top ≡ true
  top_seen :
      (x : MoveCandidate)
      → unbeaten seen x ≡ true
      → is_better (compare_candidates best.top x) ≡ false

keep-append :
    (f : MoveCandidate → Bool) (xs : List MoveCandidate) (c : MoveCandidate)
    → keep f (xs ++ c ∷ []) ≡ (if f c then keep f xs ++ c ∷ [] else keep f xs)
keep-append f [] c = refl
keep-append f (x ∷ xs) c = ground (arith, keep-append f xs c)

unbeaten-append :
    (xs : List MoveCandidate) (c x : MoveCandidate)
    → unbeaten (xs ++ c ∷ []) x ≡ (unbeaten xs x && not (is_better (compare_candidates c x)))
unbeaten-append [] c x = ground arith
unbeaten-append (y ∷ ys) c x = ground (arith, unbeaten-append ys c x)

-- Nobody ties with a candidate that beats an unbeaten one, and nobody beats it.
overtaken :
    (xs : List MoveCandidate) (top c : MoveCandidate)
    → unbeaten xs top ≡ true
    → compare_candidates c top ≡ better
    → (keep (λ x. is_same (compare_candidates x c)) xs ≡ []) × (unbeaten xs c ≡ true)
overtaken [] top c u b = (refl, refl)
overtaken (x ∷ xs) top c u b =
    let k = compare_candidates-IsComparison in
    let (e, v) = overtaken xs top c (ground arith) b in
    ground
      (arith, k.flips x c, k.flips c x, k.flips c top, k.same_left x c top, k.better_trans x c top)

Leads-step :
    (best : Best) (seen : List MoveCandidate) (c : MoveCandidate)
    → Leads best seen
    → Leads (compared (compare_candidates c best.top) c best) (seen ++ c ∷ [])
Leads-step best seen c l =
    let k = compare_candidates-IsComparison in
    let top = best.top in
    elim (Comparison-cases (compare_candidates c top)) [
      | inl w ↦ rw w (record {
        tied = ground (arith, l.tied, keep-append (λ x. is_same (compare_candidates x top)) seen c);
        top_unbeaten = ground (arith, l.top_unbeaten, unbeaten-append seen c top);
        top_seen = λ x u. ground (arith, l.top_seen x, unbeaten-append seen c x);
      })
      | inr (inl w) ↦ rw w (record {
        tied = ground (arith, l.tied, keep-append (λ x. is_same (compare_candidates x top)) seen c);
        top_unbeaten = ground (arith, l.top_unbeaten, unbeaten-append seen c top);
        top_seen = λ x u. ground (arith, l.top_seen x, unbeaten-append seen c x);
      })
      | inr (inr w) ↦
          let (none_tied, free) = overtaken seen top c l.top_unbeaten w in
          let self : compare_candidates c c ≡ same = ground (arith, k.flips c c) in
          rw w (record {
            tied = ground (arith, keep-append (λ x. is_same (compare_candidates x c)) seen c);
            top_unbeaten = ground (arith, unbeaten-append seen c c);
            top_seen = λ x u. ground (arith, unbeaten-append seen c x);
          })
    ]

append_cons :
    (xs : List MoveCandidate) (c : MoveCandidate) (cs : List MoveCandidate)
    → (xs ++ c ∷ []) ++ cs ≡ xs ++ (c ∷ cs)
append_cons [] c cs = refl
append_cons (x ∷ xs) c cs = ground (arith, append_cons xs c cs)

append_nil : (xs : List MoveCandidate) → xs ++ [] ≡ xs
append_nil [] = refl
append_nil (x ∷ xs) = ground (arith, append_nil xs)

rank-Leads :
    (best : Best) (seen cs : List MoveCandidate)
    → Leads best seen
    → Leads (rank best cs) (seen ++ cs)
unfolding rank
rank-Leads best seen [] l = rw (append_nil seen) l
rank-Leads best seen (c ∷ cs) l = rw (← append_cons seen c cs) (
    rank-Leads (compared (compare_candidates c best.top) c best) (seen ++ c ∷ []) cs
      (Leads-step best seen c l))

-- Among candidates that a leader has seen, those tied with it are those that nobody beats.
tied_unbeaten :
    (top : MoveCandidate) (all xs : List MoveCandidate)
    → unbeaten all top ≡ true
    → ((x : MoveCandidate) → unbeaten all x ≡ true → is_better (compare_candidates top x) ≡ false)
    → unbeaten xs top ≡ true
    → keep (λ x. is_same (compare_candidates x top)) xs ≡ keep (unbeaten all) xs
tied_unbeaten top all [] u s v = refl
tied_unbeaten top all (x ∷ xs) u s v =
    let k = compare_candidates-IsComparison in
    let rest = tied_unbeaten top all xs u s (ground arith) in
    ground (arith, tie all x u, s x, k.flips x top)
  where
    tie :
        (ys : List MoveCandidate) (x : MoveCandidate)
        → unbeaten ys top ≡ true
        → compare_candidates x top ≡ same
        → unbeaten ys x ≡ true
    tie [] x w e = refl
    tie (y ∷ ys) x w e =
        let j = compare_candidates-IsComparison in
        ground (
          arith,
          tie ys x,
          j.flips x y,
          j.flips top y,
          j.flips y x,
          j.flips y top,
          j.same_left x top y e,
        )

-- The best candidates are exactly those that no candidate beats, in the order of the list.
pub best_candidates-unbeaten :
    (first : MoveCandidate) (rest : List MoveCandidate)
    → best_candidates first rest ≡ keep (unbeaten (first ∷ rest)) (first ∷ rest)
unfolding best_candidates
best_candidates-unbeaten first rest =
    let k = compare_candidates-IsComparison in
    let self : compare_candidates first first ≡ same = ground (arith, k.flips first first) in
    let start : Leads (record { top = first; others = [] }) (first ∷ []) = record {
      tied = ground arith;
      top_unbeaten = ground arith;
      top_seen = λ x u. ground arith;
    } in
    let l = rank-Leads (record { top = first; others = [] }) (first ∷ []) rest start in
    l.tied ∙ tied_unbeaten _ (first ∷ rest) (first ∷ rest) l.top_unbeaten l.top_seen l.top_unbeaten
