-- ===== src/Match/Buk/Nearest.antt =====
-- The groups that a Buk chooses among those on the board.
use buk_yutnori.Prelude.{
  ℕ, ◌≡◌, ◌≢◌, ◌≤◌, ◌<◌, refl, sym, ◌∙◌, subst, true, false, List, [], ◌∷◌, ltb, eqb, arith, inl,
  inr, ◌⊎◌, Bool-cases, All,
}
use buk_yutnori.Match.Buk.{PositionGroup, minimum_distance, max_int, closest}

abbrev Below : ℕ → List PositionGroup → Type 0
Below n gs = All (λ (m : PositionGroup). n ≤ m.distance) gs

nearer :
    (best : ℕ) (g : PositionGroup) (gs : List PositionGroup)
    → ltb g.distance best ≡ true
    → minimum_distance best (g ∷ gs) ≡ minimum_distance g.distance gs
unfolding minimum_distance
nearer best g gs e = rw e refl

not_nearer :
    (best : ℕ) (g : PositionGroup) (gs : List PositionGroup)
    → ltb g.distance best ≡ false
    → minimum_distance best (g ∷ gs) ≡ minimum_distance best gs
unfolding minimum_distance
not_nearer best g gs e = rw e refl

minimum_nil : (n : ℕ) → minimum_distance n [] ≡ n
unfolding minimum_distance
minimum_nil n = refl

minimum-Below :
    (best : ℕ) (gs : List PositionGroup)
    → (minimum_distance best gs ≤ best) × Below (minimum_distance best gs) gs
minimum-Below best [] = rw (minimum_nil best) (omega arith, tt)
minimum-Below best (g ∷ gs) = elim (Bool-cases (ltb g.distance best)) [
  | inl e ↦
      let (b, a) = minimum-Below g.distance gs in
      let less : g.distance < best = ground arith in
      subst (λ n. (n ≤ best) × Below n (g ∷ gs)) (sym (nearer best g gs e)) (omega arith, (b, a))
  | inr e ↦
      let (b, a) = minimum-Below best gs in
      let more : best ≤ g.distance = ground arith in
      subst (λ n. (n ≤ best) × Below n (g ∷ gs)) (sym (not_nearer best g gs e))
        (b, (omega arith, a))
]

chosen_first :
    (n : ℕ) (g : PositionGroup) (gs : List PositionGroup) → n ≡ g.distance → closest n (g ∷ gs) ≢ []
unfolding closest
chosen_first n g gs e k = ground arith

chosen_later :
    (n : ℕ) (g : PositionGroup) (gs : List PositionGroup)
    → closest n gs ≢ []
    → closest n (g ∷ gs) ≢ []
unfolding closest
chosen_later n g gs c k = ground arith

-- The minimum is the start, or the distance of a group, which is then chosen.
minimum_reached :
    (best : ℕ) (gs : List PositionGroup)
    → (minimum_distance best gs ≡ best) ⊎ (closest (minimum_distance best gs) gs ≢ [])
minimum_reached best [] = inl (minimum_nil best)
minimum_reached best (g ∷ gs) = elim (Bool-cases (ltb g.distance best)) [
  | inl e ↦ rw (nearer best g gs e) (
      inr (elim (minimum_reached g.distance gs) [
        | inl s ↦ chosen_first (minimum_distance g.distance gs) g gs s
        | inr n ↦ chosen_later (minimum_distance g.distance gs) g gs n
      ]))
  | inr e ↦ rw (not_nearer best g gs e) (elim (minimum_reached best gs) [
    | inl s ↦ inl s
    | inr n ↦ inr (chosen_later (minimum_distance best gs) g gs n)
  ])
]

closest-All :
    (n : ℕ) (all gs : List PositionGroup)
    → Below n all
    → All (λ (m : PositionGroup). Below m.distance all) (closest n gs)
unfolding closest
closest-All n all [] b = tt
closest-All n all (g ∷ gs) b = elim (Bool-cases (eqb g.distance n)) [
  | inl e ↦
      let same : n ≡ g.distance = ground arith in
      rw e (subst (λ k. Below k all) same b, closest-All n all gs b)
  | inr e ↦ rw e (closest-All n all gs b)
]

-- Of groups at distances that an integer of 64 bits holds, a Buk chooses some, and only those that
-- no group is nearer than.
pub nearest_chosen :
    (g : PositionGroup) (gs : List PositionGroup)
    → All (λ (m : PositionGroup). m.distance ≤ max_int) (g ∷ gs)
    → (closest (minimum_distance max_int (g ∷ gs)) (g ∷ gs) ≢ [])
      × All
          (λ (m : PositionGroup). All (λ (k : PositionGroup). m.distance ≤ k.distance) (g ∷ gs))
          (closest (minimum_distance max_int (g ∷ gs)) (g ∷ gs))
nearest_chosen g gs bound =
    let minimum = minimum_distance max_int (g ∷ gs) in
    let (_, below) = minimum-Below max_int (g ∷ gs) in
    (
      elim (minimum_reached max_int (g ∷ gs)) [
        | inr n ↦ n
        | inl e ↦
            let least : minimum ≤ g.distance = below.0 in
            let same : g.distance ≡ max_int = omega (arith, e, least, bound.0) in
            chosen_first minimum g gs (e ∙ sym same)
      ],
      closest-All minimum (g ∷ gs) (g ∷ gs) below,
    )
