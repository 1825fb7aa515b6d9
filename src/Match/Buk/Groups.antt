-- ===== src/Match/Buk/Groups.antt =====
-- The groups that a Buk moves: each has a piece of the team, and a place it comes from.
use buk_yutnori.Prelude.{
  ℕ, zero, suc, ◌+◌, ◌≡◌, refl, subst, true, ◌&&◌, List, [], ◌∷◌, ◌++◌, some, ◌==◌, string_eq,
  nat_eq, get_elem?, length, ltb, eqb, arith, inl, inr, Bool-cases, Option-cases, All,
}
use buk_yutnori.Prelude.Result.{ok, guard, >>=-eq-ok}
use buk_yutnori.Domain.{invalid_buk_planner, TeamId, team_eq, piece_waiting, piece_state_eq}
use buk_yutnori.Board.Types.{Graph, ShortcutPolicy, known}
use buk_yutnori.Board.Distance.{remaining_forward_distance}
use buk_yutnori.Match.Types.{Piece}
use buk_yutnori.Match.BukDestination.{RandomSource, random_ticket}
use buk_yutnori.Match.Game.{Game, indices_where}
use buk_yutnori.Match.Invariant.{Inv, Placed, off_board, on_space, CameFrom}
use buk_yutnori.Match.Buk.{
  PositionGroup, on_the_board, add_to_group, group_pieces, buk_position_groups, measure, closest,
  waiting_group, waiting_indices, waiting_fallback, nth,
}

-- A place of the list where a piece of the team is.
abbrev pub Owned : List Piece → TeamId → ℕ → Type 0
Owned pieces team i = (p : Piece) × (get_elem? pieces i ≡ some p) × (p.team_id ≡ team)

abbrev pub HasOwned : List Piece → TeamId → PositionGroup → Type 0
HasOwned pieces team g = (i : ℕ) × (is : List ℕ) × (g.indices ≡ i ∷ is) × Owned pieces team i

abbrev pub FromKnown : Graph → PositionGroup → Type 0
FromKnown planner g = CameFrom planner g.position.space

-- What is shown of every group needs only its position and that its places are grown at the end.
abbrev Grows : (PositionGroup → Type 0) → Type 0
Grows P = (g : PositionGroup) (i : ℕ) → P g → P (record g { indices = g.indices ++ i ∷ [] })

abbrev fresh : ℕ → Piece → PositionGroup
fresh i p = record {
  position = record { state = p.state; space = p.current_space_id };
  indices = i ∷ [];
  distance = 0;
}

add_to_group-All :
    (P : PositionGroup → Type 0) (i : ℕ) (p : Piece) (gs : List PositionGroup)
    → Grows P
    → P (fresh i p)
    → All P gs
    → All P (add_to_group i p gs)
unfolding add_to_group
add_to_group-All P i p [] grow new a = (new, tt)
add_to_group-All P i p (g ∷ gs) grow new a =
    elim (Bool-cases (g.position.space == p.current_space_id)) [
      | inl e ↦ rw e (grow g i a.0, a.1)
      | inr e ↦ rw e (a.0, add_to_group-All P i p gs grow new a.1)
    ]

group_pieces-All :
    (P : PositionGroup → Type 0) (team : TeamId) (start : ℕ) (ps : List Piece)
    (gs : List PositionGroup)
    → Grows P
    → ((j : ℕ) (p : Piece)
        → get_elem? ps j ≡ some p
        → on_the_board team p ≡ true
        → P (fresh (start + j) p))
    → All P gs
    → All P (group_pieces team start ps gs)
unfolding group_pieces
group_pieces-All P team start [] gs grow new a = a
group_pieces-All P team start (p ∷ ps) gs grow new a =
    let later : (j : ℕ) (q : Piece)
        → get_elem? ps j ≡ some q
        → on_the_board team q ≡ true
        → P (fresh (suc start + j) q) =
      λ j q e o.
        let same : start + suc j ≡ suc start + j = omega arith in
        subst (λ k. P (fresh k q)) same (new (suc j) q e o) in
    elim (Bool-cases (on_the_board team p)) [
      | inl e ↦
          let same : start + 0 ≡ start = omega arith in
          let here : P (fresh start p) = subst (λ k. P (fresh k p)) same (new 0 p refl e) in
          rw e (
            group_pieces-All P team (suc start) ps (add_to_group start p gs) grow later
              (add_to_group-All P start p gs grow here a))
      | inr e ↦ rw e (group_pieces-All P team (suc start) ps gs grow later a)
    ]

pub groups-HasOwned :
    (game : Game) (team : TeamId) → All (HasOwned game.pieces team) (buk_position_groups game team)
unfolding buk_position_groups
groups-HasOwned game team =
    group_pieces-All (HasOwned game.pieces team) team 0 game.pieces []
      (λ g i (j, js, e, o). (j, js ++ i ∷ [], ground arith, o))
      (λ j p e o. let z : 0 + j ≡ j = omega arith in (j, [], ground arith, (p, e, ground arith))) tt

on_board_known :
    (g : Graph) (team : TeamId) (p : Piece)
    → on_the_board team p ≡ true
    → Placed g p
    → known g p.current_space_id ≡ true
on_board_known g team p o (off_board (inl s) _ _) = absurd (ground arith)
on_board_known g team p o (off_board (inr s) _ _) = absurd (ground arith)
on_board_known g team p o (on_space _ k _) = k

pub groups-FromKnown :
    (game : Game) (team : TeamId)
    → Inv game
    → All (FromKnown game.planner) (buk_position_groups game team)
unfolding buk_position_groups
groups-FromKnown game team v =
    group_pieces-All (FromKnown game.planner) team 0 game.pieces [] (λ g i k. k)
      (λ j p e o. inr (on_board_known game.planner team p o (v.placed j p e))) tt

pub measure-All :
    (P : PositionGroup → Type 0) (planner : Graph) (policy : ShortcutPolicy)
    (gs : List PositionGroup) {ms : List PositionGroup}
    → ((g : PositionGroup) (d : ℕ) → P g → P (record g { distance = d }))
    → All P gs
    → measure planner policy gs ≡ ok ms
    → All P ms
unfolding measure
measure-All P planner policy [] {ms} keeps a h =
    let same : [] ≡ ms = ground arith in subst (All P) same a
measure-All P planner policy (g ∷ gs) {ms} keeps a h =
    let (d, _, h1) = >>=-eq-ok (remaining_forward_distance planner g.position policy) _ h in
    let (_, _, h2) = >>=-eq-ok (guard (ltb 0 d) invalid_buk_planner) _ h1 in
    let (rest, m, h3) = >>=-eq-ok (measure planner policy gs) _ h2 in
    let same : record g { distance = d } ∷ rest ≡ ms = ground arith in
    subst (All P) same (keeps g d a.0, measure-All P planner policy gs keeps a.1 m)

pub closest-All :
    (P : PositionGroup → Type 0) (minimum : ℕ) (gs : List PositionGroup)
    → All P gs
    → All P (closest minimum gs)
unfolding closest
closest-All P minimum [] a = tt
closest-All P minimum (g ∷ gs) a = elim (Bool-cases (eqb g.distance minimum)) [
  | inl e ↦ rw e (a.0, closest-All P minimum gs a.1)
  | inr e ↦ rw e (closest-All P minimum gs a.1)
]

waiting-Owned :
    (team : TeamId) (start : ℕ) (ps : List Piece) (i k : ℕ)
    → get_elem? (indices_where (λ _ p. p.team_id == team && p.state == piece_waiting) start ps) i
      ≡ some k
    → (j : ℕ) × (k ≡ start + j) × Owned ps team j
unfolding indices_where
waiting-Owned team start [] i k h = absurd (ground arith)
waiting-Owned team start (p ∷ ps) zero k h =
    elim (Bool-cases (p.team_id == team && p.state == piece_waiting)) [
      | inr e ↦
          let (j, m, o) = waiting-Owned team (suc start) ps zero k (ground arith) in
          (suc j, omega arith, o)
      | inl e ↦ let same : start ≡ k = ground arith in (0, omega arith, (p, refl, ground arith))
    ]
waiting-Owned team start (p ∷ ps) (suc i) k h =
    elim (Bool-cases (p.team_id == team && p.state == piece_waiting)) [
      | inr e ↦
          let (j, m, o) = waiting-Owned team (suc start) ps (suc i) k (ground arith) in
          (suc j, omega arith, o)
      | inl e ↦
          let (j, m, o) = waiting-Owned team (suc start) ps i k (ground arith) in
          (suc j, omega arith, o)
    ]

nth-get : (is : List ℕ) (ticket : ℕ) {k : ℕ} → nth is ticket ≡ ok k → get_elem? is ticket ≡ some k
nth-get is ticket h = elim (Option-cases (get_elem? is ticket)) [
  | inl n ↦ absurd (ground arith)
  | inr (j, e) ↦ ground arith
]

chosen-All :
    (P : PositionGroup → Type 0) (source : RandomSource) (is : List ℕ) {gs : List PositionGroup}
    → ((i k : ℕ) → get_elem? is i ≡ some k → P (waiting_group k))
    → waiting_fallback source is ≡ ok gs
    → All P gs
unfolding waiting_fallback
chosen-All P source [] {gs} each h = let same : [] ≡ gs = ground arith in subst (All P) same tt
chosen-All P source (i ∷ is) {gs} each h =
    let (ticket, _, h1) = >>=-eq-ok (random_ticket source (length (i ∷ is))) _ h in
    let (k, at, h2) = >>=-eq-ok (nth (i ∷ is) ticket) _ h1 in
    let same : waiting_group k ∷ [] ≡ gs = ground arith in
    subst (All P) same (each ticket k (nth-get (i ∷ is) ticket at), tt)

pub fallback-HasOwned :
    (game : Game) (team : TeamId) {gs : List PositionGroup}
    → waiting_fallback game.random_source (waiting_indices game team) ≡ ok gs
    → All (HasOwned game.pieces team) gs
unfolding waiting_indices
fallback-HasOwned game team h =
    chosen-All (HasOwned game.pieces team) game.random_source (waiting_indices game team)
      (λ i k e.
        let (j, m, o) = waiting-Owned team 0 game.pieces i k e in
        let same : j ≡ k = omega arith in (k, [], refl, subst (Owned game.pieces team) same o))
      h

pub fallback-FromKnown :
    (game : Game) (team : TeamId) {gs : List PositionGroup}
    → waiting_fallback game.random_source (waiting_indices game team) ≡ ok gs
    → All (FromKnown game.planner) gs
fallback-FromKnown game team h =
    chosen-All (FromKnown game.planner) game.random_source (waiting_indices game team)
      (λ i k e. inl refl) h
