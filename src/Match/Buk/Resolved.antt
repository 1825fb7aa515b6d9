-- ===== src/Match/Buk/Resolved.antt =====
-- What a Buk does to the match: it ends nothing, and it leaves every piece placed.
use buk_yutnori.Prelude.{
  ℕ, zero, suc, ◌≡◌, ◌≢◌, refl, sym, subst, true, false, List, [], ◌∷◌, none, some, string_eq,
  nat_eq, get_elem?, arith, inl, inr, Bool-cases, Option-cases, All, contains, ap, ◌∙◌,
}
use buk_yutnori.Prelude.Result.{ok, guard, >>=-eq-ok}
use buk_yutnori.Domain.{
  buk_mode_disabled, PieceId, TeamId, team_eq, validate_team_id, yut_buk, piece_finished,
  piece_state_eq, YutResult,
}
use buk_yutnori.Turn.Machine.{validate_buk_outcome}
use buk_yutnori.Match.Types.{Piece, MoveOutcome}
use buk_yutnori.Match.Game.{Game, piece_ids}
use buk_yutnori.Match.Resolution.{
  MoveResolutionPlan, apply_move_resolution, all_team_pieces_finished,
}
use buk_yutnori.Match.Resolution.Pieces.{fate, apply_move_resolution-fate}
use buk_yutnori.Match.Movement.{still_open, board_shortcut_policy}
use buk_yutnori.Match.Invariant.{Inv, Arrives, apply_move_resolution-Inv}
use buk_yutnori.Match.Buk.{
  BukOutcome, PositionGroup, any_end, of_move, buk_turn_outcome, buk_position_groups, measure,
  minimum_distance, max_int, closest, waiting_indices, waiting_fallback, buk_plan, already_there,
  first_id, move_groups, first_move, committed, no_candidate_outcome, commit_fallback,
  resolve_groups, resolve_buk,
}
use buk_yutnori.Match.Buk.Groups.{
  Owned, HasOwned, FromKnown, groups-HasOwned, groups-FromKnown, measure-All, closest-All,
  fallback-HasOwned, fallback-FromKnown,
}

-- A Buk finds nothing to move, or moves groups of the team's pieces.
pub data Resolved (game : Game) (team : TeamId) (after : Game × BukOutcome) : Type 0 where
  nothing : after ≡ (game, no_candidate_outcome game) → Resolved game team after
  groups :
      (selected : List PositionGroup)
      → All (HasOwned game.pieces team) selected
      → (Inv game → All (FromKnown game.planner) selected)
      → after ≡ committed game team selected
      → Resolved game team after

resolved_groups :
    (game : Game) (team : TeamId) (gs : List PositionGroup) {after : Game × BukOutcome}
    → All (HasOwned game.pieces team) gs
    → (Inv game → All (FromKnown game.planner) gs)
    → resolve_groups game team gs ≡ ok after
    → Resolved game team after
unfolding resolve_groups
resolved_groups game team [] {after} a f h =
    let (gs, chosen, h1) =
      >>=-eq-ok (waiting_fallback game.random_source (waiting_indices game team)) _ h in
    fallback gs chosen h1
  where
    fallback :
        (gs : List PositionGroup)
        → waiting_fallback game.random_source (waiting_indices game team) ≡ ok gs
        → commit_fallback game team gs ≡ ok after
        → Resolved game team after
    fallback [] chosen e = nothing (ground arith)
    fallback (g ∷ gs) chosen e =
        groups (closest 0 (g ∷ gs))
          (closest-All (HasOwned game.pieces team) 0 (g ∷ gs) (fallback-HasOwned game team chosen))
          (λ v.
            closest-All (FromKnown game.planner) 0 (g ∷ gs) (fallback-FromKnown game team chosen))
          (ground arith)
resolved_groups game team (g ∷ gs) {after} a f h =
    let policy = board_shortcut_policy game.settings.shortcut_policy in
    let (ms, m, h1) = >>=-eq-ok (measure game.planner policy (g ∷ gs)) _ h in
    let minimum = minimum_distance max_int ms in
    groups (closest minimum ms)
      (closest-All (HasOwned game.pieces team) minimum ms
        (measure-All (HasOwned game.pieces team) game.planner policy (g ∷ gs) (λ k d o. o) a m))
      (λ v.
        closest-All (FromKnown game.planner) minimum ms
          (measure-All (FromKnown game.planner) game.planner policy (g ∷ gs) (λ k d o. o) (f v) m))
      (ground arith)

pub open-none : (game : Game) {u : Unit {0}} → still_open game ≡ ok u → game.winner_team_id ≡ none
open-none game h = elim (Option-cases game.winner_team_id) [
  | inl n ↦ n
  | inr (t, e) ↦ absurd (ground arith)
]

pub resolved :
    (game : Game) (team : TeamId) {after : Game × BukOutcome}
    → resolve_buk game team ≡ ok after
    → (game.winner_team_id ≡ none)
      × (game.settings.buk_mode_enabled ≡ true)
      × Resolved game team after
unfolding resolve_buk
resolved game team h =
    let (_, o, h1) = >>=-eq-ok (still_open game) _ h in
    let (_, e, h2) = >>=-eq-ok (guard game.settings.buk_mode_enabled buk_mode_disabled) _ h1 in
    let (_, _, h3) = >>=-eq-ok (validate_team_id team) _ h2 in
    (
      open-none game o,
      ground arith,
      resolved_groups game team (buk_position_groups game team) (groups-HasOwned game team)
          (groups-FromKnown game team) h3,
    )

fate-team :
    (game : Game) (team : TeamId) (plan : MoveResolutionPlan) (i : ℕ) (p : Piece)
    → (fate game team plan i p).team_id ≡ p.team_id
fate-team game team plan i p = ground arith

Owned-kept :
    (game : Game) (team : TeamId) (id : PieceId) (result : YutResult) (plan : MoveResolutionPlan)
    (i : ℕ)
    → Owned game.pieces team i
    → Owned (apply_move_resolution game team id result plan).0.pieces team i
Owned-kept game team id result plan i (p, e, o) = (
  fate game team plan i p,
  apply_move_resolution-fate game team id result plan i e,
  ground (arith, fate-team game team plan i p),
)

pub HasOwned-kept :
    (game : Game) (team : TeamId) (id : PieceId) (result : YutResult) (plan : MoveResolutionPlan)
    (gs : List PositionGroup)
    → All (HasOwned game.pieces team) gs
    → All (HasOwned (apply_move_resolution game team id result plan).0.pieces team) gs
HasOwned-kept game team id result plan [] a = tt
HasOwned-kept game team id result plan (g ∷ gs) ((i, is, e, o), a) = (
  (i, is, e, Owned-kept game team id result plan i o),
  HasOwned-kept game team id result plan gs a,
)

pub unfinished :
    (ps : List Piece) (team : TeamId) (i : ℕ) (p : Piece)
    → get_elem? ps i ≡ some p
    → p.team_id ≡ team
    → p.state ≢ piece_finished
    → all_team_pieces_finished ps team ≡ false
unfolding all_team_pieces_finished
unfinished [] team i p e o f = absurd (ground arith)
unfinished (q ∷ ps) team zero p e o f = ground arith
unfinished (q ∷ ps) team (suc i) p e o f = ground (arith, unfinished ps team i p e o f)

-- A group that has a piece of the team ends nothing when it moves.
pub group_ends_nothing :
    (game : Game) (team : TeamId) (id : PieceId) (g : PositionGroup)
    → HasOwned game.pieces team g
    → all_team_pieces_finished
        (apply_move_resolution game team id yut_buk (buk_plan game g)).0.pieces
        team
      ≡ false
group_ends_nothing game team id g (i, is, shape, (p, e, o)) =
    let plan = buk_plan game g in
    let moving : contains plan.moving_indices i ≡ true = ground arith in
    unfinished (apply_move_resolution game team id yut_buk plan).0.pieces team i
      (fate game team plan i p) (apply_move_resolution-fate game team id yut_buk plan i e)
      (ground (arith, fate-team game team plan i p)) (λ f. ground arith)

pub outcome_open :
    (game : Game) (team : TeamId) (id : PieceId) (plan : MoveResolutionPlan)
    → game.winner_team_id ≡ none
    → all_team_pieces_finished (apply_move_resolution game team id yut_buk plan).0.pieces team
      ≡ false
    → ((apply_move_resolution game team id yut_buk plan).0.winner_team_id ≡ none)
      × ((apply_move_resolution game team id yut_buk plan).1.match_ended ≡ false)
unfolding apply_move_resolution
outcome_open game team id plan w f = (ground arith, ground arith)

pub move_groups_open :
    (game : Game) (team : TeamId) (gs : List PositionGroup)
    → game.winner_team_id ≡ none
    → All (HasOwned game.pieces team) gs
    → ((move_groups game team gs).0.winner_team_id ≡ none)
      × (any_end (move_groups game team gs).2 ≡ false)
unfolding move_groups
move_groups_open game team [] w a = (w, refl)
move_groups_open game team (g ∷ gs) w a =
    let id = first_id (piece_ids game.pieces g.indices) in
    let plan = buk_plan game g in
    let (w', m) = outcome_open game team id plan w (group_ends_nothing game team id g a.0) in
    let stay = move_groups_open game team gs w a.1 in
    let go =
      move_groups_open (apply_move_resolution game team id yut_buk plan).0 team gs w'
        (HasOwned-kept game team id yut_buk plan gs a.1) in
    elim (Bool-cases (already_there game g)) [ inl e ↦ rw e stay | inr e ↦ rw (e, m) go ]

first_end :
    (ms : List MoveOutcome)
    → any_end ms ≡ false
    → of_move (λ m. m.match_ended) (first_move ms) ≡ false
first_end [] e = refl
first_end (m ∷ ms) e = ground arith

-- A Buk that is resolved ends no match, and the turn accepts what is reported of it.
pub resolve_buk_ends_nothing :
    (game : Game) (team : TeamId) {game' : Game} {outcome : BukOutcome}
    → resolve_buk game team ≡ ok (game', outcome)
    → (game'.winner_team_id ≡ none) × (validate_buk_outcome (buk_turn_outcome outcome) ≡ ok tt)
unfolding buk_turn_outcome validate_buk_outcome
resolve_buk_ends_nothing game team {game'} {outcome} h =
    let (w, b, r) = resolved game team h in
    elim r [
      | nothing e ↦ (ground arith, ground arith)
      | groups gs a _ e ↦
          let (w', m) = move_groups_open game team gs w a in
          let f = first_end (move_groups game team gs).2 m in (ground arith, ground arith)
    ]

-- Nor does it report an end to the turn.
pub resolve_buk_unended :
    (game : Game) (team : TeamId) {game' : Game} {outcome : BukOutcome}
    → resolve_buk game team ≡ ok (game', outcome)
    → (buk_turn_outcome outcome).match_ended ≡ false
unfolding buk_turn_outcome
resolve_buk_unended game team {game'} {outcome} h =
    let (w, b, r) = resolved game team h in
    elim r [
      | nothing e ↦ ground arith
      | groups gs a _ e ↦
          let (w', m) = move_groups_open game team gs w a in
          let f = first_end (move_groups game team gs).2 m in ground arith
    ]

move_groups-Inv :
    (game : Game) (team : TeamId) (gs : List PositionGroup)
    → game.settings.buk_mode_enabled ≡ true
    → Inv game
    → All (FromKnown game.planner) gs
    → Inv (move_groups game team gs).0
unfolding move_groups apply_move_resolution
move_groups-Inv game team [] b v a = v
move_groups-Inv game team (g ∷ gs) b v a =
    let id = first_id (piece_ids game.pieces g.indices) in
    let plan = buk_plan game g in
    let (k, n) = v.target b in
    let arrives : Arrives game.planner plan = inr (ground arith, k, a.0) in
    let stay = move_groups-Inv game team gs b v a.1 in
    let go =
      move_groups-Inv (apply_move_resolution game team id yut_buk plan).0 team gs b
        (apply_move_resolution-Inv game team id yut_buk plan v arrives) a.1 in
    elim (Bool-cases (already_there game g)) [ inl e ↦ rw e stay | inr e ↦ rw e go ]

-- A Buk that is resolved keeps every piece placed.
pub resolve_buk-Inv :
    (game : Game) (team : TeamId) {game' : Game} {outcome : BukOutcome}
    → Inv game
    → resolve_buk game team ≡ ok (game', outcome)
    → Inv game'
resolve_buk-Inv game team {game'} {outcome} v h =
    let (w, b, r) = resolved game team h in
    elim r [
      | nothing e ↦ subst Inv (sym (ap (λ (x : Game × BukOutcome). x.0) e)) v
      | groups gs a f e ↦
          subst Inv (sym (ap (λ (x : Game × BukOutcome). x.0) e))
            (move_groups-Inv game team gs b v (f v))
    ]

move_groups-planner :
    (game : Game) (team : TeamId) (gs : List PositionGroup)
    → (move_groups game team gs).0.planner ≡ game.planner
unfolding move_groups apply_move_resolution
move_groups-planner game team [] = refl
move_groups-planner game team (g ∷ gs) =
    let id = first_id (piece_ids game.pieces g.indices) in
    let stay = move_groups-planner game team gs in
    let go =
      move_groups-planner (apply_move_resolution game team id yut_buk (buk_plan game g)).0 team
        gs in
    elim (Bool-cases (already_there game g)) [ inl e ↦ rw e stay | inr e ↦ rw e go ]

pub resolve_buk-planner :
    (game : Game) (team : TeamId) {game' : Game} {outcome : BukOutcome}
    → resolve_buk game team ≡ ok (game', outcome)
    → game'.planner ≡ game.planner
resolve_buk-planner game team {game'} {outcome} h =
    let (w, b, r) = resolved game team h in
    elim r [
      | nothing e ↦ ap (λ (x : Game × BukOutcome). x.0.planner) e
      | groups gs a f e ↦
          ap (λ (x : Game × BukOutcome). x.0.planner) e ∙ move_groups-planner game team gs
    ]
