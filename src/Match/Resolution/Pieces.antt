-- ===== src/Match/Resolution/Pieces.antt =====
-- What the resolution of a movement does to each piece.
use buk_yutnori.Prelude.{
  ℕ, zero, suc, ◌+◌, ◌≡◌, ◌≢◌, refl, sym, subst, Bool, true, false, not, ◌&&◌, ◌||◌, List, [], ◌∷◌,
  ◌++◌, Option, none, some, ◌==◌, string_eq, nat_eq, if◌then◌else◌, get_elem?, contains, arith, inl,
  inr, Bool-cases, Option-cases, ◌<◌,
}
use buk_yutnori.Prelude.Result.{ok}
use buk_yutnori.Domain.{
  PieceId, TeamId, team_eq, piece_waiting, piece_finished, piece_state_eq, YutResult,
}
use buk_yutnori.Turn.Machine.{validate_move_outcome}
use buk_yutnori.Match.Types.{Piece, turn_outcome}
use buk_yutnori.Match.Game.{Game, indices_where}
use buk_yutnori.Match.Resolution.{
  MoveResolutionPlan, at_destination, destination_allies, captured_piece_indices, change_at,
  change_all, sent_back, arrived, final_group, moved_pieces, apply_move_resolution,
  all_team_pieces_finished,
}

abbrev mapped : (Piece → Piece) → Option Piece → Option Piece
mapped f none = none
mapped f (some p) = some (f p)

change_at-get :
    (f : Piece → Piece) (i j : ℕ) (ps : List Piece)
    → get_elem? (change_at f i ps) j
      ≡ (if i == j then mapped f (get_elem? ps j) else get_elem? ps j)
change_at-get f i j [] = ground arith
change_at-get f zero zero (p ∷ ps) = ground arith
change_at-get f zero (suc j) (p ∷ ps) = ground arith
change_at-get f (suc i) zero (p ∷ ps) = ground arith
change_at-get f (suc i) (suc j) (p ∷ ps) = ground (arith, change_at-get f i j ps)

-- A change that does nothing more the second time is made at exactly the indices listed.
change_all-get :
    (f : Piece → Piece) (is : List ℕ) (j : ℕ) (ps : List Piece)
    → ((p : Piece) → f (f p) ≡ f p)
    → get_elem? (change_all f is ps) j
      ≡ (if contains is j then mapped f (get_elem? ps j) else get_elem? ps j)
unfolding change_all
change_all-get f [] j ps e = refl
change_all-get f (i ∷ is) j ps e = elim (Option-cases (get_elem? ps j)) [
  | inl n ↦ ground (arith, change_all-get f is j (change_at f i ps) e, change_at-get f i j ps)
  | inr (p, s) ↦
      ground (arith, change_all-get f is j (change_at f i ps) e, change_at-get f i j ps, e p)
]

abbrev pub tested : (ℕ → Piece → Bool) → ℕ → Option Piece → Bool
tested test i none = false
tested test i (some p) = test i p

contains_below :
    (test : ℕ → Piece → Bool) (start i : ℕ) (ps : List Piece)
    → i < start
    → contains (indices_where test start ps) i ≡ false
unfolding indices_where
contains_below test start i [] l = refl
contains_below test start i (p ∷ ps) l = ground (arith, contains_below test (suc start) i ps)

pub contains-indices_where :
    (test : ℕ → Piece → Bool) (start i : ℕ) (ps : List Piece)
    → contains (indices_where test start ps) (start + i) ≡ tested test (start + i) (get_elem? ps i)
unfolding indices_where
contains-indices_where test start i [] = refl
contains-indices_where test start zero (p ∷ ps) =
    let same : start + 0 ≡ start = omega arith in
    rw same (ground (arith, contains_below test (suc start) start ps))
contains-indices_where test start (suc i) (p ∷ ps) =
    let same : start + suc i ≡ suc start + i = omega arith in
    rw same (ground (arith, contains-indices_where test (suc start) i ps))

contains-append :
    (xs ys : List ℕ) (i : ℕ) → contains (xs ++ ys) i ≡ (contains xs i || contains ys i)
contains-append [] ys i = refl
contains-append (x ∷ xs) ys i = ground (arith, contains-append xs ys i)

abbrev pub captures : TeamId → MoveResolutionPlan → Piece → Bool
captures team plan piece =
    not (plan.destination_state == piece_finished)
    && (not (piece.team_id == team) && at_destination plan piece)

abbrev pub joins : Game → TeamId → MoveResolutionPlan → Piece → Bool
joins game team plan piece =
    game.settings.stacking_enabled
    && (not (plan.destination_state == piece_finished)
        && (piece.team_id == team && at_destination plan piece))

captured_at :
    (game : Game) (team : TeamId) (plan : MoveResolutionPlan) (i : ℕ) {p : Piece}
    → get_elem? game.pieces i ≡ some p
    → contains (captured_piece_indices game team plan) i ≡ captures team plan p
unfolding captured_piece_indices
captured_at game team plan i {p} e = ground (
  arith,
  contains-indices_where (λ _ piece. not (piece.team_id == team) && at_destination plan piece) 0 i
      game.pieces,
)

ally_at :
    (game : Game) (team : TeamId) (plan : MoveResolutionPlan) (i : ℕ) {p : Piece}
    → get_elem? game.pieces i ≡ some p
    → contains (final_group game team plan) i
      ≡ (contains plan.moving_indices i || joins game team plan p)
unfolding destination_allies
ally_at game team plan i {p} e = ground (
  arith,
  contains-append plan.moving_indices (destination_allies game team plan) i,
  contains-indices_where
      (λ j piece.
        not (contains plan.moving_indices j)
        && (piece.team_id == team && at_destination plan piece))
      0 i game.pieces,
)

-- What becomes of the piece at a place.
abbrev pub fate : Game → TeamId → MoveResolutionPlan → ℕ → Piece → Piece
fate game team plan i piece =
    if contains plan.moving_indices i || joins game team plan piece
    then arrived plan piece
    else if captures team plan piece
    then sent_back piece
    else piece

-- The resolution of a movement moves the pieces at the moving places, and, when pieces stack, the
-- allies at the destination with them; it sends back the opponents there, unless the pieces
-- finish; and it leaves every other piece.
pub apply_move_resolution-fate :
    (game : Game) (team : TeamId) (id : PieceId) (result : YutResult) (plan : MoveResolutionPlan)
    (i : ℕ) {p : Piece}
    → get_elem? game.pieces i ≡ some p
    → get_elem? (apply_move_resolution game team id result plan).0.pieces i
      ≡ some (fate game team plan i p)
unfolding apply_move_resolution moved_pieces
apply_move_resolution-fate game team id result plan i {p} e =
    let back =
      change_all-get sent_back (captured_piece_indices game team plan) i game.pieces (λ q. refl) in
    let there =
      change_all-get (arrived plan) (final_group game team plan) i
        (change_all sent_back (captured_piece_indices game team plan) game.pieces) (λ q. refl) in
    ground (arith, captured_at game team plan i e, ally_at game team plan i e)

fate_no_opponent :
    (game : Game) (team : TeamId) (plan : MoveResolutionPlan) (i : ℕ) (p : Piece)
    → plan.destination_state ≢ piece_finished
    → plan.destination_state ≢ piece_waiting
    → (contains plan.moving_indices i ≡ true → p.team_id ≡ team)
    → (fate game team plan i p).team_id ≢ team
    → at_destination plan (fate game team plan i p) ≡ false
fate_no_opponent game team plan i p f w m o = elim (Bool-cases (contains plan.moving_indices i)) [
  | inl e ↦ absurd (ground (arith, m e))
  | inr e ↦ ground arith
]

-- After a movement of a team's own pieces to a space, no piece of the other team stands there.
pub no_opponent_left :
    (game : Game) (team : TeamId) (id : PieceId) (result : YutResult) (plan : MoveResolutionPlan)
    (i : ℕ) {p q : Piece}
    → plan.destination_state ≢ piece_finished
    → plan.destination_state ≢ piece_waiting
    → get_elem? game.pieces i ≡ some p
    → (contains plan.moving_indices i ≡ true → p.team_id ≡ team)
    → get_elem? (apply_move_resolution game team id result plan).0.pieces i ≡ some q
    → q.team_id ≢ team
    → at_destination plan q ≡ false
no_opponent_left game team id result plan i {p} {q} f w e m h o =
    let become = apply_move_resolution-fate game team id result plan i e in
    let same : fate game team plan i p ≡ q = ground arith in
    subst (λ x. at_destination plan x ≡ false) same
      (fate_no_opponent game team plan i p f w m
        (subst (λ (x : Piece). x.team_id ≢ team) (sym same) o))

-- What the match reports to the turn of a movement is consistent: the turn's validation accepts it.
pub turn_outcome-valid :
    (game : Game) (team : TeamId) (id : PieceId) (result : YutResult) (plan : MoveResolutionPlan)
    → validate_move_outcome (turn_outcome (apply_move_resolution game team id result plan).1)
      ≡ ok tt
unfolding validate_move_outcome turn_outcome apply_move_resolution
turn_outcome-valid game team id result plan =
    elim (Bool-cases (all_team_pieces_finished (moved_pieces game team plan) team)) [
      | inl e ↦ ground arith
      | inr e ↦ ground arith
    ]

-- A resolution makes no piece.
pub apply_move_resolution-none :
    (game : Game) (team : TeamId) (id : PieceId) (result : YutResult) (plan : MoveResolutionPlan)
    (i : ℕ)
    → get_elem? game.pieces i ≡ none
    → get_elem? (apply_move_resolution game team id result plan).0.pieces i ≡ none
unfolding apply_move_resolution moved_pieces
apply_move_resolution-none game team id result plan i e =
    let back =
      change_all-get sent_back (captured_piece_indices game team plan) i game.pieces (λ q. refl) in
    let there =
      change_all-get (arrived plan) (final_group game team plan) i
        (change_all sent_back (captured_piece_indices game team plan) game.pieces) (λ q. refl) in
    ground arith
