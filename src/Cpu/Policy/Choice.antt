-- ===== src/Cpu/Policy/Choice.antt =====
-- The decision of a CPU player: legal, best, and about the head of the queue.
use buk_yutnori.Prelude.{
  ℕ, suc, zero, ◌≡◌, subst, Bool, not, ◌||◌, List, [], ◌∷◌, none, some, ◌==◌, string_eq, length,
  get_elem?, arith, Option-cases, Bool-cases, inl, inr, All,
}
use buk_yutnori.Prelude.Result.{Result, ok, err, guard, Result-cases, >>=-eq-ok}
use buk_yutnori.Domain.{
  Error, PieceId, TeamId, team_eq, YutResult, yut_buk, yut_eq, YutResult-discrete, piece_finished,
  piece_state_eq, invalid_decision_input, validate_yut_result, validate_team_id,
}
use buk_yutnori.Turn.Token
use buk_yutnori.Turn.Token.{ResultToken}
use buk_yutnori.Match.Types.{Piece}
use buk_yutnori.Match.Game.{Game}
use buk_yutnori.Cpu.Ranking.{MoveCandidate, best_candidates}
use buk_yutnori.Cpu.Ranking.Unbeaten.{keep, unbeaten, best_candidates-unbeaten}
use buk_yutnori.Cpu.Policy.{
  Decision, action_move_piece, MatchReader, reader, Policy, candidate_for_piece, moved_group_key,
  seen_key, candidates_from, move_candidates, candidate_at, random_candidate, decide_head,
  no_winner, decide, or_input,
}
use buk_yutnori.Cpu.Policy.Legal.{Applies, Legal, candidate-Legal}

candidates-Legal :
    (policy : Policy) (game : Game) (team : TeamId) (result : YutResult)
    (seen : List (List PieceId)) (ps : List Piece) {cs : List MoveCandidate}
    → candidates_from policy (reader game) team result seen ps ≡ ok cs
    → All (Legal game team result) cs
unfolding candidates_from
candidates-Legal policy game team result seen [] {cs} h =
    let same : [] ≡ cs = ground arith in subst (All (Legal game team result)) same tt
candidates-Legal policy game team result seen (p ∷ ps) {cs} h =
    elim (Bool-cases (not (p.team_id == team) || p.state == piece_finished)) [
      | inl s ↦ candidates-Legal policy game team result seen ps (ground arith)
      | inr s ↦ elim (Result-cases (candidate_for_piece policy (reader game) team p result)) [
        | inr (e, k) ↦ absurd (ground arith)
        | inl (none, k) ↦ candidates-Legal policy game team result seen ps (ground arith)
        | inl (some c, k) ↦ elim (Result-cases (moved_group_key c.moved_ids)) [
          | inr (e, l) ↦ absurd (ground arith)
          | inl (key, l) ↦ elim (Bool-cases (seen_key seen key)) [
            | inl d ↦ candidates-Legal policy game team result seen ps (ground arith)
            | inr d ↦
                elim (Result-cases
                  (candidates_from policy (reader game) team result (key ∷ seen) ps)) [
                    | inr (e, m) ↦ absurd (ground arith)
                    | inl (rest, m) ↦
                        let legal = candidate-Legal policy game team p result k in
                        let more = candidates-Legal policy game team result (key ∷ seen) ps m in
                        let same : c ∷ rest ≡ cs = ground arith in
                        subst (All (Legal game team result)) same (legal, more)
                  ]
          ]
        ]
      ]
    ]

keep-All :
    (P : MoveCandidate → Type 0) (f : MoveCandidate → Bool) (cs : List MoveCandidate)
    → All P cs
    → All P (keep f cs)
keep-All P f [] a = tt
keep-All P f (c ∷ cs) a = elim (Bool-cases (f c)) [
  | inl e ↦ rw e (a.0, keep-All P f cs a.1)
  | inr e ↦ rw e (keep-All P f cs a.1)
]

get-All :
    (P : MoveCandidate → Type 0) (cs : List MoveCandidate) (i : ℕ) {c : MoveCandidate}
    → All P cs
    → get_elem? cs i ≡ some c
    → P c
get-All P [] i a h = absurd (ground arith)
get-All P (d ∷ cs) zero {c} a h = subst P (ground arith) a.0
get-All P (d ∷ cs) (suc i) a h = get-All P cs i a.1 h

candidate_at-get :
    (cs : List MoveCandidate) (i : ℕ) {c : MoveCandidate}
    → candidate_at cs i ≡ ok c
    → get_elem? cs i ≡ some c
candidate_at-get cs i {c} h = elim (Option-cases (get_elem? cs i)) [
  | inl n ↦ absurd (ground arith)
  | inr (d, e) ↦ ground arith
]

random_candidate-All :
    (P : MoveCandidate → Type 0) (policy : Policy) (cs : List MoveCandidate) {c : MoveCandidate}
    → All P cs
    → random_candidate policy cs ≡ ok c
    → P c
unfolding random_candidate
random_candidate-All P policy [] a h =
    get-All P [] (policy.random_source 0) a
      (candidate_at-get [] (policy.random_source 0) (ground arith))
random_candidate-All P policy (d ∷ []) {c} a h = subst P (ground arith) a.0
random_candidate-All P policy (d ∷ e ∷ cs) a h =
    let ticket = policy.random_source (length (d ∷ e ∷ cs)) in
    get-All P (d ∷ e ∷ cs) ticket a (candidate_at-get (d ∷ e ∷ cs) ticket (ground arith))

-- The candidates, and the one that a decision to move a piece selects among the best.
record Chosen (policy : Policy) (game : MatchReader) (team : TeamId) (d : Decision) : Type 0 where
  first : MoveCandidate
  rest : List MoveCandidate
  selected : MoveCandidate
  candidates : move_candidates policy game team d.result ≡ ok (first ∷ rest)
  random : random_candidate policy (best_candidates first rest) ≡ ok selected
  piece : d.piece_id ≡ selected.piece.id
  route : d.route ≡ selected.apply_route

decided :
    (policy : Policy) (game : MatchReader) (token : ResultToken) (team : TeamId) {d : Decision}
    → decide_head policy game team token ≡ ok d
    → d.action ≡ action_move_piece
    → Chosen policy game team d
decided policy game token team {d} h a = elim (YutResult-discrete token.result yut_buk) [
  | yes b ↦ absurd (ground arith)
  | no b ↦ elim (Result-cases (move_candidates policy game team token.result)) [
    | inr (e, k) ↦ absurd (ground arith)
    | inl ([], k) ↦ absurd (ground arith)
    | inl (c ∷ cs, k) ↦ elim (Result-cases (random_candidate policy (best_candidates c cs))) [
      | inr (e, l) ↦ absurd (ground arith)
      | inl (s, l) ↦
          let same : token.result ≡ d.result = ground arith in
          record {
            first = c;
            rest = cs;
            selected = s;
            candidates = rw (← same) k;
            random = l;
            piece = ground arith;
            route = ground arith;
          }
    ]
  ]
]

input-ok : (r : Result Error (Unit {0})) {u : Unit {0}} → or_input r ≡ ok u → r ≡ ok u
input-ok (ok u) h = ground arith
input-ok (err e) h = absurd (ground arith)

candidates-all :
    (policy : Policy) (game : Game) (team : TeamId) (result : YutResult) {cs : List MoveCandidate}
    → move_candidates policy (reader game) team result ≡ ok cs
    → All (Legal game team result) cs
unfolding move_candidates reader
candidates-all policy game team result {cs} h =
    let (_, _, h1) = >>=-eq-ok (guard (not (result == yut_buk)) invalid_decision_input) _ h in
    let (_, _, h2) = >>=-eq-ok (or_input (validate_yut_result result)) _ h1 in
    candidates-Legal policy game team result [] game.pieces h2

Chosen-Applies :
    (policy : Policy) (game : Game) (team : TeamId) (d : Decision)
    → Chosen policy (reader game) team d
    → Applies game team d.piece_id d.result d.route
Chosen-Applies policy game team d c =
    let legal = candidates-all policy game team d.result c.candidates in
    let P : MoveCandidate → Type 0 = Legal game team d.result in
    let all = c.first ∷ c.rest in
    let best : All P (best_candidates c.first c.rest) =
      rw (best_candidates-unbeaten c.first c.rest) (keep-All P (unbeaten all) all legal) in
    rw (c.piece, c.route)
      (random_candidate-All P policy (best_candidates c.first c.rest) best c.random)

-- A movement that a CPU player decides on, for any random source, is one that the game makes.
pub decided_move-Applies :
    (policy : Policy) (game : Game) (tokens : List ResultToken) (team : TeamId) {d : Decision}
    → decide policy (reader game) tokens team ≡ ok d
    → d.action ≡ action_move_piece
    → Applies game team d.piece_id d.result d.route
unfolding decide
decided_move-Applies policy game [] team h a =
    let (_, _, h1) = >>=-eq-ok (or_input (validate_team_id team)) _ h in absurd (ground arith)
decided_move-Applies policy game (token ∷ tokens) team {d} h a =
    let (_, _, h1) = >>=-eq-ok (or_input (validate_team_id team)) _ h in
    let (_, _, h2) = >>=-eq-ok (or_input (Token.validate token)) _ h1 in
    let (_, _, h3) = >>=-eq-ok (no_winner (reader game)) _ h2 in
    Chosen-Applies policy game team d (decided policy (reader game) token team h3 a)
