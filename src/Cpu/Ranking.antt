-- ===== src/Cpu/Ranking.antt =====
-- internal/domain/cpu/policy.go, the ranking of the movements that a CPU player may choose.
pub mod Unbeaten
use buk_yutnori.Prelude.{
  ℕ, Bool, true, false, ◌&&◌, not, List, [], ◌∷◌, ◌++◌, if◌then◌else◌, ltb, eqb,
}
use buk_yutnori.Domain.{PieceId, SpaceId, PieceState, Route}
use buk_yutnori.Match.Types.{Piece}

pub record MoveCandidate : Type 0 where
  pub piece : Piece
  pub moved_ids : List PieceId
  pub apply_route : Route
  pub plan_route : Route
  pub destination : PieceState
  pub space : SpaceId
  pub immediate_finish : Bool
  pub captures : Bool
  pub stacks : Bool
  pub enters_shortcut : Bool
  pub has_distance : Bool
  pub distance : ℕ

-- The signs -1, 0 and 1.
pub data Comparison : Type 0 where
  worse same better : Comparison

abbrev pub compare_bool : Bool → Bool → Comparison
compare_bool true true = same
compare_bool true false = better
compare_bool false true = worse
compare_bool false false = same

-- The first comparison that is not 0.
abbrev pub then_by : Comparison → Comparison → Comparison
then_by same c = c
then_by c _ = c

abbrev pub compare_distance : MoveCandidate → MoveCandidate → Comparison
compare_distance left right =
    if left.has_distance && not (eqb left.distance right.distance)
    then (if ltb left.distance right.distance then better else worse)
    else same

unfoldable pub compare_candidates : MoveCandidate → MoveCandidate → Comparison
compare_candidates left right =
    then_by (compare_bool left.immediate_finish right.immediate_finish) (
      then_by (compare_bool left.captures right.captures) (
        then_by (compare_bool left.stacks right.stacks) (
          then_by (compare_bool left.enters_shortcut right.enters_shortcut) (
            then_by (compare_bool left.has_distance right.has_distance)
              (compare_distance left right)))))

-- `best`, which is never empty: its first candidate and the others.
pub record Best : Type 0 where
  pub top : MoveCandidate
  pub others : List MoveCandidate

abbrev pub compared : Comparison → MoveCandidate → Best → Best
compared better c best = record { top = c; others = [] }
compared same c best = record best { others = best.others ++ c ∷ [] }
compared worse c best = best

-- The loop over `candidates[1:]`.
unfoldable pub rank : Best → List MoveCandidate → Best
rank best [] = best
rank best (c ∷ cs) = rank (compared (compare_candidates c best.top) c best) cs

unfoldable pub best_candidates : MoveCandidate → List MoveCandidate → List MoveCandidate
best_candidates first rest =
    let best = rank (record { top = first; others = [] }) rest in best.top ∷ best.others
