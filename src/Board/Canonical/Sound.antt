-- ===== src/Board/Canonical/Sound.antt =====
-- The canonical board has what the theorems on movements ask of a graph.
use buk_yutnori.Prelude.{
  ◌≡◌, refl, Bool, true, false, ◌&&◌, List, [], ◌∷◌, some, string_eq, text_discrete, arith, ◌≢◌,
  contains, lookup, subst,
}
use buk_yutnori.Domain.{SpaceId}
use buk_yutnori.Board.Types.{known, node, adjacency, targets, has_forward_edge, choice, forced}
use buk_yutnori.Board.Forward.Shape.{IsSound}
use buk_yutnori.Board.Backdo.Reversal.{IsClosed}
use buk_yutnori.Board.Canonical.{canonical_graph}

abbrev all : {A : Type 0} → (A → Bool) → List A → Bool
all f [] = true
all f (x ∷ xs) = f x && all f xs

lookup-all :
    {V : Type 0} (f : SpaceId → V → Bool) (k : SpaceId) (entries : List (SpaceId × V)) {v : V}
    → all (λ e. f e.0 e.1) entries ≡ true
    → lookup k entries ≡ some v
    → f k v ≡ true
lookup-all f k [] a h = absurd (ground arith)
lookup-all f k ((j, w) ∷ entries) {v} a h = ground (arith, lookup-all f k entries {v = v})

targets-all :
    (f : SpaceId → Bool) (k : SpaceId) (edges : List (SpaceId × SpaceId)) {d : SpaceId}
    → all (λ e. f e.1) edges ≡ true
    → contains (targets edges k) d ≡ true
    → f d ≡ true
targets-all f k [] a h = absurd (ground arith)
targets-all f k ((s, t) ∷ edges) {d} a h = ground (arith, targets-all f k edges {d = d})

pub canonical-IsSound : IsSound canonical_graph
unfolding choice forced has_forward_edge adjacency text_discrete
canonical-IsSound = record {
  normal_edge = λ s c h.
      lookup-all (λ k v. has_forward_edge canonical_graph k v.normal) s
        canonical_graph.route_choices {v = c} refl h;
  shortcut_edge = λ s c h.
      lookup-all (λ k v. has_forward_edge canonical_graph k v.shortcut) s
        canonical_graph.route_choices {v = c} refl h;
  forced_edge = λ s d h.
      lookup-all (λ k v. has_forward_edge canonical_graph k v) s canonical_graph.forced_edges
        {v = d} refl h;
}

unknown_empty : known canonical_graph "" ≡ false
unfolding node text_discrete
unknown_empty = refl

no_empty : known canonical_graph "" ≢ true
no_empty h = ground (arith, unknown_empty)

pub canonical-IsClosed : IsClosed canonical_graph
unfolding has_forward_edge adjacency node text_discrete
canonical-IsClosed = record {
  target =
      λ s d h. targets-all (λ k. known canonical_graph k) s canonical_graph.edges {d = d} refl h;
  named = λ s h e. no_empty (subst (λ k. known canonical_graph k ≡ true) e h);
}
