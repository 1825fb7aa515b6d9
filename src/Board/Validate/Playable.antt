-- ===== src/Board/Validate/Playable.antt =====
-- A graph in which Validate finds nothing wrong is one that the movements can rely on.
use buk_yutnori.Prelude.{
  ℕ, suc, ◌≡◌, refl, sym, subst, Bool, true, false, not, ◌&&◌, List, [], ◌∷◌, ◌++◌, some, ◌==◌,
  string_eq, nat_eq, contains, arith, inl, inr, Bool-cases, Option-cases, lookup,
}
use buk_yutnori.Domain.{SpaceId}
use buk_yutnori.Board.Types.{
  Node, RouteChoice, Graph, node, find_node, known, adjacency, targets, has_forward_edge, choice,
  forced, is_some,
}
use buk_yutnori.Board.Forward.Shape.{IsSound}
use buk_yutnori.Board.Backdo.Reversal.{IsClosed}
use buk_yutnori.Board.Validate.{
  Problem, unknown_start, when, id_problems, space_problems, edge_problems, choice_problem,
  choice_problems, forced_problem, forced_problems,
}

append_none : (ps qs : List Problem) → ps ++ qs ≡ [] → (ps ≡ []) × (qs ≡ [])
append_none [] qs h = (refl, h)
append_none (p ∷ ps) qs h = absurd (ground arith)

when_not : (b : Bool) (p : Problem) → when b p ≡ [] → b ≡ false
when_not true p h = absurd (ground arith)
when_not false p h = refl

named_nodes :
    (index : ℕ) (ns : List Node) → id_problems index ns ≡ [] → is_some (find_node ns "") ≡ false
unfolding id_problems
named_nodes index [] h = refl
named_nodes index (n ∷ ns) h =
    let (a, b) = append_none (when (n.id == "") _) _ h in
    let c = when_not (n.id == "") _ a in ground (arith, named_nodes (suc index) ns b)

known_targets :
    (g : Graph) (es : List (SpaceId × SpaceId)) (s d : SpaceId)
    → edge_problems g es ≡ []
    → contains (targets es s) d ≡ true
    → known g d ≡ true
unfolding edge_problems
known_targets g [] s d h c = absurd (ground arith)
known_targets g ((from, to) ∷ es) s d h c =
    let (_, h1) = append_none (when (not (known g from)) _) _ h in
    let (a, h2) = append_none (when (not (known g to)) _) _ h1 in
    let (_, h3) = append_none (when (from == to) _) _ h2 in
    let k = when_not (not (known g to)) _ a in
    elim (Bool-cases (from == s && to == d)) [
      | inl e ↦
          let same : to ≡ d = ground arith in subst (λ x. known g x ≡ true) same (ground arith)
      | inr e ↦ known_targets g es s d h3 (ground arith)
    ]

abbrev ByEdges : Graph → SpaceId → RouteChoice → Type 0
ByEdges g s c = (has_forward_edge g s c.normal ≡ true) × (has_forward_edge g s c.shortcut ≡ true)

choice-ByEdges :
    (g : Graph) (cs : List (SpaceId × RouteChoice)) (s : SpaceId) (c : RouteChoice)
    → choice_problems g cs ≡ []
    → lookup s cs ≡ some c
    → ByEdges g s c
unfolding choice_problems choice_problem
choice-ByEdges g [] s c h l = absurd (ground arith)
choice-ByEdges g ((source, d) ∷ cs) s c h l =
    let (here, later) = append_none (choice_problem g source d) _ h in
    let (_, h1) = append_none (when (not (known g source)) _) _ here in
    let (_, h2) = append_none (when (not (known g d.normal)) _) _ h1 in
    let (_, h3) = append_none (when (not (known g d.shortcut)) _) _ h2 in
    let (_, h4) = append_none (when (d.normal == d.shortcut) _) _ h3 in
    let (a, h5) = append_none (when (not (has_forward_edge g source d.normal)) _) _ h4 in
    let (b, _) = append_none (when (not (has_forward_edge g source d.shortcut)) _) _ h5 in
    let normal = when_not (not (has_forward_edge g source d.normal)) _ a in
    let shortcut = when_not (not (has_forward_edge g source d.shortcut)) _ b in
    elim (Bool-cases (source == s)) [
      | inl e ↦
          let at : source ≡ s = ground arith in
          let same : d ≡ c = ground arith in
          subst (λ x. ByEdges g s x) same
            (subst (λ x. ByEdges g x d) at (ground arith, ground arith))
      | inr e ↦ choice-ByEdges g cs s c later (ground arith)
    ]

forced_choice :
    (g : Graph) (es : List (SpaceId × SpaceId)) (s d : SpaceId)
    → forced_problems g es ≡ []
    → lookup s es ≡ some d
    → (c : RouteChoice) × (choice g s ≡ some c) × (d ≡ c.shortcut)
unfolding forced_problems
forced_choice g [] s d h l = absurd (ground arith)
forced_choice g ((source, destination) ∷ es) s d h l =
    let (here, later) = append_none (forced_problem source destination (choice g source)) _ h in
    elim (Bool-cases (source == s)) [
      | inr e ↦ forced_choice g es s d later (ground arith)
      | inl e ↦
          let at : source ≡ s = ground arith in
          elim (Option-cases (choice g source)) [
            | inl n ↦ absurd (ground arith)
            | inr (c, k) ↦ (c, subst (λ x. choice g x ≡ some c) at k, ground arith)
          ]
    ]

-- A graph in which Validate finds no problem with the identifiers of the nodes, the start, the ends
-- of the edges, the route choices and the forced edges is sound and closed, and its start is a
-- space: what the movements rely on.
pub validated :
    (g : Graph)
    → id_problems 0 g.nodes ≡ []
    → space_problems g ≡ []
    → edge_problems g g.edges ≡ []
    → choice_problems g g.route_choices ≡ []
    → forced_problems g g.forced_edges ≡ []
    → IsSound g × IsClosed g × (known g g.start_space ≡ true)
unfolding space_problems choice forced has_forward_edge adjacency node
validated g ids spaces edges choices forceds =
    let (start, _) = append_none (when (not (known g g.start_space)) _) _ spaces in
    let by = choice-ByEdges g g.route_choices in
    (
      record {
        normal_edge = λ s c e. (by s c choices e).0;
        shortcut_edge = λ s c e. (by s c choices e).1;
        forced_edge = λ s d e.
            let (c, k, same) = forced_choice g g.forced_edges s d forceds e in
            subst (λ x. has_forward_edge g s x ≡ true) (sym same) (by s c choices k).1;
      },
      record {
        target = λ s d e. known_targets g g.edges s d edges e;
        named = λ s k e.
            let unnamed = named_nodes 0 g.nodes ids in
            let at : known g "" ≡ true = subst (λ x. known g x ≡ true) e k in ground arith;
      },
      ground (arith, when_not (not (known g g.start_space)) unknown_start start),
    )
