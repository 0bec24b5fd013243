-- ===== src/CycleGraph/Propagation.antt =====
-- The propagation of clocks ends with every edge in order (cyclegraph.cc, `addNodeEdge`).
use mathlib.Core.Option.{some-injective}
use c11tester.Base.{
  ℕ, zero, suc, ◌≤◌, ◌≡◌, ◌⊎◌, inl, inr, subst, ◌==◌, some, List, [], ◌∷◌, arith, Bool-cases,
}
use c11tester.CycleGraph.{CycleGraph, relax, relax_edges, propagate}
use c11tester.CycleGraph.Edges.{
  In, Edge, clock_at, Grows, Grows-refl, Grows-trans, Grows-relax, clock-relax, relax_cases,
}

-- What one end of an edge knows the other knows.
abbrev pub Ordered : CycleGraph → ℕ → ℕ → Type 0
Ordered g u v = (t : ℕ) → clock_at g u t ≤ clock_at g v t

-- Every edge is in order, but for those out of the nodes in the queue.
abbrev pub Settled : CycleGraph → List ℕ → Type 0
Settled g queue = (u v : ℕ) → Edge g u v → In u queue ⊎ Ordered g u v

-- The same while the edges of `n` are gone through, with `rest` still to come.
abbrev pub Settling : CycleGraph → List ℕ → ℕ → List ℕ → Type 0
Settling g queue n rest =
    (u v : ℕ) → Edge g u v → In u queue ⊎ (Ordered g u v ⊎ (u ≡ n) × In v rest)

-- If the clock of `e` did not change, the edge to it is in order.
kept_edge :
    (g : CycleGraph) (n e : ℕ) (es queue : List ℕ) (u v : ℕ)
    → Ordered g n e
    → ((w t : ℕ) → clock_at (relax g n e queue).0 w t ≡ clock_at g w t)
    → In u queue ⊎ (Ordered g u v ⊎ (u ≡ n) × In v (e ∷ es))
    → In u queue ⊎ (Ordered (relax g n e queue).0 u v ⊎ (u ≡ n) × In v es)
kept_edge g n e es queue u v below same (inl q) = inl q
kept_edge g n e es queue u v below same (inr (inl o)) =
    inr (inl (λ t. omega (arith, o t, same u t, same v t)))
kept_edge g n e es queue u v below same (inr (inr (p, inl h))) =
    inr (inl (λ t. rw (p, h) (omega (arith, below t, same n t, same e t))))
kept_edge g n e es queue u v below same (inr (inr (p, inr h))) = inr (inr (p, h))

-- If it did, `e` is in the queue, and the edges into it are in order as before.
pushed_edge :
    (g : CycleGraph) (n e : ℕ) (es queue : List ℕ) (u v : ℕ)
    → In u queue ⊎ (Ordered g u v ⊎ (u ≡ n) × In v (e ∷ es))
    → In u (e ∷ queue) ⊎ (Ordered (relax g n e queue).0 u v ⊎ (u ≡ n) × In v es)
pushed_edge g n e es queue u v (inl q) = inl (inr q)
pushed_edge g n e es queue u v (inr (inl o)) = elim (Bool-cases (e == u)) [
  | inl same ↦ inl (inl (ground arith))
  | inr other ↦
      inr (inl λ t. ground (arith, o t, clock-relax g n e queue u t, clock-relax g n e queue v t))
]
pushed_edge g n e es queue u v (inr (inr (p, inl h))) = elim (Bool-cases (e == u)) [
  | inl same ↦ inl (inl (ground arith))
  | inr other ↦ inr (
      inl λ t.
        rw (p, h) (ground (arith, p, clock-relax g n e queue n t, clock-relax g n e queue e t)))
]
pushed_edge g n e es queue u v (inr (inr (p, inr h))) = inr (inr (p, h))

pub Settling-relax :
    (g : CycleGraph) (n e : ℕ) (es queue : List ℕ)
    → Settling g queue n (e ∷ es)
    → Settling (relax g n e queue).0 (relax g n e queue).1 n es
Settling-relax g n e es queue s u v edge =
    let old = s u v (subst (In v) ((Grows-relax g n e queue).same_edges u) edge) in
    elim (relax_cases g n e queue) [
      | inl (pushed, _) ↦ rw pushed (pushed_edge g n e es queue u v old)
      | inr (kept, below, same) ↦ rw kept (kept_edge g n e es queue u v below same old)
    ]

relax_edges-Settling :
    (g : CycleGraph) (n : ℕ) (es queue : List ℕ)
    → Settling g queue n es
    → Settling (relax_edges g n es queue).0 (relax_edges g n es queue).1 n []
unfolding relax_edges
relax_edges-Settling g n [] queue s = s
relax_edges-Settling g n (e ∷ es) queue s =
    relax_edges-Settling (relax g n e queue).0 n es (relax g n e queue).1
      (Settling-relax g n e es queue s)

Grows-relax_edges :
    (g : CycleGraph) (n : ℕ) (es queue : List ℕ) → Grows g (relax_edges g n es queue).0
unfolding relax_edges
Grows-relax_edges g n [] queue = Grows-refl g
Grows-relax_edges g n (e ∷ es) queue =
    Grows-trans (Grows-relax g n e queue)
      (Grows-relax_edges (relax g n e queue).0 n es (relax g n e queue).1)

open_node :
    (g : CycleGraph) (n : ℕ) (queue : List ℕ)
    → Settled g (n ∷ queue)
    → Settling g queue n (g.node n).edges
open_node g n queue s u v edge = elim (s u v edge) [
  | inl (inl p) ↦ inr (inr (p, subst (λ x. In v (g.node x).edges) p edge))
  | inl (inr q) ↦ inl q
  | inr o ↦ inr (inl o)
]

pub close_node : (g : CycleGraph) (n : ℕ) (queue : List ℕ) → Settling g queue n [] → Settled g queue
close_node g n queue s u v edge = elim (s u v edge) [
  | inl q ↦ inl q
  | inr (inl o) ↦ inr o
  | inr (inr (p, h)) ↦ absurd h
]

-- If at the start every edge is in order but for those out of nodes in the queue, then at the end
-- of the propagation every edge is in order: what its source knows its target knows. Edges,
-- actions and RMW links are as before, and no clock is smaller.
pub propagate-Settled :
    (fuel : ℕ) (g h : CycleGraph) (queue : List ℕ)
    → Settled g queue
    → propagate fuel g queue ≡ some h
    → Settled h [] × Grows g h
unfolding propagate
propagate-Settled zero g h [] s e =
    subst (λ x. Settled x [] × Grows g x) (some-injective _ _ e) (s, Grows-refl g)
propagate-Settled (suc fuel) g h [] s e =
    subst (λ x. Settled x [] × Grows g x) (some-injective _ _ e) (s, Grows-refl g)
propagate-Settled zero g h (n ∷ queue) s e = cc
propagate-Settled (suc fuel) g h (n ∷ queue) s e =
    let es = (g.node n).edges in
    let opened : Settling g queue n es = open_node g n queue s in
    let closed = relax_edges-Settling g n es queue opened in
    let (done, grown) =
      propagate-Settled fuel (relax_edges g n es queue).0 h (relax_edges g n es queue).1
        (close_node (relax_edges g n es queue).0 n (relax_edges g n es queue).1 closed) e in
    (done, Grows-trans (Grows-relax_edges g n es queue) grown)
